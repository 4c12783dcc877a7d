-- ===== src/Sthread/Manager.antt =====
-- The manager thread of hw3/sthread.c: how it makes threads, and its loop.
pub mod Create
pub mod Exit
use osandroid_kernel.Prelude.{
  ℕ, zero, suc, ◌^◌, ◌-◌, ◌≡◌, Bool, true, false, ◌&&◌, ◌||◌, not, Option, none, some, List, [],
  ◌∷◌, ◌++◌, ◌==◌, if◌then◌else◌,
}
use osandroid_kernel.Prelude.Int.{ℤ, pos, negsuc, eqb_ℤ}
use osandroid_kernel.Sthread.{
  Ptr, Thread, Threads, Call, close, free, kill, exit, Result, done, exited, aborted, faulted,
  then_do, update, note, threadlist_findbypid, threadlist_add, threadlist_del, thread_dealloc,
  sthread_wake,
}

abbrev pub def_stack_size : ℕ
def_stack_size = 4194304

-- MAP_FAILED
abbrev pub map_failed : Ptr
map_failed = 2 ^ 32 - 1

abbrev pub sigkill : ℕ
sigkill = 9

abbrev pub sigusr2 : ℕ
sigusr2 = 12

-- What the calls of `do_create` answer: mmap, pipe, malloc and clone; `none` for a failure, which for
-- clone is -1.
pub record Answers : Type 0 where
  pub mmap_stack : Option Ptr
  pub pipe_ends : Option (ℤ × ℤ)
  pub start_struct : Option Ptr
  pub clone_pid : ℤ

pub data Message : Type 0 where
  msg_create : (caller : Ptr) (main : Ptr) (thread : Ptr) → Message
  msg_thread_exit msg_all_exit : (caller : Ptr) → Message

-- A round of the manager: whether its parent is gone, the children it reaps with the signal each
-- died of, and the message it reads.
pub record Round : Type 0 where
  pub orphaned : Bool
  pub reaped : List (ℤ × Option ℕ)
  pub answers : Answers
  pub message : Message

-- Whom a message to exit ends: neither the manager nor its sender.
abbrev pub is_other : (manager t p : Ptr) → Bool
is_other manager t p = not (p == manager) && not (p == t)

module _ (manager main_thread : Ptr) where
  pub create_failed : (caller : Ptr) → Threads → Threads
  create_failed caller s =
      update caller (λ v. record v { err = (s.thread manager).err; status = negsuc 0 }) s

  -- From `clone` on.
  create_clone : (clone_pid : ℤ) (stack ss : Ptr) (caller t : Ptr) → Threads → Result
  create_clone clone_pid stack ss caller t s =
      let s' = update t (λ v. record v { pid = clone_pid }) (threadlist_add t s) in
      if eqb_ℤ clone_pid (negsuc 0)
      then then_do (threadlist_del manager t s') (λ s''. done (
          create_failed caller (
            note
              (free stack
                ∷ close (s''.thread t).pipe_write
                ∷ close (s''.thread t).pipe_read
                ∷ free ss
                ∷ [])
              s'')))
      else done s'

  create_start : Option Ptr → (clone_pid : ℤ) (stack : Ptr) (caller t : Ptr) → Threads → Result
  unfolding create_clone
  create_start none clone_pid stack caller t s = done (
      create_failed caller
        (note (free stack ∷ close (s.thread t).pipe_write ∷ close (s.thread t).pipe_read ∷ []) s))
  create_start (some ss) clone_pid stack caller t s = create_clone clone_pid stack ss caller t s

  create_pipe : Option (ℤ × ℤ) → Answers → (stack : Ptr) (caller t : Ptr) → Threads → Result
  unfolding create_start
  create_pipe none a stack caller t s = done (create_failed caller (note (free stack ∷ []) s))
  create_pipe (some (r, w)) a stack caller t s =
      create_start a.start_struct a.clone_pid stack caller t
        (update t (λ v. record v { pipe_read = r; pipe_write = w }) s)

  create_stack : Option Ptr → Answers → (caller t : Ptr) → Threads → Result
  unfolding create_pipe
  create_stack none a caller t s =
      done (create_failed caller (update t (λ v. record v { stack = map_failed }) s))
  create_stack (some k) a caller t s =
      create_pipe a.pipe_ends a k caller t (update t (λ v. record v { stack = k }) s)

  pub do_create : Answers → (caller t main : Ptr) → Threads → Result
  unfolding create_stack
  do_create a caller t main s = create_stack a.mmap_stack a caller t (
      update t
        (λ v. record v { main = main; running = false; status = pos 0; stacksize = def_stack_size })
        (update caller (λ v. record v { status = pos 0; err = pos 0 }) s))

  -- A signal for all others.
  pub kill_others : (t : Ptr) (sig : ℕ) → List Ptr → Threads → Threads
  kill_others t sig [] s = s
  kill_others t sig (p ∷ ps) s =
      kill_others t sig ps
        (if is_other manager t p then note (kill (s.thread p).pid sig ∷ []) s else s)

  -- The loop that waits for all others. It reads `next` of a thread that it has just freed: here
  -- that memory still has its old value.
  pub dealloc_others : (t : Ptr) → List Ptr → Threads → Result
  dealloc_others t [] s = done s
  dealloc_others t (p ∷ ps) s =
      then_do (if is_other manager t p then thread_dealloc manager p s else done s)
        (λ s'. dealloc_others t ps s')

  -- A signal for every thread before the manager.
  pub kill_until_manager : (sig : ℕ) → List Ptr → Threads → Threads
  kill_until_manager sig [] s = s
  kill_until_manager sig (p ∷ ps) s =
      let rest = kill_until_manager sig ps (note (kill (s.thread p).pid sig ∷ []) s) in
      if p == manager then s else rest

  died_of : Option ℕ → Threads → Result
  unfolding kill_until_manager
  died_of none s = done s
  died_of (some sig) s =
      let s' = kill_until_manager sig s.list s in
      exited (
        note (exit ∷ kill (s'.thread manager).pid sig ∷ kill (s'.thread main_thread).pid sig ∷ [])
          s')

  reap : Option Ptr → Option ℕ → Threads → Result
  unfolding died_of
  reap none sig s = aborted
  reap (some p) sig s = then_do (thread_dealloc manager p s) (died_of sig)

  pub reap_children : List (ℤ × Option ℕ) → Threads → Result
  unfolding reap
  reap_children [] s = done s
  reap_children ((pid, sig) ∷ rs) s =
      then_do (reap (threadlist_findbypid pid s) sig s) (λ s'. reap_children rs s')

  -- The `switch` of the manager.
  pub handle : Answers → Message → Threads → Result
  unfolding do_create kill_others dealloc_others
  handle a (msg_create caller main t) s =
      then_do (do_create a caller t main s) (λ s'. done (sthread_wake caller s'))
  handle a (msg_thread_exit t) s = thread_dealloc manager t (sthread_wake t s)
  handle a (msg_all_exit t) s =
      then_do (dealloc_others t s.list (kill_others t sigusr2 s.list (sthread_wake t s)))
        (λ s'. done (update manager (λ v. record v { running = false }) s'))

  pub manager_round : Round → Threads → Result
  unfolding handle reap_children kill_until_manager
  manager_round r s =
      if r.orphaned
      then exited (note (exit ∷ []) (kill_until_manager sigkill s.list s))
      else then_do (reap_children r.reaped s) (handle r.answers r.message)

  finish : Threads → Result
  finish s =
      let v = s.thread manager in
      if v.running
      then done s
      else exited (note (exit ∷ close v.pipe_read ∷ close v.pipe_write ∷ []) s)

  -- The manager over the rounds it comes to; `done` where it waits for a message.
  pub manager_main : List Round → Threads → Result
  unfolding finish manager_round
  manager_main [] s = finish s
  manager_main (r ∷ rs) s =
      if (s.thread manager).running
      then then_do (manager_round r s) (λ s'. manager_main rs s')
      else finish s
