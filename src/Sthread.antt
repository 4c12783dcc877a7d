-- ===== src/Sthread.antt =====
-- The thread library of hw3/sthread.c. The chain of `next` pointers from `list_hd` is a list of
-- addresses. What the system calls answer are arguments, and what they do is a list of calls. The
-- manager is in Sthread/Manager.antt, the start-up and the calls of the users in Sthread/Calls.antt.
pub mod Manager
pub mod Calls
pub mod Chain
mod Tests
use osandroid_kernel.Prelude.{
  ℕ, zero, suc, ◌≡◌, Bool, true, false, ◌&&◌, not, Option, none, some, List, [], ◌∷◌, ◌++◌, ◌==◌,
  if◌then◌else◌,
}
use osandroid_kernel.Prelude.Int.{ℤ, pos, negsuc, eqb_ℤ}

abbrev pub Ptr : Type 0
Ptr = ℕ

-- `struct sthread_struct`, without `next`. Errors are the numbers of errno.
pub record Thread : Type 0 where
  pub pid : ℤ
  pub main : Ptr
  pub running : Bool
  pub status : ℤ
  pub err : ℤ
  pub pipe_read : ℤ  -- pipe[0]
  pub pipe_write : ℤ  -- pipe[1]
  pub stacksize : ℕ
  pub stack : Ptr

pub data Call : Type 0 where
  munmap : Ptr → ℕ → Call
  close : ℤ → Call
  free : Ptr → Call
  kill : (pid : ℤ) → (sig : ℕ) → Call
  wake : (pipe_write : ℤ) → Call
  exit : Call

-- All thread structures, the thread list, and the calls made, last first.
pub record Threads : Type 0 where
  pub thread : Ptr → Thread
  pub list : List Ptr
  pub log : List Call

-- `exited`: the manager has called `_exit`. `aborted`: `abort` was called. `faulted`: a NULL pointer
-- was followed.
pub data Result : Type 0 where
  done exited : Threads → Result
  aborted faulted : Result

abbrev pub then_do : Result → (Threads → Result) → Result
then_do (done s) f = f s
then_do (exited s) f = exited s
then_do aborted f = aborted
then_do faulted f = faulted

abbrev pub set_thread : Ptr → Thread → (Ptr → Thread) → Ptr → Thread
set_thread p v f q = if p == q then v else f q

-- Changes one thread.
abbrev pub update : Ptr → (Thread → Thread) → Threads → Threads
update p f s = record s { thread = set_thread p (f (s.thread p)) s.thread }

abbrev pub note : List Call → Threads → Threads
note calls s = record s { log = calls ++ s.log }

-- The static structures.
abbrev pub main_thread_init : Thread
main_thread_init = record {
  pid = pos 0;
  main = 0;
  running = true;
  status = pos 0;
  err = pos 0;
  pipe_read = negsuc 0;
  pipe_write = negsuc 0;
  stacksize = 0;
  stack = 0;
}

abbrev pub manager_thread_init : Thread
manager_thread_init = record main_thread_init { running = false }

unfoldable pub find_pid : (Ptr → Thread) → ℤ → List Ptr → Option Ptr
find_pid thread pid [] = none
find_pid thread pid (p ∷ ps) =
    let rest = find_pid thread pid ps in if eqb_ℤ (thread p).pid pid then some p else rest

unfoldable pub threadlist_findbypid : ℤ → Threads → Option Ptr
unfolding find_pid
threadlist_findbypid pid s = find_pid s.thread pid s.list

unfoldable pub threadlist_add : Ptr → Threads → Threads
threadlist_add t s = record s { list = t ∷ s.list }

pub data Removal : Type 0 where
  removed : List Ptr → Removal
  at_manager off_end : Removal

abbrev behind : Ptr → Removal → Removal
behind p (removed ps) = removed (p ∷ ps)
behind p at_manager = at_manager
behind p off_end = off_end

module _ (manager : Ptr) where
  -- The loop of `threadlist_del`, and the unlinking.
  unfoldable pub remove_pid : (Ptr → Thread) → ℤ → List Ptr → Removal
  remove_pid thread pid [] = off_end
  remove_pid thread pid (p ∷ ps) =
      let rest = behind p (remove_pid thread pid ps) in
      if p == manager then at_manager else if eqb_ℤ (thread p).pid pid then removed ps else rest

  unfoldable pub removal : Threads → Removal → Result
  removal s (removed ps) = done (record s { list = ps })
  removal s at_manager = aborted
  removal s off_end = faulted

  unfoldable pub threadlist_del : Ptr → Threads → Result
  unfolding remove_pid removal
  threadlist_del t s = removal s (remove_pid s.thread (s.thread t).pid s.list)

  -- Releases what a thread has.
  unfoldable pub thread_dealloc : Ptr → Threads → Result
  unfolding threadlist_del
  thread_dealloc t s =
      let v = s.thread t in
      then_do (threadlist_del t s) (λ s'. done (
        note (free t ∷ close v.pipe_write ∷ close v.pipe_read ∷ munmap v.stack v.stacksize ∷ [])
          s'))

-- `sthread_wake`
pub sthread_wake : Ptr → Threads → Threads
sthread_wake t s = note (wake (s.thread t).pipe_write ∷ []) s
