-- ===== src/Sthread/Calls.antt =====
-- The start-up of hw3/sthread.c, and the calls that wait for the manager.
pub mod Outcome
use osandroid_kernel.Prelude.{
  ℕ, zero, suc, ◌≡◌, Bool, true, false, Option, none, some, List, [], ◌∷◌, ◌++◌, ◌==◌,
  if◌then◌else◌,
}
use osandroid_kernel.Prelude.Int.{ℤ, pos, negsuc, eqb_ℤ}
use osandroid_kernel.Sthread.{
  Ptr, Thread, Threads, Call, close, free, Result, done, exited, aborted, faulted, update, note,
  threadlist_findbypid,
}
use osandroid_kernel.Sthread.Manager.{
  Answers, Message, msg_create, msg_all_exit, map_failed, handle,
}

abbrev pub util_stack_size : ℕ
util_stack_size = 65536

-- What a caller of `sthread_create` gets: the returned number, the thread, and the state; or it
-- waits for ever.
pub data Creation : Type 0 where
  created : ℤ → Option Ptr → Threads → Creation
  stuck : Creation

module _ (manager main_thread : Ptr) where
  create_returns : (self t : Ptr) → Result → Creation
  create_returns self t (done s) =
      let status = (s.thread self).status in
      if eqb_ℤ status (pos 0)
      then created status (some t) s
      else created status none (note (free t ∷ []) s)
  create_returns self t (exited s) = stuck
  create_returns self t aborted = stuck
  create_returns self t faulted = stuck

  create_new : (self newthr : Option Ptr) → Answers → (main : Ptr) → Threads → Creation
  unfolding create_returns
  create_new self none a main s = created (negsuc 0) none s
  create_new none (some t) a main s = stuck
  create_new (some self) (some t) a main s =
      create_returns self t (handle manager main_thread a (msg_create self main t) s)

  -- `sthread_create` of the thread with this pid, the manager's part included; `newthr` is what
  -- malloc answers.
  pub sthread_create :
      (getpid : ℤ) (newthr : Option Ptr) → Answers → (main : Ptr) → Threads → Creation
  unfolding create_new
  sthread_create getpid newthr a main s = create_new (threadlist_findbypid getpid s) newthr a main s

  cleanup_from : Option Ptr → Answers → Threads → Result
  cleanup_from none a s = faulted
  cleanup_from (some self) a s = handle manager main_thread a (msg_all_exit self) s

  -- The exit handler: a message to the manager, which handles it.
  pub cleanup : (getpid : ℤ) → Answers → Threads → Result
  unfolding cleanup_from
  cleanup getpid a s = cleanup_from (threadlist_findbypid getpid s) a s

  -- `start_thread`, up to the message that it ends; `runs` is what the thread's main routine does.
  pub start_thread : (runs : Threads → ℤ × Threads) → (ss self : Ptr) → Threads → Threads
  start_thread runs ss self s =
      let (retval, s') =
        runs (update self (λ v. record v { running = true }) (note (free ss ∷ []) s)) in
      update self (λ v. record v { running = false; status = retval }) s'

  -- The returned number (0 or -1) and the state.
  pub init_main_thread : (getpid : ℤ) → Option (ℤ × ℤ) → Threads → ℤ × Threads
  init_main_thread getpid none s = (negsuc 0, update main_thread (λ v. record v { pid = getpid }) s)
  init_main_thread getpid (some (r, w)) s =
      (pos 0, update main_thread (λ v. record v { pid = getpid; pipe_read = r; pipe_write = w }) s)

  manager_clone : (clone_pid : ℤ) → Threads → ℤ × Threads
  manager_clone clone_pid s =
      let v = s.thread manager in
      let s' = update manager (λ x. record x { pid = clone_pid }) s in
      if eqb_ℤ clone_pid (negsuc 0)
      then (negsuc 0, note (free v.stack ∷ close v.pipe_write ∷ close v.pipe_read ∷ []) s')
      else (pos 0, s')

  manager_pipe : Option (ℤ × ℤ) → (clone_pid : ℤ) → Threads → ℤ × Threads
  unfolding manager_clone
  manager_pipe none clone_pid s = (negsuc 0, note (free (s.thread manager).stack ∷ []) s)
  manager_pipe (some (r, w)) clone_pid s =
      manager_clone clone_pid (update manager (λ v. record v { pipe_read = r; pipe_write = w }) s)

  manager_stack : Option Ptr → Answers → Threads → ℤ × Threads
  unfolding manager_pipe
  manager_stack none a s = (negsuc 0, update manager (λ v. record v { stack = map_failed }) s)
  manager_stack (some k) a s =
      manager_pipe a.pipe_ends a.clone_pid (update manager (λ v. record v { stack = k }) s)

  pub init_manager_thread : Answers → Threads → ℤ × Threads
  unfolding manager_stack
  init_manager_thread a s = manager_stack a.mmap_stack a (
      update manager
        (λ v. record v { main = 0; running = true; status = pos 0; stacksize = util_stack_size }) s)

  -- `sthread_init`, but for the handler of SIGUSR2 and the registration of `cleanup`.
  pub sthread_init : (getpid : ℤ) → Option (ℤ × ℤ) → Answers → Threads → ℤ × Threads
  unfolding init_main_thread init_manager_thread
  sthread_init getpid main_pipe a s =
      let (n, s') = init_main_thread getpid main_pipe s in
      if eqb_ℤ n (negsuc 0) then (n, s') else init_manager_thread a s'
