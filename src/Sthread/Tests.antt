-- ===== src/Sthread/Tests.antt =====
-- The thread library at concrete inputs: the manager at 1, the main thread at 2, workers at 3 and 4.
use osandroid_kernel.Prelude.{◌≡◌, refl, some, [], ◌∷◌, ◌==◌, if◌then◌else◌}
use osandroid_kernel.Prelude.Int.{pos}
use osandroid_kernel.Sthread.{
  Threads, main_thread_init, done, aborted, find_pid, threadlist_findbypid,
}
use osandroid_kernel.Sthread.Manager.{Answers, msg_all_exit, do_create, handle}
use osandroid_kernel.Sthread.Manager.Create.{Creates, do_create-Creates}
use osandroid_kernel.Sthread.Manager.Exit.{handle-worker_exits}
use osandroid_kernel.Sthread.Calls.{sthread_create}
use osandroid_kernel.Sthread.Calls.Outcome.{Hands, sthread_create-Hands}

-- The pid of the thread at `p` is `100 + p`.
abbrev four : Threads
four = record {
  thread = λ p. record main_thread_init {
    pid =
        if p == 1 then pos 101 else if p == 2 then pos 102 else if p == 3 then pos 103 else pos 104;
  };
  list = 4 ∷ 3 ∷ 1 ∷ 2 ∷ [];
  log = [];
}

abbrev answers : Answers
answers = record {
  mmap_stack = some 4096;
  pipe_ends = some (pos 5, pos 6);
  start_struct = some 70;
  clone_pid = pos 105;
}

do_create-Creates_example :
    (s' : Threads) × (do_create 1 2 answers 2 5 9 four ≡ done s') × Creates 2 5 9 answers four s'
do_create-Creates_example = do_create-Creates 1 2 2 5 answers 9 four refl

sthread_create-Hands_example : Hands 5 four (sthread_create 1 2 (pos 102) (some 5) answers 9 four)
unfolding threadlist_findbypid find_pid
sthread_create-Hands_example = sthread_create-Hands 1 2 (pos 102) 2 5 9 answers four found refl
  where
    found : threadlist_findbypid (pos 102) four ≡ some 2
    found = refl

handle-worker_exits_example : handle 1 2 answers (msg_all_exit 4) four ≡ aborted
handle-worker_exits_example =
    handle-worker_exits 1 2 answers four [] (3 ∷ []) 4 refl tt ((refl, (refl, refl)), tt)
      (refl, (refl, refl))
