-- ===== src/Sched/Pick.antt =====
-- Which task runs next.
use osandroid_kernel.Prelude.{◌≡◌, Bool, none, some, if◌then◌else◌, arith}
use osandroid_kernel.Sched.{Task, Picks, pick_from, pick_next_task, pick_next_task_mycfs}

-- When no stop, real-time or fair task is there to run, the next one is the current task, whatever
-- its class, if it is on the queue, and else the idle task: a task that has only been queued by the
-- new class is never picked.
pub pick_next_task-curr :
    (only_fair : Bool) (k : Picks) (curr idle : Task)
    → k.stop ≡ none
    → k.rt ≡ none
    → k.fair ≡ none
    → k.idle ≡ some idle
    → pick_next_task only_fair k (some curr) ≡ some (if curr.on_rq then curr else idle)
unfolding pick_next_task pick_from pick_next_task_mycfs
pick_next_task-curr only_fair k curr idle s r f i = ground (arith, s, r, f, i)
