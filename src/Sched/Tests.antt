-- ===== src/Sched/Tests.antt =====
-- The scheduling policies at concrete inputs.
use osandroid_kernel.Prelude.{
  ◌≡◌, refl, true, false, ◌&&◌, ◌||◌, none, some, is_some, if◌then◌else◌, [], ◌∷◌,
}
use osandroid_kernel.Prelude.Int.{pos, negsuc, eqb_ℤ}
use osandroid_kernel.Sched.{sched_mycfs, mycfs_class, Task, Picks, known_policy, valid_priority}
use osandroid_kernel.Sched.Policy.{in_range, valid_priority-range}
use osandroid_kernel.Sched.Change.{Request, change, sched_setscheduler}
use osandroid_kernel.Sched.Change.Queue.{
  is_mycfs, has_enqueue, change-on_rq, sched_setscheduler-steady,
}

abbrev a_task : Task
a_task = record {
  pid = 7;
  policy = pos 6;
  rt_priority = pos 0;
  static_prio = pos 120;
  normal_prio = pos 120;
  prio = pos 120;
  sched_class = mycfs_class;
  on_rq = true;
  mm = true;
  sched_reset_on_fork = false;
}

abbrev a_request : Request
a_request = record {
  priority = pos 0;
  reset_on_fork = false;
  user = true;
  cap_sys_nice = false;
  rlim_rtprio = pos 0;
  can_nice = false;
  same_owner = true;
  security = pos 0;
  is_stop = false;
  group_denied = false;
  running = false;
}

valid_priority-range_example :
    ((known_policy sched_mycfs && valid_priority sched_mycfs (pos 0) true)
      ≡ (if eqb_ℤ sched_mycfs sched_mycfs then true else in_range sched_mycfs (pos 0)))
    × (in_range sched_mycfs (pos 0) ≡ false)
valid_priority-range_example = valid_priority-range sched_mycfs (pos 0) true

abbrev only_idle : Picks
only_idle = record { stop = none; rt = none; fair = none; idle = some (record a_task { pid = 0 }) }

change-on_rq_example :
    let (p', actions) = change (λ n. n) a_request (pos 0) false a_task in
    (has_enqueue actions ≡ true) × (p'.on_rq ≡ (true && (false || is_mycfs p'.sched_class)))
change-on_rq_example = change-on_rq (λ n. n) a_request (pos 0) false a_task

sched_setscheduler-steady_example :
    is_some (
      sched_setscheduler
        (λ n. n)
        a_request
        (negsuc 0)
        ((a_task, record a_task { policy = pos 0 }) ∷ (a_task, a_task) ∷ []))
    ≡ true
sched_setscheduler-steady_example =
    sched_setscheduler-steady (λ n. n) a_request (negsuc 0)
      ((a_task, record a_task { policy = pos 0 }) ∷ []) a_task a_task [] refl
