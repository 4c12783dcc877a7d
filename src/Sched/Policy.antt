-- ===== src/Sched/Policy.antt =====
-- Policies, priorities and classes.
use osandroid_kernel.Prelude.{◌≡◌, Bool, false, ◌&&◌, not, if◌then◌else◌, arith}
use osandroid_kernel.Prelude.Int.{ℤ, pos, ◌-ℤ◌, ◌≤ℤ◌, eqb_ℤ, leb_ℤ}
use osandroid_kernel.Sched.{
  sched_mycfs, rt_class, fair_class, mycfs_class, Task, rt_policy, rt_prio, normal_prio_of,
  set_scheduler, known_policy, valid_priority, sched_get_priority_max, sched_get_priority_min,
  einval,
}

-- Whether a priority lies between the least and the greatest that the system calls answer, these
-- being no errors.
abbrev pub in_range : (policy priority : ℤ) → Bool
in_range policy priority =
    not (eqb_ℤ (sched_get_priority_max policy) einval)
    && leb_ℤ (sched_get_priority_min policy) priority
    && leb_ℤ priority (sched_get_priority_max policy)

-- A request names a known policy and a valid priority just if its priority lies in the range that the
-- system calls answer, these being no errors. The new policy is the exception: its valid priority
-- is 0, and no priority lies in the range that is answered for it.
pub valid_priority-range :
    (policy priority : ℤ) (mm : Bool)
    → ((known_policy policy && valid_priority policy priority mm)
        ≡ (if eqb_ℤ policy sched_mycfs then eqb_ℤ priority (pos 0) else in_range policy priority))
      × (in_range sched_mycfs priority ≡ false)
unfolding known_policy valid_priority sched_get_priority_max sched_get_priority_min ◌-ℤ◌
valid_priority-range policy priority mm = (ground arith, ground arith)

-- The class that a policy and a valid priority lead to, where a mutex only ever raises a priority
-- (lowers its number): the new class for the new policy, the real-time class for a real-time policy,
-- and for the others the fair class unless the task is raised to a real-time priority.
pub set_scheduler-class :
    (getprio : ℤ → ℤ) (p : Task) (policy prio : ℤ)
    → getprio (normal_prio_of (set_scheduler getprio p policy prio))
      ≤ℤ normal_prio_of (set_scheduler getprio p policy prio)
    → pos 0 ≤ℤ prio
    → (set_scheduler getprio p policy prio).sched_class ≡ (
        if eqb_ℤ policy sched_mycfs
        then mycfs_class
        else if rt_policy policy
        then rt_class
        else if rt_prio (getprio p.static_prio)
        then rt_class
        else fair_class)
unfolding set_scheduler normal_prio_of ◌-ℤ◌
set_scheduler-class getprio p policy prio raise valid = ground arith
