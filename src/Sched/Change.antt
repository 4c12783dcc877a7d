-- ===== src/Sched/Change.antt =====
-- `__sched_setscheduler` of hw4/kernel/sched/core.c. Rights, limits and the security module are in
-- `Request`.
pub mod Queue
use osandroid_kernel.Prelude.{
  ℕ, ◌≡◌, Bool, true, false, ◌&&◌, ◌||◌, not, Option, none, some, List, [], ◌∷◌, ◌++◌,
  if◌then◌else◌,
}
use osandroid_kernel.Prelude.Int.{ℤ, pos, negsuc, eqb_ℤ, ltb_ℤ}
use osandroid_kernel.Sched.{
  Class, mycfs_class, Task, rt_policy, sched_idle, einval, known_policy, valid_priority,
  set_scheduler, enqueue_task_mycfs, dequeue_task_mycfs,
}

-- -EPERM
abbrev pub eperm : ℤ
eperm = negsuc 0

-- The call, its policy without SCHED_RESET_ON_FORK (and the flag apart), and what is asked on the way.
-- `group_denied` is the check of CONFIG_RT_GROUP_SCHED.
pub record Request : Type 0 where
  pub priority : ℤ
  pub reset_on_fork : Bool
  pub user : Bool
  pub cap_sys_nice : Bool
  pub rlim_rtprio : ℤ
  pub can_nice : Bool
  pub same_owner : Bool
  pub security : ℤ
  pub is_stop : Bool  -- p == rq->stop
  pub group_denied : Bool
  pub running : Bool

-- The calls of the classes, in order.
pub data Action : Type 0 where
  dequeue put_prev set_curr enqueue : Class → Action
  class_changed : (prev_class : Class) → (oldprio : ℤ) → Action

-- What a round comes to.
pub data Verdict : Type 0 where
  fails : ℤ → Verdict
  keeps again : Verdict
  changes : (policy : ℤ) → (reset_on_fork : Bool) → Verdict

-- What a user without CAP_SYS_NICE may not do.
forbidden : Request → Task → (policy : ℤ) (reset_on_fork : Bool) → Bool
forbidden r p policy reset =
    rt_policy policy
      && (not (eqb_ℤ policy p.policy) && eqb_ℤ r.rlim_rtprio (pos 0)
          || ltb_ℤ p.rt_priority r.priority && ltb_ℤ r.rlim_rtprio r.priority)
    || eqb_ℤ p.policy sched_idle && not (eqb_ℤ policy sched_idle) && not r.can_nice
    || not r.same_owner
    || p.sched_reset_on_fork && not reset

-- The verdict of the first guard that holds.
first_of : List (Bool × Verdict) → (otherwise : Verdict) → Verdict
first_of [] otherwise = otherwise
first_of ((guard, v) ∷ rest) otherwise =
    let later = first_of rest otherwise in if guard then v else later

-- What ends a round before the change, in the order of the source.
guards :
    Request
    → (inherits : Bool) (policy : ℤ) (reset_on_fork : Bool) → Task
    → Task
    → List (Bool × Verdict)
unfolding forbidden
guards r inherits policy reset p q =
    (not inherits && not (known_policy policy), fails einval)
    ∷ (not (valid_priority policy r.priority p.mm), fails einval)
    ∷ (r.user && not r.cap_sys_nice && forbidden r p policy reset, fails eperm)
    ∷ (r.user && not (eqb_ℤ r.security (pos 0)), fails r.security)
    ∷ (r.is_stop, fails einval)
    ∷ (eqb_ℤ policy q.policy && (not (rt_policy policy) || eqb_ℤ r.priority q.rt_priority), keeps)
    ∷ (r.user && r.group_denied, fails eperm)
    ∷ []

-- One round from `recheck`: the task as it is checked, and as it is once its queue is locked.
pub once : Request → (policy : ℤ) → (checked locked : Task) → Verdict
unfolding guards first_of
once r policy p q =
    let inherits = ltb_ℤ policy (pos 0) in
    let pol = if inherits then p.policy else policy in
    let reset = if inherits then p.sched_reset_on_fork else r.reset_on_fork in
    first_of (guards r inherits pol reset p q)
      (if inherits && not (eqb_ℤ pol q.policy) then again else changes pol reset)

-- Of the classes, only the new one writes `on_rq`.
dequeue_by : Class → Task → Task
dequeue_by mycfs_class p = dequeue_task_mycfs p
dequeue_by _ p = p

enqueue_by : Class → Task → Task
enqueue_by mycfs_class p = enqueue_task_mycfs p
enqueue_by _ p = p

abbrev pub when : Bool → Action → List Action → List Action
when b a rest = if b then a ∷ rest else rest

abbrev pub reset_to : Bool → Task → Task
reset_to reset p = record p { sched_reset_on_fork = reset }

-- The change for a task that is queued or not: if it is, it is taken out of its queue and put back
-- after the change.
change_queued :
    (queued : Bool) (getprio : ℤ → ℤ)
    → Request
    → (policy : ℤ) (reset_on_fork : Bool) → Task
    → Task × List Action
unfolding dequeue_by enqueue_by
change_queued queued getprio r policy reset p =
    let p1 = reset_to reset (if queued then dequeue_by p.sched_class p else p) in
    let p2 = set_scheduler getprio p1 policy r.priority in
    (
      if queued then enqueue_by p2.sched_class p2 else p2,
      when queued (dequeue p.sched_class) (
          when r.running (put_prev p.sched_class) (
            when r.running (set_curr p2.sched_class)
              (when queued (enqueue p2.sched_class) (class_changed p.sched_class p.prio ∷ [])))),
    )

pub change :
    (getprio : ℤ → ℤ) → Request → (policy : ℤ) (reset_on_fork : Bool) → Task → Task × List Action
unfolding change_queued
change getprio r policy reset p = change_queued p.on_rq getprio r policy reset p

-- The answer of a round, given that of the rounds after it.
answer :
    (getprio : ℤ → ℤ)
    → Request
    → Task
    → Verdict
    → Option (ℤ × Task × List Action)
    → Option (ℤ × Task × List Action)
unfolding change
answer getprio r q (fails e) rest = some (e, q, [])
answer getprio r q keeps rest = some (pos 0, q, [])
answer getprio r q again rest = rest
answer getprio r q (changes policy reset) rest =
    let (q', actions) = change getprio r policy reset q in some (pos 0, q', actions)

-- The result, the task and the calls. Each round has the task as checked and as locked; `none` is
-- for rounds that all have to be done again.
pub sched_setscheduler :
    (getprio : ℤ → ℤ)
    → Request
    → (policy : ℤ) → List (Task × Task)
    → Option (ℤ × Task × List Action)
unfolding once answer
sched_setscheduler getprio r policy [] = none
sched_setscheduler getprio r policy ((p, q) ∷ rest) =
    answer getprio r q (once r policy p q) (sched_setscheduler getprio r (negsuc 0) rest)
