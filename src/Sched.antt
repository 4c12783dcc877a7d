-- ===== src/Sched.antt =====
-- The scheduling policy added by hw4: the class of hw4/kernel/sched/mycfs.c, and what
-- hw4/kernel/sched/core.c does with policies and priorities. What the other classes pick, and
-- `rt_mutex_getprio`, are not in the repository and are arguments. Load weights are left out.
pub mod Change
pub mod Policy
pub mod Pick
mod Tests
use osandroid_kernel.Prelude.{
  ℕ, ◌≡◌, Bool, true, false, ◌&&◌, ◌||◌, not, Option, none, some, List, [], ◌∷◌, ◌==◌,
  if◌then◌else◌,
}
use osandroid_kernel.Prelude.Int.{ℤ, pos, negsuc, ◌-ℤ◌, eqb_ℤ, ltb_ℤ, leb_ℤ}

abbrev pub sched_normal : ℤ
sched_normal = pos 0

abbrev pub sched_fifo : ℤ
sched_fifo = pos 1

abbrev pub sched_rr : ℤ
sched_rr = pos 2

abbrev pub sched_batch : ℤ
sched_batch = pos 3

abbrev pub sched_idle : ℤ
sched_idle = pos 5

abbrev pub sched_mycfs : ℤ
sched_mycfs = pos 6

-- -EINVAL
abbrev pub einval : ℤ
einval = negsuc 21

-- MAX_RT_PRIO is the same.
abbrev pub max_user_rt_prio : ℤ
max_user_rt_prio = pos 100

-- From the highest on, in the order of `next`.
pub data Class : Type 0 where
  stop_class rt_class fair_class mycfs_class idle_class : Class

pub record Task : Type 0 where
  pub pid : ℕ
  pub policy : ℤ
  pub rt_priority : ℤ
  pub static_prio : ℤ
  pub normal_prio : ℤ
  pub prio : ℤ
  pub sched_class : Class
  pub on_rq : Bool
  pub mm : Bool  -- whether there is a memory descriptor
  pub sched_reset_on_fork : Bool

abbrev pub rt_policy : ℤ → Bool
rt_policy policy = eqb_ℤ policy sched_fifo || eqb_ℤ policy sched_rr

abbrev pub rt_prio : ℤ → Bool
rt_prio prio = ltb_ℤ prio max_user_rt_prio

pub normal_prio_of : Task → ℤ
normal_prio_of p =
    if rt_policy p.policy then max_user_rt_prio -ℤ pos 1 -ℤ p.rt_priority else p.static_prio

-- The result and the task.
pub effective_prio : Task → ℤ × Task
unfolding normal_prio_of
effective_prio p =
    let p' = record p { normal_prio = normal_prio_of p } in
    (if not (rt_prio p'.prio) then p'.normal_prio else p'.prio, p')

-- `__setscheduler`; `getprio` is `rt_mutex_getprio`, from the normal priority of the task.
pub set_scheduler : (getprio : ℤ → ℤ) → Task → (policy prio : ℤ) → Task
unfolding normal_prio_of
set_scheduler getprio p policy prio =
    let p1 = record p { policy = policy; rt_priority = prio } in
    let p2 = record p1 { normal_prio = normal_prio_of p1 } in
    let p3 = record p2 { prio = getprio p2.normal_prio } in
    let p4 = record p3 { sched_class = if rt_prio p3.prio then rt_class else fair_class } in
    if eqb_ℤ policy sched_mycfs then record p4 { sched_class = mycfs_class } else p4

pub known_policy : ℤ → Bool
known_policy policy =
    rt_policy policy
    || eqb_ℤ policy sched_normal
    || eqb_ℤ policy sched_batch
    || eqb_ℤ policy sched_idle
    || eqb_ℤ policy sched_mycfs

-- The checks of a priority in `__sched_setscheduler`; `mm` says whether the task has a memory
-- descriptor.
pub valid_priority : (policy priority : ℤ) (mm : Bool) → Bool
valid_priority policy priority mm =
    if ltb_ℤ priority (pos 0)
      || mm && ltb_ℤ (max_user_rt_prio -ℤ pos 1) priority
      || not mm && ltb_ℤ (max_user_rt_prio -ℤ pos 1) priority
    then false
    else if rt_policy policy
    then not (eqb_ℤ priority (pos 0))
    else eqb_ℤ priority (pos 0)

pub sched_get_priority_max : ℤ → ℤ
sched_get_priority_max policy =
    if rt_policy policy
    then max_user_rt_prio -ℤ pos 1
    else if eqb_ℤ policy sched_normal
        || eqb_ℤ policy sched_mycfs
        || eqb_ℤ policy sched_batch
        || eqb_ℤ policy sched_idle
    then pos 0
    else einval

pub sched_get_priority_min : ℤ → ℤ
sched_get_priority_min policy =
    if rt_policy policy || eqb_ℤ policy sched_mycfs
    then pos 1
    else if eqb_ℤ policy sched_normal || eqb_ℤ policy sched_batch || eqb_ℤ policy sched_idle
    then pos 0
    else einval

-- The class of mycfs.c; `curr` is `rq->curr`. Its other operations do nothing.
pub enqueue_task_mycfs : Task → Task
enqueue_task_mycfs p = record p { on_rq = true }

pub dequeue_task_mycfs : Task → Task
dequeue_task_mycfs p = record p { on_rq = false }

pub pick_next_task_mycfs : (curr : Option Task) → Option Task
pick_next_task_mycfs none = none
pick_next_task_mycfs (some curr) = if curr.on_rq then some curr else none

-- What the other classes pick.
pub record Picks : Type 0 where
  pub stop : Option Task
  pub rt : Option Task
  pub fair : Option Task
  pub idle : Option Task

abbrev pub pick_in : Picks → (curr : Option Task) → Class → Option Task
pick_in k curr stop_class = k.stop
pick_in k curr rt_class = k.rt
pick_in k curr fair_class = k.fair
pick_in k curr mycfs_class = pick_next_task_mycfs curr
pick_in k curr idle_class = k.idle

pub pick_from : Picks → (curr : Option Task) → List Class → Option Task
pick_from k curr [] = none
pick_from k curr (c ∷ cs) =
    let rest = pick_from k curr cs in elim (pick_in k curr c) [ none ↦ rest | some p ↦ some p ]

-- `pick_next_task`; `none` is `BUG()`. `only_fair` says that all that run are in the fair class.
pub pick_next_task : (only_fair : Bool) → Picks → (curr : Option Task) → Option Task
unfolding pick_from
pick_next_task only_fair k curr =
    let chain =
      pick_from k curr (stop_class ∷ rt_class ∷ fair_class ∷ mycfs_class ∷ idle_class ∷ []) in
    if only_fair then elim (k.fair) [ none ↦ chain | some p ↦ some p ] else chain
