-- ===== src/Fair/Entity.antt =====
-- The operations of hw4/kernel/sched/fair.c on the entities of one queue: `update_curr`, the accounting
-- of load and number, `enqueue_entity` and `dequeue_entity`, `set_next_entity` and `put_prev_entity`,
-- the choice of `pick_next_entity` and the tick. The configuration has no group scheduling, so that
-- an entity has no parent, no bandwidth control, no statistics and no high-resolution tick. A `long`
-- has 64 bits. The inverse that `wakeup_gran` may add to the load of an entity is left out.
pub mod Members
pub mod Charge
pub mod Once
pub mod Join
pub mod Enqueue
pub mod Leave
pub mod Dequeue
pub mod Switch
pub mod Choose
pub mod Tick
mod Tests
use osandroid_kernel.Prelude.{
  ℕ, ◌+◌, ◌-◌, ◌%◌, ◌^◌, Bool, true, false, not, ◌&&◌, ◌||◌, Option, none, some, List, [], ◌∷◌, ltb,
  ◌==◌, if◌then◌else◌,
}
use osandroid_kernel.Prelude.Families.{put_at}
use osandroid_kernel.Prelude.Int.{ℤ, pos, negsuc, ltb_ℤ}
use osandroid_kernel.Fair.{
  sub_u64, is_negative, is_positive, without, first, RbTree, CfsRq, update_min_vruntime,
  enqueue_entity, dequeue_entity, Placing, place_entity, is_node,
}
use osandroid_kernel.Fair.Load.{
  LoadWeight, SchedEntity, Tunables, update_load_add, update_load_sub, calc_delta_fair, sched_slice,
  sched_vslice, wakeup_gran,
}

-- The fields of `struct cfs_rq` that the file uses, with those of `struct rq` (`clock_task`, `load`,
-- `cfs_tasks`, and whether its task is marked by `resched_task`) and the entities.
pub record FairRq : Type 0 where
  pub queue : CfsRq
  pub entity : ℕ → SchedEntity
  pub load : LoadWeight
  pub nr_running : ℕ
  pub next : Option ℕ
  pub last : Option ℕ
  pub skip : Option ℕ
  pub clock_task : ℕ
  pub rq_load : LoadWeight
  pub cfs_tasks : List ℕ
  pub resched : Bool

abbrev pub vruntimes : (ℕ → SchedEntity) → ℕ → ℕ
vruntimes entity e = (entity e).vruntime

abbrev pub put_entity : ℕ → SchedEntity → FairRq → FairRq
put_entity se e s = record s { entity = put_at se e s.entity }

abbrev pub put_queue : CfsRq → FairRq → FairRq
put_queue q s = record s { queue = q }

-- The entity that has run for `delta_exec` more, up to `now`.
abbrev pub charged : (delta_exec now : ℕ) → SchedEntity → SchedEntity
charged delta_exec now e =
    let w = calc_delta_fair delta_exec e.load in
    record e {
      sum_exec_runtime = (e.sum_exec_runtime + delta_exec) % 2 ^ 64;
      vruntime = (e.vruntime + w.0) % 2 ^ 64;
      load = w.1;
      exec_start = now;
    }

-- `__update_curr`, and the new `exec_start`.
abbrev pub charge_curr : (curr delta_exec : ℕ) → FairRq → FairRq
charge_curr curr delta_exec s =
    let entity = put_at curr (charged delta_exec s.clock_task (s.entity curr)) s.entity in
    record s { entity = entity; queue = update_min_vruntime (vruntimes entity) s.queue }

abbrev pub update_of : Option ℕ → FairRq → FairRq
update_of none s = s
update_of (some curr) s =
    let delta_exec = sub_u64 s.clock_task (s.entity curr).exec_start in
    if delta_exec == 0 then s else charge_curr curr delta_exec s

unfoldable pub update_curr : FairRq → FairRq
update_curr s = update_of s.queue.curr s

abbrev pub account_entity_enqueue : ℕ → FairRq → FairRq
account_entity_enqueue se s = record s {
  load = update_load_add (s.entity se).load.weight s.load;
  rq_load = update_load_add (s.entity se).load.weight s.rq_load;
  cfs_tasks = se ∷ s.cfs_tasks;
  nr_running = s.nr_running + 1;
}

-- `nr_running` is above 0.
abbrev pub account_entity_dequeue : ℕ → FairRq → FairRq
account_entity_dequeue se s = record s {
  load = update_load_sub (s.entity se).load.weight s.load;
  rq_load = update_load_sub (s.entity se).load.weight s.rq_load;
  cfs_tasks = without se s.cfs_tasks;
  nr_running = s.nr_running - 1;
}

-- `__clear_buddies_last` and its like.
abbrev pub clear_if : ℕ → Option ℕ → Option ℕ
clear_if se buddy = if is_node se buddy then none else buddy

abbrev pub clear_buddies : ℕ → FairRq → FairRq
clear_buddies se s = record s {
  last = clear_if se s.last;
  next = clear_if se s.next;
  skip = clear_if se s.skip;
}

-- The fields of an entity that the operations set.
abbrev pub set_vruntime : (se vruntime : ℕ) → FairRq → FairRq
set_vruntime se v s = put_entity se (record (s.entity se) { vruntime = v }) s

abbrev pub set_on_rq : (se : ℕ) → Bool → FairRq → FairRq
set_on_rq se on s = put_entity se (record (s.entity se) { on_rq = on }) s

module _ (rb : RbTree) (t : Tunables) (start_debit gentle_fair_sleepers : Bool) where
  -- `place_entity` on an entity of the queue.
  abbrev pub place_on : (initial : Bool) → ℕ → FairRq → FairRq
  place_on initial se s =
      let w : Placing = record {
        start_debit = start_debit;
        gentle_fair_sleepers = gentle_fair_sleepers;
        sched_latency = t.latency;
        vslice = sched_vslice t s.nr_running s.load (s.entity se);
      } in
      set_vruntime se (place_entity w initial s.queue.min_vruntime (s.entity se).vruntime) s

  -- `__enqueue_entity` and `__dequeue_entity`, for an entity that is not the current one.
  abbrev pub into_tree : ℕ → FairRq → FairRq
  into_tree se s = put_queue (enqueue_entity (vruntimes s.entity) rb se s.queue) s

  abbrev pub out_of_tree : ℕ → FairRq → FairRq
  out_of_tree se s = put_queue (dequeue_entity rb se s.queue) s

  -- The virtual run time of an entity that comes from another queue, or from none.
  abbrev pub renormalize : (wakeup waking : Bool) → ℕ → FairRq → FairRq
  renormalize wakeup waking se s =
      let v = ((s.entity se).vruntime + s.queue.min_vruntime) % 2 ^ 64 in
      if not wakeup || waking then set_vruntime se v s else s

  -- `enqueue_entity` up to where the entity goes into the tree.
  unfoldable pub arrive : (wakeup waking : Bool) → ℕ → FairRq → FairRq
  arrive wakeup waking se s =
      let accounted = account_entity_enqueue se (update_curr (renormalize wakeup waking se s)) in
      if wakeup then place_on false se accounted else accounted

  -- `enqueue_entity`, with the flags ENQUEUE_WAKEUP and ENQUEUE_WAKING.
  unfoldable pub enqueue_fair_entity : (wakeup waking : Bool) → ℕ → FairRq → FairRq
  enqueue_fair_entity wakeup waking se s =
      let placed = arrive wakeup waking se s in
      set_on_rq se true (if is_node se placed.queue.curr then placed else into_tree se placed)

  -- `dequeue_entity`, with the flag DEQUEUE_SLEEP.
  unfoldable pub dequeue_fair_entity : (sleep : Bool) → ℕ → FairRq → FairRq
  dequeue_fair_entity sleep se s =
      let cleared = clear_buddies se (update_curr s) in
      let left = if is_node se cleared.queue.curr then cleared else out_of_tree se cleared in
      let gone = account_entity_dequeue se (set_on_rq se false left) in
      let v = sub_u64 (gone.entity se).vruntime gone.queue.min_vruntime in
      let relative = if sleep then gone else set_vruntime se v gone in
      put_queue (update_min_vruntime (vruntimes relative.entity) relative.queue) relative

  unfoldable pub set_next_entity : ℕ → FairRq → FairRq
  set_next_entity se s =
      let off = if (s.entity se).on_rq then out_of_tree se s else s in
      let e = off.entity se in
      put_queue (record off.queue { curr = some se })
        (put_entity se
          (record e { exec_start = s.clock_task; prev_sum_exec_runtime = e.sum_exec_runtime }) off)

  unfoldable pub put_prev_entity : ℕ → FairRq → FairRq
  put_prev_entity prev s =
      let updated = if (s.entity prev).on_rq then update_curr s else s in
      let back = if (updated.entity prev).on_rq then into_tree prev updated else updated in
      put_queue (record back.queue { curr = none }) back

  -- Whether `se` runs for the entity `curr`: -1, 0 or 1.
  unfoldable pub wakeup_preempt_entity : SchedEntity → SchedEntity → ℤ
  wakeup_preempt_entity curr se =
      let vdiff = sub_u64 curr.vruntime se.vruntime in
      if not (is_positive vdiff)
      then negsuc 0
      else if ltb (wakeup_gran t se) vdiff
      then pos 1
      else pos 0

  -- A buddy, if running it is not unfair to `left`, and else `se`.
  abbrev pub prefer : FairRq → (left : ℕ) → (buddy : Option ℕ) → (se : ℕ) → ℕ
  prefer s left none se = se
  prefer s left (some buddy) se =
      if ltb_ℤ (wakeup_preempt_entity (s.entity buddy) (s.entity left)) (pos 1) then buddy else se

  abbrev pub chosen : FairRq → ℕ → ℕ
  chosen s left =
      let second = rb.next left s.queue.tasks_timeline in
      let skipping = if is_node left s.skip then prefer s left second left else left in
      prefer s left s.next (prefer s left s.last skipping)

  -- `pick_next_entity`; the source reads a null pointer when the tree is empty.
  abbrev pub pick_from_left : FairRq → Option ℕ → Option ℕ × FairRq
  pick_from_left s none = (none, s)
  pick_from_left s (some left) = (some (chosen s left), clear_buddies (chosen s left) s)

  unfoldable pub pick_next_entity : FairRq → Option ℕ × FairRq
  pick_next_entity s = pick_from_left s s.queue.rb_leftmost

  -- The end of `check_preempt_tick`, from the first entity of the tree on; the source reads a null
  -- pointer when there is none.
  abbrev pub check_first : (ideal_runtime curr : ℕ) → Option ℕ → FairRq → FairRq
  check_first ideal curr none s = s
  check_first ideal curr (some se) s =
      let delta = sub_u64 (s.entity curr).vruntime (s.entity se).vruntime in
      if is_negative delta then s else if ltb ideal delta then record s { resched = true } else s

  unfoldable pub check_preempt_tick : (curr : ℕ) → FairRq → FairRq
  check_preempt_tick curr s =
      let slice = sched_slice t s.nr_running s.load (s.entity curr) in
      let s' : FairRq = record s { load = slice.1 } in
      let delta_exec =
        sub_u64 (s.entity curr).sum_exec_runtime (s.entity curr).prev_sum_exec_runtime in
      if ltb slice.0 delta_exec
      then clear_buddies curr (record s' { resched = true })
      else if ltb delta_exec t.min_granularity
      then s'
      else check_first slice.0 curr s'.queue.rb_leftmost s'

  unfoldable pub entity_tick : (curr : ℕ) → FairRq → FairRq
  entity_tick curr s =
      let updated = update_curr s in
      if ltb 1 updated.nr_running then check_preempt_tick curr updated else updated
