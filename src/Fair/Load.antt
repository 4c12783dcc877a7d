-- ===== src/Fair/Load.antt =====
-- Weights and slices of the fair class: `calc_delta_mine`, `calc_delta_fair`, `__sched_period`,
-- `sched_slice`, `sched_vslice` and `wakeup_gran` of hw4/kernel/sched/fair.c, `update_load_add` and its
-- like of sched.h. A `long` has 64 bits, SCHED_LOAD_RESOLUTION is 0, and an entity has no parent
-- (no group scheduling).
pub mod Bounds
pub mod Shares
pub mod Nice
use osandroid_kernel.Prelude.{
  ℕ, ◌+◌, ◌-◌, ◌*◌, ◌/◌, ◌%◌, ◌^◌, Bool, true, false, not, ltb, leb, ◌==◌, if◌then◌else◌,
}
use osandroid_kernel.Fair.{sub_u64}

-- `struct load_weight`.
pub record LoadWeight : Type 0 where
  pub weight : ℕ
  pub inv_weight : ℕ

abbrev pub update_load_add : ℕ → LoadWeight → LoadWeight
update_load_add inc lw = record { weight = (lw.weight + inc) % 2 ^ 64; inv_weight = 0 }

abbrev pub update_load_sub : ℕ → LoadWeight → LoadWeight
update_load_sub dec lw = record { weight = sub_u64 lw.weight dec; inv_weight = 0 }

-- `SRR`, on 64-bit numbers.
abbrev pub shift_round : (x y : ℕ) → ℕ
shift_round x y = (x + 2 ^ (y - 1)) % 2 ^ 64 / 2 ^ y

-- The inverse that a weight without one gets.
abbrev pub inverse_of : ℕ → ℕ
inverse_of w = if leb (2 ^ 32) w then 1 else if w == 0 then 2 ^ 32 else 2 ^ 32 / w

abbrev pub with_inverse : LoadWeight → LoadWeight
with_inverse lw = if lw.inv_weight == 0 then record lw { inv_weight = inverse_of lw.weight } else lw

-- `tmp`, before the multiplication by the inverse and after it.
abbrev pub weighted : (delta_exec weight : ℕ) → ℕ
weighted delta_exec weight = if ltb 1 weight then (delta_exec * weight) % 2 ^ 64 else delta_exec

abbrev pub scaled : (tmp inv_weight : ℕ) → ℕ
scaled tmp inv =
    if ltb (2 ^ 32) tmp
    then shift_round ((shift_round tmp 16 * inv) % 2 ^ 64) 16
    else shift_round ((tmp * inv) % 2 ^ 64) 32

abbrev pub at_most : (limit n : ℕ) → ℕ
at_most limit n = if ltb limit n then limit else n

-- `calc_delta_mine`, with the load that holds the inverse afterwards.
unfoldable pub calc_delta_mine : (delta_exec weight : ℕ) → LoadWeight → ℕ × LoadWeight
calc_delta_mine delta_exec weight lw =
    let lw' = with_inverse lw in
    (at_most (2 ^ 63 - 1) (scaled (weighted delta_exec weight) lw'.inv_weight), lw')

abbrev pub nice_0_load : ℕ
nice_0_load = 1024

-- `calc_delta_fair`, on the load of an entity.
unfoldable pub calc_delta_fair : (delta : ℕ) → LoadWeight → ℕ × LoadWeight
calc_delta_fair delta load =
    if load.weight == nice_0_load then (delta, load) else calc_delta_mine delta nice_0_load load

-- The `sysctl_sched_...` that are read, and `sched_nr_latency`.
pub record Tunables : Type 0 where
  pub latency : ℕ
  pub min_granularity : ℕ
  pub wakeup_granularity : ℕ
  pub nr_latency : ℕ

-- `__sched_period`.
unfoldable pub sched_period : Tunables → (nr_running : ℕ) → ℕ
sched_period t nr_running =
    if ltb t.nr_latency nr_running then (t.min_granularity * nr_running) % 2 ^ 64 else t.latency

-- The fields of `struct sched_entity`.
pub record SchedEntity : Type 0 where
  pub load : LoadWeight
  pub on_rq : Bool
  pub exec_start : ℕ
  pub sum_exec_runtime : ℕ
  pub vruntime : ℕ
  pub prev_sum_exec_runtime : ℕ

-- `sched_slice`, from the count and the load of the queue, with the load afterwards: that of an
-- entity that is not on the queue yet goes into a copy.
unfoldable pub sched_slice :
    Tunables → (nr_running : ℕ) → (load : LoadWeight) → SchedEntity → ℕ × LoadWeight
sched_slice t nr_running load se =
    let slice = sched_period t (if se.on_rq then nr_running else nr_running + 1) in
    let own = calc_delta_mine slice se.load.weight load in
    let copy = calc_delta_mine slice se.load.weight (update_load_add se.load.weight load) in
    if se.on_rq then own else (copy.0, load)

-- `sched_vslice`; the inverse that the entity gets is left out.
unfoldable pub sched_vslice : Tunables → (nr_running : ℕ) → (load : LoadWeight) → SchedEntity → ℕ
sched_vslice t nr_running load se = (calc_delta_fair (sched_slice t nr_running load se).0 se.load).0

-- `wakeup_gran` for the entity `se`.
unfoldable pub wakeup_gran : Tunables → SchedEntity → ℕ
wakeup_gran t se = (calc_delta_fair t.wakeup_granularity se.load).0
