-- ===== src/Fair/Entity/Tick.antt =====
-- What `entity_tick` does when the current entity has run for long enough.
use osandroid_kernel.Prelude.{
  ℕ, ◌+◌, ◌≤◌, ◌<◌, ◌≡◌, refl, sym, ap, ◌∙◌, Bool, true, false, Option, none, some, ◌↔◌, ◌⊎◌, inl,
  inr, ◌==◌, ltb, if◌then◌else◌, if_elim, arith,
}
use mathlib.Core.Path.{subst}
use osandroid_kernel.Fair.{sub_u64, is_negative, RbTree, CfsRq}
use osandroid_kernel.Fair.Order.{IsQueue}
use osandroid_kernel.Fair.Load.{
  LoadWeight, Tunables, inverse_of, calc_delta_mine, update_load_add, sched_period, sched_slice,
}
use osandroid_kernel.Fair.Entity.{
  FairRq, vruntimes, clear_buddies, check_first, check_preempt_tick, entity_tick, charge_curr,
  update_of, update_curr,
}
use osandroid_kernel.Fair.Entity.Members.{IsFair}
use osandroid_kernel.Fair.Entity.Charge.{IsFair-Alike, update_curr-IsFair}

module _ (rb : RbTree) (t : Tunables) (start_debit gentle_fair_sleepers : Bool) (curr : ℕ) where
  -- The slice of the current entity, and how long it has run of it.
  abbrev pub slice : FairRq → ℕ
  slice s = (sched_slice t s.nr_running s.load (s.entity curr)).0

  abbrev pub ran : FairRq → ℕ
  ran s = sub_u64 (s.entity curr).sum_exec_runtime (s.entity curr).prev_sum_exec_runtime

  -- Its time is ahead of that of the first entity by more than its slice.
  abbrev pub IsAhead : FairRq → Type 0
  IsAhead s =
      (se : ℕ) × (s.queue.rb_leftmost ≡ some se)
      × (is_negative (sub_u64 (s.entity curr).vruntime (s.entity se).vruntime) ≡ false)
      × (slice s < sub_u64 (s.entity curr).vruntime (s.entity se).vruntime)

  -- `s'` is `s`, but for the inverse of its load, its buddies and its mark.
  abbrev pub Checks : FairRq → FairRq → Type 0
  Checks s s' =
      (s'.queue ≡ s.queue)
      × (s'.entity ≡ s.entity)
      × (s'.nr_running ≡ s.nr_running)
      × (s'.load.weight ≡ s.load.weight)

  -- When the current entity is to be preempted.
  abbrev pub IsDue : FairRq → Type 0
  IsDue s = (slice s < ran s) ⊎ ((t.min_granularity ≤ ran s) × IsAhead s)

  abbrev pub Marks : FairRq → FairRq → Type 0
  Marks s s' = Checks s s' × (s'.resched ≡ true → IsDue s) × (IsDue s → s'.resched ≡ true)

  weight-slice :
      (s : FairRq) → (sched_slice t s.nr_running s.load (s.entity curr)).1.weight ≡ s.load.weight
  unfolding sched_slice calc_delta_mine
  weight-slice s =
      if_elim (λ (p : ℕ × LoadWeight). p.1.weight ≡ s.load.weight) (s.entity curr).on_rq
        (calc_delta_mine
          (sched_period t (if (s.entity curr).on_rq then s.nr_running else s.nr_running + 1))
          (s.entity curr).load.weight s.load)
        (
          (calc_delta_mine
              (sched_period t (if (s.entity curr).on_rq then s.nr_running else s.nr_running + 1))
              (s.entity curr).load.weight (update_load_add (s.entity curr).load.weight s.load)).0,
          s.load,
        )
        (if_elim (λ (lw : LoadWeight). lw.weight ≡ s.load.weight) (s.load.inv_weight == 0)
          (record s.load { inv_weight = inverse_of s.load.weight }) s.load refl refl)
        refl

  module _ (s : FairRq) (unmarked : s.resched ≡ false) where
    abbrev cached : FairRq
    cached = record s { load = (sched_slice t s.nr_running s.load (s.entity curr)).1 }

    same : Checks s cached
    same = (refl, refl, refl, weight-slice s)

    not_marked : (s' : FairRq) → s'.resched ≡ s.resched → s'.resched ≡ true → IsDue s
    not_marked s' e h = absurd (cc (e, h, unmarked))

    -- The entity that it would be ahead of is the first one.
    ahead_of :
        (se : ℕ)
        → s.queue.rb_leftmost ≡ some se
        → IsAhead s
        → (is_negative (sub_u64 (s.entity curr).vruntime (s.entity se).vruntime) ≡ false)
          × (slice s < sub_u64 (s.entity curr).vruntime (s.entity se).vruntime)
    ahead_of se at (se', at', neg, lt) =
        let one : se' ≡ se = cc (at, at') in
        subst
          (λ e.
            (is_negative (sub_u64 (s.entity curr).vruntime (s.entity e).vruntime) ≡ false)
            × (slice s < sub_u64 (s.entity curr).vruntime (s.entity e).vruntime))
          one (neg, lt)

    not_due :
        ran s ≤ slice s → (t.min_granularity ≤ ran s → IsAhead s → ⊥) → IsDue s → s.resched ≡ true
    not_due early never (inl over) = absurd (omega (arith, early, over))
    not_due early never (inr (long, ahead)) = absurd (never long ahead)

    check_first-Marks :
        (o : Option ℕ)
        → s.queue.rb_leftmost ≡ o
        → ran s ≤ slice s
        → t.min_granularity ≤ ran s
        → Marks s (check_first rb t start_debit gentle_fair_sleepers (slice s) curr o cached)
    check_first-Marks none at early long = (
      same,
      not_marked cached refl,
      not_due early (λ long' ahead. let (se, at', neg, lt) = ahead in absurd (cc (at, at'))),
    )
    check_first-Marks (some se) at early long = split (is_negative d) (ltb (slice s) d) refl refl
      where
        d : ℕ
        d = sub_u64 (s.entity curr).vruntime (s.entity se).vruntime

        split :
            (b c : Bool)
            → is_negative d ≡ b
            → ltb (slice s) d ≡ c
            → Marks s
                (if b then cached else if c then (record cached { resched = true }) else cached)
        split true c eb ec = (
          same,
          not_marked cached refl,
          not_due early
              (λ long' ahead. let (neg, lt) = ahead_of se at ahead in absurd (cc (neg, eb))),
        )
        split false true eb ec =
            (same, λ h. inr (long, (se, at, eb, ground (arith, ec))), λ h. refl)
        split false false eb ec = (
          same,
          not_marked cached refl,
          not_due early
              (λ long' ahead. let (neg, lt) = ahead_of se at ahead in ground (arith, lt, ec)),
        )

    check_preempt_tick-Marks :
        Marks s (check_preempt_tick rb t start_debit gentle_fair_sleepers curr s)
    unfolding check_preempt_tick
    check_preempt_tick-Marks =
        split (ltb (slice s) (ran s)) (ltb (ran s) t.min_granularity) refl refl
      where
        split :
            (b c : Bool)
            → ltb (slice s) (ran s) ≡ b
            → ltb (ran s) t.min_granularity ≡ c
            → Marks s (
                if b
                then clear_buddies curr (record cached { resched = true })
                else if c
                then cached
                else check_first rb t start_debit gentle_fair_sleepers
                    (slice s)
                    curr
                    s.queue.rb_leftmost
                    cached)
        split true c eb ec = (same, (λ h. inl (ground (arith, eb))), λ h. refl)
        split false true eb ec = (
          same,
          not_marked cached refl,
          not_due (ground (arith, eb)) (λ long ahead. ground (arith, ec, long)),
        )
        split false false eb ec =
            check_first-Marks s.queue.rb_leftmost refl (ground (arith, eb)) (ground (arith, ec))

  resched-update : (s : FairRq) → (update_curr s).resched ≡ s.resched
  unfolding update_curr
  resched-update s = split s.queue.curr
    where
      split : (o : Option ℕ) → (update_of o s).resched ≡ s.resched
      split none = refl
      split (some c) =
          let delta = sub_u64 s.clock_task (s.entity c).exec_start in
          if_elim (λ (x : FairRq). x.resched ≡ s.resched) (delta == 0) s (charge_curr c delta s)
            refl refl

  IsFair-Checks : (base : ℕ) (s s' : FairRq) → IsFair base s → Checks s s' → IsFair base s'
  IsFair-Checks base s s' fair (queue, entity, nr, load) =
      IsFair-Alike base s s' fair
        (λ e. (ap (λ f. (f e).on_rq) entity, ap (λ f. (f e).load.weight) entity))
        (ap (λ (q : CfsRq). q.curr) queue) (ap (λ (q : CfsRq). q.tasks_timeline) queue) nr load
        (subst (λ q. IsQueue (vruntimes s'.entity) base q) (sym queue)
          (subst (λ f. IsQueue (vruntimes f) base s.queue) (sym entity) fair.0))

  -- After its charge, the tick marks an entity that is not marked yet exactly when it is not alone on the queue
  -- and has run for longer than its slice, or for the least granularity and is
  -- ahead of the first entity by more than its slice; and a fair queue stays fair.
  pub entity_tick-IsDue :
      (base : ℕ) (s : FairRq)
      → s.resched ≡ false
      → IsFair base s
      → let u = update_curr s in
        let s' = entity_tick rb t start_debit gentle_fair_sleepers curr s in
        IsFair base s' × ((s'.resched ≡ true) ↔ ((1 < u.nr_running) × IsDue u))
  unfolding entity_tick
  entity_tick-IsDue base s unmarked fair = split (ltb 1 u.nr_running) refl
    where
      u : FairRq
      u = update_curr s

      unmarked' : u.resched ≡ false
      unmarked' = resched-update s ∙ unmarked

      split :
          (b : Bool)
          → ltb 1 u.nr_running ≡ b
          → let s' =
              if b then check_preempt_tick rb t start_debit gentle_fair_sleepers curr u else u in
            IsFair base s' × ((s'.resched ≡ true) ↔ ((1 < u.nr_running) × IsDue u))
      split true e =
          let (kept, due, mark) = check_preempt_tick-Marks u unmarked' in
          (
            IsFair-Checks base u (check_preempt_tick rb t start_debit gentle_fair_sleepers curr u)
                (update_curr-IsFair base s fair) kept,
            ((λ h. (ground (arith, e), due h)), λ h. mark h.1),
          )
      split false e = (
        update_curr-IsFair base s fair,
        ((λ h. absurd (cc (h, unmarked'))), λ h. absurd (ground (arith, e, h.0))),
      )
