-- ===== src/Fair/Entity/Once.antt =====
-- `update_curr` charges the time up to now once, and times only go forward.
use osandroid_kernel.Prelude.{
  ℕ, ◌+◌, ◌-◌, ◌%◌, ◌^◌, ◌<◌, ◌≡◌, refl, sym, ap, ◌∙◌, Bool, true, false, some, ◌==◌, ==-refl,
  if◌then◌else◌, if_elim, arith,
}
use mathlib.Core.Path.{subst}
use osandroid_kernel.Prelude.Families.{put_at}
use osandroid_kernel.Fair.{sub_u64, update_min_vruntime}
use osandroid_kernel.Fair.Load.{
  LoadWeight, SchedEntity, calc_delta_mine, calc_delta_fair, nice_0_load, at_most, scaled, weighted,
  with_inverse,
}
use osandroid_kernel.Fair.Entity.{FairRq, charged, charge_curr, update_of, update_curr}

calc_delta_fair-lt :
    (delta : ℕ) (load : LoadWeight) → delta < 2 ^ 63 → (calc_delta_fair delta load).0 < 2 ^ 63
unfolding calc_delta_fair calc_delta_mine
calc_delta_fair-lt delta load h =
    if_elim (λ (p : ℕ × LoadWeight). p.0 < 2 ^ 63) (load.weight == nice_0_load) (delta, load)
      (calc_delta_mine delta nice_0_load load) h
      (limited (scaled (weighted delta nice_0_load) (with_inverse load).inv_weight))
  where
    limited : (n : ℕ) → at_most (2 ^ 63 - 1) n < 2 ^ 63
    limited n = ground arith

calc_delta_fair-zero : (load : LoadWeight) → (calc_delta_fair 0 load).0 ≡ 0
unfolding calc_delta_fair calc_delta_mine
calc_delta_fair-zero load =
    if_elim (λ (p : ℕ × LoadWeight). p.0 ≡ 0) (load.weight == nice_0_load) (0, load)
      (calc_delta_mine 0 nice_0_load load) refl (ground arith)

put_at-here : (c : ℕ) (e : SchedEntity) (entity : ℕ → SchedEntity) → put_at c e entity c ≡ e
put_at-here c e entity = rw (==-refl c) refl

-- Without time gone by there is nothing to charge.
update_of_none :
    (s : FairRq) (c : ℕ)
    → s.queue.curr ≡ some c
    → sub_u64 s.clock_task (s.entity c).exec_start ≡ 0
    → update_of s.queue.curr s ≡ s
update_of_none s c at h = ap (λ o. update_of o s) at ∙ split (delta == 0) refl
  where
    delta : ℕ
    delta = sub_u64 s.clock_task (s.entity c).exec_start

    split : (b : Bool) → (delta == 0) ≡ b → (if b then s else charge_curr c delta s) ≡ s
    split true e = refl
    split false e = absurd (ground (arith, e, h))

module _ (s : FairRq) (c : ℕ) (at : s.queue.curr ≡ some c) where
  abbrev delta_exec : ℕ
  delta_exec = sub_u64 s.clock_task (s.entity c).exec_start

  -- The entity has the time since its last charge, and no time is left.
  abbrev pub Charged : FairRq → Type 0
  Charged s' =
      (update_curr s' ≡ s')
      × ((s'.entity c).sum_exec_runtime ≡ ((s.entity c).sum_exec_runtime + delta_exec) % 2 ^ 64)
      × ((s'.entity c).exec_start ≡ s.clock_task)
      × ((s'.entity c).vruntime
          ≡ ((s.entity c).vruntime + (calc_delta_fair delta_exec (s.entity c).load).0) % 2 ^ 64)
      × (sub_u64 (s'.entity c).vruntime (s.entity c).vruntime < 2 ^ 63)

  -- `update_curr` adds the time since the last charge of the current entity to the time it has run,
  -- and that time, weighted by its load, to its virtual run time, which goes forward; a second call
  -- at the same time does nothing. The clock and the times of the entity are 64-bit numbers, and less
  -- than 2 ^ 63 have gone by.
  pub update_curr-Charged :
      s.clock_task < 2 ^ 64
      → (s.entity c).exec_start < 2 ^ 64
      → (s.entity c).sum_exec_runtime < 2 ^ 64
      → (s.entity c).vruntime < 2 ^ 64
      → delta_exec < 2 ^ 63
      → Charged (update_curr s)
  unfolding update_curr update_min_vruntime
  update_curr-Charged clock start sum time h =
      subst (λ o. Charged (update_of o s)) (sym at) (split (delta_exec == 0) refl)
    where
      e : SchedEntity
      e = charged delta_exec s.clock_task (s.entity c)

      here : put_at c e s.entity c ≡ e
      here = put_at-here c e s.entity

      s' : FairRq
      s' = charge_curr c delta_exec s

      unmoved :
          delta_exec ≡ 0
          → (s.entity c).vruntime
            ≡ ((s.entity c).vruntime + (calc_delta_fair delta_exec (s.entity c).load).0) % 2 ^ 64
      unmoved zero_time =
          let none_charged : (calc_delta_fair delta_exec (s.entity c).load).0 ≡ 0 =
            ap (λ d. (calc_delta_fair d (s.entity c).load).0) zero_time
            ∙ calc_delta_fair-zero (s.entity c).load in
          omega (arith, none_charged, time)

      forward : (v w : ℕ) → v < 2 ^ 64 → w < 2 ^ 63 → sub_u64 ((v + w) % 2 ^ 64) v < 2 ^ 63
      forward v w hv hw = omega (arith, hv, hw)

      split :
          (b : Bool) → (delta_exec == 0) ≡ b → Charged (if b then s else charge_curr c delta_exec s)
      split true none_left =
          let zero_time : delta_exec ≡ 0 = ground (arith, none_left) in
          (
            update_of_none s c at zero_time,
            omega (arith, zero_time, sum),
            omega (arith, zero_time, clock, start),
            unmoved zero_time,
            omega (arith, time),
          )
      split false some_left = (
        update_of_none s' c at (
            ap (λ (x : SchedEntity). sub_u64 s.clock_task x.exec_start) here
            ∙ none_since s.clock_task),
        ap (λ (x : SchedEntity). x.sum_exec_runtime) here,
        ap (λ (x : SchedEntity). x.exec_start) here,
        ap (λ (x : SchedEntity). x.vruntime) here,
        subst (λ (x : SchedEntity). sub_u64 x.vruntime (s.entity c).vruntime < 2 ^ 63) (sym here)
            (forward (s.entity c).vruntime (calc_delta_fair delta_exec (s.entity c).load).0 time
              (calc_delta_fair-lt delta_exec (s.entity c).load h)),
      )
        where
          none_since : (n : ℕ) → sub_u64 n n ≡ 0
          none_since n = omega arith
