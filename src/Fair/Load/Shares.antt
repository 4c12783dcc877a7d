-- ===== src/Fair/Load/Shares.antt =====
-- The slices of the entities of a queue fit in its period.
use osandroid_kernel.Prelude.{ℕ, ◌+◌, ◌*◌, ◌^◌, ◌≤◌, ◌<◌, ◌≡◌, ap, true, List, [], ◌∷◌, arith}
use osandroid_kernel.Prelude.Lists.{length, All}
use osandroid_kernel.Fair.Load.{LoadWeight, SchedEntity, Tunables, sched_period, sched_slice}
use osandroid_kernel.Fair.Load.Bounds.{IsRounded, calc_delta_mine-le}

abbrev pub weights : List SchedEntity → ℕ
weights [] = 0
weights (se ∷ ses) = se.load.weight + weights ses

abbrev pub slices : Tunables → ℕ → LoadWeight → List SchedEntity → ℕ
slices t nr load [] = 0
slices t nr load (se ∷ ses) = (sched_slice t nr load se).0 + slices t nr load ses

abbrev pub Queued : SchedEntity → Type 0
Queued se = (se.on_rq ≡ true) × (0 < se.load.weight)

module _ (t : Tunables) (load : LoadWeight) (rounded : IsRounded load) where
  slice-le :
      (nr : ℕ) (se : SchedEntity)
      → Queued se
      → 2 * ((sched_slice t nr load se).0 * load.weight)
        ≤ 2 * (sched_period t nr * se.load.weight) + 2 ^ 16 + load.weight
  unfolding sched_slice
  slice-le nr se (on, pos) =
      rw on (calc_delta_mine-le (sched_period t nr) se.load.weight load pos rounded)

  slices-le :
      (nr : ℕ) (ses : List SchedEntity)
      → All Queued ses
      → 2 * (slices t nr load ses * load.weight)
        ≤ 2 * (sched_period t nr * weights ses) + length ses * (2 ^ 16 + load.weight)
  slices-le nr [] h = omega arith
  slices-le nr (se ∷ ses) (here, there) = omega (arith, slice-le nr se here, slices-le nr ses there)

  -- When the load of a queue is the sum of the weights of its entities, none of them 0, and below 2 ^ 32, the slices
  -- that `sched_slice` gives to all of them are together no longer than the period, but for the
  -- rounding: half a unit for each entity, and 2 ^ 15 / load.
  pub sched_slice-shares :
      (ses : List SchedEntity)
      → All Queued ses
      → weights ses ≡ load.weight
      → 2 * (slices t (length ses) load ses * load.weight)
        ≤ 2 * (sched_period t (length ses) * load.weight) + length ses * (2 ^ 16 + load.weight)
  sched_slice-shares ses h sum =
      omega (arith, slices-le (length ses) ses h, ap (λ w. sched_period t (length ses) * w) sum)
