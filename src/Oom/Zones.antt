-- ===== src/Oom/Zones.antt =====
-- The zone locks of the killer: `ZONE_OOM_LOCKED` of each zone, taken for all zones of a list or for
-- none. `zone_scan_lock` makes each routine one step. The system-wide routines do the same for the
-- list of all populated zones.
use osandroid_kernel.Prelude.{
  ℕ, ◌≡◌, refl, ◌⊎◌, inl, inr, Bool, true, false, ◌||◌, List, [], ◌∷◌, arith, ◌==◌, if◌then◌else◌,
  Bool-cases,
}

-- Whether each zone is locked.
abbrev pub Locks : Type 0
Locks = ℕ → Bool

any_locked : Locks → List ℕ → Bool
any_locked locks [] = false
any_locked locks (z ∷ zs) = locks z || any_locked locks zs

pub set_flags : Bool → List ℕ → Locks → Locks
set_flags b [] locks = locks
set_flags b (z ∷ zs) locks = set_flags b zs (λ y. if y == z then b else locks y)

-- Whether the locks were taken, and the locks.
pub try_set_zonelist_oom : List ℕ → Locks → Bool × Locks
unfolding any_locked set_flags
try_set_zonelist_oom zs locks =
    if any_locked locks zs then (false, locks) else (true, set_flags true zs locks)

pub clear_zonelist_oom : List ℕ → Locks → Locks
unfolding set_flags
clear_zonelist_oom zs locks = set_flags false zs locks

abbrev pub in_zones : ℕ → List ℕ → Bool
in_zones y [] = false
in_zones y (z ∷ zs) = (y == z) || in_zones y zs

pub set_flags_lem :
    (b : Bool) (zs : List ℕ) (locks : Locks) (y : ℕ)
    → set_flags b zs locks y ≡ (if in_zones y zs then b else locks y)
unfolding set_flags
set_flags_lem b [] locks y = refl
set_flags_lem b (z ∷ zs) locks y =
    ground (arith, set_flags_lem b zs (λ x. if x == z then b else locks x) y)

any_locked-false :
    (locks : Locks) (zs : List ℕ) (y : ℕ)
    → any_locked locks zs ≡ false
    → in_zones y zs ≡ true
    → locks y ≡ false
unfolding any_locked
any_locked-false locks [] y h m = absurd (cc)
any_locked-false locks (z ∷ zs) y h m = ground (arith, any_locked-false locks zs y)

any_locked-true :
    (locks : Locks) (zs : List ℕ)
    → any_locked locks zs ≡ true
    → (z : ℕ) × (in_zones z zs ≡ true) × (locks z ≡ true)
unfolding any_locked
any_locked-true locks [] h = absurd (cc)
any_locked-true locks (z ∷ zs) h = elim (Bool-cases (locks z)) [
  | inl e ↦ (z, ground arith, e)
  | inr e ↦ let (y, m, l) = any_locked-true locks zs (ground arith) in (y, ground arith, l)
]

-- Taking the locks either finds one of the zones locked and changes nothing, or finds all of them
-- free and locks exactly those; clearing them afterwards restores every lock.
pub try_set-clear :
    (zs : List ℕ) (locks : Locks)
    → let (taken, locks') = try_set_zonelist_oom zs locks in
      ((taken ≡ false) × (locks' ≡ locks) × ((z : ℕ) × (in_zones z zs ≡ true) × (locks z ≡ true)))
      ⊎ ((taken ≡ true)
          × ((y : ℕ) → locks' y ≡ (in_zones y zs || locks y))
          × ((y : ℕ) → clear_zonelist_oom zs locks' y ≡ locks y))
unfolding try_set_zonelist_oom clear_zonelist_oom
try_set-clear zs locks = elim (Bool-cases (any_locked locks zs)) [
  | inl busy ↦ rw busy (inl (refl, refl, any_locked-true locks zs busy))
  | inr free ↦ rw free (
      inr (
        refl,
        λ y. ground (arith, set_flags_lem true zs locks y),
        λ y. ground (
          arith,
          set_flags_lem true zs locks y,
          set_flags_lem false zs (set_flags true zs locks) y,
          any_locked-false locks zs y,
        ),
      ))
]
