-- ===== src/Fair/Load/Nice.antt =====
-- The weights of the nice levels: the tables of hw4/kernel/sched/sched.h, and `set_load_weight` of
-- core.c.
use osandroid_kernel.Prelude.{
  ℕ, zero, suc, ◌+◌, ◌-◌, ◌*◌, ◌^◌, ◌≤◌, ◌<◌, ◌≡◌, refl, ap, ◌∙◌, Bool, true, false, ◌&&◌, List, [],
  ◌∷◌, leb, leb→le, if◌then◌else◌, arith,
}
use native.Mathlib.Decide.{dec_lt}
use osandroid_kernel.Fair.Load.{LoadWeight}

-- The entry of a table; the source reads no other.
abbrev pub entry : List ℕ → ℕ → ℕ
entry [] i = 0
entry (n ∷ ns) zero = n
entry (n ∷ ns) (suc i) = entry ns i

abbrev pub prio_to_weight : List ℕ
prio_to_weight =
    88761 ∷ 71755 ∷ 56483 ∷ 46273 ∷ 36291 ∷ 29154 ∷ 23254 ∷ 18705 ∷ 14949 ∷ 11916 ∷ 9548 ∷ 7620
    ∷ 6100 ∷ 4904 ∷ 3906 ∷ 3121 ∷ 2501 ∷ 1991 ∷ 1586 ∷ 1277 ∷ 1024 ∷ 820 ∷ 655 ∷ 526 ∷ 423 ∷ 335
    ∷ 272 ∷ 215 ∷ 172 ∷ 137 ∷ 110 ∷ 87 ∷ 70 ∷ 56 ∷ 45 ∷ 36 ∷ 29 ∷ 23 ∷ 18 ∷ 15 ∷ []

abbrev pub prio_to_wmult : List ℕ
prio_to_wmult =
    48388 ∷ 59856 ∷ 76040 ∷ 92818 ∷ 118348 ∷ 147320 ∷ 184698 ∷ 229616 ∷ 287308 ∷ 360437 ∷ 449829
    ∷ 563644 ∷ 704093 ∷ 875809 ∷ 1099582 ∷ 1376151 ∷ 1717300 ∷ 2157191 ∷ 2708050 ∷ 3363326 ∷ 4194304
    ∷ 5237765 ∷ 6557202 ∷ 8165337 ∷ 10153587 ∷ 12820798 ∷ 15790321 ∷ 19976592 ∷ 24970740 ∷ 31350126
    ∷ 39045157 ∷ 49367440 ∷ 61356676 ∷ 76695844 ∷ 95443717 ∷ 119304647 ∷ 148102320 ∷ 186737708
    ∷ 238609294 ∷ 286331153 ∷ []

-- `set_load_weight`; `idle` is the test for SCHED_IDLE, and MAX_RT_PRIO is 100.
unfoldable pub set_load_weight : (idle : Bool) → (static_prio : ℕ) → LoadWeight
set_load_weight idle static_prio =
    let prio = static_prio - 100 in
    if idle
    then record { weight = 3; inv_weight = 1431655765 }
    else record { weight = entry prio_to_weight prio; inv_weight = entry prio_to_wmult prio }

all_below : ℕ → (ℕ → Bool) → Bool
all_below zero test = true
all_below (suc n) test = all_below n test && test n

all_below_lem : (n i : ℕ) (test : ℕ → Bool) → all_below n test ≡ true → i < n → test i ≡ true
unfolding all_below
all_below_lem zero i test h lt = absurd (omega (arith, lt))
all_below_lem (suc n) i test h lt =
    split (all_below n test) (test n) refl refl h (λ e below. all_below_lem n i test e below)
  where
    split :
        (a b : Bool)
        → all_below n test ≡ a
        → test n ≡ b
        → (a && b) ≡ true
        → (all_below n test ≡ true → i < n → test i ≡ true)
        → test i ≡ true
    split true true ea eb h ih = elim (dec_lt i n) [
      | yes below ↦ ih ea below
      | no other ↦ let at : i ≡ n = omega (arith, other, lt) in ap test at ∙ eb
    ]
    split true false ea eb h ih = absurd (cc h)
    split false b ea eb h ih = absurd (cc h)

abbrev rounded_at : ℕ → Bool
rounded_at i =
    let w = entry prio_to_weight i in
    let inv = entry prio_to_wmult i in
    leb (2 * (inv * w)) (2 ^ 33 + w) && leb (2 ^ 32 + 1) (inv * w + w)

abbrev steps_at : ℕ → Bool
steps_at i =
    let w = entry prio_to_weight i in
    let w' = entry prio_to_weight (suc i) in leb (6 * w') (5 * w) && leb (10 * w) (13 * w')

both_true : (a b c d : ℕ) → (leb a b && leb c d) ≡ true → (a ≤ b) × (c ≤ d)
both_true a b c d h = split (leb a b) (leb c d) refl refl h
  where
    split : (x y : Bool) → leb a b ≡ x → leb c d ≡ y → (x && y) ≡ true → (a ≤ b) × (c ≤ d)
    split true true e f h = (leb→le a b e, leb→le c d f)
    split true false e f h = absurd (cc h)
    split false y e f h = absurd (cc h)

all_rounded : all_below 40 rounded_at ≡ true
unfolding all_below
all_rounded = refl

all_steps : all_below 39 steps_at ≡ true
unfolding all_below
all_steps = refl

-- For each priority of a task that is not real-time, the inverse that `set_load_weight` takes from the
-- table is 2 ^ 32 through the weight, less than one too small and at most a half too large, so that
-- a product with it fits; and a nice level weighs between 1.2 and 1.3 times as much as the
-- next one.
pub set_load_weight-levels :
    (nice : ℕ)
    → nice < 40
    → let lw = set_load_weight false (100 + nice) in
      let lw' = set_load_weight false (101 + nice) in
      (2 * (lw.inv_weight * lw.weight) ≤ 2 ^ 33 + lw.weight)
      × (2 ^ 32 < lw.inv_weight * lw.weight + lw.weight)
      × (nice < 39 → (6 * lw'.weight ≤ 5 * lw.weight) × (10 * lw.weight ≤ 13 * lw'.weight))
unfolding set_load_weight
set_load_weight-levels nice lt =
    let here : 100 + nice - 100 ≡ nice = omega arith in
    let there : 101 + nice - 100 ≡ suc nice = omega arith in
    let w = entry prio_to_weight in
    let (high, low) =
      both_true (2 * (entry prio_to_wmult nice * w nice)) (2 ^ 33 + w nice) (2 ^ 32 + 1)
        (entry prio_to_wmult nice * w nice + w nice)
        (all_below_lem 40 nice rounded_at all_rounded lt) in
    rw (here, there)
      (
        high,
        omega (arith, low),
        λ next.
            both_true (6 * w (suc nice)) (5 * w nice) (10 * w nice) (13 * w (suc nice))
              (all_below_lem 39 nice steps_at all_steps next),
      )
