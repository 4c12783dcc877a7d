-- ===== src/Buddy/Watermark/Laws.antt =====
-- A zone above its watermark has a block for the allocation.
use osandroid_kernel.Prelude.{
  ℕ, zero, suc, ◌+◌, ◌-◌, ◌*◌, ◌/◌, ◌^◌, ◌≤◌, ◌<◌, ◌≡◌, refl, sym, ap, ◌∙◌, ◌||◌, Bool, true, false,
  not, ◌&&◌, ltb, ◌==◌, if◌then◌else◌, arith,
}
use native.Mathlib.Decide.{ℕ_discrete, dec_lt}
use osandroid_kernel.Prelude.Families.{sum_below}
use osandroid_kernel.Prelude.Int.{ℤ, pos, ◌-ℤ◌, ◌<ℤ◌, leb_ℤ, pos_part, neg_part, -ℤ_parts}
use osandroid_kernel.Buddy.{Machine, Zone, free_pages}
use osandroid_kernel.Buddy.Watermark.{
  Watermark, watermark_rounds, lower_by, watermark_ok, zone_watermark_ok, zone_watermark_ok_safe,
}

-- The pages in the blocks below an order.
abbrev below : Zone → ℕ → ℕ
below z n = sum_below (λ k. k) n (λ o. z.nr_free o * 2 ^ o)

-- A sum that grows between two bounds has a positive term there.
sum_between_pos :
    (n k : ℕ) (f : ℕ → ℕ)
    → n ≤ k
    → sum_below (λ j. j) n f < sum_below (λ j. j) k f
    → (i : ℕ) × (n ≤ i) × (i < k) × (0 < f i)
unfolding sum_below
sum_between_pos n zero f le lt = absurd (omega (arith, lt))
sum_between_pos n (suc k) f le lt = elim (ℕ_discrete n (suc k)) [
  | yes same ↦ absurd (omega (arith, lt, ap (λ t. sum_below (λ j. j) t f) same))
  | no differs ↦ elim (dec_lt 0 (f k)) [
    | yes here ↦ (k, omega (arith, differs), omega arith, here)
    | no zero_term ↦
        let (i, ge, below_k, some) =
          sum_between_pos n k f (omega (arith, differs)) (omega (arith, lt)) in
        (i, ge, omega arith, some)
  ]
]

not_leb : (a b : ℤ) → leb_ℤ a b ≡ false → b <ℤ a
not_leb a b h = ground arith

plus_zero : (o : ℕ) → o + 0 ≡ o
plus_zero o = omega arith

plus_suc : (o n : ℕ) → o + suc n ≡ suc o + n
plus_suc o n = omega arith

zero_plus : (o : ℕ) → 0 + o ≡ o
zero_plus o = omega arith

below-zero : (z : Zone) → below z 0 ≡ 0
unfolding sum_below
below-zero z = refl

below-suc : (z : Zone) (o : ℕ) → below z (suc o) ≡ z.nr_free o * 2 ^ o + below z o
unfolding sum_below
below-suc z o = refl

watermark_rounds-below :
    (rounds o shift : ℕ) (z : Zone) (free : ℤ) (min top : ℕ)
    → watermark_rounds rounds o shift z free min ≡ true
    → pos 0 <ℤ free
    → pos_part free + below z o ≤ neg_part free + top
    → below z (o + rounds) < top
unfolding watermark_rounds
watermark_rounds-below zero o shift z free min top ok some le =
    omega (arith, some, le, ap (λ t. below z t) (plus_zero o))
watermark_rounds-below (suc rounds) o shift z free min top ok some le =
    split (leb_ℤ free' (pos (min / 2 ^ shift))) refl ok (λ ok' some'.
      watermark_rounds-below rounds (suc o) shift z free' (min / 2 ^ shift) top ok' some' le')
  where
    free' : ℤ
    free' = free -ℤ pos (z.nr_free o * 2 ^ o)

    le' : pos_part free' + below z (suc o) ≤ neg_part free' + top
    le' = omega (arith, le, -ℤ_parts free (pos (z.nr_free o * 2 ^ o)), below-suc z o)

    split :
        (b : Bool)
        → leb_ℤ free' (pos (min / 2 ^ shift)) ≡ b
        → (if b then false else watermark_rounds rounds (suc o) shift z free' (min / 2 ^ shift))
          ≡ true
        → (watermark_rounds rounds (suc o) shift z free' (min / 2 ^ shift) ≡ true
            → pos 0 <ℤ free'
            → below z (suc o + rounds) < top)
        → below z (o + suc rounds) < top
    split true e ok rest = absurd (ground (arith, ok))
    split false e ok rest =
        let above = not_leb free' (pos (min / 2 ^ shift)) e in
        omega (arith, rest ok (omega (arith, above)), ap (λ t. below z t) (plus_suc o rounds))

guarded : (b c : Bool) → (if b then false else c) ≡ true → (b ≡ false) × (c ≡ true)
guarded true c h = absurd (ground (arith, h))
guarded false c h = (refl, h)

-- Pages of CMA, when they do not count, only lower the number.
without_cma :
    (b : Bool) (f : ℤ) (n t : ℕ)
    → pos_part f ≤ neg_part f + t
    → let g = if b then f -ℤ pos n else f in pos_part g ≤ neg_part g + t
without_cma true f n t h = omega (arith, h, -ℤ_parts f (pos n))
without_cma false f n t h = h

factor_pos : (a b : ℕ) → 0 < a * b → 0 < a
factor_pos zero b h = absurd (omega (arith, h))
factor_pos (suc a) b h = omega arith

-- A zone passes with a count that is not above the pages on its lists only if a block is there.
watermark_ok-has_block :
    (m : Machine) (w : Watermark) (z : Zone) (count : ℕ)
    → w.order < m.max_order
    → count ≤ free_pages m z
    → watermark_ok m w z count ≡ true
    → (o : ℕ) × (w.order ≤ o) × (o < m.max_order) × (0 < z.nr_free o)
unfolding watermark_ok free_pages
watermark_ok-has_block m w z count lt le ok =
    let free1 = pos count -ℤ pos (2 ^ w.order - 1) in
    let min = lower_by w.alloc_harder 4 (lower_by w.alloc_high 2 w.mark) in
    let free2 =
      if m.config_cma && not w.alloc_cma then free1 -ℤ pos w.nr_free_cma_pages else free1 in
    let (fails, rounds_ok) =
      guarded (leb_ℤ free2 (pos (min + w.lowmem_reserve)))
        (watermark_rounds w.order 0 w.min_free_order_shift z free2 min) ok in
    let le1 : pos_part free1 ≤ neg_part free1 + free_pages m z =
      omega (arith, le, -ℤ_parts (pos count) (pos (2 ^ w.order - 1))) in
    let le2 : pos_part free2 ≤ neg_part free2 + free_pages m z =
      without_cma (m.config_cma && not w.alloc_cma) free1 w.nr_free_cma_pages (free_pages m z)
        le1 in
    let above = not_leb free2 (pos (min + w.lowmem_reserve)) fails in
    let less =
      watermark_rounds-below w.order 0 w.min_free_order_shift z free2 min (free_pages m z) rounds_ok
        (omega (arith, above)) (omega (arith, le2, below-zero z)) in
    let (o, ge, o_lt, some) =
      sum_between_pos w.order m.max_order (λ o. z.nr_free o * 2 ^ o) (omega arith)
        (omega (arith, less, ap (λ t. below z t) (zero_plus w.order))) in
    (o, ge, o_lt, factor_pos (z.nr_free o) (2 ^ o) some)

-- If a zone passes, with the counter of free pages or by the careful test that may look at the exact
-- value, and neither is above the pages on the free lists, then there is a free block of the order of
-- the request, which is below `max_order`, or of a greater one.
pub zone_watermark_ok-has_block :
    (m : Machine) (w : Watermark) (z : Zone)
    → w.order < m.max_order
    → w.nr_free_pages ≤ free_pages m z
    → w.nr_free_snapshot ≤ free_pages m z
    → (zone_watermark_ok m w z || zone_watermark_ok_safe m w z) ≡ true
    → (o : ℕ) × (w.order ≤ o) × (o < m.max_order) × (0 < z.nr_free o)
unfolding zone_watermark_ok zone_watermark_ok_safe
zone_watermark_ok-has_block m w z lt le_count le_exact ok =
    split (zone_watermark_ok m w z) refl ok
      (not (w.percpu_drift_mark == 0) && ltb w.nr_free_pages w.percpu_drift_mark) refl
  where
    safe_count : Bool → ℕ
    safe_count drifts = if drifts then w.nr_free_snapshot else w.nr_free_pages

    split :
        (plain : Bool)
        → zone_watermark_ok m w z ≡ plain
        → (plain || zone_watermark_ok_safe m w z) ≡ true
        → (drifts : Bool)
        → (not (w.percpu_drift_mark == 0) && ltb w.nr_free_pages w.percpu_drift_mark) ≡ drifts
        → (o : ℕ) × (w.order ≤ o) × (o < m.max_order) × (0 < z.nr_free o)
    split true e h drifts ed = watermark_ok-has_block m w z w.nr_free_pages lt le_count e
    split false e h true ed =
        watermark_ok-has_block m w z w.nr_free_snapshot lt le_exact
          (ap (λ b. watermark_ok m w z (safe_count b)) (sym ed) ∙ h)
    split false e h false ed =
        watermark_ok-has_block m w z w.nr_free_pages lt le_count
          (ap (λ b. watermark_ok m w z (safe_count b)) (sym ed) ∙ h)
