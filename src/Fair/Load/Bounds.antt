-- ===== src/Fair/Load/Bounds.antt =====
-- A slice is no more than the share of the weight, up to the rounding.
use osandroid_kernel.Prelude.{ℕ, ◌+◌, ◌-◌, ◌*◌, ◌%◌, ◌^◌, ◌≤◌, ◌<◌, ltb, ◌==◌, if_elim, arith}
use native.Mathlib.Nat.{mul-le-mul_left, mul-le-mul_right, div-mul-le_self}
use osandroid_kernel.Fair.Load.{
  LoadWeight, with_inverse, inverse_of, weighted, shift_round, scaled, at_most, calc_delta_mine,
}

-- One rounded shift of a product with an inverse, in units of 1 / 2.
small-le :
    (t inv w r : ℕ) → inv * w ≤ 2 ^ 32 → r * 2 ^ 32 ≤ t * inv + 2 ^ 31 → 2 * (r * w) ≤ 2 * t + w
small-le t inv w r h hr = omega (arith, mul-le-mul_right w hr, mul-le-mul_left t h)

large-le :
    (t a inv w r : ℕ)
    → inv * w ≤ 2 ^ 32
    → a * 2 ^ 16 ≤ t + 2 ^ 15
    → r * 2 ^ 16 ≤ a * inv + 2 ^ 15
    → 2 * (r * w) ≤ 2 * t + 2 ^ 16 + w
large-le t a inv w r h ha hr = omega (arith, mul-le-mul_right w hr, mul-le-mul_left a h, ha)

-- The inverse is missing or no greater than that of the weight.
abbrev pub IsRounded : LoadWeight → Type 0
IsRounded lw = (lw.weight < 2 ^ 32) × (lw.inv_weight * lw.weight ≤ 2 ^ 32)

inverse_of-le : (w : ℕ) → w < 2 ^ 32 → inverse_of w * w ≤ 2 ^ 32
inverse_of-le w h = ground (arith, div-mul-le_self (2 ^ 32) w)

with_inverse-le :
    (lw : LoadWeight) → IsRounded lw → (with_inverse lw).inv_weight * lw.weight ≤ 2 ^ 32
with_inverse-le lw (small, h) =
    if_elim (λ (l : LoadWeight). l.inv_weight * lw.weight ≤ 2 ^ 32) (lw.inv_weight == 0)
      (record lw { inv_weight = inverse_of lw.weight }) lw (inverse_of-le lw.weight small) h

scaled-le : (tmp inv w : ℕ) → inv * w ≤ 2 ^ 32 → 2 * (scaled tmp inv * w) ≤ 2 * tmp + 2 ^ 16 + w
scaled-le tmp inv w h =
    if_elim (λ r. 2 * (r * w) ≤ 2 * tmp + 2 ^ 16 + w) (ltb (2 ^ 32) tmp)
      (shift_round ((shift_round tmp 16 * inv) % 2 ^ 64) 16) (shift_round ((tmp * inv) % 2 ^ 64) 32)
      (large-le tmp (shift_round tmp 16) inv w
        (shift_round ((shift_round tmp 16 * inv) % 2 ^ 64) 16) h (omega arith) (omega arith))
      (omega (arith, small-le tmp inv w (shift_round ((tmp * inv) % 2 ^ 64) 32) h (omega arith)))

weighted-le : (delta weight : ℕ) → 0 < weight → weighted delta weight ≤ delta * weight
weighted-le delta weight h = ground arith

pub calc_delta_mine-le :
    (delta weight : ℕ) (lw : LoadWeight)
    → 0 < weight
    → IsRounded lw
    → 2 * ((calc_delta_mine delta weight lw).0 * lw.weight)
      ≤ 2 * (delta * weight) + 2 ^ 16 + lw.weight
unfolding calc_delta_mine
calc_delta_mine-le delta weight lw pos h =
    let inv = (with_inverse lw).inv_weight in
    let tmp = weighted delta weight in
    let limited : at_most (2 ^ 63 - 1) (scaled tmp inv) ≤ scaled tmp inv = ground arith in
    omega (
      arith,
      mul-le-mul_right lw.weight limited,
      scaled-le tmp inv lw.weight (with_inverse-le lw h),
      weighted-le delta weight pos,
    )
