-- ===== src/Prelude/Families.antt =====
-- Families indexed by a number, such as the threads of a program: change at one index, and the sum
-- of a weight over the first `n`.
use Prim.Native.Nat.{ℕ, zero, suc, ◌+◌, ◌≤◌, ◌<◌}
use mathlib.Core.Path.{◌≡◌, refl}
use native.Mathlib.Omega.{arith}
use native.Mathlib.Decide.{dec_lt}
use osandroid_kernel.Prelude.Tests.{◌==◌, if◌then◌else◌}

module _ {ℓ} {A : Type ℓ} where
  -- `f` with `a` at `i`.
  abbrev pub put_at : ℕ → A → (ℕ → A) → ℕ → A
  put_at i a f j = if i == j then a else f j

  unfoldable pub sum_below : (A → ℕ) → ℕ → (ℕ → A) → ℕ
  sum_below w zero f = 0
  sum_below w (suc n) f = w (f n) + sum_below w n f

  sum_below-put_outside :
      (w : A → ℕ) (n i : ℕ) (a : A) (f : ℕ → A)
      → n ≤ i
      → sum_below w n (put_at i a f) ≡ sum_below w n f
  unfolding sum_below
  sum_below-put_outside w zero i a f h = refl
  sum_below-put_outside w (suc n) i a f h = ground (arith, sum_below-put_outside w n i a f)

  -- A change at `i` moves the sum by the difference of the weights there.
  pub sum_below-put :
      (w : A → ℕ) (n i : ℕ) (a : A) (f : ℕ → A)
      → i < n
      → sum_below w n (put_at i a f) + w (f i) ≡ sum_below w n f + w a
  unfolding sum_below
  sum_below-put w zero i a f h = absurd (omega arith)
  sum_below-put w (suc n) i a f h =
      ground (arith, sum_below-put w n i a f, sum_below-put_outside w n i a f)

  pub le-sum_below : (w : A → ℕ) (n i : ℕ) (f : ℕ → A) → i < n → w (f i) ≤ sum_below w n f
  unfolding sum_below
  le-sum_below w zero i f h = absurd (omega arith)
  le-sum_below w (suc n) i f h = ground (arith, le-sum_below w n i f)

  pub sum_below-le-sum_below :
      (v w : A → ℕ) (n : ℕ) (f : ℕ → A) → ((a : A) → v a ≤ w a) → sum_below v n f ≤ sum_below w n f
  unfolding sum_below
  sum_below-le-sum_below v w zero f h = omega arith
  sum_below-le-sum_below v w (suc n) f h = omega (arith, h (f n), sum_below-le-sum_below v w n f h)

  -- A positive sum has a positive weight.
  pub sum_below_pos :
      (w : A → ℕ) (n : ℕ) (f : ℕ → A) → 0 < sum_below w n f → (i : ℕ) × (i < n) × (0 < w (f i))
  unfolding sum_below
  sum_below_pos w zero f h = absurd (omega arith)
  sum_below_pos w (suc n) f h = elim (dec_lt 0 (w (f n))) [
    | yes here ↦ (n, omega arith, here)
    | no other ↦ let (i, lt, p) = sum_below_pos w n f (omega arith) in (i, omega arith, p)
  ]
