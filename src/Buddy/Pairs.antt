-- ===== src/Buddy/Pairs.antt =====
-- Blocks by their numbers: where one begins, and the pair that two twins make.
use osandroid_kernel.Prelude.{ℕ, suc, ◌+◌, ◌*◌, ◌/◌, ◌^◌, ◌≡◌, refl, sym, ap, ◌∙◌, arith}
use mathlib.Core.Path.{subst}
use native.Mathlib.Nat.{one-le-pow, mul-div_cancel, div-div-eq-div-mul, pow-suc}
use osandroid_kernel.Buddy.{in_block, Aligned}
use osandroid_kernel.Buddy.Bits.{twin, mul-two_pow_suc}

pub block_number : (x o : ℕ) → x * 2 ^ o / 2 ^ o ≡ x
block_number x o = mul-div_cancel x (one-le-pow o 2 (omega arith))

pub block-Aligned : (x o : ℕ) → Aligned (x * 2 ^ o) o
block-Aligned x o = ap (λ t. t * 2 ^ o) (block_number x o)

div-two_pow_suc : (q o : ℕ) → q / 2 ^ suc o ≡ q / 2 ^ o / 2
div-two_pow_suc q o = ap (λ t. q / t) (pow-suc 2 o) ∙ sym (div-div-eq-div-mul q (2 ^ o) 2)

-- The block of a pair covers the pages of the two.
pub in_block-pair :
    (x o q : ℕ)
    → in_block (x / 2 * 2 ^ suc o) (suc o) q
      ≡ in_block (x * 2 ^ o) o q + in_block (twin x * 2 ^ o) o q
unfolding in_block
in_block-pair x o q =
    rw
      (block_number x o, block_number (twin x) o, block_number (x / 2) (suc o), div-two_pow_suc q o)
      (ground arith)

-- The two halves of an aligned block.
module _ (page h : ℕ) (al : Aligned page (suc h)) where
  lower : page ≡ page / 2 ^ suc h * 2 * 2 ^ h
  lower = omega (
    arith,
    al,
    mul-two_pow_suc (page / 2 ^ suc h) h,
    ap (λ t. t * 2 ^ h) (refl {a = page / 2 ^ suc h * 2}),
  )

  upper : page + 2 ^ h ≡ (page / 2 ^ suc h * 2 + 1) * 2 ^ h
  upper = omega (arith, lower, ap (λ t. t * 2 ^ h) (refl {a = page / 2 ^ suc h * 2 + 1}))

  pub half-Aligned : Aligned page h
  half-Aligned = subst (λ p. Aligned p h) (sym lower) (block-Aligned (page / 2 ^ suc h * 2) h)

  pub other_half-Aligned : Aligned (page + 2 ^ h) h
  other_half-Aligned =
      subst (λ p. Aligned p h) (sym upper) (block-Aligned (page / 2 ^ suc h * 2 + 1) h)

  pub in_block-halves :
      (q : ℕ) → in_block page (suc h) q ≡ in_block page h q + in_block (page + 2 ^ h) h q
  unfolding in_block
  in_block-halves q = ground (
    arith,
    div-two_pow_suc q h,
    ap (λ p. p / 2 ^ h) lower ∙ block_number (page / 2 ^ suc h * 2) h,
    ap (λ p. p / 2 ^ h) upper ∙ block_number (page / 2 ^ suc h * 2 + 1) h,
  )

  pub twin_of_upper : twin ((page + 2 ^ h) / 2 ^ h) * 2 ^ h ≡ page
  twin_of_upper =
      ap (λ t. twin t * 2 ^ h)
        (ap (λ p. p / 2 ^ h) upper ∙ block_number (page / 2 ^ suc h * 2 + 1) h)
      ∙ ap (λ t. t * 2 ^ h) (twin_odd (page / 2 ^ suc h))
      ∙ sym lower
    where
      twin_odd : (x : ℕ) → twin (x * 2 + 1) ≡ x * 2
      twin_odd x = ground arith
