-- ===== src/Buddy/Bits.antt =====
-- The bit operations of the buddy index, as arithmetic on block numbers: the buddy of block `x` of an
-- order is the block whose lowest bit differs, and the two make block `x / 2` of the next order.
use Prim.Native.Nat.{
  ℕ, zero, suc, ◌+◌, ◌-◌, ◌*◌, ◌/◌, ◌%◌, ◌^◌, ◌≤◌, ◌<◌, min, bit_and, bit_xor, digits, differ,
  bit_and-bitwise, bit_xor-bitwise,
}
use mathlib.Core.Path.{◌≡◌, refl, ap, ◌∙◌}
use native.Mathlib.Decide.{ℕ_discrete}
use native.Mathlib.Nat.{
  pow-suc, one-le-pow, add-mul-mod_self_right, mod-eq_of_lt, mul-lt-mul_of_pos_right, mod-add-div,
  mod-lt,
}
use native.Mathlib.Omega.{arith}
use osandroid_kernel.Prelude.{◌==◌, if◌then◌else◌}

-- Digits to spare change nothing, whatever the operation.
module _ (over : ℕ → ℕ) (op : ℕ → ℕ → ℕ) where
  one_to_spare : (fuel x y : ℕ) → x ≤ fuel → digits over op (suc fuel) x y ≡ digits over op fuel x y
  one_to_spare zero zero y h = refl
  one_to_spare (suc fuel) zero y h = refl
  one_to_spare (suc fuel) (suc x) y h =
      omega (arith, one_to_spare fuel (suc x / 2) (y / 2) (omega arith))
  one_to_spare zero (suc x) y h = absurd (omega arith)

  some_to_spare :
      (more fuel x y : ℕ)
      → x ≤ fuel
      → fuel ≤ more
      → digits over op more x y ≡ digits over op fuel x y
  some_to_spare zero fuel x y h le =
      let none : zero ≡ fuel = omega arith in ap (λ n. digits over op n x y) none
  some_to_spare (suc more) fuel x y h le = elim (ℕ_discrete (suc more) fuel) [
    | yes same ↦ ap (λ n. digits over op n x y) same
    | no differs ↦ one_to_spare more x y (omega arith) ∙ some_to_spare more fuel x y h (omega arith)
  ]

  -- The lowest digit, and the rest.
  lowest_digit :
      (x y : ℕ)
      → digits over op (suc x) (suc x) y
        ≡ digits over op (suc x / 2) (suc x / 2) (y / 2) * 2 + op (suc x % 2) (y % 2)
  lowest_digit x y =
      omega (arith, some_to_spare x (suc x / 2) (suc x / 2) (y / 2) (omega arith) (omega arith))

and_lowest : (x y : ℕ) → bit_and x y ≡ bit_and (x / 2) (y / 2) * 2 + min (x % 2) (y % 2)
and_lowest zero y = omega (arith, bit_and-bitwise 0 y, bit_and-bitwise 0 (y / 2))
and_lowest (suc x) y = omega (
  arith,
  bit_and-bitwise (suc x) y,
  lowest_digit (λ b. zero) min x y,
  bit_and-bitwise (suc x / 2) (y / 2),
)

zero-differ : (y : ℕ) → differ 0 y ≡ y
zero-differ y = refl

xor_lowest : (x y : ℕ) → bit_xor x y ≡ bit_xor (x / 2) (y / 2) * 2 + differ (x % 2) (y % 2)
xor_lowest zero y =
    omega (arith, bit_xor-bitwise 0 y, bit_xor-bitwise 0 (y / 2), zero-differ (y % 2))
xor_lowest (suc x) y = omega (
  arith,
  bit_xor-bitwise (suc x) y,
  lowest_digit (λ b. b) differ x y,
  bit_xor-bitwise (suc x / 2) (y / 2),
)

differ-zero : (x : ℕ) → differ x 0 ≡ x
differ-zero zero = refl
differ-zero (suc x) = refl

-- A number against itself and against 0, on its digits.
same_digits : (fuel x : ℕ) → x ≤ fuel → digits (λ b. zero) min fuel x x ≡ x
same_digits zero x h = omega arith
same_digits (suc fuel) zero h = refl
same_digits (suc fuel) (suc x) h = omega (arith, same_digits fuel (suc x / 2) (omega arith))

against_zero : (fuel x : ℕ) → x ≤ fuel → digits (λ b. b) differ fuel x 0 ≡ x
against_zero zero x h = omega arith
against_zero (suc fuel) zero h = refl
against_zero (suc fuel) (suc x) h =
    omega (arith, against_zero fuel (suc x / 2) (omega arith), differ-zero (suc x % 2))

bit_and_same : (x : ℕ) → bit_and x x ≡ x
bit_and_same x = omega (arith, bit_and-bitwise x x, same_digits x x (omega arith))

bit_xor-zero : (x : ℕ) → bit_xor x 0 ≡ x
bit_xor-zero x = omega (arith, bit_xor-bitwise x 0, against_zero x x (omega arith))

-- The other block of the pair that block `x` is in.
abbrev pub twin : ℕ → ℕ
twin x = if x % 2 == 0 then x + 1 else x - 1

pub mul-two_pow_suc : (q k : ℕ) → q * 2 ^ suc k ≡ 2 * (q * 2 ^ k)
mul-two_pow_suc q k = omega (arith, ap (λ (t : ℕ). q * t) (pow-suc 2 k))

differ-one_even : (a : ℕ) → a ≡ 0 → differ a 1 ≡ 1
differ-one_even zero h = refl
differ-one_even (suc a) h = absurd (omega arith)

differ-one_odd : (a : ℕ) → a ≡ 1 → differ a 1 ≡ 0
differ-one_odd zero h = absurd (omega arith)
differ-one_odd (suc a) h = omega (arith, differ-zero a)

pub two_pow-suc : (k : ℕ) → 2 ^ suc k ≡ 2 * 2 ^ k
two_pow-suc k = omega (arith, pow-suc 2 k)

bit_xor-one_even : (x : ℕ) → x % 2 ≡ 0 → bit_xor x 1 ≡ x + 1
bit_xor-one_even x h =
    omega (arith, xor_lowest x 1, bit_xor-zero (x / 2), differ-one_even (x % 2) h)

bit_xor-one_odd : (x : ℕ) → x % 2 ≡ 1 → bit_xor x 1 ≡ x - 1
bit_xor-one_odd x h = omega (arith, xor_lowest x 1, bit_xor-zero (x / 2), differ-one_odd (x % 2) h)

pub bit_xor-two_pow : (o x : ℕ) → bit_xor (x * 2 ^ o) (2 ^ o) ≡ twin x * 2 ^ o
bit_xor-two_pow zero x = ground (arith, bit_xor-one_even x, bit_xor-one_odd x)
bit_xor-two_pow (suc o) x = ground (
  arith,
  xor_lowest (x * 2 ^ suc o) (2 ^ suc o),
  mul-two_pow_suc x o,
  two_pow-suc o,
  mul-two_pow_suc (twin x) o,
  bit_xor-two_pow o x,
)

pub bit_and-twin : (o x : ℕ) → bit_and (twin x * 2 ^ o) (x * 2 ^ o) ≡ x / 2 * 2 ^ suc o
bit_and-twin zero x = ground (arith, and_lowest (twin x) x, bit_and_same (x / 2))
bit_and-twin (suc o) x = ground (
  arith,
  and_lowest (twin x * 2 ^ suc o) (x * 2 ^ suc o),
  mul-two_pow_suc x o,
  mul-two_pow_suc (twin x) o,
  mul-two_pow_suc (x / 2) (suc o),
  bit_and-twin o x,
)

-- The remainder by a power of 2, from that of the half.
double_mod : (x c : ℕ) → 0 < c → x % (2 * c) ≡ x / 2 % c * 2 + x % 2
double_mod x c pos =
    ap (λ t. t % (2 * c)) split
    ∙ add-mul-mod_self_right (x / 2 % c * 2 + x % 2) (x / 2 / c) (2 * c)
    ∙ mod-eq_of_lt (omega (arith, mod-lt (x / 2) pos))
  where
    split : x ≡ x / 2 % c * 2 + x % 2 + x / 2 / c * (2 * c)
    split = omega (arith, mod-add-div (x / 2) c)

with_zero : (fuel x : ℕ) → x ≤ fuel → digits (λ b. zero) min fuel x 0 ≡ 0
with_zero zero x h = refl
with_zero (suc fuel) zero h = refl
with_zero (suc fuel) (suc x) h = omega (arith, with_zero fuel (suc x / 2) (omega arith))

half_mask : (k : ℕ) → (2 ^ suc k - 1) / 2 ≡ 2 ^ k - 1
half_mask k = omega (arith, two_pow-suc k, one-le-pow k 2 (omega arith))

odd_mask : (k : ℕ) → (2 ^ suc k - 1) % 2 ≡ 1
odd_mask k = omega (arith, two_pow-suc k, one-le-pow k 2 (omega arith))

-- `a & ((1 << k) - 1)`.
pub bit_and_mask : (k x : ℕ) → bit_and x (2 ^ k - 1) ≡ x % 2 ^ k
bit_and_mask zero x = omega (arith, bit_and-bitwise x 0, with_zero x x (omega arith))
bit_and_mask (suc k) x = omega (
  arith,
  and_lowest x (2 ^ suc k - 1),
  ap (λ t. bit_and (x / 2) t) (half_mask k),
  two_pow-suc k,
  odd_mask k,
  ap (λ t. x % t) (two_pow-suc k),
  double_mod x (2 ^ k) (one-le-pow k 2 (omega arith)),
  bit_and_mask k (x / 2),
)

add-suc : (k o : ℕ) → k + suc o ≡ suc (k + o)
add-suc k o = omega arith

pub two_pow-add : (k o : ℕ) → 2 ^ (k + o) ≡ 2 ^ k * 2 ^ o
two_pow-add k zero = ground arith
two_pow-add k (suc o) = omega (
  arith,
  ap (λ t. 2 ^ t) (add-suc k o),
  two_pow-suc (k + o),
  two_pow-add k o,
  mul-two_pow_suc (2 ^ k) o,
)

pub mul-mod_cancel : (x e c : ℕ) → 0 < e → 0 < c → x * c % (e * c) ≡ x % e * c
mul-mod_cancel x e c he hc =
    ap (λ t. t % (e * c)) split
    ∙ add-mul-mod_self_right (x % e * c) (x / e) (e * c)
    ∙ mod-eq_of_lt (mul-lt-mul_of_pos_right (mod-lt x he) hc)
  where
    split : x * c ≡ x % e * c + x / e * (e * c)
    split = omega (arith, ap (λ t. t * c) (mod-add-div x e))
