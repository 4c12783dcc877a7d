-- ===== src/Prelude/Int.antt =====
-- C's signed integers, over the native numbers: sums and orders go through the two parts of an
-- integer, which are numbers that the arithmetic tactics read.
use Prim.Native.Nat.{ℕ, suc, ◌+◌, ◌-◌, ◌*◌, ◌%◌, ◌^◌, ◌≤◌, ◌<◌}
use mathlib.Core.Path.{◌≡◌, ap}
use mathlib.Core.Bool.{Bool}
use native.Mathlib.Omega.{arith}
use osandroid_kernel.Prelude.Tests.{ltb, leb, ◌==◌, if◌then◌else◌}

-- `negsuc n` is -(n + 1).
pub data ℤ : Type 0 where
  pos : ℕ → ℤ
  negsuc : ℕ → ℤ

abbrev pub pos_part : ℤ → ℕ
pos_part (pos n) = n
pos_part (negsuc n) = 0

abbrev pub neg_part : ℤ → ℕ
neg_part (pos n) = 0
neg_part (negsuc n) = suc n

-- a - b, as an integer.
abbrev pub sub_ℕ : ℕ → ℕ → ℤ
sub_ℕ a b = if leb b a then pos (a - b) else negsuc (b - a - 1)

infixl 65 ◌+ℤ◌ ◌-ℤ◌
infixl 70 ◌*ℤ◌
infix 50 ◌≤ℤ◌ ◌<ℤ◌
unfoldable pub ◌+ℤ◌ : ℤ → ℤ → ℤ
a +ℤ b = sub_ℕ (pos_part a + pos_part b) (neg_part a + neg_part b)

unfoldable pub ◌-ℤ◌ : ℤ → ℤ → ℤ
a -ℤ b = sub_ℕ (pos_part a + neg_part b) (neg_part a + pos_part b)

unfoldable pub ◌*ℤ◌ : ℤ → ℤ → ℤ
a *ℤ b =
    sub_ℕ (pos_part a * pos_part b + neg_part a * neg_part b)
      (pos_part a * neg_part b + neg_part a * pos_part b)

abbrev pub ◌≤ℤ◌ : ℤ → ℤ → Type 0
a ≤ℤ b = pos_part a + neg_part b ≤ pos_part b + neg_part a

abbrev pub ◌<ℤ◌ : ℤ → ℤ → Type 0
a <ℤ b = pos_part a + neg_part b < pos_part b + neg_part a

abbrev pub ltb_ℤ : ℤ → ℤ → Bool
ltb_ℤ a b = ltb (pos_part a + neg_part b) (pos_part b + neg_part a)

abbrev pub leb_ℤ : ℤ → ℤ → Bool
leb_ℤ a b = leb (pos_part a + neg_part b) (pos_part b + neg_part a)

abbrev pub eqb_ℤ : ℤ → ℤ → Bool
eqb_ℤ a b = pos_part a + neg_part b == pos_part b + neg_part a

pub +ℤ_parts :
    (a b : ℤ)
    → pos_part (a +ℤ b) + neg_part a + neg_part b ≡ neg_part (a +ℤ b) + pos_part a + pos_part b
unfolding ◌+ℤ◌
+ℤ_parts a b = ground arith

pub -ℤ_parts :
    (a b : ℤ)
    → pos_part (a -ℤ b) + neg_part a + pos_part b ≡ neg_part (a -ℤ b) + pos_part a + neg_part b
unfolding ◌-ℤ◌
-ℤ_parts a b = ground arith

pub eq_of_parts : (a b : ℤ) → pos_part a + neg_part b ≡ pos_part b + neg_part a → a ≡ b
eq_of_parts a b h = ground arith

pub ruleset int_laws = (arith, +ℤ_parts, -ℤ_parts, eq_of_parts)

-- `x++` on a 32-bit `int` that wraps, as the kernel is compiled.
abbrev pub inc_int : ℤ → ℤ
inc_int x = if leb_ℤ (pos (2 ^ 31 - 1)) x then negsuc (2 ^ 31 - 1) else x +ℤ pos 1

pub pos-+ℤ : (a b : ℕ) → pos a +ℤ pos b ≡ pos (a + b)
unfolding ◌+ℤ◌
pos-+ℤ a b = ground arith

-- A `long` of 32 bits as an `unsigned long`, and back.
abbrev pub u32 : ℤ → ℕ
u32 (pos n) = n % 2 ^ 32
u32 (negsuc n) = 2 ^ 32 - 1 - n % 2 ^ 32

abbrev pub s32 : ℕ → ℤ
s32 n = if ltb n (2 ^ 31) then pos n else negsuc (2 ^ 32 - 1 - n)

-- What a `long` of 32 bits keeps of an integer.
unfoldable pub wrap_long : ℤ → ℤ
wrap_long x = s32 (u32 x)

pub u32-s32 : (n : ℕ) → n < 2 ^ 32 → u32 (s32 n) ≡ n
u32-s32 n h = ground arith

u32-+ℤ : (n r : ℕ) → n < 2 ^ 32 → u32 (s32 n +ℤ pos r) ≡ (n + r) % 2 ^ 32
unfolding ◌+ℤ◌
u32-+ℤ n r h = ground arith

pub wrap_long-+ℤ : (n r : ℕ) → n < 2 ^ 32 → wrap_long (s32 n +ℤ pos r) ≡ s32 ((n + r) % 2 ^ 32)
unfolding wrap_long
wrap_long-+ℤ n r h = ap s32 (u32-+ℤ n r h)
