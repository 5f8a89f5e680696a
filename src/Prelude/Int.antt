-- ===== src/Prelude/Int.antt =====
-- Signed integers over the native numbers: the `int` and `long` values that may be negative.
use Prim.Native.Nat.{ℕ, suc, ◌+◌, ◌-◌, ◌%◌, ◌^◌, ◌≤◌, ◌<◌}
use mathlib.Core.Path.{◌≡◌}
use mathlib.Core.Bool.{Bool}
use native.Mathlib.Omega.{arith}
use c_teaching.Prelude.Tests.{ltb, leb, if◌then◌else◌}

-- `negsuc n` is -(n + 1).
pub data ℤ : Type 0 where
  pos : ℕ → ℤ
  negsuc : ℕ → ℤ

abbrev pub pos_part : ℤ → ℕ
pos_part (pos n) = n
pos_part (negsuc n) = 0

abbrev pub neg_part : ℤ → ℕ
neg_part (pos n) = 0
neg_part (negsuc n) = suc n

-- a - b, as an integer.
abbrev pub sub_ℕ : ℕ → ℕ → ℤ
sub_ℕ a b = if leb b a then pos (a - b) else negsuc (b - a - 1)

infixl 65 ◌+ℤ◌ ◌-ℤ◌
infix 50 ◌≤ℤ◌
unfoldable pub ◌+ℤ◌ : ℤ → ℤ → ℤ
a +ℤ b = sub_ℕ (pos_part a + pos_part b) (neg_part a + neg_part b)

unfoldable pub ◌-ℤ◌ : ℤ → ℤ → ℤ
a -ℤ b = sub_ℕ (pos_part a + neg_part b) (neg_part a + pos_part b)

abbrev pub ◌≤ℤ◌ : ℤ → ℤ → Type 0
a ≤ℤ b = pos_part a + neg_part b ≤ pos_part b + neg_part a

abbrev pub ltb_ℤ : ℤ → ℤ → Bool
ltb_ℤ a b = ltb (pos_part a + neg_part b) (pos_part b + neg_part a)

pub +ℤ_comm : (a b : ℤ) → a +ℤ b ≡ b +ℤ a
unfolding ◌+ℤ◌
+ℤ_comm a b = ground arith

pub +ℤ_assoc : (a b c : ℤ) → a +ℤ b +ℤ c ≡ a +ℤ (b +ℤ c)
unfolding ◌+ℤ◌
+ℤ_assoc a b c = ground arith

pub +ℤ-zero : (a : ℤ) → a +ℤ pos 0 ≡ a
unfolding ◌+ℤ◌
+ℤ-zero a = ground arith

-- The numbers of an `int`.
abbrev pub IsInt : ℤ → Type 0
IsInt a = (pos_part a < 2 ^ 31) × (neg_part a ≤ 2 ^ 31)

-- The number of an `int` that has the low 32 bits of `a`.
unfoldable pub to_int : ℤ → ℤ
to_int a =
    let low = (pos_part a % 2 ^ 32 + (2 ^ 32 - neg_part a % 2 ^ 32)) % 2 ^ 32 in
    if ltb low (2 ^ 31) then pos low else negsuc (2 ^ 32 - 1 - low)

-- `a + b` of two `int`s, as the machine adds them. C leaves the sum undefined where it is no `int`;
-- `to_int-id` is about the other sums.
unfoldable pub add_int : ℤ → ℤ → ℤ
unfolding to_int ◌+ℤ◌
add_int a b = to_int (a +ℤ b)

pub to_int-id : (a : ℤ) → IsInt a → to_int a ≡ a
unfolding to_int
to_int-id (pos n) h = ground (arith, h)
to_int-id (negsuc n) h = ground (arith, h)

pub add_int-eq : (a b : ℤ) → IsInt (a +ℤ b) → add_int a b ≡ a +ℤ b
unfolding add_int
add_int-eq a b h = to_int-id (a +ℤ b) h
