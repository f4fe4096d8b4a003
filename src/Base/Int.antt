-- ===== src/Base/Int.antt =====
-- Go's `int`: signed integers over the native numbers, and the wrap-around at 64 bits.
use Prim.Native.Nat.{ℕ, suc, ◌+◌, ◌-◌, ◌^◌, ◌<◌}
use mathlib.Core.Path.{◌≡◌}
use mathlib.Core.Logic.{◌↔◌}
use mathlib.Core.Bool.{Bool, true}
use native.Mathlib.Omega.{arith}
use storage_bot.Base.Tests.{ltb, leb, if◌then◌else◌}

-- `negsuc n` is -(n + 1).
pub data ℤ : Type 0 where
  pos : ℕ → ℤ
  negsuc : ℕ → ℤ

abbrev pub pos_part : ℤ → ℕ
pos_part (pos n) = n
pos_part (negsuc n) = 0

abbrev pub neg_part : ℤ → ℕ
neg_part (pos n) = 0
neg_part (negsuc n) = suc n

-- a - b, as an integer.
abbrev pub sub_ℕ : ℕ → ℕ → ℤ
sub_ℕ a b = if leb b a then pos (a - b) else negsuc (b - a - 1)

abbrev pub ltb_ℤ : ℤ → ℤ → Bool
ltb_ℤ a b = ltb (pos_part a + neg_part b) (pos_part b + neg_part a)

abbrev pub leb_ℤ : ℤ → ℤ → Bool
leb_ℤ a b = leb (pos_part a + neg_part b) (pos_part b + neg_part a)

-- The value modulo 2^64 in the range of int64, for a value that lies one wrap away at most.
abbrev pub wrap64 : ℤ → ℤ
wrap64 a =
    if leb (2 ^ 63) (pos_part a)
    then sub_ℕ (pos_part a) (2 ^ 64)
    else if ltb (2 ^ 63) (neg_part a)
    then sub_ℕ (2 ^ 64) (neg_part a)
    else a

infixl 65 ◌+ℤ◌ ◌-ℤ◌
-- Addition and subtraction of `int`.
unfoldable pub ◌+ℤ◌ : ℤ → ℤ → ℤ
a +ℤ b = wrap64 (sub_ℕ (pos_part a + pos_part b) (neg_part a + neg_part b))

unfoldable pub ◌-ℤ◌ : ℤ → ℤ → ℤ
a -ℤ b = wrap64 (sub_ℕ (pos_part a + neg_part b) (neg_part a + pos_part b))

-- Counts that fit are subtracted and added exactly.
pub -ℤ_of_counts : (a b : ℕ) → a < 2 ^ 63 → b < 2 ^ 63 → pos a -ℤ pos b ≡ sub_ℕ a b
unfolding ◌-ℤ◌
-ℤ_of_counts a b h k = ground arith

pub +ℤ_of_counts : (a b : ℕ) → a + b < 2 ^ 63 → pos a +ℤ pos b ≡ pos (a + b)
unfolding ◌+ℤ◌
+ℤ_of_counts a b h = ground arith

pub sub_ℕ_pos_iff : (a b : ℕ) → (ltb_ℤ (pos 0) (sub_ℕ a b) ≡ true) ↔ (b < a)
sub_ℕ_pos_iff a b = ground arith
