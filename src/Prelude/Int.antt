-- ===== src/Prelude/Int.antt =====
-- Python's signed integers over the native numbers, under the library's names.
use Prim.Native.Nat.{ℕ, suc, ◌+◌, ◌≤◌}
use mathlib.Core.Bool.{Bool, ◌&&◌}
use my_test_bot_repo.Prelude.Tests.{ltb}

-- `negsuc n` is -(n + 1).
pub data ℤ : Type 0 where
  pos : ℕ → ℤ
  negsuc : ℕ → ℤ

abbrev pub pos_part : ℤ → ℕ
pos_part (pos n) = n
pos_part (negsuc n) = 0

abbrev pub neg_part : ℤ → ℕ
neg_part (pos n) = 0
neg_part (negsuc n) = suc n

abbrev pub ltb_ℤ : ℤ → ℤ → Bool
ltb_ℤ a b = ltb (pos_part a + neg_part b) (pos_part b + neg_part a)

infix 50 ◌≤ℤ◌
abbrev pub ◌≤ℤ◌ : ℤ → ℤ → Type 0
a ≤ℤ b = pos_part a + neg_part b ≤ pos_part b + neg_part a

-- `-n`
abbrev pub negate : ℕ → ℤ
negate ℕ.zero = pos 0
negate (suc n) = negsuc n

abbrev pub eq_ℤ : ℤ → ℤ → Bool
eq_ℤ a b =
    ltb (pos_part a + neg_part b) (suc (pos_part b + neg_part a))
    && ltb (pos_part b + neg_part a) (suc (pos_part a + neg_part b))
