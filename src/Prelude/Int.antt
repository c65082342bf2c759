-- ===== src/Prelude/Int.antt =====
-- Signed integers over the native numbers, as far as the code compares and indexes by them.
use jina.Prelude.Tests.{ltb, leb, ◌==◌}
use mathlib.Core.Bool.{Bool, true}
use mathlib.Core.Path.{◌≡◌, ap}
use native.Mathlib.Omega.{arith}
use Prim.Native.Nat.{ℕ, suc, ◌+◌, ◌-◌, min}

-- `negsuc n` is -(n + 1).
pub data ℤ : Type 0 where
  pos : ℕ → ℤ
  negsuc : ℕ → ℤ

abbrev pub pos_part : ℤ → ℕ
pos_part (pos n) = n
pos_part (negsuc n) = 0

abbrev pub neg_part : ℤ → ℕ
neg_part (pos n) = 0
neg_part (negsuc n) = suc n

abbrev pub ltb_ℤ : ℤ → ℤ → Bool
ltb_ℤ a b = ltb (pos_part a + neg_part b) (pos_part b + neg_part a)

abbrev pub leb_ℤ : ℤ → ℤ → Bool
leb_ℤ a b = leb (pos_part a + neg_part b) (pos_part b + neg_part a)

abbrev pub eq_ℤ : ℤ → ℤ → Bool
eq_ℤ a b = (pos_part a + neg_part b) == (pos_part b + neg_part a)

-- The bound of a Python slice over `n` items: a negative one counts from the end, and both ends
-- stop at the ends of the sequence.
abbrev pub slice_bound : ℕ → ℤ → ℕ
slice_bound n (pos i) = min i n
slice_bound n (negsuc i) = n - suc i

pub eq_ℤ-eq : (k key : ℤ) → eq_ℤ k key ≡ true → k ≡ key
eq_ℤ-eq (pos a) (pos b) h = ap pos (ground arith)
eq_ℤ-eq (pos a) (negsuc b) h = absurd (ground arith)
eq_ℤ-eq (negsuc a) (pos b) h = absurd (ground arith)
eq_ℤ-eq (negsuc a) (negsuc b) h = ap negsuc (ground arith)
