-- ===== src/Prelude/Int.antt =====
-- Signed integers over the native numbers.
use Prim.Native.Nat.{ℕ, zero, suc, ◌-◌}
use hipace.Prelude.Tests.{leb, if◌then◌else◌}

-- `negsuc n` is -(n + 1).
pub data ℤ : Type 0 where
  pos : ℕ → ℤ
  negsuc : ℕ → ℤ

-- a - b, as an integer.
abbrev pub sub_ℕ : ℕ → ℕ → ℤ
sub_ℕ a b = if leb b a then pos (a - b) else negsuc (b - a - 1)

-- -|a|.
abbrev pub neg_abs : ℤ → ℤ
neg_abs (pos zero) = pos zero
neg_abs (pos (suc n)) = negsuc n
neg_abs (negsuc n) = negsuc n
