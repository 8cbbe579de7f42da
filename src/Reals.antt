-- ===== src/Reals.antt =====
-- amrex::Real: floating-point numbers, of which the program uses these operations. Nothing is
-- assumed of them here; a theorem that needs a law takes it as a hypothesis.
use hipace.Prelude.{ℕ, Bool, ℤ}

pub record Real (R : Type 0) : Type 0 where
  pub add : R → R → R
  pub sub : R → R → R
  pub mul : R → R → R
  pub div : R → R → R
  pub lt : R → R → Bool
  pub le : R → R → Bool
  pub eq : R → R → Bool
  -- An `int` converted to a Real.
  pub of_int : ℕ → R

-- What the code uses of numbers with a sign: the negative, an `int` converted, and 0.5.
pub record Signed (R : Type 0) : Type 0 where
  pub negate : R → R
  pub of_signed : ℤ → R
  pub half : R
