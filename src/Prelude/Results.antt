-- ===== src/Prelude/Results.antt =====
-- Failure: what stops the program, and the chains of steps that may fail.
use Prim.Native.Nat.{ℕ, ◌/◌}
use mathlib.Core.Path.{◌≡◌, refl}
use mathlib.Core.Logic.{◌⊎◌, inl, inr}
use mathlib.Core.Bool.{Bool, true, false}
use hipace.Prelude.Tests.{◌==◌, if◌then◌else◌}

-- A failed AMREX_ALWAYS_ASSERT, a call of amrex::Abort, an integer division by zero, a read
-- through an index that is out of range, and a receive that no message answers.
pub data Error : Type 0 where
  assertion abort div_by_zero out_of_range no_message : Error

-- How a piece of the program ends: it is stopped by an error, or goes on with a value.
pub data Result {ℓ} (Value : Type ℓ) : Type ℓ where
  err : Error → Result Value
  ok : Value → Result Value

infixl 6 ◌>>=◌ ◌>>◌
-- The steps behind an error are not run.
abbrev pub ◌>>=◌ {κ ℓ} :
    {B : Type κ} {A : Type ℓ} (first : Result A) (then_run : A → Result B) → Result B
err stop >>= then_run = err stop
ok value >>= then_run = then_run value

-- A step for its effect on the outcome alone.
abbrev pub ◌>>◌ {κ} : {B : Type κ} (first : Result (Unit {0})) (second : Result B) → Result B
first >> second = first >>= λ _. second

-- AMREX_ALWAYS_ASSERT and AMREX_ALWAYS_ASSERT_WITH_MESSAGE.
abbrev pub always_assert : Bool → Result (Unit {0})
always_assert false = err Error.assertion
always_assert true = ok tt

-- `a / b` on `int`, for values that are not negative.
abbrev pub int_div : ℕ → ℕ → Result ℕ
int_div a b = if b == 0 then err Error.div_by_zero else ok (a / b)

module _ {ℓ} {A : Type ℓ} where
  -- To split on the outcome of a step and keep the equation.
  pub Result-cases : (m : Result A) → ((a : A) × (m ≡ ok a)) ⊎ ((e : Error) × (m ≡ err e))
  Result-cases (err e) = inr (e, refl)
  Result-cases (ok a) = inl (a, refl)

  pub ok-injective : {a b : A} → ok a ≡ ok b → a ≡ b
  ok-injective e = cc

  -- A chain that succeeds has a first step that does.
  pub >>=-eq-ok {κ} :
      {B : Type κ} (first : Result A) (then_run : A → Result B) {last : B}
      → (first >>= then_run) ≡ ok last
      → (a : A) × (first ≡ ok a) × (then_run a ≡ ok last)
  >>=-eq-ok (err stop) then_run done = cc
  >>=-eq-ok (ok value) then_run done = (value, refl, done)
