-- ===== src/Parser/Outcomes.antt =====
-- How a routine of the parser ends, in a model with fuel.
use hipace.Prelude.{Result, Error, ok, err, ◌≡◌, refl, ◌⊎◌, inl, inr, arith}

-- How a routine ends. The fuel is the model's own: it bounds the depth of the recursion.
pub data Outcome (A : Type 0) : Type 0 where
  out_of_fuel : Outcome A
  stopped : Error → Outcome A
  ended : A → Outcome A

infixl 6 ◌>>=◌
abbrev pub ◌>>=◌ : {B A : Type 0} (first : Outcome A) (then_run : A → Outcome B) → Outcome B
out_of_fuel >>= then_run = out_of_fuel
stopped stop >>= then_run = stopped stop
ended result >>= then_run = then_run result

-- A step with no fuel of its own.
unfoldable pub from_result : {A : Type 0} → Result A → Outcome A
from_result (err stop) = stopped stop
from_result (ok result) = ended result

-- To split on how a routine ends and keep the equation.
pub Outcome-cases :
    {A : Type 0} (m : Outcome A)
    → (m ≡ out_of_fuel) ⊎ ((e : Error) × (m ≡ stopped e)) ⊎ ((a : A) × (m ≡ ended a))
Outcome-cases out_of_fuel = inl refl
Outcome-cases (stopped e) = inr (inl (e, refl))
Outcome-cases (ended a) = inr (inr (a, refl))

pub ended_inj : {A : Type 0} {a b : A} → ended a ≡ ended b → a ≡ b
ended_inj e = cc

-- A chain that ends has a first step that does.
pub >>=-eq-ended :
    {A B : Type 0} (first : Outcome A) (then_run : A → Outcome B) {last : B}
    → (first >>= then_run) ≡ ended last
    → (a : A) × (first ≡ ended a) × (then_run a ≡ ended last)
>>=-eq-ended out_of_fuel then_run done = cc
>>=-eq-ended (stopped e) then_run done = cc
>>=-eq-ended (ended a) then_run done = (a, refl, done)

-- A chain that stops does so in its first step, or behind it.
pub >>=-eq-stopped :
    {A B : Type 0} (first : Outcome A) (then_run : A → Outcome B) {e : Error}
    → (first >>= then_run) ≡ stopped e
    → (first ≡ stopped e) ⊎ ((a : A) × (first ≡ ended a) × (then_run a ≡ stopped e))
>>=-eq-stopped out_of_fuel then_run done = cc
>>=-eq-stopped (stopped e) then_run done = inl (ground arith)
>>=-eq-stopped (ended a) then_run done = inr (a, refl, done)

-- A chain that runs out of fuel does so in its first step, or behind it.
pub >>=-eq-out_of_fuel :
    {A B : Type 0} (first : Outcome A) (then_run : A → Outcome B)
    → (first >>= then_run) ≡ out_of_fuel
    → (first ≡ out_of_fuel) ⊎ ((a : A) × (first ≡ ended a) × (then_run a ≡ out_of_fuel))
>>=-eq-out_of_fuel out_of_fuel then_run done = inl refl
>>=-eq-out_of_fuel (stopped e) then_run done = cc
>>=-eq-out_of_fuel (ended a) then_run done = inr (a, refl, done)
