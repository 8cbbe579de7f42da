-- ===== src/Parser/Casts.antt =====
-- safeCastToInt: a double cast to an `int` of 32 bits.
use hipace.Prelude.{
  ℕ, ◌+◌, ◌-◌, ◌*◌, ◌/◌, ◌^◌, ◌⊎◌, inl, inr, Bool, true, false, ltb, leb, if◌then◌else◌, ℤ, pos,
  neg_abs, Result, ok, err, Error,
}

-- A double: each finite one is a number of halves, quarters and so on, here
-- ±`mantissa` / 2 ^ `exponent`.
pub data Double : Type 0 where
  nan : Double
  infinite : (negative : Bool) → Double
  finite : (negative : Bool) (mantissa exponent : ℕ) → Double

-- std::numeric_limits<int>::max().
abbrev pub int_max : ℕ
int_max = 2 ^ 31 - 1

-- 2.0*(std::numeric_limits<int>::max()/2+1).
abbrev pub limit : ℕ
limit = 2 * (int_max / 2 + 1)

-- x < limit.
unfoldable pub is_below_limit : Double → Bool
is_below_limit nan = false
is_below_limit (infinite negative) = negative
is_below_limit (finite true m e) = true
is_below_limit (finite false m e) = ltb m (limit * 2 ^ e)

-- std::ceil(x) >= std::numeric_limits<int>::min(): the ceiling of a negative number leaves off what
-- is behind the point.
unfoldable pub is_above_min : Double → Bool
is_above_min nan = false
is_above_min (infinite negative) = if negative then false else true
is_above_min (finite true m e) = leb (m / 2 ^ e) (2 ^ 31)
is_above_min (finite false m e) = true

-- static_cast<int>(x), which leaves off what is behind the point.
unfoldable pub truncate : Double → ℤ
truncate nan = pos 0
truncate (infinite negative) = pos 0
truncate (finite true m e) = neg_abs (pos (m / 2 ^ e))
truncate (finite false m e) = pos (m / 2 ^ e)

-- x > 0.
unfoldable pub is_positive : Double → Bool
is_positive nan = false
is_positive (infinite negative) = if negative then false else true
is_positive (finite true m e) = false
is_positive (finite false m e) = ltb 0 m

-- The messages of the assertion.
pub data CastError : Type 0 where
  negative_overflow overflow not_a_number : CastError

-- The branches of safeCastToInt, up to its assertion.
unfoldable pub cast_to_int : Double → CastError ⊎ ℤ
cast_to_int x =
    if is_below_limit x
    then (if is_above_min x then inr (truncate x) else inl negative_overflow)
    else (if is_positive x then inl overflow else inl not_a_number)

unfoldable pub safe_cast_to_int : Double → Result ℤ
safe_cast_to_int x = elim (cast_to_int x) [
  | inl message ↦ err Error.assertion
  | inr result ↦ ok result
]

-- std::round(x): to the nearest integer, and half-way cases away from zero.
unfoldable pub round : Double → Double
round nan = nan
round (infinite negative) = infinite negative
round (finite negative m e) = finite negative ((2 * m + 2 ^ e) / (2 * 2 ^ e)) 0
