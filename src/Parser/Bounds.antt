-- ===== src/Parser/Bounds.antt =====
-- The integers that safeCastToInt accepts.
use native.Mathlib.Nat.{
  div-mul-le_self, div-lt_iff_lt-mul, le-div_iff_mul-le, one-le-pow, mul-le-mul_right,
}
use hipace.Prelude.{
  ℕ, zero, suc, ◌+◌, ◌-◌, ◌*◌, ◌/◌, ◌^◌, ◌≤◌, ◌<◌, ◌≡◌, refl, ◌⊎◌, inl, inr, true, false, ltb, leb,
  ltb→lt, lt→ltb, leb→le, if◌then◌else◌, ℤ, pos, negsuc, neg_abs, arith, Bool-cases,
}
use hipace.Parser.Casts.{
  Double, nan, infinite, finite, CastError, negative_overflow, overflow, not_a_number, limit,
  is_below_limit, is_above_min, is_positive, truncate, cast_to_int,
}

-- What an `int` of 32 bits holds.
unfoldable pub IsInt : ℤ → Type 0
IsInt (pos n) = n ≤ 2 ^ 31 - 1
IsInt (negsuc n) = n ≤ 2 ^ 31 - 1

-- The result is within a distance of less than one from the double, on the side of zero.
unfoldable pub IsTruncated : Double → ℤ → Type 0
IsTruncated nan r = ⊥
IsTruncated (infinite negative) r = ⊥
IsTruncated (finite negative m e) r =
    (q : ℕ) × (r ≡ (if negative then neg_abs (pos q) else pos q))
    × (q * 2 ^ e ≤ m)
    × (m < (q + 1) * 2 ^ e)

-- What each way to end says of the double: the cast is the truncated number, and in range; an overflow
-- is a number of 2 ^ 31 or above, or -(2 ^ 31) - 1 or below, or an infinity of that sign; and the
-- third message is of NaN only.
unfoldable pub IsCast : Double → CastError ⊎ ℤ → Type 0
IsCast x (inr r) = IsTruncated x r × IsInt r
IsCast nan (inl message) = message ≡ not_a_number
IsCast (infinite true) (inl message) = message ≡ negative_overflow
IsCast (infinite false) (inl message) = message ≡ overflow
IsCast (finite true m e) (inl message) = (message ≡ negative_overflow) × ((2 ^ 31 + 1) * 2 ^ e ≤ m)
IsCast (finite false m e) (inl message) = (message ≡ overflow) × (2 ^ 31 * 2 ^ e ≤ m)

div_bounds : (m e : ℕ) → (m / 2 ^ e * 2 ^ e ≤ m) × (m < (m / 2 ^ e + 1) * 2 ^ e)
div_bounds m e = (
  div-mul-le_self m (2 ^ e),
  (div-lt_iff_lt-mul {x = m} {y = m / 2 ^ e + 1} (one-le-pow e 2 (omega arith))).0 (omega arith),
)

neg_abs-IsInt : (q : ℕ) → q ≤ 2 ^ 31 → IsInt (neg_abs (pos q))
unfolding IsInt
neg_abs-IsInt zero h = omega arith
neg_abs-IsInt (suc q) h = omega arith

IsCast-negative : (m e : ℕ) → IsCast (finite true m e) (cast_to_int (finite true m e))
unfolding IsCast IsTruncated cast_to_int is_below_limit is_above_min truncate
IsCast-negative m e = elim (Bool-cases (leb (m / 2 ^ e) (2 ^ 31))) [
  | inl fits ↦ rw fits (
    (m / 2 ^ e, refl, (div_bounds m e).0, (div_bounds m e).1),
    neg_abs-IsInt (m / 2 ^ e) (leb→le (m / 2 ^ e) (2 ^ 31) fits),
  )
  | inr large ↦ rw large (
    refl,
    (le-div_iff_mul-le {x = 2 ^ 31 + 1} {y = m} (one-le-pow e 2 (omega arith))).0 (ground arith),
  )
]

IsCast-positive : (m e : ℕ) → IsCast (finite false m e) (cast_to_int (finite false m e))
unfolding IsCast IsTruncated IsInt cast_to_int is_below_limit is_above_min is_positive truncate
IsCast-positive m e = elim (Bool-cases (ltb m (limit * 2 ^ e))) [
  | inl fits ↦
      let small : m / 2 ^ e < limit =
        (div-lt_iff_lt-mul {x = m} {y = limit} (one-le-pow e 2 (omega arith))).1
          (ltb→lt m (limit * 2 ^ e) fits) in
      rw fits ((m / 2 ^ e, refl, (div_bounds m e).0, (div_bounds m e).1), omega (arith, small))
  | inr large ↦
      let positive : 1 ≤ 2 ^ e = one-le-pow e 2 (omega arith) in
      let above : 2 ^ 31 * 2 ^ e ≤ m = ground arith in
      let some_bits : 1 * 2 ^ e ≤ 2 ^ 31 * 2 ^ e = mul-le-mul_right (2 ^ e) (omega arith) in
      rw (large, lt→ltb 0 m (omega (arith, positive, above, some_bits))) (refl, above)
]

-- safeCastToInt ends for every double as it has to: either it returns the double without what is
-- behind the point, and that is in the range of an `int`; or it stops at its assertion with the message
-- for an overflow, a negative overflow, or NaN, and the double is one of that kind.
pub cast_to_int-IsCast : (x : Double) → IsCast x (cast_to_int x)
unfolding IsCast cast_to_int is_below_limit is_above_min is_positive
cast_to_int-IsCast nan = refl
cast_to_int-IsCast (infinite true) = refl
cast_to_int-IsCast (infinite false) = refl
cast_to_int-IsCast (finite true m e) = IsCast-negative m e
cast_to_int-IsCast (finite false m e) = IsCast-positive m e
