-- ===== src/Parser/Cached.antt =====
-- What fillWithParser gives does not depend on the cache, and an `int` is the nearest to the value.
use Prim.Native.String.{String}
use native.Mathlib.Nat.{div-mul-le_self, div-lt_iff_lt-mul, one-le-pow}
use hipace.Prelude.{
  ℕ, ◌+◌, ◌*◌, ◌/◌, ◌^◌, ◌≤◌, ◌<◌, ◌≡◌, sym, ◌∙◌, ap, subst, true, some, List, [], arith, inl, inr,
  ◌⊎◌, length, ℤ, pos, neg_abs, ok, err, if◌then◌else◌, Error,
}
use hipace.Parser.Strings.{contains, erase_all}
use hipace.Parser.Outcomes.{ended, ◌>>=◌, >>=-eq-ended, ended_inj, from_result}
use hipace.Parser.Casts.{
  CastError, Double, nan, infinite, finite, safe_cast_to_int, cast_to_int, round,
}
use hipace.Parser.Bounds.{IsInt, IsTruncated, IsCast, cast_to_int-IsCast}
use hipace.Parser.Values.{
  AmrexParser, Inputs, Caches, fill_with_query, init_parser, query_constant, fill_double, fill_int,
}
use hipace.Parser.Meaning.{evaluate, evaluate-eq, evaluate_inv, meaning}
use hipace.Parser.Sound.{IsValid, init_parser_sound}
use hipace.Parser.Complete.{init_parser_iff}

module _ {E V : Type 0} (amrex : AmrexParser E V) (my_constants : Inputs)
    (constants : List (String × V)) where
  open amrex use {define, register_variables, symbols, set_constant, value}

  fill_double_sound :
      (fuel : ℕ) (caches : Caches V) (str : String) (after : Caches V) (v : V)
      → IsValid amrex my_constants constants caches
      → fill_double amrex my_constants fuel caches str ≡ ended (after, v)
      → (depth : ℕ) × (evaluate amrex (meaning amrex my_constants constants depth) str ≡ some v)
  unfolding fill_double fill_with_query erase_all
  fill_double_sound fuel caches str after v valid done =
      let ((inner, parser), set, last) =
        >>=-eq-ended
          (init_parser amrex my_constants (query_constant amrex my_constants fuel) caches
            (define str) [])
          (λ (inner, parser). ended (inner, value parser)) done in
      let (_, _, (d, all)) =
        init_parser_sound amrex my_constants constants fuel caches (define str) [] inner parser
          valid set in
      (
        d,
        evaluate-eq amrex (meaning amrex my_constants constants d) str all
            ∙ ap (λ (o : Caches V × V). some o.1) (ended_inj last),
      )

  module _ (names : List String)
      (named : (s : String) (words : List String)
        → my_constants s ≡ some words
        → contains s names ≡ true) where
    fill_double_complete :
        (fuel : ℕ) (caches : Caches V) (str : String) (v : V) (depth : ℕ)
        → IsValid amrex my_constants constants caches
        → caches.recursive_symbols ≡ []
        → length names ≤ fuel
        → evaluate amrex (meaning amrex my_constants constants depth) str ≡ some v
        → (after : Caches V) × (fill_double amrex my_constants fuel caches str ≡ ended (after, v))
    unfolding fill_double fill_with_query erase_all
    fill_double_complete fuel caches str v depth valid outside enough means =
        let (parser, all, same) =
          evaluate_inv amrex (meaning amrex my_constants constants depth) str means in
        let (after, run) =
          (init_parser_iff amrex my_constants constants names named fuel caches (define str) []
              parser valid outside enough).1
            (depth, all) in
        (after, simp (run, same))

    -- fillWithParser gives a double that does not depend on what is in the cache: if it returns a value
    -- with one cache that is true to the input, it returns the same value with every other one, the
    -- empty one included.
    pub fill_double_any_cache :
        (fuel : ℕ) (caches others : Caches V) (str : String) (after : Caches V) (v : V)
        → IsValid amrex my_constants constants caches
        → IsValid amrex my_constants constants others
        → others.recursive_symbols ≡ []
        → length names ≤ fuel
        → fill_double amrex my_constants fuel caches str ≡ ended (after, v)
        → (last : Caches V) × (fill_double amrex my_constants fuel others str ≡ ended (last, v))
    fill_double_any_cache fuel caches others str after v valid other_valid outside enough done =
        let (depth, means) = fill_double_sound fuel caches str after v valid done in
        fill_double_complete fuel others str v depth other_valid outside enough means

-- The integer is at most one half away from the double.
unfoldable pub IsNearest : Double → ℤ → Type 0
IsNearest nan r = ⊥
IsNearest (infinite negative) r = ⊥
IsNearest (finite negative m e) r =
    (q : ℕ) × (r ≡ (if negative then neg_abs (pos q) else pos q))
    × (2 * q * 2 ^ e ≤ 2 * m + 2 ^ e)
    × (2 * m ≤ 2 * q * 2 ^ e + 2 ^ e)

rounded-IsNearest : (x : Double) (r : ℤ) → IsTruncated (round x) r → IsNearest x r
unfolding IsTruncated round IsNearest
rounded-IsNearest nan r h = h
rounded-IsNearest (infinite negative) r h = h
rounded-IsNearest (finite negative m e) r (q, same, low, high) =
    let positive : 1 ≤ 2 * 2 ^ e = omega (arith, one-le-pow e 2 (omega arith)) in
    let here : q ≡ (2 * m + 2 ^ e) / (2 * 2 ^ e) = omega (arith, low, high) in
    let below : q * (2 * 2 ^ e) ≤ 2 * m + 2 ^ e =
      subst (λ t. t * (2 * 2 ^ e) ≤ 2 * m + 2 ^ e) (sym here)
        (div-mul-le_self (2 * m + 2 ^ e) (2 * 2 ^ e)) in
    let above : 2 * m + 2 ^ e < (q + 1) * (2 * 2 ^ e) =
      (div-lt_iff_lt-mul {x = 2 * m + 2 ^ e} {y = q + 1} positive).0 (omega (arith, here)) in
    (q, same, omega (arith, below), omega (arith, above))

safe_cast_to_int-IsInt :
    (x : Double) (r : ℤ) → from_result (safe_cast_to_int x) ≡ ended r → IsTruncated x r × IsInt r
unfolding safe_cast_to_int from_result IsCast
safe_cast_to_int-IsInt x r done = go (cast_to_int x) (cast_to_int-IsCast x) done
  where
    go :
        (c : CastError ⊎ ℤ)
        → IsCast x c
        → from_result (elim c [ inl message ↦ err Error.assertion | inr result ↦ ok result ])
          ≡ ended r
        → IsTruncated x r × IsInt r
    go (inl message) cast done = cc
    go (inr val) cast done = subst (λ t. IsTruncated x t × IsInt t) (ended_inj done) cast

-- fillWithParser gives an int that is the nearest one to the value of the expression, and in the range
-- of an `int`, whenever it returns with a cache that is true to the input.
pub fill_int-IsNearest :
    {E : Type 0} (amrex : AmrexParser E Double) (my_constants : Inputs)
    (constants : List (String × Double)) (fuel : ℕ) (caches : Caches Double) (str : String)
    (after : Caches Double) (r : ℤ)
    → IsValid amrex my_constants constants caches
    → fill_int amrex my_constants fuel caches str ≡ ended (after, r)
    → (x : Double) × ((depth : ℕ) × (evaluate amrex (meaning amrex my_constants constants depth) str
          ≡ some x))
      × IsNearest x r
      × IsInt r
unfolding fill_int
fill_int-IsNearest amrex my_constants constants fuel caches str after r valid done =
    let ((inner, x), filled, behind) =
      >>=-eq-ended (fill_double amrex my_constants fuel caches str)
        (λ (inner, x). from_result (safe_cast_to_int (round x)) >>= λ val. ended (inner, val))
        done in
    let (val, cast, last) =
      >>=-eq-ended (from_result (safe_cast_to_int (round x))) (λ val. ended (inner, val)) behind in
    let same : val ≡ r = ap (λ (o : Caches Double × ℤ). o.1) (ended_inj last) in
    let (rounded, in_range) = safe_cast_to_int-IsInt (round x) r (cast ∙ ap ended same) in
    (
      x,
      fill_double_sound amrex my_constants constants fuel caches str inner x valid filled,
      rounded-IsNearest x r rounded,
      in_range,
    )
