-- ===== src/Parser/Branches.antt =====
-- The branches of initParser, as equations.
use Prim.Native.String.{String}
use hipace.Prelude.{
  ℕ, zero, suc, ◌≡◌, refl, true, false, ◌≢◌, inl, inr, Option-cases, Option, none, some, List,
  Error,
}
use hipace.Parser.Strings.{contains, find}
use hipace.Parser.Outcomes.{out_of_fuel, stopped, ended, ◌>>=◌}
use hipace.Parser.Values.{
  Inputs, Caches, Fill, choose, uncached_value, symbol_value, query_with_parser, AmrexParser,
  query_constant, fill_scalar, fill_with_query,
}

-- The three ways of the body of the loop.
module _ {V : Type 0} (query : Fill V String (Option V)) (caches : Caches V) (s : String) where
  pub symbol_value-recursive :
      contains s caches.recursive_symbols ≡ true
      → symbol_value query caches s ≡ stopped Error.assertion
  unfolding symbol_value
  symbol_value-recursive e = rw (symbol_value, e) refl

  pub symbol_value-cached :
      (v : V)
      → contains s caches.recursive_symbols ≡ false
      → find s caches.my_constants_cache ≡ some v
      → symbol_value query caches s ≡ ended (caches, v)
  unfolding symbol_value
  symbol_value-cached v e present = rw (symbol_value, e, present) refl

  pub symbol_value-uncached :
      contains s caches.recursive_symbols ≡ false
      → find s caches.my_constants_cache ≡ none
      → symbol_value query caches s ≡ uncached_value query caches s
  unfolding symbol_value
  symbol_value-uncached e absent = rw (symbol_value, e, absent) refl

module _ {V : Type 0} where
  pub choose-built_in :
      (caches : Caches V) (s : String) {v : V}
      → find s caches.hipace_constants ≡ some v
      → choose caches s none ≡ ended (caches, v)
  unfolding choose
  choose-built_in caches s e = rw (choose, e) refl

  pub choose-unknown :
      (caches : Caches V) (s : String)
      → find s caches.hipace_constants ≡ none
      → choose caches s none ≡ stopped Error.abort
  unfolding choose
  choose-unknown caches s e = rw (choose, e) refl

  pub choose-ne-out_of_fuel :
      (caches : Caches V) (s : String) (is_input : Option V)
      → choose caches s is_input ≢ out_of_fuel
  unfolding choose
  choose-ne-out_of_fuel caches s (some v) out = cc
  choose-ne-out_of_fuel caches s none out = elim (Option-cases (find s caches.hipace_constants)) [
    | inl e ↦ let stops = choose-unknown caches s e in cc
    | inr (v, e) ↦ let ends = choose-built_in caches s e in cc
  ]

module _ {V T : Type 0} (queryarr : Inputs) (fill_arr : Fill V (List String) T) (caches : Caches V)
    (name : String) where
  pub query_with_parser-absent :
      queryarr name ≡ none → query_with_parser queryarr fill_arr caches name ≡ ended (caches, none)
  unfolding query_with_parser
  query_with_parser-absent e = rw (query_with_parser, e) refl

  pub query_with_parser-present :
      (f : List String)
      → queryarr name ≡ some f
      → query_with_parser queryarr fill_arr caches name
        ≡ (fill_arr caches f >>= λ (after, val). ended (after, some val))
  unfolding query_with_parser
  query_with_parser-present f e = rw (query_with_parser, e) refl

module _ {E V : Type 0} (amrex : AmrexParser E V) (my_constants : Inputs) where
  pub query_constant-absent :
      (fuel : ℕ) (caches : Caches V) (s : String)
      → my_constants s ≡ none
      → query_constant amrex my_constants fuel caches s ≡ ended (caches, none)
  unfolding query_constant
  query_constant-absent zero caches s e =
      query_with_parser-absent my_constants (λ inner f. out_of_fuel) caches s e
  query_constant-absent (suc fuel) caches s e =
      query_with_parser-absent my_constants
        (fill_scalar (fill_with_query amrex my_constants (query_constant amrex my_constants fuel)))
        caches s e
