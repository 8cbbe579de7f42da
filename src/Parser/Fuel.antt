-- ===== src/Parser/Fuel.antt =====
-- The recursion of initParser ends: each level of it adds one of the user's constants to the set of
-- recursive symbols.
use Prim.Native.String.{String}
use hipace.Prelude.{
  ℕ, zero, suc, ◌≤◌, ◌<◌, ◌≡◌, sym, ◌∙◌, subst, true, some, List, [], ◌∷◌, arith, Option-cases,
  Bool-cases, inl, inr, ◌≢◌, length,
}
use hipace.Parser.Strings.{contains, erase_all, find, remaining, remaining-cons-lt, remaining-le}
use hipace.Parser.Outcomes.{out_of_fuel, ended, >>=-eq-out_of_fuel}
use hipace.Parser.Values.{
  AmrexParser, Inputs, Caches, join, fill_scalar, fill_with_query, init_parser, set_symbols,
  symbol_value, choose, uncached_value, query_constant, enter, leave,
}
use hipace.Parser.Branches.{
  symbol_value-recursive, symbol_value-cached, symbol_value-uncached, query_with_parser-absent,
  query_with_parser-present, choose-ne-out_of_fuel, query_constant-absent,
}
use hipace.Parser.Sound.{IsValid, IsValid-enter, symbol_value_sound, query_constant-IsSound}

module _ {E V : Type 0} (amrex : AmrexParser E V) (my_constants : Inputs)
    (constants : List (String × V)) (names : List String)
    (named : (s : String) (words : List String)
      → my_constants s ≡ some words
      → contains s names ≡ true) where
  open amrex use {define, register_variables, symbols, set_constant, value}

  -- A query for a symbol has fuel if some of it is left, or the symbol is not the user's.
  abbrev HasFuel : ℕ → Type 0
  HasFuel fuel =
      (caches : Caches V) (s : String)
      → IsValid amrex my_constants constants caches
      → ((words : List String)
          → my_constants s ≡ some words
          → remaining names caches.recursive_symbols < fuel)
      → query_constant amrex my_constants fuel caches s ≢ out_of_fuel

  symbol_value_runs :
      (fuel : ℕ) (caches : Caches V) (s : String)
      → HasFuel fuel
      → IsValid amrex my_constants constants caches
      → remaining names caches.recursive_symbols ≤ fuel
      → symbol_value (query_constant amrex my_constants fuel) caches s ≢ out_of_fuel
  unfolding uncached_value enter
  symbol_value_runs fuel caches s has valid enough out =
      let query = query_constant amrex my_constants fuel in
      elim (Bool-cases (contains s caches.recursive_symbols)) [
        | inl e ↦ let stops = symbol_value-recursive query caches s e in cc
        | inr e ↦ elim (Option-cases (find s caches.my_constants_cache)) [
          | inr (w, present) ↦ let ends = symbol_value-cached query caches s w e present in cc
          | inl absent ↦
              elim (>>=-eq-out_of_fuel (query (enter s caches) s)
                (λ (inner, is_input). choose (leave s inner) s is_input)
                (sym (symbol_value-uncached query caches s e absent) ∙ out)) [
                  | inl queried ↦
                      has (enter s caches) s
                        (IsValid-enter amrex my_constants constants caches s valid)
                        (λ words given. omega (
                          arith,
                          enough,
                          remaining-cons-lt names s caches.recursive_symbols (named s words given)
                              e,
                        ))
                        queried
                  | inr ((inner, is_input), _, chosen) ↦
                      choose-ne-out_of_fuel (leave s inner) s is_input chosen
                ]
        ]
      ]

  set_symbols_runs :
      (fuel : ℕ) (caches : Caches V) (parser : E) (rest : List String)
      → HasFuel fuel
      → IsValid amrex my_constants constants caches
      → remaining names caches.recursive_symbols ≤ fuel
      → set_symbols amrex my_constants (query_constant amrex my_constants fuel) caches parser rest
        ≢ out_of_fuel
  unfolding set_symbols
  set_symbols_runs fuel caches parser [] has valid enough out = cc
  set_symbols_runs fuel caches parser (s ∷ rest) has valid enough out =
      let query = query_constant amrex my_constants fuel in
      elim (>>=-eq-out_of_fuel (symbol_value query caches s)
        (λ (next, v). set_symbols amrex my_constants query next (set_constant parser s v) rest)
        out) [
          | inl first ↦ symbol_value_runs fuel caches s has valid enough first
          | inr ((next, v), first, others) ↦
              let ((next_valid, same), _) =
                symbol_value_sound amrex my_constants constants query caches s next v
                  (query_constant-IsSound amrex my_constants constants fuel) valid first in
              set_symbols_runs fuel next (set_constant parser s v) rest has next_valid
                (subst (λ set. remaining names set ≤ fuel) (sym same) enough) others
        ]

  query-HasFuel : (fuel : ℕ) → HasFuel fuel
  unfolding query_constant fill_scalar fill_with_query init_parser erase_all
  query-HasFuel zero caches s valid left out = elim (Option-cases (my_constants s)) [
    | inl e ↦ let ends = query_constant-absent amrex my_constants zero caches s e in cc
    | inr (words, e) ↦ omega (arith, left words e)
  ]
  query-HasFuel (suc fuel) caches s valid left out =
      let query = query_constant amrex my_constants fuel in
      let fill = fill_scalar (fill_with_query amrex my_constants query) in
      elim (Option-cases (my_constants s)) [
        | inl e ↦ let ends = query_with_parser-absent my_constants fill caches s e in cc
        | inr (words, e) ↦
            let defined = register_variables (define (join words)) [] in
            elim (>>=-eq-out_of_fuel (fill caches words) (λ (inner, v). ended (inner, some v))
              (sym (query_with_parser-present my_constants fill caches s words e) ∙ out)) [
                | inr (_, _, last) ↦ cc
                | inl filling ↦
                    elim (>>=-eq-out_of_fuel
                      (set_symbols amrex my_constants query caches defined (symbols defined))
                      (λ (inner, parser). ended (inner, value parser)) filling) [
                        | inr (_, _, last) ↦ cc
                        | inl setting ↦
                            set_symbols_runs fuel caches defined (symbols defined)
                              (query-HasFuel fuel) valid (omega (arith, left words e)) setting
                      ]
              ]
      ]

  -- initParser always ends, also where constants depend on themselves: with a cache that is true to the
  -- input, fuel for as many levels as the user has constants is enough for every expression.
  pub init_parser-ne-out_of_fuel :
      (fuel : ℕ) (caches : Caches V) (parser : E) (varnames : List String)
      → IsValid amrex my_constants constants caches
      → length names ≤ fuel
      → init_parser amrex my_constants
          (query_constant amrex my_constants fuel)
          caches
          parser
          varnames
        ≢ out_of_fuel
  unfolding init_parser
  init_parser-ne-out_of_fuel fuel caches parser varnames valid enough =
      let defined = register_variables parser varnames in
      set_symbols_runs fuel caches defined (erase_all varnames (symbols defined))
        (query-HasFuel fuel) valid
        (omega (arith, enough, remaining-le names caches.recursive_symbols))
