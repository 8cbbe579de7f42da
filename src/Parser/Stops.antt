-- ===== src/Parser/Stops.antt =====
-- Why initParser stops the program.
use Prim.Native.String.{String}
use hipace.Prelude.{
  ℕ, zero, suc, ◌≡◌, sym, ◌∙◌, subst, true, none, some, List, [], ◌∷◌, arith, Option-cases,
  Bool-cases, inl, inr, ◌⊎◌, Error,
}
use hipace.Parser.Strings.{
  contains, erase_all, find, contains-cons_inv, contains_head, contains_tail,
}
use hipace.Parser.Outcomes.{out_of_fuel, stopped, ended, >>=-eq-stopped}
use hipace.Parser.Values.{
  AmrexParser, Inputs, Caches, Fill, join, fill_scalar, fill_with_query, init_parser, set_symbols,
  symbol_value, choose, uncached_value, query_constant, enter, leave,
}
use hipace.Parser.Branches.{
  symbol_value-recursive, symbol_value-cached, symbol_value-uncached, query_with_parser-present,
  query_constant-absent, choose-built_in, choose-unknown,
}
use hipace.Parser.Meaning.{symbols_in}
use hipace.Parser.Sound.{
  IsValid, IsValid-enter, symbol_value_sound, query_constant-IsSound, found_absent,
}

module _ {E V : Type 0} (amrex : AmrexParser E V) (my_constants : Inputs)
    (constants : List (String × V)) where
  open amrex use {define, register_variables, symbols, set_constant, value}

  -- The expression of one constant contains another one, at once or through others.
  pub data Depends : String → String → Type 0 where
    uses :
        {s t : String} {words : List String}
        → my_constants s ≡ some words
        → contains t (symbols_in amrex (join words)) ≡ true
        → Depends s t
    through : {s t u : String} → Depends s t → Depends t u → Depends s u

  -- A symbol of the list, or one that such a symbol depends on.
  pub IsUsed : List String → String → Type 0
  IsUsed rest s = (contains s rest ≡ true) ⊎ ((t : String) × (contains t rest ≡ true) × Depends t s)

  -- A constant that depends on itself, for the assertion; a symbol that neither the user nor the program
  -- has given, for the abort.
  pub IsDiagnosis : List String → Error → Type 0
  IsDiagnosis rest e =
      ((e ≡ Error.assertion) × ((s : String) × IsUsed rest s × Depends s s))
      ⊎ ((e ≡ Error.abort)
          × ((s : String) × IsUsed rest s × (my_constants s ≡ none) × (find s constants ≡ none)))

  IsDiagnosis-map :
      (first rest : List String) (e : Error)
      → ((s : String) → IsUsed first s → IsUsed rest s)
      → IsDiagnosis first e
      → IsDiagnosis rest e
  unfolding IsDiagnosis
  IsDiagnosis-map first rest e f (inl (kind, (s, used, cycle))) = inl (kind, (s, f s used, cycle))
  IsDiagnosis-map first rest e f (inr (kind, (s, used, absent, unknown))) =
      inr (kind, (s, f s used, absent, unknown))

  IsUsed-cons : (t : String) (rest : List String) (s : String) → IsUsed rest s → IsUsed (t ∷ rest) s
  unfolding IsUsed
  IsUsed-cons t rest s (inl here) = inl (contains_tail s t rest here)
  IsUsed-cons t rest s (inr (u, here, deps)) = inr (u, contains_tail u t rest here, deps)

  -- What the expression of a symbol uses, the symbol depends on.
  IsUsed-inside :
      (s : String) (rest words : List String) (t : String)
      → contains s rest ≡ true
      → my_constants s ≡ some words
      → IsUsed (symbols_in amrex (join words)) t
      → IsUsed rest t
  unfolding IsUsed
  IsUsed-inside s rest words t here e (inl inside) = inr (s, here, uses e inside)
  IsUsed-inside s rest words t here e (inr (u, inside, deps)) =
      inr (s, here, through (uses e inside) deps)

  -- Each symbol whose value is being computed depends on all of the list.
  abbrev IsAbove : List String → List String → Type 0
  IsAbove set rest = (r t : String) → contains r set ≡ true → contains t rest ≡ true → Depends r t

  abbrev Diagnoses : ℕ → Type 0
  Diagnoses fuel =
      (caches : Caches V) (s : String) (e : Error)
      → IsValid amrex my_constants constants caches
      → ((words : List String)
          → my_constants s ≡ some words
          → IsAbove caches.recursive_symbols (symbols_in amrex (join words)))
      → query_constant amrex my_constants fuel caches s ≡ stopped e
      → (words : List String) × (my_constants s ≡ some words)
        × IsDiagnosis (symbols_in amrex (join words)) e

  IsAbove-enter :
      (s : String) (set rest words : List String)
      → contains s rest ≡ true
      → my_constants s ≡ some words
      → IsAbove set rest
      → IsAbove (s ∷ set) (symbols_in amrex (join words))
  IsAbove-enter s set rest words here e above r t within inside =
      elim (contains-cons_inv r s set within) [
        | inl same ↦ subst (λ x. Depends x t) (sym same) (uses e inside)
        | inr old ↦ through (above r s old here) (uses e inside)
      ]

  -- The assertion of a symbol's own loop, a query that stops, and a symbol that is not known.
  uncached_stops :
      (fuel : ℕ) (caches : Caches V) (s : String) (rest : List String) (e : Error)
      → Diagnoses fuel
      → IsValid amrex my_constants constants caches
      → contains s rest ≡ true
      → IsAbove caches.recursive_symbols rest
      → uncached_value (query_constant amrex my_constants fuel) caches s ≡ stopped e
      → IsDiagnosis rest e
  unfolding uncached_value enter leave IsDiagnosis IsUsed choose
  uncached_stops fuel caches s rest e diagnoses valid here above stops =
      let query = query_constant amrex my_constants fuel in
      let inside = IsValid-enter amrex my_constants constants caches s valid in
      elim (>>=-eq-stopped (query (enter s caches) s)
        (λ (inner, is_input). choose (leave s inner) s is_input) stops) [
          | inl queried ↦
              let (words, given, diagnosis) =
                diagnoses (enter s caches) s e inside
                  (λ words given.
                    IsAbove-enter s caches.recursive_symbols rest words here given above)
                  queried in
              IsDiagnosis-map (symbols_in amrex (join words)) rest e
                (λ t. IsUsed-inside s rest words t here given) diagnosis
          | inr ((inner, some v), queried, chosen) ↦ cc
          | inr ((inner, none), queried, chosen) ↦
              let (inner_valid, absent) =
                found_absent amrex my_constants constants query (enter s caches) s inner
                  (query_constant-IsSound amrex my_constants constants fuel) inside queried in
              elim (Option-cases (find s inner.hipace_constants)) [
                | inr (v, e') ↦ let ends = choose-built_in (leave s inner) s e' in cc
                | inl unknown ↦
                    let aborts : stopped Error.abort ≡ stopped e =
                      sym (choose-unknown (leave s inner) s unknown) ∙ chosen in
                    inr (
                      cc,
                      (
                        s,
                        inl here,
                        absent,
                        subst (λ t. find s t ≡ none) inner_valid.same_constants unknown,
                      ),
                    )
              ]
        ]

  symbol_value_stops :
      (fuel : ℕ) (caches : Caches V) (s : String) (rest : List String) (e : Error)
      → Diagnoses fuel
      → IsValid amrex my_constants constants caches
      → contains s rest ≡ true
      → IsAbove caches.recursive_symbols rest
      → symbol_value (query_constant amrex my_constants fuel) caches s ≡ stopped e
      → IsDiagnosis rest e
  unfolding IsDiagnosis IsUsed
  symbol_value_stops fuel caches s rest e diagnoses valid here above stops =
      let query = query_constant amrex my_constants fuel in
      elim (Bool-cases (contains s caches.recursive_symbols)) [
        | inl within ↦
            let asserts : stopped Error.assertion ≡ stopped e =
              sym (symbol_value-recursive query caches s within) ∙ stops in
            inl (cc, (s, inl here, above s s within here))
        | inr new ↦ elim (Option-cases (find s caches.my_constants_cache)) [
          | inr (w, present) ↦ let ends = symbol_value-cached query caches s w new present in cc
          | inl absent ↦
              uncached_stops fuel caches s rest e diagnoses valid here above
                (sym (symbol_value-uncached query caches s new absent) ∙ stops)
        ]
      ]

  set_symbols_stops :
      (fuel : ℕ) (caches : Caches V) (parser : E) (rest : List String) (e : Error)
      → Diagnoses fuel
      → IsValid amrex my_constants constants caches
      → IsAbove caches.recursive_symbols rest
      → set_symbols amrex my_constants (query_constant amrex my_constants fuel) caches parser rest
        ≡ stopped e
      → IsDiagnosis rest e
  unfolding set_symbols
  set_symbols_stops fuel caches parser [] e diagnoses valid above stops = cc
  set_symbols_stops fuel caches parser (s ∷ rest) e diagnoses valid above stops =
      let query = query_constant amrex my_constants fuel in
      elim (>>=-eq-stopped (symbol_value query caches s)
        (λ (next, v). set_symbols amrex my_constants query next (set_constant parser s v) rest)
        stops) [
          | inl first ↦
              symbol_value_stops fuel caches s (s ∷ rest) e diagnoses valid (contains_head s rest)
                above first
          | inr ((next, v), first, others) ↦
              let ((next_valid, same), _) =
                symbol_value_sound amrex my_constants constants query caches s next v
                  (query_constant-IsSound amrex my_constants constants fuel) valid first in
              let still_above : IsAbove next.recursive_symbols rest = λ r t within inside.
                above r t (subst (λ set. contains r set ≡ true) same within)
                  (contains_tail t s rest inside) in
              IsDiagnosis-map rest (s ∷ rest) e (IsUsed-cons s rest) (
                set_symbols_stops fuel next (set_constant parser s v) rest e diagnoses next_valid
                  still_above others)
        ]

  query-Diagnoses : (fuel : ℕ) → Diagnoses fuel
  unfolding query_constant fill_scalar fill_with_query init_parser erase_all
  query-Diagnoses zero caches s e valid above stops = elim (Option-cases (my_constants s)) [
    | inl absent ↦ let ends = query_constant-absent amrex my_constants zero caches s absent in cc
    | inr (words, given) ↦
        let no_fuel : Fill V (List String) V = λ inner f. out_of_fuel in
        let out = query_with_parser-present my_constants no_fuel caches s words given in cc
  ]
  query-Diagnoses (suc fuel) caches s e valid above stops =
      let query = query_constant amrex my_constants fuel in
      let fill = fill_scalar (fill_with_query amrex my_constants query) in
      elim (Option-cases (my_constants s)) [
        | inl absent ↦
            let ends = query_constant-absent amrex my_constants (suc fuel) caches s absent in cc
        | inr (words, given) ↦
            let defined = register_variables (define (join words)) [] in
            elim (>>=-eq-stopped (fill caches words) (λ (inner, v). ended (inner, some v))
              (sym (query_with_parser-present my_constants fill caches s words given) ∙ stops)) [
                | inr (_, _, last) ↦ cc
                | inl filling ↦
                    elim (>>=-eq-stopped
                      (set_symbols amrex my_constants query caches defined (symbols defined))
                      (λ (inner, parser). ended (inner, value parser)) filling) [
                        | inr (_, _, last) ↦ cc
                        | inl setting ↦ (
                          words,
                          given,
                          set_symbols_stops fuel caches defined (symbols defined) e
                              (query-Diagnoses fuel) valid (above words given) setting,
                        )
                      ]
              ]
      ]

  -- When initParser, started with an empty set of recursive symbols and with a cache that is true to the
  -- input, stops the program, the message is right: either it is the assertion, and a constant that the
  -- expression uses depends on itself; or it is the abort, and a symbol that the expression uses is
  -- neither one of the user's constants nor one of the program's.
  pub init_parser-IsDiagnosis :
      (fuel : ℕ) (caches : Caches V) (parser : E) (varnames : List String) (e : Error)
      → IsValid amrex my_constants constants caches
      → caches.recursive_symbols ≡ []
      → init_parser amrex my_constants
          (query_constant amrex my_constants fuel)
          caches
          parser
          varnames
        ≡ stopped e
      → IsDiagnosis (erase_all varnames (symbols (register_variables parser varnames))) e
  unfolding init_parser contains
  init_parser-IsDiagnosis fuel caches parser varnames e valid outside stops =
      let defined = register_variables parser varnames in
      set_symbols_stops fuel caches defined (erase_all varnames (symbols defined)) e
        (query-Diagnoses fuel) valid
        (λ r t within inside.
          absurd (ground (arith, subst (λ set. contains r set ≡ true) outside within)))
        stops
