-- ===== src/Parser/Complete.antt =====
-- initParser finds the value of every symbol that has one.
use Prim.Native.String.{String}
use hipace.Prelude.{
  ℕ, zero, suc, ◌+◌, ◌≤◌, ◌<◌, ◌≡◌, refl, sym, ◌∙◌, ap, subst, true, false, Option, none, some,
  List, [], ◌∷◌, arith, Option-cases, Bool-cases, inl, inr, ◌↔◌, length,
}
use hipace.Parser.Strings.{
  contains, erase_all, find, remaining, remaining-cons-lt, remaining-le, contains-cons_inv,
}
use hipace.Parser.Outcomes.{ended}
use hipace.Parser.Values.{
  AmrexParser, Inputs, Caches, join, fill_scalar, fill_with_query, init_parser, set_symbols,
  symbol_value, choose, uncached_value, query_constant, enter, leave,
}
use hipace.Parser.Branches.{
  choose-built_in, symbol_value-cached, symbol_value-uncached, query_constant-absent,
  query_with_parser-present,
}
use hipace.Parser.Meaning.{
  assign, assign_inv, evaluate, evaluate_inv, meaning, meaning-user, meaning-built_in,
  meaning_deeper, meaning_least,
}
use hipace.Parser.Sound.{
  IsValid, IsValid-enter, symbol_value_sound, query_constant-IsSound, init_parser_sound,
}

module _ {E V : Type 0} (amrex : AmrexParser E V) (my_constants : Inputs)
    (constants : List (String × V)) (names : List String)
    (named : (s : String) (words : List String)
      → my_constants s ≡ some words
      → contains s names ≡ true) where
  open amrex use {define, register_variables, symbols, set_constant, value}

  -- Every symbol of the set needs expressions that are nested deeper.
  abbrev IsDeeper : ℕ → List String → Type 0
  IsDeeper depth set =
      (r : String) → contains r set ≡ true → meaning amrex my_constants constants depth r ≡ none

  abbrev IsComplete : ℕ → Type 0
  IsComplete depth =
      (fuel : ℕ) (caches : Caches V) (parser : E) (rest : List String) (last : E)
      → IsValid amrex my_constants constants caches
      → IsDeeper depth caches.recursive_symbols
      → remaining names caches.recursive_symbols ≤ fuel
      → assign amrex (meaning amrex my_constants constants depth) parser rest ≡ some last
      → (after : Caches V) × (set_symbols amrex my_constants
            (query_constant amrex my_constants fuel) caches parser rest
          ≡ ended (after, last))

  meaning_unique :
      (s : String) (d e : ℕ) {v w : V}
      → meaning amrex my_constants constants d s ≡ some v
      → meaning amrex my_constants constants e s ≡ some w
      → v ≡ w
  meaning_unique s d e {v} {w} h k =
      let deep_v =
        meaning_deeper amrex my_constants constants {deeper = d + e} s v (omega arith) h in
      let deep_w =
        meaning_deeper amrex my_constants constants {deeper = d + e} s w (omega arith) k in
      cc

  IsDeeper-below : (l d : ℕ) (set : List String) → l ≤ d → IsDeeper d set → IsDeeper l set
  IsDeeper-below l d set h deeper r within =
      elim (Option-cases (meaning amrex my_constants constants l r)) [
        | inl e ↦ e
        | inr (v, e) ↦
            let deep = meaning_deeper amrex my_constants constants {deeper = d} r v h e in
            let no_value = deeper r within in cc
      ]

  IsDeeper-cons :
      (d : ℕ) (s : String) (set : List String)
      → meaning amrex my_constants constants d s ≡ none
      → IsDeeper d set
      → IsDeeper d (s ∷ set)
  IsDeeper-cons d s set e deeper r within = elim (contains-cons_inv r s set within) [
    | inl same ↦ subst (λ t. meaning amrex my_constants constants d t ≡ none) (sym same) e
    | inr old ↦ deeper r old
  ]

  -- A symbol that the user has given, with its value found at the depth below.
  query_complete :
      (l fuel : ℕ) (caches : Caches V) (s : String) (words : List String) (v : V)
      → IsComplete l
      → my_constants s ≡ some words
      → IsValid amrex my_constants constants caches
      → IsDeeper l caches.recursive_symbols
      → remaining names caches.recursive_symbols < fuel
      → evaluate amrex (meaning amrex my_constants constants l) (join words) ≡ some v
      → (inner : Caches V) × (query_constant amrex my_constants fuel caches s
          ≡ ended (inner, some v))
  unfolding query_constant fill_scalar fill_with_query init_parser erase_all
  query_complete l zero caches s words v complete e valid deeper enough means =
      absurd (omega (arith, enough))
  query_complete l (suc fuel) caches s words v complete e valid deeper enough means =
      let defined = register_variables (define (join words)) [] in
      let (parser, all, same) =
        evaluate_inv amrex (meaning amrex my_constants constants l) (join words) means in
      let (inner, run) =
        complete fuel caches defined (symbols defined) parser valid deeper (omega (arith, enough))
          all in
      (
        inner,
        query_with_parser-present my_constants
              (fill_scalar
                (fill_with_query amrex my_constants (query_constant amrex my_constants fuel)))
              caches s words e
            ∙ simp (run, same),
      )

  -- Behind a query that ends the symbol has a value.
  uncached-eq :
      (fuel : ℕ) (caches inner next : Caches V) (s : String) (is_input : Option V) (v : V)
      → query_constant amrex my_constants fuel (enter s caches) s ≡ ended (inner, is_input)
      → choose (leave s inner) s is_input ≡ ended (next, v)
      → uncached_value (query_constant amrex my_constants fuel) caches s ≡ ended (next, v)
  unfolding uncached_value
  uncached-eq fuel caches inner next s is_input v queried chosen =
      rw (uncached_value, queried) chosen

  module _ (d : ℕ) (completes : (l : ℕ) → l < d → IsComplete l) where
    uncached_complete :
        (fuel : ℕ) (caches : Caches V) (s : String) (v : V)
        → IsValid amrex my_constants constants caches
        → IsDeeper d caches.recursive_symbols
        → remaining names caches.recursive_symbols ≤ fuel
        → contains s caches.recursive_symbols ≡ false
        → meaning amrex my_constants constants d s ≡ some v
        → (next : Caches V) × (uncached_value (query_constant amrex my_constants fuel) caches s
            ≡ ended (next, v))
    unfolding enter leave choose
    uncached_complete fuel caches s v valid deeper enough new means =
        let (l, below, before, here) = meaning_least amrex my_constants constants d s v means in
        elim (Option-cases (my_constants s)) [
          | inl e ↦
              let built_in : find s (leave s (enter s caches)).hipace_constants ≡ some v =
                subst (λ t. find s t ≡ some v) (sym valid.same_constants)
                  (sym (meaning-built_in amrex my_constants constants l s e) ∙ here) in
              (
                leave s (enter s caches),
                uncached-eq fuel caches (enter s caches) (leave s (enter s caches)) s none v
                    (query_constant-absent amrex my_constants fuel (enter s caches) s e)
                    (choose-built_in (leave s (enter s caches)) s built_in),
              )
          | inr (words, e) ↦
              let (inner, queried) =
                query_complete l fuel (enter s caches) s words v (completes l below) e
                  (IsValid-enter amrex my_constants constants caches s valid)
                  (IsDeeper-cons l s caches.recursive_symbols before
                    (IsDeeper-below l d caches.recursive_symbols (omega (arith, below)) deeper))
                  (omega (
                    arith,
                    enough,
                    remaining-cons-lt names s caches.recursive_symbols (named s words e) new,
                  ))
                  (sym (meaning-user amrex my_constants constants l s words e) ∙ here) in
              (_, uncached-eq fuel caches inner _ s (some v) v queried refl)
        ]

    symbol_value_complete :
        (fuel : ℕ) (caches : Caches V) (s : String) (v : V)
        → IsValid amrex my_constants constants caches
        → IsDeeper d caches.recursive_symbols
        → remaining names caches.recursive_symbols ≤ fuel
        → meaning amrex my_constants constants d s ≡ some v
        → (next : Caches V) × (symbol_value (query_constant amrex my_constants fuel) caches s
            ≡ ended (next, v))
    symbol_value_complete fuel caches s v valid deeper enough means =
        let query = query_constant amrex my_constants fuel in
        elim (Bool-cases (contains s caches.recursive_symbols)) [
          | inl e ↦ let no_value = deeper s e in cc
          | inr e ↦ elim (Option-cases (find s caches.my_constants_cache)) [
            | inl absent ↦
                let (next, run) = uncached_complete fuel caches s v valid deeper enough e means in
                (next, symbol_value-uncached query caches s e absent ∙ run)
            | inr (w, present) ↦
                let (depth, same) = valid.cached s w present in
                (
                  caches,
                  symbol_value-cached query caches s w e present
                      ∙ ap (λ u. ended (caches, u)) (meaning_unique s depth d same means),
                )
          ]
        ]

    set_symbols-IsComplete : IsComplete d
    unfolding set_symbols assign
    set_symbols-IsComplete fuel caches parser [] last valid deeper enough all = (caches, cc)
    set_symbols-IsComplete fuel caches parser (s ∷ rest) last valid deeper enough all =
        let query = query_constant amrex my_constants fuel in
        let (v, means, others) =
          assign_inv amrex (meaning amrex my_constants constants d) parser s rest all in
        let (next, first) = symbol_value_complete fuel caches s v valid deeper enough means in
        let ((next_valid, same), _) =
          symbol_value_sound amrex my_constants constants query caches s next v
            (query_constant-IsSound amrex my_constants constants fuel) valid first in
        let (after, run) =
          set_symbols-IsComplete fuel next (set_constant parser s v) rest last next_valid
            (subst (IsDeeper d) (sym same) deeper)
            (subst (λ set. remaining names set ≤ fuel) (sym same) enough) others in
        (after, rw (set_symbols, first) run)

  all-IsComplete : (bound d : ℕ) → d ≤ bound → IsComplete d
  all-IsComplete zero d h = set_symbols-IsComplete d (λ l below. absurd (omega (arith, h, below)))
  all-IsComplete (suc bound) d h =
      set_symbols-IsComplete d (λ l below. all-IsComplete bound l (omega (arith, h, below)))

  -- initParser, started with an empty set of recursive symbols and with a cache that is true to the
  -- input, returns exactly when every symbol of the expression, other than the variables, has a value,
  -- and it then sets each of them to that value. The fuel is the number of the user's constants.
  pub init_parser_iff :
      (fuel : ℕ) (caches : Caches V) (parser : E) (varnames : List String) (last : E)
      → IsValid amrex my_constants constants caches
      → caches.recursive_symbols ≡ []
      → length names ≤ fuel
      → ((after : Caches V) × (init_parser amrex my_constants
              (query_constant amrex my_constants fuel)
              caches
              parser
              varnames
            ≡ ended (after, last)))
        ↔ ((depth : ℕ) × (assign amrex
                (meaning amrex my_constants constants depth)
                (register_variables parser varnames)
                (erase_all varnames (symbols (register_variables parser varnames)))
              ≡ some last))
  unfolding init_parser contains
  init_parser_iff fuel caches parser varnames last valid outside enough =
      let defined = register_variables parser varnames in
      let none_deeper : (depth : ℕ) → IsDeeper depth caches.recursive_symbols = λ depth r within.
        absurd (ground (arith, subst (λ set. contains r set ≡ true) outside within)) in
      (
        λ (after, run).
            (init_parser_sound amrex my_constants constants fuel caches parser varnames after last
              valid run).2,
        λ (depth, all).
            all-IsComplete depth depth (omega arith) fuel caches defined
              (erase_all varnames (symbols defined)) last valid (none_deeper depth)
              (omega (arith, enough, remaining-le names caches.recursive_symbols)) all,
      )
