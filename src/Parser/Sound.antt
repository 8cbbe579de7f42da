-- ===== src/Parser/Sound.antt =====
-- What initParser sets is what the input means, and the cache stays true to it.
use Prim.Native.String.{String}
use hipace.Prelude.{
  ℕ, zero, suc, ◌+◌, ◌≡◌, refl, sym, ◌∙◌, ap, subst, false, Option, none, some, List, [], ◌∷◌,
  arith, Option-cases, Bool-cases, inl, inr,
}
use hipace.Parser.Strings.{contains, erase, erase_all, erase-cons, find, insert, find-insert_inv}
use hipace.Parser.Outcomes.{out_of_fuel, ended, >>=-eq-ended, ended_inj}
use hipace.Parser.Values.{
  AmrexParser, Inputs, Caches, Fill, join, query_with_parser, fill_scalar, fill_with_query,
  init_parser, set_symbols, symbol_value, choose, uncached_value, query_constant, enter, leave,
}
use hipace.Parser.Branches.{
  choose-built_in, choose-unknown, symbol_value-recursive, symbol_value-cached,
  symbol_value-uncached, query_with_parser-absent, query_with_parser-present,
}
use hipace.Parser.Meaning.{
  assign, assign-cons, assign_mono, evaluate, evaluate-eq, meaning, meaning-user, meaning-built_in,
  meaning_deeper,
}

module _ {E V : Type 0} (amrex : AmrexParser E V) (my_constants : Inputs)
    (constants : List (String × V)) where
  open amrex use {define, register_variables, symbols, set_constant, value}

  abbrev Means : String → V → Type 0
  Means s v = (depth : ℕ) × (meaning amrex my_constants constants depth s ≡ some v)

  -- The constants of the program are there, and the cache holds values that the symbols have.
  pub record IsValid (caches : Caches V) : Type 0 where
    pub same_constants : caches.hipace_constants ≡ constants
    pub cached :
        (s : String) (v : V)
        → find s caches.my_constants_cache ≡ some v
        → (depth : ℕ) × (meaning amrex my_constants constants depth s ≡ some v)

  -- What queryWithParser of the constants finds.
  Found : String → Option V → Type 0
  Found s none = my_constants s ≡ none
  Found s (some v) = Means s v

  -- The caches after a routine that had `caches` before.
  abbrev IsKept : Caches V → Caches V → Type 0
  IsKept caches after = IsValid after × (after.recursive_symbols ≡ caches.recursive_symbols)

  pub IsSound : Fill V String (Option V) → Type 0
  IsSound query =
      (caches : Caches V) (s : String) (after : Caches V) (found : Option V)
      → IsValid caches
      → query caches s ≡ ended (after, found)
      → IsKept caches after × Found s found

  IsValid-insert :
      (caches : Caches V) (s : String) (v : V)
      → IsValid caches
      → Means s v
      → IsValid (record caches { my_constants_cache = insert s v caches.my_constants_cache })
  IsValid-insert caches s v valid means = record {
    same_constants = valid.same_constants;
    cached = λ t w k. elim (find-insert_inv s t v w caches.my_constants_cache k) [
      | inl old ↦ valid.cached t w old
      | inr (p, q) ↦ subst (λ x. Means t x) q (subst (λ x. Means x v) (sym p) means)
    ];
  }

  pub IsValid-enter : (caches : Caches V) (s : String) → IsValid caches → IsValid (enter s caches)
  unfolding enter
  IsValid-enter caches s valid = record {
    same_constants = valid.same_constants;
    cached = valid.cached;
  }

  pub IsValid-leave : (caches : Caches V) (s : String) → IsValid caches → IsValid (leave s caches)
  unfolding leave
  IsValid-leave caches s valid = record {
    same_constants = valid.same_constants;
    cached = valid.cached;
  }

  leave_lem :
      (caches inner : Caches V) (s : String)
      → contains s caches.recursive_symbols ≡ false
      → inner.recursive_symbols ≡ (enter s caches).recursive_symbols
      → (leave s inner).recursive_symbols ≡ caches.recursive_symbols
  unfolding leave enter
  leave_lem caches inner s new same = ap (erase s) same ∙ erase-cons s caches.recursive_symbols new

  choose_sound :
      (caches : Caches V) (s : String) (is_input : Option V) (after : Caches V) (v : V)
      → IsValid caches
      → Found s is_input
      → choose caches s is_input ≡ ended (after, v)
      → IsKept caches after × Means s v
  unfolding choose Found
  choose_sound caches s (some w) after v valid found done =
      subst (λ (o : Caches V × V). IsKept caches o.0 × Means s o.1) (ended_inj done)
        ((IsValid-insert caches s w valid found, refl), found)
  choose_sound caches s none after v valid found done =
      elim (Option-cases (find s caches.hipace_constants)) [
        | inl e ↦ absurd (ground (arith, choose-unknown caches s e, done))
        | inr (w, e) ↦
            subst (λ (o : Caches V × V). IsKept caches o.0 × Means s o.1)
              (ended_inj (sym (choose-built_in caches s e) ∙ done))
              (
                (valid, refl),
                (
                  1,
                  meaning-built_in amrex my_constants constants 0 s found
                      ∙ subst (λ t. find s t ≡ some w) valid.same_constants e,
                ),
              )
      ]

  uncached_sound :
      (query : Fill V String (Option V)) (caches : Caches V) (s : String) (after : Caches V) (v : V)
      → IsSound query
      → IsValid caches
      → contains s caches.recursive_symbols ≡ false
      → uncached_value query caches s ≡ ended (after, v)
      → IsKept caches after × Means s v
  unfolding uncached_value IsSound
  uncached_sound query caches s after v sound valid new done =
      let ((inner, is_input), queried, chosen) =
        >>=-eq-ended (query (enter s caches) s)
          (λ (inner, is_input). choose (leave s inner) s is_input) done in
      let ((inner_valid, same), found) =
        sound (enter s caches) s inner is_input (IsValid-enter caches s valid) queried in
      let ((after_valid, kept), means) =
        choose_sound (leave s inner) s is_input after v (IsValid-leave inner s inner_valid) found
          chosen in
      ((after_valid, kept ∙ leave_lem caches inner s new same), means)

  pub symbol_value_sound :
      (query : Fill V String (Option V)) (caches : Caches V) (s : String) (after : Caches V) (v : V)
      → IsSound query
      → IsValid caches
      → symbol_value query caches s ≡ ended (after, v)
      → IsKept caches after × Means s v
  symbol_value_sound query caches s after v sound valid done =
      elim (Bool-cases (contains s caches.recursive_symbols)) [
        | inl e ↦ absurd (ground (arith, symbol_value-recursive query caches s e, done))
        | inr e ↦ elim (Option-cases (find s caches.my_constants_cache)) [
          | inl absent ↦
              uncached_sound query caches s after v sound valid e
                (sym (symbol_value-uncached query caches s e absent) ∙ done)
          | inr (w, present) ↦
              subst (λ (o : Caches V × V). IsKept caches o.0 × Means s o.1)
                (ended_inj (sym (symbol_value-cached query caches s w e present) ∙ done))
                ((valid, refl), valid.cached s w present)
        ]
      ]

  set_symbols_sound :
      (query : Fill V String (Option V)) (caches : Caches V) (parser : E) (rest : List String)
      (after : Caches V) (last : E)
      → IsSound query
      → IsValid caches
      → set_symbols amrex my_constants query caches parser rest ≡ ended (after, last)
      → IsKept caches after
        × ((depth : ℕ) × (assign amrex (meaning amrex my_constants constants depth) parser rest
              ≡ some last))
  unfolding set_symbols assign
  set_symbols_sound query caches parser [] after last sound valid done =
      subst (λ (o : Caches V × E). IsKept caches o.0 × ((depth : ℕ) × (some parser ≡ some o.1)))
        (ended_inj done) ((valid, refl), (0, refl))
  set_symbols_sound query caches parser (s ∷ rest) after last sound valid done =
      let ((next, v), first, others) =
        >>=-eq-ended (symbol_value query caches s)
          (λ (next, v). set_symbols amrex my_constants query next (set_constant parser s v) rest)
          done in
      let ((next_valid, next_same), (d, means)) =
        symbol_value_sound query caches s next v sound valid first in
      let ((after_valid, after_same), (e, all)) =
        set_symbols_sound query next (set_constant parser s v) rest after last sound next_valid
          others in
      (
        (after_valid, after_same ∙ next_same),
        (
          d + e,
          assign-cons amrex (meaning amrex my_constants constants (d + e)) parser s rest v
                (meaning_deeper amrex my_constants constants s v (omega arith) means)
              ∙ assign_mono amrex (meaning amrex my_constants constants e)
                  (meaning amrex my_constants constants (d + e))
                  (λ t w. meaning_deeper amrex my_constants constants t w (omega arith))
                  (set_constant parser s v) rest all,
        ),
      )

  fill_with_query_sound :
      (query : Fill V String (Option V)) (caches : Caches V) (str : String) (after : Caches V)
      (v : V)
      → IsSound query
      → IsValid caches
      → fill_with_query amrex my_constants query caches str ≡ ended (after, v)
      → IsKept caches after
        × ((depth : ℕ) × (evaluate amrex (meaning amrex my_constants constants depth) str ≡ some v))
  unfolding fill_with_query init_parser erase_all
  fill_with_query_sound query caches str after v sound valid done =
      let defined = register_variables (define str) [] in
      let ((inner, parser), set, last) =
        >>=-eq-ended (set_symbols amrex my_constants query caches defined (symbols defined))
          (λ (inner, parser). ended (inner, value parser)) done in
      let (kept, (d, all)) =
        set_symbols_sound query caches defined (symbols defined) inner parser sound valid set in
      subst
        (λ (o : Caches V × V).
          IsKept caches o.0
          × ((depth : ℕ) × (evaluate amrex (meaning amrex my_constants constants depth) str
                ≡ some o.1)))
        (ended_inj last)
        (kept, (d, evaluate-eq amrex (meaning amrex my_constants constants d) str all))

  -- A symbol without an input is not the user's.
  pub found_absent :
      (query : Fill V String (Option V)) (caches : Caches V) (s : String) (after : Caches V)
      → IsSound query
      → IsValid caches
      → query caches s ≡ ended (after, none)
      → IsValid after × (my_constants s ≡ none)
  unfolding IsSound Found
  found_absent query caches s after sound valid queried =
      let ((after_valid, _), absent) = sound caches s after none valid queried in
      (after_valid, absent)

  query-IsSound :
      (fill_arr : Fill V (List String) V)
      → ((caches : Caches V) (words : List String) (after : Caches V) (v : V)
          → IsValid caches
          → fill_arr caches words ≡ ended (after, v)
          → IsKept caches after
            × ((depth : ℕ) × (evaluate amrex
                    (meaning amrex my_constants constants depth)
                    (join words)
                  ≡ some v)))
      → IsSound (query_with_parser my_constants fill_arr)
  unfolding IsSound Found
  query-IsSound fill_arr fills caches s after found valid done =
      elim (Option-cases (my_constants s)) [
        | inl e ↦
            subst (λ (o : Caches V × Option V). IsKept caches o.0 × Found s o.1)
              (ended_inj (sym (query_with_parser-absent my_constants fill_arr caches s e) ∙ done))
              ((valid, refl), e)
        | inr (words, e) ↦
            let ((inner, v), filled, last) =
              >>=-eq-ended (fill_arr caches words) (λ (inner, v). ended (inner, some v))
                (sym (query_with_parser-present my_constants fill_arr caches s words e) ∙ done) in
            let (kept, (d, means)) = fills caches words inner v valid filled in
            subst (λ (o : Caches V × Option V). IsKept caches o.0 × Found s o.1) (ended_inj last)
              (kept, (suc d, meaning-user amrex my_constants constants d s words e ∙ means))
      ]

  pub query_constant-IsSound : (fuel : ℕ) → IsSound (query_constant amrex my_constants fuel)
  unfolding query_constant fill_scalar
  query_constant-IsSound zero =
      query-IsSound (λ caches f. out_of_fuel) (λ caches words after v valid done. cc)
  query_constant-IsSound (suc fuel) =
      let query = query_constant amrex my_constants fuel in
      query-IsSound (fill_scalar (fill_with_query amrex my_constants query))
        (λ caches words after v.
          fill_with_query_sound query caches (join words) after v (query_constant-IsSound fuel))

  -- When initParser returns, every symbol of the expression, other than the variables, is set to the
  -- value that the input and the program's constants give it: the cache, if it was true to them, has
  -- changed no value, it still is true to them, and the set of recursive symbols is what it was before.
  pub init_parser_sound :
      (fuel : ℕ) (caches : Caches V) (parser : E) (varnames : List String) (after : Caches V)
      (last : E)
      → IsValid caches
      → init_parser amrex my_constants
          (query_constant amrex my_constants fuel)
          caches
          parser
          varnames
        ≡ ended (after, last)
      → IsValid after
        × (after.recursive_symbols ≡ caches.recursive_symbols)
        × ((depth : ℕ) × (assign amrex
                (meaning amrex my_constants constants depth)
                (register_variables parser varnames)
                (erase_all varnames (symbols (register_variables parser varnames)))
              ≡ some last))
  unfolding init_parser
  init_parser_sound fuel caches parser varnames after last valid done =
      let defined = register_variables parser varnames in
      let ((still, same), means) =
        set_symbols_sound (query_constant amrex my_constants fuel) caches defined
          (erase_all varnames (symbols defined)) after last (query_constant-IsSound fuel) valid
          done in
      (still, same, means)
