-- ===== src/Parser/Meaning.antt =====
-- What the constants of the input mean, without the cache and without the set of recursive symbols:
-- the value of a symbol is that of its expression, in which each symbol has its value in turn.
use Prim.Native.String.{String}
use hipace.Prelude.{
  ℕ, zero, suc, ◌≤◌, ◌<◌, ◌+◌, ◌-◌, ◌≡◌, refl, sym, ◌∙◌, subst, ap, Option, none, some, List, [],
  ◌∷◌, arith, Option-cases, inl, inr,
}
use hipace.Parser.Strings.{find}
use hipace.Parser.Values.{AmrexParser, Inputs, join}

module _ {E V : Type 0} (amrex : AmrexParser E V) where
  open amrex use {define, register_variables, symbols, set_constant, value}

  -- Every symbol is set to its value, if each of them has one.
  unfoldable pub assign : (String → Option V) → E → List String → Option E
  assign value_of parser [] = some parser
  assign value_of parser (s ∷ rest) = elim (value_of s) [
    | none ↦ none
    | some v ↦ assign value_of (set_constant parser s v) rest
  ]

  -- The symbols of an expression without variables.
  abbrev pub symbols_in : String → List String
  symbols_in str = symbols (register_variables (define str) [])

  unfoldable pub evaluate : (String → Option V) → String → Option V
  evaluate value_of str =
      elim (assign value_of (register_variables (define str) []) (symbols_in str)) [
        | none ↦ none
        | some parser ↦ some (value parser)
      ]

  module _ (my_constants : Inputs) (constants : List (String × V)) where
    -- The value of a symbol, if it has one in which expressions are nested to a depth below `depth`.
    unfoldable pub meaning : ℕ → String → Option V
    meaning zero s = none
    meaning (suc depth) s = elim (my_constants s) [
      | none ↦ find s constants
      | some words ↦ evaluate (meaning depth) (join words)
    ]

  pub assign-cons :
      (f : String → Option V) (parser : E) (s : String) (rest : List String) (v : V)
      → f s ≡ some v
      → assign f parser (s ∷ rest) ≡ assign f (set_constant parser s v) rest
  unfolding assign
  assign-cons f parser s rest v e = rw (assign, e) refl

  -- An assignment that succeeds has a value for the first symbol.
  pub assign_inv :
      (f : String → Option V) (parser : E) (s : String) (rest : List String) {last : E}
      → assign f parser (s ∷ rest) ≡ some last
      → (v : V) × (f s ≡ some v) × (assign f (set_constant parser s v) rest ≡ some last)
  unfolding assign
  assign_inv f parser s rest k = elim (Option-cases (f s)) [
    | inl e ↦ absurd (ground (arith, e, k))
    | inr (v, e) ↦ (v, e, sym (assign-cons f parser s rest v e) ∙ k)
  ]

  pub assign_mono :
      (f g : String → Option V)
      → ((s : String) (v : V) → f s ≡ some v → g s ≡ some v)
      → (parser : E) (rest : List String) {last : E} → assign f parser rest ≡ some last
      → assign g parser rest ≡ some last
  unfolding assign
  assign_mono f g h parser [] k = k
  assign_mono f g h parser (s ∷ rest) k =
      let (v, e, tail) = assign_inv f parser s rest k in
      assign-cons g parser s rest v (h s v e)
      ∙ assign_mono f g h (set_constant parser s v) rest tail

  pub evaluate-eq :
      (f : String → Option V) (str : String) {parser : E}
      → assign f (register_variables (define str) []) (symbols_in str) ≡ some parser
      → evaluate f str ≡ some (value parser)
  unfolding evaluate
  evaluate-eq f str e = rw (evaluate, e) refl

  pub evaluate_inv :
      (f : String → Option V) (str : String) {v : V}
      → evaluate f str ≡ some v
      → (parser : E) × (assign f (register_variables (define str) []) (symbols_in str)
          ≡ some parser)
        × (value parser ≡ v)
  unfolding evaluate
  evaluate_inv f str k =
      elim (Option-cases (assign f (register_variables (define str) []) (symbols_in str))) [
        | inl e ↦ absurd (ground (arith, e, k))
        | inr (parser, e) ↦ (parser, e, ground (arith, e, k))
      ]

  pub evaluate_mono :
      (f g : String → Option V)
      → ((s : String) (v : V) → f s ≡ some v → g s ≡ some v)
      → (str : String) {v : V} → evaluate f str ≡ some v
      → evaluate g str ≡ some v
  evaluate_mono f g h str k =
      let (parser, e, last) = evaluate_inv f str k in
      evaluate-eq g str (assign_mono f g h (register_variables (define str) []) (symbols_in str) e)
      ∙ ap some last

  module _ (my_constants : Inputs) (constants : List (String × V)) where
    pub meaning-user :
        (depth : ℕ) (s : String) (words : List String)
        → my_constants s ≡ some words
        → meaning my_constants constants (suc depth) s
          ≡ evaluate (meaning my_constants constants depth) (join words)
    unfolding meaning
    meaning-user depth s words e = rw (meaning, e) refl

    pub meaning-built_in :
        (depth : ℕ) (s : String)
        → my_constants s ≡ none
        → meaning my_constants constants (suc depth) s ≡ find s constants
    unfolding meaning
    meaning-built_in depth s e = rw (meaning, e) refl

    meaning-suc :
        (depth : ℕ) (s : String) (v : V)
        → meaning my_constants constants depth s ≡ some v
        → meaning my_constants constants (suc depth) s ≡ some v
    unfolding meaning
    meaning-suc zero s v k = absurd (ground (arith, k))
    meaning-suc (suc depth) s v k = elim (Option-cases (my_constants s)) [
      | inl e ↦ meaning-built_in (suc depth) s e ∙ sym (meaning-built_in depth s e) ∙ k
      | inr (words, e) ↦
          meaning-user (suc depth) s words e
          ∙ evaluate_mono (meaning my_constants constants depth)
              (meaning my_constants constants (suc depth)) (meaning-suc depth) (join words)
              (sym (meaning-user depth s words e) ∙ k)
    ]

    -- A greater depth does not change a value.
    meaning_mono :
        (more depth : ℕ) (s : String) (v : V)
        → meaning my_constants constants depth s ≡ some v
        → meaning my_constants constants (more + depth) s ≡ some v
    meaning_mono zero depth s v k =
        subst (λ d. meaning my_constants constants d s ≡ some v) (omega arith) k
    meaning_mono (suc more) depth s v k =
        subst (λ d. meaning my_constants constants d s ≡ some v) (omega arith)
          (meaning-suc (more + depth) s v (meaning_mono more depth s v k))

    pub meaning_deeper :
        {depth deeper : ℕ} (s : String) (v : V)
        → depth ≤ deeper
        → meaning my_constants constants depth s ≡ some v
        → meaning my_constants constants deeper s ≡ some v
    meaning_deeper {depth} {deeper} s v h k =
        subst (λ d. meaning my_constants constants d s ≡ some v) (omega (arith, h))
          (meaning_mono (deeper - depth) depth s v k)

    -- The least depth at which a symbol has a value.
    pub meaning_least :
        (depth : ℕ) (s : String) (v : V)
        → meaning my_constants constants depth s ≡ some v
        → (least : ℕ) × (least < depth)
          × (meaning my_constants constants least s ≡ none)
          × (meaning my_constants constants (suc least) s ≡ some v)
    unfolding meaning
    meaning_least zero s v k = absurd (ground (arith, k))
    meaning_least (suc depth) s v k = elim (Option-cases (meaning my_constants constants depth s)) [
      | inl e ↦ (depth, omega arith, e, k)
      | inr (w, e) ↦
          let same : w ≡ v = ground (arith, meaning-suc depth s w e, k) in
          let (least, below, before, here) = meaning_least depth s v (e ∙ ap some same) in
          (least, omega (arith, below), before, here)
    ]
