-- ===== src/Parser/Values.antt =====
-- The evaluation of an expression, and of the constants in it: initParser, fillWithParser,
-- fillWithParserArr, getWithParser and queryWithParser.
use Prim.Native.String.{String, ◌++◌}
use hipace.Prelude.{
  ℕ, zero, suc, ◌==◌, if◌then◌else◌, Option, none, some, List, [], ◌∷◌, length, Error, ℤ,
}
use hipace.Parser.Strings.{contains, erase, erase_all, find, insert}
use hipace.Parser.Outcomes.{Outcome, out_of_fuel, stopped, ended, ◌>>=◌, from_result}
use hipace.Parser.Casts.{Double, safe_cast_to_int, round}

-- amrex::Parser, which holds an expression `E` whose value is in `V`: the constructor from a text,
-- registerVariables, symbols (a set, in its order), setConstant, and the value, compileHost<0>()().
pub record AmrexParser (E V : Type 0) : Type 0 where
  pub define : String → E
  pub register_variables : E → List String → E
  pub symbols : E → List String
  pub set_constant : E → String → V → E
  pub value : E → V

-- amrex::ParmParse::queryarr: the words that the input has for a name, if it has the name.
abbrev pub Inputs : Type 0
Inputs = String → Option (List String)

-- The static variables of the namespace Parser, and of initParser.
pub record Caches (V : Type 0) : Type 0 where
  pub my_constants_cache : List (String × V)
  pub hipace_constants : List (String × V)
  pub recursive_symbols : List String

-- A routine that reads a value of type `T` from words of the input.
abbrev pub Fill : Type 0 → Type 0 → Type 0 → Type 0
Fill V Words T = Caches V → Words → Outcome (Caches V × T)

-- queryWithParser.
unfoldable pub query_with_parser :
    {V T : Type 0} → Inputs → Fill V (List String) T → Fill V String (Option T)
query_with_parser queryarr fill_arr caches name = elim (queryarr name) [
  | none ↦ ended (caches, none)
  | some f ↦ do (after, val) ← fill_arr caches f; ended (after, some val)
]

-- getWithParser; ParmParse::getarr aborts if the input does not have the name.
unfoldable pub get_with_parser : {V T : Type 0} → Inputs → Fill V (List String) T → Fill V String T
get_with_parser queryarr fill_arr caches name = elim (queryarr name) [
  | none ↦ stopped Error.abort
  | some f ↦ fill_arr caches f
]

-- The loop that appends the other words, with a space in front of each.
unfoldable pub append_words : String → List String → String
append_words str [] = str
append_words str (word ∷ words) = append_words (str ++ (" " ++ word)) words

-- The single text that fillWithParserArr makes for a scalar.
unfoldable pub join : List String → String
join [] = ""
join (word ∷ words) = append_words word words

-- fillWithParserArr for a scalar.
unfoldable pub fill_scalar : {V T : Type 0} → Fill V String T → Fill V (List String) T
fill_scalar fill caches str_arr = fill caches (join str_arr)

-- fillWithParserArr for a std::vector or an amrex::Vector.
unfoldable pub fill_vector : {V T : Type 0} → Fill V String T → Fill V (List String) (List T)
fill_vector fill caches [] = ended (caches, [])
fill_vector fill caches (str ∷ str_arr) = do
  (next, val) ← fill caches str
  (after, val_arr) ← fill_vector fill next str_arr
  ended (after, val ∷ val_arr)

-- fillWithParserArr for a std::array.
unfoldable pub fill_array :
    {V T : Type 0} (size : ℕ) → Fill V String T → Fill V (List String) (List T)
fill_array size fill caches str_arr =
    if length str_arr == size then fill_vector fill caches str_arr else stopped Error.assertion

module _ {V : Type 0} where
  -- recursive_symbols.insert(s), .erase(s).
  unfoldable pub enter : String → Caches V → Caches V
  enter s caches = record caches { recursive_symbols = s ∷ caches.recursive_symbols }

  unfoldable pub leave : String → Caches V → Caches V
  leave s caches = record caches { recursive_symbols = erase s caches.recursive_symbols }

  -- The end of the loop's body: the value is an input of the user, or else a constant of the program.
  unfoldable pub choose : Caches V → String → Option V → Outcome (Caches V × V)
  choose caches s (some v) =
      ended (record caches { my_constants_cache = insert s v caches.my_constants_cache }, v)
  choose caches s none = elim (find s caches.hipace_constants) [
    | some v ↦ ended (caches, v)
    | none ↦ stopped Error.abort
  ]

  -- The query for a symbol, which is in recursive_symbols meanwhile, and what follows it.
  unfoldable pub uncached_value : Fill V String (Option V) → Fill V String V
  uncached_value query caches s = do
    (inner, is_input) ← query (enter s caches) s
    choose (leave s inner) s is_input

  -- The body of the loop over the symbols, up to setConstant.
  unfoldable pub symbol_value : Fill V String (Option V) → Fill V String V
  symbol_value query caches s =
      let uncached = uncached_value query caches s in
      if contains s caches.recursive_symbols
      then stopped Error.assertion
      else elim (find s caches.my_constants_cache) [ some v ↦ ended (caches, v) | none ↦ uncached ]

module _ {E V : Type 0} (amrex : AmrexParser E V) (my_constants : Inputs) where
  open amrex use {define, register_variables, symbols, set_constant, value}

  -- The loop of initParser.
  unfoldable pub set_symbols :
      Fill V String (Option V) → Caches V → E → List String → Outcome (Caches V × E)
  set_symbols query caches parser [] = ended (caches, parser)
  set_symbols query caches parser (s ∷ rest) = do
    (next, v) ← symbol_value query caches s
    set_symbols query next (set_constant parser s v) rest

  -- initParser; `query` is the queryWithParser of pp_my_constants that it calls.
  unfoldable pub init_parser :
      Fill V String (Option V) → Caches V → E → List String → Outcome (Caches V × E)
  init_parser query caches parser varnames =
      let defined = register_variables parser varnames in
      set_symbols query caches defined (erase_all varnames (symbols defined))

  -- fillWithParser for a double, with the queryWithParser of the constants.
  unfoldable pub fill_with_query : Fill V String (Option V) → Fill V String V
  fill_with_query query caches str = do
    (after, parser) ← init_parser query caches (define str) []
    ended (after, value parser)

  -- queryWithParser of pp_my_constants for a double, which calls initParser in turn.
  unfoldable pub query_constant : ℕ → Fill V String (Option V)
  query_constant zero = query_with_parser my_constants (λ caches f. out_of_fuel)
  query_constant (suc fuel) =
      query_with_parser my_constants (fill_scalar (fill_with_query (query_constant fuel)))

  -- fillWithParser for a double.
  unfoldable pub fill_double : ℕ → Fill V String V
  fill_double fuel = fill_with_query (query_constant fuel)

  -- makeFunctionWithParser, up to the compilation.
  unfoldable pub make_function_with_parser :
      ℕ → Caches V → String → List String → Outcome (Caches V × E)
  make_function_with_parser fuel caches func_str varnames =
      init_parser (query_constant fuel) caches (define func_str) varnames

-- fillWithParser for an int, where the values are doubles.
unfoldable pub fill_int : {E : Type 0} → AmrexParser E Double → Inputs → ℕ → Fill Double String ℤ
fill_int amrex my_constants fuel caches str = do
  (after, x) ← fill_double amrex my_constants fuel caches str
  val ← from_result (safe_cast_to_int (round x))
  ended (after, val)

-- fillWithParser for a text.
unfoldable pub fill_string : {V : Type 0} → Fill V String String
fill_string caches str = ended (caches, str)

-- addConstantsToParser: the six constants of a PhysConst.
unfoldable pub add_constants_to_parser :
    {V : Type 0} → (c ep0 mu0 q_e m_e m_p : V) → Caches V → Caches V
add_constants_to_parser c ep0 mu0 q_e m_e m_p caches = record caches {
  hipace_constants = insert "m_p" m_p (
      insert "m_e" m_e (
        insert "q_e" q_e
          (insert "mu0" mu0 (insert "epsilon0" ep0 (insert "clight" c caches.hipace_constants)))));
}

-- The static variables when the program starts.
unfoldable pub static_caches : {V : Type 0} → (pi true_value false_value : V) → Caches V
static_caches pi true_value false_value = record {
  my_constants_cache = [];
  hipace_constants = ("pi", pi) ∷ ("true", true_value) ∷ ("false", false_value) ∷ [];
  recursive_symbols = [];
}
