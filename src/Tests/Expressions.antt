-- ===== src/Tests/Expressions.antt =====
-- The theorems on the parser at concrete inputs: an expression is a single symbol.
use Prim.Native.String.{String}
use text.Mathlib.Text.{◌==◌ as str_eq}
use hipace.Prelude.{
  ℕ, ◌≡◌, refl, none, some, List, [], ◌∷◌, true, false, if◌then◌else◌, arith, ◌↔◌, ◌≢◌, Error, pos,
}
use hipace.Parser.{
  contains, erase, erase_all, find, insert, out_of_fuel, stopped, ended, from_result, AmrexParser,
  Inputs, Caches, join, append_words, query_with_parser, fill_scalar, fill_with_query, init_parser,
  set_symbols, symbol_value, choose, uncached_value, query_constant, enter, leave, fill_double,
  fill_int, Double, finite, safe_cast_to_int, cast_to_int, round, is_below_limit, is_above_min,
  truncate,
}
use hipace.Parser.Meaning.{assign, evaluate, meaning}
use hipace.Parser.Sound.{IsValid, init_parser_sound}
use hipace.Parser.Complete.{init_parser_iff}
use hipace.Parser.Fuel.{init_parser-ne-out_of_fuel}
use hipace.Parser.Stops.{IsDiagnosis, init_parser-IsDiagnosis}
use hipace.Parser.Bounds.{IsCast, IsInt, cast_to_int-IsCast}
use hipace.Parser.Cached.{fill_double_any_cache, fill_int-IsNearest, IsNearest}

abbrev amrex : {V : Type 0} → V → AmrexParser (String × V) V
amrex unset = record {
  define = λ str. (str, unset);
  register_variables = λ parser varnames. parser;
  symbols = λ parser. parser.0 ∷ [];
  set_constant = λ parser s v. (parser.0, v);
  value = λ parser. parser.1;
}

abbrev names : List String
names = "a" ∷ "b" ∷ "c" ∷ []

-- a is given as b, b as pi, and c as itself.
abbrev my_constants : Inputs
my_constants s =
    if str_eq s "a"
    then some ("b" ∷ [])
    else if str_eq s "b"
    then some ("pi" ∷ [])
    else if str_eq s "c"
    then some ("c" ∷ [])
    else none

named : (s : String) (words : List String) → my_constants s ≡ some words → contains s names ≡ true
unfolding contains
named s words given = ground arith

module _ {V : Type 0} (pi one no : V) where
  abbrev fresh : Caches V
  fresh = record {
    my_constants_cache = [];
    hipace_constants = ("pi", pi) ∷ ("true", one) ∷ ("false", no) ∷ [];
    recursive_symbols = [];
  }

  fresh-IsValid :
      (parser : AmrexParser (String × V) V)
      → IsValid parser my_constants (("pi", pi) ∷ ("true", one) ∷ ("false", no) ∷ []) fresh
  unfolding find
  fresh-IsValid parser = record {
    same_constants = refl;
    cached = λ s v k. absurd (ground (arith, k));
  }

abbrev sums : AmrexParser (String × ℕ) ℕ
sums = amrex 0

abbrev start : Caches ℕ
start = fresh 3 1 0

abbrev constants : List (String × ℕ)
constants = ("pi", 3) ∷ ("true", 1) ∷ ("false", 0) ∷ []

abbrev filled : Caches ℕ
filled = record {
  my_constants_cache = ("a", 3) ∷ ("b", 3) ∷ [];
  hipace_constants = constants;
  recursive_symbols = [];
}

runs :
    init_parser sums my_constants (query_constant sums my_constants 3) start ("a", 0) []
    ≡ ended (filled, ("a", 3))
unfolding init_parser set_symbols symbol_value uncached_value choose enter leave query_constant
    query_with_parser fill_scalar fill_with_query contains erase erase_all find insert join
    append_words
runs = refl

init_parser_sound_example :
    IsValid sums my_constants constants filled
    × (filled.recursive_symbols ≡ start.recursive_symbols)
    × ((depth : ℕ) × (assign sums
            (meaning sums my_constants constants depth)
            ("a", 0)
            (erase_all [] ("a" ∷ []))
          ≡ some ("a", 3)))
init_parser_sound_example =
    init_parser_sound sums my_constants constants 3 start ("a", 0) [] filled ("a", 3)
      (fresh-IsValid 3 1 0 sums) runs

init_parser_iff_example :
    ((after : Caches ℕ) × (init_parser sums my_constants
          (query_constant sums my_constants 3)
          start
          ("b", 0)
          []
        ≡ ended (after, ("b", 3))))
    ↔ ((depth : ℕ) × (assign sums
            (meaning sums my_constants constants depth)
            ("b", 0)
            (erase_all [] ("b" ∷ []))
          ≡ some ("b", 3)))
init_parser_iff_example =
    init_parser_iff sums my_constants constants names named 3 start ("b", 0) [] ("b", 3)
      (fresh-IsValid 3 1 0 sums) refl (omega arith)

init_parser-ne-out_of_fuel_example :
    init_parser sums my_constants (query_constant sums my_constants 3) start ("c", 0) []
    ≢ out_of_fuel
init_parser-ne-out_of_fuel_example =
    init_parser-ne-out_of_fuel sums my_constants constants names named 3 start ("c", 0) []
      (fresh-IsValid 3 1 0 sums) (omega arith)

stops :
    init_parser sums my_constants (query_constant sums my_constants 3) start ("c", 0) []
    ≡ stopped Error.assertion
unfolding init_parser set_symbols symbol_value uncached_value choose enter leave query_constant
    query_with_parser fill_scalar fill_with_query contains erase erase_all find insert join
    append_words
stops = refl

init_parser-IsDiagnosis_example :
    IsDiagnosis sums my_constants constants (erase_all [] ("c" ∷ [])) Error.assertion
init_parser-IsDiagnosis_example =
    init_parser-IsDiagnosis sums my_constants constants 3 start ("c", 0) [] Error.assertion
      (fresh-IsValid 3 1 0 sums) refl stops

filled-IsValid : IsValid sums my_constants constants filled
filled-IsValid = init_parser_sound_example.0

fill_a : fill_double sums my_constants 3 filled "a" ≡ ended (filled, 3)
unfolding fill_double fill_with_query init_parser set_symbols symbol_value erase_all contains find
fill_a = refl

fill_double_any_cache_example :
    (last : Caches ℕ) × (fill_double sums my_constants 3 start "a" ≡ ended (last, 3))
fill_double_any_cache_example =
    fill_double_any_cache sums my_constants constants names named 3 filled start "a" filled 3
      filled-IsValid (fresh-IsValid 3 1 0 sums) refl (omega arith) fill_a

-- 25 / 8, 1 and 0.
abbrev eighths : Caches Double
eighths = fresh (finite false 25 3) (finite false 1 0) (finite false 0 0)

fill_pi : fill_int (amrex (finite false 0 0)) my_constants 3 eighths "pi" ≡ ended (eighths, pos 3)
unfolding fill_int fill_double fill_with_query init_parser set_symbols symbol_value uncached_value
    choose enter leave query_constant query_with_parser fill_scalar contains erase erase_all find
    insert join append_words from_result safe_cast_to_int cast_to_int round is_below_limit
    is_above_min truncate
fill_pi = refl

fill_int-IsNearest_example :
    (x : Double) × ((depth : ℕ) × (evaluate
          (amrex (finite false 0 0))
          (meaning (amrex (finite false 0 0)) my_constants eighths.hipace_constants depth)
          "pi"
        ≡ some x))
    × IsNearest x (pos 3)
    × IsInt (pos 3)
fill_int-IsNearest_example =
    fill_int-IsNearest (amrex (finite false 0 0)) my_constants eighths.hipace_constants 3 eighths
      "pi" eighths (pos 3)
      (fresh-IsValid (finite false 25 3) (finite false 1 0) (finite false 0 0)
        (amrex (finite false 0 0)))
      fill_pi

cast_to_int-IsCast_example : IsCast (finite true 25 3) (cast_to_int (finite true 25 3))
cast_to_int-IsCast_example = cast_to_int-IsCast (finite true 25 3)
