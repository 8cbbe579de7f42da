-- ===== src/Parser/Strings.antt =====
-- Sets and maps that have texts as keys.
use Prim.Native.String.{String}
use text.Mathlib.Text.{◌==◌ as str_eq}
use text.Mathlib.TextEquality.{eq_iff}
use text.Mathlib.TextPositions.{eq_refl}
use hipace.Prelude.{
  ℕ, suc, ◌≡◌, refl, ◌≤◌, ◌<◌, Bool, true, false, Option, none, some, List, [], ◌∷◌, length, arith,
  if◌then◌else◌, ◌⊎◌,
}

-- std::set<std::string>: `count(s) != 0`.
unfoldable pub contains : String → List String → Bool
contains s [] = false
contains s (t ∷ ts) = if str_eq s t then true else contains s ts

-- `erase(s)`.
unfoldable pub erase : String → List String → List String
erase s [] = []
erase s (t ∷ ts) = if str_eq s t then erase s ts else t ∷ erase s ts

-- The loop that erases each of the variables.
unfoldable pub erase_all : List String → List String → List String
erase_all [] symbols = symbols
erase_all (v ∷ varnames) symbols = erase_all varnames (erase v symbols)

module _ {V : Type 0} where
  -- std::map<std::string, V>: `find(s)`.
  unfoldable pub find : String → List (String × V) → Option V
  find s [] = none
  find s ((t, v) ∷ entries) = if str_eq s t then some v else find s entries

  -- `insert({s, v})`, which leaves an entry that is there as it is.
  unfoldable pub insert : String → V → List (String × V) → List (String × V)
  insert s v entries = elim (find s entries) [ none ↦ (s, v) ∷ entries | some _ ↦ entries ]

  -- What a map holds after an insertion was there before, or is the new entry.
  pub find-insert_inv :
      (s t : String) (v w : V) (entries : List (String × V))
      → find t (insert s v entries) ≡ some w
      → (find t entries ≡ some w) ⊎ ((t ≡ s) × (v ≡ w))
  unfolding find insert
  find-insert_inv s t v w entries h = ground (arith, eq_iff t s)

pub contains-cons_inv :
    (s t : String) (ts : List String)
    → contains s (t ∷ ts) ≡ true
    → (s ≡ t) ⊎ (contains s ts ≡ true)
unfolding contains
contains-cons_inv s t ts h = ground (arith, eq_iff s t)

pub contains_head : (s : String) (ts : List String) → contains s (s ∷ ts) ≡ true
unfolding contains
contains_head s ts = ground (arith, eq_refl s)

pub contains_tail :
    (s t : String) (ts : List String) → contains s ts ≡ true → contains s (t ∷ ts) ≡ true
unfolding contains
contains_tail s t ts h = ground arith

pub erase_absent : (s : String) (ts : List String) → contains s ts ≡ false → erase s ts ≡ ts
unfolding contains erase
erase_absent s [] h = refl
erase_absent s (t ∷ ts) h = ground (arith, erase_absent s ts)

pub erase-cons : (s : String) (ts : List String) → contains s ts ≡ false → erase s (s ∷ ts) ≡ ts
unfolding erase
erase-cons s ts h = ground (arith, eq_refl s, erase_absent s ts h)

-- How many of the names are not in the set.
unfoldable pub remaining : List String → List String → ℕ
remaining [] set = 0
remaining (n ∷ names) set =
    if contains n set then remaining names set else suc (remaining names set)

pub remaining-le : (names set : List String) → remaining names set ≤ length names
unfolding remaining
remaining-le [] set = ground arith
remaining-le (n ∷ names) set = ground (arith, remaining-le names set)

pub remaining-cons-le :
    (names : List String) (s : String) (set : List String)
    → remaining names (s ∷ set) ≤ remaining names set
unfolding remaining contains
remaining-cons-le [] s set = ground arith
remaining-cons-le (n ∷ names) s set = ground (arith, remaining-cons-le names s set)

-- A new member of the set that is one of the names leaves fewer names.
pub remaining-cons-lt :
    (names : List String) (s : String) (set : List String)
    → contains s names ≡ true
    → contains s set ≡ false
    → remaining names (s ∷ set) < remaining names set
unfolding remaining contains
remaining-cons-lt [] s set h k = ground arith
remaining-cons-lt (n ∷ names) s set h k = ground (
  arith,
  eq_iff s n,
  eq_iff n s,
  eq_refl s,
  remaining-cons-le names s set,
  remaining-cons-lt names s set,
)
