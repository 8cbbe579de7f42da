-- ===== src/IoUtil.antt =====
-- src/utils/IOUtil.cpp: names and shapes for openPMD. A string is the list of its characters' codes.
pub mod Names
pub mod Ids
use hipace.Prelude.{
  ℕ, ◌==◌, ℤ, pos, negsuc, Bool, true, false, Option, none, some, List, [], ◌∷◌, if◌then◌else◌,
}
use hipace.Grid.{IntVect}

-- "_".
abbrev pub underscore : ℕ
underscore = 95

-- The parts of a string before and behind its last underscore: `find_last_of`, with the two calls of
-- `substr`.
unfoldable pub split_last : List ℕ → Option (List ℕ × List ℕ)
split_last [] = none
split_last (c ∷ cs) = elim (split_last cs) [
  | some parts ↦ some (c ∷ parts.0, parts.1)
  | none ↦ if c == underscore then some ([], cs) else none
]

-- utils::name2openPMD: the record and the component, where `none` is the scalar component.
unfoldable pub name2open_pmd : List ℕ → List ℕ × Option (List ℕ)
unfolding split_last
name2open_pmd full_name = elim (split_last full_name) [
  | none ↦ (full_name, none)
  | some parts ↦ (parts.0, some parts.1)
]

-- utils::getReversedVec.
unfoldable pub get_reversed_vec : IntVect → List ℕ
get_reversed_vec v = v.z ∷ v.y ∷ v.x ∷ []

-- The record names that utils::getUnitDimension tells apart, and the base quantities.
pub data RecordName : Type 0 where
  position position_offset momentum charge mass e b other_record : RecordName

pub data UnitDimension : Type 0 where
  l m t i : UnitDimension

-- utils::getUnitDimension.
unfoldable pub get_unit_dimension : RecordName → List (UnitDimension × ℤ)
get_unit_dimension position = (l, pos 1) ∷ []
get_unit_dimension position_offset = (l, pos 1) ∷ []
get_unit_dimension momentum = (l, pos 1) ∷ (m, pos 1) ∷ (t, negsuc 0) ∷ []
get_unit_dimension charge = (t, pos 1) ∷ (i, pos 1) ∷ []
get_unit_dimension mass = (m, pos 1) ∷ []
get_unit_dimension e = (l, pos 1) ∷ (m, pos 1) ∷ (t, negsuc 2) ∷ (i, negsuc 0) ∷ []
get_unit_dimension b = (m, pos 1) ∷ (i, negsuc 0) ∷ (t, negsuc 1) ∷ []
get_unit_dimension other_record = []
