-- ===== src/IoUtil/Names.antt =====
-- name2openPMD cuts a name at its last underscore.
use hipace.Prelude.{
  ℕ, ◌==◌, ◌≡◌, refl, ap, subst, false, Option, none, some, Option-cases, Bool-cases, inl, inr,
  List, [], ◌∷◌, ◌++◌, All, arith,
}
use hipace.IoUtil.{underscore, split_last, name2open_pmd}

-- A string with no underscore.
abbrev pub IsPlain : List ℕ → Type 0
IsPlain cs = All (λ c. (c == underscore) ≡ false) cs

-- The parts make up the name, and the last of them has no underscore.
abbrev pub IsCut : List ℕ → Option (List ℕ × List ℕ) → Type 0
IsCut cs none = IsPlain cs
IsCut cs (some parts) = (parts.0 ++ (underscore ∷ parts.1) ≡ cs) × IsPlain parts.1

-- The record and the component of a name.
abbrev pub IsNamed : List ℕ → List ℕ × Option (List ℕ) → Type 0
IsNamed cs (record_name, none) = (record_name ≡ cs) × IsPlain cs
IsNamed cs (record_name, some component) =
    (record_name ++ (underscore ∷ component) ≡ cs) × IsPlain component

split_last-IsCut : (cs : List ℕ) → IsCut cs (split_last cs)
unfolding split_last
split_last-IsCut [] = tt
split_last-IsCut (c ∷ cs) = elim (Option-cases (split_last cs)) [
  | inl e ↦
      let plain : IsPlain cs = subst (IsCut cs) e (split_last-IsCut cs) in
      elim (Bool-cases (c == underscore)) [
        | inl here ↦ rw (e, here) (ground arith, plain)
        | inr other ↦ rw (e, other) (other, plain)
      ]
  | inr (parts, e) ↦
      let cut : IsCut cs (some parts) = subst (IsCut cs) e (split_last-IsCut cs) in
      rw e (ap (λ t. c ∷ t) cut.0, cut.1)
]

IsNamed-of :
    (cs : List ℕ) (o : Option (List ℕ × List ℕ))
    → IsCut cs o
    → IsNamed cs (elim o [ none ↦ (cs, none) | some parts ↦ (parts.0, some parts.1) ])
IsNamed-of cs none h = (refl, h)
IsNamed-of cs (some parts) h = h

-- name2openPMD takes every name apart: without an underscore the name is that of the record, and the
-- component is the scalar one; otherwise record and component, with an underscore between them, make
-- up the name, and the component has none.
pub name2open_pmd-IsNamed : (full_name : List ℕ) → IsNamed full_name (name2open_pmd full_name)
unfolding name2open_pmd
name2open_pmd-IsNamed full_name =
    IsNamed-of full_name (split_last full_name) (split_last-IsCut full_name)
