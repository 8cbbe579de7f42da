-- ===== src/Diagnostics/Selection.antt =====
-- What the constructor of Diagnostic selects.
use hipace.Prelude.{
  ok-injective, ◌<◌, ◌≡◌, refl, subst, Error, true, List, [], ◌∷◌, All, ok, err, arith, Bool-cases,
  inl, inr, if◌then◌else◌,
}
use hipace.Fields.{Name, this, n, comps}
use hipace.Diagnostics.{
  Word, all, none, other, key, all_field_comps, is_known, select_loop, select_components,
  component_indices,
}

-- The word is a field of This.
abbrev pub IsFieldWord : Word → Type 0
IsFieldWord (key f) = is_known f ≡ true
IsFieldWord w = ⊥

index-lt : (f : Name) → is_known f ≡ true → comps this f < comps this n
index-lt n h = cc
index-lt f h = omega arith

all_field_comps-All : All IsFieldWord all_field_comps
all_field_comps-All = (
  refl,
  (
    refl,
    (
      refl,
      (refl, (refl, (refl, (refl, (refl, (refl, (refl, (refl, (refl, (refl, (refl, tt))))))))))),
    ),
  ),
)

select_loop-lem :
    (words rest out : List Word)
    → (All IsFieldWord rest → All IsFieldWord words)
    → select_loop words rest ≡ ok out
    → All IsFieldWord out
unfolding select_loop
select_loop-lem words [] out h e = subst (All IsFieldWord) (ok-injective e) (h tt)
select_loop-lem words (all ∷ rest) out h e =
    subst (All IsFieldWord) (ok-injective e) all_field_comps-All
select_loop-lem words (none ∷ rest) out h e = subst (All IsFieldWord) (ok-injective e) tt
select_loop-lem words (other ∷ rest) out h e = cc
select_loop-lem words (key f ∷ rest) out h e = elim (Bool-cases (is_known f)) [
  | inl known ↦
      let later : select_loop words rest ≡ ok out =
        subst (λ b. (if b then select_loop words rest else err Error.abort) ≡ ok out) known e in
      select_loop-lem words rest out (λ r. h (known, r)) later
  | inr unknown ↦
      let failed : err Error.abort ≡ ok out =
        subst (λ b. (if b then select_loop words rest else err Error.abort) ≡ ok out) unknown e in
      cc failed
]

select_components-lem :
    (words out : List Word) → select_components words ≡ ok out → All IsFieldWord out
unfolding select_components
select_components-lem [] out e = subst (All IsFieldWord) (ok-injective e) all_field_comps-All
select_components-lem (w ∷ ws) out e = select_loop-lem (w ∷ ws) (w ∷ ws) out (λ h. h) e

indices_lem :
    (words : List Word)
    → All IsFieldWord words
    → All (λ i. i < comps this n) (component_indices words)
unfolding component_indices
indices_lem [] h = tt
indices_lem (key f ∷ ws) (known, h) = (index-lt f known, indices_lem ws h)
indices_lem (all ∷ ws) (bad, h) = elim bad [ ]
indices_lem (none ∷ ws) (bad, h) = elim bad [ ]
indices_lem (other ∷ ws) (bad, h) = elim bad [ ]

-- Whatever words diagnostic.field_data has: if the constructor of Diagnostic does not abort, then it
-- selects field names of the slice This only, and their indices are those of its components.
pub select_components-All :
    (words out : List Word)
    → select_components words ≡ ok out
    → All IsFieldWord out × All (λ i. i < comps this n) (component_indices out)
select_components-All words out e =
    let fields = select_components-lem words out e in (fields, indices_lem out fields)
