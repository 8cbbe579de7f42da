-- ===== src/Particles/Arrays.antt =====
-- What resize does to an array that shrinks, and to one that grows.
use hipace.Prelude.{
  ℕ, zero, suc, ◌+◌, ◌≤◌, ◌<◌, ◌≡◌, refl, sym, ◌∙◌, ap, none, some, List, [], ◌∷◌, ◌++◌, arith,
  length, get_elem?, take, drop, set, take-append-drop, length-drop, get_elem?-ext, Bool-cases, ltb,
  inl, inr,
}
use hipace.Particles.{Tile}

module _ {A : Type 0} where
  pub get_elem?-none : (xs : List A) (i : ℕ) → length xs ≤ i → get_elem? xs i ≡ none
  get_elem?-none [] i h = refl
  get_elem?-none (x ∷ xs) zero h = absurd (omega arith)
  get_elem?-none (x ∷ xs) (suc i) h = get_elem?-none xs i (omega arith)

  pub get_elem?-take : (xs : List A) (n i : ℕ) → i < n → get_elem? (take n xs) i ≡ get_elem? xs i
  get_elem?-take xs zero i h = absurd (omega arith)
  get_elem?-take [] (suc n) i h = refl
  get_elem?-take (x ∷ xs) (suc n) zero h = refl
  get_elem?-take (x ∷ xs) (suc n) (suc i) h = get_elem?-take xs n i (omega arith)

  pub take_above : (xs : List A) (n i : ℕ) → n ≤ i → get_elem? (take n xs) i ≡ none
  take_above xs zero i h = refl
  take_above [] (suc n) i h = refl
  take_above (x ∷ xs) (suc n) zero h = absurd (omega arith)
  take_above (x ∷ xs) (suc n) (suc i) h = take_above xs n i (omega arith)

  -- Two arrays that agree up to the end of the shorter one.
  take_of_agree :
      (xs ys : List A) (n : ℕ)
      → length xs ≡ n
      → ((i : ℕ) → i < n → get_elem? ys i ≡ get_elem? xs i)
      → take n ys ≡ xs
  take_of_agree xs ys n e h = get_elem?-ext (take n ys) xs λ i. elim (Bool-cases (ltb i n)) [
    | inl below ↦ get_elem?-take ys n i (ground arith) ∙ h i (ground arith)
    | inr above ↦ take_above ys n i (ground arith) ∙ sym (get_elem?-none xs i (ground arith))
  ]

  module _ (t : Tile A) where
    pub resize-take : (xs : List A) (n : ℕ) → n ≤ length xs → t.resize xs n ≡ take n xs
    resize-take xs n h = sym (
        take_of_agree (t.resize xs n) xs n (t.length-resize xs n)
          (λ i below. sym (t.get_elem?-resize xs n i below (omega arith))))

    pub resize-append :
        (xs : List A) (n : ℕ)
        → (junk : List A) × (t.resize xs (length xs + n) ≡ xs ++ junk) × (length junk ≡ n)
    resize-append xs n =
        let grown : List A = t.resize xs (length xs + n) in
        let front : take (length xs) grown ≡ xs =
          take_of_agree xs grown (length xs) refl
            (λ i below. t.get_elem?-resize xs (length xs + n) i (omega arith) below) in
        (
          drop (length xs) grown,
          sym (take-append-drop (length xs) grown) ∙ ap (λ f. f ++ drop (length xs) grown) front,
          omega (arith, length-drop (length xs) grown, t.length-resize xs (length xs + n)),
        )

module _ {P : Type 0} where
  pub drop-suc :
      (xs : List P) (n : ℕ) {p : P} → get_elem? xs n ≡ some p → drop n xs ≡ p ∷ drop (suc n) xs
  drop-suc [] n h = cc
  drop-suc (x ∷ xs) zero h = ground arith
  drop-suc (x ∷ xs) (suc n) h = drop-suc xs n h

  pub set-append :
      (xs : List P) (j : P) (js : List P) (p : P)
      → set (xs ++ (j ∷ js)) (length xs) p ≡ (xs ++ (p ∷ [])) ++ js
  set-append [] j js p = refl
  set-append (x ∷ xs) j js p = ap (λ t. x ∷ t) (set-append xs j js p)
