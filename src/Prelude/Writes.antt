-- ===== src/Prelude/Writes.antt =====
-- Arrays that loops write to: the writes as a list, in their order, with the place and the value of
-- each.
use Prim.Native.Nat.{ℕ, zero, suc, ◌+◌, ◌*◌, ◌/◌, ◌≤◌, ◌<◌}
use native.Mathlib.Nat.{mul-add-div_right, div-eq_of_lt}
use mathlib.Core.Path.{◌≡◌, refl, sym, ap, ◌∙◌}
use mathlib.Core.Logic.{◌⊎◌, inl, inr}
use mathlib.Core.Bool.{true, false}
use mathlib.Core.List.{List, [], ◌∷◌, ◌++◌}
use mathlib.Core.Option.{Option, none, some}
use native.Mathlib.Omega.{arith}
use hipace.Prelude.Tests.{◌==◌, if◌then◌else◌, Bool-cases}
use hipace.Prelude.Ranges.{All, In, gather, range_from}

module _ {A : Type 0} where
  -- What is in a place behind the writes: the last one counts, and `none` is what was there before.
  unfoldable pub written : List (ℕ × A) → ℕ → Option A
  written [] place = none
  written ((at, value) ∷ writes) place = elim (written writes place) [
    | some later ↦ some later
    | none ↦ if at == place then some value else none
  ]

  -- Every write to the place has the value.
  abbrev pub AgreesAt : (place : ℕ) (value : A) → ℕ × A → Type 0
  AgreesAt place value write = write.0 ≡ place → write.1 ≡ value

  agreeing :
      (place : ℕ) (value : A) (writes : List (ℕ × A))
      → All (AgreesAt place value) writes
      → (written writes place ≡ none) ⊎ (written writes place ≡ some value)
  unfolding written
  agreeing place value [] h = inl refl
  agreeing place value ((at, v) ∷ writes) h = elim (agreeing place value writes h.1) [
    | inr e ↦ inr (rw e refl)
    | inl e ↦ elim (Bool-cases (at == place)) [
      | inr other ↦ inl (rw (e, other) refl)
      | inl here ↦ inr (rw (e, here) (ap some (h.0 (ground (arith, here)))))
    ]
  ]

  -- If there is a write to the place, and all of them agree on the value, the value is there.
  pub written-eq :
      (place : ℕ) (value : A) (writes : List (ℕ × A))
      → All (AgreesAt place value) writes
      → In (place, value) writes
      → written writes place ≡ some value
  unfolding written
  written-eq place value [] h within = elim within [ ]
  written-eq place value ((at, v) ∷ writes) h (inr later) =
      rw (written-eq place value writes h.1 later) refl
  written-eq place value ((at, v) ∷ writes) h (inl here) = elim (agreeing place value writes h.1) [
    | inr e ↦ rw e refl
    | inl e ↦
        let same : at ≡ place = ap (λ (w : ℕ × A). w.0) here in
        let same_value : v ≡ value = ap (λ (w : ℕ × A). w.1) here in
        let hit : (at == place) ≡ true = ground (arith, same) in rw (e, hit) (ap some same_value)
  ]

module _ {B : Type 0} where
  pub All-append : (P : B → Type 0) (xs ys : List B) → All P xs → All P ys → All P (xs ++ ys)
  All-append P [] ys h k = k
  All-append P (x ∷ xs) ys h k = (h.0, All-append P xs ys h.1 k)

  pub In-append_left : (b : B) (xs ys : List B) → In b xs → In b (xs ++ ys)
  In-append_left b [] ys h = elim h [ ]
  In-append_left b (x ∷ xs) ys (inl here) = inl here
  In-append_left b (x ∷ xs) ys (inr later) = inr (In-append_left b xs ys later)

  pub In-append_right : (b : B) (xs ys : List B) → In b ys → In b (xs ++ ys)
  In-append_right b [] ys h = h
  In-append_right b (x ∷ xs) ys h = inr (In-append_right b xs ys h)

module _ {A B : Type 0} where
  pub All-gather :
      (P : B → Type 0) (f : A → List B) (xs : List A)
      → ((x : A) → In x xs → All P (f x))
      → All P (gather f xs)
  All-gather P f [] h = tt
  All-gather P f (x ∷ xs) h =
      All-append P (f x) (gather f xs) (h x (inl refl))
        (All-gather P f xs (λ y within. h y (inr within)))

  pub In-gather :
      (b : B) (f : A → List B) (a : A) (xs : List A) → In a xs → In b (f a) → In b (gather f xs)
  In-gather b f a [] h k = elim h [ ]
  In-gather b f a (x ∷ xs) (inl here) k = In-append_left b (f x) (gather f xs) (rw here k)
  In-gather b f a (x ∷ xs) (inr later) k =
      In-append_right b (f x) (gather f xs) (In-gather b f a xs later k)

pub In-range_from : (i a n : ℕ) → a ≤ i → i < a + n → In i (range_from a n)
In-range_from i a zero h k = absurd (omega (arith, h, k))
In-range_from i a (suc n) h k = elim (Bool-cases (a == i)) [
  | inl here ↦ inl (ground (arith, here))
  | inr other ↦ inr (In-range_from i (a + 1) n (ground (arith, other, h)) (omega (arith, k)))
]

pub range_from-lt : (i a n : ℕ) → In i (range_from a n) → (a ≤ i) × (i < a + n)
range_from-lt i a zero h = elim h [ ]
range_from-lt i a (suc n) (inl here) = (omega (arith, here), omega (arith, here))
range_from-lt i a (suc n) (inr later) =
    let (low, high) = range_from-lt i (a + 1) n later in (omega (arith, low), omega (arith, high))

-- The row and the column of a place in a matrix.
pub place_unique :
    (n x y x' y' : ℕ) → y < n → y' < n → x * n + y ≡ x' * n + y' → (x ≡ x') × (y ≡ y')
place_unique n x y x' y' h h' e =
    let some_columns : 0 < n = omega (arith, h) in
    let quotient : x + y / n ≡ x' + y' / n =
      sym (mul-add-div_right some_columns x y)
      ∙ ap (λ t. t / n) e
      ∙ mul-add-div_right some_columns x' y' in
    let same_row : x ≡ x' = omega (arith, quotient, div-eq_of_lt h, div-eq_of_lt h') in
    let same_start : x * n ≡ x' * n = ap (λ t. t * n) same_row in
    (same_row, omega (arith, e, same_start))

-- A place without a write holds what it held.
pub written-none :
    {A : Type 0} (place : ℕ) (writes : List (ℕ × A))
    → All (λ write. ¬ (write.0 ≡ place)) writes
    → written writes place ≡ none
unfolding written
written-none place [] h = refl
written-none place ((at, v) ∷ writes) h =
    let other : (at == place) ≡ false = ground (arith, h.0) in
    rw (written-none place writes h.1, other) refl
