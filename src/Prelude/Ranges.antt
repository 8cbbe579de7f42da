-- ===== src/Prelude/Ranges.antt =====
-- Counted loops: the values that a loop variable takes, and lists gathered from them.
use Prim.Native.Nat.{ℕ, zero, suc, ◌+◌, ◌*◌, ◌<◌}
use mathlib.Core.Path.{◌≡◌, refl, ap, ◌∙◌}
use mathlib.Core.Logic.{◌⊎◌}
use mathlib.Core.List.{List, [], ◌∷◌, ◌++◌, map}
use mathlib.Core.Option.{some, some-injective}
use native.Mathlib.Omega.{arith}
use hipace.Prelude.Lists.{length, length-append, get_elem?, get_or, replicate}

-- `a, a + 1, ..`, with `n` elements: `for (i = a; i < a + n; ++i)`.
abbrev pub range_from : ℕ → ℕ → List ℕ
range_from a zero = []
range_from a (suc n) = a ∷ range_from (a + 1) n

-- `a + n - 1, .., a + 1, a`: `for (i = a + n - 1; i >= a; --i)`.
abbrev pub range_down : ℕ → ℕ → List ℕ
range_down a zero = []
range_down a (suc n) = (a + n) ∷ range_down a n

-- A predicate of every element.
abbrev pub All {ℓ κ} : {A : Type ℓ} → (A → Type κ) → List A → Type κ
All P [] = Unit
All P (x ∷ xs) = P x × All P xs

-- Membership with its place kept, as a sum.
abbrev pub In : {A : Type 0} → A → List A → Type 0
In a [] = ⊥
In a (x ∷ xs) = (x ≡ a) ⊎ In a xs

pub length-range_from : (a n : ℕ) → length (range_from a n) ≡ n
length-range_from a zero = refl
length-range_from a (suc n) = ap suc (length-range_from (a + 1) n)

pub length-range_down : (a n : ℕ) → length (range_down a n) ≡ n
length-range_down a zero = refl
length-range_down a (suc n) = ap suc (length-range_down a n)

pub get_elem?-range_from : (a n i : ℕ) → i < n → get_elem? (range_from a n) i ≡ some (a + i)
get_elem?-range_from a zero i h = absurd (omega arith)
get_elem?-range_from a (suc n) zero h = ap some (omega arith)
get_elem?-range_from a (suc n) (suc i) h =
    get_elem?-range_from (a + 1) n i (omega arith) ∙ ap some (omega arith)

module _ {ℓ} {A : Type ℓ} where
  pub get_elem?-append_left :
      (xs ys : List A) (i : ℕ) → i < length xs → get_elem? (xs ++ ys) i ≡ get_elem? xs i
  get_elem?-append_left [] ys i h = absurd (omega arith)
  get_elem?-append_left (x ∷ xs) ys zero h = refl
  get_elem?-append_left (x ∷ xs) ys (suc i) h = get_elem?-append_left xs ys i (omega arith)

  pub get_elem?-append_right :
      (xs ys : List A) (i : ℕ) → get_elem? (xs ++ ys) (length xs + i) ≡ get_elem? ys i
  get_elem?-append_right [] ys i = ap (get_elem? ys) (omega arith)
  get_elem?-append_right (x ∷ xs) ys i =
      let e : suc (length xs) + i ≡ suc (length xs + i) = omega arith in
      rw e (get_elem?-append_right xs ys i)

module _ {ℓ} {A : Type ℓ} where
  pub get_elem?-lt : (xs : List A) (i : ℕ) {a : A} → get_elem? xs i ≡ some a → i < length xs
  get_elem?-lt [] i h = cc
  get_elem?-lt (x ∷ xs) zero h = omega arith
  get_elem?-lt (x ∷ xs) (suc i) h = omega (arith, get_elem?-lt xs i h)

  pub get_elem?-some : (xs : List A) (i : ℕ) → i < length xs → (a : A) × (get_elem? xs i ≡ some a)
  get_elem?-some [] i h = absurd (omega arith)
  get_elem?-some (x ∷ xs) zero h = (x, refl)
  get_elem?-some (x ∷ xs) (suc i) h = get_elem?-some xs i (omega arith)

  pub get_or-replicate : (n i : ℕ) (a d : A) → i < n → get_or (replicate n a) i d ≡ a
  get_or-replicate zero i a d h = absurd (omega arith)
  get_or-replicate (suc n) zero a d h = refl
  get_or-replicate (suc n) (suc i) a d h = get_or-replicate n i a d (omega arith)

  pub get_elem?-map {κ} :
      {B : Type κ} (f : A → B) (xs : List A) (i : ℕ) {a : A}
      → get_elem? xs i ≡ some a
      → get_elem? (map f xs) i ≡ some (f a)
  get_elem?-map f [] i h = cc
  get_elem?-map f (x ∷ xs) zero h = ground arith
  get_elem?-map f (x ∷ xs) (suc i) h = get_elem?-map f xs i h

  -- Lists with the same elements at the same places are equal.
  pub get_elem?-ext : (xs ys : List A) → ((i : ℕ) → get_elem? xs i ≡ get_elem? ys i) → xs ≡ ys
  get_elem?-ext [] [] h = refl
  get_elem?-ext [] (y ∷ ys) h = cc (h 0)
  get_elem?-ext (x ∷ xs) [] h = cc (h 0)
  get_elem?-ext (x ∷ xs) (y ∷ ys) h =
      cc (some-injective x y (h 0), get_elem?-ext xs ys (λ i. h (suc i)))

module _ {ℓ κ} {A : Type ℓ} {B : Type κ} where
  -- What the rounds of a loop append to one list.
  abbrev pub gather : (A → List B) → List A → List B
  gather f [] = []
  gather f (x ∷ xs) = f x ++ gather f xs

module _ {ℓ} {B : Type ℓ} where
  pub length-gather :
      (f : ℕ → List B) (m a n : ℕ)
      → ((k : ℕ) → length (f k) ≡ m)
      → length (gather f (range_from a n)) ≡ m * n
  length-gather f m a zero h = omega arith
  length-gather f m a (suc n) h = omega (
    arith,
    length-append (f a) (gather f (range_from (a + 1) n)),
    h a,
    length-gather f m (a + 1) n h,
  )

  -- The element that round `j` of a loop appended as its `i`-th.
  pub get_elem?-gather :
      (f : ℕ → List B) (m a n j i : ℕ)
      → ((k : ℕ) → length (f k) ≡ m)
      → j < n
      → i < m
      → get_elem? (gather f (range_from a n)) (m * j + i) ≡ get_elem? (f (a + j)) i
  get_elem?-gather f m a zero j i h hj hi = absurd (omega arith)
  get_elem?-gather f m a (suc n) zero i h hj hi =
      ap (get_elem? (f a ++ gather f (range_from (a + 1) n))) (omega arith)
      ∙ get_elem?-append_left (f a) (gather f (range_from (a + 1) n)) i (omega (arith, h a))
      ∙ ap (λ t. get_elem? (f t) i) (omega arith)
  get_elem?-gather f m a (suc n) (suc j) i h hj hi =
      ap (get_elem? (f a ++ gather f (range_from (a + 1) n))) (omega (arith, h a))
      ∙ get_elem?-append_right (f a) (gather f (range_from (a + 1) n)) (m * j + i)
      ∙ get_elem?-gather f m (a + 1) n j i h (omega arith) hi
      ∙ ap (λ t. get_elem? (f t) i) (omega arith)
