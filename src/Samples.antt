-- ===== src/Samples.antt =====
-- Concrete data for the tests: numbers for the reals, and arrays, buffers and multifabs as lists and
-- functions.
use hipace.Prelude.{
  ◌*◌, ◌≢◌, ℕ, zero, suc, ◌+◌, ◌-◌, ◌*◌, ◌/◌, ◌≤◌, ◌<◌, ◌≡◌, refl, sym, ap, ◌∙◌, ◌⊎◌, inl, inr,
  some, List, [], ◌∷◌, map, arith, length, get_elem?, range_from, length-range_from, length-map,
  get_elem?-map, get_elem?-range_from, true, false, ◌&&◌, if◌then◌else◌, ◌==◌, ltb, leb, Bool-cases,
  pos,
}
use hipace.Reals.{Real}
use hipace.Particles.{Particle, Tile, Scatter, Packing}
use hipace.Fields.MultiFab.{MultiFabs}
use hipace.Fields.Mixing.{Combinations}

abbrev pub real : Real ℕ
real = record {
  add = λ a b. a + b;
  sub = λ a b. a - b;
  mul = λ a b. a * b;
  div = λ a b. a / b;
  lt = ltb;
  le = leb;
  eq = λ a b. a == b;
  of_int = λ n. n;
}

module _ {A : Type 0} (filler : A) where
  abbrev resized : List A → ℕ → List A
  resized xs zero = []
  resized [] (suc n) = filler ∷ resized [] n
  resized (x ∷ xs) (suc n) = x ∷ resized xs n

  pub length-resized : (xs : List A) (n : ℕ) → length (resized xs n) ≡ n
  length-resized [] zero = refl
  length-resized (x ∷ xs) zero = refl
  length-resized [] (suc n) = ap suc (length-resized [] n)
  length-resized (x ∷ xs) (suc n) = ap suc (length-resized xs n)

  pub get_elem?-resized :
      (xs : List A) (n i : ℕ) → i < n → i < length xs → get_elem? (resized xs n) i ≡ get_elem? xs i
  get_elem?-resized xs zero i h k = absurd (omega arith)
  get_elem?-resized [] (suc n) i h k = absurd (omega arith)
  get_elem?-resized (x ∷ xs) (suc n) zero h k = refl
  get_elem?-resized (x ∷ xs) (suc n) (suc i) h k =
      get_elem?-resized xs n i (omega arith) (omega arith)

  abbrev pub tile : Tile A
  tile = record {
    resize = resized;
    length-resize = length-resized;
    get_elem?-resize = get_elem?-resized;
  }

module _ {A : Type 0} where
  -- What is written to place `d`: the first element that goes there, or `z`.
  abbrev found : List A → List ℕ → ℕ → A → A
  found [] ds d z = z
  found (x ∷ xs) [] d z = z
  found (x ∷ xs) (e ∷ ds) d z = if e == d then x else found xs ds d z

  pub found_lem :
      (xs : List A) (ds : List ℕ) (i d : ℕ) (a z : A)
      → get_elem? xs i ≡ some a
      → get_elem? ds i ≡ some d
      → ((j : ℕ) → get_elem? ds j ≡ some d → j ≡ i)
      → found xs ds d z ≡ a
  found_lem [] ds i d a z hx hd only = cc
  found_lem (x ∷ xs) [] i d a z hx hd only = cc
  found_lem (x ∷ xs) (e ∷ ds) zero d a z hx hd only = ground arith
  found_lem (x ∷ xs) (e ∷ ds) (suc i) d a z hx hd only = elim (Bool-cases (e == d)) [
    | inl same ↦
        let here : get_elem? (e ∷ ds) 0 ≡ some d = ground arith in
        absurd (omega (arith, only 0 here))
    | inr other ↦ rw other (found_lem xs ds i d a z hx hd (λ j hj. omega (arith, only (suc j) hj)))
  ]

  abbrev scattered : A → List A → List ℕ → List A
  scattered z xs ds = map (λ d. found xs ds d z) (range_from 0 (length xs))

  pub length-scattered :
      (z : A) (xs : List A) (ds : List ℕ) → length (scattered z xs ds) ≡ length xs
  length-scattered z xs ds =
      length-map (range_from 0 (length xs)) (λ d. found xs ds d z) ∙ length-range_from 0 (length xs)

  abbrev pub scatter : A → Scatter A
  scatter z = record {
    scatter = scattered z;
    length-scatter = length-scattered z;
    get_elem?-scatter = λ xs ds i d a hx hd fits only.
        get_elem?-map (λ d. found xs ds d z) (range_from 0 (length xs)) d
          (get_elem?-range_from 0 (length xs) d fits)
        ∙ (let e : 0 + d ≡ d = omega arith in
            ap (λ t. some (found xs ds t z)) e ∙ ap some (found_lem xs ds i d a z hx hd only));
  }

abbrev pub packing : Packing ℕ ℕ
packing = record { pack = λ a. a + 1; unpack = λ k. k - 1; unpack-pack = λ a. omega arith }

-- A particle in slice `z`, with id `n`.
abbrev pub particle : (n z : ℕ) → Particle ℕ
particle n z = record { id = pos n; x = 0; y = 0; z = z; w = 1; ux = 0; uy = 0; uz = 10 }

-- Components as a function from their index.
abbrev pub ranged : (dst src : ℕ → ℕ) → (ℕ → ℕ → ℕ) → (s d n : ℕ) → ℕ → ℕ
ranged dst src f s d n c = if leb d c && ltb c (d + n) then f (dst c) (src (s + (c - d))) else dst c

pub ranged-in :
    (dst src : ℕ → ℕ) (f : ℕ → ℕ → ℕ) (s d n i : ℕ)
    → i < n
    → ranged dst src f s d n (d + i) ≡ f (dst (d + i)) (src (s + i))
ranged-in dst src f s d n i h =
    let low : leb d (d + i) ≡ true = ground arith in
    let high : ltb (d + i) (d + n) ≡ true = ground arith in
    let e : s + (d + i - d) ≡ s + i = omega arith in rw (low, high, e) refl

pub ranged-out :
    (dst src : ℕ → ℕ) (f : ℕ → ℕ → ℕ) (s d n c : ℕ)
    → (c < d) ⊎ (d + n ≤ c)
    → ranged dst src f s d n c ≡ dst c
ranged-out dst src f s d n c h =
    let out : (leb d c && ltb c (d + n)) ≡ false = ground arith in rw out refl

abbrev pub multifabs : MultiFabs ℕ (ℕ → ℕ) ℕ
multifabs = record {
  component = λ m c. m c;
  plus = λ a b. a + b;
  copy = λ dst src s d n. ranged dst src (λ old new. new) s d n;
  add = λ dst src s d n. ranged dst src (λ old new. old + new) s d n;
  component-copy_in = λ dst src s d n i h. ranged-in dst src (λ old new. new) s d n i h;
  component-copy_out = λ dst src s d n c h. ranged-out dst src (λ old new. new) s d n c h;
  component-add_one_in = λ dst src s d.
      let e : d + 0 ≡ d = omega arith in
      let f : s + 0 ≡ s = omega arith in
      ap (ranged dst src (λ old new. old + new) s d 1) (sym e)
      ∙ ranged-in dst src (λ old new. old + new) s d 1 0 (omega arith)
      ∙ ap (λ t. dst t + src (s + 0)) e
      ∙ ap (λ t. dst d + src t) f;
  component-add_one_out = λ dst src s d c h.
      ranged-out dst src (λ old new. old + new) s d 1 c
        (elim h [ inl a ↦ inl a | inr b ↦ inr (omega arith) ]);
}

-- One component written, and the others as they were.
abbrev pub written : (dst : ℕ → ℕ) → (c value : ℕ) → ℕ → ℕ
written dst c value d = if d == c then value else dst d

pub written-in : (dst : ℕ → ℕ) (c value : ℕ) → written dst c value c ≡ value
written-in dst c value = let e : (c == c) ≡ true = ground arith in rw e refl

pub written-out : (dst : ℕ → ℕ) (c value d : ℕ) → d ≢ c → written dst c value d ≡ dst d
written-out dst c value d h = let e : (d == c) ≡ false = ground arith in rw e refl

abbrev pub combinations : Combinations ℕ (ℕ → ℕ) ℕ
combinations = record {
  component = λ m c. m c;
  combine = λ a x b y. a * x + b * y;
  subtract_field = λ x y. x - y;
  add_field = λ x y. x + y;
  lin_comb = λ dst a x xc b y yc d. written dst d (a * x xc + b * y yc);
  copy_one = λ dst src. src;
  add_one = λ dst src s d. written dst d (dst d + src s);
  subtract_one = λ dst src s d. written dst d (dst d - src s);
  component-lin_comb_in = λ dst x y a b xc yc d. written-in dst d (a * x xc + b * y yc);
  component-lin_comb_out = λ dst x y a b xc yc d c h. written-out dst d (a * x xc + b * y yc) c h;
  component-copy_one = λ dst src. refl;
}
