-- ===== src/Dst/Complex.antt =====
-- ToComplex computes the formula of its comment, for every element.
use hipace.Prelude.{
  ℕ, zero, suc, ◌+◌, ◌-◌, ◌*◌, ◌/◌, ◌%◌, ◌≤◌, ◌<◌, ◌≡◌, refl, sym, ◌∙◌, ap, subst, true, false,
  if◌then◌else◌, ltb, leb, sub_ℕ, ◌==◌, Bool-cases, inl, inr, List, [], ◌∷◌, some, written,
  AgreesAt, All, place_unique, arith, pos, negsuc,
}
use hipace.Reals.{Real, Signed}
use hipace.Dst.Loops.{parallel_for-eq}
use hipace.Dst.Kernels.{read_at, sign, unless, number, to_complex_odd, to_complex_even, to_complex}

-- The laws of arithmetic that the formula of ToComplex stands on: the products with 1, -1 and 0.
pub record IsSigned {R : Type 0} (real : Real R) (signed : Signed R) : Type 0 where
  pub mul-one : (x : R) → real.mul x (signed.of_signed (pos 1)) ≡ x
  pub mul-minus_one : (x : R) → real.mul x (signed.of_signed (negsuc 0)) ≡ signed.negate x
  pub mul-zero : (x : R) → real.mul x (signed.of_signed (pos 0)) ≡ signed.of_signed (pos 0)

-- A column of the input, from index -2 on: in[-2] = -in[0], in[-1] = 0, in[n_data] = 0 and
-- in[n_data+1] = -in[n_data-1].
unfoldable pub extended :
    {R : Type 0} (signed : Signed R) (n_data : ℕ) (column : ℕ → R) (from_minus_two : ℕ) → R
extended signed n_data column zero = signed.negate (column 0)
extended signed n_data column (suc zero) = signed.of_signed (pos 0)
extended signed n_data column (suc (suc k)) =
    if ltb k n_data
    then column k
    else if k == n_data
    then signed.of_signed (pos 0)
    else signed.negate (column (n_data - 1))

-- -in[2*idx-2] + in[2*idx] + i*in[2*idx-1], for a column of the input.
unfoldable pub complex_of :
    {R : Type 0} ⦃real : Real R⦄ (signed : Signed R) (n_data : ℕ) (column : ℕ → R) (i : ℕ) → R × R
complex_of ⦃real⦄ signed n_data column i = (
  real.add (signed.negate (extended signed n_data column (2 * i)))
      (extended signed n_data column (2 * i + 2)),
  extended signed n_data column (2 * i + 1),
)

module _ {R : Type 0} ⦃real : Real R⦄ (signed : Signed R) (laws : IsSigned real signed)
    (outside input : ℕ → R) (n_data n_batch : ℕ) where
  -- Column `j` of the input.
  abbrev column : ℕ → ℕ → R
  column j k = input (k + n_data * j)

  abbrev element : (i j : ℕ) → R × R
  element i j = complex_of signed n_data (column j) i

  -- A read that is not in front of the array.
  read_at-eq :
      (index back place : ℕ)
      → index ≡ place + back
      → read_at outside input (sub_ℕ index back) ≡ input place
  unfolding read_at
  read_at-eq index back place e =
      let inside : leb back index ≡ true = ground arith in
      let same : index - back ≡ place = omega (arith, e) in rw (inside, same) refl

  extended_first :
      (j m : ℕ)
      → m ≡ 0
      → extended signed n_data (column j) m ≡ signed.negate (input (0 + n_data * j))
  unfolding extended
  extended_first j zero h = refl
  extended_first j (suc m) h = absurd (omega (arith, h))

  extended_second :
      (j m : ℕ) → m ≡ 1 → extended signed n_data (column j) m ≡ signed.of_signed (pos 0)
  unfolding extended
  extended_second j zero h = absurd (omega (arith, h))
  extended_second j (suc zero) h = refl
  extended_second j (suc (suc m)) h = absurd (omega (arith, h))

  extended_inside :
      (j m k : ℕ)
      → m ≡ k + 2
      → k < n_data
      → extended signed n_data (column j) m ≡ input (k + n_data * j)
  unfolding extended
  extended_inside j zero k h below = absurd (omega (arith, h))
  extended_inside j (suc zero) k h below = absurd (omega (arith, h))
  extended_inside j (suc (suc m)) k h below =
      let e : ltb m n_data ≡ true = ground arith in
      let same : m ≡ k = omega (arith, h) in rw (e, same) refl

  extended_end :
      (j m : ℕ) → m ≡ n_data + 2 → extended signed n_data (column j) m ≡ signed.of_signed (pos 0)
  unfolding extended
  extended_end j zero h = absurd (omega (arith, h))
  extended_end j (suc zero) h = absurd (omega (arith, h))
  extended_end j (suc (suc k)) h =
      let e : ltb k n_data ≡ false = ground arith in
      let e' : (k == n_data) ≡ true = ground arith in rw (e, e') refl

  extended_behind :
      (j m : ℕ)
      → m ≡ n_data + 3
      → extended signed n_data (column j) m ≡ signed.negate (input (n_data - 1 + n_data * j))
  unfolding extended
  extended_behind j zero h = absurd (omega (arith, h))
  extended_behind j (suc zero) h = absurd (omega (arith, h))
  extended_behind j (suc (suc k)) h =
      let e : ltb k n_data ≡ false = ground arith in
      let e' : (k == n_data) ≡ false = ground arith in rw (e, e') refl

  element_eq :
      (place : ℕ) {a a' b b' c c' : R}
      → a ≡ a'
      → b ≡ b'
      → c ≡ c'
      → ◌≡◌ {A = List (ℕ × (R × R))}
          ((place, (real.add a b, c)) ∷ [])
          ((place, (real.add a' b', c')) ∷ [])
  element_eq place p q r = cc

  -- -in[2*idx-2], in the first column of `out` and in the others.
  left_first :
      (i j : ℕ)
      → i ≡ 0
      → real.mul
          (signed.negate (read_at outside input (sub_ℕ (2 * i + 2 + n_data * j) 2)))
          (signed.of_signed (negsuc 0))
        ≡ signed.negate (extended signed n_data (column j) (2 * i))
  left_first i j h =
      laws.mul-minus_one _
      ∙ ap (λ t. signed.negate (signed.negate t))
          (read_at-eq (2 * i + 2 + n_data * j) 2 (0 + n_data * j) (omega (arith, h)))
      ∙ ap signed.negate (sym (extended_first j (2 * i) (omega (arith, h))))

  left_later :
      (i j : ℕ)
      → 1 ≤ i
      → 2 * i ≤ n_data + 1
      → real.mul
          (signed.negate (read_at outside input (sub_ℕ (2 * i + 0 + n_data * j) 2)))
          (signed.of_signed (pos 1))
        ≡ signed.negate (extended signed n_data (column j) (2 * i))
  left_later i j h below =
      laws.mul-one _
      ∙ ap signed.negate
          (read_at-eq (2 * i + 0 + n_data * j) 2 (2 * i - 2 + n_data * j) (omega (arith, h)))
      ∙ ap signed.negate
          (sym (extended_inside j (2 * i) (2 * i - 2) (omega (arith, h)) (omega (arith, h, below))))

  -- in[2*idx], where it is in the column.
  right_inside :
      (i j : ℕ)
      → 2 * i < n_data
      → real.mul (read_at outside input (sub_ℕ (2 * i + n_data * j) 0)) (signed.of_signed (pos 1))
        ≡ extended signed n_data (column j) (2 * i + 2)
  right_inside i j below =
      laws.mul-one _
      ∙ read_at-eq (2 * i + n_data * j) 0 (2 * i + n_data * j) (omega arith)
      ∙ sym (extended_inside j (2 * i + 2) (2 * i) (omega arith) below)

  odd-eq :
      (h i j : ℕ)
      → 2 * h ≡ n_data + 1
      → i ≤ h
      → to_complex_odd signed outside input n_data n_batch h i j
        ≡ (i + (h + 1) * j, element i j) ∷ []
  unfolding to_complex_odd complex_of sign unless number
  odd-eq h i j odd le = elim (Bool-cases (i == 0)) [
    | inl first ↦
        let zeroth : i ≡ 0 = ground arith in
        let other : (i == h) ≡ false = ground arith in
        rw (first, other)
          (element_eq (i + (h + 1) * j) (left_first i j zeroth)
            (right_inside i j (omega (arith, zeroth, odd)))
            (laws.mul-one _
              ∙ laws.mul-zero _
              ∙ sym (extended_second j (2 * i + 1) (omega (arith, zeroth)))))
    | inr later ↦
        let positive : 1 ≤ i = ground arith in
        elim (Bool-cases (i == h)) [
          | inl last ↦
              let at_end : i ≡ h = ground arith in
              rw (later, last)
                (element_eq (i + (h + 1) * j) (left_later i j positive (omega (arith, at_end, odd)))
                  (laws.mul-minus_one _
                    ∙ ap signed.negate (
                        read_at-eq (2 * i + n_data * j) 2 (n_data - 1 + n_data * j)
                          (omega (arith, at_end, odd)))
                    ∙ sym (extended_behind j (2 * i + 2) (omega (arith, at_end, odd))))
                  (laws.mul-zero _ ∙ sym (extended_end j (2 * i + 1) (omega (arith, at_end, odd)))))
          | inr between ↦
              let below : i < h = ground arith in
              rw (later, between)
                (element_eq (i + (h + 1) * j) (left_later i j positive (omega (arith, below, odd)))
                  (right_inside i j (omega (arith, below, odd)))
                  (laws.mul-one _
                    ∙ laws.mul-one _
                    ∙ read_at-eq (2 * i + 0 + n_data * j) 1 (2 * i - 1 + n_data * j)
                        (omega (arith, positive))
                    ∙ sym (
                        extended_inside j (2 * i + 1) (2 * i - 1) (omega (arith, positive))
                          (omega (arith, below, odd)))))
        ]
  ]

  even-eq :
      (h i j : ℕ)
      → 2 * h ≡ n_data
      → 1 ≤ n_data
      → i ≤ h
      → to_complex_even signed outside input n_data n_batch h i j
        ≡ (i + (h + 1) * j, element i j) ∷ []
  unfolding to_complex_even complex_of sign unless number
  even-eq h i j even some_rows le = elim (Bool-cases (i == 0)) [
    | inl first ↦
        let zeroth : i ≡ 0 = ground arith in
        let other : (i == h) ≡ false = ground arith in
        rw (first, other)
          (element_eq (i + (h + 1) * j) (left_first i j zeroth)
            (right_inside i j (omega (arith, zeroth, some_rows)))
            (laws.mul-zero _ ∙ sym (extended_second j (2 * i + 1) (omega (arith, zeroth)))))
    | inr later ↦
        let positive : 1 ≤ i = ground arith in
        let imaginary : real.mul (read_at outside input (sub_ℕ (2 * i + 0 + n_data * j) 1))
              (signed.of_signed (pos 1))
            ≡ extended signed n_data (column j) (2 * i + 1) =
          laws.mul-one _
          ∙ read_at-eq (2 * i + 0 + n_data * j) 1 (2 * i - 1 + n_data * j) (omega (arith, positive))
          ∙ sym (
              extended_inside j (2 * i + 1) (2 * i - 1) (omega (arith, positive))
                (omega (arith, positive, le, even))) in
        elim (Bool-cases (i == h)) [
          | inl last ↦
              let at_end : i ≡ h = ground arith in
              rw (later, last)
                (element_eq (i + (h + 1) * j)
                  (left_later i j positive (omega (arith, at_end, even)))
                  (laws.mul-zero _ ∙ sym (extended_end j (2 * i + 2) (omega (arith, at_end, even))))
                  imaginary)
          | inr between ↦
              let below : i < h = ground arith in
              rw (later, between)
                (element_eq (i + (h + 1) * j) (left_later i j positive (omega (arith, below, even)))
                  (right_inside i j (omega (arith, below, even))) imaginary)
        ]
  ]

  single_agrees :
      (h i j i' j' : ℕ) {kernel : List (ℕ × (R × R))}
      → i ≤ h
      → i' ≤ h
      → kernel ≡ (i' + (h + 1) * j', element i' j') ∷ []
      → All (AgreesAt (i + (h + 1) * j) (element i j)) kernel
  single_agrees h i j i' j' le le' e =
      subst (All (AgreesAt (i + (h + 1) * j) (element i j))) (sym e) (
        λ same.
            let turned : j' * (h + 1) + i' ≡ j * (h + 1) + i = grind (arith, same) in
            let (column, row) =
              place_unique (h + 1) j' i' j i (omega (arith, le')) (omega (arith, le)) turned in
            cc,
        tt,
      )

  -- ToComplex computes the formula of its comment: for each row idx of `out` and each column, the real
  -- part is -in[2*idx-2] + in[2*idx] and the imaginary part is in[2*idx-1], where in[-1] and in[n_data]
  -- are 0, in[-2] is -in[0] and in[n_data+1] is -in[n_data-1]. This holds for every number of rows, odd or
  -- even, but 0, if products with 1, -1 and 0 are what they are for numbers.
  pub to_complex-eq :
      (i j : ℕ)
      → 1 ≤ n_data
      → i ≤ (n_data + 1) / 2
      → j < n_batch
      → written (to_complex signed outside input n_data n_batch) (i + ((n_data + 1) / 2 + 1) * j)
        ≡ some (complex_of signed n_data (λ k. input (k + n_data * j)) i)
  unfolding to_complex
  to_complex-eq i j some_rows le below =
      let h = (n_data + 1) / 2 in
      elim (Bool-cases (n_data % 2 == 1)) [
        | inl odd ↦
            let twice : 2 * h ≡ n_data + 1 = ground (arith, odd) in
            rw odd (
              parallel_for-eq 0 (h + 1) n_batch
                (to_complex_odd signed outside input n_data n_batch h) (i + (h + 1) * j)
                (element i j) i j (omega arith) (omega (arith, le)) below
                (rw (odd-eq h i j twice le) (inl refl))
                (λ i' j' _ high _.
                  single_agrees h i j i' j' le (omega (arith, high))
                    (odd-eq h i' j' twice (omega (arith, high)))))
        | inr even ↦
            let twice : 2 * h ≡ n_data = ground (arith, even) in
            rw even (
              parallel_for-eq 0 (h + 1) n_batch
                (to_complex_even signed outside input n_data n_batch h) (i + (h + 1) * j)
                (element i j) i j (omega arith) (omega (arith, le)) below
                (rw (even-eq h i j twice some_rows le) (inl refl))
                (λ i' j' _ high _.
                  single_agrees h i j i' j' le (omega (arith, high))
                    (even-eq h i' j' twice some_rows (omega (arith, high)))))
      ]
