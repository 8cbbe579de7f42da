-- ===== src/Dst/Transform.antt =====
-- Execute computes a sine transform along both directions of the matrix.
use hipace.Prelude.{
  ℕ, zero, suc, ◌+◌, ◌-◌, ◌*◌, ◌/◌, ◌≤◌, ◌<◌, ◌≡◌, refl, sym, ◌∙◌, ap, ltb, Bool-cases, inl, inr,
  List, Option, some, written, arith,
}
use hipace.Reals.{Real, Signed}
use hipace.Dst.Kernels.{to_complex, to_sine, transpose}
use hipace.Dst.Complex.{IsSigned, extended, complex_of, to_complex-eq}
use hipace.Dst.Sine.{sine_of, to_sine-eq}
use hipace.Dst.Transpose.{transpose-eq}
use hipace.Dst.Execute.{
  updated, updated_from_tile, Arrays, transform_rows, transform_columns, execute_small,
}

-- A plan for real output: batch `j` of the output is the transform of batch `j` of the input, where a
-- batch of `n + 1` numbers comes from `(n + 1) / 2 + 1` complex ones.
pub record Fft (R : Type 0) : Type 0 where
  pub c2rfft : (n n_batch : ℕ) → (ℕ → R × R) → (ℕ → R) → ℕ → R
  pub fft : (n : ℕ) → (ℕ → R × R) → ℕ → R
  pub c2rfft-eq :
      (n n_batch : ℕ) (input : ℕ → R × R) (old : ℕ → R) (k j : ℕ)
      → k ≤ n
      → j < n_batch
      → c2rfft n n_batch input old (k + (n + 1) * j)
        ≡ fft n (λ i. input (i + ((n + 1) / 2 + 1) * j)) k
  pub fft_ext :
      (n : ℕ) (f g : ℕ → R × R) (k : ℕ)
      → ((i : ℕ) → i ≤ (n + 1) / 2 → f i ≡ g i)
      → fft n f k ≡ fft n g k

pub updated-eq :
    {A : Type 0} (old : ℕ → A) (writes : List (ℕ × A)) (place : ℕ) (value : A)
    → written writes place ≡ some value
    → updated old writes place ≡ value
unfolding updated
updated-eq old writes place value e = rw (updated, e) refl

updated_from_tile-eq :
    {A : Type 0} (old : ℕ → A) (writes : List (ℕ × Option A)) (place : ℕ) (value : A)
    → written writes place ≡ some (some value)
    → updated_from_tile old writes place ≡ value
unfolding updated_from_tile
updated_from_tile-eq old writes place value e = rw (updated_from_tile, e) refl

module _ {R : Type 0} ⦃real : Real R⦄ (signed : Signed R) (sinpi : (i n_1 : ℕ) → R)
    (plan : Fft R) where
  -- The transform of one row: the formulas of the comments of ToComplex and ToSine around the FFT.
  unfoldable pub sine_transform : (n : ℕ) → (ℕ → R) → ℕ → R
  sine_transform n f idx = sine_of signed sinpi n (plan.fft n (complex_of signed n f)) idx

  extended_ext :
      (n : ℕ) (f g : ℕ → R) (m : ℕ)
      → 1 ≤ n
      → ((k : ℕ) → k < n → f k ≡ g k)
      → extended signed n f m ≡ extended signed n g m
  unfolding extended
  extended_ext n f g zero h same = ap signed.negate (same 0 (omega (arith, h)))
  extended_ext n f g (suc zero) h same = refl
  extended_ext n f g (suc (suc k)) h same = elim (Bool-cases (ltb k n)) [
    | inl inside ↦ rw inside (same k (ground (arith, inside)))
    | inr out ↦ rw out (rw (same (n - 1) (omega (arith, h))) refl)
  ]

  complex_of_ext :
      (n : ℕ) (f g : ℕ → R) (i : ℕ)
      → 1 ≤ n
      → ((k : ℕ) → k < n → f k ≡ g k)
      → complex_of signed n f i ≡ complex_of signed n g i
  unfolding complex_of
  complex_of_ext n f g i h same = cc (
    extended_ext n f g (2 * i) h same,
    extended_ext n f g (2 * i + 2) h same,
    extended_ext n f g (2 * i + 1) h same,
  )

  sine_of_ext :
      (n : ℕ) (f g : ℕ → R) (idx : ℕ)
      → idx < n
      → ((k : ℕ) → k ≤ n → f k ≡ g k)
      → sine_of signed sinpi n f idx ≡ sine_of signed sinpi n g idx
  unfolding sine_of
  sine_of_ext n f g idx below same =
      cc (same (n - idx) (omega arith), same (idx + 1) (omega (arith, below)))

  sine_transform_ext :
      (n : ℕ) (f g : ℕ → R) (idx : ℕ)
      → idx < n
      → ((k : ℕ) → k < n → f k ≡ g k)
      → sine_transform n f idx ≡ sine_transform n g idx
  unfolding sine_transform
  sine_transform_ext n f g idx below same =
      sine_of_ext n (plan.fft n (complex_of signed n f)) (plan.fft n (complex_of signed n g)) idx
        below
        (λ k _.
          plan.fft_ext n (complex_of signed n f) (complex_of signed n g) k
            (λ i _. complex_of_ext n f g i (omega (arith, below)) same))

  module _ (laws : IsSigned real signed) (add_comm : (a b : R) → real.add a b ≡ real.add b a) where
    -- ToComplex, C2Rfft and ToSine: a sine transform of each batch of `n` numbers.
    batch_lem :
        (n b : ℕ) (before source pos_old real_old : ℕ → R) (comp_old : ℕ → R × R) (idx j : ℕ)
        → idx < n
        → j < b
        → updated pos_old
            (to_sine signed sinpi
              (plan.c2rfft n b (updated comp_old (to_complex signed before source n b)) real_old)
              n
              b)
            (idx + n * j)
          ≡ sine_transform n (λ k. source (k + n * j)) idx
    unfolding sine_transform
    batch_lem n b before source pos_old real_old comp_old idx j below batch =
        let comp : ℕ → R × R = updated comp_old (to_complex signed before source n b) in
        let reals : ℕ → R = plan.c2rfft n b comp real_old in
        let row : ℕ → R = λ k. source (k + n * j) in
        updated-eq pos_old (to_sine signed sinpi reals n b) (idx + n * j)
          (sine_of signed sinpi n (λ k. reals (k + (n + 1) * j)) idx)
          (to_sine-eq signed sinpi reals n b add_comm idx j below batch)
        ∙ sine_of_ext n (λ k. reals (k + (n + 1) * j)) (plan.fft n (complex_of signed n row)) idx
            below
            (λ k up.
              plan.c2rfft-eq n b comp real_old k j up batch
              ∙ plan.fft_ext n (λ i. comp (i + ((n + 1) / 2 + 1) * j)) (complex_of signed n row) k
                  (λ i le.
                    updated-eq comp_old (to_complex signed before source n b)
                      (i + ((n + 1) / 2 + 1) * j) (complex_of signed n row i)
                      (to_complex-eq signed laws before source n b i j (omega (arith, below)) le
                        batch)))

    rows_lem :
        (nx ny : ℕ) (a : Arrays R) (x y : ℕ)
        → x < nx
        → y < ny
        → (transform_rows signed sinpi plan.c2rfft nx ny a).fourier_arr (y + ny * x)
          ≡ sine_transform nx (λ k. a.pos_arr (k + nx * y)) x
    unfolding transform_rows
    rows_lem nx ny a x y hx hy =
        let after = (transform_rows signed sinpi plan.c2rfft nx ny a).pos_arr in
        let out : x * ny + y ≡ y + ny * x = grind arith in
        let inp : y * nx + x ≡ x + nx * y = grind arith in
        ap (updated_from_tile a.fourier_arr (transpose after nx ny)) (sym out)
        ∙ updated_from_tile-eq a.fourier_arr (transpose after nx ny) (x * ny + y)
            (after (y * nx + x)) (transpose-eq after nx ny x y hx hy)
        ∙ ap after inp
        ∙ batch_lem nx ny a.before_pos_arr a.pos_arr a.pos_arr a.real_arr a.comp_arr x y hx hy

    columns_lem :
        (nx ny : ℕ) (a : Arrays R) (x y : ℕ)
        → x < nx
        → y < ny
        → (transform_columns signed sinpi plan.c2rfft nx ny a).fourier_arr (x + nx * y)
          ≡ sine_transform ny (λ k. a.fourier_arr (k + ny * x)) y
    unfolding transform_columns
    columns_lem nx ny a x y hx hy =
        let after = (transform_columns signed sinpi plan.c2rfft nx ny a).pos_arr in
        let out : y * nx + x ≡ x + nx * y = grind arith in
        let inp : x * ny + y ≡ y + ny * x = grind arith in
        ap (updated_from_tile a.fourier_arr (transpose after ny nx)) (sym out)
        ∙ updated_from_tile-eq a.fourier_arr (transpose after ny nx) (y * nx + x)
            (after (x * ny + y)) (transpose-eq after ny nx y x hy hx)
        ∙ ap after inp
        ∙ batch_lem ny nx a.before_fourier_arr a.fourier_arr a.pos_arr a.real_arr a.comp_arr y x hy
            hx

    -- With the small transform, Execute leaves in the target array, at every place of the matrix, the sine
    -- transform along y of the sine transforms along x of the source array; the transform of a row is the
    -- one of the comments of ToComplex and ToSine, with the FFT between them. This holds for every size of
    -- the matrix and whatever the arrays held before, if products with 1, -1 and 0 are what they are for
    -- numbers and the addition is commutative.
    pub execute_small-eq :
        (nx ny : ℕ) (a : Arrays R) (x y : ℕ)
        → x < nx
        → y < ny
        → (execute_small signed sinpi plan.c2rfft nx ny a).fourier_arr (x + nx * y)
          ≡ sine_transform ny (λ k. sine_transform nx (λ i. a.pos_arr (i + nx * k)) x) y
    unfolding execute_small
    execute_small-eq nx ny a x y hx hy =
        columns_lem nx ny (transform_rows signed sinpi plan.c2rfft nx ny a) x y hx hy
        ∙ sine_transform_ext ny _ _ y hy (λ k below. rows_lem nx ny a x k hx below)
