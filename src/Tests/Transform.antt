-- ===== src/Tests/Transform.antt =====
-- The theorems on the sine transform at a concrete input: numbers modulo 2, and matrices of a few rows.
use native.Mathlib.Nat.{mul-add-div_right, div-eq_of_lt, mod-lt, mul-le-mul}
use hipace.Prelude.{
  ℕ, zero, suc, ◌+◌, ◌*◌, ◌/◌, ◌%◌, ◌≤◌, ◌<◌, ◌≡◌, refl, ◌∙◌, ap, Bool, true, false, ◌&&◌, ◌||◌,
  not, ltb, some, ℤ, pos, negsuc, written, arith,
}
use hipace.Reals.{Real, Signed}
use hipace.Dst.{Arrays, execute_small, transpose, ExpandedArrays, execute_expanded}
use hipace.Dst.Expanded.{Fft2d, HasEdges, odd_extension, execute_expanded-eq}
use hipace.Dst.Complex.{IsSigned}
use hipace.Dst.Transpose.{transpose-eq}
use hipace.Dst.Transform.{Fft, sine_transform, execute_small-eq}

abbrev xor : Bool → Bool → Bool
xor true b = not b
xor false b = b

abbrev modulo_2 : Real Bool
modulo_2 = record {
  add = xor;
  sub = xor;
  mul = ◌&&◌;
  div = ◌&&◌;
  lt = λ a b. false;
  le = λ a b. true;
  eq = λ a b. true;
  of_int = λ n. true;
}

abbrev odd_sign : ℤ → Bool
odd_sign (pos zero) = false
odd_sign (pos (suc n)) = true
odd_sign (negsuc n) = true

abbrev signed : Signed Bool
signed = record { negate = λ a. a; of_signed = odd_sign; half = true }

laws : IsSigned modulo_2 signed
laws = record {
  mul-one = λ x. elim x as (λ b. (b && true) ≡ b) [ true ↦ refl | false ↦ refl ];
  mul-minus_one = λ x. elim x as (λ b. (b && true) ≡ b) [ true ↦ refl | false ↦ refl ];
  mul-zero = λ x. elim x as (λ b. (b && false) ≡ false) [ true ↦ refl | false ↦ refl ];
}

xor_comm : (a b : Bool) → xor a b ≡ xor b a
xor_comm true true = refl
xor_comm true false = refl
xor_comm false true = refl
xor_comm false false = refl

abbrev middle : (n : ℕ) → (ℕ → Bool × Bool) → ℕ → Bool
middle n input j = (input ((n + 1) / 2 + ((n + 1) / 2 + 1) * j)).0

first_of_batch :
    (n : ℕ) (input : ℕ → Bool × Bool) (k j : ℕ)
    → k ≤ n
    → middle n input ((k + (n + 1) * j) / (n + 1)) ≡ middle n input j
first_of_batch n input k j h =
    let turned : k + (n + 1) * j ≡ j * (n + 1) + k = grind arith in
    let quotient : (k + (n + 1) * j) / (n + 1) ≡ j =
      ap (λ t. t / (n + 1)) turned
      ∙ mul-add-div_right (omega arith) j k
      ∙ omega (arith, div-eq_of_lt {n = k} {m = n + 1} (omega (arith, h))) in
    ap (middle n input) quotient

abbrev plan : Fft Bool
plan = record {
  c2rfft =
      λ n n_batch input old place. (input ((n + 1) / 2 + ((n + 1) / 2 + 1) * (place / (n + 1)))).0;
  fft = λ n input k. (input ((n + 1) / 2)).0;
  c2rfft-eq = λ n n_batch input old k j h below. first_of_batch n input k j h;
  fft_ext = λ n f g k same. ap (λ (c : Bool × Bool). c.0) (same ((n + 1) / 2) (omega arith));
}

abbrev arrays : Arrays Bool
arrays = record {
  pos_arr = λ k. ltb k 3;
  fourier_arr = λ k. false;
  comp_arr = λ k. (false, false);
  real_arr = λ k. false;
  before_pos_arr = λ k. true;
  before_fourier_arr = λ k. true;
}

abbrev sinpi : ℕ → ℕ → Bool
sinpi i n = true

execute_small-eq_example :
    (execute_small ⦃real = modulo_2⦄ signed sinpi plan.c2rfft 2 3 arrays).fourier_arr (1 + 2 * 2)
    ≡ sine_transform ⦃real = modulo_2⦄ signed sinpi plan 3
        (λ k.
          sine_transform ⦃real = modulo_2⦄ signed sinpi plan 2 (λ i. arrays.pos_arr (i + 2 * k)) 1)
        2
execute_small-eq_example =
    execute_small-eq ⦃real = modulo_2⦄ signed sinpi plan laws xor_comm 2 3 arrays 1 2 (omega arith)
      (omega arith)

transpose-eq_example : written (transpose (λ k. k) 40 2) (33 * 2 + 1) ≡ some (some (1 * 40 + 33))
transpose-eq_example = transpose-eq (λ k. k) 40 2 33 1 (omega arith) (omega arith)

abbrev expanded_size : ℕ → ℕ → ℕ
expanded_size nx ny = (2 * nx + 2) * (2 * ny + 2)

expanded_size-positive : (nx ny : ℕ) → zero < expanded_size nx ny
expanded_size-positive nx ny =
    let product : 1 * 1 ≤ expanded_size nx ny =
      mul-le-mul {n₁ = 1} {m₁ = 1} {n₂ = 2 * nx + 2} {m₂ = 2 * ny + 2} (omega arith)
        (omega arith) in
    omega (arith, product)

abbrev plan_2d : Fft2d Bool
plan_2d = record {
  r2c = λ nx ny f k. (f (k % expanded_size nx ny), false);
  r2c_ext = λ nx ny f g k same h.
      ap (λ (v : Bool). (v, false))
        (same (k % expanded_size nx ny) (mod-lt k (expanded_size-positive nx ny)));
}

abbrev expanded_arrays : ExpandedArrays Bool
expanded_arrays = record {
  position_array = λ i j. ltb i 1;
  fourier_array = λ i j. false;
  expanded_position_array = λ place. false;
  expanded_fourier_array = λ place. (false, false);
}

execute_expanded-eq_example :
    ((execute_expanded signed plan_2d.r2c 2 3 expanded_arrays).fourier_array 1 2
      ≡ signed.negate
          (plan_2d.r2c 2 3
            (odd_extension signed false expanded_arrays.position_array 2 3)
            (1 + 1 + (2 + 2) * (2 + 1))).0)
    × HasEdges false 2 3
        (execute_expanded signed plan_2d.r2c 2 3 expanded_arrays).expanded_position_array
execute_expanded-eq_example =
    execute_expanded-eq signed plan_2d false 2 3 expanded_arrays 1 2 (λ a b h k edge. refl)
      (omega arith) (omega arith)

abbrev one_row : ℕ → Bool
one_row k = ltb k 1

abbrev one_row_and_beyond : ℕ → Bool
one_row_and_beyond k = ltb k 1 || ltb 7 k
