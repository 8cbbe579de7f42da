-- ===== src/Dst/Execute.antt =====
-- AnyDST::Execute: for the small transform, a sine transform of every row of the matrix, and then of every
-- column; for the other one, the transform of an expanded array.
use hipace.Prelude.{ℕ, max, ◌/◌, ◌+◌, ◌*◌, List, Option, some, none, written}
use hipace.Reals.{Real, Signed}
use hipace.Dst.Kernels.{to_complex, to_sine, transpose, expand_r2r, shrink_c2r}

-- An array behind the writes of a kernel.
unfoldable pub updated : {A : Type 0} → (old : ℕ → A) → List (ℕ × A) → ℕ → A
updated old writes place = elim (written writes place) [ some value ↦ value | none ↦ old place ]

-- An array behind the writes of Transpose; a place of the tile that was not written holds anything, here
-- what was in the array.
unfoldable pub updated_from_tile : {A : Type 0} → (old : ℕ → A) → List (ℕ × Option A) → ℕ → A
updated_from_tile old writes place = elim (written writes place) [
  | some (some value) ↦ value
  | some none ↦ old place
  | none ↦ old place
]

-- The arrays of a DSTplan: tmp_pos_arr and tmp_fourier_arr, in the order of the direction, with comp_arr
-- and real_arr.
pub record Arrays (R : Type 0) : Type 0 where
  pub pos_arr : ℕ → R
  pub fourier_arr : ℕ → R
  pub comp_arr : ℕ → R × R
  pub real_arr : ℕ → R
  -- What stands in front of pos_arr and fourier_arr: anything at all.
  pub before_pos_arr : ℕ → R
  pub before_fourier_arr : ℕ → R

module _ {R : Type 0} ⦃real : Real R⦄ (signed : Signed R) (sinpi : (i n_1 : ℕ) → R)
    (c2rfft : (n n_batch : ℕ) → (ℕ → R × R) → (ℕ → R) → ℕ → R) where
  -- ToComplex(pos_arr), C2Rfft, ToSine and Transpose, along the rows of the position array.
  unfoldable pub transform_rows : (nx ny : ℕ) → Arrays R → Arrays R
  transform_rows nx ny a =
      let comp = updated a.comp_arr (to_complex signed a.before_pos_arr a.pos_arr nx ny) in
      let reals = c2rfft nx ny comp a.real_arr in
      let pos = updated a.pos_arr (to_sine signed sinpi reals nx ny) in
      record {
        pos_arr = pos;
        fourier_arr = updated_from_tile a.fourier_arr (transpose pos nx ny);
        comp_arr = comp;
        real_arr = reals;
        before_pos_arr = a.before_pos_arr;
        before_fourier_arr = a.before_fourier_arr;
      }

  -- ToComplex(fourier_arr), C2Rfft, ToSine and Transpose, along the rows of the transposed array.
  unfoldable pub transform_columns : (nx ny : ℕ) → Arrays R → Arrays R
  transform_columns nx ny a =
      let comp = updated a.comp_arr (to_complex signed a.before_fourier_arr a.fourier_arr ny nx) in
      let reals = c2rfft ny nx comp a.real_arr in
      let pos = updated a.pos_arr (to_sine signed sinpi reals ny nx) in
      record {
        pos_arr = pos;
        fourier_arr = updated_from_tile a.fourier_arr (transpose pos ny nx);
        comp_arr = comp;
        real_arr = reals;
        before_pos_arr = a.before_pos_arr;
        before_fourier_arr = a.before_fourier_arr;
      }

  -- Execute with use_small_dst.
  unfoldable pub execute_small : (nx ny : ℕ) → Arrays R → Arrays R
  execute_small nx ny a = transform_columns nx ny (transform_rows nx ny a)

-- The arrays of a DSTplan without use_small_dst: position_array and fourier_array, in the order of the
-- direction and by their two indices, and m_expanded_position_array and m_expanded_fourier_array, row
-- after row.
pub record ExpandedArrays (R : Type 0) : Type 0 where
  pub position_array : ℕ → ℕ → R
  pub fourier_array : ℕ → ℕ → R
  pub expanded_position_array : ℕ → R
  pub expanded_fourier_array : ℕ → R × R

module _ {R : Type 0} (signed : Signed R) (r2c : (nx ny : ℕ) → (ℕ → R) → ℕ → R × R) where
  -- Execute without use_small_dst; `r2c nx ny` is cufftExecR2C for the plan of the two lengths, into rows
  -- of nx+2 elements.
  unfoldable pub execute_expanded : (nx ny : ℕ) → ExpandedArrays R → ExpandedArrays R
  execute_expanded nx ny a =
      let expanded = updated a.expanded_position_array (expand_r2r signed a.position_array nx ny) in
      let fourier = r2c nx ny expanded in
      record {
        position_array = a.position_array;
        fourier_array = shrink_c2r signed (λ i j. fourier (i + (nx + 2) * j));
        expanded_position_array = expanded;
        expanded_fourier_array = fourier;
      }

-- The lengths of m_expanded_position_array and m_expanded_fourier_array with use_small_dst.
unfoldable pub real_1d_size : (nx ny : ℕ) → ℕ
real_1d_size nx ny = max ((nx + 1) * ny) ((ny + 1) * nx)

unfoldable pub complex_1d_size : (nx ny : ℕ) → ℕ
complex_1d_size nx ny = max (((nx + 1) / 2 + 1) * ny) (((ny + 1) / 2 + 1) * nx)
