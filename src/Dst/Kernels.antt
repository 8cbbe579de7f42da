-- ===== src/Dst/Kernels.antt =====
-- The kernels, as the writes of their threads.
use hipace.Prelude.{
  ℕ, ◌+◌, ◌-◌, ◌*◌, ◌/◌, ◌%◌, Bool, ◌&&◌, if◌then◌else◌, ltb, List, [], ◌∷◌, Option, gather,
  range_from, written, ℤ, pos, negsuc, sub_ℕ, ◌==◌,
}
use hipace.Reals.{Real, Signed}

-- constexpr int tile_dim = 32 and block_rows = 8.
abbrev pub tile_dim : ℕ
tile_dim = 32

abbrev pub block_rows : ℕ
block_rows = 8

-- `for (int i = 0; i < tile_dim; i += block_rows)`.
abbrev pub row_starts : List ℕ
row_starts = 0 ∷ 8 ∷ 16 ∷ 24 ∷ []

module _ {R : Type 0} (input : ℕ → R) (n_data n_batch : ℕ) where
  -- The first loop of a thread: one element of the input for each round, if it is in the matrix.
  unfoldable pub load_tile : (block_x block_y thread_x thread_y i : ℕ) → List (ℕ × R)
  load_tile block_x block_y thread_x thread_y i =
      let mat_x = block_x * tile_dim + thread_x in
      let mat_y = block_y * tile_dim + thread_y in
      if ltb mat_x n_data && ltb (mat_y + i) n_batch
      then ((thread_y + i) * (tile_dim + 1) + thread_x, input ((mat_y + i) * n_data + mat_x)) ∷ []
      else []

  -- The second loop, behind __syncthreads(), from the block's tile.
  unfoldable pub store_tile :
      (tile : ℕ → Option R) (block_x block_y thread_x thread_y i : ℕ) → List (ℕ × Option R)
  store_tile tile block_x block_y thread_x thread_y i =
      let mat_x = block_y * tile_dim + thread_x in
      let mat_y = block_x * tile_dim + thread_y in
      if ltb mat_x n_batch && ltb (mat_y + i) n_data
      then ((mat_y + i) * n_batch + mat_x, tile (thread_x * (tile_dim + 1) + thread_y + i)) ∷ []
      else []

  -- The threads of a block: threadIdx.x&(tile_dim-1) and threadIdx.x/tile_dim.
  unfoldable pub load_block : (block_x block_y : ℕ) → List (ℕ × R)
  load_block block_x block_y =
      gather
        (λ thread.
          gather (load_tile block_x block_y (thread % tile_dim) (thread / tile_dim)) row_starts)
        (range_from 0 (tile_dim * block_rows))

  unfoldable pub store_block : (tile : ℕ → Option R) (block_x block_y : ℕ) → List (ℕ × Option R)
  store_block tile block_x block_y =
      gather
        (λ thread.
          gather (store_tile tile block_x block_y (thread % tile_dim) (thread / tile_dim))
            row_starts)
        (range_from 0 (tile_dim * block_rows))

  -- A block: a place of the tile that no thread has written holds `none`.
  unfoldable pub transpose_block : (block num_blocks_x : ℕ) → List (ℕ × Option R)
  transpose_block block num_blocks_x =
      let block_y = block / num_blocks_x in
      let block_x = block - block_y * num_blocks_x in
      store_block (written (load_block block_x block_y)) block_x block_y

  -- Transpose: the writes of all blocks to `out`.
  unfoldable pub transpose : List (ℕ × Option R)
  transpose =
      let num_blocks_x = (n_data + tile_dim - 1) / tile_dim in
      let num_blocks_y = (n_batch + tile_dim - 1) / tile_dim in
      gather (λ block. transpose_block block num_blocks_x)
        (range_from 0 (num_blocks_x * num_blocks_y))

-- A number of rows and columns that a kernel runs on: ParallelFor over `first` to `last`, for each of the
-- batches.
unfoldable pub parallel_for : {W : Type 0} → (first n n_batch : ℕ) → (ℕ → ℕ → List W) → List W
parallel_for first n n_batch kernel =
    gather (λ j. gather (λ i. kernel i j) (range_from first n)) (range_from 0 n_batch)

-- `(1-2*flag)` and `!flag` as factors, and a flag as a number.
unfoldable pub sign : Bool → ℤ
sign flag = if flag then negsuc 0 else pos 1

unfoldable pub unless : Bool → ℤ
unless flag = if flag then pos 0 else pos 1

unfoldable pub number : Bool → ℕ
number flag = if flag then 1 else 0

-- The element of an array at an index, which may be negative: `outside n` is what stands n + 1 elements
-- before the array, anything at all.
unfoldable pub read_at : {R : Type 0} → (outside : ℕ → R) (input : ℕ → R) → ℤ → R
read_at outside input (pos index) = input index
read_at outside input (negsuc n) = outside n

module _ {R : Type 0} ⦃real : Real R⦄ (signed : Signed R) (outside input : ℕ → R)
    (n_data n_batch : ℕ) where
  -- The kernel of ToComplex for an odd number of rows.
  unfoldable pub to_complex_odd : (n_half i j : ℕ) → List (ℕ × (R × R))
  to_complex_odd n_half i j =
      let stride_in = n_data * j in
      let is_zero = i == 0 in
      let is_n_half = i == n_half in
      (
        i + (n_half + 1) * j,
        (
          real.add
              (real.mul
                (signed.negate
                  (read_at outside input (sub_ℕ (2 * i + 2 * number is_zero + stride_in) 2)))
                (signed.of_signed (sign is_zero)))
              (real.mul (read_at outside input (sub_ℕ (2 * i + stride_in) (2 * number is_n_half)))
                (signed.of_signed (sign is_n_half))),
          real.mul
              (real.mul
                (read_at outside input
                  (sub_ℕ (2 * i + number is_zero + stride_in) (1 + number is_n_half)))
                (signed.of_signed (unless is_zero)))
              (signed.of_signed (unless is_n_half)),
        ),
      )
      ∷ []

  -- The kernel for an even number of rows.
  unfoldable pub to_complex_even : (n_half i j : ℕ) → List (ℕ × (R × R))
  to_complex_even n_half i j =
      let stride_in = n_data * j in
      let is_zero = i == 0 in
      let is_n_half = i == n_half in
      (
        i + (n_half + 1) * j,
        (
          real.add
              (real.mul
                (signed.negate
                  (read_at outside input (sub_ℕ (2 * i + 2 * number is_zero + stride_in) 2)))
                (signed.of_signed (sign is_zero)))
              (real.mul (read_at outside input (sub_ℕ (2 * i + stride_in) (number is_n_half)))
                (signed.of_signed (unless is_n_half))),
          real.mul (read_at outside input (sub_ℕ (2 * i + number is_zero + stride_in) 1))
              (signed.of_signed (unless is_zero)),
        ),
      )
      ∷ []

  -- ToComplex: the real and the imaginary part of each element of `out`.
  unfoldable pub to_complex : List (ℕ × (R × R))
  to_complex =
      let n_half = (n_data + 1) / 2 in
      parallel_for 0 (n_half + 1) n_batch
        (if n_data % 2 == 1 then to_complex_odd n_half else to_complex_even n_half)

module _ {R : Type 0} ⦃real : Real R⦄ (signed : Signed R) (sinpi : (i n_1 : ℕ) → R) (input : ℕ → R)
    (n_data n_batch : ℕ) where
  -- The kernel of ToSine; `sinpi i n_1` is sinpi(i/n_1_real). With `i` from 1 to (n_data+1)/2 no difference is
  -- negative.
  unfoldable pub to_sine_kernel : (i j : ℕ) → List (ℕ × R)
  to_sine_kernel i j =
      let n_1 = n_data + 1 in
      let i_rev = n_1 - i in
      let stride_in = n_1 * j in
      let stride_out = n_data * j in
      let in_a = input (i + stride_in) in
      let in_b = input (i_rev + stride_in) in
      (
        i - 1 + stride_out,
        real.mul signed.half (
            real.add (real.sub in_b in_a)
              (real.div (real.add in_a in_b) (real.mul (real.of_int 2) (sinpi i n_1)))),
      )
      ∷ (
        i_rev - 1 + stride_out,
        real.mul signed.half (
            real.add (real.sub in_a in_b)
              (real.div (real.add in_a in_b) (real.mul (real.of_int 2) (sinpi i_rev n_1)))),
      )
      ∷ []

  -- ToSine.
  unfoldable pub to_sine : List (ℕ × R)
  to_sine = parallel_for 1 ((n_data + 1) / 2) n_batch to_sine_kernel

-- The expanded transform. Indices are those from the lower corner of the arrays' boxes on, which the code
-- shifts alike; `src i j` is element (i, j), and a place of the expanded array counts its rows one
-- after another.
module _ {R : Type 0} (signed : Signed R) (src : ℕ → ℕ → R) (nx ny : ℕ) where
  -- 2*nx+2, the length of a row of m_expanded_position_array.
  abbrev pub expanded_nx : ℕ
  expanded_nx = 2 * nx + 2

  -- The four quadrants that the kernel of ExpandR2R writes.
  unfoldable pub expand_kernel : (i j : ℕ) → List (ℕ × R)
  expand_kernel i j =
      (i + 1 + expanded_nx * (j + 1), src i j)
      ∷ (i + 1 + expanded_nx * (j + ny + 2), signed.negate (src i (ny - 1 - j)))
      ∷ (i + nx + 2 + expanded_nx * (j + 1), signed.negate (src (nx - 1 - i) j))
      ∷ (i + nx + 2 + expanded_nx * (j + ny + 2), src (nx - 1 - i) (ny - 1 - j))
      ∷ []

  -- ExpandR2R.
  unfoldable pub expand_r2r : List (ℕ × R)
  expand_r2r = parallel_for 0 nx ny expand_kernel

-- ShrinkC2R: the new elements of the smaller array, from the real parts of the other one.
unfoldable pub shrink_c2r : {R : Type 0} → Signed R → (src : ℕ → ℕ → R × R) → (i j : ℕ) → R
shrink_c2r signed src i j = signed.negate (src (i + 1) (j + 1)).0
