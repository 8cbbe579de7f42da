-- ===== src/Dst/Transpose.antt =====
-- Transpose: the tiles cover the matrix, and each element goes to its place.
use native.Mathlib.Nat.{mul-add-div_right, div-eq_of_lt, mul-le-mul_right}
use hipace.Prelude.{
  ℕ, ◌+◌, ◌-◌, ◌*◌, ◌/◌, ◌%◌, ◌≤◌, ◌<◌, ◌≡◌, sym, ◌∙◌, ap, subst, true, ◌&&◌, ltb, ltb→lt, lt→ltb,
  Bool-cases, inl, inr, List, Option, some, gather, range_from, written, written-eq, AgreesAt, All,
  In, All-gather, In-gather, In-range_from, range_from-lt, place_unique, arith,
}
use hipace.Dst.Kernels.{
  tile_dim, block_rows, row_starts, load_tile, store_tile, load_block, store_block, transpose_block,
  transpose,
}

-- A number below 32, as a row of the threads and a round of the loop.
row_split : (r : ℕ) → r < 32 → (ty : ℕ) × (i : ℕ) × (ty < 8) × In i row_starts × (ty + i ≡ r)
row_split r h = (
  r % 8,
  r / 8 * 8,
  omega arith,
  elim (Bool-cases (ltb r 8)) [
    | inl e ↦ inl (omega (arith, ltb→lt r 8 e))
    | inr e ↦ elim (Bool-cases (ltb r 16)) [
      | inl e' ↦ inr (inl (ground arith))
      | inr e' ↦ elim (Bool-cases (ltb r 24)) [
        | inl e'' ↦ inr (inr (inl (ground arith)))
        | inr e'' ↦ inr (inr (inr (inl (ground arith))))
      ]
    ]
  ],
  omega arith,
)

row_starts-le : (i : ℕ) → In i row_starts → i ≤ 24
row_starts-le i (inl e) = omega (arith, e)
row_starts-le i (inr (inl e)) = omega (arith, e)
row_starts-le i (inr (inr (inl e))) = omega (arith, e)
row_starts-le i (inr (inr (inr (inl e)))) = omega (arith, e)
row_starts-le i (inr (inr (inr (inr none_left)))) = elim none_left [ ]

-- The thread of a row and a column of threads.
thread-In :
    (tx ty : ℕ) → tx < 32 → ty < 8 → In (ty * 32 + tx) (range_from 0 (tile_dim * block_rows))
thread-In tx ty h k = In-range_from (ty * 32 + tx) 0 256 (omega arith) (omega (arith, h, k))

module _ {R : Type 0} (input : ℕ → R) (n_data n_batch : ℕ) where
  -- The element of row `y` and column `x` of the input.
  abbrev element : (x y : ℕ) → R
  element x y = input (y * n_data + x)

  load-AgreesAt :
      (bx block_y r c tx ty i : ℕ)
      → c < 32
      → tx < 32
      → All
          (AgreesAt (r * 33 + c) (element (bx * 32 + c) (block_y * 32 + r)))
          (load_tile input n_data n_batch bx block_y tx ty i)
  unfolding load_tile
  load-AgreesAt bx block_y r c tx ty i hc ht =
      elim (Bool-cases (ltb (bx * 32 + tx) n_data && ltb (block_y * 32 + ty + i) n_batch)) [
        | inr out ↦ rw out tt
        | inl inside ↦ rw inside (
          λ e.
              let row : block_y * 32 + ty + i ≡ block_y * 32 + r = omega (arith, e, hc, ht) in
              let column : bx * 32 + tx ≡ bx * 32 + c = omega (arith, e, hc, ht) in cc,
          tt,
        )
      ]

  load-In :
      (bx block_y r c ty i : ℕ)
      → ty + i ≡ r
      → bx * 32 + c < n_data
      → block_y * 32 + r < n_batch
      → In
          (r * 33 + c, element (bx * 32 + c) (block_y * 32 + r))
          (load_tile input n_data n_batch bx block_y c ty i)
  unfolding load_tile
  load-In bx block_y r c ty i same hx hy =
      let here : block_y * 32 + ty + i ≡ block_y * 32 + r = omega (arith, same) in
      let in_x : ltb (bx * 32 + c) n_data ≡ true = lt→ltb (bx * 32 + c) n_data hx in
      let in_y : ltb (block_y * 32 + ty + i) n_batch ≡ true =
        lt→ltb (block_y * 32 + ty + i) n_batch (omega (arith, here, hy)) in
      rw (in_x, in_y) (inl (cc))

  -- The tile of a block holds the elements of the block's part of the matrix.
  tile_lem :
      (bx block_y r c : ℕ)
      → r < 32
      → c < 32
      → bx * 32 + c < n_data
      → block_y * 32 + r < n_batch
      → written (load_block input n_data n_batch bx block_y) (r * 33 + c)
        ≡ some (element (bx * 32 + c) (block_y * 32 + r))
  unfolding load_block
  tile_lem bx block_y r c hr hc hx hy =
      let (ty, i, below, within, same) = row_split r hr in
      let value = element (bx * 32 + c) (block_y * 32 + r) in
      let thread_x : (ty * 32 + c) % 32 ≡ c = omega (arith, hc) in
      let thread_y : (ty * 32 + c) / 32 ≡ ty = omega (arith, hc) in
      let rounds : ℕ → List (ℕ × R) = λ thread.
        gather (load_tile input n_data n_batch bx block_y (thread % 32) (thread / 32)) row_starts in
      let round : In (r * 33 + c, value)
          (load_tile input n_data n_batch bx block_y ((ty * 32 + c) % 32) ((ty * 32 + c) / 32) i) =
        rw (thread_x, thread_y) (load-In bx block_y r c ty i same hx hy) in
      written-eq (r * 33 + c) value (load_block input n_data n_batch bx block_y)
        (All-gather (AgreesAt (r * 33 + c) value) rounds (range_from 0 256) (λ thread _.
          All-gather (AgreesAt (r * 33 + c) value)
            (load_tile input n_data n_batch bx block_y (thread % 32) (thread / 32)) row_starts
            (λ j _. load-AgreesAt bx block_y r c (thread % 32) (thread / 32) j hc (omega arith))))
        (In-gather (r * 33 + c, value) rounds (ty * 32 + c) (range_from 0 256)
          (thread-In c ty hc below)
          (In-gather (r * 33 + c, value)
            (load_tile input n_data n_batch bx block_y ((ty * 32 + c) % 32) ((ty * 32 + c) / 32)) i
            row_starts within round))

  store-AgreesAt :
      (bx block_y x y tx ty i : ℕ)
      → x < n_data
      → y < n_batch
      → tx < 32
      → ty + i < 32
      → All (AgreesAt (x * n_batch + y) (some (element x y))) (
          store_tile input n_data n_batch
            (written (load_block input n_data n_batch bx block_y))
            bx
            block_y
            tx
            ty
            i)
  unfolding store_tile
  store-AgreesAt bx block_y x y tx ty i hx hy htx hty =
      elim (Bool-cases (ltb (block_y * 32 + tx) n_batch && ltb (bx * 32 + ty + i) n_data)) [
        | inr out ↦ rw out tt
        | inl inside ↦ rw inside (
          λ e.
              let in_y : block_y * 32 + tx < n_batch = ground (arith, inside) in
              let (row, column) =
                place_unique n_batch (bx * 32 + ty + i) (block_y * 32 + tx) x y in_y hy e in
              let place : tx * 33 + ty + i ≡ tx * 33 + (ty + i) = omega arith in
              let row' : bx * 32 + (ty + i) ≡ x = omega (arith, row) in
              let lookup = tile_lem bx block_y tx (ty + i) htx hty (omega (arith, row', hx)) in_y in
              ap (written (load_block input n_data n_batch bx block_y)) place
              ∙ lookup
              ∙ ap some (cc (row', column)),
          tt,
        )
      ]

  store-In :
      (bx block_y r c ty i : ℕ)
      → r < 32
      → c < 32
      → ty + i ≡ r
      → bx * 32 + r < n_data
      → block_y * 32 + c < n_batch
      → In
          (
            (bx * 32 + r) * n_batch + (block_y * 32 + c),
            some (element (bx * 32 + r) (block_y * 32 + c)),
          )
          (store_tile input n_data n_batch
            (written (load_block input n_data n_batch bx block_y))
            bx
            block_y
            c
            ty
            i)
  unfolding store_tile
  store-In bx block_y r c ty i hr hc same hx hy =
      let here : bx * 32 + ty + i ≡ bx * 32 + r = omega (arith, same) in
      let in_y : ltb (block_y * 32 + c) n_batch ≡ true = lt→ltb (block_y * 32 + c) n_batch hy in
      let in_x : ltb (bx * 32 + ty + i) n_data ≡ true =
        lt→ltb (bx * 32 + ty + i) n_data (omega (arith, here, hx)) in
      let place : c * 33 + ty + i ≡ c * 33 + r = omega (arith, same) in
      let lookup = tile_lem bx block_y c r hc hr hx hy in rw (in_y, in_x) (inl (cc))

  block-AgreesAt :
      (block num_x x y : ℕ)
      → x < n_data
      → y < n_batch
      → All
          (AgreesAt (x * n_batch + y) (some (element x y)))
          (transpose_block input n_data n_batch block num_x)
  unfolding transpose_block store_block
  block-AgreesAt block num_x x y hx hy =
      let block_y = block / num_x in
      let bx = block - block_y * num_x in
      let tile = written (load_block input n_data n_batch bx block_y) in
      let target = AgreesAt (x * n_batch + y) (some (element x y)) in
      All-gather target
        (λ thread.
          gather (store_tile input n_data n_batch tile bx block_y (thread % 32) (thread / 32))
            row_starts)
        (range_from 0 256)
        (λ thread within.
          All-gather target
            (store_tile input n_data n_batch tile bx block_y (thread % 32) (thread / 32)) row_starts
            (λ i round.
              store-AgreesAt bx block_y x y (thread % 32) (thread / 32) i hx hy (omega arith)
                (omega (arith, (range_from-lt thread 0 256 within).1, row_starts-le i round))))

  block-In :
      (block num_x bx block_y r c : ℕ)
      → block / num_x ≡ block_y
      → block - block_y * num_x ≡ bx
      → r < 32
      → c < 32
      → bx * 32 + r < n_data
      → block_y * 32 + c < n_batch
      → In
          (
            (bx * 32 + r) * n_batch + (block_y * 32 + c),
            some (element (bx * 32 + r) (block_y * 32 + c)),
          )
          (transpose_block input n_data n_batch block num_x)
  unfolding transpose_block store_block
  block-In block num_x bx block_y r c ey ex hr hc hx hy =
      let (ty, i, below, within, same) = row_split r hr in
      let thread_x : (ty * 32 + c) % 32 ≡ c = omega (arith, hc) in
      let thread_y : (ty * 32 + c) / 32 ≡ ty = omega (arith, hc) in
      let tile = written (load_block input n_data n_batch bx block_y) in
      let target : ℕ × Option R = (
        (bx * 32 + r) * n_batch + (block_y * 32 + c),
        some (element (bx * 32 + r) (block_y * 32 + c)),
      ) in
      let rounds : ℕ → List (ℕ × Option R) = λ thread.
        gather (store_tile input n_data n_batch tile bx block_y (thread % 32) (thread / 32))
          row_starts in
      let round : In target (
          store_tile input n_data n_batch tile bx block_y ((ty * 32 + c) % 32) ((ty * 32 + c) / 32)
            i) =
        rw (thread_x, thread_y) (store-In bx block_y r c ty i hr hc same hx hy) in
      subst
        (λ u. In target (
          store_block input n_data n_batch
            (written (load_block input n_data n_batch (block - u * num_x) u)) (block - u * num_x)
            u))
        (sym ey)
        (subst
          (λ v. In target (
            store_block input n_data n_batch (written (load_block input n_data n_batch v block_y)) v
              block_y))
          (sym ex)
          (In-gather target rounds (ty * 32 + c) (range_from 0 256) (thread-In c ty hc below) (
            In-gather target
              (store_tile input n_data n_batch tile bx block_y ((ty * 32 + c) % 32)
                ((ty * 32 + c) / 32))
              i row_starts within round)))

  -- Transpose writes every element of the output, and each is that of the transposed input: the element
  -- in row x and column y of the output is that in row y and column x of the input. This holds for
  -- every size of the matrix.
  pub transpose-eq :
      (x y : ℕ)
      → x < n_data
      → y < n_batch
      → written (transpose input n_data n_batch) (x * n_batch + y)
        ≡ some (some (input (y * n_data + x)))
  unfolding transpose
  transpose-eq x y hx hy =
      let num_x = (n_data + 32 - 1) / 32 in
      let num_y = (n_batch + 32 - 1) / 32 in
      let bx = x / 32 in
      let block_y = y / 32 in
      let block = block_y * num_x + bx in
      let in_x : bx < num_x = omega (arith, hx) in
      let in_y : block_y + 1 ≤ num_y = omega (arith, hy) in
      let some_blocks : 0 < num_x = omega (arith, in_x) in
      let row : block / num_x ≡ block_y =
        mul-add-div_right some_blocks block_y bx ∙ omega (arith, div-eq_of_lt in_x) in
      let up_to : (block_y + 1) * num_x ≤ num_y * num_x = mul-le-mul_right num_x in_y in
      let next_row : (block_y + 1) * num_x ≡ block_y * num_x + num_x = grind arith in
      let turned : num_y * num_x ≡ num_x * num_y = grind arith in
      let inside : block < num_x * num_y = omega (arith, up_to, next_row, turned, in_x) in
      let whole_x : bx * 32 + x % 32 ≡ x = omega arith in
      let whole_y : block_y * 32 + y % 32 ≡ y = omega arith in
      let write_here =
        block-In block num_x bx block_y (x % 32) (y % 32) row (omega arith) (omega arith)
          (omega arith) (omega (arith, whole_x, hx)) (omega (arith, whole_y, hy)) in
      written-eq (x * n_batch + y) (some (element x y)) (transpose input n_data n_batch)
        (All-gather (AgreesAt (x * n_batch + y) (some (element x y)))
          (λ b. transpose_block input n_data n_batch b num_x) (range_from 0 (num_x * num_y))
          (λ b _. block-AgreesAt b num_x x y hx hy))
        (In-gather (x * n_batch + y, some (element x y))
          (λ b. transpose_block input n_data n_batch b num_x) block (range_from 0 (num_x * num_y))
          (In-range_from block 0 (num_x * num_y) (omega arith) (omega (arith, inside)))
          (subst
            (λ u.
              In (u * n_batch + y, some (element u y))
                (transpose_block input n_data n_batch block num_x))
            whole_x
            (subst
              (λ u.
                In ((bx * 32 + x % 32) * n_batch + u, some (element (bx * 32 + x % 32) u))
                  (transpose_block input n_data n_batch block num_x))
              whole_y write_here)))
