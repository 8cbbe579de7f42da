-- ===== src/Dst/Expand.antt =====
-- ExpandR2R: the expanded array is odd around 0 and the middle, in both directions.
use hipace.Prelude.{
  ℕ, ◌+◌, ◌-◌, ◌*◌, ◌≤◌, ◌<◌, ◌≡◌, refl, sym, ◌∙◌, inl, inr, [], ◌∷◌, some, written, AgreesAt, All,
  In, place_unique, arith, ltb, Bool-cases, lt→ltb, ◌⊎◌, true, false, if◌then◌else◌,
}
use hipace.Reals.{Signed}
use hipace.Dst.Loops.{parallel_for-eq}
use hipace.Dst.Kernels.{expanded_nx, expand_kernel, expand_r2r}

module _ {R : Type 0} (signed : Signed R) (src : ℕ → ℕ → R) (nx ny : ℕ) where
  -- The element in column `a` and row `b`, from the quadrant that holds it: a column on the right of the
  -- middle is the negative of its mirror image at 2*nx+2, and a row below the middle of that at 2*ny+2.
  unfoldable pub odd_image : (a b : ℕ) → R
  odd_image a b =
      if ltb a (nx + 1)
      then (if ltb b (ny + 1)
          then src (a - 1) (b - 1)
          else signed.negate (src (a - 1) (2 * ny + 1 - b)))
      else (if ltb b (ny + 1)
          then signed.negate (src (2 * nx + 1 - a) (b - 1))
          else src (2 * nx + 1 - a) (2 * ny + 1 - b))

  kernel-image :
      (i j : ℕ)
      → i < nx
      → j < ny
      → expand_kernel signed src nx ny i j
        ≡ (i + 1 + expanded_nx signed src nx ny * (j + 1), odd_image (i + 1) (j + 1))
          ∷ (i + 1 + expanded_nx signed src nx ny * (j + ny + 2), odd_image (i + 1) (j + ny + 2))
          ∷ (i + nx + 2 + expanded_nx signed src nx ny * (j + 1), odd_image (i + nx + 2) (j + 1))
          ∷ (
            i + nx + 2 + expanded_nx signed src nx ny * (j + ny + 2),
            odd_image (i + nx + 2) (j + ny + 2),
          )
          ∷ []
  unfolding expand_kernel odd_image
  kernel-image i j hi hj =
      let left : ltb (i + 1) (nx + 1) ≡ true = lt→ltb (i + 1) (nx + 1) (omega (arith, hi)) in
      let upper : ltb (j + 1) (ny + 1) ≡ true = lt→ltb (j + 1) (ny + 1) (omega (arith, hj)) in
      let right : ltb (i + nx + 2) (nx + 1) ≡ false = ground arith in
      let lower : ltb (j + ny + 2) (ny + 1) ≡ false = ground arith in
      let i' : i + 1 - 1 ≡ i = omega arith in
      let j' : j + 1 - 1 ≡ j = omega arith in
      let i'' : 2 * nx + 1 - (i + nx + 2) ≡ nx - 1 - i = omega (arith, hi) in
      let j'' : 2 * ny + 1 - (j + ny + 2) ≡ ny - 1 - j = omega (arith, hj) in
      rw (left, upper, right, lower, i', j', i'', j'') refl

  -- What is written to a place of the odd image is its element.
  image_agrees :
      (a b a' b' : ℕ)
      → a < expanded_nx signed src nx ny
      → a' < expanded_nx signed src nx ny
      → AgreesAt
          (a + expanded_nx signed src nx ny * b)
          (odd_image a b)
          (a' + expanded_nx signed src nx ny * b', odd_image a' b')
  image_agrees a b a' b' h h' e =
      let row : b * (2 * nx + 2) + a ≡ a + (2 * nx + 2) * b = grind arith in
      let row' : b' * (2 * nx + 2) + a' ≡ a' + (2 * nx + 2) * b' = grind arith in
      let (same_b, same_a) = place_unique (2 * nx + 2) b' a' b a h' h (row' ∙ e ∙ sym row) in
      cc (same_a, same_b)

  kernel_agrees :
      (a b i j : ℕ)
      → a < expanded_nx signed src nx ny
      → i < nx
      → j < ny
      → All
          (AgreesAt (a + expanded_nx signed src nx ny * b) (odd_image a b))
          (expand_kernel signed src nx ny i j)
  kernel_agrees a b i j h hi hj = rw (kernel-image i j hi hj) (
    image_agrees a b (i + 1) (j + 1) h (omega (arith, hi)),
    (
      image_agrees a b (i + 1) (j + ny + 2) h (omega (arith, hi)),
      (
        image_agrees a b (i + nx + 2) (j + 1) h (omega (arith, hi)),
        (image_agrees a b (i + nx + 2) (j + ny + 2) h (omega (arith, hi)), tt),
      ),
    ),
  )

  -- The column or row of `src` for one of the expanded array, which is not on an edge of its quadrant.
  fold :
      (n a : ℕ)
      → 0 < a
      → a < 2 * n + 2
      → ¬ (a ≡ n + 1)
      → (i : ℕ) × (i < n) × ((a ≡ i + 1) ⊎ (a ≡ i + n + 2))
  fold n a low high off = elim (Bool-cases (ltb a (n + 1))) [
    | inl first ↦ (a - 1, ground arith, inl (omega (arith, low)))
    | inr second ↦
        let beyond : n + 2 ≤ a = ground (arith, second, off) in
        (a - (n + 2), omega (arith, high, beyond), inr (omega (arith, beyond)))
  ]

  kernel-In :
      (a b i j : ℕ)
      → i < nx
      → j < ny
      → (a ≡ i + 1) ⊎ (a ≡ i + nx + 2)
      → (b ≡ j + 1) ⊎ (b ≡ j + ny + 2)
      → In
          (a + expanded_nx signed src nx ny * b, odd_image a b)
          (expand_kernel signed src nx ny i j)
  kernel-In a b i j hi hj (inl ea) (inl eb) = rw (kernel-image i j hi hj, ea, eb) (inl refl)
  kernel-In a b i j hi hj (inl ea) (inr eb) = rw (kernel-image i j hi hj, ea, eb) (inr (inl refl))
  kernel-In a b i j hi hj (inr ea) (inl eb) =
      rw (kernel-image i j hi hj, ea, eb) (inr (inr (inl refl)))
  kernel-In a b i j hi hj (inr ea) (inr eb) =
      rw (kernel-image i j hi hj, ea, eb) (inr (inr (inr (inl refl))))

  -- In the expanded array, every place but those in the columns 0 and nx+1 and in the rows 0 and ny+1
  -- gets its element of the odd image: the array itself in the upper left quadrant, its mirror image
  -- with the other sign in the two quadrants beside it, and its mirror image in both directions in the
  -- lower right one.
  pub expand_r2r-odd_image :
      (a b : ℕ)
      → 0 < a
      → a < 2 * nx + 2
      → ¬ (a ≡ nx + 1)
      → 0 < b
      → b < 2 * ny + 2
      → ¬ (b ≡ ny + 1)
      → written (expand_r2r signed src nx ny) (a + (2 * nx + 2) * b) ≡ some (odd_image a b)
  unfolding expand_r2r
  expand_r2r-odd_image a b low high off low' high' off' =
      let (i, hi, column) = fold nx a low high off in
      let (j, hj, row) = fold ny b low' high' off' in
      parallel_for-eq 0 nx ny (expand_kernel signed src nx ny) (a + (2 * nx + 2) * b)
        (odd_image a b) i j (omega arith) (omega (arith, hi)) hj
        (kernel-In a b i j hi hj column row)
        (λ i' j' _ below below'. kernel_agrees a b i' j' high (omega (arith, below)) below')
