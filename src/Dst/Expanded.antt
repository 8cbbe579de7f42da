-- ===== src/Dst/Expanded.antt =====
-- Execute without use_small_dst: the transform of the odd extension of the source array.
use native.Mathlib.Nat.{div-add-mod, mod-lt, mul-le-mul_left, div-lt_iff_lt-mul}
use hipace.Prelude.{
  ℕ, ◌+◌, ◌*◌, ◌/◌, ◌%◌, ◌≤◌, ◌<◌, ◌≡◌, sym, ◌∙◌, ap, inl, inr, none, true, false, ◌||◌, ◌==◌,
  written, written-none, All, All-gather, range_from, range_from-lt, gather, place_unique, arith,
  Bool-cases, if◌then◌else◌, Bool,
}
use hipace.Reals.{Signed}
use hipace.Dst.Kernels.{parallel_for, expand_kernel, expand_r2r, shrink_c2r}
use hipace.Dst.Execute.{updated, ExpandedArrays, execute_expanded}
use hipace.Dst.Transform.{updated-eq}
use hipace.Dst.Expand.{odd_image, expand_r2r-odd_image}

-- A column, or a row, between the quadrants.
abbrev pub is_edge : (n a : ℕ) → Bool
is_edge n a = a == 0 || a == n + 1

module _ {R : Type 0} (signed : Signed R) (src : ℕ → ℕ → R) (nx ny : ℕ) where
  -- The kernel writes to no edge.
  kernel_off_edges :
      (a b i j : ℕ)
      → a < 2 * nx + 2
      → i < nx
      → j < ny
      → (is_edge nx a || is_edge ny b) ≡ true
      → All (λ write. ¬ (write.0 ≡ a + (2 * nx + 2) * b)) (expand_kernel signed src nx ny i j)
  unfolding expand_kernel
  kernel_off_edges a b i j h hi hj edge =
      let off : (a' b' : ℕ)
          → a' < 2 * nx + 2
          → (is_edge nx a' || is_edge ny b') ≡ false
          → ¬ (a' + (2 * nx + 2) * b' ≡ a + (2 * nx + 2) * b) =
        λ a' b' h' inner e.
          let row : b * (2 * nx + 2) + a ≡ a + (2 * nx + 2) * b = grind arith in
          let row' : b' * (2 * nx + 2) + a' ≡ a' + (2 * nx + 2) * b' = grind arith in
          let (same_b, same_a) = place_unique (2 * nx + 2) b' a' b a h' h (row' ∙ e ∙ sym row) in
          ground (arith, same_a, same_b, inner, edge) in
      (
        off (i + 1) (j + 1) (omega (arith, hi)) (ground (arith, hi, hj)),
        (
          off (i + 1) (j + ny + 2) (omega (arith, hi)) (ground (arith, hi, hj)),
          (
            off (i + nx + 2) (j + 1) (omega (arith, hi)) (ground (arith, hi, hj)),
            (off (i + nx + 2) (j + ny + 2) (omega (arith, hi)) (ground (arith, hi, hj)), tt),
          ),
        ),
      )

  expand_r2r-edge :
      (a b : ℕ)
      → a < 2 * nx + 2
      → (is_edge nx a || is_edge ny b) ≡ true
      → written (expand_r2r signed src nx ny) (a + (2 * nx + 2) * b) ≡ none
  unfolding expand_r2r parallel_for
  expand_r2r-edge a b h edge =
      let Off = λ (write : ℕ × R). ¬ (write.0 ≡ a + (2 * nx + 2) * b) in
      written-none (a + (2 * nx + 2) * b) (expand_r2r signed src nx ny) (
        All-gather Off (λ j. gather (λ i. expand_kernel signed src nx ny i j) (range_from 0 nx))
          (range_from 0 ny)
          (λ j batch.
            All-gather Off (λ i. expand_kernel signed src nx ny i j) (range_from 0 nx)
              (λ i within.
                kernel_off_edges a b i j h (omega (arith, (range_from-lt i 0 nx within).1))
                  (omega (arith, (range_from-lt j 0 ny batch).1)) edge)))

-- The plan of cufftPlan2d: the transform reads the expanded array, and nothing else.
pub record Fft2d (R : Type 0) : Type 0 where
  pub r2c : (nx ny : ℕ) → (ℕ → R) → ℕ → R × R
  pub r2c_ext :
      (nx ny : ℕ) (f g : ℕ → R) (k : ℕ)
      → ((place : ℕ) → place < (2 * nx + 2) * (2 * ny + 2) → f place ≡ g place)
      → k < (nx + 2) * (2 * ny + 2)
      → r2c nx ny f k ≡ r2c nx ny g k

-- The edges of the expanded array hold `null`, as behind the setVal(0.) of CreatePlan.
abbrev pub HasEdges : {R : Type 0} → (null : R) (nx ny : ℕ) → (ℕ → R) → Type 0
HasEdges null nx ny expanded =
    (a b : ℕ)
    → a < 2 * nx + 2
    → b < 2 * ny + 2
    → (is_edge nx a || is_edge ny b) ≡ true
    → expanded (a + (2 * nx + 2) * b) ≡ null

-- The array of (2*nx+2)*(2*ny+2) elements that is odd around its edges.
unfoldable pub odd_extension :
    {R : Type 0} → Signed R → (null : R) (src : ℕ → ℕ → R) (nx ny : ℕ) (place : ℕ) → R
odd_extension signed null src nx ny place =
    let a = place % (2 * nx + 2) in
    let b = place / (2 * nx + 2) in
    if is_edge nx a || is_edge ny b then null else odd_image signed src nx ny a b

module _ {R : Type 0} (signed : Signed R) (null : R) (src : ℕ → ℕ → R) (old : ℕ → R)
    (nx ny : ℕ) where
  updated-HasEdges :
      HasEdges null nx ny old → HasEdges null nx ny (updated old (expand_r2r signed src nx ny))
  unfolding updated
  updated-HasEdges edges a b h k edge =
      rw (updated, expand_r2r-edge signed src nx ny a b h edge) (edges a b h k edge)

  expanded_lem :
      (place : ℕ)
      → HasEdges null nx ny old
      → place < (2 * nx + 2) * (2 * ny + 2)
      → updated old (expand_r2r signed src nx ny) place ≡ odd_extension signed null src nx ny place
  unfolding odd_extension
  expanded_lem place edges h =
      let n = 2 * nx + 2 in
      let a = place % n in
      let b = place / n in
      let some_columns : 0 < n = omega arith in
      let column : a < n = mod-lt place some_columns in
      let turned : (2 * nx + 2) * (2 * ny + 2) ≡ (2 * ny + 2) * (2 * nx + 2) = grind arith in
      let row : b < 2 * ny + 2 = (div-lt_iff_lt-mul some_columns).1 (omega (arith, h, turned)) in
      let here : a + n * b ≡ place = omega (arith, div-add-mod place n) in
      ap (updated old (expand_r2r signed src nx ny)) (sym here)
      ∙ elim (Bool-cases (is_edge nx a || is_edge ny b)) [
        | inl edge ↦ rw edge (updated-HasEdges edges a b column row edge)
        | inr inner ↦ rw inner (
            updated-eq old (expand_r2r signed src nx ny) (a + n * b)
              (odd_image signed src nx ny a b)
              (expand_r2r-odd_image signed src nx ny a b (ground (arith, inner)) column
                (ground (arith, inner)) (ground (arith, inner)) row (ground (arith, inner))))
      ]

-- Execute without use_small_dst leaves in the target array the negatives of the real parts of the
-- transform of the odd extension of the source array, each from one column and one row further on; the
-- edges of the expanded array hold `null` afterwards, if they did before, so that the next call finds
-- them again.
pub execute_expanded-eq :
    {R : Type 0} (signed : Signed R) (plan : Fft2d R) (null : R) (nx ny : ℕ) (a : ExpandedArrays R)
    (i j : ℕ)
    → HasEdges null nx ny a.expanded_position_array
    → i < nx
    → j < ny
    → ((execute_expanded signed plan.r2c nx ny a).fourier_array i j
        ≡ signed.negate
            (plan.r2c nx ny
              (odd_extension signed null a.position_array nx ny)
              (i + 1 + (nx + 2) * (j + 1))).0)
      × HasEdges null nx ny (execute_expanded signed plan.r2c nx ny a).expanded_position_array
unfolding execute_expanded shrink_c2r
execute_expanded-eq signed plan null nx ny a i j edges hi hj = (
  let rows : (nx + 2) * (j + 2) ≤ (nx + 2) * (2 * ny + 2) =
        mul-le-mul_left (nx + 2) (omega (arith, hj)) in
      let next : (nx + 2) * (j + 2) ≡ (nx + 2) * (j + 1) + (nx + 2) = grind arith in
      let inside : i + 1 + (nx + 2) * (j + 1) < (nx + 2) * (2 * ny + 2) =
        omega (arith, rows, next, hi) in
      ap (λ (c : _ × _). signed.negate c.0)
        (plan.r2c_ext nx ny _ (odd_extension signed null a.position_array nx ny)
          (i + 1 + (nx + 2) * (j + 1))
          (λ place h.
            expanded_lem signed null a.position_array a.expanded_position_array nx ny place edges h)
          inside),
  updated-HasEdges signed null a.position_array a.expanded_position_array nx ny edges,
)
