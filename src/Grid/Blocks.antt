-- ===== src/Grid/Blocks.antt =====
-- The boxes of PostProcessBaseGrids: their places in the list, and the cells that they hold.
use native.Mathlib.Nat.{div-eq_of_lt-le, div-mul-le_self, lt-div-mul-add}
use hipace.Prelude.{
  ℕ, ◌+◌, ◌-◌, ◌*◌, ◌/◌, ◌≤◌, ◌<◌, ◌≡◌, refl, ap, ◌∙◌, ◌↔◌, some, List, [], ◌∷◌, arith, ok, length,
  get_elem?, get_elem?-gather, length-gather, gather, range_from, ◌==◌, if◌then◌else◌,
}
use hipace.Grid.{IntVect, Box, Procs, vect, block, row, plane, base_boxes, post_process_base_grids}

-- The cell lies in the box.
abbrev pub Contains : Box → IntVect → Type 0
Contains b c =
    (b.small_end.x ≤ c.x)
    × (c.x ≤ b.big_end.x)
    × (b.small_end.y ≤ c.y)
    × (c.y ≤ b.big_end.y)
    × (b.small_end.z ≤ c.z)
    × (c.z ≤ b.big_end.z)

pub length-row : (s : IntVect) (nx j k : ℕ) → length (row s nx j k) ≡ nx
unfolding row
length-row s nx j k = omega (arith, length-gather (λ i. block s i j k ∷ []) 1 0 nx (λ i. refl))

pub length-plane : (s : IntVect) (nx ny k : ℕ) → length (plane s nx ny k) ≡ nx * ny
unfolding plane
length-plane s nx ny k = length-gather (λ j. row s nx j k) nx 0 ny (λ j. length-row s nx j k)

pub length-base_boxes : (s : IntVect) (nx ny nz : ℕ) → length (base_boxes s nx ny nz) ≡ nx * ny * nz
unfolding base_boxes
length-base_boxes s nx ny nz =
    length-gather (plane s nx ny) (nx * ny) 0 nz (λ k. length-plane s nx ny k)

get_elem?-row :
    (s : IntVect) (nx i j k : ℕ) → i < nx → get_elem? (row s nx j k) i ≡ some (block s i j k)
unfolding row
get_elem?-row s nx i j k h =
    ap (get_elem? (gather (λ i. block s i j k ∷ []) (range_from 0 nx))) {y = 1 * i + 0}
      (omega arith)
    ∙ get_elem?-gather (λ i. block s i j k ∷ []) 1 0 nx i 0 (λ _. refl) h (omega arith)
    ∙ ap (λ t. some (block s t j k)) (omega arith)

get_elem?-plane :
    (s : IntVect) (nx ny i j k : ℕ)
    → i < nx
    → j < ny
    → get_elem? (plane s nx ny k) (nx * j + i) ≡ some (block s i j k)
unfolding plane
get_elem?-plane s nx ny i j k hi hj =
    get_elem?-gather (λ j. row s nx j k) nx 0 ny j i (λ j. length-row s nx j k) hj hi
    ∙ ap (λ t. get_elem? (row s nx t k) i) {y = j} (omega arith)
    ∙ get_elem?-row s nx i j k hi

-- Block (i, j, k) stands at i + nx (j + ny k).
pub get_elem?-base_boxes :
    (s : IntVect) (nx ny nz i j k : ℕ)
    → i < nx
    → j < ny
    → k < nz
    → get_elem? (base_boxes s nx ny nz) (nx * ny * k + (nx * j + i)) ≡ some (block s i j k)
unfolding base_boxes
get_elem?-base_boxes s nx ny nz i j k hi hj hk =
    get_elem?-gather (plane s nx ny) (nx * ny) 0 nz k (nx * j + i) (λ k. length-plane s nx ny k) hk
      (grind arith)
    ∙ ap (λ t. get_elem? (plane s nx ny t) (nx * j + i)) {y = k} (omega arith)
    ∙ get_elem?-plane s nx ny i j k hi hj

-- A coordinate lies between the ends of segment `i` of length `s` just if `c / s` is `i`.
segment_of : (s i c : ℕ) → 0 < s → i * s ≤ c → c ≤ (i + 1) * s - 1 → c / s ≡ i
segment_of s i c h lo hi =
    let pos : 0 < (i + 1) * s = grind arith in div-eq_of_lt-le s lo (omega arith)

segment_bounds : (s c : ℕ) → 0 < s → ((c / s) * s ≤ c) × (c ≤ (c / s + 1) * s - 1)
segment_bounds s c h =
    let low : (c / s) * s ≤ c = div-mul-le_self c s in
    let high : c < (c / s) * s + s = lt-div-mul-add h in (low, omega arith)

-- A block holds a cell just if the cell's coordinates, divided by the lengths, are its indices.
pub Contains-block :
    (s : IntVect) (i j k : ℕ) (c : IntVect)
    → 0 < s.x
    → 0 < s.y
    → 0 < s.z
    → Contains (block s i j k) c ↔ ((c.x / s.x ≡ i) × (c.y / s.y ≡ j) × (c.z / s.z ≡ k))
unfolding block
Contains-block s i j k c hx hy hz = (
  λ h. (
    segment_of s.x i c.x hx h.0 h.1,
    segment_of s.y j c.y hy h.2 h.3,
    segment_of s.z k c.z hz h.4 h.5,
  ),
  λ e.
      rw (← e.0, ← e.1, ← e.2)
        (
          (segment_bounds s.x c.x hx).0,
          (segment_bounds s.x c.x hx).1,
          (segment_bounds s.y c.y hy).0,
          (segment_bounds s.y c.y hy).1,
          (segment_bounds s.z c.z hz).0,
          (segment_bounds s.z c.z hz).1,
        ),
)

-- What PostProcessBaseGrids has found when no assertion fails.
pub post_process_base_grids-inv :
    (p : Procs) (n : IntVect) {bs : List Box}
    → post_process_base_grids p n ≡ ok bs
    → (s : IntVect) × (nz : ℕ) × (bs ≡ base_boxes s p.numprocs_x p.numprocs_y nz)
      × (s.x * p.numprocs_x ≡ n.x)
      × (s.y * p.numprocs_y ≡ n.y)
      × (s.z * nz ≡ n.z)
unfolding post_process_base_grids
post_process_base_grids-inv p n h =
    let sz : ℕ = if p.boxes_in_z == 1 then n.z / p.numprocs_z else n.z / p.boxes_in_z in
    let nz : ℕ = if p.boxes_in_z == 1 then n.z / sz else p.boxes_in_z in
    (
      vect (n.x / p.numprocs_x) (n.y / p.numprocs_y) sz,
      nz,
      ground arith,
      ground arith,
      ground arith,
      ground arith,
    )
