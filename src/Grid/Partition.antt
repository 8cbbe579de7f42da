-- ===== src/Grid/Partition.antt =====
-- PostProcessBaseGrids cuts the domain: every cell lies in one box of the list, and in no other.
use native.Mathlib.Nat.{div-lt_iff_lt-mul, div-add-mod, mod-lt}
use hipace.Prelude.{
  ℕ, ◌+◌, ◌*◌, ◌/◌, ◌%◌, ◌<◌, ◌≡◌, refl, sym, ap, some, List, arith, ok, get_elem?, get_elem?-lt,
  subst,
}
use hipace.Grid.{IntVect, Box, Procs, block, base_boxes, post_process_base_grids}
use hipace.Grid.Blocks.{
  Contains, Contains-block, length-base_boxes, get_elem?-base_boxes, post_process_base_grids-inv,
}

-- The place in the list of boxes of the block (i, j, k), the first index running fastest.
abbrev pub place : ℕ → ℕ → ℕ → ℕ → ℕ → ℕ
place nx ny i j k = nx * ny * k + (nx * j + i)

-- A place below the number of boxes is that of one block.
pub record IsPlace (nx ny nz q : ℕ) : Type 0 where
  pub i : ℕ
  pub j : ℕ
  pub k : ℕ
  pub i_lt : i < nx
  pub j_lt : j < ny
  pub k_lt : k < nz
  pub place_eq : q ≡ place nx ny i j k

lt_of_mul-lt : (a b r m : ℕ) → m * a + r < m * b → a < b
lt_of_mul-lt a b r m h = grind arith

pub IsPlace-of : (nx ny nz q : ℕ) → q < nx * ny * nz → IsPlace nx ny nz q
IsPlace-of nx ny nz q h =
    let m : ℕ = nx * ny in
    let m_pos : 0 < m = grind arith in
    let nx_pos : 0 < nx = grind arith in
    let r : ℕ = q % m in
    let r_lt : r < m = mod-lt q m_pos in
    let q_eq : m * (q / m) + r ≡ q = div-add-mod q m in
    let r_eq : nx * (r / nx) + r % nx ≡ r = div-add-mod r nx in
    record {
      i = r % nx;
      j = r / nx;
      k = q / m;
      i_lt = mod-lt r nx_pos;
      j_lt = lt_of_mul-lt (r / nx) ny (r % nx) nx (omega arith);
      k_lt = lt_of_mul-lt (q / m) nz r m (omega arith);
      place_eq = omega arith;
    }

div-lt_of_eq : (s m n c : ℕ) → s * m ≡ n → c < n → 0 < s → c / s < m
div-lt_of_eq s m n c e h pos = (div-lt_iff_lt-mul pos).1 (grind arith)

-- The box at a place, and no other, holds the cell.
abbrev pub IsOnlyHolder : List Box → IntVect → ℕ → Type 0
IsOnlyHolder bs c q =
    ((b : Box) × (get_elem? bs q ≡ some b) × Contains b c)
    × ((r : ℕ) (b : Box) → get_elem? bs r ≡ some b → Contains b c → r ≡ q)

base_boxes-only :
    (s : IntVect) (nx ny nz : ℕ) (n c : IntVect)
    → s.x * nx ≡ n.x
    → s.y * ny ≡ n.y
    → s.z * nz ≡ n.z
    → c.x < n.x
    → c.y < n.y
    → c.z < n.z
    → IsOnlyHolder (base_boxes s nx ny nz) c (place nx ny (c.x / s.x) (c.y / s.y) (c.z / s.z))
base_boxes-only s nx ny nz n c ex ey ez hx hy hz =
    let px : 0 < s.x = grind arith in
    let py : 0 < s.y = grind arith in
    let pz : 0 < s.z = grind arith in
    (
      (
        block s (c.x / s.x) (c.y / s.y) (c.z / s.z),
        get_elem?-base_boxes s nx ny nz (c.x / s.x) (c.y / s.y) (c.z / s.z)
            (div-lt_of_eq s.x nx n.x c.x ex hx px) (div-lt_of_eq s.y ny n.y c.y ey hy py)
            (div-lt_of_eq s.z nz n.z c.z ez hz pz),
        (Contains-block s _ _ _ c px py pz).1 (refl, refl, refl),
      ),
      λ r b e held.
          let at : IsPlace nx ny nz r = IsPlace-of nx ny nz r (
            omega
              (arith, get_elem?-lt (base_boxes s nx ny nz) r e, length-base_boxes s nx ny nz)) in
          let same : b ≡ block s at.i at.j at.k = ground (
            arith,
            ap (get_elem? (base_boxes s nx ny nz)) at.place_eq,
            get_elem?-base_boxes s nx ny nz at.i at.j at.k at.i_lt at.j_lt at.k_lt,
          ) in
          let (ei, ej, ek) =
            (Contains-block s at.i at.j at.k c px py pz).0 (subst (λ t. Contains t c) same held) in
          rw (ei, ej, ek) at.place_eq,
    )

-- Where no assertion of PostProcessBaseGrids fails, every cell of the domain lies in exactly one
-- box of the new BoxArray.
pub post_process_base_grids-IsOnlyHolder :
    (p : Procs) (n : IntVect) (bs : List Box)
    → post_process_base_grids p n ≡ ok bs
    → (c : IntVect) → c.x < n.x
    → c.y < n.y
    → c.z < n.z
    → (q : ℕ) × IsOnlyHolder bs c q
post_process_base_grids-IsOnlyHolder p n bs h c hx hy hz =
    let (s, nz, e, ex, ey, ez) = post_process_base_grids-inv p n h in
    (
      place p.numprocs_x p.numprocs_y (c.x / s.x) (c.y / s.y) (c.z / s.z),
      subst
          (λ l.
            IsOnlyHolder l c (place p.numprocs_x p.numprocs_y (c.x / s.x) (c.y / s.y) (c.z / s.z)))
          (sym e) (base_boxes-only s p.numprocs_x p.numprocs_y nz n c ex ey ez hx hy hz),
    )
