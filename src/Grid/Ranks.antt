-- ===== src/Grid/Ranks.antt =====
-- The DistributionMapping of MakeNewLevelFromScratch: which rank owns which box.
use native.Mathlib.Nat.{mod-eq_of_lt, div-one, div_self, div-eq_of_lt, mul-add-mod_self_left}
use hipace.Prelude.{
  ℕ, ◌+◌, ◌*◌, ◌/◌, ◌%◌, ◌<◌, ◌≡◌, refl, ap, ◌∙◌, ◌⊎◌, inl, inr, some, List, [], ◌∷◌, arith, ok,
  length, get_elem?, get_elem?-gather, length-gather, gather, range_from, ◌==◌, if◌then◌else◌,
  Bool-cases,
}
use hipace.Grid.{Procs, rank_of, rank_row, rank_plane, procmap, make_distribution_mapping}
use hipace.Grid.Partition.{IsPlace, place, IsPlace-of}

module _ (p : Procs) (local_z : ℕ) where
  length-rank_row : (j k : ℕ) → length (rank_row p local_z j k) ≡ p.numprocs_x
  unfolding rank_row
  length-rank_row j k =
      omega (arith, length-gather (λ i. rank_of p local_z i j k ∷ []) 1 0 p.numprocs_x (λ i. refl))

  length-rank_plane : (k : ℕ) → length (rank_plane p local_z k) ≡ p.numprocs_x * p.numprocs_y
  unfolding rank_plane
  length-rank_plane k =
      length-gather (λ j. rank_row p local_z j k) p.numprocs_x 0 p.numprocs_y
        (λ j. length-rank_row j k)

  pub length-procmap : (nz : ℕ) → length (procmap p local_z nz) ≡ p.numprocs_x * p.numprocs_y * nz
  unfolding procmap
  length-procmap nz =
      length-gather (rank_plane p local_z) (p.numprocs_x * p.numprocs_y) 0 nz length-rank_plane

  get_elem?-rank_row :
      (i j k : ℕ)
      → i < p.numprocs_x
      → get_elem? (rank_row p local_z j k) i ≡ some (rank_of p local_z i j k)
  unfolding rank_row
  get_elem?-rank_row i j k h =
      ap (get_elem? (gather (λ i. rank_of p local_z i j k ∷ []) (range_from 0 p.numprocs_x)))
        {y = 1 * i + 0} (omega arith)
      ∙ get_elem?-gather (λ i. rank_of p local_z i j k ∷ []) 1 0 p.numprocs_x i 0 (λ _. refl) h
          (omega arith)
      ∙ ap (λ t. some (rank_of p local_z t j k)) (omega arith)

  get_elem?-rank_plane :
      (i j k : ℕ)
      → i < p.numprocs_x
      → j < p.numprocs_y
      → get_elem? (rank_plane p local_z k) (p.numprocs_x * j + i) ≡ some (rank_of p local_z i j k)
  unfolding rank_plane
  get_elem?-rank_plane i j k hi hj =
      get_elem?-gather (λ j. rank_row p local_z j k) p.numprocs_x 0 p.numprocs_y j i
        (λ j. length-rank_row j k) hj hi
      ∙ ap (λ t. get_elem? (rank_row p local_z t k) i) {y = j} (omega arith)
      ∙ get_elem?-rank_row i j k hi

  get_elem?-procmap :
      (nz i j k : ℕ)
      → i < p.numprocs_x
      → j < p.numprocs_y
      → k < nz
      → get_elem? (procmap p local_z nz) (place p.numprocs_x p.numprocs_y i j k)
        ≡ some (rank_of p local_z i j k)
  unfolding procmap
  get_elem?-procmap nz i j k hi hj hk =
      get_elem?-gather (rank_plane p local_z) (p.numprocs_x * p.numprocs_y) 0 nz k
        (p.numprocs_x * j + i) length-rank_plane hk (grind arith)
      ∙ ap (λ t. get_elem? (rank_plane p local_z t) (p.numprocs_x * j + i)) {y = k} (omega arith)
      ∙ get_elem?-rank_plane i j k hi hj

-- The two layouts that the constructor of Hipace lets through: one box to a rank in z, or all
-- boxes on one longitudinal rank.
abbrev pub IsLayout : Procs → ℕ → ℕ → Type 0
IsLayout p local_z nz =
    ((local_z ≡ 1) × (nz ≡ p.numprocs_z)) ⊎ ((local_z ≡ nz) × (p.numprocs_z ≡ 1))

row-lt-plane : (x y i j : ℕ) → i < x → j < y → x * j + i < x * y
row-lt-plane x y i j hi hj = grind arith

plane-lt : (m z r k : ℕ) → r < m → k < z → m * k + r < m * z
plane-lt m z r k hr hk = grind arith

rank_of-mod :
    (p : Procs) (local_z nz i j k : ℕ)
    → i < p.numprocs_x
    → j < p.numprocs_y
    → k < nz
    → IsLayout p local_z nz
    → rank_of p local_z i j k
      ≡ place p.numprocs_x p.numprocs_y i j k % (p.numprocs_x * p.numprocs_y * p.numprocs_z)
unfolding rank_of
rank_of-mod p local_z nz i j k hi hj hk (inl (el, ez)) =
    let m : ℕ = p.numprocs_x * p.numprocs_y in
    let low : p.numprocs_x * j + i < m = row-lt-plane p.numprocs_x p.numprocs_y i j hi hj in
    let all : m * k + (p.numprocs_x * j + i) < m * p.numprocs_z =
      plane-lt m p.numprocs_z (p.numprocs_x * j + i) k low (omega arith) in
    rw el (
      omega (
        arith,
        div-one i,
        ap (λ t. t * p.numprocs_x) (div-one j),
        ap (λ t. t * m) (div-one k),
        mod-eq_of_lt all,
      ))
rank_of-mod p local_z nz i j k hi hj hk (inr (el, ez)) =
    let m : ℕ = p.numprocs_x * p.numprocs_y in
    let r : ℕ = p.numprocs_x * j + i in
    let low : r < m = row-lt-plane p.numprocs_x p.numprocs_y i j hi hj in
    let none_above : k / nz ≡ 0 = div-eq_of_lt hk in
    let wrapped : (m * k + r) % (m * p.numprocs_z) ≡ r =
      ap (λ t. (m * k + r) % t) {y = m} (rw ez (omega arith))
      ∙ mul-add-mod_self_left m k r
      ∙ mod-eq_of_lt low in
    rw (el, none_above) (omega (arith, div-one i, ap (λ t. t * p.numprocs_x) (div-one j), wrapped))

IsLayout-of :
    (p : Procs) (nz : ℕ)
    → 0 < p.numprocs_z
    → (nz ≡ p.numprocs_z) ⊎ (p.numprocs_z ≡ 1)
    → IsLayout p (nz / p.numprocs_z) nz
IsLayout-of p nz h (inl e) = inl (rw e (div_self h), e)
IsLayout-of p nz h (inr e) = inr (rw e (div-one nz), e)

make_distribution_mapping-inv :
    (p : Procs) (size : ℕ) {dm : List ℕ}
    → make_distribution_mapping p size ≡ ok dm
    → (p.boxes_in_z ≡ 1) ⊎ (p.numprocs_z ≡ 1)
    → (local_z : ℕ) × (nz : ℕ) × (dm ≡ procmap p local_z nz)
      × (p.numprocs_x * p.numprocs_y * nz ≡ size)
      × IsLayout p local_z nz
unfolding make_distribution_mapping
make_distribution_mapping-inv p size h layout =
    let nz : ℕ = if p.boxes_in_z == 1 then p.numprocs_z else p.boxes_in_z in
    (
      nz / p.numprocs_z,
      nz,
      ground arith,
      ground arith,
      IsLayout-of p nz (ground arith) (elim (Bool-cases (p.boxes_in_z == 1)) [
        | inl one ↦ inl (rw one)
        | inr more ↦ inr (ground arith)
      ]),
    )

-- MakeNewLevelFromScratch gives box number q of the BoxArray to rank q modulo the number of ranks,
-- and leaves no box without a rank, provided that there is more than one box in z only on one
-- longitudinal rank, which the constructor of Hipace asserts.
pub make_distribution_mapping-cyclic :
    (p : Procs) (size q : ℕ) (dm : List ℕ)
    → make_distribution_mapping p size ≡ ok dm
    → (p.boxes_in_z ≡ 1) ⊎ (p.numprocs_z ≡ 1)
    → q < size
    → (length dm ≡ size)
      × (get_elem? dm q ≡ some (q % (p.numprocs_x * p.numprocs_y * p.numprocs_z)))
make_distribution_mapping-cyclic p size q dm h layout hq =
    let (local_z, nz, e, es, fits) = make_distribution_mapping-inv p size h layout in
    let at : IsPlace p.numprocs_x p.numprocs_y nz q =
      IsPlace-of p.numprocs_x p.numprocs_y nz q (omega arith) in
    (
      rw e (length-procmap p local_z nz ∙ es),
      rw (e, at.place_eq)
          (get_elem?-procmap p local_z nz at.i at.j at.k at.i_lt at.j_lt at.k_lt
            ∙ ap some (rank_of-mod p local_z nz at.i at.j at.k at.i_lt at.j_lt at.k_lt fits)),
    )
