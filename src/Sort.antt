-- ===== src/Sort.antt =====
-- src/particles/BoxSort.cpp: the beam particles of a rank, ordered by the box that they stand in.
pub mod Buckets
pub mod Scan
pub mod Order
pub mod Leftmost
use hipace.Prelude.{
  ◌≡◌, arith, ℕ, zero, suc, ◌+◌, ◌-◌, List, [], ◌∷◌, Option, none, some, map, ltb, ◌==◌, ◌&&◌,
  if◌then◌else◌, length, get_elem?, get_or, set, replicate, Result, Error, ok, err, ◌>>=◌,
}
use hipace.Particles.{Particle, invalidate, Scatter}

-- m_box_counts and m_box_offsets of a BoxSorter.
pub record BoxSorter : Type 0 where
  pub box_counts : List ℕ
  pub box_offsets : List ℕ

-- A read through a pointer into an array.
abbrev pub read : {A : Type 0} → List A → ℕ → Result A
read xs i = elim (get_elem? xs i) [ none ↦ err Error.out_of_range | some a ↦ ok a ]

pub read-some :
    {A : Type 0} (xs : List A) (i : ℕ) {a : A} → get_elem? xs i ≡ some a → read xs i ≡ ok a
read-some xs i e = ground arith

-- amrex::Gpu::exclusive_scan, from the sum `acc` on.
unfoldable pub exclusive_scan : ℕ → List ℕ → List ℕ
exclusive_scan acc [] = []
exclusive_scan acc (c ∷ cs) = acc ∷ exclusive_scan (acc + c) cs

module _ {R : Type 0} (assign_grid : Particle R → Option ℕ) (num_boxes : ℕ) where
  -- The box of a particle; one that has left the domain transversely goes behind the last box.
  unfoldable pub dst_box : Particle R → ℕ
  dst_box p = elim (assign_grid p) [ none ↦ num_boxes | some b ↦ b ]

  unfoldable pub mark : Particle R → Particle R
  mark p = elim (assign_grid p) [ none ↦ invalidate p | some b ↦ p ]

  -- The first loop, with the particles in the order in which its rounds increment the counts: the
  -- final counts and the index of each particle in its box.
  unfoldable pub count_loop : List ℕ → List (Particle R) → List ℕ × List ℕ
  unfolding dst_box
  count_loop counts [] = (counts, [])
  count_loop counts (p ∷ ps) =
      let index = get_or counts (dst_box p) 0 in
      let rest = count_loop (set counts (dst_box p) (index + 1)) ps in (rest.0, index ∷ rest.1)

  -- The second loop. The particles have been marked by the first.
  unfoldable pub offset_loop : List ℕ → List (Particle R) → List ℕ → List ℕ
  unfolding dst_box
  offset_loop offsets [] ds = []
  offset_loop offsets (p ∷ ps) [] = []
  offset_loop offsets (p ∷ ps) (d ∷ ds) =
      (d + get_or offsets (dst_box p) 0) ∷ offset_loop offsets ps ds

  -- BoxSorter::sortParticlesByBox: the new content of the beam, with the sorter.
  unfoldable pub sort_particles_by_box :
      Scatter (Particle R) → List (Particle R) → List (Particle R) × BoxSorter
  unfolding count_loop offset_loop mark exclusive_scan
  sort_particles_by_box s beam =
      let counted = count_loop (replicate (num_boxes + 1) 0) beam in
      let offsets = exclusive_scan 0 counted.0 in
      let marked = map mark beam in
      (
        s.scatter marked (offset_loop offsets marked counted.1),
        record { box_counts = counted.0; box_offsets = offsets },
      )

-- The while loop of BoxSorter::leftmostBoxWithParticles, with `left` boxes up to the last rank's.
unfoldable pub leftmost_loop : List ℕ → ℕ → ℕ → Result ℕ
leftmost_loop counts boxid zero = do _ ← read counts boxid; ok boxid
leftmost_loop counts boxid (suc left) = do
  c ← read counts boxid
  let rest = leftmost_loop counts (boxid + 1) left
  if c == 0 then rest else ok boxid

-- BoxSorter::leftmostBoxWithParticles on `nprocs` processes.
unfoldable pub leftmost_box_with_particles : ℕ → BoxSorter → Result ℕ
unfolding leftmost_loop
leftmost_box_with_particles nprocs s = leftmost_loop s.box_counts 0 (nprocs - 1)
