-- ===== src/MultiBeam.antt =====
-- src/particles/MultiBeam.cpp: the ghost particles behind the particles of each beam, and
-- Hipace::CheckGhostSlice.
pub mod Ghosts
use hipace.Prelude.{
  ℕ, zero, suc, ◌+◌, ◌-◌, ◌||◌, Bool, true, false, List, [], ◌∷◌, map, length, set, take, drop,
  Result, Error, ok, err, ◌>>=◌, if◌then◌else◌, ℤ, negsuc, ◌++◌, ◌==◌,
}
use hipace.Reals.{Real}
use hipace.Particles.{Particle, Tile}
use hipace.Grid.{Box}
use hipace.Sort.{BoxSorter, read}

module _ {P : Type 0} where
  -- StoreNRealParticles: m_n_real_particles.
  unfoldable pub store_n_real_particles : List (List P) → List ℕ
  store_n_real_particles [] = []
  store_n_real_particles (tile ∷ tiles) = length tile ∷ store_n_real_particles tiles

  -- RemoveGhosts.
  unfoldable pub remove_ghosts : Tile P → List (List P) → List ℕ → Result (List (List P))
  remove_ghosts t [] ns = ok []
  remove_ghosts t (tile ∷ tiles) [] = err Error.out_of_range
  remove_ghosts t (tile ∷ tiles) (n ∷ ns) = do
    rest ← remove_ghosts t tiles ns
    ok (t.resize tile n ∷ rest)

  -- The ParallelFor of PackLocalGhostParticles: `n` particles from `src` on are written from `dst` on.
  unfoldable pub copy_particles : (src dst n : ℕ) → List P → Result (List P)
  copy_particles src dst zero tile = ok tile
  copy_particles src dst (suc n) tile = do
    p ← read tile src
    copy_particles (src + 1) (dst + 1) n (set tile dst p)

  -- PackLocalGhostParticles, for the box `it` on the left.
  unfoldable pub pack_local_ghost_particles :
      Tile P → ℕ → List (List P) → List BoxSorter → Result (List (List P))
  unfolding copy_particles
  pack_local_ghost_particles t it [] ss = ok []
  pack_local_ghost_particles t it (tile ∷ tiles) [] = err Error.out_of_range
  pack_local_ghost_particles t it (tile ∷ tiles) (s ∷ ss) = do
    offset_box_left ← read s.box_offsets it
    offset_box_curr ← read s.box_offsets (it + 1)
    let nghost = offset_box_curr - offset_box_left
    let old_size = length tile
    grown ← copy_particles offset_box_left old_size nghost (t.resize tile (old_size + nghost))
    rest ← pack_local_ghost_particles t it tiles ss
    ok (grown ∷ rest)

module _ {R : Type 0} ⦃real : Real R⦄ where
  -- The ParallelFor of CheckGhostSlice: a ghost outside the cell on the left gets the id -1.
  unfoldable pub check_ghost : (zmin_leftcell zmax_leftcell : R) → Particle R → Particle R
  check_ghost lo hi p = if real.lt p.z lo || real.lt hi p.z then record p { id = negsuc 0 } else p

  -- The ghosts are the particles behind the first `nreal`.
  unfoldable pub check_ghosts :
      (zmin_leftcell zmax_leftcell : R)
      → List (List (Particle R))
      → List ℕ
      → Result (List (List (Particle R)))
  unfolding check_ghost
  check_ghosts lo hi [] ns = ok []
  check_ghosts lo hi (beam ∷ beams) [] = err Error.out_of_range
  check_ghosts lo hi (beam ∷ beams) (nreal ∷ ns) = do
    rest ← check_ghosts lo hi beams ns
    ok ((take nreal beam ++ map (check_ghost lo hi) (drop nreal beam)) ∷ rest)

  -- Hipace::CheckGhostSlice, for the box `bx` with number `it`. A box other than the first starts
  -- at index 1 or above.
  unfoldable pub check_ghost_slice :
      (it : ℕ)
      → Box
      → (dz dom_lo : R) → List (List (Particle R))
      → List ℕ
      → Result (List (List (Particle R)))
  unfolding check_ghosts
  check_ghost_slice it bx dz dom_lo beams n_real =
      let ilo = bx.small_end.z in
      let zmin_leftcell = real.add dom_lo (real.mul dz (real.of_int (ilo - 1))) in
      let zmax_leftcell = real.add dom_lo (real.mul dz (real.of_int ilo)) in
      if it == 0 then ok beams else check_ghosts zmin_leftcell zmax_leftcell beams n_real
