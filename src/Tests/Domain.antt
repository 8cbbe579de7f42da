-- ===== src/Tests/Domain.antt =====
-- A domain of 4 by 4 by 8 cells on two ranks, its particles, and a time step on it.
use hipace.Prelude.{
  ℕ, ◌≡◌, ◌+◌, refl, arith, true, false, Option, none, some, List, [], ◌∷◌, ◌++◌, ok, inl,
  get_elem?, get_or, length, take, range_down, if◌then◌else◌, ltb,
}
use hipace.Particles.{Particle}
use hipace.Samples.{real, tile, scatter, particle}
use hipace.Grid.{IntVect, vect, Box, Procs, post_process_base_grids, make_distribution_mapping}
use hipace.Grid.Partition.{IsOnlyHolder, post_process_base_grids-IsOnlyHolder}
use hipace.Grid.Ranks.{make_distribution_mapping-cyclic}
use hipace.Sort.{BoxSorter, dst_box, mark, sort_particles_by_box}
use hipace.Sort.Buckets.{occurrences}
use hipace.Sort.Scan.{total}
use hipace.Sort.Order.{
  IsLocator, sort_particles_by_box-stable, sort_particles_by_box-segment,
  sort_particles_by_box-tiling,
}
use hipace.Evolve.{Call, Setup, box_calls, step_calls, evolve_step}
use hipace.Evolve.Slices.{solved, evolve_step-solved}
use hipace.Pipeline.Packets.{appended}
use hipace.MultiBeam.{
  pack_local_ghost_particles, check_ghosts, store_n_real_particles, remove_ghosts,
}
use hipace.MultiBeam.Ghosts.{HaveLeftBoxes, left_particles, checked, ghosts-removed}

abbrev procs : Procs
procs = record { numprocs_x = 1; numprocs_y = 1; numprocs_z = 2; boxes_in_z = 1; rank_z = 1 }

abbrev cells : IntVect
cells = vect 4 4 8

abbrev boxes : List Box
boxes =
    record { small_end = vect 0 0 0; big_end = vect 3 3 3 }
    ∷ record { small_end = vect 0 0 4; big_end = vect 3 3 7 }
    ∷ []

boxes_run : post_process_base_grids procs cells ≡ ok boxes
unfolding post_process_base_grids hipace.Grid.plane hipace.Grid.row hipace.Grid.block
boxes_run = refl

abbrev ranks : List ℕ
ranks = 0 ∷ 1 ∷ []

ranks_run : make_distribution_mapping procs 2 ≡ ok ranks
unfolding make_distribution_mapping hipace.Grid.rank_plane hipace.Grid.rank_row hipace.Grid.rank_of
ranks_run = refl

post_process_base_grids-IsOnlyHolder_example : (q : ℕ) × IsOnlyHolder boxes (vect 1 2 5) q
post_process_base_grids-IsOnlyHolder_example =
    post_process_base_grids-IsOnlyHolder procs cells boxes boxes_run (vect 1 2 5) (omega arith)
      (omega arith) (omega arith)

make_distribution_mapping-cyclic_example : (length ranks ≡ 2) × (get_elem? ranks 1 ≡ some 1)
make_distribution_mapping-cyclic_example =
    make_distribution_mapping-cyclic procs 2 1 ranks ranks_run (inl refl) (omega arith)

abbrev setup : Setup
setup = record { procs = procs; max_step = 3; is_explicit = false; do_tiling = false }

abbrev calls : List Call
calls = step_calls false false 1 (box_calls true false 1 4 7 ++ (box_calls false true 0 0 3 ++ []))

step_run : evolve_step setup boxes 1 ≡ ok calls
unfolding evolve_step
step_run = refl

evolve_step-solved_example : solved calls ≡ range_down 0 8
evolve_step-solved_example =
    evolve_step-solved setup cells boxes ranks 1 calls refl refl boxes_run ranks_run step_run

slices_run : solved calls ≡ 7 ∷ 6 ∷ 5 ∷ 4 ∷ 3 ∷ 2 ∷ 1 ∷ 0 ∷ []
slices_run = refl

-- Particles by their slice, in two boxes of four slices; further out lies no box.
abbrev locate : Particle ℕ → Option ℕ
locate p = if ltb p.z 4 then some 0 else (if ltb p.z 8 then some 1 else none)

locate-IsLocator : IsLocator locate 2
locate-IsLocator = record { in_range = λ p b e. ground arith; id_free = λ p. refl }

abbrev beam : List (Particle ℕ)
beam = particle 1 5 ∷ particle 2 9 ∷ particle 3 0 ∷ particle 4 6 ∷ []

abbrev filler : Particle ℕ
filler = particle 0 0

abbrev sorted : List (Particle ℕ) × BoxSorter
sorted = sort_particles_by_box locate 2 (scatter filler) beam

sort_particles_by_box-stable_example :
    (length sorted.0 ≡ length beam)
    × (get_elem? sorted.0 (
          occurrences locate 2 (dst_box locate 2 (particle 4 6)) (take 3 beam)
          + get_or sorted.1.box_offsets (dst_box locate 2 (particle 4 6)) 0)
        ≡ some (mark locate 2 (particle 4 6)))
sort_particles_by_box-stable_example =
    sort_particles_by_box-stable locate-IsLocator (scatter filler) beam 3 (particle 4 6) refl

counts_run : sorted.1.box_counts ≡ 1 ∷ 2 ∷ 1 ∷ []
unfolding sort_particles_by_box
counts_run = refl

sort_particles_by_box-segment_example :
    (p : Particle ℕ) × (i : ℕ) × (get_elem? beam i ≡ some p)
    × (dst_box locate 2 p ≡ 1)
    × (get_elem? sorted.0 (1 + get_or sorted.1.box_offsets 1 0) ≡ some (mark locate 2 p))
unfolding sort_particles_by_box
sort_particles_by_box-segment_example =
    sort_particles_by_box-segment locate-IsLocator (scatter filler) beam 1 1 (omega arith)
      (omega arith)

sort_particles_by_box-tiling_example :
    (get_or sorted.1.box_offsets 0 0 ≡ 0)
    × (get_or sorted.1.box_offsets 2 0
        ≡ get_or sorted.1.box_offsets 1 0 + get_or sorted.1.box_counts 1 0)
    × (total sorted.1.box_counts ≡ length beam)
    × (length sorted.1.box_counts ≡ 2 + 1)
sort_particles_by_box-tiling_example =
    sort_particles_by_box-tiling locate-IsLocator (scatter filler) beam 1 (omega arith)

abbrev sorter : BoxSorter
sorter = record { box_counts = 0 ∷ 2 ∷ 1 ∷ []; box_offsets = 0 ∷ 0 ∷ 2 ∷ [] }

abbrev sorted_beams : List (List (Particle ℕ))
sorted_beams = (particle 1 0 ∷ particle 2 3 ∷ particle 3 5 ∷ []) ∷ []

abbrev sorters : List BoxSorter
sorters = record { box_counts = 2 ∷ 1 ∷ 0 ∷ []; box_offsets = 0 ∷ 2 ∷ 3 ∷ [] } ∷ []

left_boxes : HaveLeftBoxes 0 sorted_beams sorters
left_boxes = (
  record {
    left = 0;
    curr = 2;
    left_eq = refl;
    curr_eq = refl;
    left_le = omega arith;
    curr_le = omega arith;
  },
  tt,
)

abbrev ghosts : List (List (Particle ℕ))
ghosts = left_particles 0 sorted_beams sorters left_boxes

ghosts-removed_example :
    (pack_local_ghost_particles (tile filler) 0 sorted_beams sorters
      ≡ ok (appended sorted_beams ghosts))
    × (check_ghosts ⦃real = real⦄ 3 4
          (appended sorted_beams ghosts)
          (store_n_real_particles sorted_beams)
        ≡ ok (appended sorted_beams (checked ⦃real = real⦄ 3 4 ghosts)))
    × (remove_ghosts
          (tile filler)
          (appended sorted_beams (checked ⦃real = real⦄ 3 4 ghosts))
          (store_n_real_particles sorted_beams)
        ≡ ok sorted_beams)
ghosts-removed_example =
    ghosts-removed ⦃real = real⦄ (tile filler) 0 3 4 sorted_beams sorters left_boxes
