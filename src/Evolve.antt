-- ===== src/Evolve.antt =====
-- Hipace::Evolve in src/Hipace.cpp: what a rank does in a time step, as the sequence of its calls.
pub mod Slices
use hipace.Prelude.{
  ℕ, zero, suc, ◌+◌, ◌-◌, Bool, true, false, List, [], ◌∷◌, ◌++◌, map, Result, ok, err, ◌>>=◌, ◌>>◌,
  always_assert, if◌then◌else◌, ltb, leb, ◌==◌, range_down,
}
use hipace.Grid.{Box, Procs}
use hipace.Sort.{read}
use hipace.Pipeline.Schedule.{steps}

-- OpenPMDWriterCallType.
pub data CallType : Type 0 where
  beams fields : CallType

-- The calls of Evolve and what it does itself, with the arguments that change from call to call.
pub data Call : Type 0 where
  init_diagnostics : ℕ → Call
  check_density : Call
  reset_all_quantities : Call
  tile_sort : Call
  deposit_neutralizing_background : Call
  wait : (it : ℕ) → (only_ghost : Bool) → Call
  sort_particles_by_box : Call
  lower_leftmost_box_snd : Call
  write_diagnostics : (it : ℕ) → CallType → Call
  store_n_real_particles : Call
  pack_local_ghost_particles : (it : ℕ) → Call
  resize_f_diag_fab : (it : ℕ) → Call
  find_particles_in_each_slice : (it : ℕ) → Call
  solve_one_slice : (islice it : ℕ) → Call
  notify : (it : ℕ) → (only_ghost : Bool) → Call
  check_ghost_slice : (it : ℕ) → Call
  remove_ghosts : Call
  calculate_time_step : (it : ℕ) → Call
  average_diagnostics : (num_slices : ℕ) → Call
  reset_averages : Call
  advance_physical_time : Call

-- The members that Evolve reads.
pub record Setup : Type 0 where
  pub procs : Procs
  pub max_step : ℕ
  pub is_explicit : Bool
  pub do_tiling : Bool

-- `if (b) call`.
abbrev pub call_if : Bool → Call → List Call
call_if b c = if b then c ∷ [] else []

-- The calls of the loop over the boxes behind those for the central slices.
abbrev pub tail_calls : Bool → (it lo hi : ℕ) → List Call
tail_calls receives it lo hi =
    call_if receives (wait it true)
    ++ (check_ghost_slice it
        ∷ solve_one_slice lo it
        ∷ remove_ghosts
        ∷ calculate_time_step it
        ∷ average_diagnostics (hi + 1 - lo)
        ∷ write_diagnostics it CallType.fields
        ∷ notify it false
        ∷ [])

-- The calls of the loop over the boxes, for box number `it` with the slices `lo` to `hi`; there are
-- ghosts to receive unless this is the last box, and to send unless it is the first.
abbrev pub box_calls : (receives sends : Bool) → (it lo hi : ℕ) → List Call
box_calls receives sends it lo hi =
    (wait it false
      ∷ sort_particles_by_box
      ∷ lower_leftmost_box_snd
      ∷ write_diagnostics it CallType.beams
      ∷ store_n_real_particles
      ∷ [])
    ++ call_if receives (pack_local_ghost_particles (it - 1))
    ++ (resize_f_diag_fab it ∷ find_particles_in_each_slice it ∷ solve_one_slice hi it ∷ [])
    ++ call_if sends (notify it true)
    ++ map (λ islice. solve_one_slice islice it) (range_down (lo + 1) (hi - 1 - lo))
    ++ tail_calls receives it lo hi

-- The body of the loop over the boxes, for the box `bx` with number `it`: a box has three slices or
-- more.
unfoldable pub evolve_box : Setup → ℕ → Box → Result (List Call)
evolve_box s it bx = do
  always_assert (leb (bx.small_end.z + 2) bx.big_end.z)
  ok (box_calls (ltb 0 it) (ltb (it + 1) s.procs.numprocs_z) it bx.small_end.z bx.big_end.z)

-- `for (int it = n_boxes-1; it >= 0; --it)`.
unfoldable pub evolve_boxes : Setup → List Box → ℕ → Result (List Call)
unfolding evolve_box
evolve_boxes s boxes zero = ok []
evolve_boxes s boxes (suc it) = do
  bx ← read boxes it
  calls ← evolve_box s it bx
  rest ← evolve_boxes s boxes it
  ok (calls ++ rest)

-- `(m_boxes_in_z == 1) ? m_numprocs_z : m_boxes_in_z`.
abbrev pub n_boxes : Setup → ℕ
n_boxes s = if s.procs.boxes_in_z == 1 then s.procs.numprocs_z else s.procs.boxes_in_z

-- The calls of one time step, around those of the loop over the boxes.
abbrev pub step_calls : (is_explicit do_tiling : Bool) → ℕ → List Call → List Call
step_calls is_explicit do_tiling step calls =
    (init_diagnostics step ∷ [])
    ++ call_if is_explicit check_density
    ++ (reset_all_quantities ∷ [])
    ++ call_if do_tiling tile_sort
    ++ (deposit_neutralizing_background ∷ [])
    ++ calls
    ++ (reset_averages ∷ advance_physical_time ∷ [])

-- One time step.
unfoldable pub evolve_step : Setup → List Box → ℕ → Result (List Call)
unfolding evolve_boxes
evolve_step s boxes step = do
  calls ← evolve_boxes s boxes (n_boxes s)
  ok (step_calls s.is_explicit s.do_tiling step calls)

-- The loop over the steps of this rank: each step with its calls.
unfoldable pub evolve_steps : Setup → List Box → List ℕ → Result (List (ℕ × List Call))
unfolding evolve_step
evolve_steps s boxes [] = ok []
evolve_steps s boxes (step ∷ later) = do
  calls ← evolve_step s boxes step
  rest ← evolve_steps s boxes later
  ok ((step, calls) ∷ rest)

unfoldable pub evolve : Setup → List Box → Result (List (ℕ × List Call))
unfolding evolve_steps
evolve s boxes = evolve_steps s boxes (steps s.procs.numprocs_z s.max_step s.procs.rank_z)
