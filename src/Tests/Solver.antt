-- ===== src/Tests/Solver.antt =====
-- The loops and the fields at small sizes.
use hipace.Prelude.{
  true, map, All, ◌<◌, ℕ, ◌≡◌, ◌+◌, ◌/◌, ◌≤◌, refl, arith, false, some, List, [], ◌∷◌, ok,
  get_elem?,
}
use hipace.Samples.{real, multifabs, particle}
use hipace.Sort.{BoxSorter}
use hipace.Particles.{Particle}
use hipace.Fields.{comps, Slices, Name, WhichSlice, get_field, shift_slices, add_beam_currents}
use hipace.Fields.Shift.{IsShifted, IsAdded, shift_slices-IsShifted, add_beam_currents-IsAdded}
use hipace.Fields.Edges.{IsOnlyThread, Side, beside, edge_of-IsOnlyThread}
use hipace.PredictorCorrector.{Solver, Settings, Locals, before_loop, predictor_corrector_loop}
use hipace.PredictorCorrector.Loop.{IsStopped, predictor_corrector_loop-IsStopped}
use hipace.SliceSolver.{SliceCall, Switches, Level, solve_one_slice}
use hipace.SliceSolver.SubSlices.{visited, solve_one_slice-visited}
use hipace.Diagnostics.{Word, key, select_components, component_indices}
use hipace.IoUtil.{name2open_pmd}
use hipace.IoUtil.Names.{IsNamed, name2open_pmd-IsNamed}
use hipace.Diagnostics.Selection.{IsFieldWord, select_components-All}
use hipace.TimeStep.{Physics, Data, reset, add_beams, new_time_step, calculate_boxes}
use hipace.TimeStep.Boxes.{gather_boxes, calculate_boxes-whole, calculate_boxes-one_process}

-- Component `c` of slice `s` holds 100 * s + c.
abbrev level : Slices (ℕ → ℕ)
level = record {
  next_slice = λ c. c;
  this_slice = λ c. 100 + c;
  previous1_slice = λ c. 200 + c;
  previous2_slice = λ c. 300 + c;
  rho_ions_slice = λ c. 400 + c;
}

shift_slices-IsShifted_example :
    (q : Slices (ℕ → ℕ)) × (get_elem?
        (shift_slices multifabs ⦃real = real⦄ 0 5 2 0 10 20 (level ∷ level ∷ []))
        1
      ≡ some q)
    × IsShifted multifabs ⦃real = real⦄ 5 2 0 10 20 level q Name.rho Name.by
shift_slices-IsShifted_example =
    shift_slices-IsShifted multifabs ⦃real = real⦄ 5 2 0 10 20 0 (level ∷ level ∷ []) 1 level
      Name.rho Name.by refl refl refl refl

add_beam_currents-IsAdded_example :
    IsAdded multifabs level (add_beam_currents multifabs WhichSlice.next level) WhichSlice.next
    × IsAdded multifabs level (add_beam_currents multifabs WhichSlice.this level) WhichSlice.this
    × (get_field multifabs
          (add_beam_currents multifabs WhichSlice.this level)
          WhichSlice.this
          Name.jz
        ≡ multifabs.plus
            (get_field multifabs level WhichSlice.this Name.jz)
            (get_field multifabs level WhichSlice.this Name.jz_beam))
add_beam_currents-IsAdded_example = add_beam_currents-IsAdded multifabs level

edge_of-IsOnlyThread_example : IsOnlyThread 4 3 1 2 (beside 4 3 1 2 Side.high_i 2)
edge_of-IsOnlyThread_example = edge_of-IsOnlyThread 4 3 1 2 Side.high_i 2 (omega arith)

-- A solver on a number that halves with each iteration, and is its own error.
abbrev halving : Solver ℕ ℕ
halving = record {
  previous_slices_error = λ s. s;
  iteration_error = λ s. s;
  initial_b_field_guess = λ e t s. s;
  exchange_this = λ s. s;
  exchange_next_currents = λ s. s;
  start_iterations = λ s. s;
  advance_particles = λ a b c d s. s;
  tile_sort = λ s. s;
  deposit_plasma_current_next = λ s. s;
  deposit_beam_current_next = λ s. s;
  add_beam_currents_next = λ s. s;
  solve_poisson_bx = λ s. s / 2;
  solve_poisson_by = λ s. s;
  mix_and_shift_bx = λ e p m s. s;
  mix_and_shift_by = λ e p m s. s;
  reset_next_currents = λ s. s;
  reset_particles = λ s. s;
}

abbrev settings : Settings ℕ
settings = record { tolerance = 0; max_iterations = 3; mixing_factor = 1; do_tiling = false }

predictor_corrector_loop-IsStopped_example :
    (l : Locals ℕ ℕ) × IsStopped ⦃real = real⦄ halving settings
      (before_loop ⦃real = real⦄ halving settings 0 100)
      l
    × ((predictor_corrector_loop ⦃real = real⦄ halving settings 0 0 100).0
        ≡ record l { state = halving.reset_particles l.state })
    × (l.i_iter ≤ settings.max_iterations)
predictor_corrector_loop-IsStopped_example =
    predictor_corrector_loop-IsStopped ⦃real = real⦄ halving settings 0 0 100

abbrev physics : Physics ℕ
physics = record {
  sqrt = λ a. a;
  abs = λ a. a;
  epsilon = 0;
  huge = 1000;
  pi = 300;
  c = 1;
  q_e = 1;
  ep0 = 1;
  m_e = 1;
}

abbrev beams_at : ℕ → List (List (Particle ℕ))
beams_at it = (particle 1 0 ∷ particle 2 5 ∷ particle 3 6 ∷ []) ∷ []

abbrev sorters_at : ℕ → List BoxSorter
sorters_at it = record { box_counts = 1 ∷ 2 ∷ 0 ∷ []; box_offsets = 0 ∷ 1 ∷ 3 ∷ [] } ∷ []

abbrev stale : Data ℕ
stale = record {
  sum_weights = 50;
  sum_weights_times_uz = 50;
  sum_weights_times_uz_squared = 50;
  min_uz = 1;
}

abbrev whole : Data ℕ
whole = record {
  sum_weights = 3;
  sum_weights_times_uz = 30;
  sum_weights_times_uz_squared = 300;
  min_uz = 10;
}

abbrev first_box : Data ℕ
first_box = record {
  sum_weights = 1;
  sum_weights_times_uz = 10;
  sum_weights_times_uz_squared = 100;
  min_uz = 10;
}

two_processes_run :
    calculate_boxes ⦃real = real⦄ physics 2 400 1 beams_at sorters_at 2 (5, stale) ≡ ok (30, whole)
unfolding calculate_boxes
two_processes_run = refl

calculate_boxes-whole_example :
    (gather_boxes ⦃real = real⦄ physics 2 400 1 beams_at sorters_at 2 (reset ⦃real = real⦄ physics)
      ≡ ok whole)
    × (new_time_step ⦃real = real⦄ physics 5 400 1 whole ≡ ok 30)
calculate_boxes-whole_example =
    calculate_boxes-whole ⦃real = real⦄ physics 2 400 1 beams_at sorters_at 0 5 stale (30, whole)
      refl two_processes_run

one_process_run :
    calculate_boxes ⦃real = real⦄ physics 1 400 1 beams_at sorters_at 2 (5, stale)
    ≡ ok (30, first_box)
unfolding calculate_boxes
one_process_run = refl

calculate_boxes-one_process_example :
    add_beams ⦃real = real⦄ physics false 0 0
      (beams_at 0)
      (sorters_at 0)
      (reset ⦃real = real⦄ physics)
    ≡ ok first_box
calculate_boxes-one_process_example =
    calculate_boxes-one_process ⦃real = real⦄ physics 1 400 1 beams_at sorters_at 1 (5, stale)
      (30, first_box) refl one_process_run

abbrev switches : Switches
switches = record { is_explicit = false; do_tiling = true; ionization_on = false }

abbrev levels : List Level
levels =
    record { ref_ratio_z = 1; small_end_z = 0 } ∷ record { ref_ratio_z = 2; small_end_z = 8 } ∷ []

solve_one_slice-visited_example :
    (out : List (ℕ × List (ℕ × List SliceCall))) × (solve_one_slice ⦃real = real⦄ 2 0 10 20 switches
        0 6 levels
      ≡ ok out)
    × (map (λ v. (v.0, map (λ w. w.0) v.1)) out ≡ visited ⦃real = real⦄ 2 0 10 20 0 6 levels)
solve_one_slice-visited_example =
    solve_one_slice-visited ⦃real = real⦄ 2 0 10 20 switches 0 6 levels

visited_run : visited ⦃real = real⦄ 2 0 10 20 0 6 levels ≡ (0, 6 ∷ []) ∷ (1, 13 ∷ 12 ∷ []) ∷ []
visited_run = refl

abbrev words : List Word
words = key Name.ez ∷ key Name.rho ∷ []

words_run : select_components words ≡ ok words
unfolding select_components
words_run = refl

select_components-All_example :
    All IsFieldWord words × All (λ i. i < comps WhichSlice.this Name.n) (component_indices words)
select_components-All_example = select_components-All words words words_run

-- "jx_a" cut at its underscore.
name2open_pmd-IsNamed_example :
    IsNamed (106 ∷ 120 ∷ 95 ∷ 97 ∷ []) (name2open_pmd (106 ∷ 120 ∷ 95 ∷ 97 ∷ []))
name2open_pmd-IsNamed_example = name2open_pmd-IsNamed (106 ∷ 120 ∷ 95 ∷ 97 ∷ [])
