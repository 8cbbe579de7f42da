-- ===== src/PredictorCorrector.antt =====
-- Hipace::PredictorCorrectorLoopToSolveBxBy in src/Hipace.cpp. The plasma, the beams and the fields
-- that it works on are one state, whose operations are an interface.
pub mod Loop
use hipace.Prelude.{ℕ, zero, suc, ◌+◌, Bool, true, false, ◌&&◌, ltb, ◌==◌, if◌then◌else◌}
use hipace.Reals.{Real}

-- What the loop calls, on a state S.
pub record Solver (S R : Type 0) : Type 0 where
  -- ComputeRelBFieldError of the two previous slices, and of this slice against the iteration.
  pub previous_slices_error : S → R
  pub iteration_error : S → R
  pub initial_b_field_guess : (relative_b_field_error tolerance : R) → S → S
  -- FillBoundary of This, and of the currents of Next, on the transverse communicator.
  pub exchange_this : S → S
  pub exchange_next_currents : S → S
  -- The temporary arrays: zero for the iteration, Bx and By of This for the previous one.
  pub start_iterations : S → S
  -- MultiPlasma::AdvanceParticles, by its four flags: temporary slice, push, update and shift.
  pub advance_particles : (temp_slice do_push do_update do_shift : Bool) → S → S
  pub tile_sort : S → S
  pub deposit_plasma_current_next : S → S
  pub deposit_beam_current_next : S → S
  pub add_beam_currents_next : S → S
  pub solve_poisson_bx : S → S
  pub solve_poisson_by : S → S
  -- MixAndShiftBfields, with the error, that of the previous iteration and the mixing factor.
  pub mix_and_shift_bx : (error error_prev_iter mixing_factor : R) → S → S
  pub mix_and_shift_by : (error error_prev_iter mixing_factor : R) → S → S
  pub reset_next_currents : S → S
  pub reset_particles : S → S

-- The settings, and the local variables of the loop with the state.
pub record Settings (R : Type 0) : Type 0 where
  pub tolerance : R
  pub max_iterations : ℕ
  pub mixing_factor : R
  pub do_tiling : Bool

pub record Locals (S R : Type 0) : Type 0 where
  pub state : S
  pub relative_b_field_error : R
  pub relative_b_field_error_prev_iter : R
  pub i_iter : ℕ
  pub avg_iterations : R

module _ {S R : Type 0} ⦃real : Real R⦄ (solver : Solver S R) (set : Settings R) where
  -- The body of the while loop.
  unfoldable pub iteration : Locals S R → Locals S R
  iteration l =
      let i_iter = l.i_iter + 1 in
      let pushed = solver.advance_particles true true false false l.state in
      let sorted = if set.do_tiling then solver.tile_sort pushed else pushed in
      let plasma = solver.deposit_plasma_current_next sorted in
      let beam = solver.add_beam_currents_next (solver.deposit_beam_current_next plasma) in
      let exchanged = solver.exchange_next_currents beam in
      let solved = solver.solve_poisson_by (solver.solve_poisson_bx exchanged) in
      let error = solver.iteration_error solved in
      let error_prev_iter = if i_iter == 1 then error else l.relative_b_field_error_prev_iter in
      let mixed_x = solver.mix_and_shift_bx error error_prev_iter set.mixing_factor solved in
      let mixed_y = solver.mix_and_shift_by error error_prev_iter set.mixing_factor mixed_x in
      let cleaned = solver.exchange_this (solver.reset_next_currents mixed_y) in
      record {
        state = solver.advance_particles false false true false cleaned;
        relative_b_field_error = error;
        relative_b_field_error_prev_iter = error;
        i_iter = i_iter;
        avg_iterations = real.add l.avg_iterations (real.of_int 1);
      }

  -- `relative_Bfield_error > tolerance && i_iter < max_iterations`.
  abbrev pub goes_on : Locals S R → Bool
  goes_on l = real.lt set.tolerance l.relative_b_field_error && ltb l.i_iter set.max_iterations

  -- The while loop, for at most `fuel` rounds.
  unfoldable pub while_loop : ℕ → Locals S R → Locals S R
  while_loop zero l = l
  while_loop (suc fuel) l =
      let rest = while_loop fuel (iteration l) in if goes_on l then rest else l

  -- What comes before the loop.
  unfoldable pub before_loop : (avg_iterations : R) → S → Locals S R
  before_loop avg_iterations s =
      let error = solver.previous_slices_error s in
      let guessed = solver.exchange_this (solver.initial_b_field_guess error set.tolerance s) in
      record {
        state = solver.advance_particles false false true true (solver.start_iterations guessed);
        relative_b_field_error = real.of_int 1;
        relative_b_field_error_prev_iter = real.of_int 1;
        i_iter = 0;
        avg_iterations = avg_iterations;
      }

  -- PredictorCorrectorLoopToSolveBxBy, with the two averages: m_predcorr_avg_iterations and
  -- m_predcorr_avg_B_error. A round adds one to i_iter, so that `max_iterations` rounds are enough.
  unfoldable pub predictor_corrector_loop : (avg_iterations avg_b_error : R) → S → Locals S R × R
  unfolding while_loop before_loop
  predictor_corrector_loop avg_iterations avg_b_error s =
      let l = while_loop set.max_iterations (before_loop avg_iterations s) in
      (
        record l { state = solver.reset_particles l.state },
        real.add avg_b_error l.relative_b_field_error,
      )
