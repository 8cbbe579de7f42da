-- ===== src/TimeStep.antt =====
-- src/utils/AdaptiveTimeStep.cpp: AdaptiveTimeStep::Calculate, which gathers the momenta of the beam
-- box by box and sets the time step.
pub mod Boxes
use hipace.Prelude.{
  ℕ, zero, suc, ◌+◌, ◌-◌, ◌==◌, Bool, true, false, not, ◌&&◌, ◌||◌, List, [], ◌∷◌, drop, take,
  Result, Error, ok, err, ◌>>=◌, ◌>>◌, always_assert, if◌then◌else◌,
}
use hipace.Reals.{Real}
use hipace.Particles.{Particle}
use hipace.Sort.{BoxSorter, read}

-- Of the standard library and of PhysConst: functions and numbers that Calculate uses.
pub record Physics (R : Type 0) : Type 0 where
  pub sqrt : R → R
  pub abs : R → R
  pub epsilon : R
  pub huge : R
  pub pi : R
  pub c : R
  pub q_e : R
  pub ep0 : R
  pub m_e : R

-- m_timestep_data, by the names of WhichDouble.
pub record Data (R : Type 0) : Type 0 where
  pub sum_weights : R
  pub sum_weights_times_uz : R
  pub sum_weights_times_uz_squared : R
  pub min_uz : R

module _ {R : Type 0} ⦃real : Real R⦄ (ph : Physics R) where
  -- The values of the first box.
  abbrev pub reset : Data R
  reset = record {
    sum_weights = real.of_int 0;
    sum_weights_times_uz = real.of_int 0;
    sum_weights_times_uz_squared = real.of_int 0;
    min_uz = ph.huge;
  }

  -- std::min and std::max, which keep the first argument unless the second is less or greater.
  abbrev pub min_real : R → R → R
  min_real a b = if real.lt b a then b else a

  abbrev pub max_real : R → R → R
  max_real a b = if real.lt a b then b else a

  -- The body of the ParallelFor, for one particle.
  unfoldable pub add_particle : Data R → Particle R → Data R
  add_particle d p = if real.lt (ph.abs p.w) ph.epsilon then d else record {
    sum_weights = real.add d.sum_weights p.w;
    sum_weights_times_uz = real.add d.sum_weights_times_uz (real.div (real.mul p.w p.uz) ph.c);
    sum_weights_times_uz_squared =
        real.add d.sum_weights_times_uz_squared
          (real.div (real.div (real.mul (real.mul p.w p.uz) p.uz) ph.c) ph.c);
    min_uz = min_real d.min_uz (real.div p.uz ph.c);
  }

  unfoldable pub add_particles : Data R → List (Particle R) → Data R
  unfolding add_particle
  add_particles d [] = d
  add_particles d (p ∷ ps) = add_particles (add_particle d p) ps

  -- The particles of beam number `ibeam` that count: all of them, or those of box `it`.
  unfoldable pub counted_particles :
      Bool → (it ibeam : ℕ) → List (Particle R) → List BoxSorter → Result (List (Particle R))
  counted_particles true it ibeam beam sorters = ok beam
  counted_particles false it ibeam beam sorters = do
    s ← read sorters ibeam
    offset ← read s.box_offsets it
    count ← read s.box_counts it
    ok (take count (drop offset beam))

  -- The loop over the beams, from number `ibeam` on. What it has found as the least momentum of a
  -- beam is compared again with the value before the beam.
  unfoldable pub add_beams :
      Bool → (it ibeam : ℕ) → List (List (Particle R)) → List BoxSorter → Data R → Result (Data R)
  unfolding add_particles counted_particles
  add_beams initial it ibeam [] sorters d = ok d
  add_beams initial it ibeam (beam ∷ beams) sorters d = do
    ps ← counted_particles initial it ibeam beam sorters
    let q = add_particles d ps
    add_beams initial it (ibeam + 1) beams sorters
        (record q { min_uz = min_real d.min_uz q.min_uz })

  -- The time step from the data of the whole beam.
  unfoldable pub new_time_step : (dt plasma_density nt_per_betatron : R) → Data R → Result R
  new_time_step dt plasma_density nt_per_betatron d = do
    always_assert (not (real.eq d.sum_weights (real.of_int 0)))
    let mean_uz = real.div d.sum_weights_times_uz d.sum_weights
    let sigma_uz =
        ph.sqrt (real.sub (real.div d.sum_weights_times_uz_squared d.sum_weights) mean_uz)
    let sigma_uz_dev = real.sub mean_uz (real.mul (real.of_int 4) sigma_uz)
    let chosen_min_uz = min_real (max_real sigma_uz_dev d.min_uz) ph.huge
    let omega_p =
        ph.sqrt
          (real.div (real.mul (real.mul plasma_density ph.q_e) ph.q_e) (real.mul ph.ep0 ph.m_e))
    let omega_betatron = real.div omega_p (ph.sqrt (real.mul (real.of_int 2) chosen_min_uz))
    let new_dt = real.div (real.div (real.mul (real.of_int 2) ph.pi) omega_betatron) nt_per_betatron
    ok (if real.lt (real.of_int 1) chosen_min_uz then new_dt else dt)

  -- AdaptiveTimeStep::Calculate on `nprocs` processes: the new time step, and the data that it keeps.
  unfoldable pub calculate :
      (do_adaptive_time_step head_rank : Bool)
      → (nprocs : ℕ) → (plasma_density nt_per_betatron : R) → (it : ℕ) → (initial : Bool)
      → List (List (Particle R))
      → List BoxSorter
      → R × Data R
      → Result (R × Data R)
  unfolding add_beams new_time_step
  calculate do_adaptive head nprocs density nt it initial beams sorters (dt, d) =
      if not do_adaptive || (not head && initial) then ok (dt, d) else (do
        always_assert (real.lt (real.of_int 0) density)
        gathered ← add_beams initial it 0 beams sorters (if (it + 1) == nprocs then reset else d)
        new_dt ← (if (it == 0) || initial then new_time_step dt density nt gathered else ok dt)
        ok (new_dt, gathered))

  -- The calls of Calculate in the loop of Evolve over the boxes `it - 1` to 0, with the beams and
  -- the sorters of each box.
  unfoldable pub calculate_boxes :
      (nprocs : ℕ)
      → (plasma_density nt_per_betatron : R) → (ℕ → List (List (Particle R)))
      → (ℕ → List BoxSorter)
      → (it : ℕ) → R × Data R
      → Result (R × Data R)
  unfolding calculate
  calculate_boxes nprocs density nt beams sorters zero state = ok state
  calculate_boxes nprocs density nt beams sorters (suc it) state = do
    next ← calculate true true nprocs density nt it false (beams it) (sorters it) state
    calculate_boxes nprocs density nt beams sorters it next
