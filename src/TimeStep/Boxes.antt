-- ===== src/TimeStep/Boxes.antt =====
-- The calls of Calculate for the boxes of one time step: which boxes the new time step stands on.
use hipace.Prelude.{
  ℕ, zero, suc, ◌+◌, ◌==◌, ◌<◌, ◌≡◌, subst, true, false, List, Result, ok, ◌>>=◌, if◌then◌else◌,
  arith, >>=-eq-ok, ok-injective, always_assert, ◌||◌, ap, ◌∙◌, sym,
}
use hipace.Reals.{Real}
use hipace.Particles.{Particle}
use hipace.Sort.{BoxSorter}
use hipace.TimeStep.{Physics, Data, reset, add_beams, new_time_step, calculate, calculate_boxes}

module _ {R : Type 0} ⦃real : Real R⦄ (ph : Physics R) (nprocs : ℕ) (density nt : R)
    (beams : ℕ → List (List (Particle R))) (sorters : ℕ → List BoxSorter) where
  -- The data of the boxes `it - 1` to 0, added to `d`.
  abbrev pub gather_boxes : ℕ → Data R → Result (Data R)
  gather_boxes zero d = ok d
  gather_boxes (suc it) d =
      add_beams ph false it 0 (beams it) (sorters it) d >>= λ q. gather_boxes it q

  -- One round, for box `it`.
  record IsRound (it : ℕ) (dt : R) (d : Data R) (next : R × Data R) : Type 0 where
    data_eq :
        add_beams ph false it 0 (beams it) (sorters it) (if (it + 1) == nprocs then reset ph else d)
        ≡ ok next.1
    dt_eq :
        (if (it == 0) || false then new_time_step ph dt density nt next.1 else ok dt) ≡ ok next.0

  IsRound-of :
      (it : ℕ) (dt : R) (d : Data R) (next : R × Data R)
      → calculate ph true true nprocs density nt it false (beams it) (sorters it) (dt, d) ≡ ok next
      → IsRound it dt d next
  unfolding calculate
  IsRound-of it dt d next e =
      let (_, _, e1) = >>=-eq-ok (always_assert (real.lt (real.of_int 0) density)) _ e in
      let (gathered, data_eq, e2) =
        >>=-eq-ok
          (add_beams ph false it 0 (beams it) (sorters it)
            (if (it + 1) == nprocs then reset ph else d))
          _ e1 in
      let (new_dt, dt_eq, e3) =
        >>=-eq-ok (if (it == 0) || false then new_time_step ph dt density nt gathered else ok dt) _
          e2 in
      let same : (new_dt, gathered) ≡ next = ok-injective e3 in
      record {
        data_eq = data_eq ∙ ap (λ t. ok t.1) same;
        dt_eq =
            subst
              (λ t.
                (if (it == 0) || false then new_time_step ph dt density nt t.1 else ok dt) ≡ ok t.0)
              same dt_eq;
      }

  -- On boxes below that of the first reset, the data of all of them are added, and the last box sets
  -- the time step.
  later_boxes :
      (it : ℕ) (dt : R) (d : Data R) (out : R × Data R)
      → suc it < nprocs
      → calculate_boxes ph nprocs density nt beams sorters (suc it) (dt, d) ≡ ok out
      → (gather_boxes (suc it) d ≡ ok out.1) × (new_time_step ph dt density nt out.1 ≡ ok out.0)
  unfolding calculate_boxes
  later_boxes zero dt d out h e =
      let (next, called, rest) =
        >>=-eq-ok (calculate ph true true nprocs density nt 0 false (beams 0) (sorters 0) (dt, d)) _
          e in
      let r = IsRound-of 0 dt d next called in
      let no_reset : ((0 + 1) == nprocs) ≡ false = ground arith in
      let found : add_beams ph false 0 0 (beams 0) (sorters 0) d ≡ ok next.1 =
        subst
          (λ b.
            add_beams ph false 0 0 (beams 0) (sorters 0) (if b then reset ph else d) ≡ ok next.1)
          no_reset r.data_eq in
      let same : next ≡ out = ok-injective rest in
      (
        ap (λ m. m >>= λ q. ok q) found ∙ ap (λ t. ok t.1) same,
        subst (λ t. new_time_step ph dt density nt t.1 ≡ ok t.0) same r.dt_eq,
      )
  later_boxes (suc k) dt d out h e =
      let (next, called, rest) =
        >>=-eq-ok
          (calculate ph true true nprocs density nt (suc k) false (beams (suc k)) (sorters (suc k))
            (dt, d))
          _ e in
      let r = IsRound-of (suc k) dt d next called in
      let no_reset : ((suc k + 1) == nprocs) ≡ false = ground arith in
      let found : add_beams ph false (suc k) 0 (beams (suc k)) (sorters (suc k)) d ≡ ok next.1 =
        subst
          (λ b.
            add_beams ph false (suc k) 0 (beams (suc k)) (sorters (suc k))
              (if b then reset ph else d)
            ≡ ok next.1)
          no_reset r.data_eq in
      let inner : ((suc k == 0) || false) ≡ false = ground arith in
      let same_dt : dt ≡ next.0 = ok-injective (
        subst (λ b. (if b then new_time_step ph dt density nt next.1 else ok dt) ≡ ok next.0) inner
          r.dt_eq) in
      let (gathered, stepped) = later_boxes k next.0 next.1 out (omega arith) rest in
      (
        ap (λ m. m >>= λ q. gather_boxes (suc k) q) found ∙ gathered,
        subst (λ t. new_time_step ph t density nt out.1 ≡ ok out.0) (sym same_dt) stepped,
      )

  -- With as many boxes as processes, and more than one: where the calls of Calculate for the boxes
  -- of a time step complete, whatever data were left over from the step before, the data that the
  -- new time step is computed from are those of all boxes.
  pub calculate_boxes-whole :
      (n : ℕ) (dt : R) (d : Data R) (out : R × Data R)
      → nprocs ≡ suc (suc n)
      → calculate_boxes ph nprocs density nt beams sorters (suc (suc n)) (dt, d) ≡ ok out
      → (gather_boxes (suc (suc n)) (reset ph) ≡ ok out.1)
        × (new_time_step ph dt density nt out.1 ≡ ok out.0)
  unfolding calculate_boxes
  calculate_boxes-whole n dt d out h e =
      let (next, called, rest) =
        >>=-eq-ok
          (calculate ph true true nprocs density nt (suc n) false (beams (suc n)) (sorters (suc n))
            (dt, d))
          _ e in
      let r = IsRound-of (suc n) dt d next called in
      let resets : ((suc n + 1) == nprocs) ≡ true = ground arith in
      let found : add_beams ph false (suc n) 0 (beams (suc n)) (sorters (suc n)) (reset ph)
          ≡ ok next.1 =
        subst
          (λ b.
            add_beams ph false (suc n) 0 (beams (suc n)) (sorters (suc n))
              (if b then reset ph else d)
            ≡ ok next.1)
          resets r.data_eq in
      let inner : ((suc n == 0) || false) ≡ false = ground arith in
      let same_dt : dt ≡ next.0 = ok-injective (
        subst (λ b. (if b then new_time_step ph dt density nt next.1 else ok dt) ≡ ok next.0) inner
          r.dt_eq) in
      let (gathered, stepped) = later_boxes n next.0 next.1 out (omega arith) rest in
      (
        ap (λ m. m >>= λ q. gather_boxes (suc n) q) found ∙ gathered,
        subst (λ t. new_time_step ph t density nt out.1 ≡ ok out.0) (sym same_dt) stepped,
      )

  -- On one process with several boxes, where the calls of Calculate for the boxes of a time step
  -- complete, the data at the end are those of box 0 alone: they are reset for it.
  pub calculate_boxes-one_process :
      (n : ℕ) (state out : R × Data R)
      → nprocs ≡ 1
      → calculate_boxes ph nprocs density nt beams sorters (suc n) state ≡ ok out
      → add_beams ph false 0 0 (beams 0) (sorters 0) (reset ph) ≡ ok out.1
  unfolding calculate_boxes
  calculate_boxes-one_process zero state out h e =
      let (next, called, rest) =
        >>=-eq-ok (calculate ph true true nprocs density nt 0 false (beams 0) (sorters 0) state) _
          e in
      let r = IsRound-of 0 state.0 state.1 next called in
      let resets : ((0 + 1) == nprocs) ≡ true = ground arith in
      subst
        (λ b.
          add_beams ph false 0 0 (beams 0) (sorters 0) (if b then reset ph else state.1)
          ≡ ok next.1)
        resets r.data_eq
      ∙ ap (λ t. ok t.1) (ok-injective rest)
  calculate_boxes-one_process (suc k) state out h e =
      let (next, called, rest) =
        >>=-eq-ok
          (calculate ph true true nprocs density nt (suc k) false (beams (suc k)) (sorters (suc k))
            state)
          _ e in
      calculate_boxes-one_process k next out h rest
