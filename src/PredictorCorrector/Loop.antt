-- ===== src/PredictorCorrector/Loop.antt =====
-- The predictor-corrector loop stops: how many iterations it makes, and why it stops.
use hipace.Prelude.{
  ℕ, zero, suc, ◌+◌, ◌≤◌, ◌<◌, ◌≡◌, refl, subst, sym, true, false, arith, Bool-cases, inl, inr,
}
use hipace.Reals.{Real}
use hipace.PredictorCorrector.{
  Solver, Settings, Locals, iteration, goes_on, while_loop, before_loop, predictor_corrector_loop,
}

module _ {S R : Type 0} ⦃real : Real R⦄ (solver : Solver S R) (set : Settings R) where
  -- `n` iterations, with no test.
  abbrev pub iterations : ℕ → Locals S R → Locals S R
  iterations zero l = l
  iterations (suc n) l = iterations n (iteration solver set l)

  i_iter-iteration : (l : Locals S R) → (iteration solver set l).i_iter ≡ l.i_iter + 1
  unfolding iteration
  i_iter-iteration l = refl

  -- The loop leaves `l` after some number of iterations, at the first point at which its test fails.
  pub record IsStopped (l out : Locals S R) : Type 0 where
    pub rounds : ℕ
    pub out_eq : out ≡ iterations rounds l
    pub i_iter_eq : out.i_iter ≡ l.i_iter + rounds
    pub at_most : out.i_iter ≤ set.max_iterations
    pub stops : goes_on solver set out ≡ false
    pub went_on : (j : ℕ) → j < rounds → goes_on solver set (iterations j l) ≡ true

  loop-go :
      (fuel : ℕ) (l : Locals S R)
      → goes_on solver set l ≡ true
      → while_loop solver set (suc fuel) l ≡ while_loop solver set fuel (iteration solver set l)
  unfolding while_loop
  loop-go fuel l go = rw go refl

  loop-stop :
      (fuel : ℕ) (l : Locals S R)
      → goes_on solver set l ≡ false
      → while_loop solver set (suc fuel) l ≡ l
  unfolding while_loop
  loop-stop fuel l stop = rw stop refl

  went_on-suc :
      (l : Locals S R) (n : ℕ)
      → goes_on solver set l ≡ true
      → ((j : ℕ) → j < n → goes_on solver set (iterations j (iteration solver set l)) ≡ true)
      → (j : ℕ) → j < suc n
      → goes_on solver set (iterations j l) ≡ true
  went_on-suc l n go h zero hj = go
  went_on-suc l n go h (suc j) hj = h j (omega arith)

  while_loop-IsStopped :
      (fuel : ℕ) (l : Locals S R)
      → l.i_iter + fuel ≡ set.max_iterations
      → IsStopped l (while_loop solver set fuel l)
  unfolding while_loop
  while_loop-IsStopped zero l h = record {
    rounds = 0;
    out_eq = refl;
    i_iter_eq = omega arith;
    at_most = omega arith;
    stops = ground arith;
    went_on = λ j hj. absurd (omega arith);
  }
  while_loop-IsStopped (suc fuel) l h = elim (Bool-cases (goes_on solver set l)) [
    | inl go ↦
        let next = i_iter-iteration l in
        let r = while_loop-IsStopped fuel (iteration solver set l) (omega arith) in
        subst (IsStopped l) (sym (loop-go fuel l go)) (record {
          rounds = suc r.rounds;
          out_eq = r.out_eq;
          i_iter_eq = omega (arith, r.i_iter_eq);
          at_most = r.at_most;
          stops = r.stops;
          went_on = went_on-suc l r.rounds go r.went_on;
        })
    | inr stop ↦ subst (IsStopped l) (sym (loop-stop fuel l stop)) (record {
      rounds = 0;
      out_eq = refl;
      i_iter_eq = omega arith;
      at_most = omega arith;
      stops = stop;
      went_on = λ j hj. absurd (omega arith);
    })
  ]

  -- The predictor-corrector loop terminates: it makes some number of iterations, at most the
  -- largest one set, one after the other from what comes before the loop; the test of the loop holds
  -- before each of them and fails after the last. At the end it only resets the particles.
  pub predictor_corrector_loop-IsStopped :
      (avg_iterations avg_b_error : R) (s : S)
      → (l : Locals S R) × IsStopped (before_loop solver set avg_iterations s) l
        × ((predictor_corrector_loop solver set avg_iterations avg_b_error s).0
            ≡ record l { state = solver.reset_particles l.state })
        × (l.i_iter ≤ set.max_iterations)
  unfolding predictor_corrector_loop before_loop
  predictor_corrector_loop-IsStopped avg_iterations avg_b_error s =
      let r =
        while_loop-IsStopped set.max_iterations (before_loop solver set avg_iterations s)
          (omega arith) in
      (
        while_loop solver set set.max_iterations (before_loop solver set avg_iterations s),
        r,
        refl,
        r.at_most,
      )
