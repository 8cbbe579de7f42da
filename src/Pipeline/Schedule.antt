-- ===== src/Pipeline/Schedule.antt =====
-- Which rank runs which time step: the outer loop of Hipace::Evolve.
use native.Mathlib.Nat.{div-add-mod, mod-lt}
use hipace.Prelude.{
  ℕ, zero, suc, ◌+◌, ◌-◌, ◌*◌, ◌/◌, ◌%◌, ◌≤◌, ◌<◌, ◌≡◌, List, [], ◌∷◌, if◌then◌else◌, leb, arith,
  In, subst, sym, ap, ◌==◌, ◌∙◌, ◌↔◌, inl, inr, Bool-cases,
}

-- `for (step = .. ; step <= m_max_step; step += m_numprocs_z)`, for at most `fuel` rounds.
unfoldable pub step_loop : (fuel numprocs_z max_step step : ℕ) → List ℕ
step_loop zero n max_step step = []
step_loop (suc fuel) n max_step step =
    let rest = step_loop fuel n max_step (step + n) in if leb step max_step then step ∷ rest else []

-- The steps that a rank runs, in order. Each round adds at least one to the step, so that
-- `max_step + 1` rounds are enough.
unfoldable pub steps : (numprocs_z max_step rank_z : ℕ) → List ℕ
unfolding step_loop
steps n max_step rank_z = step_loop (max_step + 1) n max_step (n - 1 - rank_z)

-- `(m_rank_z-1+m_numprocs_z)%m_numprocs_z`, the rank that Notify sends to.
abbrev pub next_rank : (numprocs_z rank_z : ℕ) → ℕ
next_rank n rank_z = (rank_z + n - 1) % n

step_loop-go :
    (fuel n max_step step : ℕ)
    → step ≤ max_step
    → step_loop (suc fuel) n max_step step ≡ step ∷ step_loop fuel n max_step (step + n)
unfolding step_loop
step_loop-go fuel n max_step step h = ground arith

step_loop-stop :
    (fuel n max_step step : ℕ) → max_step < step → step_loop (suc fuel) n max_step step ≡ []
unfolding step_loop
step_loop-stop fuel n max_step step h = ground arith

mul_suc : (step n j : ℕ) → (step + n) + n * j ≡ step + n * suc j
mul_suc step n j = grind arith

-- A step of the list is reached in some round.
record IsRound (n max_step step s : ℕ) : Type 0 where
  round : ℕ
  round_eq : s ≡ step + n * round
  in_time : s ≤ max_step

step_loop-IsRound :
    (fuel n max_step step s : ℕ) → In s (step_loop fuel n max_step step) → IsRound n max_step step s
unfolding step_loop
step_loop-IsRound zero n max_step step s h = elim h [ ]
step_loop-IsRound (suc fuel) n max_step step s h = elim (Bool-cases (leb step max_step)) [
  | inl go ↦ elim (subst (In s) (step_loop-go fuel n max_step step (ground arith)) h) [
    | inl e ↦ record { round = 0; round_eq = omega arith; in_time = ground arith }
    | inr later ↦
        let r = step_loop-IsRound fuel n max_step (step + n) s later in
        record {
          round = suc r.round;
          round_eq = r.round_eq ∙ mul_suc step n r.round;
          in_time = r.in_time;
        }
  ]
  | inr stop ↦ elim (subst (In s) (step_loop-stop fuel n max_step step (ground arith)) h) [ ]
]

step_loop-has :
    (fuel n max_step step j : ℕ)
    → 0 < n
    → max_step < step + fuel
    → step + n * j ≤ max_step
    → In (step + n * j) (step_loop fuel n max_step step)
step_loop-has zero n max_step step j pos enough h = absurd (grind arith)
step_loop-has (suc fuel) n max_step step zero pos enough h =
    subst (In (step + n * 0)) (sym (step_loop-go fuel n max_step step (grind arith)))
      (inl (grind arith))
step_loop-has (suc fuel) n max_step step (suc j) pos enough h =
    subst (In (step + n * suc j)) (sym (step_loop-go fuel n max_step step (grind arith))) (
      inr (
        subst (λ s. In s (step_loop fuel n max_step (step + n))) (mul_suc step n j)
          (step_loop-has fuel n max_step (step + n) j pos (omega arith)
            (grind (arith, mul_suc step n j)))))

-- The rank that runs a step: the highest rank starts with step 0.
abbrev pub owner : (numprocs_z step : ℕ) → ℕ
owner n s = n - 1 - s % n

mod_step : (n r j : ℕ) → r < n → (r + n * j) % n ≡ r
mod_step n r j h = grind arith

-- A rank runs a step up to the last one just when it is the step's owner: every step is run, and by
-- one rank only.
pub steps-In :
    (n max_step rank_z s : ℕ)
    → rank_z < n
    → s ≤ max_step
    → In s (steps n max_step rank_z) ↔ (rank_z ≡ owner n s)
unfolding steps
steps-In n max_step rank_z s h hs = (
  λ there.
      let r = step_loop-IsRound (max_step + 1) n max_step (n - 1 - rank_z) s there in
      let e : s % n ≡ n - 1 - rank_z =
        ap (λ t. t % n) r.round_eq ∙ mod_step n (n - 1 - rank_z) r.round (omega arith) in
      omega arith,
  λ own.
      let split : n * (s / n) + s % n ≡ s = div-add-mod s n in
      let small : s % n < n = mod-lt s (omega arith) in
      let e : n - 1 - rank_z + n * (s / n) ≡ s = omega arith in
      subst (λ t. In t (step_loop (max_step + 1) n max_step (n - 1 - rank_z))) e
        (step_loop-has (max_step + 1) n max_step (n - 1 - rank_z) (s / n) (omega arith)
          (omega arith) (omega arith)),
)

owner-suc : (n s : ℕ) → 0 < n → owner n (suc s) ≡ next_rank n (owner n s)
owner-suc n s h =
    let split : n * (s / n) + s % n ≡ s = div-add-mod s n in
    let small : s % n < n = mod-lt s h in
    elim (Bool-cases ((s % n + 1) == n)) [
      | inl wraps ↦
          let e : suc s ≡ 0 + n * (s / n + 1) = grind arith in
          let r : suc s % n ≡ 0 = ap (λ t. t % n) e ∙ mod_step n 0 (s / n + 1) h in
          let here : owner n s ≡ 0 = ground arith in
          let top : n - 1 ≡ n - 1 - 0 = omega arith in
          let same : n - 1 + n * 0 ≡ 0 + n - 1 = omega arith in
          rw (r, here) (sym top ∙ sym (mod_step n (n - 1) 0 (omega arith)) ∙ ap (λ t. t % n) same)
      | inr inner ↦
          let more : s % n + 1 < n = ground arith in
          let e : suc s ≡ (s % n + 1) + n * (s / n) = omega arith in
          let r : suc s % n ≡ s % n + 1 = ap (λ t. t % n) e ∙ mod_step n (s % n + 1) (s / n) more in
          let t : owner n s + n - 1 ≡ (n - 1 - (s % n + 1)) + n * 1 = omega arith in
          rw r (sym (mod_step n (n - 1 - (s % n + 1)) 1 (omega arith)) ∙ ap (λ x. x % n) (sym t))
    ]

-- The rank that Notify sends to from a rank that runs a step is one that runs the next step, if
-- there is one.
pub steps-next :
    (n max_step rank_z s : ℕ)
    → rank_z < n
    → suc s ≤ max_step
    → In s (steps n max_step rank_z)
    → In (suc s) (steps n max_step (next_rank n rank_z))
steps-next n max_step rank_z s h hs there =
    let own : rank_z ≡ owner n s = (steps-In n max_step rank_z s h (omega arith)).0 there in
    let small : next_rank n rank_z < n = mod-lt (rank_z + n - 1) (omega arith) in
    let e : next_rank n rank_z ≡ owner n (suc s) =
      ap (next_rank n) own ∙ sym (owner-suc n s (omega arith)) in
    (steps-In n max_step (next_rank n rank_z) (suc s) small hs).1 e
