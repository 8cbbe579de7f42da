-- ===== src/Pipeline/Finish/Frame.antt =====
-- What NotifyFinish leaves alone, and when it succeeds.
use hipace.Prelude.{
  ℕ, ◌+◌, ◌≡◌, ◌∙◌, true, false, ok, arith, Bool-cases, ◌==◌, inl, inr, if◌then◌else◌, ◌>>=◌, ap,
}
use hipace.Reals.{Real}
use hipace.Pipeline.State.{Rank}
use hipace.Pipeline.Finish.{finish_channel, finish_time, notify_finish}

module _ {R P K : Type 0} where
  pub record IsFinished (r f : Rank R P K) : Type 0 where
    pub beams_eq : f.beams ≡ r.beams
    pub sorters_eq : f.box_sorters ≡ r.box_sorters
    pub numprocs_eq : f.numprocs_z ≡ r.numprocs_z
    pub rank_eq : f.rank_z ≡ r.rank_z
    pub max_step_eq : f.max_step ≡ r.max_step
    pub skip_eq : f.skip_empty_comms ≡ r.skip_empty_comms
    pub snd_eq : f.leftmost_box_snd ≡ r.leftmost_box_snd
    pub rcv_eq : f.leftmost_box_rcv ≡ r.leftmost_box_rcv
    pub time_eq : f.physical_time ≡ r.physical_time
    pub dt_eq : f.dt ≡ r.dt

  finish_channel-IsFinished : (r : Rank R P K) → IsFinished r (finish_channel r false)
  unfolding finish_channel
  finish_channel-IsFinished r = ground arith

  IsFinished-trans : (r f g : Rank R P K) → IsFinished r f → IsFinished f g → IsFinished r g
  IsFinished-trans r f g a b = record {
    beams_eq = b.beams_eq ∙ a.beams_eq;
    sorters_eq = b.sorters_eq ∙ a.sorters_eq;
    numprocs_eq = b.numprocs_eq ∙ a.numprocs_eq;
    rank_eq = b.rank_eq ∙ a.rank_eq;
    max_step_eq = b.max_step_eq ∙ a.max_step_eq;
    skip_eq = b.skip_eq ∙ a.skip_eq;
    snd_eq = b.snd_eq ∙ a.snd_eq;
    rcv_eq = b.rcv_eq ∙ a.rcv_eq;
    time_eq = b.time_eq ∙ a.time_eq;
    dt_eq = b.dt_eq ∙ a.dt_eq;
  }

  module _ ⦃real : Real R⦄ where
    abbrev waited : Rank R P K → Rank R P K
    waited r =
        if real.le r.initial_time r.tsend_buffer
        then record r {
          tsend_request = false;
          tsend_buffer = real.sub r.initial_time (real.of_int 1);
        }
        else r

    finish_time_lem :
        (r : Rank R P K) (it : ℕ)
        → real.le (real.of_int 0) r.dt ≡ true
        → finish_time r it ≡ ok (if (it + 1) == r.numprocs_z then waited r else r)
    unfolding finish_time
    finish_time_lem r it h = elim (Bool-cases ((it + 1) == r.numprocs_z)) [
      | inl last ↦ rw (last, h)
      | inr inner ↦ rw inner
    ]

    waited-IsFinished :
        (r : Rank R P K) (it : ℕ) → IsFinished r (if (it + 1) == r.numprocs_z then waited r else r)
    waited-IsFinished r it = ground arith

    pub IsFinished-of :
        (r : Rank R P K) (it : ℕ)
        → real.le (real.of_int 0) r.dt ≡ true
        → (f : Rank R P K) × (notify_finish r it false ≡ ok f) × IsFinished r f
    unfolding notify_finish
    IsFinished-of r it h =
        let timed : Rank R P K = if (it + 1) == r.numprocs_z then waited r else r in
        (
          finish_channel timed false,
          ap (λ m. m >>= λ u. ok (finish_channel u false)) (finish_time_lem r it h),
          IsFinished-trans r timed (finish_channel timed false) (waited-IsFinished r it)
              (finish_channel-IsFinished timed),
        )
