-- ===== src/Pipeline/Finish.antt =====
-- Hipace::NotifyFinish: wait for the sends of the last call, and free their buffers.
pub mod Buffers
pub mod Frame
use hipace.Prelude.{
  ℕ, suc, ◌+◌, Bool, true, false, Option, none, some, List, [], ◌∷◌, Result, ok, ◌>>=◌, ◌>>◌,
  always_assert, if◌then◌else◌, ltb, ◌==◌, length,
}
use hipace.Reals.{Real}
use hipace.Pipeline.State.{Channel, Rank, channel, set_channel}

-- `if (m_np_snd.size() > 0)`.
unfoldable pub finish_counts : {K : Type 0} → Channel K → Channel K
finish_counts c =
    if ltb 0 (length c.np_snd) then record c { np_snd = []; nsend_request = false } else c

module _ {R P K : Type 0} where
  -- `if (m_psend_buffer)`; the buffer goes back to the arena.
  unfoldable pub finish_buffer : Rank R P K → Bool → Rank R P K
  finish_buffer r g = elim (channel r g).psend_buffer [
    | none ↦ r
    | some _ ↦
        record (set_channel r g
          (record (channel r g) { psend_buffer = none; psend_request = false })) {
            frees = r.frees + 1;
          }
  ]

  unfoldable pub finish_channel : Rank R P K → Bool → Rank R P K
  unfolding finish_counts finish_buffer
  finish_channel r g = finish_buffer (set_channel r g (finish_counts (channel r g))) g

  -- The part that concerns the physical time.
  unfoldable pub finish_time : ⦃real : Real R⦄ → Rank R P K → ℕ → Result (Rank R P K)
  finish_time ⦃real⦄ r it =
      if (it + 1) == r.numprocs_z
      then (do
        always_assert (real.le (real.of_int 0) r.dt)
        ok (
            if real.le r.initial_time r.tsend_buffer
            then record r {
              tsend_request = false;
              tsend_buffer = real.sub r.initial_time (real.of_int 1);
            }
            else r))
      else ok r

  unfoldable pub notify_finish : ⦃real : Real R⦄ → Rank R P K → ℕ → Bool → Result (Rank R P K)
  unfolding finish_channel finish_time
  notify_finish r it true = ok (finish_channel r true)
  notify_finish r it false = do timed ← finish_time r it; ok (finish_channel timed false)

  -- Hipace::~Hipace, without the communicators.
  unfoldable pub destroy : ⦃real : Real R⦄ → Rank R P K → Result (Rank R P K)
  unfolding notify_finish
  destroy r = do finished ← notify_finish r 0 false; notify_finish finished 0 true
