-- ===== src/Pipeline/Memory.antt =====
-- The pinned buffers of Notify and Wait: the numbers of buffers allocated, freed and held by a channel.
use hipace.Prelude.{
  ℕ, ◌≡◌, refl, Bool, true, false, none, List, ok, arith, >>=-eq-ok, inl, inr, length, Bool-cases,
  Result-cases, ◌==◌,
}
use hipace.Reals.{Real}
use hipace.Particles.{Tile, Packing}
use hipace.Grid.{Box}
use hipace.Pipeline.State.{Rank, channel, Message}
use hipace.Pipeline.Finish.{notify_finish}
use hipace.Pipeline.Finish.Buffers.{IsBalanced, notify_finish-IsBalanced}
use hipace.Pipeline.Send.{
  BeamBins, Sent, send_time, last_step, send_particles, notify, lower_leftmost, send_step,
  notify_rest,
}
use hipace.Pipeline.State.{recv_counts}
use hipace.Pipeline.Receive.{
  receive_time, wait, receive_particles, lower_received, receive_box, split_counts,
}

module _ {R P K : Type 0} (t : Tile P) (k : Packing P K) where
  send_particles-IsBalanced :
      (r : Rank R P K) (bx : Box) (it : ℕ) (bins : List BeamBins) (g : Bool)
      (out : Rank R P K × Sent R K)
      → (channel r g).psend_buffer ≡ none
      → IsBalanced r
      → send_particles t k r bx it bins g ≡ ok out
      → IsBalanced out.0
  unfolding send_particles
  send_particles-IsBalanced r bx it bins true out free h e = ground arith
  send_particles-IsBalanced r bx it bins false out free h e = ground arith

  low_channel :
      (r : Rank R P K) (g : Bool)
      → (channel r g).psend_buffer ≡ none
      → (channel (lower_leftmost r) g).psend_buffer ≡ none
  low_channel r true h = h
  low_channel r false h = h

  send_step-IsBalanced :
      (r : Rank R P K) (bx : Box) (it : ℕ) (bins : List BeamBins) (g : Bool) (ms : Sent R K)
      (out : Rank R P K × Sent R K)
      → (channel r g).psend_buffer ≡ none
      → IsBalanced r
      → send_step t k r bx it bins g ms ≡ ok out
      → IsBalanced out.0
  unfolding send_step
  send_step-IsBalanced r bx it bins g ms out free h e =
      let low = lower_leftmost r in
      elim (Result-cases (send_particles t k low bx it bins g)) [
        | inl (sent, f) ↦
            ground
              (arith, send_particles-IsBalanced low bx it bins g sent (low_channel r g free) h f)
        | inr (_, f) ↦ ground arith
      ]

  last_step-keeps :
      (r : Rank R P K) (it : ℕ) (g : Bool) (out : Rank R P K × Sent R K)
      → last_step t r it g ≡ ok out
      → IsBalanced r
      → IsBalanced out.0
  unfolding last_step
  last_step-keeps r it true out e h = ground arith
  last_step-keeps r it false out e h = ground arith

  module _ ⦃real : Real R⦄ where
    send_time-keeps :
        (r : Rank R P K) (it : ℕ) (g : Bool)
        → let q = (send_time r it g).0 in
          (q.valid ≡ r.valid) × (q.ghost ≡ r.ghost) × (q.allocs ≡ r.allocs) × (q.frees ≡ r.frees)
    unfolding send_time
    send_time-keeps r it true = (refl, refl, refl, refl)
    send_time-keeps r it false = ground arith

    timed_channel :
        (r : Rank R P K) (it : ℕ) (g : Bool)
        → (channel r g).psend_buffer ≡ none
        → (channel (send_time r it g).0 g).psend_buffer ≡ none
    timed_channel r it true h = ground (arith, send_time-keeps r it true)
    timed_channel r it false h = ground (arith, send_time-keeps r it false)

    notify_rest-IsBalanced :
        (r : Rank R P K) (bx : Box) (step it : ℕ) (bins : List BeamBins) (g : Bool)
        (out : Rank R P K × Sent R K)
        → (channel r g).psend_buffer ≡ none
        → IsBalanced r
        → notify_rest t k r bx step it bins g ≡ ok out
        → IsBalanced out.0
    unfolding notify_rest
    notify_rest-IsBalanced r bx step it bins g out free h e =
        let keeps = send_time-keeps r it g in
        elim (Bool-cases (step == r.max_step)) [
          | inl last ↦ ground (arith, last_step-keeps r it g out)
          | inr more ↦
              send_step-IsBalanced (send_time r it g).0 bx it bins g (send_time r it g).1 out
                (timed_channel r it g free) (ground arith) (ground arith)
        ]

    -- Notify keeps the account of the buffers: whatever is allocated and not freed hangs on one of
    -- the two channels, also where the call before it had left a buffer there.
    pub notify-IsBalanced :
        (r : Rank R P K) (bx : Box) (step it : ℕ) (bins : List BeamBins) (g : Bool) (q : Rank R P K)
        (sent : Sent R K)
        → IsBalanced r
        → notify t k r bx step it bins g ≡ ok (q, sent)
        → IsBalanced q
    unfolding notify
    notify-IsBalanced r bx step it bins g q sent h e =
        let (finished, first, second) = >>=-eq-ok (notify_finish r it g) _ e in
        let (balanced, idle) = notify_finish-IsBalanced r finished it g first h in
        notify_rest-IsBalanced finished bx step it bins g (q, sent) idle.no_buffer balanced second

  receive_particles-IsBalanced :
      (r : Rank R P K) (g : Bool) (nps : List ℕ) (inbox : List (Message R K))
      (out : Rank R P K × List (Message R K))
      → IsBalanced r
      → receive_particles t k r g nps inbox ≡ ok out
      → IsBalanced out.0
  unfolding receive_particles
  receive_particles-IsBalanced r g nps inbox out h e = ground arith

  lower_received-IsBalanced :
      (r : Rank R P K) (g : Bool) (left : ℕ) → IsBalanced r → IsBalanced (lower_received r g left)
  lower_received-IsBalanced r true left h = h
  lower_received-IsBalanced r false left h = h

  receive_box-IsBalanced :
      (r : Rank R P K) (it : ℕ) (g : Bool) (inbox : List (Message R K))
      (out : Rank R P K × List (Message R K))
      → IsBalanced r
      → receive_box t k r it g inbox ≡ ok out
      → IsBalanced out.0
  unfolding receive_box
  receive_box-IsBalanced r it g inbox out h e = elim (Result-cases (recv_counts g inbox)) [
    | inl (counts, f) ↦ elim (Result-cases (split_counts (length r.beams) counts.0)) [
      | inl (split, f') ↦ ground (
        arith,
        receive_particles-IsBalanced (lower_received r g split.1) g split.0 counts.1 out
            (lower_received-IsBalanced r g split.1 h),
      )
      | inr (_, f') ↦ ground arith
    ]
    | inr (_, f) ↦ ground arith
  ]

  receive_time-IsBalanced :
      (r : Rank R P K) (it : ℕ) (g : Bool) (inbox : List (Message R K))
      (out : Rank R P K × List (Message R K))
      → IsBalanced r
      → receive_time r it g inbox ≡ ok out
      → IsBalanced out.0
  unfolding receive_time
  receive_time-IsBalanced r it true inbox out h e = ground arith
  receive_time-IsBalanced r it false inbox out h e = ground arith

  -- Wait keeps the account of the buffers too: the buffer that it receives into is freed before it
  -- returns.
  pub wait-IsBalanced :
      (r : Rank R P K) (step it : ℕ) (g : Bool) (inbox : List (Message R K)) (q : Rank R P K)
      (rest : List (Message R K))
      → IsBalanced r
      → wait t k r step it g inbox ≡ ok (q, rest)
      → IsBalanced q
  unfolding wait
  wait-IsBalanced r step it g inbox q rest h e = elim (Result-cases (receive_time r it g inbox)) [
    | inl (timed, f) ↦ ground (
      arith,
      receive_box-IsBalanced timed.0 it g timed.1 (q, rest)
          (receive_time-IsBalanced r it g inbox timed h f),
    )
    | inr (_, f) ↦ ground arith
  ]
