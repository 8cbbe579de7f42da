-- ===== src/Pipeline/Delivery.antt =====
-- Notify against Wait: what one rank sends of a box is what the rank downstream receives of it.
use hipace.Prelude.{
  ℕ, suc, ◌+◌, ◌-◌, ◌%◌, ◌<◌, ◌≡◌, refl, sym, ap, ◌∙◌, List, [], ◌∷◌, ◌++◌, map, arith, min, All,
  true, false, ◌&&◌, ok, ◌>>=◌, length, if◌then◌else◌, ◌==◌, ltb, Bool-cases, inl, inr, subst,
}
use hipace.Reals.{Real}
use hipace.Particles.{Tile, Packing}
use hipace.Grid.{Box}
use hipace.Pipeline.State.{Rank, Message, time_message, recv_time}
use hipace.Pipeline.Finish.{notify_finish}
use hipace.Pipeline.Finish.Frame.{IsFinished, IsFinished-of}
use hipace.Pipeline.Send.{
  BeamBins, sum, downstream, Sent, send_time, skips, lower_leftmost, send_step, notify_rest, notify,
}
use hipace.Pipeline.Receive.{receive_time, receive_box, wait}
use hipace.Pipeline.Packets.{AreSegments, segments, appended, lengths}
use hipace.Pipeline.Handover.{
  length-segments, appended-empty, counted, filled, counts_sent, packets_sent, send_none, send_some,
  received, receive_none, receive_some,
}

abbrev pub contents : {R K : Type 0} → Sent R K → List (Message R K)
contents ms = map (λ m. m.1) ms

module _ {R P K : Type 0} where
  -- The receiver `q` has become `q'`, after the sender `r`: its beams have the particles of the box
  -- behind their own, and it knows of the leftmost box that the sender knows of.
  pub record IsDelivered (it : ℕ) (r q q' : Rank R P K) : Type 0 where
    pub beams_eq : q'.beams ≡ appended q.beams (segments it r.beams r.box_sorters)
    pub leftmost_eq :
        q'.leftmost_box_rcv ≡ min (min r.leftmost_box_snd r.leftmost_box_rcv) q.leftmost_box_rcv

  module _ (t : Tile P) (k : Packing P K) where
    -- Behind the time message.
    record IsHanded (bx : Box) (it : ℕ) (bins : List BeamBins) (g q : Rank R P K)
        (before : Sent R K) (later : List (Message R K)) : Type 0 where
      sender : Rank R P K
      receiver : Rank R P K
      sent : Sent R K
      sends : send_step t k g bx it bins false before ≡ ok (sender, before ++ sent)
      receives : receive_box t k q it false (contents sent ++ later) ≡ ok (receiver, later)
      delivered : IsDelivered it g q receiver
      time_eq : receiver.physical_time ≡ q.physical_time
      addressed : All (λ m. m.0 ≡ downstream g) sent

    handed :
        (bx : Box) (it : ℕ) (bins : List BeamBins) (g q : Rank R P K) (before : Sent R K)
        (later : List (Message R K))
        → AreSegments bx it g.beams g.box_sorters bins
        → length q.beams ≡ length g.beams
        → skips g (min g.leftmost_box_snd g.leftmost_box_rcv) it ≡ false
        → skips q q.leftmost_box_rcv it ≡ false
        → IsHanded bx it bins g q before later
    unfolding send_step
    handed bx it bins g q before later segmented same sends expects =
        let low : Rank R P K = lower_leftmost g in
        let gone : List (List P) = segments it g.beams g.box_sorters in
        let fits : length q.beams ≡ length gone =
          same ∙ sym (length-segments bx it g.beams g.box_sorters bins segmented) in
        elim (Bool-cases (sum (lengths gone) == 0)) [
          | inl empty ↦ record {
            sender = counted t k bx it bins low segmented;
            receiver = received t k bx it bins low segmented q same later;
            sent = (downstream low, counts_sent t k bx it bins low segmented) ∷ [];
            sends = ground (arith, send_none t k bx it bins low segmented (ground arith));
            receives =
                receive_none t k bx it bins low segmented q same later (ground arith) expects;
            delivered = record {
              beams_eq = sym (appended-empty q.beams gone fits (ground arith));
              leftmost_eq = refl;
            };
            time_eq = refl;
            addressed = (refl, tt);
          }
          | inr some_left ↦ record {
            sender = filled t k bx it bins low segmented;
            receiver = record (received t k bx it bins low segmented q same later) {
              beams = appended q.beams gone;
              allocs = q.allocs + 1;
              frees = q.frees + 1;
            };
            sent =
                (downstream low, counts_sent t k bx it bins low segmented)
                ∷ (downstream low, packets_sent t k bx it bins low segmented)
                ∷ [];
            sends = ground (arith, send_some t k bx it bins low segmented some_left);
            receives = receive_some t k bx it bins low segmented q same later some_left expects;
            delivered = record { beams_eq = refl; leftmost_eq = refl };
            time_eq = refl;
            addressed = (refl, (refl, tt));
          }
        ]

    module _ ⦃real : Real R⦄ where
      -- Notify hands box `it` of `r` to the rank `q` downstream, which reads the messages `sent`.
      pub record IsPassed (bx : Box) (step it : ℕ) (bins : List BeamBins) (r q : Rank R P K)
          (later : List (Message R K)) : Type 0 where
        pub sender : Rank R P K
        pub receiver : Rank R P K
        pub sent : Sent R K
        pub sends : notify t k r bx step it bins false ≡ ok (sender, sent)
        pub receives :
            wait t k q (suc step) it false (contents sent ++ later) ≡ ok (receiver, later)
        pub delivered : IsDelivered it r q receiver
        pub time_eq :
            receiver.physical_time
            ≡ (if (it + 1) == r.numprocs_z then real.add r.physical_time r.dt else q.physical_time)
        pub addressed : All (λ m. m.0 ≡ downstream r) sent

      -- The same behind NotifyFinish.
      record IsPassedOn (bx : Box) (step it : ℕ) (bins : List BeamBins) (f q : Rank R P K)
          (later : List (Message R K)) : Type 0 where
        sender : Rank R P K
        receiver : Rank R P K
        sent : Sent R K
        sends : notify_rest t k f bx step it bins false ≡ ok (sender, sent)
        receives : wait t k q (suc step) it false (contents sent ++ later) ≡ ok (receiver, later)
        delivered : IsDelivered it f q receiver
        time_eq :
            receiver.physical_time
            ≡ (if (it + 1) == f.numprocs_z then real.add f.physical_time f.dt else q.physical_time)
        addressed : All (λ m. m.0 ≡ downstream f) sent

      pass_on :
          (bx : Box) (step it : ℕ) (bins : List BeamBins) (f q : Rank R P K)
          (later : List (Message R K))
          → step < f.max_step
          → q.numprocs_z ≡ f.numprocs_z
          → length q.beams ≡ length f.beams
          → AreSegments bx it f.beams f.box_sorters bins
          → skips f (min f.leftmost_box_snd f.leftmost_box_rcv) it ≡ false
          → skips q q.leftmost_box_rcv it ≡ false
          → IsPassedOn bx step it bins f q later
      unfolding notify_rest wait send_time receive_time recv_time
      pass_on bx step it bins f q later before_last procs same segmented sends expects =
          elim (Bool-cases ((it + 1) == f.numprocs_z)) [
            | inl first ↦
                let now : R = real.add f.physical_time f.dt in
                let timed : Rank R P K = record f { tsend_buffer = now; tsend_request = true } in
                let informed : Rank R P K = record q { physical_time = now } in
                let message : Sent R K = (downstream f, time_message now) ∷ [] in
                let h : IsHanded bx it bins timed informed message later =
                  handed bx it bins timed informed message later segmented same sends expects in
                record {
                  sender = h.sender;
                  receiver = h.receiver;
                  sent = message ++ h.sent;
                  sends = ground (arith, h.sends);
                  receives = ground (arith, h.receives);
                  delivered = record {
                    beams_eq = h.delivered.beams_eq;
                    leftmost_eq = h.delivered.leftmost_eq;
                  };
                  time_eq = ground (arith, h.time_eq);
                  addressed = (refl, h.addressed);
                }
            | inr inner ↦
                let h : IsHanded bx it bins f q [] later =
                  handed bx it bins f q [] later segmented same sends expects in
                record {
                  sender = h.sender;
                  receiver = h.receiver;
                  sent = h.sent;
                  sends = ground (arith, h.sends);
                  receives = ground (arith, h.receives);
                  delivered = h.delivered;
                  time_eq = ground (arith, h.time_eq);
                  addressed = h.addressed;
                }
          ]

      -- From the rank behind NotifyFinish back to the rank before it.
      carry :
          (bx : Box) (step it : ℕ) (bins : List BeamBins) (r f q : Rank R P K)
          (later : List (Message R K))
          → notify_finish r it false ≡ ok f
          → IsFinished r f
          → IsPassedOn bx step it bins f q later
          → IsPassed bx step it bins r q later
      unfolding notify
      carry bx step it bins r f q later finished kept h = record {
        sender = h.sender;
        receiver = h.receiver;
        sent = h.sent;
        sends = ap (λ m. m >>= λ g. notify_rest t k g bx step it bins false) finished ∙ h.sends;
        receives = h.receives;
        delivered = record {
          beams_eq =
              h.delivered.beams_eq
              ∙ ap (λ b. appended q.beams (segments it b f.box_sorters)) kept.beams_eq
              ∙ ap (λ s. appended q.beams (segments it r.beams s)) kept.sorters_eq;
          leftmost_eq =
              h.delivered.leftmost_eq
              ∙ ap (λ n. min (min n f.leftmost_box_rcv) q.leftmost_box_rcv) kept.snd_eq
              ∙ ap (λ n. min (min r.leftmost_box_snd n) q.leftmost_box_rcv) kept.rcv_eq;
        };
        time_eq =
            h.time_eq
            ∙ ap (λ n. if (it + 1) == n then real.add f.physical_time f.dt else q.physical_time)
                kept.numprocs_eq
            ∙ ap (λ x. if (it + 1) == r.numprocs_z then real.add x f.dt else q.physical_time)
                kept.time_eq
            ∙ ap
                (λ x.
                  if (it + 1) == r.numprocs_z then real.add r.physical_time x else q.physical_time)
                kept.dt_eq;
        addressed =
            subst (λ to. All (λ m. m.0 ≡ to) h.sent)
              (ap (λ i. (i + f.numprocs_z - 1) % f.numprocs_z) kept.rank_eq
                ∙ ap (λ n. (r.rank_z + n - 1) % n) kept.numprocs_eq)
              h.addressed;
      }

      skips-IsFinished :
          (r f : Rank R P K) (it : ℕ)
          → IsFinished r f
          → skips f (min f.leftmost_box_snd f.leftmost_box_rcv) it
            ≡ skips r (min r.leftmost_box_snd r.leftmost_box_rcv) it
      skips-IsFinished r f it kept =
          ap (λ n. skips f (min n f.leftmost_box_rcv) it) kept.snd_eq
          ∙ ap (λ n. skips f (min r.leftmost_box_snd n) it) kept.rcv_eq
          ∙ ap
              (λ n.
                ltb it (min r.leftmost_box_snd r.leftmost_box_rcv)
                && ltb (it + 1) n
                && f.skip_empty_comms)
              kept.numprocs_eq
          ∙ ap
              (λ b.
                ltb it (min r.leftmost_box_snd r.leftmost_box_rcv)
                && ltb (it + 1) r.numprocs_z
                && b)
              kept.skip_eq

      -- Before the last step, Notify for a box completes, and the matching Wait downstream reads just
      -- the messages that it sent, all addressed to that rank: behind its own particles it then holds
      -- those of the box, beam by beam and in order, it has the sender's time after its step if this
      -- is the first box, and its leftmost box is no higher than the sender's. This is for ranks whose
      -- tests for a skipped box both say that the box is not skipped, and with a time step that is
      -- not negative.
      pub notify-wait :
          (bx : Box) (step it : ℕ) (bins : List BeamBins) (r q : Rank R P K)
          (later : List (Message R K))
          → step < r.max_step
          → real.le (real.of_int 0) r.dt ≡ true
          → q.numprocs_z ≡ r.numprocs_z
          → length q.beams ≡ length r.beams
          → AreSegments bx it r.beams r.box_sorters bins
          → skips r (min r.leftmost_box_snd r.leftmost_box_rcv) it ≡ false
          → skips q q.leftmost_box_rcv it ≡ false
          → IsPassed bx step it bins r q later
      notify-wait bx step it bins r q later before_last dt_ok procs same segmented sends expects =
          let (f, finished, kept) = IsFinished-of r it dt_ok in
          let segmented_f : AreSegments bx it f.beams f.box_sorters bins =
            subst (λ b. AreSegments bx it b f.box_sorters bins) (sym kept.beams_eq)
              (subst (λ s. AreSegments bx it r.beams s bins) (sym kept.sorters_eq) segmented) in
          carry bx step it bins r f q later finished kept (
            pass_on bx step it bins f q later (omega (arith, kept.max_step_eq))
              (procs ∙ sym kept.numprocs_eq) (same ∙ ap length (sym kept.beams_eq)) segmented_f
              (skips-IsFinished r f it kept ∙ sends) expects)
