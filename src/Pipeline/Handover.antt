-- ===== src/Pipeline/Handover.antt =====
-- One box handed over: Notify on a rank and the matching Wait on the rank downstream.
use mathlib.Core.List.{append-nil}
use hipace.Prelude.{
  ℕ, zero, suc, ◌+◌, ◌≡◌, refl, sym, ap, ◌∙◌, some, List, [], ◌∷◌, ◌++◌, map, arith, true, false,
  ok, length, ◌==◌,
}
use hipace.Particles.{Tile, Packing}
use hipace.Grid.{Box}
use hipace.Sort.{BoxSorter}
use hipace.Pipeline.State.{
  Rank, Message, counts_message, packets_message, recv_counts, recv_packets,
}
use hipace.Pipeline.Send.{BeamBins, sum, downstream, skips, send_particles}
use hipace.Pipeline.Receive.{split_counts, receive_particles, lower_received, receive_box}
use hipace.Pipeline.Packets.{
  AreSegments, segments, befores, appended, flat, lengths, counts-AreSegments, pack-AreSegments,
  unpack_segments,
}

split-append :
    (ns : List ℕ) (left n : ℕ) → length ns ≡ n → split_counts n (ns ++ (left ∷ [])) ≡ ok (ns, left)
unfolding split_counts
split-append [] left zero h = refl
split-append [] left (suc n) h = absurd (omega arith)
split-append (x ∷ ns) left zero h = absurd (omega arith)
split-append (x ∷ ns) left (suc n) h = ground (arith, split-append ns left n (omega arith))

module _ {P : Type 0} where
  pub length-lengths : (pss : List (List P)) → length (lengths pss) ≡ length pss
  length-lengths [] = refl
  length-lengths (ps ∷ pss) = ap suc (length-lengths pss)

  pub length-segments :
      (bx : Box) (it : ℕ) (tiles : List (List P)) (ss : List BoxSorter) (bs : List BeamBins)
      → AreSegments bx it tiles ss bs
      → length (segments it tiles ss) ≡ length tiles
  length-segments bx it [] [] [] h = refl
  length-segments bx it [] [] (b ∷ bs) h = elim h [ ]
  length-segments bx it [] (s ∷ ss) bs h = elim h [ ]
  length-segments bx it (tile ∷ tiles) [] bs h = elim h [ ]
  length-segments bx it (tile ∷ tiles) (s ∷ ss) [] h = elim h [ ]
  length-segments bx it (tile ∷ tiles) (s ∷ ss) (b ∷ bs) (_, hs) =
      ap suc (length-segments bx it tiles ss bs hs)

  -- Where nothing is sent, nothing is appended.
  pub appended-empty :
      (tiles sent : List (List P))
      → length tiles ≡ length sent
      → sum (lengths sent) ≡ 0
      → appended tiles sent ≡ tiles
  unfolding sum
  appended-empty [] sent h e = refl
  appended-empty (tile ∷ tiles) [] h e = absurd (omega arith)
  appended-empty (tile ∷ tiles) ([] ∷ sent) h e =
      ground (arith, append-nil tile, appended-empty tiles sent (omega arith) (omega arith))
  appended-empty (tile ∷ tiles) ((p ∷ ps) ∷ sent) h e = absurd (omega arith)

module _ {R P K : Type 0} (t : Tile P) (k : Packing P K) (bx : Box) (it : ℕ) (bins : List BeamBins)
    (r : Rank R P K) (segmented : AreSegments bx it r.beams r.box_sorters bins) where
  abbrev pub leaving : List (List P)
  leaving = segments it r.beams r.box_sorters

  abbrev pub np_snd : List ℕ
  np_snd = lengths leaving ++ (r.leftmost_box_snd ∷ [])

  abbrev pub counted : Rank R P K
  counted = record r { valid = record r.valid { np_snd = np_snd; nsend_request = true } }

  abbrev pub filled : Rank R P K
  filled = record r {
    valid = record {
      np_snd = np_snd;
      nsend_request = true;
      psend_buffer = some (map k.pack (flat leaving));
      psend_request = true;
    };
    beams = befores it r.beams r.box_sorters;
    allocs = r.allocs + 1;
  }

  abbrev pub counts_sent : Message R K
  counts_sent = counts_message false np_snd

  abbrev pub packets_sent : Message R K
  packets_sent = packets_message false (map k.pack (flat leaving))

  pub send_none :
      sum (lengths leaving) ≡ 0
      → send_particles t k r bx it bins false ≡ ok (counted, (downstream r, counts_sent) ∷ [])
  unfolding send_particles
  send_none e = ground (arith, counts-AreSegments k t bx it r.beams r.box_sorters bins segmented)

  pub send_some :
      (sum (lengths leaving) == 0) ≡ false
      → send_particles t k r bx it bins false
        ≡ ok (filled, (downstream r, counts_sent) ∷ (downstream r, packets_sent) ∷ [])
  unfolding send_particles
  send_some e = ground (
    arith,
    counts-AreSegments k t bx it r.beams r.box_sorters bins segmented,
    pack-AreSegments k t bx it r.beams r.box_sorters bins segmented,
  )

  module _ (q : Rank R P K) (same : length q.beams ≡ length r.beams)
      (later : List (Message R K)) where
    abbrev pub received : Rank R P K
    received = lower_received q false r.leftmost_box_snd

    counts_fit : length (lengths leaving) ≡ length q.beams
    counts_fit =
        length-lengths leaving
        ∙ length-segments bx it r.beams r.box_sorters bins segmented
        ∙ sym same

    pub receive_none :
        sum (lengths leaving) ≡ 0
        → skips q q.leftmost_box_rcv it ≡ false
        → receive_box t k q it false (counts_sent ∷ later) ≡ ok (received, later)
    unfolding receive_box recv_counts receive_particles
    receive_none e expects =
        ground
          (arith, split-append (lengths leaving) r.leftmost_box_snd (length q.beams) counts_fit)

    pub receive_some :
        (sum (lengths leaving) == 0) ≡ false
        → skips q q.leftmost_box_rcv it ≡ false
        → receive_box t k q it false (counts_sent ∷ packets_sent ∷ later)
          ≡ ok (
            record received {
              beams = appended q.beams leaving;
              allocs = q.allocs + 1;
              frees = q.frees + 1;
            },
            later,
          )
    unfolding receive_box recv_counts receive_particles recv_packets
    receive_some e expects = ground (
      arith,
      split-append (lengths leaving) r.leftmost_box_snd (length q.beams) counts_fit,
      unpack_segments k t bx it q.beams leaving [] (map k.pack (flat leaving))
          (sym counts_fit ∙ length-lengths leaving) refl,
    )
