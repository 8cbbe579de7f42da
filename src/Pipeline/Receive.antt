-- ===== src/Pipeline/Receive.antt =====
-- Hipace::Wait: receive the particles of a box from the rank upstream.
use hipace.Prelude.{
  ℕ, zero, suc, ◌+◌, min, Bool, true, false, List, [], ◌∷◌, Result, Error, ok, err, ◌>>=◌,
  if◌then◌else◌, ◌==◌, length, set,
}
use hipace.Particles.{Tile, Packing}
use hipace.Sort.{read}
use hipace.Pipeline.State.{Rank, Message, recv_time, recv_counts, recv_packets}
use hipace.Pipeline.Send.{sum, skips}

module _ {P K : Type 0} where
  -- The loop over i: `n` packed particles from `src` on are written from `dst` on.
  unfoldable pub unpack_particles :
      Packing P K → List K → (src dst n : ℕ) → List P → Result (List P)
  unpack_particles k buffer src dst zero tile = ok tile
  unpack_particles k buffer src dst (suc n) tile = do
    packed ← read buffer src
    unpack_particles k buffer (src + 1) (dst + 1) n (set tile dst (k.unpack packed))

  -- The loop over the beams, from `offset_beam` on.
  unfoldable pub unpack_beams :
      Tile P → Packing P K → List K → ℕ → List (List P) → List ℕ → Result (List (List P))
  unfolding unpack_particles
  unpack_beams t k buffer offset_beam [] nps = ok []
  unpack_beams t k buffer offset_beam (tile ∷ tiles) [] = err Error.out_of_range
  unpack_beams t k buffer offset_beam (tile ∷ tiles) (np ∷ nps) = do
    let old_size = length tile
    grown ← unpack_particles k buffer offset_beam old_size np (t.resize tile (old_size + np))
    rest ← unpack_beams t k buffer (offset_beam + np) tiles nps
    ok (grown ∷ rest)

-- `np_rcv`: one count for each of `n` beams, and the leftmost box behind them.
unfoldable pub split_counts : ℕ → List ℕ → Result (List ℕ × ℕ)
split_counts n [] = err Error.out_of_range
split_counts zero (left ∷ []) = ok ([], left)
split_counts zero (left ∷ x ∷ rest) = err Error.out_of_range
split_counts (suc n) (np ∷ rest) = do (nps, left) ← split_counts n rest; ok (np ∷ nps, left)

module _ {R P K : Type 0} where
  unfoldable pub receive_time :
      Rank R P K → ℕ → Bool → List (Message R K) → Result (Rank R P K × List (Message R K))
  unfolding recv_time
  receive_time r it true inbox = ok (r, inbox)
  receive_time r it false inbox =
      if (it + 1) == r.numprocs_z
      then (do (t, rest) ← recv_time inbox; ok (record r { physical_time = t }, rest))
      else ok (r, inbox)

  -- Wait from the test for the number of particles on.
  unfoldable pub receive_particles :
      Tile P
      → Packing P K
      → Rank R P K
      → Bool
      → List ℕ
      → List (Message R K)
      → Result (Rank R P K × List (Message R K))
  receive_particles t k r g nps inbox = if sum nps == 0 then ok (r, inbox) else (do
    (buffer, rest) ← recv_packets g inbox
    beams ← unpack_beams t k buffer 0 r.beams nps
    ok (record r { beams = beams; allocs = r.allocs + 1; frees = r.frees + 1 }, rest))

  abbrev pub lower_received : Rank R P K → Bool → ℕ → Rank R P K
  lower_received r true left = r
  lower_received r false left = record r { leftmost_box_rcv = min left r.leftmost_box_rcv }

  -- Wait behind the time.
  unfoldable pub receive_box :
      Tile P
      → Packing P K
      → Rank R P K
      → ℕ
      → Bool
      → List (Message R K)
      → Result (Rank R P K × List (Message R K))
  receive_box t k r it g inbox = if skips r r.leftmost_box_rcv it then ok (r, inbox) else (do
    (np_rcv, later) ← recv_counts g inbox
    (nps, left) ← split_counts (length r.beams) np_rcv
    receive_particles t k (lower_received r g left) g nps later)

  -- Hipace::Wait. `(m_rank_z+1)%m_numprocs_z` is the sender of `inbox`.
  unfoldable pub wait :
      Tile P
      → Packing P K
      → Rank R P K
      → (step it : ℕ) → Bool
      → List (Message R K)
      → Result (Rank R P K × List (Message R K))
  wait t k r step it g inbox =
      if step == 0
      then ok (r, inbox)
      else (do (timed, unread) ← receive_time r it g inbox; receive_box t k timed it g unread)
