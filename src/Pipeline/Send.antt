-- ===== src/Pipeline/Send.antt =====
-- Hipace::Notify: send what is left of a box, or its last slice as ghosts, to the rank downstream.
use hipace.Prelude.{
  ℕ, ◌+◌, ◌-◌, ◌%◌, min, Bool, true, false, ◌&&◌, some, List, [], ◌∷◌, ◌++◌, Result, Error, ok, err,
  ◌>>=◌, if◌then◌else◌, ltb, ◌==◌, range_from,
}
use hipace.Reals.{Real}
use hipace.Particles.{Tile, Packing}
use hipace.Grid.{Box}
use hipace.Sort.{BoxSorter, read}
use hipace.Pipeline.State.{
  Rank, channel, set_channel, Message, time_message, counts_message, packets_message,
}
use hipace.Pipeline.Finish.{notify_finish}

-- amrex::DenseBins over the slices of a box: `permutation` lists the particles slice by slice.
pub record BeamBins : Type 0 where
  pub permutation : List ℕ
  pub offsets : List ℕ

-- The place in the offsets of the last slice of a box.
abbrev pub last_slice : Box → ℕ
last_slice bx = bx.big_end.z - bx.small_end.z

-- MultiBeam::NGhostParticles, for one beam.
unfoldable pub n_ghost_particles : BeamBins → Box → Result ℕ
n_ghost_particles bins bx = do
  stop ← read bins.offsets (bx.big_end.z + 1 - bx.small_end.z)
  start ← read bins.offsets (last_slice bx)
  ok (stop - start)

-- How many particles of each beam are sent: those of the last slice, or those of the box.
unfoldable pub ghost_counts : Box → List BeamBins → Result (List ℕ)
unfolding n_ghost_particles
ghost_counts bx [] = ok []
ghost_counts bx (b ∷ bs) = do n ← n_ghost_particles b bx; ns ← ghost_counts bx bs; ok (n ∷ ns)

unfoldable pub box_counts_at : ℕ → List BoxSorter → Result (List ℕ)
box_counts_at it [] = ok []
box_counts_at it (s ∷ ss) = do n ← read s.box_counts it; ns ← box_counts_at it ss; ok (n ∷ ns)

unfoldable pub particle_counts : Bool → Box → ℕ → List BoxSorter → List BeamBins → Result (List ℕ)
unfolding ghost_counts box_counts_at
particle_counts g bx it ss bs = if g then ghost_counts bx bs else box_counts_at it ss

-- std::accumulate over the counts.
unfoldable pub sum : List ℕ → ℕ
sum [] = 0
sum (n ∷ ns) = n + sum ns

-- The reads of one loop over consecutive or listed places.
unfoldable pub read_all : {A : Type 0} → List A → List ℕ → Result (List A)
read_all xs [] = ok []
read_all xs (i ∷ is) = do a ← read xs i; rest ← read_all xs is; ok (a ∷ rest)

-- `src_i` for each i: the particle itself, or the one that the permutation names.
unfoldable pub sources : Bool → BeamBins → Box → ℕ → Result (List ℕ)
unfolding read_all
sources g bins bx np = do
  cell_start ← read bins.offsets (last_slice bx)
  if g then read_all bins.permutation (range_from cell_start np) else ok (range_from 0 np)

module _ {P K : Type 0} where
  -- The loop over i: particles of one beam, packed.
  unfoldable pub pack_particles : Packing P K → List P → ℕ → List ℕ → Result (List K)
  pack_particles k tile offset_box [] = ok []
  pack_particles k tile offset_box (src ∷ srcs) = do
    p ← read tile (offset_box + src)
    rest ← pack_particles k tile offset_box srcs
    ok (k.pack p ∷ rest)

  -- The loop over the beams: what stays in each, and the buffer.
  unfoldable pub pack_beams :
      Tile P
      → Packing P K
      → Bool
      → Box
      → ℕ
      → List (List P)
      → List BoxSorter
      → List BeamBins
      → List ℕ
      → Result (List (List P) × List K)
  unfolding sources pack_particles
  pack_beams t k g bx it [] ss bs nps = ok ([], [])
  pack_beams t k g bx it (tile ∷ tiles) (s ∷ ss) (b ∷ bs) (np ∷ nps) = do
    offset_box ← read s.box_offsets it
    srcs ← sources g b bx np
    packed ← pack_particles k tile offset_box srcs
    (kept, rest) ← pack_beams t k g bx it tiles ss bs nps
    ok ((if g then tile else t.resize tile offset_box) ∷ kept, packed ++ rest)
  pack_beams t k g bx it (tile ∷ tiles) _ _ _ = err Error.out_of_range

-- On the last step nothing is sent, and the particles that would be are dropped.
unfoldable pub truncate_beams :
    {P : Type 0} → Tile P → ℕ → List (List P) → List BoxSorter → Result (List (List P))
truncate_beams t it [] ss = ok []
truncate_beams t it (tile ∷ tiles) [] = err Error.out_of_range
truncate_beams t it (tile ∷ tiles) (s ∷ ss) = do
  offset_box ← read s.box_offsets it
  rest ← truncate_beams t it tiles ss
  ok (t.resize tile offset_box ∷ rest)

-- What Notify sends, each message with the rank that it goes to.
abbrev pub Sent : Type 0 → Type 0 → Type 0
Sent R K = List (ℕ × Message R K)

module _ {R P K : Type 0} where
  -- `(m_rank_z-1+m_numprocs_z)%m_numprocs_z`.
  abbrev pub downstream : Rank R P K → ℕ
  downstream r = (r.rank_z + r.numprocs_z - 1) % r.numprocs_z

  unfoldable pub send_time : ⦃real : Real R⦄ → Rank R P K → ℕ → Bool → Rank R P K × Sent R K
  send_time r it true = (r, [])
  send_time ⦃real⦄ r it false =
      if (it + 1) == r.numprocs_z
      then (
        record r { tsend_buffer = real.add r.physical_time r.dt; tsend_request = true },
        (downstream r, time_message (real.add r.physical_time r.dt)) ∷ [],
      )
      else (r, [])

  -- `it < leftmost && it < m_numprocs_z - 1 && m_skip_empty_comms`.
  abbrev pub skips : Rank R P K → ℕ → ℕ → Bool
  skips r leftmost it = ltb it leftmost && ltb (it + 1) r.numprocs_z && r.skip_empty_comms

  -- The counts, with the leftmost box behind them, and then the particles if there are any.
  unfoldable pub send_particles :
      Tile P
      → Packing P K
      → Rank R P K
      → Box
      → ℕ
      → List BeamBins
      → Bool
      → Result (Rank R P K × Sent R K)
  unfolding particle_counts sum pack_beams
  send_particles t k r bx it bins g = do
    np ← particle_counts g bx it r.box_sorters bins
    let np_snd = np ++ (r.leftmost_box_snd ∷ [])
    let counted = set_channel r g (record (channel r g) { np_snd = np_snd; nsend_request = true })
    let counts = (downstream r, counts_message g np_snd) ∷ []
    let packing = pack_beams t k g bx it r.beams r.box_sorters bins np
    if sum np == 0 then ok (counted, counts) else do
      (kept, buffer) ← packing
      let filled = record (channel counted g) { psend_buffer = some buffer; psend_request = true }
      ok (
        record (set_channel counted g filled) { beams = kept; allocs = r.allocs + 1 },
        counts ++ ((downstream r, packets_message g buffer) ∷ []),
      )

  unfoldable pub last_step : Tile P → Rank R P K → ℕ → Bool → Result (Rank R P K × Sent R K)
  unfolding truncate_beams
  last_step t r it true = ok (r, [])
  last_step t r it false = do
    beams ← truncate_beams t it r.beams r.box_sorters
    ok (record r { beams = beams }, [])

  -- `m_leftmost_box_snd = std::min(m_leftmost_box_snd, m_leftmost_box_rcv)`.
  abbrev pub lower_leftmost : Rank R P K → Rank R P K
  lower_leftmost r = record r { leftmost_box_snd = min r.leftmost_box_snd r.leftmost_box_rcv }

  -- Notify behind the send of the time, which sent `messages`.
  unfoldable pub send_step :
      Tile P
      → Packing P K
      → Rank R P K
      → Box
      → ℕ
      → List BeamBins
      → Bool
      → Sent R K
      → Result (Rank R P K × Sent R K)
  send_step t k r bx it bins g messages =
      if skips (lower_leftmost r) (lower_leftmost r).leftmost_box_snd it
      then ok (lower_leftmost r, messages)
      else (do
        (sent, more) ← send_particles t k (lower_leftmost r) bx it bins g
        ok (sent, messages ++ more))

  -- Notify from the test for the last step on.
  unfoldable pub notify_rest :
      ⦃real : Real R⦄
      → Tile P
      → Packing P K
      → Rank R P K
      → Box
      → (step it : ℕ) → List BeamBins
      → Bool
      → Result (Rank R P K × Sent R K)
  notify_rest t k r bx step it bins g =
      let timed = send_time r it g in
      if step == r.max_step then last_step t r it g else send_step t k timed.0 bx it bins g timed.1

  -- Hipace::Notify, for the box `bx` with number `it`.
  unfoldable pub notify :
      ⦃real : Real R⦄
      → Tile P
      → Packing P K
      → Rank R P K
      → Box
      → (step it : ℕ) → List BeamBins
      → Bool
      → Result (Rank R P K × Sent R K)
  notify t k r bx step it bins g = do
    finished ← notify_finish r it g
    notify_rest t k finished bx step it bins g
