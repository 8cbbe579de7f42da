-- ===== src/Pipeline/State.antt =====
-- The members of class Hipace that the pipeline uses, and the messages between ranks.
use hipace.Prelude.{ℕ, Bool, true, false, Option, List, [], ◌∷◌, Result, Error, ok, err, ◌>>=◌}
use hipace.Sort.{BoxSorter}

-- One of the two groups of send members: m_np_snd, m_nsend_request, m_psend_buffer and
-- m_psend_request, or those whose names end in _ghost. A request is true while it is pending.
pub record Channel (K : Type 0) : Type 0 where
  pub np_snd : List ℕ
  pub nsend_request : Bool
  pub psend_buffer : Option (List K)
  pub psend_request : Bool

-- A rank: reals R, particles P, packed particles K.
pub record Rank (R P K : Type 0) : Type 0 where
  pub numprocs_z : ℕ
  pub rank_z : ℕ
  pub max_step : ℕ
  pub skip_empty_comms : Bool
  pub initial_time : R
  pub physical_time : R
  pub dt : R
  pub tsend_buffer : R
  pub tsend_request : Bool
  pub leftmost_box_snd : ℕ
  pub leftmost_box_rcv : ℕ
  pub valid : Channel K
  pub ghost : Channel K
  -- The particles of each beam, and the sorter of each beam.
  pub beams : List (List P)
  pub box_sorters : List BoxSorter
  -- How many buffers The_Pinned_Arena has handed out and taken back.
  pub allocs : ℕ
  pub frees : ℕ

module _ {R P K : Type 0} where
  abbrev pub channel : Rank R P K → Bool → Channel K
  channel r true = r.ghost
  channel r false = r.valid

  abbrev pub set_channel : Rank R P K → Bool → Channel K → Rank R P K
  set_channel r true c = record r { ghost = c }
  set_channel r false c = record r { valid = c }

-- A message, with its tag: tcomm_z_tag, ncomm_z_tag or pcomm_z_tag, and their _ghost versions.
pub data Message (R K : Type 0) : Type 0 where
  time_message : R → Message R K
  counts_message : Bool → List ℕ → Message R K
  packets_message : Bool → List K → Message R K

-- MPI_Recv takes the first message with the tag, of those that the rank upstream has sent.
module _ {R K : Type 0} where
  unfoldable pub recv_time : List (Message R K) → Result (R × List (Message R K))
  recv_time [] = err Error.no_message
  recv_time (time_message t ∷ ms) = ok (t, ms)
  recv_time (m ∷ ms) = recv_time ms >>= λ got. ok (got.0, m ∷ got.1)

  unfoldable pub recv_counts : Bool → List (Message R K) → Result (List ℕ × List (Message R K))
  recv_counts g [] = err Error.no_message
  recv_counts true (counts_message true ns ∷ ms) = ok (ns, ms)
  recv_counts false (counts_message false ns ∷ ms) = ok (ns, ms)
  recv_counts g (m ∷ ms) = recv_counts g ms >>= λ got. ok (got.0, m ∷ got.1)

  unfoldable pub recv_packets : Bool → List (Message R K) → Result (List K × List (Message R K))
  recv_packets g [] = err Error.no_message
  recv_packets true (packets_message true ks ∷ ms) = ok (ks, ms)
  recv_packets false (packets_message false ks ∷ ms) = ok (ks, ms)
  recv_packets g (m ∷ ms) = recv_packets g ms >>= λ got. ok (got.0, m ∷ got.1)
