-- ===== src/Tests/Pipeline.antt =====
-- Two ranks that pass a box with two beams on.
use hipace.Prelude.{ℕ, ◌≡◌, refl, true, false, none, some, List, [], ◌∷◌, map, ok, arith, ◌↔◌, In}
use hipace.Grid.{Box, vect}
use hipace.Sort.{BoxSorter}
use hipace.Samples.{real, tile, packing}
use hipace.Pipeline.State.{Channel, Rank, Message, counts_message, packets_message, time_message}
use hipace.Pipeline.Send.{BeamBins, Sent, notify}
use hipace.Pipeline.Receive.{wait}
use hipace.Pipeline.Packets.{AreSegments}
use hipace.Pipeline.Delivery.{IsPassed, notify-wait}
use hipace.Pipeline.Memory.{notify-IsBalanced, wait-IsBalanced}
use hipace.Pipeline.Finish.{destroy, notify_finish}
use hipace.Pipeline.Finish.Buffers.{IsBalanced, IsIdle, destroy-IsIdle}
use hipace.Pipeline.Schedule.{steps, next_rank, owner, steps-In, steps-next}

abbrev quiet : Channel ℕ
quiet = record { np_snd = []; nsend_request = false; psend_buffer = none; psend_request = false }

-- The box 1 of two boxes with four slices each.
abbrev upper : Box
upper = record { small_end = vect 0 0 4; big_end = vect 3 3 7 }

abbrev sorter : BoxSorter
sorter = record { box_counts = 1 ∷ 2 ∷ 0 ∷ []; box_offsets = 0 ∷ 1 ∷ 3 ∷ [] }

abbrev other_sorter : BoxSorter
other_sorter = record { box_counts = 0 ∷ 1 ∷ 0 ∷ []; box_offsets = 0 ∷ 0 ∷ 1 ∷ [] }

abbrev bins : List BeamBins
bins =
    record { permutation = 0 ∷ 1 ∷ []; offsets = 0 ∷ 0 ∷ 1 ∷ 1 ∷ 2 ∷ [] }
    ∷ record { permutation = 0 ∷ []; offsets = 0 ∷ 0 ∷ 0 ∷ 1 ∷ 1 ∷ [] }
    ∷ []

abbrev head_rank : Rank ℕ ℕ ℕ
head_rank = record {
  numprocs_z = 2;
  rank_z = 1;
  max_step = 5;
  skip_empty_comms = false;
  initial_time = 1;
  physical_time = 7;
  dt = 3;
  tsend_buffer = 0;
  tsend_request = false;
  leftmost_box_snd = 0;
  leftmost_box_rcv = 0;
  valid = record quiet { psend_buffer = some (9 ∷ []); psend_request = true };
  ghost = quiet;
  beams = (10 ∷ 11 ∷ 12 ∷ []) ∷ (20 ∷ []) ∷ [];
  box_sorters = sorter ∷ other_sorter ∷ [];
  allocs = 1;
  frees = 0;
}

abbrev tail_rank : Rank ℕ ℕ ℕ
tail_rank = record head_rank {
  rank_z = 0;
  physical_time = 4;
  valid = quiet;
  beams = [] ∷ (30 ∷ []) ∷ [];
  frees = 1;
}

segments_fit : AreSegments upper 1 head_rank.beams head_rank.box_sorters bins
segments_fit = (
  record {
    offset = 1;
    count = 2;
    offset_eq = refl;
    count_eq = refl;
    fits = omega arith;
    cell_start = 1;
    cell_start_eq = refl;
  },
  (
    record {
      offset = 0;
      count = 1;
      offset_eq = refl;
      count_eq = refl;
      fits = omega arith;
      cell_start = 1;
      cell_start_eq = refl;
    },
    tt,
  ),
)

notify-wait_example : IsPassed (tile 0) packing ⦃real = real⦄ upper 0 1 bins head_rank tail_rank []
notify-wait_example =
    notify-wait (tile 0) packing ⦃real = real⦄ upper 0 1 bins head_rank tail_rank [] (omega arith)
      refl refl refl segments_fit refl refl

abbrev sent_rank : Rank ℕ ℕ ℕ
sent_rank = record head_rank {
  tsend_buffer = 10;
  tsend_request = true;
  valid = record {
    np_snd = 2 ∷ 1 ∷ 0 ∷ [];
    nsend_request = true;
    psend_buffer = some (12 ∷ 13 ∷ 21 ∷ []);
    psend_request = true;
  };
  beams = (10 ∷ []) ∷ [] ∷ [];
  allocs = 2;
  frees = 1;
}

abbrev messages : List (Message ℕ ℕ)
messages =
    time_message 10
    ∷ counts_message false (2 ∷ 1 ∷ 0 ∷ [])
    ∷ packets_message false (12 ∷ 13 ∷ 21 ∷ [])
    ∷ []

abbrev outgoing : Sent ℕ ℕ
outgoing = map (λ m. (0, m)) messages

notify_run :
    notify ⦃real = real⦄ (tile 0) packing head_rank upper 0 1 bins false ≡ ok (sent_rank, outgoing)
unfolding notify notify_finish hipace.Pipeline.Send.notify_rest hipace.Pipeline.Send.send_step
    hipace.Pipeline.Send.send_time hipace.Pipeline.Send.send_particles
notify_run = refl

abbrev told_rank : Rank ℕ ℕ ℕ
told_rank = record tail_rank {
  physical_time = 10;
  beams = (11 ∷ 12 ∷ []) ∷ (30 ∷ 20 ∷ []) ∷ [];
  allocs = 2;
  frees = 2;
}

wait_run : wait (tile 0) packing tail_rank 1 1 false messages ≡ ok (told_rank, [])
unfolding wait hipace.Pipeline.Receive.receive_time hipace.Pipeline.Receive.receive_box
    hipace.Pipeline.State.recv_counts hipace.Pipeline.Receive.split_counts
    hipace.Pipeline.Receive.receive_particles hipace.Pipeline.Send.sum
    hipace.Pipeline.State.recv_packets hipace.Pipeline.Receive.unpack_beams
wait_run = refl

notify-IsBalanced_example : IsBalanced sent_rank
notify-IsBalanced_example =
    notify-IsBalanced (tile 0) packing ⦃real = real⦄ head_rank upper 0 1 bins false sent_rank
      outgoing refl notify_run

wait-IsBalanced_example : IsBalanced told_rank
wait-IsBalanced_example =
    wait-IsBalanced (tile 0) packing tail_rank 1 1 false messages told_rank [] refl wait_run

abbrev destroyed : Rank ℕ ℕ ℕ
destroyed = record sent_rank { valid = quiet; frees = 2 }

destroy_run : destroy ⦃real = real⦄ sent_rank ≡ ok destroyed
unfolding destroy
destroy_run = refl

destroy-IsIdle_example :
    (destroyed.allocs ≡ destroyed.frees) × IsIdle destroyed true × IsIdle destroyed false
destroy-IsIdle_example = destroy-IsIdle ⦃real = real⦄ sent_rank destroyed refl destroy_run

steps-In_example : In 4 (steps 3 7 1) ↔ (1 ≡ owner 3 4)
steps-In_example = steps-In 3 7 1 4 (omega arith) (omega arith)

steps-next_example : In 5 (steps 3 7 (next_rank 3 1))
steps-next_example =
    steps-next 3 7 1 4 (omega arith) (omega arith)
      ((steps-In 3 7 1 4 (omega arith) (omega arith)).1 refl)
