-- ===== src/Tests/Output.antt =====
-- The theorems on the output at concrete inputs: two boxes with a particle each.
use hipace.Prelude.{
  ℕ, zero, suc, ◌^◌, ◌<◌, ◌≡◌, refl, true, List, [], ◌∷◌, All, Result, ok, err, none, ℤ, pos, arith,
}
use hipace.Particles.{Particle}
use hipace.Samples.{particle}
use hipace.Grid.{vect}
use hipace.Parser.{contains}
use hipace.Diagnostics.{writes_diagnostics}
use hipace.OpenPmd.{
  position, id, ids, SpeciesCall, Offsets, Beam, write_boxes, write_beam_particle_data,
  write_species, write_segment, save_box, save_positions, save_ids, save_real_property,
  read_segment, next_offset, FieldData, Writer, SeriesCall, Output, init_diagnostics, new_series,
  fields, write_diagnostics,
}
use hipace.OpenPmd.Rounds.{Tiles, placed, placed_on_one, calls_of_beam, n_below}
use hipace.OpenPmd.Chunks.{stored}
use hipace.OpenPmd.Boxes.{write_boxes-placed, write_boxes-placed_on_one}
use hipace.OpenPmd.Runs.{IsReadable, write_boxes_run}
use hipace.OpenPmd.Series.{init_diagnostics-write_diagnostics}
use hipace.IoUtil.Ids.{local_id_to_global, local_id_to_global_injective}

abbrev cpu : Particle ℕ → ℤ
cpu p = pos 0

abbrev beam : Beam ℕ
beam = record {
  name = "driver";
  particles = particle 5 0 ∷ particle 6 4 ∷ [];
  sorter = record { box_counts = 1 ∷ 1 ∷ 0 ∷ []; box_offsets = 0 ∷ 1 ∷ 2 ∷ [] };
  total = 2;
}

abbrev fresh : List Offsets
fresh = record { offset = 0; tmp_offset = 0 } ∷ []

abbrev every : ℕ → List (Beam ℕ)
every it = beam ∷ []

beam-IsReadable : (it : ℕ) → it < 2 → All (IsReadable it) (every it)
beam-IsReadable zero h = (
  record { count = 1; offset = 0; count_eq = refl; offset_eq = refl; in_range = omega arith },
  tt,
)
beam-IsReadable (suc zero) h = (
  record { count = 1; offset = 1; count_eq = refl; offset_eq = refl; in_range = omega arith },
  tt,
)
beam-IsReadable (suc (suc it)) h = absurd (omega (arith, h))

write_boxes_run_example :
    (done : List Offsets × List (List (List (SpeciesCall ℕ)))) × (write_boxes cpu 2
        (λ it. true)
        ("driver" ∷ [])
        every
        2
        fresh
      ≡ ok done)
write_boxes_run_example =
    write_boxes_run cpu 2 (λ it. true) ("driver" ∷ []) every 2 1 fresh beam-IsReadable (λ it. refl)
      refl

abbrev outcome :
    Result (List Offsets × List (List (List (SpeciesCall ℕ))))
    → List Offsets × List (List (List (SpeciesCall ℕ)))
outcome (err e) = ([], [])
outcome (ok done) = done

abbrev on_two : Result (List Offsets × List (List (List (SpeciesCall ℕ))))
on_two = write_boxes cpu 2 (λ it. true) ("driver" ∷ []) every 2 fresh

abbrev on_one : Result (List Offsets × List (List (List (SpeciesCall ℕ))))
on_one = write_boxes cpu 1 (λ it. true) ("driver" ∷ []) every 2 fresh

runs : (on_two ≡ ok (outcome on_two)) × (on_one ≡ ok (outcome on_one))
unfolding write_boxes write_beam_particle_data write_species write_segment save_box save_positions
    save_ids save_real_property read_segment next_offset contains
runs = (refl, refl)

selected : contains "driver" ("driver" ∷ []) ≡ true
unfolding contains
selected = refl

small : n_below cpu (λ it. beam) 2 < 2 ^ 64
unfolding n_below
small = omega arith

write_boxes-placed_example :
    (stored cpu (position 0) (calls_of_beam cpu 0 (outcome on_two).1)
      ≡ placed cpu (position 0) (λ it. beam) 0 2)
    × Tiles cpu 0
        (n_below cpu (λ it. beam) 2)
        (stored cpu (position 0) (calls_of_beam cpu 0 (outcome on_two).1))
write_boxes-placed_example =
    write_boxes-placed cpu (position 0) 2 (λ it. true) ("driver" ∷ []) every 0 (λ it. beam)
      (omega arith) (λ it. refl) (λ it. selected) fresh (record { offset = 0; tmp_offset = 0 })
      (outcome on_two) refl small runs.0

write_boxes-placed_on_one_example :
    stored cpu (position 0) (calls_of_beam cpu 0 (outcome on_one).1)
    ≡ placed_on_one cpu (position 0) (λ it. beam) 0 2
write_boxes-placed_on_one_example =
    write_boxes-placed_on_one cpu (position 0) 1 (λ it. true) ("driver" ∷ []) every 0 (λ it. beam)
      (omega arith) (λ it. refl) (λ it. selected) 2 fresh (record { offset = 0; tmp_offset = 0 })
      (outcome on_one) refl refl (omega (arith, small)) runs.1

-- Both particles are stored with the id of the first, although the second has the id 6.
stored_ids :
    stored cpu id (calls_of_beam cpu 0 (outcome on_two).1)
    ≡ (0, ids (5 ∷ [])) ∷ (1, ids (5 ∷ [])) ∷ []
unfolding stored calls_of_beam write_boxes write_beam_particle_data write_species write_segment
    save_box save_positions save_ids save_real_property read_segment next_offset contains
    local_id_to_global hipace.IoUtil.Ids.bit_or hipace.IoUtil.Ids.to_uint64
stored_ids = refl

abbrev field : FieldData
field = record {
  write_fields_of = true;
  data_box = record { small_end = vect 0 0 2; big_end = vect 3 3 5 };
  domain_z = 8;
}

abbrev closed : Writer
closed = record { output_series = []; last_output_dumped = []; offsets = [] }

abbrev opened : Writer
opened = record { output_series = new_series 1; last_output_dumped = none ∷ []; offsets = [] }

abbrev out : Output ℕ
out = record {
  nprocs = 2;
  it = 1;
  output_step = 4;
  beamnames = [];
  beam_list = [];
  slice_dir = pos 1;
  n_varnames = 2;
}

opening : init_diagnostics 4 (pos 2) 9 1 closed ≡ ok opened
unfolding init_diagnostics writes_diagnostics new_series
opening = refl

writes : writes_diagnostics (pos 2) 9 4 ≡ ok true
unfolding writes_diagnostics
writes = refl

init_diagnostics-write_diagnostics_example :
    (next : Writer × List (SeriesCall ℕ)) × (write_diagnostics cpu out fields 0 (field ∷ []) opened
      ≡ ok next)
init_diagnostics-write_diagnostics_example =
    init_diagnostics-write_diagnostics cpu out 4 (pos 2) 9 1 closed opened (field ∷ []) writes
      opening (omega arith)

abbrev local_id : ℕ
local_id = 7

abbrev process : ℕ
process = 3

local_id_to_global_injective_example : (local_id ≡ local_id) × (process ≡ process)
local_id_to_global_injective_example =
    local_id_to_global_injective local_id process local_id process (omega arith) (omega arith)
      (omega arith) (omega arith) refl
