-- ===== src/OpenPmd/Species.antt =====
-- OpenPMDWriter::WriteBeamParticleData: the particles of one box, written for each beam.
use Prim.Native.String.{String}
use hipace.Prelude.{
  ℕ, zero, suc, ◌+◌, ◌%◌, ◌^◌, leb, ◌==◌, Bool, if◌then◌else◌, List, [], ◌∷◌, ◌++◌, map, length,
  take, drop, ℤ, Result, ok, err, Error, ◌>>=◌,
}
use hipace.Particles.{Particle}
use hipace.Sort.{BoxSorter, read}
use hipace.Parser.{contains}
use hipace.IoUtil.Ids.{local_id_to_global}

-- The components of a particle species in the file: positions by their dimension, ids, and the
-- properties by their index in m_real_names.
pub data Component : Type 0 where
  position property : ℕ → Component
  id : Component

-- The content of a chunk.
pub data Content (R : Type 0) : Type 0 where
  reals : List R → Content R
  ids : List ℕ → Content R

-- What is called on a species: SetupPos with SetupRealProperties, for a number of particles, and
-- storeChunk, with the offset in the component's data set.
pub data SpeciesCall (R : Type 0) : Type 0 where
  setup : (np : ℕ) → SpeciesCall R
  store_chunk : Component → (offset : ℕ) → Content R → SpeciesCall R

-- m_offset[ibeam] and m_tmp_offset[ibeam].
pub record Offsets : Type 0 where
  pub offset : ℕ
  pub tmp_offset : ℕ

-- A beam with its BoxSorter and its get_total_num_particles.
pub record Beam (R : Type 0) : Type 0 where
  pub name : String
  pub particles : List (Particle R)
  pub sorter : BoxSorter
  pub total : ℕ

-- The elements `first`, `first + 1`, .. of an array, read through a pointer.
unfoldable pub read_segment : {A : Type 0} → List A → (first count : ℕ) → Result (List A)
read_segment xs first count =
    if leb (first + count) (length xs)
    then ok (take count (drop first xs))
    else err Error.out_of_range

-- The dimensions of pos(currDim), and m_real_names with the array of each: GetRealData(idx).
unfoldable pub coordinate : {R : Type 0} → ℕ → Particle R → R
coordinate dim p = if dim == 0 then p.x else if dim == 1 then p.y else p.z

unfoldable pub real_data : {R : Type 0} → ℕ → Particle R → R
real_data idx p =
    if idx == 0 then p.w else if idx == 1 then p.ux else if idx == 2 then p.uy else p.uz

module _ {R : Type 0} (cpu : Particle R → ℤ) where
  -- SaveRealProperty.
  unfoldable pub save_real_property :
      (particles : List (Particle R)) (offset box_offset num_particle_on_tile : ℕ) (idxs : List ℕ)
      → Result (List (SpeciesCall R))
  save_real_property particles offset box_offset num [] = ok []
  save_real_property particles offset box_offset num (idx ∷ idxs) = do
    segment ← read_segment particles box_offset num
    calls ← save_real_property particles offset box_offset num idxs
    ok (store_chunk (property idx) offset (reals (map (real_data idx) segment)) ∷ calls)

  -- The loop over the dimensions; pos_structs begins at the box.
  unfoldable pub save_positions :
      (particles : List (Particle R)) (offset box_offset num_particle_on_tile : ℕ) (dims : List ℕ)
      → Result (List (SpeciesCall R))
  save_positions particles offset box_offset num [] = ok []
  save_positions particles offset box_offset num (dim ∷ dims) = do
    segment ← read_segment particles box_offset num
    calls ← save_positions particles offset box_offset num dims
    ok (store_chunk (position dim) offset (reals (map (coordinate dim) segment)) ∷ calls)

  -- The loop over the ids, which reads aos from its beginning.
  unfoldable pub save_ids :
      (particles : List (Particle R)) (offset num_particle_on_tile : ℕ)
      → Result (List (SpeciesCall R))
  save_ids particles offset num = do
    segment ← read_segment particles 0 num
    ok (store_chunk id offset (ids (map (λ p. local_id_to_global p.id (cpu p)) segment)) ∷ [])

  -- The data of a box that is not empty.
  unfoldable pub save_box :
      (particles : List (Particle R)) (offset box_offset num_particle_on_tile : ℕ)
      → Result (List (SpeciesCall R))
  save_box particles offset box_offset num = do
    positions ← save_positions particles offset box_offset num (0 ∷ 1 ∷ 2 ∷ [])
    particle_ids ← save_ids particles offset num
    properties ← save_real_property particles offset box_offset num (0 ∷ 1 ∷ 2 ∷ 3 ∷ [])
    ok (positions ++ (particle_ids ++ properties))

  -- m_offset[ibeam], set in the first box of the loop over boxes and advanced in the others.
  unfoldable pub next_offset : (nprocs it : ℕ) → Offsets → ℕ
  next_offset nprocs it o = if (it + 1) == nprocs then 0 else (o.offset + o.tmp_offset) % 2 ^ 64

  -- What a round of the loop does behind the setup of the species and its offset.
  unfoldable pub write_segment :
      (it offset : ℕ) (setup_calls : List (SpeciesCall R)) (beam : Beam R)
      → Result (Offsets × List (SpeciesCall R))
  write_segment it offset setup_calls beam = do
    box_offset ← read beam.sorter.box_offsets it
    num ← read beam.sorter.box_counts it
    let saved = save_box beam.particles offset box_offset num
    calls ← (if num == 0 then ok [] else saved)
    ok (record { offset = offset; tmp_offset = num }, setup_calls ++ calls)

  -- One round of the loop over the beams. `is_new` is m_last_output_dumped[lev] != output_step.
  unfoldable pub write_species :
      (nprocs it : ℕ) (is_new : Bool) (beamnames : List String) (beam : Beam R)
      → Offsets
      → Result (Offsets × List (SpeciesCall R))
  write_species nprocs it is_new beamnames beam o =
      let setup_calls = if is_new then setup beam.total ∷ [] else [] in
      let written = write_segment it (next_offset nprocs it o) setup_calls beam in
      if contains beam.name beamnames then written else ok (o, [])

  -- The loop over the beams.
  unfoldable pub write_beam_particle_data :
      (nprocs it : ℕ) (is_new : Bool) (beamnames : List String) (beams : List (Beam R))
      → List Offsets
      → Result (List Offsets × List (List (SpeciesCall R)))
  write_beam_particle_data nprocs it is_new beamnames [] offsets = ok (offsets, [])
  write_beam_particle_data nprocs it is_new beamnames (beam ∷ beams) [] = err Error.out_of_range
  write_beam_particle_data nprocs it is_new beamnames (beam ∷ beams) (o ∷ offsets) = do
    (next, calls) ← write_species nprocs it is_new beamnames beam o
    (others, rest) ← write_beam_particle_data nprocs it is_new beamnames beams offsets
    ok (next ∷ others, calls ∷ rest)

  -- The loop of Hipace::Evolve over the boxes, from the highest one on, as far as WriteDiagnostics
  -- writes the beams. What the beams hold changes from box to box.
  unfoldable pub write_boxes :
      (nprocs : ℕ) (is_new : ℕ → Bool) (beamnames : List String) (beams : ℕ → List (Beam R))
      (it : ℕ)
      → List Offsets
      → Result (List Offsets × List (List (List (SpeciesCall R))))
  write_boxes nprocs is_new beamnames beams zero offsets = ok (offsets, [])
  write_boxes nprocs is_new beamnames beams (suc it) offsets = do
    (next, calls) ← write_beam_particle_data nprocs it (is_new it) beamnames (beams it) offsets
    (last, rest) ← write_boxes nprocs is_new beamnames beams it next
    ok (last, calls ∷ rest)

-- m_offset.resize(nbeams) and m_tmp_offset.resize(nbeams): new elements are zero.
unfoldable pub resize_offsets : List Offsets → (nbeams : ℕ) → List Offsets
resize_offsets offsets zero = []
resize_offsets [] (suc n) = record { offset = 0; tmp_offset = 0 } ∷ resize_offsets [] n
resize_offsets (o ∷ offsets) (suc n) = o ∷ resize_offsets offsets n
