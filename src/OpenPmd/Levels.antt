-- ===== src/OpenPmd/Levels.antt =====
-- OpenPMDWriter: the series that it opens, one call of WriteDiagnostics, and the data sets of the fields.
use Prim.Native.String.{String}
use hipace.Prelude.{
  ℕ, zero, suc, ◌+◌, ◌-◌, ◌==◌, not, Bool, true, if◌then◌else◌, List, [], ◌∷◌, ◌++◌, length, set,
  range_from, map, ltb, ℤ, pos, negsuc, Result, ok, ◌>>=◌, Option, none, some,
}
use hipace.Particles.{Particle}
use hipace.Grid.{IntVect, vect, Box}
use hipace.Sort.{read}
use hipace.IoUtil.{get_reversed_vec}
use hipace.Diagnostics.{writes_diagnostics}
use hipace.OpenPmd.Species.{SpeciesCall, Offsets, Beam, write_beam_particle_data, resize_offsets}

-- The file name of a series: with a level, or without.
pub data FileName : Type 0 where
  with_level : ℕ → FileName
  without_level : FileName

-- The members of OpenPMDWriter that change; -1 in m_last_output_dumped is `none`.
pub record Writer : Type 0 where
  pub output_series : List FileName
  pub last_output_dumped : List (Option ℕ)
  pub offsets : List Offsets

-- The series that InitDiagnostics opens.
unfoldable pub new_series : (nlev : ℕ) → List FileName
new_series nlev = if ltb 1 nlev then map with_level (range_from 0 nlev) else without_level ∷ []

unfoldable pub init_diagnostics :
    (output_step : ℕ) (output_period : ℤ) (max_step nlev : ℕ) → Writer → Result Writer
init_diagnostics output_step output_period max_step nlev w = do
  writes ← writes_diagnostics output_period max_step output_step
  ok (
      if writes
      then record w {
        output_series = w.output_series ++ new_series nlev;
        last_output_dumped = w.last_output_dumped ++ map (λ f. none) (new_series nlev);
      }
      else w)

-- What WriteFieldData sets up for one component of the fields, and the chunk that it stores.
pub record FieldChunk : Type 0 where
  pub component : ℕ
  pub axis_labels : List String
  pub global_size : List ℕ
  pub resets_dataset : Bool
  pub chunk_offset : List ℕ
  pub chunk_size : List ℕ

-- `v.erase(v.begin() + 2-slice_dir)` if slice_dir is not negative.
unfoldable pub erase_at : {A : Type 0} → ℕ → List A → List A
erase_at i [] = []
erase_at zero (x ∷ xs) = xs
erase_at (suc i) (x ∷ xs) = x ∷ erase_at i xs

unfoldable pub remove_slice_dir : {A : Type 0} → (slice_dir : ℤ) → List A → List A
remove_slice_dir (pos d) xs = erase_at (2 - d) xs
remove_slice_dir (negsuc d) xs = xs

-- big_end - small_end + 1, in each direction.
unfoldable pub box_size : Box → IntVect
box_size b =
    vect (b.big_end.x + 1 - b.small_end.x) (b.big_end.y + 1 - b.small_end.y)
      (b.big_end.z + 1 - b.small_end.z)

-- WriteFieldData; `domain_z` is geom[lev].Domain().size()[2].
unfoldable pub write_field_data :
    (data_box : Box) (domain_z : ℕ) (slice_dir : ℤ) (is_new : Bool) (n_varnames : ℕ)
    → List FieldChunk
write_field_data data_box domain_z slice_dir is_new n_varnames =
    map
      (λ icomp. record {
        component = icomp;
        axis_labels = remove_slice_dir slice_dir ("z" ∷ "y" ∷ "x" ∷ []);
        global_size =
            remove_slice_dir slice_dir
              (domain_z ∷ (box_size data_box).y ∷ (box_size data_box).x ∷ []);
        resets_dataset = is_new;
        chunk_offset =
            remove_slice_dir slice_dir (get_reversed_vec (vect 0 0 data_box.small_end.z));
        chunk_size = remove_slice_dir slice_dir (get_reversed_vec (box_size data_box));
      })
      (range_from 0 n_varnames)

-- OpenPMDWriterCallType.
pub data CallType : Type 0 where
  beams fields : CallType

-- What is called on the iteration of a level's series.
pub data SeriesCall (R : Type 0) : Type 0 where
  set_time : (lev : ℕ) → SeriesCall R
  write_beams : (lev : ℕ) → List (List (SpeciesCall R)) → SeriesCall R
  write_fields : (lev : ℕ) → List FieldChunk → SeriesCall R
  flush : (lev : ℕ) → SeriesCall R

-- The fields of a level that are written: the box of the FArrayBox, and the size of the domain.
pub record FieldData : Type 0 where
  pub write_fields_of : Bool
  pub data_box : Box
  pub domain_z : ℕ

-- The last parameters of WriteDiagnostics, which do not change from level to level.
pub record Output (R : Type 0) : Type 0 where
  pub nprocs : ℕ
  pub it : ℕ
  pub output_step : ℕ
  pub beamnames : List String
  pub beam_list : List (Beam R)
  pub slice_dir : ℤ
  pub n_varnames : ℕ

-- m_last_output_dumped[lev] != output_step.
unfoldable pub is_new_output : Option ℕ → ℕ → Bool
is_new_output none output_step = true
is_new_output (some last) output_step = not (last == output_step)

module _ {R : Type 0} (cpu : Particle R → ℤ) (out : Output R) where
  -- The branch for the beams, which are written on level 0.
  unfoldable pub write_beams_of_level : (lev : ℕ) → Writer → Result (Writer × List (SeriesCall R))
  write_beams_of_level lev w =
      let written = (do
        last ← read w.last_output_dumped lev
        (offsets, calls) ←
            write_beam_particle_data cpu out.nprocs out.it (is_new_output last out.output_step)
              out.beamnames out.beam_list (resize_offsets w.offsets (length out.beam_list))
        ok (
          record w { offsets = offsets },
          set_time lev ∷ write_beams lev calls ∷ flush lev ∷ [],
        )) in
      if lev == 0 then written else ok (w, set_time lev ∷ flush lev ∷ [])

  -- The branch for the fields, where `last` is m_last_output_dumped[lev].
  unfoldable pub written_fields :
      (lev : ℕ) → FieldData → Writer → (last : Option ℕ) → Writer × List (SeriesCall R)
  written_fields lev field w last = (
    record w { last_output_dumped = set w.last_output_dumped lev (some out.output_step) },
    write_fields lev (
          write_field_data field.data_box field.domain_z out.slice_dir
            (is_new_output last out.output_step) out.n_varnames)
        ∷ flush lev
        ∷ [],
  )

  unfoldable pub write_fields_of_level :
      (lev : ℕ) → FieldData → Writer → Result (Writer × List (SeriesCall R))
  write_fields_of_level lev field w =
      let written = (do
        last ← read w.last_output_dumped lev
        ok (written_fields lev field w last)) in
      if field.write_fields_of then written else ok (w, [])

  -- OpenPMDWriter::WriteDiagnostics, from level `lev` on.
  unfoldable pub write_diagnostics :
      CallType → (lev : ℕ) → List FieldData → Writer → Result (Writer × List (SeriesCall R))
  write_diagnostics call_type lev [] w = ok (w, [])
  write_diagnostics beams lev (field ∷ levels) w = do
    _ ← read w.output_series lev
    (next, calls) ← write_beams_of_level lev w
    (last, rest) ← write_diagnostics beams (lev + 1) levels next
    ok (last, calls ++ rest)
  write_diagnostics fields lev (field ∷ levels) w = do
    _ ← read w.output_series lev
    (next, calls) ← write_fields_of_level lev field w
    (last, rest) ← write_diagnostics fields (lev + 1) levels next
    ok (last, calls ++ rest)
