-- ===== src/OpenPmd/Runs.antt =====
-- The output of the beams runs without an error if the sorters fit the beams.
use Prim.Native.String.{String}
use hipace.Prelude.{
  ℕ, zero, suc, ◌+◌, ◌≤◌, ◌<◌, ◌≡◌, refl, sym, ◌∙◌, ap, leb, ◌==◌, Bool, true, Bool-cases, inl, inr,
  if◌then◌else◌, List, [], ◌∷◌, ◌++◌, ℤ, ok, ◌>>=◌, length, get_elem?, some, arith, All,
}
use hipace.Particles.{Particle}
use hipace.Sort.{read, read-some}
use hipace.Parser.{contains}
use hipace.OpenPmd.Species.{
  SpeciesCall, setup, Offsets, Beam, next_offset, save_box, write_segment, write_species,
  write_beam_particle_data, write_boxes,
}
use hipace.OpenPmd.Chunks.{save_box-runs, box_calls}

-- The sorter has an entry for the box, and its segment lies in the array.
pub record IsReadable {R : Type 0} (it : ℕ) (beam : Beam R) : Type 0 where
  pub count : ℕ
  pub offset : ℕ
  pub count_eq : get_elem? beam.sorter.box_counts it ≡ some count
  pub offset_eq : get_elem? beam.sorter.box_offsets it ≡ some offset
  pub in_range : offset + count ≤ length beam.particles

module _ {R : Type 0} (cpu : Particle R → ℤ) where
  save_box_or_none :
      (ps : List (Particle R)) (offset first num : ℕ)
      → first + num ≤ length ps
      → (calls : List (SpeciesCall R)) × ((if num == 0
            then ok []
            else save_box cpu ps offset first num)
          ≡ ok calls)
  save_box_or_none ps offset first num h = elim (Bool-cases (num == 0)) [
    | inl e ↦ ([], rw e refl)
    | inr e ↦
        let fits : leb (first + num) (length ps) ≡ true = ground arith in
        (box_calls cpu ps offset first num, rw e (save_box-runs cpu ps offset first num fits))
  ]

  write_segment_runs :
      (it offset : ℕ) (setup_calls : List (SpeciesCall R)) (beam : Beam R)
      → IsReadable it beam
      → (next : Offsets × List (SpeciesCall R)) × (write_segment cpu it offset setup_calls beam
          ≡ ok next)
  unfolding write_segment
  write_segment_runs it offset setup_calls beam readable =
      let r1 : read beam.sorter.box_offsets it ≡ ok readable.offset =
        read-some beam.sorter.box_offsets it readable.offset_eq in
      let r2 : read beam.sorter.box_counts it ≡ ok readable.count =
        read-some beam.sorter.box_counts it readable.count_eq in
      let (calls, saved) =
        save_box_or_none beam.particles offset readable.offset readable.count readable.in_range in
      (
        (record { offset = offset; tmp_offset = readable.count }, setup_calls ++ calls),
        ap
              (λ m. m >>= λ box_offset. read beam.sorter.box_counts it >>= λ num.
                (if num == 0 then ok [] else save_box cpu beam.particles offset box_offset num)
                >>= λ calls.
                    ok (record { offset = offset; tmp_offset = num }, setup_calls ++ calls))
              r1
            ∙ ap
                (λ m. m >>= λ num.
                  (if num == 0
                    then ok []
                    else save_box cpu beam.particles offset readable.offset num)
                  >>= λ calls.
                      ok (record { offset = offset; tmp_offset = num }, setup_calls ++ calls))
                r2
            ∙ ap
                (λ m. m >>= λ calls.
                  ok
                    (record { offset = offset; tmp_offset = readable.count }, setup_calls ++ calls))
                saved,
      )

  write_species_runs :
      (nprocs it : ℕ) (is_new : Bool) (beamnames : List String) (beam : Beam R) (o : Offsets)
      → IsReadable it beam
      → (next : Offsets × List (SpeciesCall R)) × (write_species cpu nprocs it is_new beamnames beam
            o
          ≡ ok next)
  unfolding write_species
  write_species_runs nprocs it is_new beamnames beam o readable =
      elim (Bool-cases (contains beam.name beamnames)) [
        | inr e ↦ ((o, []), rw e refl)
        | inl e ↦
            let (next, run) =
              write_segment_runs it (next_offset cpu nprocs it o)
                (if is_new then setup beam.total ∷ [] else []) beam readable in
            (next, rw e run)
      ]

  write_beams_run :
      (nprocs it : ℕ) (is_new : Bool) (beamnames : List String) (beams : List (Beam R))
      (offsets : List Offsets)
      → All (IsReadable it) beams
      → length offsets ≡ length beams
      → (next : List Offsets × List (List (SpeciesCall R))) × (write_beam_particle_data cpu nprocs
            it is_new beamnames beams offsets
          ≡ ok next)
        × (length next.0 ≡ length beams)
  unfolding write_beam_particle_data
  write_beams_run nprocs it is_new beamnames [] offsets readable h = ((offsets, []), refl, h)
  write_beams_run nprocs it is_new beamnames (b ∷ beams) [] readable h = absurd (omega (arith, h))
  write_beams_run nprocs it is_new beamnames (b ∷ beams) (o ∷ offsets) readable h =
      let (moved, run) = write_species_runs nprocs it is_new beamnames b o readable.0 in
      let (others, runs, n) =
        write_beams_run nprocs it is_new beamnames beams offsets readable.1 (omega (arith, h)) in
      ((moved.0 ∷ others.0, moved.1 ∷ others.1), rw (run, runs) refl, ap suc n)

  -- The output of the beams in one time step runs without an error, for any number of boxes and
  -- processes, if in each box the sorter of every beam has an entry for the box, and the segment that it
  -- gives lies in the beam's array.
  pub write_boxes_run :
      (nprocs : ℕ) (is_new : ℕ → Bool) (beamnames : List String) (beams : ℕ → List (Beam R))
      (n nbeams : ℕ) (offsets : List Offsets)
      → ((it : ℕ) → it < n → All (IsReadable it) (beams it))
      → ((it : ℕ) → length (beams it) ≡ nbeams)
      → length offsets ≡ nbeams
      → (done : List Offsets × List (List (List (SpeciesCall R)))) × (write_boxes cpu nprocs is_new
            beamnames beams n offsets
          ≡ ok done)
  unfolding write_boxes
  write_boxes_run nprocs is_new beamnames beams zero nbeams offsets readable all h =
      ((offsets, []), refl)
  write_boxes_run nprocs is_new beamnames beams (suc it) nbeams offsets readable all h =
      let (next, run, m) =
        write_beams_run nprocs it (is_new it) beamnames (beams it) offsets
          (readable it (omega arith)) (h ∙ sym (all it)) in
      let (done, runs) =
        write_boxes_run nprocs is_new beamnames beams it nbeams next.0
          (λ i below. readable i (omega (arith, below))) all (m ∙ all it) in
      ((done.0, next.1 ∷ done.1), rw (run, runs) refl)
