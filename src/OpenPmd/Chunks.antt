-- ===== src/OpenPmd/Chunks.antt =====
-- The chunks that one box adds to the data sets of a beam.
use Prim.Native.String.{String}
use hipace.Prelude.{
  ℕ, zero, suc, ◌+◌, ◌<◌, ◌≡◌, refl, sym, ◌∙◌, ap, subst, leb, ◌==◌, Bool, true, false, Bool-cases,
  inl, inr, if◌then◌else◌, List, [], ◌∷◌, ◌++◌, map, length, take, drop, length-map, length-take,
  length-drop, ◌≤◌, ℤ, ok, err, Error, >>=-eq-ok, ok-injective, get_or, arith,
}
use hipace.Particles.{Particle}
use hipace.Sort.{read}
use hipace.Parser.{contains}
use hipace.IoUtil.Ids.{local_id_to_global}
use hipace.OpenPmd.Species.{
  Component, position, property, id, Content, reals, ids, SpeciesCall, setup, store_chunk, Offsets,
  Beam, read_segment, coordinate, real_data, save_real_property, save_positions, save_ids, save_box,
  next_offset, write_segment, write_species,
}

-- Equality of components.
abbrev same_component : Component → Component → Bool
same_component (position d) (position e) = d == e
same_component (property d) (property e) = d == e
same_component id id = true
same_component _ _ = false

-- The components that exist.
abbrev pub IsComponent : Component → Type 0
IsComponent (position d) = d < 3
IsComponent (property i) = i < 4
IsComponent id = Unit

module _ {R : Type 0} (cpu : Particle R → ℤ) where
  -- The chunks of a component, with their offsets.
  unfoldable pub stored : Component → List (SpeciesCall R) → List (ℕ × Content R)
  stored c [] = []
  stored c (setup np ∷ calls) = stored c calls
  stored c (store_chunk d offset content ∷ calls) =
      if same_component c d then (offset, content) ∷ stored c calls else stored c calls

  -- The number of particles in a box, and its segment of the array.
  abbrev pub n_particles : Beam R → ℕ → ℕ
  n_particles beam it = get_or beam.sorter.box_counts it 0

  abbrev pub segment : Beam R → ℕ → List (Particle R)
  segment beam it =
      take (n_particles beam it) (drop (get_or beam.sorter.box_offsets it 0) beam.particles)

  -- What is stored of a box. The ids are not those of its segment but of the first particles in the array.
  unfoldable pub box_content : Component → Beam R → ℕ → Content R
  box_content (position d) beam it = reals (map (coordinate d) (segment beam it))
  box_content (property i) beam it = reals (map (real_data i) (segment beam it))
  box_content id beam it =
      ids (map (λ p. local_id_to_global p.id (cpu p)) (take (n_particles beam it) beam.particles))

  -- The number of elements of a chunk.
  unfoldable pub n_elements : Content R → ℕ
  n_elements (reals xs) = length xs
  n_elements (ids xs) = length xs

  length-segment :
      {A : Type 0} (xs : List A) (first count : ℕ)
      → first + count ≤ length xs
      → length (take count (drop first xs)) ≡ count
  length-segment xs first count h =
      omega (arith, length-take count (drop first xs), length-drop first xs, h)

  -- The box of a beam is in the array.
  abbrev IsFitting : Beam R → ℕ → Type 0
  IsFitting beam it =
      leb (get_or beam.sorter.box_offsets it 0 + n_particles beam it) (length beam.particles) ≡ true

  -- The chunk of a box has an element for each of its particles, if the box is in the array.
  n_elements-box_content :
      (c : Component) (beam : Beam R) (it : ℕ)
      → IsFitting beam it
      → n_elements (box_content c beam it) ≡ n_particles beam it
  unfolding n_elements box_content
  n_elements-box_content (position d) beam it fits =
      length-map (segment beam it) (coordinate d)
      ∙ length-segment beam.particles (get_or beam.sorter.box_offsets it 0) (n_particles beam it)
          (ground (arith, fits))
  n_elements-box_content (property i) beam it fits =
      length-map (segment beam it) (real_data i)
      ∙ length-segment beam.particles (get_or beam.sorter.box_offsets it 0) (n_particles beam it)
          (ground (arith, fits))
  n_elements-box_content id beam it fits =
      length-map (take (n_particles beam it) beam.particles) (λ p. local_id_to_global p.id (cpu p))
      ∙ length-segment beam.particles 0 (n_particles beam it) (ground (arith, fits))

  read_segment-eq :
      {A : Type 0} (xs : List A) (first count : ℕ)
      → leb (first + count) (length xs) ≡ true
      → read_segment xs first count ≡ ok (take count (drop first xs))
  unfolding read_segment
  read_segment-eq xs first count e = rw (read_segment, e) refl

  read_segment-err :
      {A : Type 0} (xs : List A) (first count : ℕ)
      → leb (first + count) (length xs) ≡ false
      → read_segment xs first count ≡ err Error.out_of_range
  unfolding read_segment
  read_segment-err xs first count e = rw (read_segment, e) refl

  -- The calls of save_box, if all reads are in range.
  abbrev pub box_calls : List (Particle R) → (offset box_offset num : ℕ) → List (SpeciesCall R)
  box_calls ps offset first num =
      let seg = take num (drop first ps) in
      store_chunk (position 0) offset (reals (map (coordinate 0) seg))
      ∷ store_chunk (position 1) offset (reals (map (coordinate 1) seg))
      ∷ store_chunk (position 2) offset (reals (map (coordinate 2) seg))
      ∷ store_chunk id offset
          (ids (map (λ p. local_id_to_global p.id (cpu p)) (take num (drop 0 ps))))
      ∷ store_chunk (property 0) offset (reals (map (real_data 0) seg))
      ∷ store_chunk (property 1) offset (reals (map (real_data 1) seg))
      ∷ store_chunk (property 2) offset (reals (map (real_data 2) seg))
      ∷ store_chunk (property 3) offset (reals (map (real_data 3) seg))
      ∷ []

  pub save_box-runs :
      (ps : List (Particle R)) (offset first num : ℕ)
      → leb (first + num) (length ps) ≡ true
      → save_box cpu ps offset first num ≡ ok (box_calls ps offset first num)
  unfolding save_box save_positions save_ids save_real_property
  save_box-runs ps offset first num fits =
      let whole : leb (0 + num) (length ps) ≡ true = ground arith in
      simp (read_segment-eq ps first num fits, read_segment-eq ps 0 num whole)

  save_box-eq :
      (ps : List (Particle R)) (offset first num : ℕ) {calls : List (SpeciesCall R)}
      → save_box cpu ps offset first num ≡ ok calls
      → calls ≡ box_calls ps offset first num
  unfolding save_box save_positions
  save_box-eq ps offset first num {calls} done = elim (Bool-cases (leb (first + num) (length ps))) [
    | inl fits ↦ ok-injective (sym done ∙ save_box-runs ps offset first num fits)
    | inr out ↦
        let stops : save_box cpu ps offset first num ≡ err Error.out_of_range =
          simp (read_segment-err ps first num out) in
        cc
  ]

  save_box-IsFitting :
      (beam : Beam R) (it offset : ℕ) {calls : List (SpeciesCall R)}
      → save_box cpu beam.particles offset
          (get_or beam.sorter.box_offsets it 0)
          (n_particles beam it)
        ≡ ok calls
      → IsFitting beam it
  unfolding save_box save_positions
  save_box-IsFitting beam it offset {calls} done =
      let first = get_or beam.sorter.box_offsets it 0 in
      let num = n_particles beam it in
      elim (Bool-cases (leb (first + num) (length beam.particles))) [
        | inl fits ↦ fits
        | inr out ↦
            let stops : save_box cpu beam.particles offset first num ≡ err Error.out_of_range =
              simp (read_segment-err beam.particles first num out) in
            cc
      ]

  stored-box_calls :
      (c : Component) (beam : Beam R) (it offset : ℕ)
      → IsComponent c
      → stored c (
          box_calls beam.particles offset
            (get_or beam.sorter.box_offsets it 0)
            (n_particles beam it))
        ≡ (offset, box_content c beam it) ∷ []
  unfolding stored box_content
  stored-box_calls (position zero) beam it offset h = refl
  stored-box_calls (position (suc zero)) beam it offset h = refl
  stored-box_calls (position (suc (suc zero))) beam it offset h = refl
  stored-box_calls (position (suc (suc (suc d)))) beam it offset h = absurd (omega arith)
  stored-box_calls (property zero) beam it offset h = refl
  stored-box_calls (property (suc zero)) beam it offset h = refl
  stored-box_calls (property (suc (suc zero))) beam it offset h = refl
  stored-box_calls (property (suc (suc (suc zero)))) beam it offset h = refl
  stored-box_calls (property (suc (suc (suc (suc d))))) beam it offset h = absurd (omega arith)
  stored-box_calls id beam it offset h = refl

  pub stored-append :
      (c : Component) (first later : List (SpeciesCall R))
      → stored c (first ++ later) ≡ stored c first ++ stored c later
  unfolding stored
  stored-append c [] later = refl
  stored-append c (setup np ∷ first) later = stored-append c first later
  stored-append c (store_chunk d offset content ∷ first) later =
      elim (Bool-cases (same_component c d)) [
        | inl e ↦ rw e (ap (λ t. (offset, content) ∷ t) (stored-append c first later))
        | inr e ↦ rw e (stored-append c first later)
      ]

  -- What a round of the loop over the beams leaves.
  pub record IsWritten (c : Component) (nprocs it : ℕ) (beam : Beam R) (o : Offsets)
      (next : Offsets × List (SpeciesCall R)) : Type 0 where
    pub offset_eq : next.0.offset ≡ next_offset cpu nprocs it o
    pub tmp_offset_eq : next.0.tmp_offset ≡ n_particles beam it
    pub stored_eq : stored c next.1 ≡ (
        if n_particles beam it == 0
        then []
        else (next_offset cpu nprocs it o, box_content c beam it) ∷ [])
    pub size_eq :
        (n_particles beam it == 0) ≡ false
        → n_elements (box_content c beam it) ≡ n_particles beam it

  read_inv : (xs : List ℕ) (i : ℕ) {a : ℕ} → read xs i ≡ ok a → get_or xs i 0 ≡ a
  read_inv [] i e = cc
  read_inv (x ∷ xs) zero e = ok-injective e
  read_inv (x ∷ xs) (suc i) e = read_inv xs i e

  stored-setup :
      (c : Component) (is_new : Bool) (np : ℕ) (calls : List (SpeciesCall R))
      → stored c ((if is_new then setup np ∷ [] else []) ++ calls) ≡ stored c calls
  unfolding stored
  stored-setup c true np calls = refl
  stored-setup c false np calls = refl

  -- The calls for a box, which are none if it is empty.
  stored-box :
      (c : Component) (beam : Beam R) (it offset : ℕ) {calls : List (SpeciesCall R)}
      → IsComponent c
      → (if n_particles beam it == 0
          then ok []
          else save_box cpu beam.particles offset
              (get_or beam.sorter.box_offsets it 0)
              (n_particles beam it))
        ≡ ok calls
      → stored c calls
        ≡ (if n_particles beam it == 0 then [] else (offset, box_content c beam it) ∷ [])
  unfolding stored
  stored-box c beam it offset {calls} h done = elim (Bool-cases (n_particles beam it == 0)) [
    | inl e ↦
        let none_saved : ok [] ≡ ok calls =
          subst
            (λ b.
              (if b
                then ok []
                else save_box cpu beam.particles offset (get_or beam.sorter.box_offsets it 0)
                    (n_particles beam it))
              ≡ ok calls)
            e done in
        rw e (ap (stored c) (sym (ok-injective none_saved)))
    | inr e ↦
        let saved : save_box cpu beam.particles offset (get_or beam.sorter.box_offsets it 0)
              (n_particles beam it)
            ≡ ok calls =
          subst
            (λ b.
              (if b
                then ok []
                else save_box cpu beam.particles offset (get_or beam.sorter.box_offsets it 0)
                    (n_particles beam it))
              ≡ ok calls)
            e done in
        rw e (
          ap (stored c) (
            save_box-eq beam.particles offset (get_or beam.sorter.box_offsets it 0)
              (n_particles beam it) saved)
          ∙ stored-box_calls c beam it offset h)
  ]

  write_segment_inv :
      (c : Component) (it offset : ℕ) (is_new : Bool) (beam : Beam R)
      (next : Offsets × List (SpeciesCall R))
      → IsComponent c
      → write_segment cpu it offset (if is_new then setup beam.total ∷ [] else []) beam ≡ ok next
      → (next.0.offset ≡ offset)
        × (next.0.tmp_offset ≡ n_particles beam it)
        × (stored c next.1
            ≡ (if n_particles beam it == 0 then [] else (offset, box_content c beam it) ∷ []))
        × ((n_particles beam it == 0) ≡ false
            → n_elements (box_content c beam it) ≡ n_particles beam it)
  unfolding write_segment
  write_segment_inv c it offset is_new beam next h done =
      let setup_calls = if is_new then setup beam.total ∷ [] else [] in
      let (box_offset, e1, done1) = >>=-eq-ok (read beam.sorter.box_offsets it) _ done in
      let (num, e2, done2) = >>=-eq-ok (read beam.sorter.box_counts it) _ done1 in
      let (calls, e3, done3) =
        >>=-eq-ok (if num == 0 then ok [] else save_box cpu beam.particles offset box_offset num) _
          done2 in
      let at_offset : get_or beam.sorter.box_offsets it 0 ≡ box_offset =
        read_inv beam.sorter.box_offsets it e1 in
      let count : n_particles beam it ≡ num = read_inv beam.sorter.box_counts it e2 in
      let saved : (if n_particles beam it == 0
            then ok []
            else save_box cpu beam.particles offset (get_or beam.sorter.box_offsets it 0)
                (n_particles beam it))
          ≡ ok calls =
        rw (count, at_offset) e3 in
      let same : (record { offset = offset; tmp_offset = num }, setup_calls ++ calls) ≡ next =
        ok-injective done3 in
      (
        ap (λ (t : Offsets × List (SpeciesCall R)). t.0.offset) (sym same),
        ap (λ (t : Offsets × List (SpeciesCall R)). t.0.tmp_offset) (sym same) ∙ sym count,
        ap (λ (t : Offsets × List (SpeciesCall R)). stored c t.1) (sym same)
            ∙ stored-setup c is_new beam.total calls
            ∙ stored-box c beam it offset h saved,
        λ some_particles. n_elements-box_content c beam it (
            save_box-IsFitting beam it offset (
              subst
                (λ b.
                  (if b
                    then ok []
                    else save_box cpu beam.particles offset (get_or beam.sorter.box_offsets it 0)
                        (n_particles beam it))
                  ≡ ok calls)
                some_particles saved)),
      )

  write_species-eq :
      (nprocs it : ℕ) (is_new : Bool) (beamnames : List String) (beam : Beam R) (o : Offsets)
      → contains beam.name beamnames ≡ true
      → write_species cpu nprocs it is_new beamnames beam o
        ≡ write_segment cpu it
            (next_offset cpu nprocs it o)
            (if is_new then setup beam.total ∷ [] else [])
            beam
  unfolding write_species
  write_species-eq nprocs it is_new beamnames beam o e = rw (write_species, e) refl

  pub write_species-IsWritten :
      (c : Component) (nprocs it : ℕ) (is_new : Bool) (beamnames : List String) (beam : Beam R)
      (o : Offsets) (next : Offsets × List (SpeciesCall R))
      → IsComponent c
      → contains beam.name beamnames ≡ true
      → write_species cpu nprocs it is_new beamnames beam o ≡ ok next
      → IsWritten c nprocs it beam o next
  write_species-IsWritten c nprocs it is_new beamnames beam o next h selected done =
      let (e1, e2, e3, e4) =
        write_segment_inv c it (next_offset cpu nprocs it o) is_new beam next h
          (sym (write_species-eq nprocs it is_new beamnames beam o selected) ∙ done) in
      record { offset_eq = e1; tmp_offset_eq = e2; stored_eq = e3; size_eq = e4 }
