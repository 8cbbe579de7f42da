-- ===== src/OpenPmd/Boxes.antt =====
-- Evolve's loop over the boxes, as far as it writes the beams: where the particles of each box go in
-- the data sets of a beam.
use Prim.Native.String.{String}
use hipace.Prelude.{
  ℕ, zero, suc, ◌+◌, ◌^◌, ◌<◌, ◌≡◌, refl, sym, ◌∙◌, ap, subst, ◌==◌, Bool, true, Bool-cases, inl,
  inr, if◌then◌else◌, List, [], ◌∷◌, ◌++◌, ℤ, ok, >>=-eq-ok, ok-injective, get_or, get_elem?, some,
  arith,
}
use hipace.Particles.{Particle}
use hipace.Parser.{contains}
use hipace.OpenPmd.Species.{
  Component, Content, SpeciesCall, Offsets, Beam, next_offset, write_beam_particle_data,
  write_boxes,
}
use hipace.OpenPmd.Chunks.{
  IsComponent, stored, n_particles, box_content, stored-append, write_species-IsWritten,
}
use hipace.OpenPmd.Rounds.{
  placed, placed_on_one, n_below, calls_of_beam, IsRound-of, next_offset-later, next_offset-first,
  Tiles, IsComplete, placed-Tiles, placed-suc, placed_on_one-suc,
}

module _ {R : Type 0} (cpu : Particle R → ℤ) where
  module _ (c : Component) (nprocs : ℕ) (is_new : ℕ → Bool) (beamnames : List String)
      (all_beams : ℕ → List (Beam R)) (k : ℕ) (beams : ℕ → Beam R) (exists : IsComponent c)
      (here : (it : ℕ) → get_elem? (all_beams it) k ≡ some (beams it))
      (selected : (it : ℕ) → contains (beams it).name beamnames ≡ true) where
    nwrite_boxes-placed_on_one :
        (offsets : List Offsets) (done : List Offsets × List (List (List (SpeciesCall R))))
        → write_boxes cpu nprocs is_new beamnames all_beams 0 offsets ≡ ok done
        → stored cpu c (calls_of_beam cpu k done.1) ≡ []
    unfolding write_boxes calls_of_beam stored
    nwrite_boxes-placed_on_one offsets done run =
        ap
          (λ (t : List Offsets × List (List (List (SpeciesCall R)))).
            stored cpu c (calls_of_beam cpu k t.1))
          (sym (ok-injective run))

    -- One box, and those below it.
    round_stored :
        (it start : ℕ) (offsets : List Offsets) (o : Offsets)
        (done : List Offsets × List (List (List (SpeciesCall R)))) (rest : List (ℕ × Content R))
        → get_elem? offsets k ≡ some o
        → next_offset cpu nprocs it o ≡ start
        → ((next : List Offsets) (o' : Offsets)
              (later : List Offsets × List (List (List (SpeciesCall R))))
            → get_elem? next k ≡ some o'
            → o'.offset + o'.tmp_offset ≡ start + n_particles cpu (beams it) it
            → write_boxes cpu nprocs is_new beamnames all_beams it next ≡ ok later
            → stored cpu c (calls_of_beam cpu k later.1) ≡ rest)
        → write_boxes cpu nprocs is_new beamnames all_beams (suc it) offsets ≡ ok done
        → stored cpu c (calls_of_beam cpu k done.1)
          ≡ (if n_particles cpu (beams it) it == 0
              then []
              else (start, box_content cpu c (beams it) it) ∷ [])
            ++ rest
    unfolding write_boxes calls_of_beam
    round_stored it start offsets o done rest ho at_start lower run =
        let (next, box, run1) =
          >>=-eq-ok
            (write_beam_particle_data cpu nprocs it (is_new it) beamnames (all_beams it) offsets) _
            run in
        let (later, below, run2) =
          >>=-eq-ok (write_boxes cpu nprocs is_new beamnames all_beams it next.0) _ run1 in
        let r =
          IsRound-of cpu nprocs it (is_new it) beamnames (all_beams it) (beams it) k offsets o next
            (here it) ho box in
        let w =
          write_species-IsWritten cpu c nprocs it (is_new it) beamnames (beams it) o
            (r.last, r.calls) exists (selected it) r.run in
        let behind : r.last.offset + r.last.tmp_offset ≡ start + n_particles cpu (beams it) it =
          omega (arith, w.offset_eq, w.tmp_offset_eq, at_start) in
        let others = lower next.0 r.last later r.last_eq behind below in
        let this_box : stored cpu c r.calls ≡ (
            if n_particles cpu (beams it) it == 0
            then []
            else (start, box_content cpu c (beams it) it) ∷ []) =
          subst
            (λ t. stored cpu c r.calls ≡ (
              if n_particles cpu (beams it) it == 0
              then []
              else (t, box_content cpu c (beams it) it) ∷ []))
            at_start w.stored_eq in
        ap
          (λ (t : List Offsets × List (List (List (SpeciesCall R)))).
            stored cpu c (calls_of_beam cpu k t.1))
          (sym (ok-injective run2))
        ∙ stored-append cpu c (get_or next.1 k []) (calls_of_beam cpu k later.1)
        ∙ ap (λ t. stored cpu c t ++ stored cpu c (calls_of_beam cpu k later.1)) r.calls_eq
        ∙ ap (λ t. t ++ stored cpu c (calls_of_beam cpu k later.1)) this_box
        ∙ ap
            (λ t.
              (if n_particles cpu (beams it) it == 0
                then []
                else (start, box_content cpu c (beams it) it) ∷ [])
              ++ t)
            others

    lower_stored :
        (it : ℕ) (offsets : List Offsets) (o : Offsets)
        (done : List Offsets × List (List (List (SpeciesCall R))))
        → it < nprocs
        → get_elem? offsets k ≡ some o
        → o.offset + o.tmp_offset + n_below cpu beams it < 2 ^ 64
        → write_boxes cpu nprocs is_new beamnames all_beams it offsets ≡ ok done
        → stored cpu c (calls_of_beam cpu k done.1)
          ≡ placed cpu c beams (o.offset + o.tmp_offset) it
    unfolding n_below placed
    lower_stored zero offsets o done h ho small run = nwrite_boxes-placed_on_one offsets done run
    lower_stored (suc it) offsets o done h ho small run =
        round_stored it (o.offset + o.tmp_offset) offsets o done
          (placed cpu c beams (o.offset + o.tmp_offset + n_particles cpu (beams it) it) it) ho
          (next_offset-later cpu nprocs it o (λ e. omega (arith, h, e)) (omega (arith, small)))
          (λ next o' later ho' behind below.
            subst (λ t. stored cpu c (calls_of_beam cpu k later.1) ≡ placed cpu c beams t it) behind
              (lower_stored it next o' later (omega (arith, h)) ho' (omega (arith, small, behind))
                below))
          run
        ∙ placed-suc cpu c beams (o.offset + o.tmp_offset) it

    whole_stored :
        (n : ℕ) (offsets : List Offsets) (o : Offsets)
        (done : List Offsets × List (List (List (SpeciesCall R))))
        → n ≡ nprocs
        → get_elem? offsets k ≡ some o
        → n_below cpu beams n < 2 ^ 64
        → write_boxes cpu nprocs is_new beamnames all_beams n offsets ≡ ok done
        → stored cpu c (calls_of_beam cpu k done.1) ≡ placed cpu c beams 0 n
    unfolding n_below placed
    whole_stored zero offsets o done same ho small run = nwrite_boxes-placed_on_one offsets done run
    whole_stored (suc it) offsets o done same ho small run =
        round_stored it 0 offsets o done (placed cpu c beams (0 + n_particles cpu (beams it) it) it)
          ho (subst (λ t. next_offset cpu t it o ≡ 0) same (next_offset-first cpu it o))
          (λ next o' later ho' behind below.
            subst (λ t. stored cpu c (calls_of_beam cpu k later.1) ≡ placed cpu c beams t it) behind
              (lower_stored it next o' later (omega (arith, same)) ho'
                (omega (arith, small, behind)) below))
          run
        ∙ placed-suc cpu c beams 0 it

    -- Where the loop runs without an error, the chunks have as many elements as the boxes have particles.
    write_boxes-IsComplete :
        (it : ℕ) (offsets : List Offsets) (o : Offsets)
        (done : List Offsets × List (List (List (SpeciesCall R))))
        → get_elem? offsets k ≡ some o
        → write_boxes cpu nprocs is_new beamnames all_beams it offsets ≡ ok done
        → (b : ℕ) → b < it
        → IsComplete cpu c beams b
    unfolding write_boxes
    write_boxes-IsComplete zero offsets o done ho run b h = absurd (omega (arith, h))
    write_boxes-IsComplete (suc it) offsets o done ho run b h =
        let (next, box, run1) =
          >>=-eq-ok
            (write_beam_particle_data cpu nprocs it (is_new it) beamnames (all_beams it) offsets) _
            run in
        let (later, below, _) =
          >>=-eq-ok (write_boxes cpu nprocs is_new beamnames all_beams it next.0) _ run1 in
        let r =
          IsRound-of cpu nprocs it (is_new it) beamnames (all_beams it) (beams it) k offsets o next
            (here it) ho box in
        let w =
          write_species-IsWritten cpu c nprocs it (is_new it) beamnames (beams it) o
            (r.last, r.calls) exists (selected it) r.run in
        elim (Bool-cases (b == it)) [
          | inl same ↦
              let at_it : it ≡ b = ground (arith, same) in
              subst (IsComplete cpu c beams) at_it w.size_eq
          | inr other ↦
              write_boxes-IsComplete it next.0 r.last later r.last_eq below b
                (ground (arith, other, h))
        ]

    -- With as many boxes as processes, the particles of a beam that is written lie one behind the other in
    -- its data sets, in one time step: for each component, the chunks that the loop over the boxes stores
    -- begin at 0, those of the highest box first, and each further one begins where the one before it
    -- ends; its content is what the code takes from the box. Together they take the places from 0 up to
    -- the number of particles in the boxes, without a gap or an overlap. Nothing is said of the size of the
    -- data sets, which the code takes from get_total_num_particles. This holds whenever the loop runs without
    -- an error, the beam has fewer than 2 ^ 64 particles, and it is the beam of index `k` in each box.
    pub write_boxes-placed :
        (offsets : List Offsets) (o : Offsets)
        (done : List Offsets × List (List (List (SpeciesCall R))))
        → get_elem? offsets k ≡ some o
        → n_below cpu beams nprocs < 2 ^ 64
        → write_boxes cpu nprocs is_new beamnames all_beams nprocs offsets ≡ ok done
        → (stored cpu c (calls_of_beam cpu k done.1) ≡ placed cpu c beams 0 nprocs)
          × Tiles cpu 0 (n_below cpu beams nprocs) (stored cpu c (calls_of_beam cpu k done.1))
    write_boxes-placed offsets o done ho small run =
        let chunks = whole_stored nprocs offsets o done refl ho small run in
        let up_to : 0 + n_below cpu beams nprocs ≡ n_below cpu beams nprocs = omega arith in
        (
          chunks,
          subst (Tiles cpu 0 (n_below cpu beams nprocs)) (sym chunks) (
              subst (λ t. Tiles cpu 0 t (placed cpu c beams 0 nprocs)) up_to
                (placed-Tiles cpu c beams 0 nprocs
                  (write_boxes-IsComplete nprocs offsets o done ho run))),
        )

    -- On one process with several boxes, the boxes above box 0 lie one behind the other from the offset
    -- that the step before has left (0, if there was none), and the chunk of box 0 begins at 0, wherever
    -- the others lie. This holds whenever the loop runs without an error, the offsets stay below 2 ^ 64,
    -- and it is the beam of index `k` in each box.
    pub write_boxes-placed_on_one :
        (it : ℕ) (offsets : List Offsets) (o : Offsets)
        (done : List Offsets × List (List (List (SpeciesCall R))))
        → nprocs ≡ 1
        → get_elem? offsets k ≡ some o
        → o.offset + o.tmp_offset + n_below cpu beams it < 2 ^ 64
        → write_boxes cpu nprocs is_new beamnames all_beams it offsets ≡ ok done
        → stored cpu c (calls_of_beam cpu k done.1)
          ≡ placed_on_one cpu c beams (o.offset + o.tmp_offset) it
    unfolding n_below placed_on_one placed
    write_boxes-placed_on_one zero offsets o done one ho small run =
        nwrite_boxes-placed_on_one offsets done run
    write_boxes-placed_on_one (suc zero) offsets o done one ho small run =
        round_stored 0 0 offsets o done (placed cpu c beams (0 + n_particles cpu (beams 0) 0) 0) ho
          (subst (λ t. next_offset cpu t 0 o ≡ 0) (sym one) (next_offset-first cpu 0 o))
          (λ next o' later ho' behind below. nwrite_boxes-placed_on_one next later below) run
        ∙ placed-suc cpu c beams 0 0
    write_boxes-placed_on_one (suc (suc it)) offsets o done one ho small run =
        round_stored (suc it) (o.offset + o.tmp_offset) offsets o done
          (placed_on_one cpu c beams
            (o.offset + o.tmp_offset + n_particles cpu (beams (suc it)) (suc it)) (suc it))
          ho
          (next_offset-later cpu nprocs (suc it) o (λ e. omega (arith, one, e))
            (omega (arith, small)))
          (λ next o' later ho' behind below.
            subst
              (λ t.
                stored cpu c (calls_of_beam cpu k later.1) ≡ placed_on_one cpu c beams t (suc it))
              behind
              (write_boxes-placed_on_one (suc it) next o' later one ho'
                (omega (arith, small, behind)) below))
          run
        ∙ placed_on_one-suc cpu c beams (o.offset + o.tmp_offset) it
