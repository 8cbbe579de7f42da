-- ===== src/OpenPmd/Rounds.antt =====
-- The rounds of Evolve's loop over the boxes for one beam, and the places of the boxes in its data sets.
use Prim.Native.String.{String}
use mathlib.Core.Option.{some-injective}
use hipace.Prelude.{
  ℕ, zero, suc, ◌+◌, ◌^◌, ◌<◌, ◌≡◌, ◌≢◌, refl, sym, ◌∙◌, ap, subst, ◌==◌, Bool, true, false,
  Bool-cases, inl, inr, if◌then◌else◌, List, [], ◌∷◌, ◌++◌, ℤ, ok, >>=-eq-ok, ok-injective, get_or,
  get_elem?, some, arith,
}
use hipace.Particles.{Particle}
use hipace.OpenPmd.Species.{
  Component, Content, SpeciesCall, Offsets, Beam, next_offset, write_species,
  write_beam_particle_data,
}
use hipace.OpenPmd.Chunks.{n_particles, box_content, n_elements}

module _ {R : Type 0} (cpu : Particle R → ℤ) where
  -- The boxes below `it`, from the highest one on, one behind the other from `start` on; a box without
  -- particles has no chunk.
  unfoldable pub placed : Component → (ℕ → Beam R) → (start it : ℕ) → List (ℕ × Content R)
  placed c beams start zero = []
  placed c beams start (suc it) =
      let rest = placed c beams (start + n_particles cpu (beams it) it) it in
      if n_particles cpu (beams it) it == 0
      then rest
      else (start, box_content cpu c (beams it) it) ∷ rest

  -- The particles of the boxes below `it`.
  unfoldable pub n_below : (ℕ → Beam R) → ℕ → ℕ
  n_below beams zero = 0
  n_below beams (suc it) = n_particles cpu (beams it) it + n_below beams it

  -- The chunks take the places from `start` up to `stop` without a gap or an overlap: each begins where
  -- the one before it ends.
  pub Tiles : (start stop : ℕ) → List (ℕ × Content R) → Type 0
  Tiles start stop [] = start ≡ stop
  Tiles start stop ((offset, content) ∷ chunks) =
      (offset ≡ start) × Tiles (start + n_elements cpu content) stop chunks

  -- The chunk of a box has an element for each of its particles.
  abbrev pub IsComplete : Component → (ℕ → Beam R) → ℕ → Type 0
  IsComplete c beams it =
      (n_particles cpu (beams it) it == 0) ≡ false
      → n_elements cpu (box_content cpu c (beams it) it) ≡ n_particles cpu (beams it) it

  pub placed-Tiles :
      (c : Component) (beams : ℕ → Beam R) (start it : ℕ)
      → ((b : ℕ) → b < it → IsComplete c beams b)
      → Tiles start (start + n_below beams it) (placed c beams start it)
  unfolding Tiles placed n_below
  placed-Tiles c beams start zero complete = omega arith
  placed-Tiles c beams start (suc it) complete =
      let n = n_particles cpu (beams it) it in
      let below : start + n + n_below beams it ≡ start + (n + n_below beams it) = omega arith in
      let rest =
        subst (λ t. Tiles (start + n) t (placed c beams (start + n) it)) below
          (placed-Tiles c beams (start + n) it (λ b h. complete b (omega (arith, h)))) in
      elim (Bool-cases (n == 0)) [
        | inl e ↦
            let none_here : start + n ≡ start = ground (arith, e) in
            rw e (
              subst (λ t. Tiles t (start + (n + n_below beams it)) (placed c beams (start + n) it))
                none_here rest)
        | inr e ↦ rw e (
          refl,
          subst
              (λ t.
                Tiles (start + t) (start + (n + n_below beams it)) (placed c beams (start + n) it))
              (sym (complete it (omega arith) e)) rest,
        )
      ]

  -- The calls on the species of beam `k`, in all boxes.
  unfoldable pub calls_of_beam : (k : ℕ) → List (List (List (SpeciesCall R))) → List (SpeciesCall R)
  calls_of_beam k [] = []
  calls_of_beam k (calls ∷ rest) = get_or calls k [] ++ calls_of_beam k rest

  -- The round for beam `k` of the loop over the beams.
  pub record IsRound (nprocs it : ℕ) (is_new : Bool) (beamnames : List String) (beam : Beam R)
      (k : ℕ) (o : Offsets) (next : List Offsets × List (List (SpeciesCall R))) : Type 0 where
    pub last : Offsets
    pub calls : List (SpeciesCall R)
    pub run : write_species cpu nprocs it is_new beamnames beam o ≡ ok (last, calls)
    pub last_eq : get_elem? next.0 k ≡ some last
    pub calls_eq : get_or next.1 k [] ≡ calls

  pub IsRound-of :
      (nprocs it : ℕ) (is_new : Bool) (beamnames : List String) (beams : List (Beam R))
      (beam : Beam R) (k : ℕ) (offsets : List Offsets) (o : Offsets)
      (next : List Offsets × List (List (SpeciesCall R)))
      → get_elem? beams k ≡ some beam
      → get_elem? offsets k ≡ some o
      → write_beam_particle_data cpu nprocs it is_new beamnames beams offsets ≡ ok next
      → IsRound nprocs it is_new beamnames beam k o next
  unfolding write_beam_particle_data
  IsRound-of nprocs it is_new beamnames [] beam k offsets o next hb ho done = cc
  IsRound-of nprocs it is_new beamnames (b ∷ beams) beam k [] o next hb ho done = cc
  IsRound-of nprocs it is_new beamnames (b ∷ beams) beam zero (p ∷ offsets) o next hb ho done =
      let ((moved, calls), run, done1) =
        >>=-eq-ok (write_species cpu nprocs it is_new beamnames b p) _ done in
      let ((others, rest), _, done2) =
        >>=-eq-ok (write_beam_particle_data cpu nprocs it is_new beamnames beams offsets) _ done1 in
      let same : (moved ∷ others, calls ∷ rest) ≡ next = ok-injective done2 in
      record {
        last = moved;
        calls = calls;
        run =
            subst (λ x. write_species cpu nprocs it is_new beamnames x o ≡ ok (moved, calls))
              (some-injective b beam hb)
              (subst (λ x. write_species cpu nprocs it is_new beamnames b x ≡ ok (moved, calls))
                (some-injective p o ho) run);
        last_eq =
            ap (λ (t : List Offsets × List (List (SpeciesCall R))). get_elem? t.0 0) (sym same);
        calls_eq =
            ap (λ (t : List Offsets × List (List (SpeciesCall R))). get_or t.1 0 []) (sym same);
      }
  IsRound-of nprocs it is_new beamnames (b ∷ beams) beam (suc k) (p ∷ offsets) o next hb ho done =
      let ((moved, calls), _, done1) =
        >>=-eq-ok (write_species cpu nprocs it is_new beamnames b p) _ done in
      let ((others, rest), run, done2) =
        >>=-eq-ok (write_beam_particle_data cpu nprocs it is_new beamnames beams offsets) _ done1 in
      let same : (moved ∷ others, calls ∷ rest) ≡ next = ok-injective done2 in
      let r =
        IsRound-of nprocs it is_new beamnames beams beam k offsets o (others, rest) hb ho run in
      record {
        last = r.last;
        calls = r.calls;
        run = r.run;
        last_eq =
            ap (λ (t : List Offsets × List (List (SpeciesCall R))). get_elem? t.0 (suc k))
              (sym same)
            ∙ r.last_eq;
        calls_eq =
            ap (λ (t : List Offsets × List (List (SpeciesCall R))). get_or t.1 (suc k) [])
              (sym same)
            ∙ r.calls_eq;
      }

  pub next_offset-later :
      (nprocs it : ℕ) (o : Offsets)
      → it + 1 ≢ nprocs
      → o.offset + o.tmp_offset < 2 ^ 64
      → next_offset cpu nprocs it o ≡ o.offset + o.tmp_offset
  unfolding next_offset
  next_offset-later nprocs it o h small =
      let other : ((it + 1) == nprocs) ≡ false = ground arith in rw other (omega (arith, small))

  -- The boxes above box 0 one behind the other from `start` on, and box 0 at the beginning.
  unfoldable pub placed_on_one : Component → (ℕ → Beam R) → (start it : ℕ) → List (ℕ × Content R)
  placed_on_one c beams start zero = []
  placed_on_one c beams start (suc zero) = placed c beams 0 1
  placed_on_one c beams start (suc (suc it)) =
      let rest =
        placed_on_one c beams (start + n_particles cpu (beams (suc it)) (suc it)) (suc it) in
      if n_particles cpu (beams (suc it)) (suc it) == 0
      then rest
      else (start, box_content cpu c (beams (suc it)) (suc it)) ∷ rest

  pub next_offset-first : (it : ℕ) (o : Offsets) → next_offset cpu (suc it) it o ≡ 0
  unfolding next_offset
  next_offset-first it o = let here : ((it + 1) == suc it) ≡ true = ground arith in rw here refl

  pub placed-suc :
      (c : Component) (beams : ℕ → Beam R) (start it : ℕ)
      → (if n_particles cpu (beams it) it == 0
            then []
            else (start, box_content cpu c (beams it) it) ∷ [])
          ++ placed c beams (start + n_particles cpu (beams it) it) it
        ≡ placed c beams start (suc it)
  unfolding placed
  placed-suc c beams start it = elim (Bool-cases (n_particles cpu (beams it) it == 0)) [
    | inl e ↦ rw e refl
    | inr e ↦ rw e refl
  ]

  pub placed_on_one-suc :
      (c : Component) (beams : ℕ → Beam R) (start it : ℕ)
      → (if n_particles cpu (beams (suc it)) (suc it) == 0
            then []
            else (start, box_content cpu c (beams (suc it)) (suc it)) ∷ [])
          ++ placed_on_one c beams (start + n_particles cpu (beams (suc it)) (suc it)) (suc it)
        ≡ placed_on_one c beams start (suc (suc it))
  unfolding placed_on_one
  placed_on_one-suc c beams start it =
      elim (Bool-cases (n_particles cpu (beams (suc it)) (suc it) == 0)) [
        | inl e ↦ rw e refl
        | inr e ↦ rw e refl
      ]
