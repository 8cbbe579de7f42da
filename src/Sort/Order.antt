-- ===== src/Sort/Order.antt =====
-- What sortParticlesByBox leaves: one segment for each box, with that box's particles in order.
use hipace.Prelude.{
  ℕ, zero, suc, ◌+◌, ◌≤◌, ◌<◌, ◌≡◌, refl, sym, ap, ◌∙◌, List, [], ◌∷◌, Option, some, arith, length,
  get_elem?, get_or, set, length-set, take, map, replicate, length-replicate, length-map, subst,
  get_elem?-lt, get_elem?-some, get_or-replicate, get_elem?-map, Option-cases, inl, inr,
}
use mathlib.Core.Option.{some-injective}
use hipace.Particles.{Particle, invalidate, Scatter}
use hipace.Sort.{
  dst_box, mark, count_loop, offset_loop, exclusive_scan, sort_particles_by_box, BoxSorter,
}
use hipace.Sort.Buckets.{
  occurrences, length-counts, counts_lem, indices_lem, occurrences-take-lt, occurrences-take_mono,
  IsNth, IsNth-of,
}
use hipace.Sort.Scan.{
  total, scan_segments, scan_start, scan_next, scan-le-total, get_elem?-offset_loop,
  length-offset_loop,
}

-- What the code relies on: the locator returns boxes of the BoxArray, from the position alone.
pub record IsLocator {R : Type 0} (assign_grid : Particle R → Option ℕ) (num_boxes : ℕ)
    : Type 0 where
  pub in_range : (p : Particle R) (b : ℕ) → assign_grid p ≡ some b → b < num_boxes
  pub id_free : (p : Particle R) → assign_grid (invalidate p) ≡ assign_grid p

total-set :
    (cs : List ℕ) (i : ℕ) → i < length cs → total (set cs i (get_or cs i 0 + 1)) ≡ total cs + 1
total-set [] i h = absurd (omega arith)
total-set (c ∷ cs) zero h = omega arith
total-set (c ∷ cs) (suc i) h = omega (arith, total-set cs i (omega arith))

total-replicate : (n : ℕ) → total (replicate n 0) ≡ 0
total-replicate zero = refl
total-replicate (suc n) = omega (arith, total-replicate n)

module _ {R : Type 0} {assign_grid : Particle R → Option ℕ} {num_boxes : ℕ}
    (loc : IsLocator assign_grid num_boxes) where
  dst_box-lt : (p : Particle R) → dst_box assign_grid num_boxes p < num_boxes + 1
  unfolding dst_box
  dst_box-lt p = elim (Option-cases (assign_grid p)) [
    | inl e ↦ rw (e, dst_box) (omega arith)
    | inr (b, e) ↦ rw (e, dst_box) (omega (arith, loc.in_range p b e))
  ]

  dst_box-mark :
      (p : Particle R)
      → dst_box assign_grid num_boxes (mark assign_grid num_boxes p)
        ≡ dst_box assign_grid num_boxes p
  unfolding dst_box mark
  dst_box-mark p = ground (arith, loc.id_free p)

  total-counts :
      (cs : List ℕ) (ps : List (Particle R))
      → length cs ≡ num_boxes + 1
      → total (count_loop assign_grid num_boxes cs ps).0 ≡ total cs + length ps
  unfolding count_loop
  total-counts cs [] h = omega arith
  total-counts cs (p ∷ ps) h =
      let b : ℕ = dst_box assign_grid num_boxes p in
      let v : ℕ = get_or cs b 0 + 1 in
      omega (
        arith,
        total-counts (set cs b v) ps (length-set cs b v ∙ h),
        total-set cs b (omega (arith, dst_box-lt p)),
      )

  module _ (s : Scatter (Particle R)) (beam : List (Particle R)) where
    abbrev box_of : Particle R → ℕ
    box_of p = dst_box assign_grid num_boxes p

    abbrev zeros : List ℕ
    zeros = replicate (num_boxes + 1) 0

    abbrev counts : List ℕ
    counts = (count_loop assign_grid num_boxes zeros beam).0

    abbrev indices : List ℕ
    indices = (count_loop assign_grid num_boxes zeros beam).1

    abbrev offsets : List ℕ
    offsets = exclusive_scan 0 counts

    abbrev marked : List (Particle R)
    marked = map (mark assign_grid num_boxes) beam

    abbrev destinations : List ℕ
    destinations = offset_loop assign_grid num_boxes offsets marked indices

    in_counts : (p : Particle R) → box_of p < length zeros
    in_counts p = omega (arith, dst_box-lt p, length-replicate {A = ℕ} (num_boxes + 1) 0)

    length-counts_zeros : length counts ≡ num_boxes + 1
    length-counts_zeros =
        length-counts assign_grid num_boxes zeros beam ∙ length-replicate {A = ℕ} (num_boxes + 1) 0

    total-counts_zeros : total counts ≡ length beam
    total-counts_zeros = omega (
      arith,
      total-counts zeros beam (length-replicate {A = ℕ} (num_boxes + 1) 0),
      total-replicate (num_boxes + 1),
    )

    count-eq-occurrences :
        (b : ℕ) → b ≤ num_boxes → get_or counts b 0 ≡ occurrences assign_grid num_boxes b beam
    count-eq-occurrences b h = omega (
      arith,
      counts_lem assign_grid num_boxes zeros beam b in_counts,
      get_or-replicate {A = ℕ} (num_boxes + 1) b 0 0 (omega arith),
    )

    -- Where the code sends a particle.
    abbrev position : ℕ → Particle R → ℕ
    position i p =
        occurrences assign_grid num_boxes (box_of p) (take i beam) + get_or offsets (box_of p) 0

    abbrev Stands : ℕ → Particle R → Type 0
    Stands i p = get_elem? beam i ≡ some p

    destinations_lem :
        (i : ℕ) (p : Particle R) → Stands i p → get_elem? destinations i ≡ some (position i p)
    destinations_lem i p e =
        let b : ℕ = box_of p in
        let index : ℕ = get_or zeros b 0 + occurrences assign_grid num_boxes b (take i beam) in
        let zero_start : get_or zeros b 0 ≡ 0 =
          get_or-replicate {A = ℕ} (num_boxes + 1) b 0 0 (dst_box-lt p) in
        get_elem?-offset_loop assign_grid num_boxes offsets marked indices i index
          (mark assign_grid num_boxes p) (get_elem?-map (mark assign_grid num_boxes) beam i e)
          (indices_lem assign_grid num_boxes zeros beam i p in_counts e)
        ∙ rw (dst_box-mark p, zero_start) (ap some (omega arith))

    -- A position lies in the segment of the particle's box.
    position-segment :
        (i : ℕ) (p : Particle R)
        → Stands i p
        → (get_or offsets (box_of p) 0 ≤ position i p)
          × (position i p < get_or offsets (box_of p) 0 + get_or counts (box_of p) 0)
    position-segment i p e =
        let low = occurrences-take-lt assign_grid num_boxes beam i p e in
        let all = count-eq-occurrences (box_of p) (omega (arith, dst_box-lt p)) in omega arith

    position-lt : (i : ℕ) (p : Particle R) → Stands i p → position i p < length beam
    position-lt i p e =
        let segment = position-segment i p e in
        let bound =
          scan-le-total 0 counts (box_of p) (omega (arith, dst_box-lt p, length-counts_zeros)) in
        omega (arith, total-counts_zeros)

    segments_apart :
        (i j : ℕ) (p q : Particle R)
        → Stands i p
        → Stands j q
        → box_of p < box_of q
        → position i p < position j q
    segments_apart i j p q e f h =
        let upper = position-segment i p e in
        let lower = position-segment j q f in
        let apart =
          scan_segments 0 counts (box_of p) (box_of q) h
            (omega (arith, dst_box-lt q, length-counts_zeros)) in
        omega arith

    same_box :
        (i j : ℕ) (p q : Particle R)
        → Stands i p
        → Stands j q
        → box_of p ≡ box_of q
        → i < j
        → position i p < position j q
    same_box i j p q e f same h =
        let later = occurrences-take_mono assign_grid num_boxes beam i j p e h in
        rw (← same) (omega arith)

    position-injective :
        (i j : ℕ) (p q : Particle R) → Stands i p → Stands j q → position j q ≡ position i p → j ≡ i
    position-injective i j p q e f h = ground (
      arith,
      segments_apart i j p q e f,
      segments_apart j i q p f e,
      same_box i j p q e f,
      same_box j i q p f e,
    )

    destination_only :
        (i : ℕ) (p : Particle R)
        → Stands i p
        → (j : ℕ) → get_elem? destinations j ≡ some (position i p)
        → j ≡ i
    destination_only i p e j f =
        let j_lt : j < length beam = omega (
          arith,
          get_elem?-lt destinations j f,
          length-offset_loop assign_grid num_boxes offsets marked indices,
          length-map beam (mark assign_grid num_boxes),
        ) in
        let (q, g) = get_elem?-some beam j j_lt in
        position-injective i j p q e g (some-injective _ _ (sym (destinations_lem j q g) ∙ f))

    abbrev sorted : List (Particle R) × BoxSorter
    sorted = sort_particles_by_box assign_grid num_boxes s beam

    scattered :
        (i : ℕ) (p : Particle R)
        → Stands i p
        → get_elem? sorted.0 (position i p) ≡ some (mark assign_grid num_boxes p)
    unfolding sort_particles_by_box
    scattered i p e =
        s.get_elem?-scatter marked destinations i (position i p) (mark assign_grid num_boxes p)
          (get_elem?-map (mark assign_grid num_boxes) beam i e) (destinations_lem i p e)
          (omega (arith, position-lt i p e, length-map beam (mark assign_grid num_boxes)))
          (destination_only i p e)

    -- sortParticlesByBox keeps every particle: the one at place i goes behind the offset of its box,
    -- after just those particles of its box that stood before it.
    pub sort_particles_by_box-stable :
        (i : ℕ) (p : Particle R)
        → get_elem? beam i ≡ some p
        → (length sorted.0 ≡ length beam)
          × (get_elem? sorted.0 (
                occurrences assign_grid num_boxes (box_of p) (take i beam)
                + get_or sorted.1.box_offsets (box_of p) 0)
              ≡ some (mark assign_grid num_boxes p))
    unfolding sort_particles_by_box
    sort_particles_by_box-stable i p e = (
      s.length-scatter marked destinations ∙ length-map beam (mark assign_grid num_boxes),
      scattered i p e,
    )

    -- After sortParticlesByBox, whatever stands in the segment that the offset and the count of a
    -- box (or of the place behind the last box) name, is a particle of the beam that belongs there.
    pub sort_particles_by_box-segment :
        (b n : ℕ)
        → b ≤ num_boxes
        → n < get_or sorted.1.box_counts b 0
        → (p : Particle R) × (i : ℕ) × (get_elem? beam i ≡ some p)
          × (dst_box assign_grid num_boxes p ≡ b)
          × (get_elem? sorted.0 (n + get_or sorted.1.box_offsets b 0)
              ≡ some (mark assign_grid num_boxes p))
    unfolding sort_particles_by_box
    sort_particles_by_box-segment b n hb hn =
        let nth : IsNth assign_grid num_boxes beam b n =
          IsNth-of assign_grid num_boxes beam b n (omega (arith, count-eq-occurrences b hb)) in
        (
          nth.particle,
          nth.at,
          nth.at_eq,
          nth.box_eq,
          subst (λ t. get_elem? sorted.0 t ≡ some (mark assign_grid num_boxes nth.particle))
              (ground (arith, nth.box_eq, nth.before)) (scattered nth.at nth.particle nth.at_eq),
        )

    -- The segments of a BoxSorter cut the array: the first begins at its start, each begins where
    -- the one before it ends, and together they hold as many particles as the beam.
    pub sort_particles_by_box-tiling :
        (b : ℕ)
        → b < num_boxes
        → (get_or sorted.1.box_offsets 0 0 ≡ 0)
          × (get_or sorted.1.box_offsets (suc b) 0
              ≡ get_or sorted.1.box_offsets b 0 + get_or sorted.1.box_counts b 0)
          × (total sorted.1.box_counts ≡ length beam)
          × (length sorted.1.box_counts ≡ num_boxes + 1)
    unfolding sort_particles_by_box
    sort_particles_by_box-tiling b h = (
      scan_start counts,
      scan_next 0 counts b (omega (arith, length-counts_zeros)),
      total-counts_zeros,
      length-counts_zeros,
    )
