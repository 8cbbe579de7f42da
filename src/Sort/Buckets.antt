-- ===== src/Sort/Buckets.antt =====
-- The first loop of sortParticlesByBox: the index of a particle is the number of particles of the
-- same box before it, and the counts are the numbers of particles of each box.
use hipace.Prelude.{
  ℕ, zero, suc, ◌+◌, ◌<◌, ◌≡◌, refl, ap, ◌∙◌, List, [], ◌∷◌, Option, some, arith, ◌==◌,
  if◌then◌else◌, length, get_elem?, get_or, set, length-set, inl, inr, take, Bool-cases,
}
use hipace.Particles.{Particle}
use hipace.Sort.{dst_box, count_loop}

get_or-set :
    (xs : List ℕ) (i j v d : ℕ)
    → i < length xs
    → get_or (set xs i v) j d ≡ (if i == j then v else get_or xs j d)
get_or-set [] i j v d h = absurd (omega arith)
get_or-set (x ∷ xs) zero zero v d h = refl
get_or-set (x ∷ xs) zero (suc j) v d h = ground arith
get_or-set (x ∷ xs) (suc i) zero v d h = ground arith
get_or-set (x ∷ xs) (suc i) (suc j) v d h = ground (arith, get_or-set xs i j v d (omega arith))

module _ {R : Type 0} (assign_grid : Particle R → Option ℕ) (num_boxes : ℕ) where
  abbrev box_of : Particle R → ℕ
  box_of p = dst_box assign_grid num_boxes p

  -- How many of the particles are in box `b`.
  unfoldable pub occurrences : ℕ → List (Particle R) → ℕ
  occurrences b [] = 0
  occurrences b (p ∷ ps) = (if box_of p == b then 1 else 0) + occurrences b ps

  abbrev counts_of : List ℕ → List (Particle R) → List ℕ
  counts_of cs ps = (count_loop assign_grid num_boxes cs ps).0

  abbrev indices_of : List ℕ → List (Particle R) → List ℕ
  indices_of cs ps = (count_loop assign_grid num_boxes cs ps).1

  pub length-counts : (cs : List ℕ) (ps : List (Particle R)) → length (counts_of cs ps) ≡ length cs
  unfolding count_loop
  length-counts cs [] = refl
  length-counts cs (p ∷ ps) =
      length-counts (set cs (box_of p) (get_or cs (box_of p) 0 + 1)) ps
      ∙ length-set cs (box_of p) (get_or cs (box_of p) 0 + 1)

  pub length-indices :
      (cs : List ℕ) (ps : List (Particle R)) → length (indices_of cs ps) ≡ length ps
  unfolding count_loop
  length-indices cs [] = refl
  length-indices cs (p ∷ ps) =
      ap suc (length-indices (set cs (box_of p) (get_or cs (box_of p) 0 + 1)) ps)

  -- The final counts.
  pub counts_lem :
      (cs : List ℕ) (ps : List (Particle R)) (b : ℕ)
      → ((p : Particle R) → box_of p < length cs)
      → get_or (counts_of cs ps) b 0 ≡ get_or cs b 0 + occurrences b ps
  unfolding count_loop occurrences
  counts_lem cs [] b h = omega arith
  counts_lem cs (p ∷ ps) b h =
      let v : ℕ = get_or cs (box_of p) 0 + 1 in
      ground (
        arith,
        counts_lem (set cs (box_of p) v) ps b (λ q. omega (arith, h q, length-set cs (box_of p) v)),
        get_or-set cs (box_of p) b v 0 (h p),
      )

  -- The index of the particle at place `i`.
  pub indices_lem :
      (cs : List ℕ) (ps : List (Particle R)) (i : ℕ) (p : Particle R)
      → ((q : Particle R) → box_of q < length cs)
      → get_elem? ps i ≡ some p
      → get_elem? (indices_of cs ps) i
        ≡ some (get_or cs (box_of p) 0 + occurrences (box_of p) (take i ps))
  unfolding count_loop occurrences
  indices_lem cs [] i p h e = cc
  indices_lem cs (q ∷ ps) zero p h e = ground arith
  indices_lem cs (q ∷ ps) (suc i) p h e =
      let v : ℕ = get_or cs (box_of q) 0 + 1 in
      ground (
        arith,
        indices_lem (set cs (box_of q) v) ps i p
            (λ r. omega (arith, h r, length-set cs (box_of q) v)) e,
        get_or-set cs (box_of q) (box_of p) v 0 (h q),
      )

  -- A later particle of the same box has a larger index.
  pub occurrences-take-lt :
      (ps : List (Particle R)) (i : ℕ) (p : Particle R)
      → get_elem? ps i ≡ some p
      → occurrences (box_of p) (take i ps) < occurrences (box_of p) ps
  unfolding occurrences
  occurrences-take-lt [] i p e = cc
  occurrences-take-lt (q ∷ ps) zero p e = ground arith
  occurrences-take-lt (q ∷ ps) (suc i) p e = ground (arith, occurrences-take-lt ps i p e)

  pub occurrences-take_mono :
      (ps : List (Particle R)) (i j : ℕ) (p : Particle R)
      → get_elem? ps i ≡ some p
      → i < j
      → occurrences (box_of p) (take i ps) < occurrences (box_of p) (take j ps)
  unfolding occurrences
  occurrences-take_mono [] i j p e h = cc
  occurrences-take_mono (q ∷ ps) i zero p e h = absurd (omega arith)
  occurrences-take_mono (q ∷ ps) zero (suc j) p e h = ground arith
  occurrences-take_mono (q ∷ ps) (suc i) (suc j) p e h =
      ground (arith, occurrences-take_mono ps i j p e (omega arith))

  -- Every index below the count belongs to a particle.
  pub record IsNth (ps : List (Particle R)) (b n : ℕ) : Type 0 where
    pub at : ℕ
    pub particle : Particle R
    pub at_eq : get_elem? ps at ≡ some particle
    pub box_eq : box_of particle ≡ b
    pub before : occurrences b (take at ps) ≡ n

  IsNth-cons :
      (q : Particle R) (ps : List (Particle R)) (b n m : ℕ)
      → m + (if box_of q == b then 1 else 0) ≡ n
      → IsNth ps b m
      → IsNth (q ∷ ps) b n
  unfolding occurrences
  IsNth-cons q ps b n m e t = record {
    at = suc t.at;
    particle = t.particle;
    at_eq = t.at_eq;
    box_eq = t.box_eq;
    before = ground (arith, t.before);
  }

  pub IsNth-of : (ps : List (Particle R)) (b n : ℕ) → n < occurrences b ps → IsNth ps b n
  unfolding occurrences
  IsNth-of [] b n h = absurd (omega arith)
  IsNth-of (q ∷ ps) b zero h = elim (Bool-cases (box_of q == b)) [
    | inl same ↦ record {
      at = zero;
      particle = q;
      at_eq = refl;
      box_eq = ground arith;
      before = refl;
    }
    | inr other ↦ IsNth-cons q ps b 0 0 (rw other) (IsNth-of ps b 0 (ground arith))
  ]
  IsNth-of (q ∷ ps) b (suc n) h = elim (Bool-cases (box_of q == b)) [
    | inl same ↦
        IsNth-cons q ps b (suc n) n (rw same (omega arith)) (IsNth-of ps b n (ground arith))
    | inr other ↦
        IsNth-cons q ps b (suc n) (suc n) (rw other (omega arith))
          (IsNth-of ps b (suc n) (ground arith))
  ]
