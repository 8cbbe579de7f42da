-- ===== src/Particles.antt =====
-- Particles of a beam as the code stores them, and what it uses of AMReX's particle arrays.
pub mod Arrays
use hipace.Prelude.{ℕ, ◌+◌, ◌≤◌, ◌<◌, ◌≡◌, Option, some, List, ℤ, neg_abs, length, get_elem?}

-- A beam particle: its struct of positions and id, with its weight and momenta.
pub record Particle (R : Type 0) : Type 0 where
  pub id : ℤ
  pub x : R
  pub y : R
  pub z : R
  pub w : R
  pub ux : R
  pub uy : R
  pub uz : R

-- `p.id() = -std::abs(p.id())`: a particle with a negative id is not used any more.
abbrev pub invalidate : {R : Type 0} → Particle R → Particle R
invalidate p = record p { id = neg_abs p.id }

-- ParticleTile::resize keeps the elements below both sizes; those that it adds hold anything.
pub record Tile (A : Type 0) : Type 0 where
  pub resize : List A → ℕ → List A
  pub length-resize : (xs : List A) (n : ℕ) → length (resize xs n) ≡ n
  pub get_elem?-resize :
      (xs : List A) (n i : ℕ) → i < n → i < length xs → get_elem? (resize xs n) i ≡ get_elem? xs i

-- amrex::scatterParticles writes element i of the source to the place that the i-th index names: at
-- a place that one index alone names, the result holds that element.
pub record Scatter (A : Type 0) : Type 0 where
  pub scatter : List A → List ℕ → List A
  pub length-scatter : (xs : List A) (ds : List ℕ) → length (scatter xs ds) ≡ length xs
  pub get_elem?-scatter :
      (xs : List A) (ds : List ℕ) (i d : ℕ) (a : A)
      → get_elem? xs i ≡ some a
      → get_elem? ds i ≡ some d
      → d < length xs
      → ((j : ℕ) → get_elem? ds j ≡ some d → j ≡ i)
      → get_elem? (scatter xs ds) d ≡ some a

-- packParticleData writes one particle to a buffer, and unpackParticleData reads it back.
pub record Packing (A K : Type 0) : Type 0 where
  pub pack : A → K
  pub unpack : K → A
  pub unpack-pack : (a : A) → unpack (pack a) ≡ a
