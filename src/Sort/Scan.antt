-- ===== src/Sort/Scan.antt =====
-- exclusive_scan on the counts: the offsets cut the array into one segment for each box.
use hipace.Prelude.{
  ℕ, zero, suc, ◌+◌, ◌≤◌, ◌<◌, ◌≡◌, refl, ap, List, [], ◌∷◌, arith, length, get_or, get_elem?,
  Option, some,
}
use hipace.Particles.{Particle}
use hipace.Sort.{exclusive_scan, offset_loop, dst_box}

-- The number of particles in all boxes.
abbrev pub total : List ℕ → ℕ
total [] = 0
total (c ∷ cs) = c + total cs

scan-ge : (acc : ℕ) (cs : List ℕ) (b : ℕ) → b < length cs → acc ≤ get_or (exclusive_scan acc cs) b 0
unfolding exclusive_scan
scan-ge acc [] b h = absurd (omega arith)
scan-ge acc (c ∷ cs) zero h = omega arith
scan-ge acc (c ∷ cs) (suc b) h = omega (arith, scan-ge (acc + c) cs b (omega arith))

-- A segment ends where a later one begins, at the latest.
pub scan_segments :
    (acc : ℕ) (cs : List ℕ) (a b : ℕ)
    → a < b
    → b < length cs
    → get_or (exclusive_scan acc cs) a 0 + get_or cs a 0 ≤ get_or (exclusive_scan acc cs) b 0
unfolding exclusive_scan
scan_segments acc [] a b h hb = absurd (omega arith)
scan_segments acc (c ∷ cs) a zero h hb = absurd (omega arith)
scan_segments acc (c ∷ cs) zero (suc b) h hb = omega (arith, scan-ge (acc + c) cs b (omega arith))
scan_segments acc (c ∷ cs) (suc a) (suc b) h hb =
    scan_segments (acc + c) cs a b (omega arith) (omega arith)

-- The next segment begins where a segment ends.
pub scan_next :
    (acc : ℕ) (cs : List ℕ) (b : ℕ)
    → suc b < length cs
    → get_or (exclusive_scan acc cs) (suc b) 0 ≡ get_or (exclusive_scan acc cs) b 0 + get_or cs b 0
unfolding exclusive_scan
scan_next acc [] b h = absurd (omega arith)
scan_next acc (c ∷ []) b h = absurd (omega arith)
scan_next acc (c ∷ d ∷ cs) zero h = refl
scan_next acc (c ∷ d ∷ cs) (suc b) h = scan_next (acc + c) (d ∷ cs) b (omega arith)

-- The last segment ends with the array.
pub scan-le-total :
    (acc : ℕ) (cs : List ℕ) (b : ℕ)
    → b < length cs
    → get_or (exclusive_scan acc cs) b 0 + get_or cs b 0 ≤ acc + total cs
unfolding exclusive_scan
scan-le-total acc [] b h = absurd (omega arith)
scan-le-total acc (c ∷ cs) zero h = omega arith
scan-le-total acc (c ∷ cs) (suc b) h = omega (arith, scan-le-total (acc + c) cs b (omega arith))

pub length-scan : (acc : ℕ) (cs : List ℕ) → length (exclusive_scan acc cs) ≡ length cs
unfolding exclusive_scan
length-scan acc [] = refl
length-scan acc (c ∷ cs) = ap suc (length-scan (acc + c) cs)

pub get_elem?-offset_loop :
    {R : Type 0} (assign_grid : Particle R → Option ℕ) (num_boxes : ℕ) (offsets : List ℕ)
    (ps : List (Particle R)) (ds : List ℕ) (i d : ℕ) (p : Particle R)
    → get_elem? ps i ≡ some p
    → get_elem? ds i ≡ some d
    → get_elem? (offset_loop assign_grid num_boxes offsets ps ds) i
      ≡ some (d + get_or offsets (dst_box assign_grid num_boxes p) 0)
unfolding offset_loop
get_elem?-offset_loop a n offsets [] ds i d p e f = cc
get_elem?-offset_loop a n offsets (q ∷ ps) [] i d p e f = cc
get_elem?-offset_loop a n offsets (q ∷ ps) (x ∷ ds) zero d p e f = ground arith
get_elem?-offset_loop a n offsets (q ∷ ps) (x ∷ ds) (suc i) d p e f =
    get_elem?-offset_loop a n offsets ps ds i d p e f

pub length-offset_loop :
    {R : Type 0} (assign_grid : Particle R → Option ℕ) (num_boxes : ℕ) (offsets : List ℕ)
    (ps : List (Particle R)) (ds : List ℕ)
    → length (offset_loop assign_grid num_boxes offsets ps ds) ≤ length ps
unfolding offset_loop
length-offset_loop a n offsets [] ds = omega arith
length-offset_loop a n offsets (q ∷ ps) [] = omega arith
length-offset_loop a n offsets (q ∷ ps) (x ∷ ds) =
    omega (arith, length-offset_loop a n offsets ps ds)

pub scan_start : (cs : List ℕ) → get_or (exclusive_scan 0 cs) 0 0 ≡ 0
unfolding exclusive_scan
scan_start [] = refl
scan_start (c ∷ cs) = refl
