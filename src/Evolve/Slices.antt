-- ===== src/Evolve/Slices.antt =====
-- The slices that Evolve solves in a time step: every slice of the domain once, from the head of the
-- beam to its tail.
use mathlib.Core.List.{append_assoc, append-nil}
use hipace.Prelude.{
  ok-injective, ℕ, zero, suc, ◌+◌, ◌-◌, ◌*◌, ◌≤◌, ◌<◌, ◌≡◌, refl, sym, ap, ◌∙◌, Bool, true, false,
  List, [], ◌∷◌, ◌++◌, map, ok, arith, ltb, range_down, get_elem?, length, some, >>=-eq-ok,
}
use hipace.Grid.{
  IntVect, Box, block, base_boxes, post_process_base_grids, make_distribution_mapping,
}
use hipace.Grid.Blocks.{post_process_base_grids-inv, length-base_boxes, get_elem?-base_boxes}
use hipace.Sort.{read}
use hipace.Evolve.{
  Call, Setup, box_calls, tail_calls, evolve_box, evolve_boxes, n_boxes, step_calls, evolve_step,
}
use hipace.Evolve.Call.{solve_one_slice}

-- The slices that a sequence of calls solves.
abbrev slice_of : Call → List ℕ
slice_of (solve_one_slice islice it) = islice ∷ []
slice_of c = []

abbrev pub solved : List Call → List ℕ
solved [] = []
solved (c ∷ cs) = slice_of c ++ solved cs

solved-append : (cs ds : List Call) → solved (cs ++ ds) ≡ solved cs ++ solved ds
solved-append [] ds = refl
solved-append (c ∷ cs) ds =
    ap (λ t. slice_of c ++ t) (solved-append cs ds)
    ∙ sym (append_assoc (slice_of c) (solved cs) (solved ds))

solved-map : (it : ℕ) (is : List ℕ) → solved (map (λ islice. solve_one_slice islice it) is) ≡ is
solved-map it [] = refl
solved-map it (i ∷ is) = ap (λ t. i ∷ t) (solved-map it is)

solved-central :
    (it : ℕ) (is : List ℕ) (cs : List Call)
    → solved (map (λ islice. solve_one_slice islice it) is ++ cs) ≡ is ++ solved cs
solved-central it is cs =
    solved-append (map (λ islice. solve_one_slice islice it) is) cs
    ∙ ap (λ t. t ++ solved cs) (solved-map it is)

solved-box_calls :
    (receives sends : Bool) (it lo hi : ℕ)
    → solved (box_calls receives sends it lo hi)
      ≡ hi ∷ (range_down (lo + 1) (hi - 1 - lo) ++ (lo ∷ []))
solved-box_calls true true it lo hi =
    ap (λ t. hi ∷ t)
      (solved-central it (range_down (lo + 1) (hi - 1 - lo)) (tail_calls true it lo hi))
solved-box_calls true false it lo hi =
    ap (λ t. hi ∷ t)
      (solved-central it (range_down (lo + 1) (hi - 1 - lo)) (tail_calls true it lo hi))
solved-box_calls false true it lo hi =
    ap (λ t. hi ∷ t)
      (solved-central it (range_down (lo + 1) (hi - 1 - lo)) (tail_calls false it lo hi))
solved-box_calls false false it lo hi =
    ap (λ t. hi ∷ t)
      (solved-central it (range_down (lo + 1) (hi - 1 - lo)) (tail_calls false it lo hi))

range_down-snoc : (lo n : ℕ) → range_down (lo + 1) n ++ (lo ∷ []) ≡ range_down lo (suc n)
range_down-snoc lo zero = ground arith
range_down-snoc lo (suc n) =
    let e : lo + 1 + n ≡ lo + suc n = omega arith in cc (e, range_down-snoc lo n)

pub range_down-append :
    (lo n m : ℕ) → range_down (lo + n) m ++ range_down lo n ≡ range_down lo (m + n)
range_down-append lo n zero = ap (range_down lo) (omega arith)
range_down-append lo n (suc m) =
    let e : lo + n + m ≡ lo + (m + n) = omega arith in
    let f : suc m + n ≡ suc (m + n) = omega arith in
    rw (f, e) (ap (λ t. (lo + (m + n)) ∷ t) (range_down-append lo n m))

-- The slices of a box, from the last to the first.
evolve_box-solved :
    (s : Setup) (it : ℕ) (bx : Box) (calls : List Call)
    → evolve_box s it bx ≡ ok calls
    → (bx.small_end.z + 2 ≤ bx.big_end.z)
      × (solved calls ≡ range_down bx.small_end.z (bx.big_end.z + 1 - bx.small_end.z))
unfolding evolve_box
evolve_box-solved s it bx calls e =
    let room : bx.small_end.z + 2 ≤ bx.big_end.z = ground arith in
    let lo = bx.small_end.z in
    let hi = bx.big_end.z in
    let n : ℕ = hi - 1 - lo in
    let size : hi + 1 - lo ≡ suc (suc n) = omega arith in
    let head : lo + suc n ≡ hi = omega arith in
    let made : calls ≡ box_calls (ltb 0 it) (ltb (it + 1) s.procs.numprocs_z) it lo hi =
      ground arith in
    (
      room,
      ap solved made
          ∙ solved-box_calls (ltb 0 it) (ltb (it + 1) s.procs.numprocs_z) it lo hi
          ∙ ap (λ t. hi ∷ t) (range_down-snoc lo n)
          ∙ ap (λ t. t ∷ range_down lo (suc n)) (sym head)
          ∙ ap (range_down lo) (sym size),
    )

join-solved :
    (lo hi it size : ℕ) (here rest : List Call)
    → lo ≡ it * size
    → hi ≡ (it + 1) * size - 1
    → lo + 2 ≤ hi
    → solved here ≡ range_down lo (hi + 1 - lo)
    → solved rest ≡ range_down 0 (it * size)
    → solved (here ++ rest) ≡ range_down 0 (suc it * size)
join-solved lo hi it size here rest el eh room h r =
    let mul : (it + 1) * size ≡ it * size + size = grind arith in
    let mul' : size + it * size ≡ suc it * size = grind arith in
    let num : hi + 1 - lo ≡ size = omega arith in
    let low : lo ≡ 0 + it * size = omega arith in
    solved-append here rest
    ∙ ap (λ t. t ++ solved rest) h
    ∙ ap (λ t. range_down lo (hi + 1 - lo) ++ t) r
    ∙ ap (λ n. range_down lo n ++ range_down 0 (it * size)) num
    ∙ ap (λ l. range_down l size ++ range_down 0 (it * size)) low
    ∙ range_down-append 0 (it * size) size
    ∙ ap (range_down 0) mul'

read_unique :
    {A : Type 0} (xs : List A) (i : ℕ) (a b : A)
    → read xs i ≡ ok a
    → get_elem? xs i ≡ some b
    → a ≡ b
read_unique xs i a b h e = ground arith

evolve_boxes-solved :
    (s : Setup) (boxes : List Box) (size : IntVect) (m : ℕ) (calls : List Call)
    → ((k : ℕ) → k < m → get_elem? boxes k ≡ some (block size 0 0 k))
    → evolve_boxes s boxes m ≡ ok calls
    → solved calls ≡ range_down 0 (m * size.z)
unfolding evolve_boxes block
evolve_boxes-solved s boxes size zero calls h e =
    let none_left : calls ≡ [] = ground arith in
    let z : 0 ≡ 0 * size.z = omega arith in ap solved none_left ∙ ap (range_down 0) z
evolve_boxes-solved s boxes size (suc it) calls h e =
    let (bx, found, e1) = >>=-eq-ok (read boxes it) _ e in
    let (here, e2, e3) = >>=-eq-ok (evolve_box s it bx) _ e1 in
    let (rest, e4, e5) = >>=-eq-ok (evolve_boxes s boxes it) _ e3 in
    let (room, done) = evolve_box-solved s it bx here e2 in
    let same : bx ≡ block size 0 0 it =
      read_unique boxes it bx (block size 0 0 it) found (h it (omega arith)) in
    ap solved (ok-injective (sym e5))
    ∙ join-solved bx.small_end.z bx.big_end.z it size.z here rest (ap (λ b. b.small_end.z) same)
        (ap (λ b. b.big_end.z) same) room done
        (evolve_boxes-solved s boxes size it rest (λ k hk. h k (omega arith)) e4)

solved-step_calls :
    (is_explicit do_tiling : Bool) (step : ℕ) (calls : List Call)
    → solved (step_calls is_explicit do_tiling step calls) ≡ solved calls
solved-step_calls true true step calls = solved-append calls _ ∙ append-nil (solved calls)
solved-step_calls true false step calls = solved-append calls _ ∙ append-nil (solved calls)
solved-step_calls false true step calls = solved-append calls _ ∙ append-nil (solved calls)
solved-step_calls false false step calls = solved-append calls _ ∙ append-nil (solved calls)

accepted_size :
    (s : Setup) (size : ℕ) (dm : List ℕ)
    → make_distribution_mapping s.procs size ≡ ok dm
    → s.procs.numprocs_x * s.procs.numprocs_y * n_boxes s ≡ size
unfolding make_distribution_mapping
accepted_size s size dm h = ground arith

box_at :
    (boxes : List Box) (size : IntVect) (nx ny nz k : ℕ)
    → nx ≡ 1
    → ny ≡ 1
    → boxes ≡ base_boxes size nx ny nz
    → k < nz
    → get_elem? boxes k ≡ some (block size 0 0 k)
box_at boxes size nx ny nz k hx hy e hk =
    let place : k ≡ nx * ny * k + (nx * 0 + 0) = grind arith in
    ap (λ bs. get_elem? bs k) e
    ∙ ap (get_elem? (base_boxes size nx ny nz)) place
    ∙ get_elem?-base_boxes size nx ny nz 0 0 k (omega arith) (omega arith) hk

-- A time step on a domain of `n` cells, not cut transversely, whose boxes PostProcessBaseGrids made
-- and MakeNewLevelFromScratch accepted: where it completes, it solves every slice of the domain
-- once, from the last to the first.
pub evolve_step-solved :
    (s : Setup) (n : IntVect) (boxes : List Box) (dm : List ℕ) (step : ℕ) (calls : List Call)
    → s.procs.numprocs_x ≡ 1
    → s.procs.numprocs_y ≡ 1
    → post_process_base_grids s.procs n ≡ ok boxes
    → make_distribution_mapping s.procs (length boxes) ≡ ok dm
    → evolve_step s boxes step ≡ ok calls
    → solved calls ≡ range_down 0 n.z
unfolding evolve_step
evolve_step-solved s n boxes dm step calls hx hy made accepted e =
    let (size, nz, eb, ex, ey, ez) = post_process_base_grids-inv s.procs n made in
    let (inner, e1, e2) = >>=-eq-ok (evolve_boxes s boxes (n_boxes s)) _ e in
    let count : n_boxes s ≡ nz = grind (
      arith,
      accepted_size s (length boxes) dm accepted,
      length-base_boxes size s.procs.numprocs_x s.procs.numprocs_y nz,
      eb,
    ) in
    let swap : nz * size.z ≡ size.z * nz = grind arith in
    let all : n_boxes s * size.z ≡ n.z = ap (λ t. t * size.z) count ∙ swap ∙ ez in
    ap solved (ok-injective (sym e2))
    ∙ solved-step_calls s.is_explicit s.do_tiling step inner
    ∙ evolve_boxes-solved s boxes size (n_boxes s) inner
        (λ k hk.
          box_at boxes size s.procs.numprocs_x s.procs.numprocs_y nz k hx hy eb (omega arith))
        e1
    ∙ ap (range_down 0) all
