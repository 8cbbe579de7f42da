-- ===== src/MultiBeam/Ghosts.antt =====
-- Ghost particles: they are packed behind a beam's own particles, and removed again.
use mathlib.Core.List.{append_assoc, append-nil}
use hipace.Prelude.{
  ℕ, zero, suc, ◌+◌, ◌-◌, ◌≤◌, ◌≡◌, refl, ap, ◌∙◌, some, List, [], ◌∷◌, ◌++◌, map, length, take,
  drop, get_elem?, get_elem?-some, get_elem?-append_left, length-append, length-map, ok, arith,
}
use hipace.Reals.{Real}
use hipace.Particles.{Particle, Tile}
use hipace.Particles.Arrays.{resize-take, resize-append, drop-suc, set-append}
use hipace.Sort.{BoxSorter}
use hipace.MultiBeam.{
  store_n_real_particles, remove_ghosts, copy_particles, pack_local_ghost_particles, check_ghosts,
  check_ghost,
}
use hipace.Pipeline.Packets.{appended}

module _ {P : Type 0} where
  take-append : (xs ys : List P) → take (length xs) (xs ++ ys) ≡ xs
  take-append [] [] = refl
  take-append [] (y ∷ ys) = refl
  take-append (x ∷ xs) ys = ap (λ t. x ∷ t) (take-append xs ys)

  -- The particles that are read lie in `tile`, those that are written behind it.
  copy_lem :
      (tile done junk : List P) (src n : ℕ)
      → src + n ≤ length tile
      → length junk ≡ n
      → copy_particles src (length (tile ++ done)) n ((tile ++ done) ++ junk)
        ≡ ok ((tile ++ done) ++ take n (drop src tile))
  unfolding copy_particles
  copy_lem tile done [] src zero h e = refl
  copy_lem tile done (j ∷ junk) src zero h e = absurd (omega arith)
  copy_lem tile done [] src (suc n) h e = absurd (omega arith)
  copy_lem tile done (j ∷ junk) src (suc n) h e =
      let (p, at) = get_elem?-some tile src (omega arith) in
      let there : get_elem? ((tile ++ done) ++ (j ∷ junk)) src ≡ some p =
        get_elem?-append_left (tile ++ done) (j ∷ junk) src (omega (arith, length-append tile done))
        ∙ get_elem?-append_left tile done src (omega arith)
        ∙ at in
      let next : suc src ≡ src + 1 = omega arith in
      let longer : length (tile ++ done) + 1 ≡ length (tile ++ (done ++ (p ∷ []))) = omega (
        arith,
        length-append tile (done ++ (p ∷ [])),
        length-append done (p ∷ []),
        length-append tile done,
      ) in
      let rest = copy_lem tile (done ++ (p ∷ [])) junk (src + 1) n (omega arith) (omega arith) in
      ground (
        arith,
        there,
        longer,
        rest,
        next,
        set-append (tile ++ done) j junk p,
        append_assoc tile done (p ∷ []),
        append_assoc (tile ++ done) (p ∷ []) (take n (drop (src + 1) tile)),
        drop-suc tile src at,
      )

  -- The sorter of a beam names the segment of the box on the left.
  pub record HasLeftBox (it : ℕ) (tile : List P) (s : BoxSorter) : Type 0 where
    pub left : ℕ
    pub curr : ℕ
    pub left_eq : get_elem? s.box_offsets it ≡ some left
    pub curr_eq : get_elem? s.box_offsets (it + 1) ≡ some curr
    pub left_le : left ≤ curr
    pub curr_le : curr ≤ length tile

  abbrev pub HaveLeftBoxes : ℕ → List (List P) → List BoxSorter → Type 0
  HaveLeftBoxes it [] [] = Unit
  HaveLeftBoxes it (tile ∷ tiles) (s ∷ ss) = HasLeftBox it tile s × HaveLeftBoxes it tiles ss
  HaveLeftBoxes it _ _ = ⊥

  -- The particles of the box on the left, for each beam.
  abbrev pub left_particles :
      (it : ℕ) (tiles : List (List P)) (ss : List BoxSorter)
      → HaveLeftBoxes it tiles ss
      → List (List P)
  left_particles it [] [] h = []
  left_particles it [] (s ∷ ss) h = []
  left_particles it (tile ∷ tiles) [] h = []
  left_particles it (tile ∷ tiles) (s ∷ ss) (b, h) =
      take (b.curr - b.left) (drop b.left tile) ∷ left_particles it tiles ss h

  pack_lem :
      (t : Tile P) (it : ℕ) (tiles : List (List P)) (ss : List BoxSorter)
      (h : HaveLeftBoxes it tiles ss)
      → pack_local_ghost_particles t it tiles ss
        ≡ ok (appended tiles (left_particles it tiles ss h))
  unfolding pack_local_ghost_particles
  pack_lem t it [] [] h = refl
  pack_lem t it [] (s ∷ ss) h = elim h [ ]
  pack_lem t it (tile ∷ tiles) [] h = elim h [ ]
  pack_lem t it (tile ∷ tiles) (s ∷ ss) (b, h) =
      let (junk, grown, size) = resize-append t tile (b.curr - b.left) in
      let none_done : tile ++ [] ≡ tile = append-nil tile in
      let copied =
        copy_lem tile [] junk b.left (b.curr - b.left) (omega (arith, b.left_le, b.curr_le)) size in
      ground (arith, b.left_eq, b.curr_eq, grown, none_done, copied, pack_lem t it tiles ss h)

  length-left_particles :
      (it : ℕ) (tiles : List (List P)) (ss : List BoxSorter) (h : HaveLeftBoxes it tiles ss)
      → length (left_particles it tiles ss h) ≡ length tiles
  length-left_particles it [] [] h = refl
  length-left_particles it [] (s ∷ ss) h = elim h [ ]
  length-left_particles it (tile ∷ tiles) [] h = elim h [ ]
  length-left_particles it (tile ∷ tiles) (s ∷ ss) (b, h) =
      ap suc (length-left_particles it tiles ss h)

  remove_lem :
      (t : Tile P) (tiles gs : List (List P))
      → length gs ≡ length tiles
      → remove_ghosts t (appended tiles gs) (store_n_real_particles tiles) ≡ ok tiles
  unfolding remove_ghosts store_n_real_particles
  remove_lem t [] gs e = refl
  remove_lem t (tile ∷ tiles) [] e = absurd (omega arith)
  remove_lem t (tile ∷ tiles) (g ∷ gs) e =
      let cut : t.resize (tile ++ g) (length tile) ≡ tile =
        resize-take t (tile ++ g) (length tile) (omega (arith, length-append tile g))
        ∙ take-append tile g in
      ground (arith, cut, remove_lem t tiles gs (omega arith))

module _ {R : Type 0} ⦃real : Real R⦄ where
  drop-append : (xs ys : List (Particle R)) → drop (length xs) (xs ++ ys) ≡ ys
  drop-append [] [] = refl
  drop-append [] (y ∷ ys) = refl
  drop-append (x ∷ xs) ys = drop-append xs ys

  -- CheckGhostSlice on beams with ghosts.
  abbrev pub checked : (lo hi : R) → List (List (Particle R)) → List (List (Particle R))
  checked lo hi gs = map (λ g. map (check_ghost lo hi) g) gs

  check_lem :
      (lo hi : R) (tiles gs : List (List (Particle R)))
      → length gs ≡ length tiles
      → check_ghosts lo hi (appended tiles gs) (store_n_real_particles tiles)
        ≡ ok (appended tiles (checked lo hi gs))
  unfolding check_ghosts store_n_real_particles
  check_lem lo hi [] gs e = refl
  check_lem lo hi (tile ∷ tiles) [] e = absurd (omega arith)
  check_lem lo hi (tile ∷ tiles) (g ∷ gs) e =
      ground (arith, take-append tile g, drop-append tile g, check_lem lo hi tiles gs (omega arith))

  -- The ghosts of a box: PackLocalGhostParticles puts the particles of the box on the left behind
  -- the beam's own, CheckGhostSlice marks only those of them that lie outside the cell between
  -- `lo` and `hi`, and RemoveGhosts, with the numbers that StoreNRealParticles stored before, leaves
  -- the beams as they were.
  pub ghosts-removed :
      (t : Tile (Particle R)) (it : ℕ) (lo hi : R) (beams : List (List (Particle R)))
      (ss : List BoxSorter) (h : HaveLeftBoxes it beams ss)
      → let ghosts = left_particles it beams ss h in
        let stored = store_n_real_particles beams in
        (pack_local_ghost_particles t it beams ss ≡ ok (appended beams ghosts))
        × (check_ghosts lo hi (appended beams ghosts) stored
            ≡ ok (appended beams (checked lo hi ghosts)))
        × (remove_ghosts t (appended beams (checked lo hi ghosts)) stored ≡ ok beams)
  ghosts-removed t it lo hi beams ss h =
      let ghosts = left_particles it beams ss h in
      let size = length-left_particles it beams ss h in
      (
        pack_lem t it beams ss h,
        check_lem lo hi beams ghosts size,
        remove_lem t beams (checked lo hi ghosts)
            (length-map ghosts (λ g. map (check_ghost lo hi) g) ∙ size),
      )
