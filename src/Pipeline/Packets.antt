-- ===== src/Pipeline/Packets.antt =====
-- The packing loop of Notify against the unpacking loop of Wait, for the particles of a box.
use mathlib.Core.List.{append_assoc, map-append}
use hipace.Prelude.{
  ℕ, zero, suc, ◌+◌, ◌≤◌, ◌≡◌, refl, sym, ap, ◌∙◌, some, List, [], ◌∷◌, ◌++◌, map, arith, false, ok,
  ◌>>=◌, length, get_elem?, get_or, take, drop, range_from, length-append, length-map, length-take,
  length-drop, get_elem?-some,
}
use hipace.Particles.{Tile, Packing}
use hipace.Particles.Arrays.{resize-take, resize-append, drop-suc, set-append}
use hipace.Grid.{Box}
use hipace.Sort.{BoxSorter, read-some}
use hipace.Pipeline.Send.{BeamBins, last_slice, pack_particles, pack_beams, box_counts_at}
use hipace.Pipeline.Receive.{unpack_particles, unpack_beams}

-- The sorter of a beam names a segment of its array for the box, and the bins have a last slice.
pub record IsSegment {P : Type 0} (bx : Box) (it : ℕ) (tile : List P) (s : BoxSorter) (b : BeamBins)
    : Type 0 where
  pub offset : ℕ
  pub count : ℕ
  pub offset_eq : get_elem? s.box_offsets it ≡ some offset
  pub count_eq : get_elem? s.box_counts it ≡ some count
  pub fits : offset + count ≤ length tile
  pub cell_start : ℕ
  pub cell_start_eq : get_elem? b.offsets (last_slice bx) ≡ some cell_start

-- The same of all beams.
abbrev pub AreSegments :
    {P : Type 0} → Box → ℕ → List (List P) → List BoxSorter → List BeamBins → Type 0
AreSegments bx it [] [] [] = Unit
AreSegments bx it (tile ∷ tiles) (s ∷ ss) (b ∷ bs) =
    IsSegment bx it tile s b × AreSegments bx it tiles ss bs
AreSegments bx it _ _ _ = ⊥

module _ {P : Type 0} where
  -- The particles of box `it`, and those that stand before them.
  abbrev pub segment : ℕ → List P → BoxSorter → List P
  segment it tile s = take (get_or s.box_counts it 0) (drop (get_or s.box_offsets it 0) tile)

  abbrev pub before : ℕ → List P → BoxSorter → List P
  before it tile s = take (get_or s.box_offsets it 0) tile

  abbrev pub segments : ℕ → List (List P) → List BoxSorter → List (List P)
  segments it [] ss = []
  segments it (tile ∷ tiles) [] = []
  segments it (tile ∷ tiles) (s ∷ ss) = segment it tile s ∷ segments it tiles ss

  abbrev pub befores : ℕ → List (List P) → List BoxSorter → List (List P)
  befores it [] ss = []
  befores it (tile ∷ tiles) [] = []
  befores it (tile ∷ tiles) (s ∷ ss) = before it tile s ∷ befores it tiles ss

  -- Each array of the receiver with the particles that it is sent behind its own.
  abbrev pub appended : List (List P) → List (List P) → List (List P)
  appended [] sent = []
  appended (tile ∷ tiles) [] = []
  appended (tile ∷ tiles) (ps ∷ sent) = (tile ++ ps) ∷ appended tiles sent

  abbrev pub flat : List (List P) → List P
  flat [] = []
  flat (ps ∷ pss) = ps ++ flat pss

abbrev pub lengths : {P : Type 0} → List (List P) → List ℕ
lengths [] = []
lengths (ps ∷ pss) = length ps ∷ lengths pss

get_or-of_some : (xs : List ℕ) (i : ℕ) {a : ℕ} → get_elem? xs i ≡ some a → get_or xs i 0 ≡ a
get_or-of_some [] i h = cc
get_or-of_some (x ∷ xs) zero h = ground arith
get_or-of_some (x ∷ xs) (suc i) h = get_or-of_some xs i h

length-segment :
    {P : Type 0} (bx : Box) (it : ℕ) (tile : List P) (s : BoxSorter) (b : BeamBins)
    (h : IsSegment bx it tile s b)
    → length (segment it tile s) ≡ h.count
length-segment bx it tile s b h = omega (
  arith,
  h.fits,
  get_or-of_some s.box_offsets it h.offset_eq,
  get_or-of_some s.box_counts it h.count_eq,
  length-take (get_or s.box_counts it 0) (drop (get_or s.box_offsets it 0) tile),
  length-drop (get_or s.box_offsets it 0) tile,
)

module _ {P K : Type 0} (k : Packing P K) where
  pack_range :
      (tile : List P) (offset a n : ℕ)
      → offset + a + n ≤ length tile
      → pack_particles k tile offset (range_from a n)
        ≡ ok (map k.pack (take n (drop (offset + a) tile)))
  unfolding pack_particles
  pack_range tile offset a zero h = refl
  pack_range tile offset a (suc n) h =
      let (p, e) = get_elem?-some tile (offset + a) (omega arith) in
      let next : offset + (a + 1) ≡ suc (offset + a) = omega arith in
      rw (drop-suc tile (offset + a) e) (
        ground (
          arith,
          e,
          pack_range tile offset (a + 1) n (omega arith),
          ap (λ t. take n (drop t tile)) next,
        ))

  read-append :
      {A : Type 0} (pre : List A) (a : A) (post : List A)
      → get_elem? (pre ++ (a ∷ post)) (length pre) ≡ some a
  read-append [] a post = refl
  read-append (x ∷ pre) a post = read-append pre a post

  -- Unpacking what stands in the buffer behind `pre` fills the places behind `old`.
  unpack_sent :
      (sent old junk : List P) (pre post : List K) (buffer : List K)
      → buffer ≡ pre ++ (map k.pack sent ++ post)
      → length junk ≡ length sent
      → unpack_particles k buffer (length pre) (length old) (length sent) (old ++ junk)
        ≡ ok (old ++ sent)
  unfolding unpack_particles
  unpack_sent [] old [] pre post buffer e h = refl
  unpack_sent [] old (j ∷ junk) pre post buffer e h = absurd (omega arith)
  unpack_sent (p ∷ sent) old [] pre post buffer e h = absurd (omega arith)
  unpack_sent (p ∷ sent) old (j ∷ junk) pre post buffer e h =
      let found : get_elem? buffer (length pre) ≡ some (k.pack p) =
        ap (λ t. get_elem? t (length pre)) e
        ∙ read-append pre (k.pack p) (map k.pack sent ++ post) in
      let rest =
        unpack_sent sent (old ++ (p ∷ [])) junk (pre ++ (k.pack p ∷ [])) post buffer
          (e ∙ sym (append_assoc pre (k.pack p ∷ []) (map k.pack sent ++ post))) (omega arith) in
      ground (
        arith,
        found,
        rest,
        length-append pre (k.pack p ∷ []),
        length-append old (p ∷ []),
        set-append old j junk p,
        k.unpack-pack p,
        append_assoc old (p ∷ []) sent,
      )

  -- The two loops over the beams, for the particles of box `it`.
  module _ (t : Tile P) (bx : Box) (it : ℕ) where
    pub counts-AreSegments :
        (tiles : List (List P)) (ss : List BoxSorter) (bs : List BeamBins)
        → AreSegments bx it tiles ss bs
        → box_counts_at it ss ≡ ok (lengths (segments it tiles ss))
    unfolding box_counts_at
    counts-AreSegments [] [] [] h = refl
    counts-AreSegments [] [] (b ∷ bs) h = elim h [ ]
    counts-AreSegments [] (s ∷ ss) bs h = elim h [ ]
    counts-AreSegments (tile ∷ tiles) [] bs h = elim h [ ]
    counts-AreSegments (tile ∷ tiles) (s ∷ ss) [] h = elim h [ ]
    counts-AreSegments (tile ∷ tiles) (s ∷ ss) (b ∷ bs) (h, hs) =
        let rest = counts-AreSegments tiles ss bs hs in
        let size : length (segment it tile s) ≡ h.count = length-segment bx it tile s b h in
        ap (λ m. m >>= λ n. box_counts_at it ss >>= λ ns. ok (n ∷ ns))
          (read-some s.box_counts it h.count_eq)
        ∙ ap (λ m. m >>= λ ns. ok (h.count ∷ ns)) rest
        ∙ ap (λ n. ok (n ∷ lengths (segments it tiles ss))) (sym size)

    pub pack-AreSegments :
        (tiles : List (List P)) (ss : List BoxSorter) (bs : List BeamBins)
        → AreSegments bx it tiles ss bs
        → pack_beams t k false bx it tiles ss bs (lengths (segments it tiles ss))
          ≡ ok (befores it tiles ss, map k.pack (flat (segments it tiles ss)))
    unfolding pack_beams
    pack-AreSegments [] [] [] h = refl
    pack-AreSegments [] [] (b ∷ bs) h = elim h [ ]
    pack-AreSegments [] (s ∷ ss) bs h = elim h [ ]
    pack-AreSegments (tile ∷ tiles) [] bs h = elim h [ ]
    pack-AreSegments (tile ∷ tiles) (s ∷ ss) [] h = elim h [ ]
    pack-AreSegments (tile ∷ tiles) (s ∷ ss) (b ∷ bs) (h, hs) =
        let low : get_or s.box_offsets it 0 ≡ h.offset =
          get_or-of_some s.box_offsets it h.offset_eq in
        let num : get_or s.box_counts it 0 ≡ h.count = get_or-of_some s.box_counts it h.count_eq in
        let zero_add : h.offset + 0 ≡ h.offset = omega arith in
        let size = length-segment bx it tile s b h in
        let packed : pack_particles k tile h.offset (range_from 0 h.count)
            ≡ ok (map k.pack (take h.count (drop h.offset tile))) =
          pack_range tile h.offset 0 h.count (omega (arith, h.fits))
          ∙ ap (λ d. ok (map k.pack (take h.count (drop d tile)))) zero_add in
        let kept : t.resize tile h.offset ≡ take h.offset tile =
          resize-take t tile h.offset (omega (arith, h.fits)) in
        ground (
          arith,
          h.offset_eq,
          h.cell_start_eq,
          size,
          packed,
          kept,
          low,
          num,
          pack-AreSegments tiles ss bs hs,
          map-append k.pack (segment it tile s) (flat (segments it tiles ss)),
        )

    pub unpack_segments :
        (tiles sent : List (List P)) (pre : List K) (buffer : List K)
        → length tiles ≡ length sent
        → buffer ≡ pre ++ map k.pack (flat sent)
        → unpack_beams t k buffer (length pre) tiles (lengths sent) ≡ ok (appended tiles sent)
    unfolding unpack_beams
    unpack_segments [] [] pre buffer h e = refl
    unpack_segments [] (ps ∷ sent) pre buffer h e = absurd (omega arith)
    unpack_segments (tile ∷ tiles) [] pre buffer h e = absurd (omega arith)
    unpack_segments (tile ∷ tiles) (ps ∷ sent) pre buffer h e =
        let (junk, grown, junk_length) = resize-append t tile (length ps) in
        let split : buffer ≡ pre ++ (map k.pack ps ++ map k.pack (flat sent)) =
          e ∙ ap (λ l. pre ++ l) (map-append k.pack ps (flat sent)) in
        let filled =
          unpack_sent ps tile junk pre (map k.pack (flat sent)) buffer split junk_length in
        let longer : length (pre ++ map k.pack ps) ≡ length pre + length ps =
          omega (arith, length-append pre (map k.pack ps), length-map ps k.pack) in
        let rest =
          unpack_segments tiles sent (pre ++ map k.pack ps) buffer (omega arith)
            (split ∙ sym (append_assoc pre (map k.pack ps) (map k.pack (flat sent)))) in
        ground (arith, grown, filled, longer, rest)
