-- ===== src/Fields/Shift.antt =====
-- ShiftSlices and AddBeamCurrents: the copies and sums by index are the right ones by name.
use mathlib.Core.Option.{some-injective}
use hipace.Prelude.{
  ℕ, suc, ◌+◌, ◌≡◌, refl, ◌∙◌, Bool, true, false, arith, inl, inr, List, [], ◌∷◌, get_elem?, some,
  ap, sym, subst, ◌⊎◌, ◌<◌, zero,
}
use hipace.Reals.{Real}
use hipace.Fields.MultiFab.{MultiFabs}
use hipace.Fields.{
  WhichSlice, next, this, previous1, previous2, Name, comps_map, has_key, n, bx, by, ez, bz, jx,
  jx_beam, jy, jy_beam, jz, jz_beam, rho, psi, Slices, get_field, shift_level, shift_slices,
  add_beam_currents, in_patch,
}

-- The fields of a map of Comps, that is its keys but N.
abbrev pub is_field : WhichSlice → Name → Bool
is_field slice n = false
is_field slice f = has_key (comps_map slice) f

module _ {R M F : Type 0} (ops : MultiFabs R M F) where
  previous2_shift :
      (s : Slices M) (f : Name)
      → is_field previous2 f ≡ true
      → get_field ops (shift_level ops s) previous2 f ≡ get_field ops s previous1 f
  unfolding shift_level
  previous2_shift s bx e =
      ops.component-copy_in s.previous2_slice s.previous1_slice 1 0 2 0 (omega arith)
  previous2_shift s by e =
      ops.component-copy_in s.previous2_slice s.previous1_slice 1 0 2 1 (omega arith)
  previous2_shift s f e = cc

  module _ (s : Slices M) where
    -- Previous1 after the first of the two copies that it gets.
    abbrev half : M
    half = ops.copy s.previous1_slice s.this_slice 2 0 8

    early :
        (i : ℕ)
        → i < 8
        → ops.component (ops.copy half s.this_slice 12 8 2) i ≡ ops.component s.this_slice (2 + i)
    early i h =
        let place : 0 + i ≡ i = omega arith in
        ops.component-copy_out half s.this_slice 12 8 2 i (inl h)
        ∙ ap (ops.component half) (sym place)
        ∙ ops.component-copy_in s.previous1_slice s.this_slice 2 0 8 i h

    previous1_shift :
        (f : Name)
        → is_field previous1 f ≡ true
        → get_field ops (shift_level ops s) previous1 f ≡ get_field ops s this f
    unfolding shift_level
    previous1_shift ez e = early 0 (omega arith)
    previous1_shift bx e = early 1 (omega arith)
    previous1_shift by e = early 2 (omega arith)
    previous1_shift bz e = early 3 (omega arith)
    previous1_shift jx e = early 4 (omega arith)
    previous1_shift jx_beam e = early 5 (omega arith)
    previous1_shift jy e = early 6 (omega arith)
    previous1_shift jy_beam e = early 7 (omega arith)
    previous1_shift rho e = ops.component-copy_in half s.this_slice 12 8 2 0 (omega arith)
    previous1_shift psi e = ops.component-copy_in half s.this_slice 12 8 2 1 (omega arith)
    previous1_shift f e = cc

  module _ ⦃real : Real R⦄ (islice : ℕ) (dz problo lo hi : R) where
    -- The slices `q` of a level after ShiftSlices, for the fields `f` of Previous1 and `g` of
    -- Previous2.
    pub record IsShifted (s q : Slices M) (f g : Name) : Type 0 where
      pub previous1_eq : get_field ops q previous1 f ≡ get_field ops s this f
      pub previous2_eq : get_field ops q previous2 g ≡ get_field ops s previous1 g
      pub this_eq : q.this_slice ≡ s.this_slice
      pub next_eq : q.next_slice ≡ s.next_slice
      pub rho_ions_eq : q.rho_ions_slice ≡ s.rho_ions_slice

    shift_level-IsShifted :
        (s : Slices M) (f g : Name)
        → is_field previous1 f ≡ true
        → is_field previous2 g ≡ true
        → IsShifted s (shift_level ops s) f g
    unfolding shift_level
    shift_level-IsShifted s f g hf hg = record {
      previous1_eq = previous1_shift s f hf;
      previous2_eq = previous2_shift s g hg;
      this_eq = refl;
      next_eq = refl;
      rho_ions_eq = refl;
    }

    -- ShiftSlices on a level that has the slice moves each field of Previous1 there from the field
    -- with the same name of This, and each field of Previous2 from the one that Previous1 had before;
    -- the other slices of the level stay as they are. Both are said for the level at place `k`,
    -- counted from `lev`.
    pub shift_slices-IsShifted :
        (lev : ℕ) (levels : List (Slices M)) (k : ℕ) (s : Slices M) (f g : Name)
        → get_elem? levels k ≡ some s
        → in_patch ops (lev + k) islice dz problo lo hi ≡ true
        → is_field previous1 f ≡ true
        → is_field previous2 g ≡ true
        → (q : Slices M) × (get_elem? (shift_slices ops lev islice dz problo lo hi levels) k
            ≡ some q)
          × IsShifted s q f g
    unfolding shift_slices
    shift_slices-IsShifted lev [] k s f g at e hf hg = cc
    shift_slices-IsShifted lev (t ∷ levels) zero s f g at e hf hg =
        let same : lev + 0 ≡ lev = omega arith in
        let here : in_patch ops lev islice dz problo lo hi ≡ true =
          subst (λ l. in_patch ops l islice dz problo lo hi ≡ true) same e in
        (
          shift_level ops s,
          rw here (ap (λ u. some (shift_level ops u)) (some-injective t s at)),
          shift_level-IsShifted s f g hf hg,
        )
    shift_slices-IsShifted lev (t ∷ levels) (suc k) s f g at e hf hg =
        let next_lev : lev + suc k ≡ (lev + 1) + k = omega arith in
        shift_slices-IsShifted (lev + 1) levels k s f g at
          (subst (λ l. in_patch ops l islice dz problo lo hi ≡ true) next_lev e) hf hg

  -- What AddBeamCurrents makes of the currents of a slice.
  pub record IsAdded (s q : Slices M) (slice : WhichSlice) : Type 0 where
    pub jx_eq :
        get_field ops q slice jx
        ≡ ops.plus (get_field ops s slice jx) (get_field ops s slice jx_beam)
    pub jy_eq :
        get_field ops q slice jy
        ≡ ops.plus (get_field ops s slice jy) (get_field ops s slice jy_beam)
    pub jx_beam_eq : get_field ops q slice jx_beam ≡ get_field ops s slice jx_beam
    pub jy_beam_eq : get_field ops q slice jy_beam ≡ get_field ops s slice jy_beam

  -- Two components that stand behind each other, the second added to the first.
  abbrev summed : M → ℕ → M
  summed m c = ops.add m m (c + 1) c 1

  summed_other :
      (m : M) (c d : ℕ) → (d < c) ⊎ (c < d) → ops.component (summed m c) d ≡ ops.component m d
  summed_other m c d h = ops.component-add_one_out m m (c + 1) c d h

  summed_two :
      (m : M) (c : ℕ)
      → let q = summed (summed m c) (c + 2) in
        (ops.component q c ≡ ops.plus (ops.component m c) (ops.component m (c + 1)))
        × (ops.component q (c + 2)
            ≡ ops.plus (ops.component m (c + 2)) (ops.component m (c + 2 + 1)))
        × (ops.component q (c + 1) ≡ ops.component m (c + 1))
        × (ops.component q (c + 3) ≡ ops.component m (c + 3))
  summed_two m c =
      let x = summed m c in
      (
        summed_other x (c + 2) c (inl (omega arith)) ∙ ops.component-add_one_in m m (c + 1) c,
        ops.component-add_one_in x x (c + 2 + 1) (c + 2)
            ∙ ap (λ t. ops.plus t (ops.component x (c + 2 + 1)))
                (summed_other m c (c + 2) (inr (omega arith)))
            ∙ ap (λ t. ops.plus (ops.component m (c + 2)) t)
                (summed_other m c (c + 2 + 1) (inr (omega arith))),
        summed_other x (c + 2) (c + 1) (inl (omega arith))
            ∙ summed_other m c (c + 1) (inr (omega arith)),
        summed_other x (c + 2) (c + 3) (inr (omega arith))
            ∙ summed_other m c (c + 3) (inr (omega arith)),
      )

  add_next : (s : Slices M) → IsAdded s (add_beam_currents ops next s) next
  unfolding add_beam_currents
  add_next s =
      let (x, y, xb, yb) = summed_two s.next_slice 0 in
      record { jx_eq = x; jy_eq = y; jx_beam_eq = xb; jy_beam_eq = yb }

  add_this :
      (s : Slices M)
      → IsAdded s (add_beam_currents ops this s) this
        × (get_field ops (add_beam_currents ops this s) this jz
            ≡ ops.plus (get_field ops s this jz) (get_field ops s this jz_beam))
  unfolding add_beam_currents
  add_this s =
      let (x, y, xb, yb) = summed_two s.this_slice 6 in
      let m = summed (summed s.this_slice 6) 8 in
      let kept : (d : ℕ) → 9 < d → ops.component m d ≡ ops.component s.this_slice d = λ d h.
        summed_other (summed s.this_slice 6) 8 d (inr (omega arith))
        ∙ summed_other s.this_slice 6 d (inr (omega arith)) in
      (
        record {
          jx_eq = summed_other m 10 6 (inl (omega arith)) ∙ x;
          jy_eq = summed_other m 10 8 (inl (omega arith)) ∙ y;
          jx_beam_eq = summed_other m 10 7 (inl (omega arith)) ∙ xb;
          jy_beam_eq = summed_other m 10 9 (inl (omega arith)) ∙ yb;
        },
        ops.component-add_one_in m m 11 10
            ∙ ap (λ t. ops.plus t (ops.component m 11)) (kept 10 (omega arith))
            ∙ ap (λ t. ops.plus (ops.component s.this_slice 10) t) (kept 11 (omega arith)),
      )

  -- AddBeamCurrents adds the beam's transverse currents to the full ones on the slices Next and This,
  -- and on This the longitudinal one too; the beam's own transverse currents stay as they are.
  pub add_beam_currents-IsAdded :
      (s : Slices M)
      → IsAdded s (add_beam_currents ops next s) next
        × IsAdded s (add_beam_currents ops this s) this
        × (get_field ops (add_beam_currents ops this s) this jz
            ≡ ops.plus (get_field ops s this jz) (get_field ops s this jz_beam))
  add_beam_currents-IsAdded s = (add_next s, (add_this s).0, (add_this s).1)
