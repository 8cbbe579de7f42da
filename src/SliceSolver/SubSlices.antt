-- ===== src/SliceSolver/SubSlices.antt =====
-- The slices of a refined level that SolveOneSlice visits, and its assertions.
use hipace.Prelude.{
  ℕ, zero, suc, ◌+◌, ◌-◌, ◌*◌, ◌≡◌, refl, sym, ap, ◌∙◌, Bool, true, false, List, [], ◌∷◌, ◌++◌, map,
  gather, ok, arith, range_down, Bool-cases, inl, inr, if◌then◌else◌, ◌>>=◌,
}
use hipace.Reals.{Real}
use hipace.Evolve.Slices.{range_down-append}
use hipace.SliceSolver.{
  deposit_calls, solve_calls, SliceCall, Switches, Level, reset_this, check_order, solve_sub_slice,
  sub_slices, solve_sub_slices, solve_one_slice, is_skipped,
}

shifted : (a b n : ℕ) → map (λ i. a + i) (range_down b n) ≡ range_down (a + b) n
shifted a b zero = refl
shifted a b (suc n) = let e : a + (b + n) ≡ a + b + n = omega arith in cc (e, shifted a b n)

-- The sub-slices of a coarse slice.
sub_slices_lem : (r islice : ℕ) → sub_slices r islice ≡ range_down (r * islice) r
unfolding sub_slices
sub_slices_lem r islice = shifted (r * islice) 0 r ∙ ap (λ t. range_down t r) (omega arith)

-- Over consecutive coarse slices, from the last to the first as Evolve takes them, the sub-slices
-- that SolveOneSlice solves on a level are that level's slices, each once and from last to first.
sub_slices-range_down :
    (r lo count : ℕ) → gather (sub_slices r) (range_down lo count) ≡ range_down (r * lo) (r * count)
sub_slices-range_down r lo zero = let z : 0 ≡ r * 0 = omega arith in ap (range_down (r * lo)) z
sub_slices-range_down r lo (suc count) =
    let e : r * (lo + count) ≡ r * lo + r * count = grind arith in
    let f : r + r * count ≡ r * suc count = grind arith in
    ap (λ t. t ++ gather (sub_slices r) (range_down lo count)) (sub_slices_lem r (lo + count))
    ∙ ap (λ t. range_down (r * (lo + count)) r ++ t) (sub_slices-range_down r lo count)
    ∙ ap (λ t. range_down t r ++ range_down (r * lo) (r * count)) e
    ∙ range_down-append (r * lo) (r * count) r
    ∙ ap (range_down (r * lo)) f

reset_this-ok :
    (is_explicit : Bool) → (calls : List SliceCall) × (reset_this is_explicit ≡ ok calls)
unfolding reset_this
reset_this-ok true = (_, refl)
reset_this-ok false = (_, refl)

solve_sub_slice-ok :
    (s : Switches) (islice islice_local : ℕ)
    → (calls : List SliceCall) × (solve_sub_slice s islice islice_local ≡ ok calls)
unfolding solve_sub_slice check_order
solve_sub_slice-ok s islice islice_local =
    let (zeroed, e) = reset_this-ok s.is_explicit in
    (
      zeroed ++ deposit_calls s islice_local ++ solve_calls s islice islice_local,
      ap
          (λ m.
            m >>= λ z. ok (z ++ deposit_calls s islice_local ++ solve_calls s islice islice_local))
          e,
    )

solve_sub_slices-ok :
    (s : Switches) (lo : ℕ) (slices : List ℕ)
    → (out : List (ℕ × List SliceCall)) × (solve_sub_slices s lo slices ≡ ok out)
      × (map (λ v. v.0) out ≡ slices)
unfolding solve_sub_slices
solve_sub_slices-ok s lo [] = ([], refl, refl)
solve_sub_slices-ok s lo (islice ∷ later) =
    let (calls, e) = solve_sub_slice-ok s islice (islice - lo) in
    let (rest, f, visits) = solve_sub_slices-ok s lo later in
    ((islice, calls) ∷ rest, ground (arith, e, f), ap (λ t. islice ∷ t) visits)

module _ {R : Type 0} ⦃real : Real R⦄ (dz problo patch_lo patch_hi : R) where
  -- The levels that are not skipped, each with the sub-slices of the coarse slice.
  abbrev pub visited : (lev islice_coarse : ℕ) → List Level → List (ℕ × List ℕ)
  visited lev islice [] = []
  visited lev islice (l ∷ levels) =
      let rest = visited (lev + 1) islice levels in
      if is_skipped dz problo patch_lo patch_hi lev islice
      then rest
      else (lev, range_down (l.ref_ratio_z * islice) l.ref_ratio_z) ∷ rest

  visited_skip :
      (lev islice : ℕ) (l : Level) (levels : List Level)
      → is_skipped dz problo patch_lo patch_hi lev islice ≡ true
      → visited lev islice (l ∷ levels) ≡ visited (lev + 1) islice levels
  visited_skip lev islice l levels e =
      ap
        (λ b.
          if b
          then visited (lev + 1) islice levels
          else (lev, range_down (l.ref_ratio_z * islice) l.ref_ratio_z)
            ∷ visited (lev + 1) islice levels)
        e

  visited_here :
      (lev islice : ℕ) (l : Level) (levels : List Level)
      → is_skipped dz problo patch_lo patch_hi lev islice ≡ false
      → visited lev islice (l ∷ levels)
        ≡ (lev, range_down (l.ref_ratio_z * islice) l.ref_ratio_z) ∷ visited (lev + 1) islice levels
  visited_here lev islice l levels e =
      ap
        (λ b.
          if b
          then visited (lev + 1) islice levels
          else (lev, range_down (l.ref_ratio_z * islice) l.ref_ratio_z)
            ∷ visited (lev + 1) islice levels)
        e

  -- SolveOneSlice always completes: its assertions on the order of the components hold. It visits
  -- the levels that have the slice, the coarsest first, and on each all sub-slices of the coarse
  -- slice from the last to the first.
  pub solve_one_slice-visited :
      (s : Switches) (lev islice_coarse : ℕ) (levels : List Level)
      → (out : List (ℕ × List (ℕ × List SliceCall))) × (solve_one_slice dz problo patch_lo patch_hi
            s lev islice_coarse levels
          ≡ ok out)
        × (map (λ v. (v.0, map (λ w. w.0) v.1)) out ≡ visited lev islice_coarse levels)
  unfolding solve_one_slice
  solve_one_slice-visited s lev islice [] = ([], refl, refl)
  solve_one_slice-visited s lev islice (l ∷ levels) =
      let (rest, e, visits) = solve_one_slice-visited s (lev + 1) islice levels in
      let (calls, f, slices) =
        solve_sub_slices-ok s l.small_end_z (sub_slices l.ref_ratio_z islice) in
      elim (Bool-cases (is_skipped dz problo patch_lo patch_hi lev islice)) [
        | inl skip ↦ (rest, rw (e, skip) refl, visits ∙ sym (visited_skip lev islice l levels skip))
        | inr no_skip ↦ (
          (lev, calls) ∷ rest,
          rw (e, no_skip, f) refl,
          cc (slices ∙ sub_slices_lem l.ref_ratio_z islice, visits)
              ∙ sym (visited_here lev islice l levels no_skip),
        )
      ]
