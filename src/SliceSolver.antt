-- ===== src/SliceSolver.antt =====
-- Hipace::SolveOneSlice in src/Hipace.cpp, as the sequence of its calls on each sub-slice of each
-- level.
pub mod SubSlices
use hipace.Prelude.{
  ℕ, zero, suc, ◌+◌, ◌-◌, ◌*◌, Bool, true, false, not, ◌&&◌, ◌||◌, List, [], ◌∷◌, ◌++◌, map, Result,
  ok, err, ◌>>=◌, ◌>>◌, always_assert, if◌then◌else◌, ◌==◌, range_down,
}
use hipace.Reals.{Real}
use hipace.Fields.{
  WhichSlice, comps, this, next, n, jx, jx_beam, jy, jy_beam, jz, jz_beam, rho, bx, by,
}

-- The calls, with the arguments that tell them apart: components by their index and number.
pub data SliceCall : Type 0 where
  set_val : WhichSlice → (comp num_comp : ℕ) → SliceCall
  fill_boundary : WhichSlice → (comp num_comp : ℕ) → SliceCall
  advance_plasma : (temp_slice do_push do_update do_shift : Bool) → SliceCall
  tile_sort : SliceCall
  deposit_plasma : WhichSlice → (deposit_jxx : Bool) → SliceCall
  deposit_beam : WhichSlice → (islice_local : ℕ) → SliceCall
  deposit_grid_current : (islice : ℕ) → SliceCall
  add_beam_currents : WhichSlice → SliceCall
  add_rho_ions : (inverse : Bool) → SliceCall
  solve_poisson_exm_by_and_eyp_bx : (islice : ℕ) → SliceCall
  solve_poisson_ez : (islice : ℕ) → SliceCall
  solve_poisson_bz : (islice : ℕ) → SliceCall
  explicit_solve_bx_by : SliceCall
  predictor_corrector_loop : (islice_local : ℕ) → SliceCall
  advance_beam : (islice_local : ℕ) → SliceCall
  fill_diagnostics : (islice : ℕ) → SliceCall
  do_field_ionization : SliceCall

-- The settings that it reads.
pub record Switches : Type 0 where
  pub is_explicit : Bool
  pub do_tiling : Bool
  pub ionization_on : Bool

abbrev if_then : Bool → List SliceCall → List SliceCall
if_then b cs = if b then cs else []

-- What is set to zero first: with the explicit solver all of This but Bx and By, else all of it.
unfoldable pub reset_this : Bool → Result (List SliceCall)
reset_this true = do
  let ibx = comps this bx
  let iby = comps this by
  let nc = comps this n
  always_assert (iby == (ibx + 1))
  ok (set_val this 0 ibx ∷ set_val this (iby + 1) (nc - iby - 1) ∷ [])
reset_this false = ok (set_val this 0 (comps this n) ∷ [])

-- The assertion on the order of the currents and of the charge density.
unfoldable pub check_order : Result (Unit {0})
check_order = do
  let ijx = comps this jx
  always_assert (
      (comps this jx_beam == (ijx + 1))
      && (comps this jy == (ijx + 2))
      && (comps this jy_beam == (ijx + 3))
      && (comps this jz == (ijx + 4))
      && (comps this jz_beam == (ijx + 5))
      && (comps this rho == (ijx + 6)))

-- The calls up to that assertion.
unfoldable pub deposit_calls : Switches → (islice_local : ℕ) → List SliceCall
deposit_calls s islice_local =
    if_then (not s.is_explicit) (advance_plasma false true false false ∷ [])
    ++ if_then s.do_tiling (tile_sort ∷ [])
    ++ (deposit_plasma this s.is_explicit ∷ [])
    ++ if_then s.is_explicit (
        set_val next (comps next jx) 4
        ∷ deposit_beam next islice_local
        ∷ add_beam_currents next
        ∷ fill_boundary next (comps next jx) 4
        ∷ [])
    ++ (add_rho_ions false ∷ [])

-- The calls behind it.
unfoldable pub solve_calls : Switches → (islice islice_local : ℕ) → List SliceCall
solve_calls s islice islice_local =
    (fill_boundary this (comps this jx) 7
      ∷ solve_poisson_exm_by_and_eyp_bx islice
      ∷ deposit_grid_current islice
      ∷ deposit_beam this islice_local
      ∷ add_beam_currents this
      ∷ fill_boundary this (comps this jx) 7
      ∷ solve_poisson_ez islice
      ∷ solve_poisson_bz islice
      ∷ [])
    ++ (if s.is_explicit
        then add_rho_ions true
          ∷ explicit_solve_bx_by
          ∷ advance_plasma false true true true
          ∷ add_rho_ions false
          ∷ []
        else predictor_corrector_loop islice_local ∷ [])
    ++ (advance_beam islice_local ∷ fill_diagnostics islice ∷ do_field_ionization ∷ [])
    ++ if_then (s.ionization_on && s.do_tiling) (tile_sort ∷ [])

-- The body of the loop over the sub-slices.
unfoldable pub solve_sub_slice : Switches → (islice islice_local : ℕ) → Result (List SliceCall)
unfolding reset_this check_order deposit_calls solve_calls
solve_sub_slice s islice islice_local = do
  zeroed ← reset_this s.is_explicit
  check_order
  ok (zeroed ++ deposit_calls s islice_local ++ solve_calls s islice islice_local)

-- `for (isubslice = nsubslice-1; isubslice >= 0; --isubslice)`: the slices of the level.
unfoldable pub sub_slices : (nsubslice islice_coarse : ℕ) → List ℕ
sub_slices nsubslice islice_coarse =
    map (λ isubslice. nsubslice * islice_coarse + isubslice) (range_down 0 nsubslice)

unfoldable pub solve_sub_slices :
    Switches → (small_end_z : ℕ) → List ℕ → Result (List (ℕ × List SliceCall))
unfolding solve_sub_slice
solve_sub_slices s lo [] = ok []
solve_sub_slices s lo (islice ∷ later) = do
  calls ← solve_sub_slice s islice (islice - lo)
  rest ← solve_sub_slices s lo later
  ok ((islice, calls) ∷ rest)

-- A level: its refinement ratio in z, and the lower end of its box in z.
pub record Level : Type 0 where
  pub ref_ratio_z : ℕ
  pub small_end_z : ℕ

module _ {R : Type 0} ⦃real : Real R⦄ (dz problo patch_lo patch_hi : R) where
  -- Whether a level does not have the slice.
  abbrev pub is_skipped : (lev islice_coarse : ℕ) → Bool
  is_skipped lev islice_coarse =
      let half = real.div (real.of_int 1) (real.of_int 2) in
      let pos = real.add (real.mul (real.add (real.of_int islice_coarse) half) dz) problo in
      (lev == 1) && (real.lt pos patch_lo || real.lt patch_hi pos)

  -- The loop over the levels, from `lev` on: each level that is not skipped, with its sub-slices and
  -- their calls. ShiftSlices is called behind it.
  unfoldable pub solve_one_slice :
      Switches
      → (lev islice_coarse : ℕ) → List Level
      → Result (List (ℕ × List (ℕ × List SliceCall)))
  unfolding sub_slices solve_sub_slices
  solve_one_slice s lev islice_coarse [] = ok []
  solve_one_slice s lev islice_coarse (l ∷ levels) = do
    let slices = sub_slices l.ref_ratio_z islice_coarse
    let here = solve_sub_slices s l.small_end_z slices
    let rest = solve_one_slice s (lev + 1) islice_coarse levels
    if is_skipped lev islice_coarse
        then rest
        else (do calls ← here; later ← rest; ok ((lev, calls) ∷ later))
