-- ===== src/Fields.antt =====
-- src/fields/Fields.H and Fields.cpp: the names of the field components of each slice, the shift of
-- the slices, the sums of the currents, and the places that the boundary condition corrects.
pub mod MultiFab
pub mod Shift
pub mod Edges
pub mod Mixing
use hipace.Prelude.{
  ℕ, suc, ◌+◌, ◌-◌, ◌*◌, Bool, true, false, not, ◌&&◌, ◌||◌, List, [], ◌∷◌, ltb, ◌==◌,
  if◌then◌else◌,
}
use hipace.Reals.{Real}
use hipace.Fields.MultiFab.{MultiFabs}

-- WhichSlice::slice.
pub data WhichSlice : Type 0 where
  next this previous1 previous2 rho_ions : WhichSlice

-- The keys of the maps of Comps.
pub data Name : Type 0 where
  exm_by eyp_bx ez bx by bz jx jx_beam jy jy_beam jz jz_beam rho psi jxx jxy jyy n : Name

abbrev pub code : Name → ℕ
code exm_by = 0
code eyp_bx = 1
code ez = 2
code bx = 3
code by = 4
code bz = 5
code jx = 6
code jx_beam = 7
code jy = 8
code jy_beam = 9
code jz = 10
code jz_beam = 11
code rho = 12
code psi = 13
code jxx = 14
code jxy = 15
code jyy = 16
code n = 17

-- The five maps of Comps.
abbrev pub comps_map : WhichSlice → List (Name × ℕ)
comps_map next = (jx, 0) ∷ (jx_beam, 1) ∷ (jy, 2) ∷ (jy_beam, 3) ∷ (n, 4) ∷ []
comps_map this =
    (exm_by, 0)
    ∷ (eyp_bx, 1)
    ∷ (ez, 2)
    ∷ (bx, 3)
    ∷ (by, 4)
    ∷ (bz, 5)
    ∷ (jx, 6)
    ∷ (jx_beam, 7)
    ∷ (jy, 8)
    ∷ (jy_beam, 9)
    ∷ (jz, 10)
    ∷ (jz_beam, 11)
    ∷ (rho, 12)
    ∷ (psi, 13)
    ∷ (jxx, 14)
    ∷ (jxy, 15)
    ∷ (jyy, 16)
    ∷ (n, 17)
    ∷ []
comps_map previous1 =
    (ez, 0)
    ∷ (bx, 1)
    ∷ (by, 2)
    ∷ (bz, 3)
    ∷ (jx, 4)
    ∷ (jx_beam, 5)
    ∷ (jy, 6)
    ∷ (jy_beam, 7)
    ∷ (rho, 8)
    ∷ (psi, 9)
    ∷ (n, 10)
    ∷ []
comps_map previous2 = (bx, 0) ∷ (by, 1) ∷ (n, 2) ∷ []
comps_map rho_ions = (rho, 0) ∷ (n, 1) ∷ []

abbrev pub has_key : List (Name × ℕ) → Name → Bool
has_key [] f = false
has_key ((g, c) ∷ m) f = (code f == code g) || has_key m f

-- `map[key]`, which is 0 where the map has no such key.
abbrev pub look_up : List (Name × ℕ) → Name → ℕ
look_up [] f = 0
look_up ((g, c) ∷ m) f = if code f == code g then c else look_up m f

-- `Comps[slice][name]`.
abbrev pub comps : WhichSlice → Name → ℕ
comps slice f = look_up (comps_map slice) f

-- m_slices of one level.
pub record Slices (M : Type 0) : Type 0 where
  pub next_slice : M
  pub this_slice : M
  pub previous1_slice : M
  pub previous2_slice : M
  pub rho_ions_slice : M

-- Fields::getSlices.
abbrev pub get_slices : {M : Type 0} → Slices M → WhichSlice → M
get_slices s next = s.next_slice
get_slices s this = s.this_slice
get_slices s previous1 = s.previous1_slice
get_slices s previous2 = s.previous2_slice
get_slices s rho_ions = s.rho_ions_slice

abbrev pub set_slices : {M : Type 0} → Slices M → WhichSlice → M → Slices M
set_slices s next m = record s { next_slice = m }
set_slices s this m = record s { this_slice = m }
set_slices s previous1 m = record s { previous1_slice = m }
set_slices s previous2 m = record s { previous2_slice = m }
set_slices s rho_ions m = record s { rho_ions_slice = m }

module _ {R M F : Type 0} (ops : MultiFabs R M F) where
  -- Fields::getField: the component with a name.
  abbrev pub get_field : Slices M → WhichSlice → Name → F
  get_field s slice f = ops.component (get_slices s slice) (comps slice f)

  -- The body of the loop of Fields::ShiftSlices: three copies.
  unfoldable pub shift_level : Slices M → Slices M
  shift_level s =
      let first : Slices M = record s {
        previous2_slice =
            ops.copy s.previous2_slice s.previous1_slice (comps previous1 bx) (comps previous2 bx)
              2;
      } in
      let second : Slices M = record first {
        previous1_slice =
            ops.copy first.previous1_slice first.this_slice (comps this ez) (comps previous1 ez) 8;
      } in
      record second {
        previous1_slice =
            ops.copy second.previous1_slice second.this_slice (comps this rho) (comps previous1 rho)
              2;
      }

  -- Whether a level has the slice: the coarse grid's position of it, against the patch.
  abbrev pub in_patch : ⦃real : Real R⦄ → (lev islice : ℕ) → (dz problo lo hi : R) → Bool
  in_patch ⦃real⦄ lev islice dz problo lo hi =
      let half = real.div (real.of_int 1) (real.of_int 2) in
      let pos = real.add (real.mul (real.add (real.of_int islice) half) dz) problo in
      not (lev == 1) || not (real.lt pos lo || real.lt hi pos)

  -- Fields::ShiftSlices, over the levels from `lev` on.
  unfoldable pub shift_slices :
      ⦃real : Real R⦄ → (lev islice : ℕ) → (dz problo lo hi : R) → List (Slices M) → List (Slices M)
  unfolding shift_level
  shift_slices lev islice dz problo lo hi [] = []
  shift_slices lev islice dz problo lo hi (s ∷ levels) =
      (if in_patch lev islice dz problo lo hi then shift_level s else s)
      ∷ shift_slices (lev + 1) islice dz problo lo hi levels

  -- One call of MultiFab::Add of Fields::AddBeamCurrents.
  abbrev pub add_component : WhichSlice → Name → Name → M → M
  add_component slice src dst m = ops.add m m (comps slice src) (comps slice dst) 1

  -- Fields::AddBeamCurrents.
  unfoldable pub add_beam_currents : WhichSlice → Slices M → Slices M
  add_beam_currents slice s =
      let x = add_component slice jx_beam jx (get_slices s slice) in
      let y = add_component slice jy_beam jy x in
      let z = add_component slice jz_beam jz y in
      set_slices s slice (elim slice [ this ↦ z | _ ↦ y ])

-- The places of SetDirichletBoundaries: the cell that a thread (i, j) corrects, with the side of it
-- that the guard cell lies on.
pub record Edge : Type 0 where
  pub i_idx : ℕ
  pub j_idx : ℕ
  pub i_lo_edge : Bool
  pub i_hi_edge : Bool
  pub j_lo_edge : Bool
  pub j_hi_edge : Bool

abbrev pub to_int : Bool → ℕ
to_int true = 1
to_int false = 0

-- A box of `len0` by `len1` cells from (`lo0`, `lo1`) on.
unfoldable pub edge_of : (len0 len1 lo0 lo1 i j : ℕ) → Edge
edge_of len0 len1 lo0 lo1 i j =
    let i_is_changing = ltb i len0 in
    let i_lo_edge = not i_is_changing && (j == 0) in
    let i_hi_edge = not i_is_changing && not (j == 0) in
    let j_lo_edge = i_is_changing && (j == 0) in
    let j_hi_edge = i_is_changing && not (j == 0) in
    record {
      i_idx = lo0 + to_int i_hi_edge * (len0 - 1) + to_int i_is_changing * i;
      j_idx = lo1 + to_int j_hi_edge * (len1 - 1) + to_int (not i_is_changing) * (i - len0);
      i_lo_edge = i_lo_edge;
      i_hi_edge = i_hi_edge;
      j_lo_edge = j_lo_edge;
      j_hi_edge = j_hi_edge;
    }
