-- ===== src/Diagnostics.antt =====
-- src/diagnostics/Diagnostic.cpp: which components and beams are written; and the steps at which
-- Hipace::WriteDiagnostics and OpenPMDWriter::InitDiagnostics do something.
pub mod Selection
use hipace.Prelude.{
  ℕ, ◌%◌, ℤ, pos, negsuc, Bool, true, false, not, ◌&&◌, ◌||◌, List, [], ◌∷◌, map, Result, Error, ok,
  err, ◌>>=◌, if◌then◌else◌, ◌==◌,
}
use hipace.Fields.{
  Name, this, code, comps, comps_map, has_key, n, exm_by, eyp_bx, ez, bx, by, bz, jx, jx_beam, jy,
  jy_beam, jz, jz_beam, rho, psi,
}

-- A word of diagnostic.field_data: "all" or "All", "none" or "None", a key of Comps, or another.
pub data Word : Type 0 where
  all none other : Word
  key : Name → Word

abbrev pub all_field_comps : List Word
all_field_comps = map key (
    exm_by ∷ eyp_bx ∷ ez ∷ bx ∷ by ∷ bz ∷ jx ∷ jx_beam ∷ jy ∷ jy_beam ∷ jz ∷ jz_beam ∷ rho ∷ psi
    ∷ [])

-- `Comps[WhichSlice::This].count(comp_name) == 0 || comp_name == "N"`, denied.
abbrev pub is_known : Name → Bool
is_known f = has_key (comps_map this) f && not (code f == code n)

-- The loop over m_comps_output, which is `words`, from one of its words on.
unfoldable pub select_loop : (words rest : List Word) → Result (List Word)
select_loop words [] = ok words
select_loop words (all ∷ rest) = ok all_field_comps
select_loop words (none ∷ rest) = ok []
select_loop words (other ∷ rest) = err Error.abort
select_loop words (key f ∷ rest) =
    let later = select_loop words rest in if is_known f then later else err Error.abort

-- m_comps_output after the constructor.
unfoldable pub select_components : List Word → Result (List Word)
unfolding select_loop
select_components [] = ok all_field_comps
select_components (w ∷ ws) = select_loop (w ∷ ws) (w ∷ ws)

-- m_comps_output_idx.
unfoldable pub component_indices : List Word → List ℕ
component_indices [] = []
component_indices (key f ∷ ws) = comps this f ∷ component_indices ws
component_indices (w ∷ ws) = 0 ∷ component_indices ws

-- A word of diagnostic.beam_data, with the beams by number.
pub data BeamWord : Type 0 where
  all_beams no_beams : BeamWord
  beam : ℕ → BeamWord

abbrev pub is_beam : List ℕ → ℕ → Bool
is_beam [] b = false
is_beam (c ∷ cs) b = (c == b) || is_beam cs b

unfoldable pub select_beams_loop :
    (all_beam_names : List ℕ) (words rest : List BeamWord) → Result (List BeamWord)
select_beams_loop names words [] = ok words
select_beams_loop names words (all_beams ∷ rest) = ok (map beam names)
select_beams_loop names words (no_beams ∷ rest) = ok []
select_beams_loop names words (beam b ∷ rest) =
    let later = select_beams_loop names words rest in
    if is_beam names b then later else err Error.abort

-- m_output_beam_names after the constructor.
unfoldable pub select_beams : (all_beam_names : List ℕ) → List BeamWord → Result (List BeamWord)
unfolding select_beams_loop
select_beams names [] = ok (map beam names)
select_beams names (w ∷ ws) = select_beams_loop names (w ∷ ws) (w ∷ ws)

-- `a % b` on `int`, for values that are not negative.
abbrev pub int_mod : ℕ → ℕ → Result ℕ
int_mod a b = if b == 0 then err Error.div_by_zero else ok (a % b)

-- Whether Hipace::WriteDiagnostics writes in a step.
unfoldable pub writes_diagnostics : (output_period : ℤ) (max_step output_step : ℕ) → Result Bool
writes_diagnostics (negsuc p) max_step step = ok false
writes_diagnostics (pos p) max_step step =
    if step == max_step then ok true else (do r ← int_mod step p; ok (r == 0))
