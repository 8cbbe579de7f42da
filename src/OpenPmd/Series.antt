-- ===== src/OpenPmd/Series.antt =====
-- InitDiagnostics and WriteDiagnostics agree on the levels.
use hipace.Prelude.{
  ℕ, ◌+◌, ◌≤◌, ◌<◌, ◌≡◌, refl, sym, ◌∙◌, ap, subst, ltb, true, Bool-cases, inl, inr, if◌then◌else◌,
  List, [], ◌∷◌, ◌++◌, map, length, length-append, length-map, length-range_from, length-set,
  range_from, get_elem?-some, ℤ, ok, ◌>>=◌, ok-injective, Option, some, none, arith,
}
use hipace.Particles.{Particle}
use hipace.Sort.{read-some}
use hipace.Diagnostics.{writes_diagnostics}
use hipace.OpenPmd.Levels.{
  with_level, Writer, new_series, init_diagnostics, fields, SeriesCall, FieldData, Output,
  written_fields, write_fields_of_level, write_diagnostics,
}

new_series_le : (nlev : ℕ) → nlev ≤ length (new_series nlev)
unfolding new_series
new_series_le nlev = elim (Bool-cases (ltb 1 nlev)) [
  | inl e ↦
      rw e (omega (arith, length-map (range_from 0 nlev) with_level, length-range_from 0 nlev))
  | inr e ↦ rw e (ground arith)
]

-- A writer with a series and an entry for each level.
abbrev HasLevels : Writer → ℕ → Type 0
HasLevels w nlev = (nlev ≤ length w.output_series) × (nlev ≤ length w.last_output_dumped)

HasLevels-init :
    (output_step : ℕ) (output_period : ℤ) (max_step nlev : ℕ) (w opened : Writer)
    → writes_diagnostics output_period max_step output_step ≡ ok true
    → init_diagnostics output_step output_period max_step nlev w ≡ ok opened
    → HasLevels opened nlev
unfolding init_diagnostics
HasLevels-init output_step output_period max_step nlev w opened writes done =
    let w' = record w {
      output_series = w.output_series ++ new_series nlev;
      last_output_dumped = w.last_output_dumped ++ map (λ f. none) (new_series nlev);
    } in
    let same : w' ≡ opened =
      ok-injective (sym (ap (λ m. m >>= λ b. ok (if b then w' else w)) writes) ∙ done) in
    subst (λ t. HasLevels t nlev) same
      (
        omega (arith, length-append w.output_series (new_series nlev), new_series_le nlev),
        omega (
          arith,
          length-append w.last_output_dumped (map (λ f. none) (new_series nlev)),
          length-map {B = Option ℕ} (new_series nlev) (λ f. none),
          new_series_le nlev,
        ),
      )

module _ {R : Type 0} (cpu : Particle R → ℤ) (out : Output R) where
  write_level_runs :
      (lev nlev : ℕ) (field : FieldData) (w : Writer)
      → lev < nlev
      → HasLevels w nlev
      → (next : Writer × List (SeriesCall R)) × (write_fields_of_level cpu out lev field w
          ≡ ok next)
        × HasLevels next.0 nlev
  unfolding write_fields_of_level written_fields
  write_level_runs lev nlev field w h has = elim (Bool-cases field.write_fields_of) [
    | inr e ↦ ((w, []), rw e refl, has)
    | inl e ↦
        let (last, there) = get_elem?-some w.last_output_dumped lev (omega (arith, h, has.1)) in
        (
          written_fields cpu out lev field w last,
          rw e (
              ap (λ m. m >>= λ l. ok (written_fields cpu out lev field w l))
                (read-some w.last_output_dumped lev there)),
          (has.0, omega (arith, has.1, length-set w.last_output_dumped lev (some out.output_step))),
        )
  ]

  write_levels_run :
      (levels : List FieldData) (lev nlev : ℕ) (w : Writer)
      → lev + length levels ≤ nlev
      → HasLevels w nlev
      → (next : Writer × List (SeriesCall R)) × (write_diagnostics cpu out fields lev levels w
          ≡ ok next)
  unfolding write_diagnostics
  write_levels_run [] lev nlev w h has = ((w, []), refl)
  write_levels_run (field ∷ levels) lev nlev w h has =
      let (file, there) = get_elem?-some w.output_series lev (omega (arith, h, has.0)) in
      let (next, run, still) = write_level_runs lev nlev field w (omega (arith, h)) has in
      let (last, runs) = write_levels_run levels (lev + 1) nlev next.0 (omega (arith, h)) still in
      (
        (last.0, next.1 ++ last.1),
        ap
              (λ m. m >>= λ f. write_fields_of_level cpu out lev field w >>= λ n.
                write_diagnostics cpu out fields (lev + 1) levels n.0 >>= λ l. ok (l.0, n.1 ++ l.1))
              (read-some w.output_series lev there)
            ∙ ap
                (λ m. m >>= λ n. write_diagnostics cpu out fields (lev + 1) levels n.0 >>= λ l.
                  ok (l.0, n.1 ++ l.1))
                run
            ∙ ap (λ m. m >>= λ l. ok (l.0, next.1 ++ l.1)) runs,
      )

  -- In a step in which diagnostics are written, WriteDiagnostics finds a series for each of the levels that
  -- InitDiagnostics has been called for in the same step, whatever was open before: it writes the fields
  -- without an error.
  pub init_diagnostics-write_diagnostics :
      (output_step : ℕ) (output_period : ℤ) (max_step nlev : ℕ) (w opened : Writer)
      (levels : List FieldData)
      → writes_diagnostics output_period max_step output_step ≡ ok true
      → init_diagnostics output_step output_period max_step nlev w ≡ ok opened
      → length levels ≤ nlev
      → (next : Writer × List (SeriesCall R)) × (write_diagnostics cpu out fields 0 levels opened
          ≡ ok next)
  init_diagnostics-write_diagnostics output_step output_period max_step nlev w opened levels writes
        done h =
      write_levels_run levels 0 nlev opened (omega (arith, h))
        (HasLevels-init output_step output_period max_step nlev w opened writes done)
