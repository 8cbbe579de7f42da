-- ===== src/Fields/Mixing.antt =====
-- Fields::InitialBfieldGuess, MixAndShiftBfields and AddRhoIons.
use hipace.Prelude.{ℕ, ◌≡◌, ◌≢◌, ap, ◌∙◌, Bool, ◌||◌, not, if◌then◌else◌}
use hipace.Reals.{Real}
use hipace.Fields.{this, previous1, previous2, rho_ions, bx, by, rho, comps, Slices}

-- What these use of amrex::MultiFab: LinComb of one component, Copy of the only component of an
-- array, and Add and Subtract of one component.
pub record Combinations (R M F : Type 0) : Type 0 where
  pub component : M → ℕ → F
  pub combine : R → F → R → F → F
  pub subtract_field : F → F → F
  pub add_field : F → F → F
  -- The new destination, for `dst a x xcomp b y ycomp dstcomp`.
  pub lin_comb : M → R → M → ℕ → R → M → ℕ → ℕ → M
  pub copy_one : (dst src : M) → M
  pub add_one : (dst src : M) → (srccomp dstcomp : ℕ) → M
  pub subtract_one : (dst src : M) → (srccomp dstcomp : ℕ) → M
  pub component-lin_comb_in :
      (dst x y : M) (a b : R) (xcomp ycomp dstcomp : ℕ)
      → component (lin_comb dst a x xcomp b y ycomp dstcomp) dstcomp
        ≡ combine a (component x xcomp) b (component y ycomp)
  pub component-lin_comb_out :
      (dst x y : M) (a b : R) (xcomp ycomp dstcomp c : ℕ)
      → c ≢ dstcomp
      → component (lin_comb dst a x xcomp b y ycomp dstcomp) c ≡ component dst c
  pub component-copy_one : (dst src : M) → component (copy_one dst src) 0 ≡ component src 0

module _ {R M F : Type 0} (ops : Combinations R M F) where
  -- AddRhoIons.
  unfoldable pub add_rho_ions : (inverse : Bool) → Slices M → Slices M
  add_rho_ions inverse s = record s {
    this_slice =
        if inverse
        then ops.subtract_one s.this_slice s.rho_ions_slice (comps rho_ions rho) (comps this rho)
        else ops.add_one s.this_slice s.rho_ions_slice (comps rho_ions rho) (comps this rho);
  }

  module _ ⦃real : Real R⦄ (exp : R → R) where
    -- One LinComb of InitialBfieldGuess, for Bx or By.
    abbrev pub guess_component : (mix : R) → (c1 c2 c : ℕ) → Slices M → M
    guess_component mix c1 c2 c s =
        ops.lin_comb s.this_slice (real.add (real.of_int 1) mix) s.previous1_slice c1
          (real.sub (real.of_int 0) mix) s.previous2_slice c2 c

    -- InitialBfieldGuess; `-a` is written `0 - a`, and `pow(a, 2)` as `a * a`.
    unfoldable pub initial_b_field_guess :
        (relative_b_field_error tolerance : R) → Slices M → Slices M
    initial_b_field_guess error tolerance s =
        let half = real.div (real.of_int 1) (real.of_int 2) in
        let scaled =
          real.div error (real.mul (real.div (real.of_int 5) (real.of_int 2)) tolerance) in
        let mix = exp (real.mul (real.sub (real.of_int 0) half) (real.mul scaled scaled)) in
        let first = record s {
          this_slice =
              guess_component mix (comps previous1 bx) (comps previous2 bx) (comps this bx) s;
        } in
        record first {
          this_slice =
              guess_component mix (comps previous1 by) (comps previous2 by) (comps this by) first;
        }

  module _ ⦃real : Real R⦄ where
    -- A weight of the mixture from the two errors, with the error that stands in its numerator.
    abbrev pub weight : (error error_prev_iter numerator : R) → R
    weight error error_prev_iter numerator =
        if not (real.eq error (real.of_int 0)) || not (real.eq error_prev_iter (real.of_int 0))
        then real.div numerator (real.add error error_prev_iter)
        else real.div (real.of_int 1) (real.of_int 2)

    -- MixAndShiftBfields: the new B_prev_iter, and the new slice This.
    unfoldable pub mix_and_shift_b_fields :
        (b_iter b_prev_iter : M)
        → (field_comp : ℕ) → (error error_prev_iter mixing_factor : R) → Slices M
        → M × Slices M
    mix_and_shift_b_fields b_iter b_prev_iter field_comp error error_prev_iter mixing_factor s =
        let weight_b_iter = weight error error_prev_iter error_prev_iter in
        let weight_b_prev_iter = weight error error_prev_iter error in
        let mixed =
          ops.lin_comb b_prev_iter weight_b_iter b_iter 0 weight_b_prev_iter b_prev_iter 0 0 in
        (
          ops.copy_one mixed b_iter,
          record s {
            this_slice =
                ops.lin_comb s.this_slice (real.sub (real.of_int 1) mixing_factor) s.this_slice
                  field_comp mixing_factor mixed 0 field_comp;
          },
        )

    -- MixAndShiftBfields mixes the component of the field with the mixture of the iteration and the
    -- iteration before it, leaves the other components of This, and keeps the iteration as the
    -- previous one for the next round.
    mix_and_shift_b_fields_lem :
        (b_iter b_prev_iter : M) (field_comp c : ℕ) (error error_prev_iter mixing_factor : R)
        (s : Slices M)
        → c ≢ field_comp
        → let out =
            mix_and_shift_b_fields b_iter b_prev_iter field_comp error error_prev_iter mixing_factor
              s in
          (ops.component out.0 0 ≡ ops.component b_iter 0)
          × (ops.component out.1.this_slice field_comp
              ≡ ops.combine
                  (real.sub (real.of_int 1) mixing_factor)
                  (ops.component s.this_slice field_comp)
                  mixing_factor
                  (ops.combine
                    (weight error error_prev_iter error_prev_iter)
                    (ops.component b_iter 0)
                    (weight error error_prev_iter error)
                    (ops.component b_prev_iter 0)))
          × (ops.component out.1.this_slice c ≡ ops.component s.this_slice c)
    unfolding mix_and_shift_b_fields
    mix_and_shift_b_fields_lem b_iter b_prev_iter field_comp c error error_prev_iter mixing_factor s
          h =
        let w = weight error error_prev_iter error_prev_iter in
        let w' = weight error error_prev_iter error in
        let mixed = ops.lin_comb b_prev_iter w b_iter 0 w' b_prev_iter 0 0 in
        let keep = real.sub (real.of_int 1) mixing_factor in
        (
          ops.component-copy_one mixed b_iter,
          ops.component-lin_comb_in s.this_slice s.this_slice mixed keep mixing_factor field_comp 0
                field_comp
              ∙ ap (λ t. ops.combine keep (ops.component s.this_slice field_comp) mixing_factor t)
                  (ops.component-lin_comb_in b_prev_iter b_iter b_prev_iter w w' 0 0 0),
          ops.component-lin_comb_out s.this_slice s.this_slice mixed keep mixing_factor field_comp 0
              field_comp c h,
        )
