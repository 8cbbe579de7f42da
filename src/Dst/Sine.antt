-- ===== src/Dst/Sine.antt =====
-- ToSine computes the formula of its comment, for every element.
use hipace.Prelude.{
  ℕ, ◌+◌, ◌-◌, ◌*◌, ◌/◌, ◌≤◌, ◌<◌, ◌≡◌, sym, ap, subst, Bool-cases, inl, inr, [], ◌∷◌, some, ltb,
  written, AgreesAt, All, In, place_unique, arith,
}
use hipace.Reals.{Real, Signed}
use hipace.Dst.Loops.{parallel_for-eq}
use hipace.Dst.Kernels.{to_sine_kernel, to_sine}

-- 0.5 *(in[n_data-idx] - in[idx+1] + (in[n_data-idx] + in[idx+1])/(2*sin((idx+1)*pi/(n_data+1)))), for a
-- column of the input.
unfoldable pub sine_of :
    {R : Type 0} ⦃real : Real R⦄ (signed : Signed R) (sinpi : (i n_1 : ℕ) → R) (n_data : ℕ)
    (column : ℕ → R) (idx : ℕ)
    → R
sine_of ⦃real⦄ signed sinpi n_data column idx = real.mul signed.half (
    real.add (real.sub (column (n_data - idx)) (column (idx + 1))) (
      real.div (real.add (column (n_data - idx)) (column (idx + 1)))
        (real.mul (real.of_int 2) (sinpi (idx + 1) (n_data + 1)))))

module _ {R : Type 0} ⦃real : Real R⦄ (signed : Signed R) (sinpi : (i n_1 : ℕ) → R) (input : ℕ → R)
    (n_data n_batch : ℕ) where
  -- Column `j` of the input, which has one row more than the output.
  abbrev sine_at : (idx j : ℕ) → R
  sine_at idx j = sine_of signed sinpi n_data (λ k. input (k + (n_data + 1) * j)) idx

  module _ (add_comm : (a b : R) → real.add a b ≡ real.add b a) where
    kernel-eq :
        (i j : ℕ)
        → 1 ≤ i
        → i ≤ (n_data + 1) / 2
        → to_sine_kernel signed sinpi input n_data n_batch i j
          ≡ (i - 1 + n_data * j, sine_at (i - 1) j)
            ∷ (n_data + 1 - i - 1 + n_data * j, sine_at (n_data + 1 - i - 1) j)
            ∷ []
    unfolding to_sine_kernel sine_of
    kernel-eq i j low high =
        let a1 : n_data - (i - 1) ≡ n_data + 1 - i = omega (arith, low, high) in
        let a2 : i - 1 + 1 ≡ i = omega (arith, low) in
        let b1 : n_data - (n_data + 1 - i - 1) ≡ i = omega (arith, low, high) in
        let b2 : n_data + 1 - i - 1 + 1 ≡ n_data + 1 - i = omega (arith, low, high) in
        let turned =
          add_comm (input (i + (n_data + 1) * j)) (input (n_data + 1 - i + (n_data + 1) * j)) in
        cc

    kernel_agrees :
        (idx j i' j' : ℕ)
        → idx < n_data
        → 1 ≤ i'
        → i' ≤ (n_data + 1) / 2
        → All
            (AgreesAt (idx + n_data * j) (sine_at idx j))
            (to_sine_kernel signed sinpi input n_data n_batch i' j')
    kernel_agrees idx j i' j' below low high =
        subst (All (AgreesAt (idx + n_data * j) (sine_at idx j))) (sym (kernel-eq i' j' low high)) (
          agrees (i' - 1) (omega (arith, low, high)),
          (agrees (n_data + 1 - i' - 1) (omega (arith, low, high)), tt),
        )
      where
        agrees :
            (row : ℕ)
            → row < n_data
            → AgreesAt (idx + n_data * j) (sine_at idx j) (row + n_data * j', sine_at row j')
        agrees row small same =
            let turned : j' * n_data + row ≡ j * n_data + idx = grind (arith, same) in
            let (column, here) = place_unique n_data j' row j idx small below turned in cc

    -- ToSine computes the formula of its comment: out[idx] is 0.5 * (in[n_data-idx] - in[idx+1] +
    -- (in[n_data-idx] + in[idx+1]) / (2*sin((idx+1)*pi/(n_data+1)))) for each row and each column. This
    -- holds for every number of rows, odd or even, if the addition is commutative.
    pub to_sine-eq :
        (idx j : ℕ)
        → idx < n_data
        → j < n_batch
        → written (to_sine signed sinpi input n_data n_batch) (idx + n_data * j)
          ≡ some (sine_of signed sinpi n_data (λ k. input (k + (n_data + 1) * j)) idx)
    unfolding to_sine
    to_sine-eq idx j below batch = elim (Bool-cases (ltb idx ((n_data + 1) / 2))) [
      | inl first ↦
          let high : idx + 1 ≤ (n_data + 1) / 2 = ground arith in
          let row : idx + 1 - 1 ≡ idx = omega arith in
          parallel_for-eq 1 ((n_data + 1) / 2) n_batch
            (to_sine_kernel signed sinpi input n_data n_batch) (idx + n_data * j) (sine_at idx j)
            (idx + 1) j (omega arith) (omega (arith, high)) batch
            (subst (In (idx + n_data * j, sine_at idx j))
              (sym (kernel-eq (idx + 1) j (omega arith) high))
              (inl (ap (λ t. (t + n_data * j, sine_at t j)) row)))
            (λ i' j' low up _. kernel_agrees idx j i' j' below low (omega (arith, up)))
      | inr second ↦
          let late : (n_data + 1) / 2 ≤ idx = ground arith in
          let low : 1 ≤ n_data - idx = omega (arith, below) in
          let high : n_data - idx ≤ (n_data + 1) / 2 = omega (arith, late) in
          let row : n_data + 1 - (n_data - idx) - 1 ≡ idx = omega (arith, below) in
          parallel_for-eq 1 ((n_data + 1) / 2) n_batch
            (to_sine_kernel signed sinpi input n_data n_batch) (idx + n_data * j) (sine_at idx j)
            (n_data - idx) j low (omega (arith, high)) batch
            (subst (In (idx + n_data * j, sine_at idx j))
              (sym (kernel-eq (n_data - idx) j low high))
              (inr (inl (ap (λ t. (t + n_data * j, sine_at t j)) row))))
            (λ i' j' low' up _. kernel_agrees idx j i' j' below low' (omega (arith, up)))
    ]
