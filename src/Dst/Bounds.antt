-- ===== src/Dst/Bounds.antt =====
-- The sizes of the arrays of the small transform: the kernels stay inside them.
use hipace.Prelude.{ℕ, ◌+◌, ◌*◌, ◌≤◌, ◌<◌, ◌≡◌, All}
use hipace.Reals.{Real, Signed}
use hipace.Dst.Kernels.{to_complex, to_sine}

-- `index - back` is a row of a matrix of `n` rows; it is not below 0.
abbrev IsRow : (n index back : ℕ) → Type 0
IsRow n index back = (back ≤ index) × (index < n + back)

module _ {R : Type 0} ⦃real : Real R⦄ (signed : Signed R) (sinpi : (i n_1 : ℕ) → R) where
  -- One of the two passes: ToComplex and ToSine write to elements of their arrays, and what they write
  -- does not depend on anything outside the arrays that they read, neither behind them nor (for
  -- ToComplex, which counts back from an index) in front of them.
  abbrev pub StaysInside :
      (complex_size n_data n_batch : ℕ) (before before' f g u v : ℕ → R) → Type 0
  StaysInside complex_size n_data n_batch before before' f g u v =
      All (λ write. write.0 < complex_size) (to_complex signed before f n_data n_batch)
      × (to_complex signed before f n_data n_batch ≡ to_complex signed before' g n_data n_batch)
      × All (λ write. write.0 < n_data * n_batch) (to_sine signed sinpi u n_data n_batch)
      × (to_sine signed sinpi u n_data n_batch ≡ to_sine signed sinpi v n_data n_batch)
