-- ===== src/Dst/Loops.antt =====
-- ParallelFor over the rows of each batch.
use hipace.Prelude.{
  ℕ, ◌+◌, ◌≤◌, ◌<◌, ◌≡◌, List, some, gather, range_from, written, written-eq, AgreesAt, All, In,
  All-gather, In-gather, In-range_from, range_from-lt, arith,
}
use hipace.Dst.Kernels.{parallel_for}

-- A kernel that writes to a place of the batch of its own agrees on every place.
module _ {A : Type 0} (first n n_batch : ℕ) (kernel : ℕ → ℕ → List (ℕ × A)) (place : ℕ)
    (value : A) where
  pub parallel_for-eq :
      (i j : ℕ)
      → first ≤ i
      → i < first + n
      → j < n_batch
      → In (place, value) (kernel i j)
      → ((i' j' : ℕ)
          → first ≤ i'
          → i' < first + n
          → j' < n_batch
          → All (AgreesAt place value) (kernel i' j'))
      → written (parallel_for first n n_batch kernel) place ≡ some value
  unfolding parallel_for
  parallel_for-eq i j low high below here agrees =
      written-eq place value (parallel_for first n n_batch kernel)
        (All-gather (AgreesAt place value) (λ j'. gather (λ i'. kernel i' j') (range_from first n))
          (range_from 0 n_batch)
          (λ j' batch.
            All-gather (AgreesAt place value) (λ i'. kernel i' j') (range_from first n)
              (λ i' within.
                agrees i' j' (range_from-lt i' first n within).0 (range_from-lt i' first n within).1
                  (omega (arith, (range_from-lt j' 0 n_batch batch).1)))))
        (In-gather (place, value) (λ j'. gather (λ i'. kernel i' j') (range_from first n)) j
          (range_from 0 n_batch) (In-range_from j 0 n_batch (omega arith) (omega (arith, below)))
          (In-gather (place, value) (λ i'. kernel i' j) i (range_from first n)
            (In-range_from i first n low high) here))
