-- ===== src/Fields/Edges.antt =====
-- SetDirichletBoundaries: one thread for each cell next to a side.
use hipace.Prelude.{ℕ, ◌+◌, ◌-◌, ◌<◌, ◌≡◌, ap, true, false, arith}
use hipace.Fields.{Edge, edge_of}

pub data Side : Type 0 where
  low_i high_i low_j high_j : Side

-- How many cells lie next to a side of the box, and the cell number `k` of them.
abbrev pub side_length : (len0 len1 : ℕ) → Side → ℕ
side_length len0 len1 low_i = len1
side_length len0 len1 high_i = len1
side_length len0 len1 low_j = len0
side_length len0 len1 high_j = len0

abbrev pub beside : (len0 len1 lo0 lo1 : ℕ) → Side → ℕ → Edge
beside len0 len1 lo0 lo1 low_i k = record {
  i_idx = lo0;
  j_idx = lo1 + k;
  i_lo_edge = true;
  i_hi_edge = false;
  j_lo_edge = false;
  j_hi_edge = false;
}
beside len0 len1 lo0 lo1 high_i k = record {
  i_idx = lo0 + (len0 - 1);
  j_idx = lo1 + k;
  i_lo_edge = false;
  i_hi_edge = true;
  j_lo_edge = false;
  j_hi_edge = false;
}
beside len0 len1 lo0 lo1 low_j k = record {
  i_idx = lo0 + k;
  j_idx = lo1;
  i_lo_edge = false;
  i_hi_edge = false;
  j_lo_edge = true;
  j_hi_edge = false;
}
beside len0 len1 lo0 lo1 high_j k = record {
  i_idx = lo0 + k;
  j_idx = lo1 + (len1 - 1);
  i_lo_edge = false;
  i_hi_edge = false;
  j_lo_edge = false;
  j_hi_edge = true;
}

-- Of the threads that run, one alone corrects `e`.
pub record IsOnlyThread (len0 len1 lo0 lo1 : ℕ) (e : Edge) : Type 0 where
  pub i : ℕ
  pub j : ℕ
  pub i_lt : i < len0 + len1
  pub j_lt : j < 2
  pub corrects : edge_of len0 len1 lo0 lo1 i j ≡ e
  pub only : (i' j' : ℕ) → j' < 2 → edge_of len0 len1 lo0 lo1 i' j' ≡ e → (i' ≡ i) × (j' ≡ j)

-- The threads of SetDirichletBoundaries correct every cell next to a side of the box for that side
-- once, the corners for both of their sides.
pub edge_of-IsOnlyThread :
    (len0 len1 lo0 lo1 : ℕ) (side : Side) (k : ℕ)
    → k < side_length len0 len1 side
    → IsOnlyThread len0 len1 lo0 lo1 (beside len0 len1 lo0 lo1 side k)
unfolding edge_of
edge_of-IsOnlyThread len0 len1 lo0 lo1 low_i k h = record {
  i = len0 + k;
  j = 0;
  i_lt = omega arith;
  j_lt = omega arith;
  corrects = ground arith;
  only = λ i' j' hj e. (
    ground (arith, ap (λ x. x.j_idx) e, ap (λ x. x.i_lo_edge) e),
    ground (arith, ap (λ x. x.i_lo_edge) e),
  );
}
edge_of-IsOnlyThread len0 len1 lo0 lo1 high_i k h = record {
  i = len0 + k;
  j = 1;
  i_lt = omega arith;
  j_lt = omega arith;
  corrects = ground arith;
  only = λ i' j' hj e. (
    ground (arith, ap (λ x. x.j_idx) e, ap (λ x. x.i_hi_edge) e),
    ground (arith, ap (λ x. x.i_hi_edge) e),
  );
}
edge_of-IsOnlyThread len0 len1 lo0 lo1 low_j k h = record {
  i = k;
  j = 0;
  i_lt = omega arith;
  j_lt = omega arith;
  corrects = ground arith;
  only = λ i' j' hj e. (
    ground (arith, ap (λ x. x.i_idx) e, ap (λ x. x.j_lo_edge) e),
    ground (arith, ap (λ x. x.j_lo_edge) e),
  );
}
edge_of-IsOnlyThread len0 len1 lo0 lo1 high_j k h = record {
  i = k;
  j = 1;
  i_lt = omega arith;
  j_lt = omega arith;
  corrects = ground arith;
  only = λ i' j' hj e. (
    ground (arith, ap (λ x. x.i_idx) e, ap (λ x. x.j_hi_edge) e),
    ground (arith, ap (λ x. x.j_hi_edge) e),
  );
}
