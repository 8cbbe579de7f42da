-- ===== src/Sort/Leftmost.antt =====
-- The loop of BoxSorter::leftmostBoxWithParticles: where it stops.
use hipace.Prelude.{ℕ, ◌≤◌, ◌<◌, ◌≡◌, ◌≢◌, List, get_or}

-- `at` is the first box from `from` on that has particles, or the last box if none has.
pub record IsLeftmost (counts : List ℕ) (from last at : ℕ) : Type 0 where
  pub from_le : from ≤ at
  pub at_le : at ≤ last
  pub empty_before : (b : ℕ) → from ≤ b → b < at → get_or counts b 0 ≡ 0
  pub stops : at < last → get_or counts at 0 ≢ 0
