-- ===== src/Grid.antt =====
-- The domain decomposition of src/Hipace.cpp: PostProcessBaseGrids, MakeNewLevelFromScratch,
-- InSameTransverseCommunicator and DefineSliceGDB. Cell indices and counts are natural numbers.
pub mod Blocks
pub mod Partition
pub mod Ranks
use hipace.Prelude.{
  ℕ, zero, suc, ◌+◌, ◌-◌, ◌*◌, ◌/◌, Bool, true, false, ◌&&◌, List, [], ◌∷◌, ◌++◌, ltb, leb, ◌==◌,
  if◌then◌else◌, Result, Error, ok, err, ◌>>=◌, ◌>>◌, always_assert, int_div, gather, range_from,
  length,
}

-- amrex::IntVect in three dimensions.
pub record IntVect : Type 0 where
  pub x : ℕ
  pub y : ℕ
  pub z : ℕ

abbrev pub vect : ℕ → ℕ → ℕ → IntVect
vect a b c = record { x = a; y = b; z = c }

-- amrex::Box, with both ends included.
pub record Box : Type 0 where
  pub small_end : IntVect
  pub big_end : IntVect

-- The members of Hipace that say how the domain is cut, and where this rank stands.
pub record Procs : Type 0 where
  pub numprocs_x : ℕ
  pub numprocs_y : ℕ
  pub numprocs_z : ℕ
  pub boxes_in_z : ℕ
  pub rank_z : ℕ

-- The box of block (i, j, k).
unfoldable pub block : IntVect → ℕ → ℕ → ℕ → Box
block s i j k = record {
  small_end = vect (i * s.x) (j * s.y) (k * s.z);
  big_end = vect ((i + 1) * s.x - 1) ((j + 1) * s.y - 1) ((k + 1) * s.z - 1);
}

-- The three nested loops that fill the list of boxes, x innermost.
unfoldable pub row : IntVect → ℕ → ℕ → ℕ → List Box
row s nx j k = gather (λ i. block s i j k ∷ []) (range_from 0 nx)

unfoldable pub plane : IntVect → ℕ → ℕ → ℕ → List Box
plane s nx ny k = gather (λ j. row s nx j k) (range_from 0 ny)

unfoldable pub base_boxes : IntVect → ℕ → ℕ → ℕ → List Box
base_boxes s nx ny nz = gather (plane s nx ny) (range_from 0 nz)

-- The box length in z and the number of boxes in z.
unfoldable pub blocks_in_z : Procs → ℕ → Result (ℕ × ℕ)
blocks_in_z p nz =
    if p.boxes_in_z == 1
    then (do size ← int_div nz p.numprocs_z; count ← int_div nz size; ok (size, count))
    else (do size ← int_div nz p.boxes_in_z; ok (size, p.boxes_in_z))

-- PostProcessBaseGrids: the new `ba0`, for a domain of `n` cells.
unfoldable pub post_process_base_grids : Procs → IntVect → Result (List Box)
unfolding base_boxes blocks_in_z
post_process_base_grids p n = do
  sx ← int_div n.x p.numprocs_x
  sy ← int_div n.y p.numprocs_y
  _ ← int_div n.z p.boxes_in_z
  always_assert (sx * p.numprocs_x == n.x)
  always_assert (sy * p.numprocs_y == n.y)
  (sz, nboxes_z) ← blocks_in_z p n.z
  always_assert (sz * nboxes_z == n.z)
  ok (base_boxes (vect sx sy sz) p.numprocs_x p.numprocs_y nboxes_z)

-- The rank of the box (i, j, k), with one box to a rank transversely and `local_z` in z.
unfoldable pub rank_of : Procs → ℕ → ℕ → ℕ → ℕ → ℕ
rank_of p local_z i j k =
    i / 1 + (j / 1) * p.numprocs_x + (k / local_z) * (p.numprocs_x * p.numprocs_y)

unfoldable pub rank_row : Procs → ℕ → ℕ → ℕ → List ℕ
rank_row p local_z j k = gather (λ i. rank_of p local_z i j k ∷ []) (range_from 0 p.numprocs_x)

unfoldable pub rank_plane : Procs → ℕ → ℕ → List ℕ
rank_plane p local_z k = gather (λ j. rank_row p local_z j k) (range_from 0 p.numprocs_y)

unfoldable pub procmap : Procs → ℕ → ℕ → List ℕ
procmap p local_z nboxes_z = gather (rank_plane p local_z) (range_from 0 nboxes_z)

-- The DistributionMapping that MakeNewLevelFromScratch builds for a BoxArray of `size` boxes. The
-- division `k / nboxes_z_local` fails in the first round of the loops, if there is one.
unfoldable pub make_distribution_mapping : Procs → ℕ → Result (List ℕ)
unfolding procmap
make_distribution_mapping p size = do
  let nboxes_z = if p.boxes_in_z == 1 then p.numprocs_z else p.boxes_in_z
  always_assert (p.numprocs_x * p.numprocs_y * nboxes_z == size)
  local_z ← int_div nboxes_z p.numprocs_z
  if (local_z == 0) && ltb 0 nboxes_z
      then err Error.div_by_zero
      else ok (procmap p local_z nboxes_z)

-- InSameTransverseCommunicator.
unfoldable pub in_same_transverse_communicator : Procs → ℕ → Bool
in_same_transverse_communicator p rank = (rank / (p.numprocs_x * p.numprocs_y)) == p.rank_z

-- `boxes[rank].push_back(box)` on a std::map, whose keys stand in rising order.
unfoldable pub push_back : ℕ → Box → List (ℕ × List Box) → List (ℕ × List Box)
push_back rank b [] = (rank, b ∷ []) ∷ []
push_back rank b ((r, bs) ∷ m) =
    if rank == r
    then (r, bs ++ (b ∷ [])) ∷ m
    else (if ltb rank r then (rank, b ∷ []) ∷ (r, bs) ∷ m else (r, bs) ∷ push_back rank b m)

-- The first loop of DefineSliceGDB.
unfoldable pub local_boxes : Procs → List (Box × ℕ) → List (ℕ × List Box) → List (ℕ × List Box)
local_boxes p [] m = m
local_boxes p ((b, rank) ∷ rest) m =
    local_boxes p rest (if in_same_transverse_communicator p rank then push_back rank b m else m)

-- One round of the loop over idim: compare the extents, and keep the box that is lower in z.
unfoldable pub keep_lower : Box → Box → Box
keep_lower bx b = if ltb b.small_end.z bx.small_end.z then b else bx

-- The loop over j. The second round of the loop over idim compares with the box that the first kept.
unfoldable pub lowest_box : Box → List Box → Result Box
unfolding keep_lower
lowest_box bx [] = ok bx
lowest_box bx (b ∷ rest) = do
  always_assert (b.small_end.x == bx.small_end.x)
  always_assert (b.big_end.x == bx.big_end.x)
  let kept = keep_lower bx b
  always_assert (b.small_end.y == kept.small_end.y)
  always_assert (b.big_end.y == kept.big_end.y)
  lowest_box (keep_lower kept b) rest

-- `bx.setBig(Direction::z, bx.smallEnd(Direction::z))`.
unfoldable pub flatten_z : Box → Box
flatten_z b = record b { big_end = vect b.big_end.x b.big_end.y b.small_end.z }

-- The second loop of DefineSliceGDB: the slice BoxArray with its DistributionMapping.
unfoldable pub slice_boxes : List (ℕ × List Box) → Result (List (Box × ℕ))
slice_boxes [] = ok []
slice_boxes ((rank, []) ∷ m) = err Error.assertion
slice_boxes ((rank, b ∷ bs) ∷ m) = do
  bx ← lowest_box b bs
  rest ← slice_boxes m
  ok ((flatten_z bx, rank) ∷ rest)

-- DefineSliceGDB, without the geometry.
unfoldable pub define_slice_gdb : Procs → List (Box × ℕ) → Result (List (Box × ℕ))
unfolding local_boxes slice_boxes
define_slice_gdb p boxes = slice_boxes (local_boxes p boxes [])
