-- ===== src/Lib.antt =====
-- HiPACE++: a quasi-static particle-in-cell code that solves a plasma wake slice by slice, with a
-- longitudinal pipeline of MPI ranks. Each rank runs every n-th time step; within a step it works
-- through the boxes of the domain from head to tail, receives the particles of a box from the rank
-- upstream (Hipace::Wait), solves its slices, and sends the particles on (Hipace::Notify).
--
-- Files, and the code that they model:
--   Prelude       shared names: lists, ranges, results, integers, Boolean tests.
--   Reals         amrex::Real as an interface without laws.
--   Particles     beam particles, and what the code uses of AMReX's arrays: resize, scatterParticles
--                 and packParticleData, as records of documented behaviour.
--   Sort          src/particles/BoxSort.cpp. Sort.Buckets and Sort.Scan follow the counts and the
--                 offsets, Sort.Order the array, Sort.Leftmost the search for the first box.
--   Grid          src/Hipace.cpp: PostProcessBaseGrids, MakeNewLevelFromScratch, DefineSliceGDB.
--   Pipeline      src/Hipace.cpp: Wait (Receive), Notify (Send), NotifyFinish and the destructor
--                 (Finish), on the members of Hipace that they use (State); Packets, Handover and
--                 Delivery put the two sides together, Memory counts the buffers, and Schedule says
--                 which rank runs which step.
--   Evolve        src/Hipace.cpp: Evolve, as the sequence of its calls.
--   Fields        src/fields/Fields.H and Fields.cpp: the component maps, ShiftSlices,
--                 AddBeamCurrents, AddRhoIons, InitialBfieldGuess, MixAndShiftBfields (Mixing) and
--                 the index arithmetic of SetDirichletBoundaries.
--   MultiBeam     src/particles/MultiBeam.cpp: the ghost particles; Hipace::CheckGhostSlice.
--   TimeStep      src/utils/AdaptiveTimeStep.cpp: Calculate.
--   PredictorCorrector  src/Hipace.cpp: PredictorCorrectorLoopToSolveBxBy.
--   SliceSolver   src/Hipace.cpp: SolveOneSlice, as the sequence of its calls.
--   Diagnostics   src/diagnostics/Diagnostic.cpp: the selection of components and beams;
--                 Hipace::WriteDiagnostics: the steps at which it writes.
--   IoUtil        src/utils/IOUtil.cpp: names and shapes for openPMD; IoUtil.Ids: localIDtoGlobal of
--                 IOUtil.H.
--   Dst           src/fields/fft_poisson_solver/fft/WrapCuDST.cpp: the sine transforms. Kernels
--                 has the writes of the threads of ToComplex, ToSine and Transpose, Execute puts them
--                 together around the FFT, which is a parameter; Complex, Sine and Transpose (with
--                 Loops) compare the kernels with their comments, Transform the whole; Expand and
--                 Expanded are about the transform of an expanded array (use_small_dst = 0), Bounds
--                 about the sizes of the arrays of the small one.
--   OpenPmd       src/diagnostics/OpenPMDWriter.cpp: the particles of a box (Species), a call of
--                 WriteDiagnostics (Levels), the chunks that it stores (Chunks), their places over
--                 the boxes of a time step (Rounds, Boxes), and that the calls succeed (Runs, Series).
--   Parser        src/utils/Parser.H: maps and sets (Strings), safeCastToInt (Casts, Bounds), initParser
--                 and the functions that read values (Values, with its branches as equations in
--                 Branches). Meaning says what constants mean, without cache and recursion tracking;
--                 Sound, Complete, Fuel, Stops and Cached compare the two.
--   Samples, Tests      concrete data, and the theorems at concrete inputs.
--
-- State is passed explicitly: a rank is a record (Pipeline.State.Rank) with the members of class
-- Hipace, a call returns the new record with the messages it sent or did not read, and a failure is
-- an Error of Prelude.Results: an assertion, a division by zero, an index out of range or a receive
-- that nothing answers. Indices and counts are natural numbers; where the code subtracts, the
-- difference is not negative. Parallel loops are run in the order of their indices. Counts stay
-- below the bound of the integer types, and floating-point numbers have no laws.
--
-- Fuel: the loop over the steps of a rank gets one round for each step up to the last, and each
-- round adds at least one to the step; the predictor-corrector loop gets as many rounds as it may
-- make iterations, and each adds one to its counter; initParser gets one level of recursion for each
-- constant of the user, since each level adds one of them to the set of recursive symbols.
--
-- Not modelled: the floating-point kernels (pushers, depositions, Poisson solvers), the
-- attributes and unit conversions of the openPMD output, and the setup of levels with mesh refinement beyond the boxes.
pub mod Diagnostics
pub mod Dst
pub mod Evolve
pub mod Fields
pub mod Grid
pub mod IoUtil
pub mod MultiBeam
pub mod OpenPmd
pub mod Parser
pub mod Particles
pub mod Pipeline
pub mod PredictorCorrector
pub mod Prelude
pub mod Reals
pub mod Samples
pub mod SliceSolver
pub mod Sort
pub mod Tests
pub mod TimeStep
