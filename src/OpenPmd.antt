-- ===== src/OpenPmd.antt =====
-- src/diagnostics/OpenPMDWriter.cpp: the output of beams and fields. openPMD's own calls are recorded
-- as data.
mod Species
mod Levels
pub mod Chunks
pub mod Rounds
pub mod Boxes
pub mod Runs
pub mod Series
unfoldable pub use Species.*
unfoldable pub use Levels.*
