-- ===== src/Parser.antt =====
-- src/utils/Parser.H: expressions of the input file, evaluated with the constants that the user and
-- the program define. amrex::Parser and amrex::ParmParse are parameters.
mod Strings
mod Casts
mod Outcomes
pub mod Bounds
mod Values
mod Branches
pub mod Meaning
pub mod Sound
pub mod Complete
pub mod Fuel
pub mod Stops
pub mod Cached
unfoldable pub use Strings.*
unfoldable pub use Casts.*
unfoldable pub use Outcomes.*
unfoldable pub use Values.*
