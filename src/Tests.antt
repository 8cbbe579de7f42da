-- ===== src/Tests.antt =====
-- The theorems at concrete inputs, and runs of the definitions.
mod Pipeline
mod Domain
mod Solver
mod Expressions
mod Output
mod Transform
