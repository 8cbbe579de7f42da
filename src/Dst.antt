-- ===== src/Dst.antt =====
-- src/fields/fft_poisson_solver/fft/WrapCuDST.cpp: the discrete sine transform on top of an FFT, by the
-- loops that prepare and unpack its arrays.
mod Kernels
mod Loops
mod Execute
pub mod Transform
pub mod Complex
pub mod Transpose
pub mod Sine
pub mod Expand
pub mod Expanded
pub mod Bounds
unfoldable pub use Kernels.*
unfoldable pub use Execute.*
