-- ===== src/Base/Bits.antt =====
-- Bits of numbers, lowest first, and the native bit operations through them.
mod Step
mod Laws
mod Masks
mod Split
pub use Step.{bit, bit_at, bit-bit_at}
pub use Laws.*
pub use Masks.*
pub use Split.*
