-- ===== src/Psi.antt =====
-- frontend/pqpsi: the two parties of the protocol and what they share.
pub mod Workers
pub mod Count
pub mod Net
pub mod Rows
pub mod KemRows
pub mod EcRows
pub mod Protocol
mod Tests
mod KemTests
mod EcTests
mod PermTests
mod RunTests
