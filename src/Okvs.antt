-- ===== src/Okvs.antt =====
-- The random-band OKVS: frontend/okvs/rb.
pub mod Bits
pub mod Double
pub mod Params
pub mod Parallel
pub mod Fit
pub mod Rows
pub mod Codec
pub mod Flat
pub mod Tests
