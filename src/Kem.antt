-- ===== src/Kem.antt =====
-- frontend/kem: the codecs of the key encapsulation.
pub mod Kemeleon
pub mod EcKem
pub mod Tests
