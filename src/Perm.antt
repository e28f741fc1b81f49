-- ===== src/Perm.antt =====
-- frontend/permutation: the permutations of one protocol row.
pub mod Bytes
pub mod Feistel
pub mod Params
pub mod Polyval
pub mod Hctr
mod Tests
