-- ===== src/Lib.antt =====
-- A verification library for PQ-PSI: private set intersection from a key encapsulation, an
-- oblivious key-value store (OKVS) and a permutation of rows.
--
-- The program. A party encodes, for each element of its set, a row of a key encapsulation into an
-- OKVS (frontend/okvs/rb), after a public permutation of the row (frontend/permutation); the other
-- party decodes the rows of its own elements, undoes the permutation and answers. The rows are the
-- keys and ciphertexts of ML-KEM in an encoding without visible structure (frontend/kem).
--
-- The library, and the code that each part models:
--   Base           tests on numbers, lists as arrays, results that may throw, bits of words
--   Okvs.Bits      RBBits of frontend/okvs/rb/types.h and its operations in frontend/okvs/rb/rows.h
--   Okvs.Params    RBParams and RBInfo of types.h; Okvs.Double is what fit.h takes from <cmath>
--   Okvs.Fit       frontend/okvs/rb/fit.h: RBTableSize, RBTableW, RBInfoOf and what they call
--   Okvs.Parallel  frontend/okvs/rb/parallel.h: RBFor as the list of ranges it hands out
--   Okvs.Rows      rows.h: RBHash64, RBMask256, RBRows; a block is a number below 2^128
--   Okvs.Codec     frontend/okvs/rb/codec.h: RBEncode and RBDecode on rows of blocks. `eliminate` and
--                  `forward` are the two loops of the elimination, `back_fill` and `sum_loop` those
--                  of the back fill, `decode_loop` that of RBDecode. Linear and Equation read a row
--                  as an equation over exclusive or; Elim, Forward and Solve follow the loops
--   Okvs.Flat      the overloads of codec.h and rows.h on flat arrays, whose row `i` is the slice from
--                  `i` times the width on, and on single blocks. Slots and Elim follow the
--                  elimination in place, Fill, Solve and Made the loops that fill arrays
--   Perm.Params    frontend/permutation/params.h and checkParams of frontend/permutation/cons.h
--   Perm.Feistel   frontend/permutation/feistel.h; Perm.Bytes holds the rows of bytes
--   Perm.Polyval   frontend/permutation/hctr2.h up to the hash; Perm.Hctr is the rest of that file,
--                  with Rows on rows of the protocol's size
--   Kem.Kemeleon   frontend/kem/obf-mlkem/codec/Kemeleon.cpp: encodeVec, decodeVec, the bytes of
--                  polynomials, keys, with Kem.Kemeleon.Key on their round trip; Kem.Kemeleon.Cipher has
--                  compression and ciphertexts
--   Kem.EcKem      frontend/kem/eckem/raw.h
--   Psi.Workers    frontend/pqpsi/protocols/tools/parallel.h: parallelFor as the ranges it hands out
--   Psi.Count      the counts of hits of tools/mask.h and tools/kem_rows.h, with threads
--   Psi.Net        frontend/pqpsi/protocols/net.h: a buffer over several channels
--   Psi.Rows       tools/base.h and the masks of tools/mask.h; kemRowBlocks of frontend/pqpsi/pqpsi.h.
--                  Memory is on the bytes of a row, Hctr fills the interface of a permutation
--   Psi.KemRows    the ML-KEM rows of tools/kem_rows.h; Opened follows one row from its key to the
--                  test of a hit, Interface fills the protocol's interface of a KEM, Run uses it
--   Psi.EcRows     the EC-KEM rows of tools/kem_rows.h
--   Psi.Protocol   Recv of protocols/recv.cpp as `recv_rows`, `recv_table` and `recv_hits`, Send of
--                  protocols/send.cpp as `send_rows` and `send_table`, and their messages as `psi`.
--                  Stages and Reply say what each stage does with one row, Complete puts them together
--   Okvs.Tests, Okvs.Flat.Tests, Perm.Tests, Kem.Tests, Psi.Tests, Psi.KemTests,
--   Psi.EcTests, Psi.PermTests and Psi.RunTests run the definitions on small inputs
--
-- Conventions. A call that may throw returns a Result, `return false` is `none`. Machine words are
-- natural numbers with the wrap-around written out where the code can reach it. A step that C++
-- leaves undefined, such as a block past a fixed array, is the exception `undefined`. Loops are structural
-- recursion on the number of rounds that the source's bounds give, so no fuel can run out: the
-- elimination has as many rounds as rows, a loop over the bits of a word as many as bits.
--
-- Parameters. AES (encryption and decryption of a block under a key), SHAKE256, the hash byte of
-- libsodium, the sizing, writing and reading of numbers of GMP, the numbers drawn by the samplers, the
-- arithmetic of doubles, and the number of hardware threads. What a theorem relies on is a named
-- hypothesis: `Truncates`, `IsCipher`, `IsDigest`, `IsGmp`, `IsMlKem`, `IsMonocypher`, and
-- `Agrees` of the seeds with which decapsulation does not fail. A double converts to a size below 2^64,
-- `to_size_le`, as larger ones have no defined conversion. The protocol stands on interfaces: `IsKem`
-- of a KEM on rows of blocks and `IsPerm` of a permutation of rows.
--
-- Threads write disjoint rows, so a run with threads is the run over their ranges in order. An
-- exception that a body of parallelFor lets out of a thread ends the process (`terminated`); where the
-- bodies keep their exceptions, the one of the lowest index stands for the earliest. A channel delivers what was sent on it.
--
-- Not modelled: the rounds of the construction over a small permutation and the inverse of Xoodoo,
-- the wrapper of mlkem-native, the set-up of channels and the timing of a run,
-- benchmarks and tests; cryptoTools, volepsi and thirdparty are other projects.
pub mod Base
pub mod Okvs
pub mod Perm
pub mod Kem
pub mod Psi
