-- ===== src/Crypto.antt =====
-- src/crypto.cpp: Keccak-256 and hexadecimal text. Words of 64 bits and bytes are numbers.
pub mod Permutation
pub mod Hash
pub mod Reference
pub mod Equivalence
pub mod Sponge
pub mod Digest
pub mod Hex
pub mod HexText
