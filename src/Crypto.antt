-- ===== src/Crypto.antt =====
-- src/crypto: the interface to the AES primitives, the CCC key derivation and the SP0 frame security.
pub mod Provider
pub mod Kdf
pub mod Sp0
