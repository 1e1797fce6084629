-- ===== src/Ghash.antt =====
-- src/aes_gcm/ghash.rs on x86_64: the field arithmetic and its backend, the key powers, GHASH,
-- POLYVAL, and the stitched loops.
pub mod Backend
pub mod Key
pub mod Hasher
pub mod Polyval
pub mod Bulk
