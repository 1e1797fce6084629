-- ===== src/Gcm.antt =====
-- src/aes_gcm/mod.rs: AES-256-GCM over the AES and GHASH backends.
pub mod Counter
pub mod Error
pub mod Keystream
pub mod Seal
pub mod Crates
pub mod KeyState
pub mod Nonce
pub mod Handle
pub mod Wipe
