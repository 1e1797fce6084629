-- ===== src/Siv.antt =====
-- src/aes_gcm/siv.rs: AES-256-GCM-SIV over the AES and POLYVAL backends.
pub mod Message
pub mod KeyState
pub mod Handle
pub mod Keys
pub mod Keystream
pub mod Stream
pub mod RoundTrip
pub mod Authentic
pub mod Total
