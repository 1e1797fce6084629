-- ===== src/Random.antt =====
-- src/random: the AES-256-CTR generator of random bytes.
pub mod Error
pub mod Fork
pub mod Backend
pub mod Wipe
pub mod Entropy
pub mod Generator
pub mod Lifecycle
