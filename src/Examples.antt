-- ===== src/Examples.antt =====
-- Concrete runs of the theorems.
mod Fixtures
mod Messages
mod Nonces
mod Siv
mod Random
mod Field
