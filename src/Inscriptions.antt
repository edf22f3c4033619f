-- ===== src/Inscriptions.antt =====
-- src/inscriptions: the positions of inscriptions in transactions, what leaks to the miner, and the
-- parsers of the scripts.
pub mod Types
pub mod Offsets
pub mod Leaked
pub mod Scripts
pub mod Envelopes
pub mod Parts
mod Tests
