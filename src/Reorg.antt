-- ===== src/Reorg.antt =====
-- src/reorg.rs and src/inscriptions/process_data.rs: what a block writes, the undo log that is kept
-- with it, and the undo of a reorganisation.
pub mod Cache
pub mod Data
pub mod Writes
pub mod Block
pub mod Agrees
pub mod Chain
mod Tests
