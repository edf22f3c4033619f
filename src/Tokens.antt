-- ===== src/Tokens.antt =====
-- The token protocol of src/tokens: its data, the cache of one block, and how it is processed.
pub mod Platform
pub mod Types
pub mod Holders
pub mod Cache
pub mod Minting
pub mod Reserving
pub mod Moving
pub mod Process
pub mod Parsing
pub mod Tests
pub mod Loading
