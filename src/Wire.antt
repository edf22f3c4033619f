-- ===== src/Wire.antt =====
-- The block files of packages/new-blk-parser: what src/blockchain/parser/reader.rs reads, and the
-- bytes (`to_bytes`) that the hashes of src/blockchain/proto are taken of.
pub mod Types
pub mod Read
pub mod Takes
pub mod Exact
pub mod RoundTrip
pub mod Block
pub mod Merkle
pub mod Levels
pub mod Roots
pub mod Whole
pub mod Files
pub mod Keyed
pub mod Streams
pub mod Index
pub mod Varint
pub mod Linked
mod Tests
