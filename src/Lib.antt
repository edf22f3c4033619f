-- ===== src/Lib.antt =====
-- Verification of wjk-20-indexer, an indexer of inscriptions and of the tokens (BEL-20, DRC-20,
-- WJK-20) that they carry, for Dogecoin-like chains.
--
-- For every block the indexer follows the inscriptions that its transactions move or create, reads
-- the scripts of new ones, turns those that are token inscriptions into actions, processes the
-- actions against the accounts of the block, and writes the result to tables of RocksDB, together
-- with a log from which a reorganisation is undone. The parts, and the files that model them:
--
--   Tokens    src/tokens: the structs (Types), the holders of each token (Holders), the cache of a
--             block (Cache), and `TokenCache::process_token_actions` with its four actions: deploy
--             and mint (Minting), transfer (Reserving), transferred (Moving), the loop (Process); and
--             `parse_token_action` (Parsing), over a parameter for the decoding of JSON; what the
--             queued actions need from the tables is loaded by Loading.
--             Amounts are `Fixed128` of an outside package: the type of amounts, its addition and
--             subtraction and what the code relies on of them are the record Tokens/Platform, the
--             lower case of a tick and the hash of the burn address too.
--   Store     packages/rocksdb-wrapper/src/storage.rs: a table as the function from its keys to the
--             values, with the batches; RocksDB itself is outside.
--   Db        src/db: the tables (Db), their structs (Types) and the encodings of keys and values
--             (Codec, with the helpers of Codec.antt). The consensus encoding of outpoints is the
--             record `Consensus`. Chunks of lists are of packages/rocksdb-wrapper/src/item.rs.
--   Reorg     src/reorg.rs (Cache) and src/inscriptions/process_data.rs (Data): the log of the last
--             blocks, the writes of a block, and the way back (Block for one, Chain for several).
--   Inscriptions
--             src/inscriptions: searcher.rs (Offsets), leaked.rs (Leaked), the signature scripts and
--             `from_parts` of structs.rs (Scripts, Parts), envelope.rs and tag.rs (Envelopes).
--   Parser    src/inscriptions/parser.rs and utils.rs: `parse_block` with its loops (Blocks) and
--             `process_prevouts` (Spent). What they take from bellscoin, SHA-256, UTF-8 and JSON are
--             the fields of the record `Context`.
--   Indexer   src/inscriptions/indexer.rs: the history that `handle_block` makes of a block's actions,
--             and `handle_block` and `handle` themselves (Handling), which call the parser, the token
--             ledger and the writes of Reorg. The ranges of a table, the addresses of scripts and the
--             JSON of the history's entries are the record `Host`. The loop of src/inscriptions/mod.rs
--             receives blocks, goes back and hands on (Receiving).
--   Wire      packages/new-blk-parser: the structs of src/blockchain/proto (Types, Block) and their
--             bytes, the decoding of src/blockchain/parser/reader.rs (Read), the Merkle root of
--             src/utils/mod.rs (Merkle, its tree in Levels), the files with their key (Files), and the
--             block index of src/blockchain/parser/index.rs (Index). The witnesses and the room of
--             `Vec::with_capacity` are the record `Outside`; the hash and what a script is evaluated to
--             are `Hashing`.
--   Blocks    packages/new-blk-parser: the checkpoints of src/blockchain/checkpoint.rs and the ranges
--             of src/utils/range.rs.
--   Follow    packages/new-blk-parser/src/lib.rs: the loop of `parse_blocks` that follows the best chain
--             of the node, over a node and a channel that may change from call to call; what a receiver
--             makes of the events (Views).
--
-- Panics are the result `panic` of `Outcome` (Prelude/Panics) or `Decoded` (Codec); `anyhow::Result`
-- is `Decoded` or an `Option`. Integers are the native numbers; `u32` and `u64` wrap where the source
-- adds or subtracts without a check, as its release build does. Hash maps are association lists or
-- lists of keys and values, since no result that is modelled depends on their order; sets of offsets
-- are lists. The events of a block are sorted by insertion, which gives what `sorted_unstable_by_key`
-- gives on distinct numbers.
--
-- Loops run on their data, or on fuel: the decoders of scripts, envelopes, chunks and partials get the
-- length of their input, and every turn takes one element at least; the Merkle root gets one more than
-- the number of its hashes, of which a level leaves fewer, and gives no root out of fuel; the loop that
-- catches up with the chain gets the heights that are missing. The theorems show that it is enough.
--
-- `Fits` of Reorg/Writes says what a block finds in the tables; `Agrees` leaves out what the undo does
-- not restore: outputs that the orphaned block created stay in `prevouts`, and the proofs, the
-- addresses and the number of the last block are not compared.
--
-- Not modelled: the decoding of JSON and of decimals, the server and its REST API, finding the block files
-- and stepping through LevelDB, the forms of addresses, the calls to the node, and the blocks that
-- `parse_blocks` reads from files before it follows the node. The in-memory holders are not part of the
-- undo, here or in the source.
pub mod Prelude
pub mod Tokens
pub mod Codec
pub mod Store
pub mod Db
pub mod Reorg
pub mod Indexer
pub mod Wire
pub mod Parser
pub mod Inscriptions
pub mod Blocks
pub mod Follow
