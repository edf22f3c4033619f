-- ===== src/Indexer/Receiving.antt =====
-- The loop of `Indexer::index` of src/inscriptions/mod.rs: what it does with a block that it receives.
pub mod Consecutive
pub mod Kept
mod Tests
use wjk_20_indexer.Prelude.{
  ℕ, ◌+◌, ◌-◌, ◌%◌, ◌^◌, Bool, true, false, not, Option, none, some, List, [], ◌∷◌, Bytes, ltb, leb,
  ◌==◌, if◌then◌else◌,
}
use wjk_20_indexer.Codec.{Decoded, error, value, ◌>>=◌}
use wjk_20_indexer.Tokens.Platform.{Platform}
use wjk_20_indexer.Tokens.Holders.{Holders, or_default}
use wjk_20_indexer.Db.{Db}
use wjk_20_indexer.Parser.{Block}
use wjk_20_indexer.Reorg.Cache.{ReorgHistoryBlock, ReorgCache, reorg_cache_max_len, restore}
use wjk_20_indexer.Indexer.Handling.{DataToWrite, Host, handle}

-- `BlockEvent`, with its `id` as its two fields
pub record Received : Type 0 where
  pub height : ℕ
  pub hash : Bytes
  pub block : Block
  pub tip : ℕ
  pub reorg_len : ℕ

-- `id.height > tip - REORG_CACHE_MAX_LEN`, which wraps.
abbrev pub handle_reorgs : Received → Bool
handle_reorgs e = ltb ((e.tip + 2 ^ 64 - reorg_cache_max_len) % 2 ^ 64) e.height

module _ {Amount : Type 0} where
  -- `last_reorg_height + 1 != id.height as u32`
  abbrev pub is_wrong_tip : List (ℕ × ReorgHistoryBlock Amount) → ℕ → Bool
  is_wrong_tip [] height = false
  is_wrong_tip ((k, b) ∷ bs) height = not ((k + 1) % 2 ^ 32 == height)

  abbrev pub cleared : Bool → ReorgCache Amount → ReorgCache Amount
  cleared true c = c
  cleared false c = record c { blocks = [] }

  abbrev pub restored : ℕ → Option ℕ → ReorgCache Amount → Db Amount → ReorgCache Amount × Db Amount
  unfolding restore
  restored reorg_len prev_height c db =
      if ltb 0 reorg_len
      then restore c db ((or_default 0 prev_height - reorg_len) % 2 ^ 32)
      else (c, db)

module _ (p : Platform) (h : Host p) where
  open p use {Amount}

  -- What the loop keeps, with the tables and the holders of the server.
  pub record Receiver : Type 0 where
    pub prev_height : Option ℕ
    pub reorg_cache : ReorgCache Amount
    pub db : Db Amount
    pub holders : Holders Amount

  unfoldable pub receive : Received → Receiver → Decoded Receiver
  unfolding restored handle
  receive e r = do
    let reorgs = handle_reorgs e
    let after = restored e.reorg_len r.prev_height (cleared reorgs r.reorg_cache) r.db
    (data_, holders, db, c) ←
        (if is_wrong_tip after.0.blocks (e.height % 2 ^ 32)
          then error
          else handle p h (e.height % 2 ^ 32) e.hash e.block reorgs after.1 r.holders after.0)
    value (record {
      prev_height = some e.height;
      reorg_cache = or_default after.0 c;
      db = db;
      holders = holders;
    })
