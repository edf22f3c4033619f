-- ===== src/Follow.antt =====
-- `Indexer::parse_blocks` of packages/new-blk-parser/src/lib.rs: the loop that follows the best chain of
-- the node and sends its blocks on. What the node answers, and whether the channel still has a
-- receiver, may change from one call to the next: they are functions of the number of calls so far.
pub mod Views
pub mod Turns
pub mod Enough
mod Tests
use wjk_20_indexer.Prelude.{
  ℕ, zero, suc, ◌+◌, ◌-◌, Bool, true, false, Option, none, some, List, [], ◌∷◌, ◌++◌, Bytes, ltb,
  ite, if◌then◌else◌, Outcome, ok, panic, ◌>>=◌,
}
use wjk_20_indexer.Tokens.Types.{Bytes-discrete}
use wjk_20_indexer.Inscriptions.Leaked.{unwrap}
use wjk_20_indexer.Blocks.{BlockId, CheckPoint, insert}
use wjk_20_indexer.Wire.Types.{Hashed, BlockHeader}
use wjk_20_indexer.Wire.Block.{Block}

-- The `i32` of the confirmations
pub data ℤ : Type 0 where
  pos negsuc : ℕ → ℤ

abbrev pub is_negative : ℤ → Bool
is_negative (pos n) = false
is_negative (negsuc n) = true

-- `GetBlockResult`, the fields that are read
pub record GetBlockResult : Type 0 where
  pub confirmations : ℤ
  pub height : ℕ

-- A block that the node does not know, or that is not on its best chain.
abbrev pub is_stale : Option GetBlockResult → Bool
is_stale none = true
is_stale (some v) = is_negative v.confirmations

-- `check_ordering`
unfoldable pub check_ordering : Bytes → Hashed BlockHeader → Outcome Bytes
check_ordering last_sent_hash header =
    ite (Bytes-discrete last_sent_hash header.value.prev_hash) (ok header.hash) panic

module _ (Witness Script : Type 0) where
  -- The calls of `Client`; a call that fails gives nothing.
  pub record Node : Type 0 where
    pub get_best_block_hash : Option Bytes
    pub get_block_info : Bytes → Option GetBlockResult
    pub get_block_hash : ℕ → Option Bytes
    pub get_block : Bytes → Option (Block Witness Script)

  pub record BlockEvent : Type 0 where
    pub id : BlockId
    pub block : Block Witness Script
    pub reorg_len : ℕ
    pub tip : ℕ

  -- What the loop keeps, the events that it has sent, and the number of calls.
  pub record Follower : Type 0 where
    pub checkpoint : CheckPoint
    pub last_hash : Bytes
    pub calls : ℕ
    pub sent : List BlockEvent

  -- A thread that goes on, or that has returned since nobody receives.
  pub data Turn : Type 0 where
    going returned : Follower → Turn

-- What the loop over stale checkpoints ends with
pub record Rolled : Type 0 where
  pub reorg_counter : ℕ
  pub checkpoint : CheckPoint
  pub last_hash : Bytes
  pub calls : ℕ

module _ {Witness Script : Type 0} (node : ℕ → Node Witness Script) (has_receiver : ℕ → Bool)
    (reorg_max_len : ℕ) where
  -- The loop from the checkpoint `cur` before `prev`; `prev().unwrap()` panics at the oldest.
  unfoldable pub roll_back : ℕ → BlockId → List BlockId → Bytes → ℕ → Outcome Rolled
  roll_back reorg_counter cur [] last_hash calls =
      if ltb reorg_max_len reorg_counter
      then panic
      else if is_stale ((node calls).get_block_info cur.hash)
      then panic
      else ok (record {
        reorg_counter = reorg_counter;
        checkpoint = record { block = cur; prev = [] };
        last_hash = last_hash;
        calls = calls + 1;
      })
  roll_back reorg_counter cur (p ∷ ps) last_hash calls =
      let deeper = roll_back (reorg_counter + 1) p ps p.hash (calls + 1) in
      if ltb reorg_max_len reorg_counter
      then panic
      else if is_stale ((node calls).get_block_info cur.hash)
      then deeper
      else ok (record {
        reorg_counter = reorg_counter;
        checkpoint = record { block = cur; prev = p ∷ ps };
        last_hash = last_hash;
        calls = calls + 1;
      })

  -- `send_checked`, `insert` and the rest of the loop
  unfoldable pub send_block :
      BlockEvent Witness Script
      → (Follower Witness Script → Outcome (Turn Witness Script))
      → Follower Witness Script
      → Outcome (Turn Witness Script)
  unfolding check_ordering insert
  send_block event next st = do
    last_hash ← check_ordering st.last_hash event.block.header
    if has_receiver st.calls
        then (insert event.id st.checkpoint >>= λ (cp : CheckPoint).
            next (record st {
              checkpoint = cp;
              last_hash = last_hash;
              sent = st.sent ++ (event ∷ []);
            }))
        else ok (returned (record st { last_hash = last_hash }))

  -- The body of `while checkpoint.height() < best_height`
  unfoldable pub next_block :
      ℕ
      → ℕ
      → (Follower Witness Script → Outcome (Turn Witness Script))
      → Follower Witness Script
      → Outcome (Turn Witness Script)
  unfolding send_block
  next_block best_height reorg_counter next st = do
    let next_height = st.checkpoint.block.height + 1
    next_hash ← unwrap ((node st.calls).get_block_hash next_height)
    block ← unwrap ((node (st.calls + 1)).get_block next_hash)
    let st1 : Follower Witness Script = record st { calls = st.calls + 2 }
    ite (Bytes-discrete block.header.value.prev_hash st.checkpoint.block.hash)
        (send_block
          (record {
            id = record { height = next_height; hash = next_hash };
            block = block;
            reorg_len = reorg_counter;
            tip = best_height;
          })
          next st1)
        (ok (going st1))

  -- The loop, which a turn brings one block nearer to `best_height`.
  unfoldable pub catch_up : ℕ → ℕ → ℕ → Follower Witness Script → Outcome (Turn Witness Script)
  unfolding next_block
  catch_up zero best_height reorg_counter st = ok (going st)
  catch_up (suc fuel) best_height reorg_counter st =
      if ltb st.checkpoint.block.height best_height
      then next_block best_height reorg_counter (catch_up fuel best_height 0) st
      else ok (going st)

  -- After the loop over stale checkpoints
  unfoldable pub go_on :
      Bytes → List (BlockEvent Witness Script) → Rolled → Outcome (Turn Witness Script)
  unfolding catch_up
  go_on best_hash sent r = do
    info ← unwrap ((node r.calls).get_block_info best_hash)
    catch_up (info.height - r.checkpoint.block.height) info.height r.reorg_counter (record {
      checkpoint = r.checkpoint;
      last_hash = r.last_hash;
      calls = r.calls + 1;
      sent = sent;
    })

  -- The body of `while !self.token.is_cancelled()`
  unfoldable pub turn : Follower Witness Script → Outcome (Turn Witness Script)
  unfolding roll_back go_on
  turn st = do
    best_hash ← unwrap (node st.calls).get_best_block_hash
    ite (Bytes-discrete best_hash st.checkpoint.block.hash)
        (ok (going (record st { calls = st.calls + 1 })))
        (roll_back 0 st.checkpoint.block st.checkpoint.prev st.last_hash (st.calls + 1)
          >>= go_on best_hash st.sent)
