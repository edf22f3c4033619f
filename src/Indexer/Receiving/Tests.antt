-- ===== src/Indexer/Receiving/Tests.antt =====
-- A block that is received after a reorganisation of one block.
use wjk_20_indexer.Prelude.{◌≡◌, refl, some, [], ◌∷◌, arith}
use wjk_20_indexer.Codec.{value, error}
use wjk_20_indexer.Codec
use wjk_20_indexer.Store.Laws.{keys}
use wjk_20_indexer.Tokens.Tests.{numbers, nobody}
use wjk_20_indexer.Parser.Tests.{tables, pair}
use wjk_20_indexer.Reorg.Cache.{empty_block}
use wjk_20_indexer.Indexer.Handling.{Host}
use wjk_20_indexer.Indexer.Handling.Tests.{host}
use wjk_20_indexer.Indexer.Receiving.{Received, Receiver, restored, receive}
use wjk_20_indexer.Indexer.Receiving.Consecutive.{Consecutive}
use wjk_20_indexer.Indexer.Receiving.Kept.{receive-Consecutive}
use wjk_20_indexer.Prelude.{lookup, insert, remove, ℕ_discrete}
use wjk_20_indexer.Tokens.Types.{OutPoint-discrete, Bytes-discrete}
use wjk_20_indexer.Parser.{is_coinbase}
use wjk_20_indexer.Parser.Spent.{
  created_prevouts, created_outputs, spent_keys, find_spent, process_prevouts,
}
use wjk_20_indexer.Reorg.Cache.{
  restore, restore_blocks, restore_block, proceed_rev, new_block, insert_block, pop_first,
  push_token_entry, push_ordinals_entry,
}
use wjk_20_indexer.Reorg.Data.{write_all, write, log, store, spent_prevouts}
use wjk_20_indexer.Indexer.Handling.{handle, handle_block, block_addresses, cache_for}

abbrev event : Received
event = record { height = 41; hash = 4 ∷ []; block = pair; tip = 42; reorg_len = 1 }

-- Its blocks are before the start height, where only the outputs are written.
abbrev late : Host numbers
late = record host { start_height = 100 }

abbrev receiver : Receiver numbers late
receiver = record {
  prev_height = some 41;
  reorg_cache = record {
    blocks = (41, empty_block) ∷ (40, empty_block) ∷ (39, empty_block) ∷ [];
    len = 30;
  };
  db = tables;
  holders = nobody;
}

abbrev ended : Receiver numbers late
ended = elim (receive numbers late event receiver) [
  | value r ↦ r
  | Codec.panic ↦ receiver
  | error ↦ receiver
]

program : Unit {0}
unfolding receive restored restore restore_blocks restore_block proceed_rev handle handle_block
    block_addresses process_prevouts created_prevouts created_outputs spent_keys find_spent
    is_coinbase cache_for new_block insert_block pop_first write_all write log store
    push_token_entry push_ordinals_entry spent_prevouts lookup insert remove OutPoint-discrete
    Bytes-discrete ℕ_discrete
program = tt

received : receive numbers late event receiver ≡ value ended
unfolding program
received = refl

receive-Consecutive_example : Consecutive (keys ended.reorg_cache.blocks)
receive-Consecutive_example =
    receive-Consecutive numbers late event receiver ended (omega arith)
      (omega arith, refl, (omega arith, refl, (omega arith, tt, tt))) received

-- The stale block of height 41 is gone, and the new one is in its place.
heights : keys ended.reorg_cache.blocks ≡ 41 ∷ 40 ∷ 39 ∷ []
unfolding program
heights = refl
