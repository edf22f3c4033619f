-- ===== src/Reorg/Tests.antt =====
-- A block's writes and their undo by src/reorg.rs, at concrete tables.
use wjk_20_indexer.Prelude.{ℕ, refl, none, some, [], ◌∷◌, ite, arith, ℕ_discrete}
use wjk_20_indexer.Tokens.Types.{
  FullHash, OriginalTokenTick, OutPoint, AddressToken, AddressLocation, OutPoint-discrete,
  AddressToken-discrete, AddressLocation-discrete, Location-discrete, Bytes-discrete,
}
use wjk_20_indexer.Db.{Db}
use wjk_20_indexer.Db.Types.{AddressTokenIdDb, deploy_transfer}
use wjk_20_indexer.Reorg.Cache.{
  ReorgCache, new_block, insert_block, empty_block, restore, restore_block,
}
use wjk_20_indexer.Reorg.Data.{spent_prevouts}
use wjk_20_indexer.Store.{multi_get_kv_strict}
use wjk_20_indexer.Reorg.Block.{store_all, block_log, write_all-processed, restore_block-Agrees}
use wjk_20_indexer.Reorg.Writes.{BlockWrites, processed, Fits, Agrees}
use wjk_20_indexer.Reorg.Chain.{Chain, start, block, restore-Agrees}

abbrev wojk : OriginalTokenTick
wojk = 87 ∷ 111 ∷ 106 ∷ 107 ∷ 0 ∷ 0 ∷ 0 ∷ 0 ∷ []

abbrev alice : FullHash
alice = 1 ∷ []

abbrev old_coin : OutPoint
old_coin = record { txid = 7 ∷ []; vout = 0 }

abbrev new_coin : OutPoint
new_coin = record { txid = 8 ∷ []; vout = 1 }

abbrev account : AddressToken
account = record { address = alice; token = wojk }

abbrev parcel : AddressLocation
parcel = record { address = alice; location = record { outpoint = old_coin; offset = 5 } }

abbrev event : AddressTokenIdDb
event = record { address = alice; token = wojk; id = 4 }

-- Alice has a coin with an inscription, a balance and a transfer that waits.
abbrev tables : Db ℕ
tables = record {
  token_to_meta = λ k. none;
  address_location_to_transfer = λ k.
      ite (AddressLocation-discrete k parcel) (some (record { tick = wojk; amt = 2; height = 90 }))
        none;
  address_token_to_balance = λ k.
      ite (AddressToken-discrete k account)
        (some (record { balance = 5; transferable_balance = 2; transfers_count = 1 })) none;
  address_token_to_history = λ k. none;
  block_info = λ k. none;
  prevouts = λ k.
      ite (OutPoint-discrete k old_coin) (some (record { script_hash = alice; value = 1000 })) none;
  outpoint_to_partials = λ k. none;
  outpoint_to_inscription_offsets = λ k. ite (OutPoint-discrete k old_coin) (some (5 ∷ [])) none;
  last_block = some 99;
  last_history_id = some 4;
  proof_of_history = λ k. none;
  block_events = λ k. none;
  fullhash_to_address = λ k. none;
  outpoint_to_event = λ k. none;
  token_id_to_event = λ k. none;
}

-- The block 100 spends the coin, which brings the transfer back to Alice.
abbrev writes : BlockWrites ℕ
writes = record {
  height = 100;
  outputs = (new_coin, record { script_hash = alice; value = 900 }) ∷ [];
  inputs = old_coin ∷ [];
  addresses = [];
  partials_before = [];
  partials_after = [];
  offsets_before = (old_coin, 5 ∷ []) ∷ [];
  offsets_after = (new_coin, 5 ∷ []) ∷ [];
  last_history_id = 5;
  entries = (event, record { height = 100; action = deploy_transfer 2 new_coin.txid 1 }) ∷ [];
  metas = [];
  balances = (account, record { balance = 7; transferable_balance = 0; transfers_count = 0 }) ∷ [];
  transfers_to_write = [];
  transfers_to_remove = parcel ∷ [];
  block_info = record { hash = 3 ∷ []; created = 1700000000 };
  block_proof = 4 ∷ [];
}

writes-Fits : Fits tables writes
unfolding spent_prevouts multi_get_kv_strict OutPoint-discrete AddressLocation-discrete
    Location-discrete Bytes-discrete ℕ_discrete
writes-Fits = record {
  spent = (old_coin, record { script_hash = alice; value = 1000 }) ∷ [];
  inputs_known = refl;
  gone = (parcel, record { tick = wojk; amt = 2; height = 90 }) ∷ [];
  transfers_known = refl;
  outputs_new = λ k c. ground arith;
  partials_known = λ k. refl;
  partials_new = λ k c. cc;
  offsets_known = λ k. ground arith;
  offsets_new = λ k c n. ground arith;
  history_new = λ k c. refl;
  events_new = λ k c. refl;
  ids_new = λ k c. refl;
  transfers_new = λ k c. cc;
  block_new = (refl, refl);
}

restore_block-Agrees_example :
    Agrees tables (
      restore_block 100 (block_log tables writes writes-Fits) (store_all (processed writes) tables))
restore_block-Agrees_example = restore_block-Agrees tables writes writes-Fits

-- The chain of that one block on a cache that holds the log of an older block.
abbrev cache : ReorgCache ℕ
cache = record { blocks = (99, empty_block) ∷ []; len = 30 }

abbrev cache_after : ReorgCache ℕ
cache_after = record {
  blocks = (100, block_log tables writes writes-Fits) ∷ (99, empty_block) ∷ [];
  len = 30;
}

one_block : Chain 99 tables cache 100 (store_all (processed writes) tables) cache_after
unfolding new_block insert_block
one_block =
    block start writes refl writes-Fits
      (write_all-processed tables writes writes-Fits 30 ((99, empty_block) ∷ []))

restore-Agrees_example :
    Agrees tables (restore cache_after (store_all (processed writes) tables) 99).1
restore-Agrees_example =
    restore-Agrees cache (omega arith) 100 (store_all (processed writes) tables) cache_after
      one_block (omega arith)
