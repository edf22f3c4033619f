-- ===== src/Reorg/Data.antt =====
-- `ProcessedData::write` of src/inscriptions/process_data.rs: what a block writes to the tables, and
-- the undo entries that it logs first.
use wjk_20_indexer.Prelude.{
  ℕ, Option, none, some, List, [], ◌∷◌, Outcome, ok, panic, ◌>>=◌, ℕ_discrete, Bytes, leb,
  if◌then◌else◌,
}
use wjk_20_indexer.Store.{Table, set, extend, remove_batch, multi_get_kv, multi_get_kv_strict}
use wjk_20_indexer.Store.Laws.{keys, written, is_none, filter_keys, or_else}
use wjk_20_indexer.Tokens.Types.{
  FullHash, LowerCaseTokenTick, OutPoint, AddressToken, AddressLocation, TokenBalance,
  TransferProtoDb, TokenMeta, Bytes-discrete, OutPoint-discrete, AddressToken-discrete,
  AddressLocation-discrete,
}
use wjk_20_indexer.Db.{Db}
use wjk_20_indexer.Db.Types.{
  AddressTokenIdDb, TokenId, HistoryValue, BlockInfo, TxPrevout, Partials,
  AddressTokenIdDb-discrete, TokenId-discrete, outpoint,
}
use wjk_20_indexer.Tokens.Holders.{or_default}
use wjk_20_indexer.Reorg.Cache.{
  balances_before, balances_to_remove, deploys_to_remove, deploys_to_restore, restore_transfers,
  remove_transfers, remove_history, restore_offsets, remove_offsets, restore_prevouts,
  restore_partial, remove_partials, ReorgCache, push_token_entry, push_ordinals_entry,
}

module _ (Amount : Type 0) where
  pub data ProcessedData : Type 0 where
    info : (block_number : ℕ) (block_info : BlockInfo) (block_proof : Bytes) → ProcessedData
    prevouts : (to_write : List (OutPoint × TxPrevout)) (to_remove : List OutPoint) → ProcessedData
    full_hash : (addresses : List (FullHash × Bytes)) → ProcessedData
    history :
        (block_number last_history_id : ℕ) (history : List (AddressTokenIdDb × HistoryValue Amount))
        → ProcessedData
    tokens :
        (metas : List (LowerCaseTokenTick × TokenMeta Amount))
        (balances : List (AddressToken × TokenBalance Amount))
        (transfers_to_write : List (AddressLocation × TransferProtoDb Amount))
        (transfers_to_remove : List AddressLocation)
        → ProcessedData
    inscription_partials : (to_remove to_write : List (OutPoint × Partials)) → ProcessedData
    inscription_offset : (to_remove to_write : List (OutPoint × List ℕ)) → ProcessedData

-- The ids of a block's events, ordered by their number: `sorted_unstable_by_key`. Insertion sort
-- stands for it, since the ids of one block are distinct.
abbrev pub insert_event : AddressTokenIdDb → List AddressTokenIdDb → List AddressTokenIdDb
insert_event e [] = e ∷ []
insert_event e (f ∷ fs) = if leb e.id f.id then e ∷ f ∷ fs else f ∷ insert_event e fs

abbrev pub sort_events : List AddressTokenIdDb → List AddressTokenIdDb
sort_events [] = []
sort_events (e ∷ es) = insert_event e (sort_events es)

-- `.map(|(v, k)| (*k, v.unwrap_or_else(|| *to_write.get(k).unwrap())))`
unfoldable pub spent_prevouts :
    List OutPoint
    → List (OutPoint × TxPrevout)
    → Table OutPoint TxPrevout
    → Outcome (List (OutPoint × TxPrevout))
spent_prevouts [] to_write t = ok []
spent_prevouts (k ∷ ks) to_write t = elim (or_else (t k) (written OutPoint-discrete k to_write)) [
  | none ↦ panic
  | some v ↦ do rest ← spent_prevouts ks to_write t; ok ((k, v) ∷ rest)
]

-- `filter(|x| !before.contains_key(&x.0))` over the keys that are written.
abbrev pub new_keys : {K V : Type 0} → Discrete K → List K → List (K × V) → List K
new_keys dec ks before = filter_keys (λ k. is_none (written dec k before)) ks

module _ {Amount : Type 0} where
  abbrev pub outpoint_to_event_of :
      List (AddressTokenIdDb × HistoryValue Amount) → List (OutPoint × AddressTokenIdDb)
  outpoint_to_event_of [] = []
  outpoint_to_event_of ((id, v) ∷ es) = (outpoint Amount v.action, id) ∷ outpoint_to_event_of es

  abbrev pub token_id_to_event_of :
      List (AddressTokenIdDb × HistoryValue Amount) → List (TokenId × AddressTokenIdDb)
  token_id_to_event_of [] = []
  token_id_to_event_of ((id, v) ∷ es) =
      (record { token = id.token; id = id.id }, id) ∷ token_id_to_event_of es

  -- The part under `if let Some(reorg_cache)`: the log is read from the tables before the writes.
  unfoldable pub log :
      ProcessedData Amount → Db Amount → ReorgCache Amount → Outcome (ReorgCache Amount)
  unfolding spent_prevouts
  log (info block_number block_info block_proof) db c = ok c
  log (prevouts to_write to_remove) db c = do
    spent ← spent_prevouts to_remove to_write db.prevouts
    push_ordinals_entry (restore_prevouts spent) c
  log (full_hash addresses) db c = ok c
  log (history block_number last_history_id entries) db c =
      push_token_entry
        (remove_history (keys entries) (or_default 0 db.last_history_id)
          (keys (outpoint_to_event_of entries)) block_number (keys (token_id_to_event_of entries)))
        c
  log (tokens metas balances transfers_to_write transfers_to_remove) db c = do
    let deploys = multi_get_kv (keys metas) db.token_to_meta
    c1 ← push_token_entry (deploys_to_remove (new_keys Bytes-discrete (keys metas) deploys)) c
    c2 ← push_token_entry (deploys_to_restore deploys) c1
    let before = multi_get_kv (keys balances) db.address_token_to_balance
    c3 ← push_token_entry (balances_before before) c2
    c4 ←
        push_token_entry
          (balances_to_remove (new_keys AddressToken-discrete (keys balances) before)) c3
    gone ← multi_get_kv_strict transfers_to_remove db.address_location_to_transfer
    c5 ← push_token_entry (restore_transfers gone) c4
    push_token_entry (remove_transfers (keys transfers_to_write)) c5
  log (inscription_partials to_remove to_write) db c = do
    c1 ← push_ordinals_entry (restore_partial to_remove) c
    push_ordinals_entry (remove_partials (keys to_write)) c1
  log (inscription_offset to_remove to_write) db c = do
    c1 ← push_ordinals_entry (restore_offsets to_remove) c
    push_ordinals_entry (remove_offsets (keys to_write)) c1

  -- The writes themselves.
  unfoldable pub store : ProcessedData Amount → Db Amount → Db Amount
  store (info block_number block_info block_proof) db = record db {
    last_block = some block_number;
    block_info = set ℕ_discrete block_number block_info db.block_info;
    proof_of_history = set ℕ_discrete block_number block_proof db.proof_of_history;
  }
  store (prevouts to_write to_remove) db = record db {
    prevouts =
        remove_batch OutPoint-discrete to_remove (extend OutPoint-discrete to_write db.prevouts);
  }
  store (full_hash addresses) db = record db {
    fullhash_to_address = extend Bytes-discrete addresses db.fullhash_to_address;
  }
  store (history block_number last_history_id entries) db = record db {
    token_id_to_event = extend TokenId-discrete (token_id_to_event_of entries) db.token_id_to_event;
    block_events = set ℕ_discrete block_number (sort_events (keys entries)) db.block_events;
    last_history_id = some last_history_id;
    outpoint_to_event =
        extend OutPoint-discrete (outpoint_to_event_of entries) db.outpoint_to_event;
    address_token_to_history = extend AddressTokenIdDb-discrete entries db.address_token_to_history;
  }
  store (tokens metas balances transfers_to_write transfers_to_remove) db = record db {
    token_to_meta = extend Bytes-discrete metas db.token_to_meta;
    address_token_to_balance = extend AddressToken-discrete balances db.address_token_to_balance;
    address_location_to_transfer =
        extend AddressLocation-discrete transfers_to_write (
          remove_batch AddressLocation-discrete transfers_to_remove
            db.address_location_to_transfer);
  }
  store (inscription_partials to_remove to_write) db = record db {
    outpoint_to_partials =
        extend OutPoint-discrete to_write
          (remove_batch OutPoint-discrete (keys to_remove) db.outpoint_to_partials);
  }
  store (inscription_offset to_remove to_write) db = record db {
    outpoint_to_inscription_offsets =
        extend OutPoint-discrete to_write
          (remove_batch OutPoint-discrete (keys to_remove) db.outpoint_to_inscription_offsets);
  }

  -- `ProcessedData::write`, with and without a cache.
  unfoldable pub write :
      ProcessedData Amount
      → Db Amount
      → Option (ReorgCache Amount)
      → Outcome (Db Amount × Option (ReorgCache Amount))
  unfolding log store
  write d db none = ok (store d db, none)
  write d db (some c) = do c' ← log d db c; ok (store d db, some c')

  -- `for data in to_write.processed { data.write(..) }`
  unfoldable pub write_all :
      List (ProcessedData Amount)
      → Db Amount
      → Option (ReorgCache Amount)
      → Outcome (Db Amount × Option (ReorgCache Amount))
  unfolding write
  write_all [] db c = ok (db, c)
  write_all (d ∷ ds) db c = do (db', c') ← write d db c; write_all ds db' c'
