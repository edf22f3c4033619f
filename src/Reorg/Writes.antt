-- ===== src/Reorg/Writes.antt =====
-- A block's writes, in the order in which `InscriptionIndexer::handle_block` of
-- src/inscriptions/indexer.rs queues them, and what they find in the tables. These are the writes of
-- a block of more than one transaction from the start height on; a block of one transaction has the
-- outputs, the addresses and the block's info only, one below the start height lacks the info too.
use wjk_20_indexer.Prelude.{
  ℕ, ◌≡◌, true, false, none, some, List, [], ◌∷◌, ok, Bytes, if◌then◌else◌,
}
use wjk_20_indexer.Store.{multi_get_kv_strict}
use wjk_20_indexer.Store.Laws.{keys, written, contains}
use wjk_20_indexer.Tokens.Types.{
  FullHash, LowerCaseTokenTick, OutPoint, AddressToken, AddressLocation, TokenBalance,
  TransferProtoDb, TokenMeta, OutPoint-discrete, AddressLocation-discrete,
}
use wjk_20_indexer.Tokens.Holders.{or_default}
use wjk_20_indexer.Db.{Db}
use wjk_20_indexer.Db.Types.{
  AddressTokenIdDb, TokenId, HistoryValue, BlockInfo, TxPrevout, Partials,
  AddressTokenIdDb-discrete, TokenId-discrete,
}
use wjk_20_indexer.Reorg.Data.{
  ProcessedData, spent_prevouts, outpoint_to_event_of, token_id_to_event_of,
}

module _ (Amount : Type 0) where
  pub record BlockWrites : Type 0 where
    pub height : ℕ
    pub outputs : List (OutPoint × TxPrevout)
    pub inputs : List OutPoint
    pub addresses : List (FullHash × Bytes)
    pub partials_before : List (OutPoint × Partials)
    pub partials_after : List (OutPoint × Partials)
    pub offsets_before : List (OutPoint × List ℕ)
    pub offsets_after : List (OutPoint × List ℕ)
    pub last_history_id : ℕ
    pub entries : List (AddressTokenIdDb × HistoryValue Amount)
    pub metas : List (LowerCaseTokenTick × TokenMeta Amount)
    pub balances : List (AddressToken × TokenBalance Amount)
    pub transfers_to_write : List (AddressLocation × TransferProtoDb Amount)
    pub transfers_to_remove : List AddressLocation
    pub block_info : BlockInfo
    pub block_proof : Bytes

module _ {Amount : Type 0} where
  unfoldable pub processed : BlockWrites Amount → List (ProcessedData Amount)
  processed w =
      ProcessedData.prevouts w.outputs w.inputs
      ∷ ProcessedData.full_hash w.addresses
      ∷ ProcessedData.inscription_partials w.partials_before w.partials_after
      ∷ ProcessedData.inscription_offset w.offsets_before w.offsets_after
      ∷ ProcessedData.history w.height w.last_history_id w.entries
      ∷ ProcessedData.tokens w.metas w.balances w.transfers_to_write w.transfers_to_remove
      ∷ ProcessedData.info w.height w.block_info w.block_proof
      ∷ []

  -- What a block finds in the tables: its own keys are new, what it removes is there as it was
  -- read, and every output that it spends is known.
  pub record Fits (db : Db Amount) (w : BlockWrites Amount) : Type 0 where
    pub spent : List (OutPoint × TxPrevout)
    pub inputs_known : spent_prevouts w.inputs w.outputs db.prevouts ≡ ok spent
    pub gone : List (AddressLocation × TransferProtoDb Amount)
    pub transfers_known :
        multi_get_kv_strict w.transfers_to_remove db.address_location_to_transfer ≡ ok gone
    pub outputs_new :
        (k : OutPoint) → contains OutPoint-discrete k (keys w.outputs) ≡ true → db.prevouts k ≡ none
    pub partials_known :
        (k : OutPoint)
        → written OutPoint-discrete k w.partials_before ≡ (
            if contains OutPoint-discrete k (keys w.partials_before)
            then db.outpoint_to_partials k
            else none)
    pub partials_new :
        (k : OutPoint)
        → contains OutPoint-discrete k (keys w.partials_after) ≡ true
        → contains OutPoint-discrete k (keys w.partials_before) ≡ false
        → db.outpoint_to_partials k ≡ none
    pub offsets_known :
        (k : OutPoint)
        → written OutPoint-discrete k w.offsets_before ≡ (
            if contains OutPoint-discrete k (keys w.offsets_before)
            then db.outpoint_to_inscription_offsets k
            else none)
    pub offsets_new :
        (k : OutPoint)
        → contains OutPoint-discrete k (keys w.offsets_after) ≡ true
        → contains OutPoint-discrete k (keys w.offsets_before) ≡ false
        → db.outpoint_to_inscription_offsets k ≡ none
    pub history_new :
        (k : AddressTokenIdDb)
        → contains AddressTokenIdDb-discrete k (keys w.entries) ≡ true
        → db.address_token_to_history k ≡ none
    pub events_new :
        (k : OutPoint)
        → contains OutPoint-discrete k (keys (outpoint_to_event_of w.entries)) ≡ true
        → db.outpoint_to_event k ≡ none
    pub ids_new :
        (k : TokenId)
        → contains TokenId-discrete k (keys (token_id_to_event_of w.entries)) ≡ true
        → db.token_id_to_event k ≡ none
    pub transfers_new :
        (k : AddressLocation)
        → contains AddressLocation-discrete k (keys w.transfers_to_write) ≡ true
        → contains AddressLocation-discrete k w.transfers_to_remove ≡ false
        → db.address_location_to_transfer k ≡ none
    pub block_new : (db.block_info w.height ≡ none) × (db.block_events w.height ≡ none)

  -- `db'` has what `db` has: the same token state, history and inscriptions, the same blocks, and
  -- every spendable output of `db` with its value.
  pub record Agrees (db db' : Db Amount) : Type 0 where
    pub metas : db'.token_to_meta ≡ db.token_to_meta
    pub transfers : db'.address_location_to_transfer ≡ db.address_location_to_transfer
    pub balances : db'.address_token_to_balance ≡ db.address_token_to_balance
    pub history : db'.address_token_to_history ≡ db.address_token_to_history
    pub partials : db'.outpoint_to_partials ≡ db.outpoint_to_partials
    pub offsets : db'.outpoint_to_inscription_offsets ≡ db.outpoint_to_inscription_offsets
    pub blocks : db'.block_info ≡ db.block_info
    pub block_events : db'.block_events ≡ db.block_events
    pub events : db'.outpoint_to_event ≡ db.outpoint_to_event
    pub ids : db'.token_id_to_event ≡ db.token_id_to_event
    pub next_id : or_default 0 db'.last_history_id ≡ or_default 0 db.last_history_id
    pub prevouts : (k : OutPoint) (v : TxPrevout) → db.prevouts k ≡ some v → db'.prevouts k ≡ some v
