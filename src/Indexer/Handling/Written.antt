-- ===== src/Indexer/Handling/Written.antt =====
-- What `handle_block` of src/inscriptions/indexer.rs writes for a block with token transactions.
use wjk_20_indexer.Prelude.{ℕ, ◌≡◌, none, if◌then◌else◌, map, List, [], ◌∷◌, Bytes, Map, ok}
use wjk_20_indexer.Tokens.Platform.{Platform}
use wjk_20_indexer.Tokens.Types.{OutPoint, OutPoint-discrete, HistoryTokenAction, TokenCache}
use wjk_20_indexer.Tokens.Holders.{Holders, or_default}
use wjk_20_indexer.Tokens.Process.{process_token_actions}
use wjk_20_indexer.Tokens.Process.Invariant.{IsValid}
use wjk_20_indexer.Tokens.Loading.{load_tokens_data}
use wjk_20_indexer.Db.{Db}
use wjk_20_indexer.Db.Types.{TxPrevout}
use wjk_20_indexer.Inscriptions.Types.{Tx}
use wjk_20_indexer.Parser.Blocks.{parse_block, keys_of}
use wjk_20_indexer.Parser.Spent.{created_prevouts, spent_keys, unique}
use wjk_20_indexer.Reorg.Data.{ProcessedData, spent_prevouts}
use wjk_20_indexer.Reorg.Writes.{BlockWrites, processed}
use wjk_20_indexer.Store.{multi_get_kv}
use wjk_20_indexer.Store.Laws.{keys, contains, written as last_written}
use wjk_20_indexer.Indexer.{history_of}
use wjk_20_indexer.Indexer.Numbers.{Numbered}
use wjk_20_indexer.Indexer.Handling.{DataToWrite, Host, load, block_addresses, address_locations}

module _ (p : Platform) (h : Host p) where
  open p use {Amount}
  open h use {context, is_provably_unspendable, start_height}

  -- What is written for a block of these transactions: the outputs that it creates and spends, the
  -- addresses, what the parser leaves of the partials and offsets, the history, the tokens and accounts
  -- after the processing, the transfers that are then valid for those that were loaded, and the block.
  -- The parts of `Fits` that are about what is read of the tables hold.
  pub record BlockWritten (height timestamp : ℕ) (hash : Bytes) (txs : List Tx) (db : Db Amount)
      (holders : Holders Amount) (prevouts : Map OutPoint TxPrevout)
      (r : DataToWrite Amount × Holders Amount) : Type 0 where
    pub w : BlockWrites Amount
    pub laid : r.0.processed ≡ processed w
    pub at_height : w.height ≡ height
    pub block_info : w.block_info ≡ record { hash = hash; created = timestamp }
    pub outputs : w.outputs ≡ created_prevouts is_provably_unspendable context.sha256 txs []
    pub inputs : w.inputs ≡ unique (spent_keys txs)
    pub addresses : w.addresses ≡ block_addresses p h txs []
    pub parsed : TokenCache Amount
    pub parsing :
        parse_block p context height
          (record { timestamp = timestamp; txs = txs })
          prevouts
          db
          (load p h prevouts db)
        ≡ ok (
          parsed,
          ProcessedData.inscription_partials w.partials_before w.partials_after
              ∷ ProcessedData.inscription_offset w.offsets_before w.offsets_after
              ∷ [],
        )
    pub cache : TokenCache Amount
    pub actions : List (HistoryTokenAction Amount)
    pub processing :
        process_token_actions p (load_tokens_data p db parsed) holders ≡ ok (cache, r.1, actions)
    pub valid : IsValid p 0 cache
    pub metas : w.metas ≡ cache.tokens
    pub balances : w.balances ≡ cache.token_accounts
    pub written : w.transfers_to_write ≡ address_locations p h cache.valid_transfers
    pub removed :
        w.transfers_to_remove
        ≡ map (λ e. e.0) (address_locations p h (load p h prevouts db).valid_transfers)
    pub entries : w.entries ≡ r.0.history
    pub numbering :
        history_of height actions (or_default 0 db.last_history_id)
        ≡ ok (w.entries, w.last_history_id)
    pub numbered : Numbered (or_default 0 db.last_history_id) w.last_history_id w.entries
    pub partials_before :
        w.partials_before ≡ multi_get_kv (keys_of p context prevouts) db.outpoint_to_partials
    pub offsets_before :
        w.offsets_before
        ≡ multi_get_kv (keys_of p context prevouts) db.outpoint_to_inscription_offsets
    pub inputs_known :
        (found : List (OutPoint × TxPrevout)) × (spent_prevouts w.inputs w.outputs db.prevouts
          ≡ ok found)
    pub partials_known :
        (k : OutPoint)
        → last_written OutPoint-discrete k w.partials_before ≡ (
            if contains OutPoint-discrete k (keys w.partials_before)
            then db.outpoint_to_partials k
            else none)
    pub offsets_known :
        (k : OutPoint)
        → last_written OutPoint-discrete k w.offsets_before ≡ (
            if contains OutPoint-discrete k (keys w.offsets_before)
            then db.outpoint_to_inscription_offsets k
            else none)
