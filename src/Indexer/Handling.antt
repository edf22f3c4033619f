-- ===== src/Indexer/Handling.antt =====
-- `InscriptionIndexer::handle_block` and `handle` of src/inscriptions/indexer.rs, and `TokenCache::load`
-- of src/tokens/parser.rs.
pub mod Reads
pub mod Shapes
pub mod Written
pub mod Returned
pub mod Tests
use wjk_20_indexer.Prelude.{
  ℕ, ◌+◌, ◌-◌, ◌^◌, Bool, true, false, not, Option, none, some, List, [], ◌∷◌, ◌++◌, map, Bytes,
  Map, length, lookup, insert, ltb, ◌==◌, if◌then◌else◌, Outcome, ok,
}
use wjk_20_indexer.Prelude
use wjk_20_indexer.Codec.{Decoded, panic, error, value, ◌>>=◌}
use wjk_20_indexer.Store.{Table, multi_get_kv}
use wjk_20_indexer.Tokens.Platform.{Platform}
use wjk_20_indexer.Tokens.Types.{
  FullHash, OutPoint, Location, AddressLocation, TransferProtoDb, HistoryTokenAction, TokenCache,
  Bytes-discrete, Location-discrete,
}
use wjk_20_indexer.Tokens.Holders.{Holders, or_default}
use wjk_20_indexer.Tokens.Process.{process_token_actions}
use wjk_20_indexer.Tokens.Loading.{load_tokens_data}
use wjk_20_indexer.Db.{Db}
use wjk_20_indexer.Db.Types.{TxPrevout, AddressTokenIdDb, HistoryValue}
use wjk_20_indexer.Inscriptions.Types.{TxOut, Tx}
use wjk_20_indexer.Parser.{Context, Block}
use wjk_20_indexer.Parser.Blocks.{is_some, parse_block}
use wjk_20_indexer.Parser.Spent.{process_prevouts}
use wjk_20_indexer.Reorg.Cache.{ReorgCache, new_block}
use wjk_20_indexer.Reorg.Data.{ProcessedData, write_all}
use wjk_20_indexer.Indexer.{Entries, recipient, sender, history_of}

-- `ServerEvent::NewBlock`
pub data ServerEvent : Type 0 where
  new_block_event : (height : ℕ) (proof hash : Bytes) → ServerEvent

module _ (Amount : Type 0) where
  pub record DataToWrite : Type 0 where
    pub processed : List (ProcessedData Amount)
    pub block_events : List ServerEvent
    pub history : Entries Amount

-- What the indexer takes from elsewhere: the entries of the table of transfers from one key to
-- another, which RocksDB gives by the order of their bytes; bellscoin's test of scripts, and the
-- address that a script has; the JSON of an entry of the history with the addresses, which may fail;
-- and the constants of src/main.rs.
pub record Host (p : Platform) : Type 0 where
  pub context : Context p
  pub range :
      Table AddressLocation (TransferProtoDb p.Amount)
      → AddressLocation
      → AddressLocation
      → List (AddressLocation × TransferProtoDb p.Amount)
  pub is_provably_unspendable : Bytes → Bool
  pub address_of : Bytes → Option Bytes
  pub to_json : AddressTokenIdDb × HistoryValue p.Amount → Map FullHash Bytes → Option Bytes
  pub default_hash : Bytes
  pub start_height : ℕ

-- A panic of a part is one of the whole.
abbrev pub from_outcome : {A : Type 0} → Outcome A → Decoded A
from_outcome Prelude.panic = panic
from_outcome (ok a) = value a

-- `?`
abbrev pub or_error : {A : Type 0} → Option A → Decoded A
or_error none = error
or_error (some a) = value a

module _ (p : Platform) (h : Host p) where
  open p use {Amount}
  open h use {
    context, range, is_provably_unspendable, address_of, to_json, default_hash, start_height,
  }

  abbrev pub append_json : Option Bytes → Option Bytes → Option Bytes
  append_json none rest = none
  append_json (some bytes) none = none
  append_json (some bytes) (some rest) = some (bytes ++ rest)

  -- `buffer` of `generate_history_hash`
  unfoldable pub history_bytes : Entries Amount → Map FullHash Bytes → Option Bytes
  history_bytes [] addresses = some []
  history_bytes (e ∷ es) addresses = append_json (to_json e addresses) (history_bytes es addresses)

  abbrev pub current_hash : Entries Amount → Map FullHash Bytes → Option Bytes
  current_hash [] addresses = some default_hash
  current_hash (e ∷ es) addresses = elim (history_bytes (e ∷ es) addresses) [
    | none ↦ none
    | some buffer ↦ some (context.sha256 buffer)
  ]

  -- `Server::generate_history_hash` of src/server/mod.rs
  unfoldable pub generate_history_hash : Bytes → Entries Amount → Map FullHash Bytes → Option Bytes
  unfolding history_bytes
  generate_history_hash prev_history_hash history addresses =
      elim (current_hash history addresses) [
        | none ↦ none
        | some current ↦ some (context.sha256 (prev_history_hash ++ current))
      ]

  -- `search_with_offset`, and the range of the table
  abbrev pub transfers_at :
      Table AddressLocation (TransferProtoDb Amount)
      → OutPoint
      → FullHash
      → List (AddressLocation × TransferProtoDb Amount)
  transfers_at t outpoint address =
      range t (record { address = address; location = record { outpoint = outpoint; offset = 0 } })
        (record {
          address = address;
          location = record { outpoint = outpoint; offset = 2 ^ 64 - 1 };
        })

  abbrev pub insert_transfers :
      List (AddressLocation × TransferProtoDb Amount)
      → Map Location (FullHash × TransferProtoDb Amount)
      → Map Location (FullHash × TransferProtoDb Amount)
  insert_transfers [] m = m
  insert_transfers ((k, t) ∷ ts) m =
      insert_transfers ts (insert Location-discrete k.location (k.address, t) m)

  -- `DB::load_transfers`, into the map
  unfoldable pub load_transfers :
      Table AddressLocation (TransferProtoDb Amount)
      → Map OutPoint TxPrevout
      → Map Location (FullHash × TransferProtoDb Amount)
      → Map Location (FullHash × TransferProtoDb Amount)
  load_transfers t [] m = m
  load_transfers t ((outpoint, prevout) ∷ prevouts) m =
      load_transfers t prevouts (insert_transfers (transfers_at t outpoint prevout.script_hash) m)

  -- `TokenCache::load`
  unfoldable pub load : Map OutPoint TxPrevout → Db Amount → TokenCache Amount
  unfolding load_transfers
  load prevouts db =
      let valid = load_transfers db.address_location_to_transfer prevouts [] in
      record {
        tokens = [];
        token_accounts = [];
        token_actions = [];
        all_transfers = map (λ e. (e.0, e.1.1)) valid;
        valid_transfers = valid;
      }

  -- `outpoint_fullhash_to_address`
  abbrev pub add_address : FullHash → Option Bytes → Map FullHash Bytes → Map FullHash Bytes
  add_address k none m = m
  add_address k (some address) m = insert Bytes-discrete k address m

  abbrev pub output_addresses : List TxOut → Map FullHash Bytes → Map FullHash Bytes
  output_addresses [] m = m
  output_addresses (o ∷ os) m =
      output_addresses os
        (add_address (context.sha256 o.script_pubkey) (address_of o.script_pubkey) m)

  unfoldable pub block_addresses : List Tx → Map FullHash Bytes → Map FullHash Bytes
  block_addresses [] m = m
  block_addresses (tx ∷ txs) m = block_addresses txs (output_addresses tx.outputs m)

  -- `fullhash_to_load`: the recipients and the senders; a sender that is the recipient is there twice.
  abbrev pub with_sender : Option FullHash → List FullHash → List FullHash
  with_sender none ks = ks
  with_sender (some s) ks = s ∷ ks

  abbrev pub fullhash_to_load : List (HistoryTokenAction Amount) → List FullHash
  fullhash_to_load [] = []
  fullhash_to_load (a ∷ later) = recipient a ∷ with_sender (sender a) (fullhash_to_load later)

  abbrev pub unknown : Map FullHash Bytes → List FullHash → List FullHash
  unknown m [] = []
  unknown m (k ∷ ks) =
      if is_some (lookup Bytes-discrete k m) then unknown m ks else k ∷ unknown m ks

  unfoldable pub rest_addresses :
      Db Amount → List (HistoryTokenAction Amount) → Map FullHash Bytes → Map FullHash Bytes
  unfolding multi_get_kv
  rest_addresses db actions addresses =
      multi_get_kv (unknown addresses (fullhash_to_load actions)) db.fullhash_to_address
      ++ addresses

  abbrev pub address_locations :
      Map Location (FullHash × TransferProtoDb Amount)
      → List (AddressLocation × TransferProtoDb Amount)
  address_locations m = map (λ e. (record { address = e.1.0; location = e.0 }, e.1.1)) m

  abbrev pub info_of : ℕ → Bytes → Block → Bytes → ProcessedData Amount
  info_of height hash block proof =
      ProcessedData.info height (record { hash = hash; created = block.timestamp }) proof

  -- A block of one transaction
  unfoldable pub only_coinbase :
      ℕ → Bytes → Block → Bytes → List (ProcessedData Amount) → Decoded (DataToWrite Amount)
  unfolding generate_history_hash
  only_coinbase height hash block prev_block_proof before = do
    proof ← or_error (generate_history_hash prev_block_proof [] [])
    value (record {
      processed = before ++ (info_of height hash block proof ∷ []);
      block_events = new_block_event height proof hash ∷ [];
      history = [];
    })

  -- The rest of `handle_block`, for a block with more
  unfoldable pub with_tokens :
      ℕ
      → Bytes
      → Block
      → Bytes
      → Db Amount
      → Holders Amount
      → Map OutPoint TxPrevout
      → Map FullHash Bytes
      → List (ProcessedData Amount)
      → Decoded (DataToWrite Amount × Holders Amount)
  unfolding load parse_block load_tokens_data generate_history_hash process_token_actions history_of
      rest_addresses
  with_tokens height hash block prev_block_proof db holders prevouts addresses before = do
    let loaded = load prevouts db
    (parsed, writes) ← from_outcome (parse_block p context height block prevouts db loaded)
    (cache, holders', actions) ←
        from_outcome (process_token_actions p (load_tokens_data p db parsed) holders)
    (entries, last_id) ← from_outcome (history_of height actions (or_default 0 db.last_history_id))
    proof ←
        or_error
          (generate_history_hash prev_block_proof entries (rest_addresses db actions addresses))
    value (
      record {
        processed =
            before
            ++ (writes
                ++ (ProcessedData.history height last_id entries
                    ∷ ProcessedData.tokens cache.tokens cache.token_accounts
                        (address_locations cache.valid_transfers)
                        (map (λ e. e.0) (address_locations loaded.valid_transfers))
                    ∷ info_of height hash block proof
                    ∷ []));
        block_events = new_block_event height proof hash ∷ [];
        history = entries;
      },
      holders',
    )

  -- `handle_block`, which changes the holders too
  unfoldable pub handle_block :
      ℕ → Bytes → Block → Db Amount → Holders Amount → Decoded (DataToWrite Amount × Holders Amount)
  unfolding block_addresses process_prevouts only_coinbase with_tokens
  handle_block height hash block db holders = do
    let prev_block_proof = or_default default_hash (db.proof_of_history (height - 1))
    let addresses = block_addresses block.txs []
    (prevouts, spent) ←
        or_error (process_prevouts is_provably_unspendable context.sha256 db block.txs)
    let before = spent ∷ ProcessedData.full_hash addresses ∷ []
    let rest = with_tokens height hash block prev_block_proof db holders prevouts addresses before
    let alone =
        (only_coinbase height hash block prev_block_proof before >>= λ (d : DataToWrite Amount).
        value (d, holders))
    if ltb height start_height
        then value (record { processed = before; block_events = []; history = [] }, holders)
        else if length block.txs == 1
        then alone
        else rest

  unfoldable pub cache_for : Bool → ℕ → ReorgCache Amount → Option (ReorgCache Amount)
  unfolding new_block
  cache_for true height c = some (new_block height c)
  cache_for false height c = none

  -- `handle`, up to the sending of the events: nothing is written when `handle_block` fails.
  unfoldable pub handle :
      ℕ
      → Bytes
      → Block
      → Bool
      → Db Amount
      → Holders Amount
      → ReorgCache Amount
      → Decoded (DataToWrite Amount × Holders Amount × Db Amount × Option (ReorgCache Amount))
  unfolding handle_block cache_for write_all
  handle height hash block handle_reorgs db holders c = do
    (data_, holders') ← handle_block height hash block db holders
    (db', c') ← from_outcome (write_all data_.processed db (cache_for handle_reorgs height c))
    value (data_, holders', db', c')
