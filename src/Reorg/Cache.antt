-- ===== src/Reorg/Cache.antt =====
-- src/reorg.rs: the undo entries of the last blocks, and how they are played back.
use wjk_20_indexer.Prelude.{
  ℕ, ◌-◌, some, List, [], ◌∷◌, ◌++◌, Outcome, ok, panic, ltb, ◌==◌, length, if◌then◌else◌,
  ℕ_discrete,
}
use wjk_20_indexer.Store.{remove, extend, remove_batch}
use wjk_20_indexer.Tokens.Types.{
  LowerCaseTokenTick, OutPoint, AddressToken, AddressLocation, TokenBalance, TransferProtoDb,
  TokenMeta, Bytes-discrete, OutPoint-discrete, AddressToken-discrete, AddressLocation-discrete,
}
use wjk_20_indexer.Db.{Db}
use wjk_20_indexer.Db.Types.{
  AddressTokenIdDb, TokenId, TxPrevout, Partials, AddressTokenIdDb-discrete, TokenId-discrete,
}

abbrev pub reorg_cache_max_len : ℕ
reorg_cache_max_len = 30

module _ (Amount : Type 0) where
  pub data TokenHistoryEntry : Type 0 where
    balances_before : List (AddressToken × TokenBalance Amount) → TokenHistoryEntry
    balances_to_remove : List AddressToken → TokenHistoryEntry
    deploys_to_remove : List LowerCaseTokenTick → TokenHistoryEntry
    deploys_to_restore : List (LowerCaseTokenTick × TokenMeta Amount) → TokenHistoryEntry
    restore_transfers : List (AddressLocation × TransferProtoDb Amount) → TokenHistoryEntry
    remove_transfers : List AddressLocation → TokenHistoryEntry
    remove_history :
        (to_remove : List AddressTokenIdDb) (last_history_id : ℕ)
        (outpoint_to_event : List OutPoint) (height : ℕ) (token_id_to_event : List TokenId)
        → TokenHistoryEntry

  pub data OrdinalsEntry : Type 0 where
    restore_offsets : List (OutPoint × List ℕ) → OrdinalsEntry
    remove_offsets : List OutPoint → OrdinalsEntry
    restore_prevouts : List (OutPoint × TxPrevout) → OrdinalsEntry
    restore_partial : List (OutPoint × Partials) → OrdinalsEntry
    remove_partials : List OutPoint → OrdinalsEntry

module _ (Amount : Type 0) where
  -- The log of a block, each list in the order of the pushes.
  pub record ReorgHistoryBlock : Type 0 where
    pub token_history : List (TokenHistoryEntry Amount)
    pub ordinals_history : List (OrdinalsEntry Amount)

module _ {Amount : Type 0} where
  -- `ProceedReorg for TokenHistoryEntry`
  unfoldable pub proceed_token : TokenHistoryEntry Amount → Db Amount → Db Amount
  proceed_token (deploys_to_remove to_remove) db = record db {
    token_to_meta = remove_batch Bytes-discrete to_remove db.token_to_meta;
  }
  proceed_token (deploys_to_restore items) db = record db {
    token_to_meta = extend Bytes-discrete items db.token_to_meta;
  }
  proceed_token (balances_before items) db = record db {
    address_token_to_balance = extend AddressToken-discrete items db.address_token_to_balance;
  }
  proceed_token (balances_to_remove ks) db = record db {
    address_token_to_balance = remove_batch AddressToken-discrete ks db.address_token_to_balance;
  }
  proceed_token (restore_transfers items) db = record db {
    address_location_to_transfer =
        extend AddressLocation-discrete items db.address_location_to_transfer;
  }
  proceed_token (remove_transfers ks) db = record db {
    address_location_to_transfer =
        remove_batch AddressLocation-discrete ks db.address_location_to_transfer;
  }
  proceed_token (remove_history to_remove last_id outpoints height token_ids) db = record db {
    last_history_id = some last_id;
    block_events = remove ℕ_discrete height db.block_events;
    address_token_to_history =
        remove_batch AddressTokenIdDb-discrete to_remove db.address_token_to_history;
    outpoint_to_event = remove_batch OutPoint-discrete outpoints db.outpoint_to_event;
    token_id_to_event = remove_batch TokenId-discrete token_ids db.token_id_to_event;
  }

  -- `ProceedReorg for OrdinalsEntry`
  unfoldable pub proceed_ordinals : OrdinalsEntry Amount → Db Amount → Db Amount
  proceed_ordinals (restore_offsets items) db = record db {
    outpoint_to_inscription_offsets =
        extend OutPoint-discrete items db.outpoint_to_inscription_offsets;
  }
  proceed_ordinals (remove_offsets ks) db = record db {
    outpoint_to_inscription_offsets =
        remove_batch OutPoint-discrete ks db.outpoint_to_inscription_offsets;
  }
  proceed_ordinals (restore_prevouts items) db = record db {
    prevouts = extend OutPoint-discrete items db.prevouts;
  }
  proceed_ordinals (restore_partial items) db = record db {
    outpoint_to_partials = extend OutPoint-discrete items db.outpoint_to_partials;
  }
  proceed_ordinals (remove_partials ks) db = record db {
    outpoint_to_partials = remove_batch OutPoint-discrete ks db.outpoint_to_partials;
  }

  -- `for entry in entries.into_iter().rev()`: the last entry first.
  unfoldable pub proceed_rev :
      {E : Type 0} → (E → Db Amount → Db Amount) → List E → Db Amount → Db Amount
  proceed_rev proceed [] db = db
  proceed_rev proceed (e ∷ es) db = proceed e (proceed_rev proceed es db)

module _ (Amount : Type 0) where
  -- `BTreeMap<u32, ReorgHistoryBlock>` with its highest block first.
  pub record ReorgCache : Type 0 where
    pub blocks : List (ℕ × ReorgHistoryBlock Amount)
    pub len : ℕ

module _ {Amount : Type 0} where
  abbrev pub empty_block : ReorgHistoryBlock Amount
  empty_block = record { token_history = []; ordinals_history = [] }

  -- `ReorgCache::new`
  abbrev pub new_cache : ReorgCache Amount
  new_cache = record { blocks = []; len = reorg_cache_max_len }

  -- `pop_first`: the lowest block.
  unfoldable pub pop_first :
      List (ℕ × ReorgHistoryBlock Amount) → List (ℕ × ReorgHistoryBlock Amount)
  pop_first [] = []
  pop_first (b ∷ []) = []
  pop_first (b ∷ b' ∷ bs) = b ∷ pop_first (b' ∷ bs)

  unfoldable pub insert_block :
      ℕ
      → ReorgHistoryBlock Amount
      → List (ℕ × ReorgHistoryBlock Amount)
      → List (ℕ × ReorgHistoryBlock Amount)
  insert_block h b [] = (h, b) ∷ []
  insert_block h b ((k, c) ∷ bs) =
      if ltb k h
      then (h, b) ∷ (k, c) ∷ bs
      else if k == h
      then (h, b) ∷ bs
      else (k, c) ∷ insert_block h b bs

  unfoldable pub new_block : ℕ → ReorgCache Amount → ReorgCache Amount
  unfolding pop_first insert_block
  new_block height c = record c {
    blocks =
        insert_block height empty_block
          (if length c.blocks == c.len then pop_first c.blocks else c.blocks);
  }

  -- `last_entry().unwrap()`, which panics when there is no block.
  abbrev pub update_last :
      (ReorgHistoryBlock Amount → ReorgHistoryBlock Amount)
      → ReorgCache Amount
      → Outcome (ReorgCache Amount)
  update_last f c = elim c.blocks [
    | [] ↦ panic
    | (h, b) ∷ bs ↦ ok (record c { blocks = (h, f b) ∷ bs })
  ]

  unfoldable pub push_token_entry :
      TokenHistoryEntry Amount → ReorgCache Amount → Outcome (ReorgCache Amount)
  push_token_entry e = update_last (λ b. record b { token_history = b.token_history ++ (e ∷ []) })

  unfoldable pub push_ordinals_entry :
      OrdinalsEntry Amount → ReorgCache Amount → Outcome (ReorgCache Amount)
  push_ordinals_entry e =
      update_last (λ b. record b { ordinals_history = b.ordinals_history ++ (e ∷ []) })

  -- One turn of the loop of `ReorgCache::restore`.
  unfoldable pub restore_block : ℕ → ReorgHistoryBlock Amount → Db Amount → Db Amount
  unfolding proceed_rev proceed_token proceed_ordinals
  restore_block height b db = proceed_rev proceed_ordinals b.ordinals_history (
      proceed_rev proceed_token b.token_history (record db {
        last_block = some (height - 1);
        block_info = remove ℕ_discrete height db.block_info;
      }))

  unfoldable pub restore_blocks :
      ℕ
      → List (ℕ × ReorgHistoryBlock Amount)
      → Db Amount
      → List (ℕ × ReorgHistoryBlock Amount) × Db Amount
  restore_blocks block_height [] db = ([], db)
  restore_blocks block_height ((h, b) ∷ bs) db =
      let rest = restore_blocks block_height bs (restore_block h b db) in
      if ltb block_height h then rest else ((h, b) ∷ bs, db)

  unfoldable pub restore : ReorgCache Amount → Db Amount → ℕ → ReorgCache Amount × Db Amount
  unfolding restore_blocks
  restore c db block_height =
      let (blocks, db') = restore_blocks block_height c.blocks db in
      (record c { blocks = blocks }, db')

  unfoldable pub restore_all : ReorgCache Amount → Db Amount → ReorgCache Amount × Db Amount
  unfolding restore
  restore_all c db = restore c db 0
