-- ===== src/Reorg/Block.antt =====
-- The writes of a block of src/inscriptions/process_data.rs, the log that they leave, and what the
-- undo of that block by src/reorg.rs gives back.
use wjk_20_indexer.Prelude.{
  ℕ, ◌≡◌, refl, none, some, List, [], ◌∷◌, ok, arith, fun_ext, ℕ_discrete, if◌then◌else◌,
}
use wjk_20_indexer.Store.{Table, extend, remove_batch, multi_get_kv}
use wjk_20_indexer.Store.Laws.{
  keys, written, contains, written-strict, extend-at, remove_batch-at, or_else, written-none,
}
use wjk_20_indexer.Prelude.{Option-cases, inl, inr, >>=-eq-ok}
use wjk_20_indexer.Store.Undo.{undo-extend, undo_new, undo_swap, undo_set}
use wjk_20_indexer.Tokens.Types.{
  OutPoint, Bytes-discrete, OutPoint-discrete, AddressToken-discrete, AddressLocation-discrete,
}
use wjk_20_indexer.Tokens.Holders.{or_default}
use wjk_20_indexer.Db.{Db}
use wjk_20_indexer.Db.Types.{TxPrevout, AddressTokenIdDb-discrete, TokenId-discrete}
use wjk_20_indexer.Reorg.Cache.{
  ReorgHistoryBlock, restore_block, empty_block, push_token_entry, push_ordinals_entry,
  balances_before, balances_to_remove, deploys_to_remove, deploys_to_restore, restore_transfers,
  remove_transfers, remove_history, restore_offsets, remove_offsets, restore_prevouts,
  restore_partial, remove_partials,
}
use wjk_20_indexer.Reorg.Data.{
  ProcessedData, sort_events, new_keys, spent_prevouts, write_all, write, log, store,
  outpoint_to_event_of, token_id_to_event_of,
}
use wjk_20_indexer.Reorg.Writes.{BlockWrites, processed, Fits, Agrees}

module _ {Amount : Type 0} where
  unfoldable pub store_all : List (ProcessedData Amount) → Db Amount → Db Amount
  unfolding store
  store_all [] db = db
  store_all (d ∷ ds) db = store_all ds (store d db)

  -- The log that the writes of a block leave.
  abbrev pub block_log :
      (db : Db Amount) (w : BlockWrites Amount) → Fits db w → ReorgHistoryBlock Amount
  block_log db w f =
      let deploys = multi_get_kv (keys w.metas) db.token_to_meta in
      let before = multi_get_kv (keys w.balances) db.address_token_to_balance in
      record {
        token_history =
            remove_history (keys w.entries) (or_default 0 db.last_history_id)
              (keys (outpoint_to_event_of w.entries)) w.height
              (keys (token_id_to_event_of w.entries))
            ∷ deploys_to_remove (new_keys Bytes-discrete (keys w.metas) deploys)
            ∷ deploys_to_restore deploys
            ∷ balances_before before
            ∷ balances_to_remove (new_keys AddressToken-discrete (keys w.balances) before)
            ∷ restore_transfers f.gone
            ∷ remove_transfers (keys w.transfers_to_write)
            ∷ [];
        ordinals_history =
            restore_prevouts f.spent
            ∷ restore_partial w.partials_before
            ∷ remove_partials (keys w.partials_after)
            ∷ restore_offsets w.offsets_before
            ∷ remove_offsets (keys w.offsets_after)
            ∷ [];
      }

  -- The writes of a block that fits return, and leave that log on the cache's newest block.
  pub write_all-processed :
      (db : Db Amount) (w : BlockWrites Amount) (f : Fits db w) (n : ℕ)
      (bs : List (ℕ × ReorgHistoryBlock Amount))
      → write_all
          (processed w)
          db
          (some (record { blocks = (w.height, empty_block) ∷ bs; len = n }))
        ≡ ok (
          store_all (processed w) db,
          some (record { blocks = (w.height, block_log db w f) ∷ bs; len = n }),
        )
  unfolding write_all write processed log store store_all push_token_entry push_ordinals_entry
  write_all-processed db w f n bs = rw (f.inputs_known, f.transfers_known) refl

  module _ (db : Db Amount) (w : BlockWrites Amount) (f : Fits db w) where
    abbrev undone : Db Amount
    undone = restore_block w.height (block_log db w f) (store_all (processed w) db)

    written-spent :
        (ks : List OutPoint) (outs : List (OutPoint × TxPrevout)) {s : List (OutPoint × TxPrevout)}
        (t : Table OutPoint TxPrevout) (k : OutPoint) (v : TxPrevout)
        → spent_prevouts ks outs t ≡ ok s
        → t k ≡ some v
        → written OutPoint-discrete k s ≡ (if contains OutPoint-discrete k ks then some v else none)
    unfolding spent_prevouts
    written-spent [] outs t k v h e = ground arith
    written-spent (j ∷ ks) outs t k v h e =
        elim (Option-cases (or_else (t j) (written OutPoint-discrete j outs))) [
          | inl missing ↦ absurd (ground arith)
          | inr (u, found) ↦
              let (rest, read, e') =
                >>=-eq-ok (spent_prevouts ks outs t) (λ kvs. ok ((j, u) ∷ kvs))
                  (rw (spent_prevouts, found) at h) in
              ground (arith, written-spent ks outs t k v read e)
        ]

    -- Undoing the writes of a block gives back what was there before it.
    pub restore_block-Agrees : Agrees db undone
    unfolding restore_block store_all processed
    restore_block-Agrees = record {
      metas = fun_ext (λ k. (undo-extend Bytes-discrete db.token_to_meta k w.metas).0);
      transfers = fun_ext (λ k.
          undo_swap AddressLocation-discrete db.address_location_to_transfer k w.transfers_to_remove
            f.gone w.transfers_to_write
            (written-strict AddressLocation-discrete k w.transfers_to_remove
              db.address_location_to_transfer f.transfers_known)
            (f.transfers_new k));
      balances =
          fun_ext
            (λ k. (undo-extend AddressToken-discrete db.address_token_to_balance k w.balances).1);
      history = fun_ext (λ k.
          undo_new AddressTokenIdDb-discrete db.address_token_to_history k w.entries
            (f.history_new k));
      partials = fun_ext (λ k.
          undo_swap OutPoint-discrete db.outpoint_to_partials k (keys w.partials_before)
            w.partials_before w.partials_after (f.partials_known k) (f.partials_new k));
      offsets = fun_ext (λ k.
          undo_swap OutPoint-discrete db.outpoint_to_inscription_offsets k (keys w.offsets_before)
            w.offsets_before w.offsets_after (f.offsets_known k) (f.offsets_new k));
      blocks =
          fun_ext (λ k. undo_set ℕ_discrete db.block_info k w.height w.block_info f.block_new.0);
      block_events = fun_ext (λ k.
          undo_set ℕ_discrete db.block_events k w.height (sort_events (keys w.entries))
            f.block_new.1);
      events = fun_ext (λ k.
          undo_new OutPoint-discrete db.outpoint_to_event k (outpoint_to_event_of w.entries)
            (f.events_new k));
      ids = fun_ext (λ k.
          undo_new TokenId-discrete db.token_id_to_event k (token_id_to_event_of w.entries)
            (f.ids_new k));
      next_id = refl;
      prevouts = λ k v e. ground (
        arith,
        extend-at OutPoint-discrete k f.spent (
            remove_batch OutPoint-discrete w.inputs
              (extend OutPoint-discrete w.outputs db.prevouts)),
        remove_batch-at OutPoint-discrete k w.inputs
            (extend OutPoint-discrete w.outputs db.prevouts),
        extend-at OutPoint-discrete k w.outputs db.prevouts,
        written-none OutPoint-discrete k w.outputs,
        f.outputs_new k,
        written-spent w.inputs w.outputs db.prevouts k v f.inputs_known e,
      );
    }
