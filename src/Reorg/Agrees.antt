-- ===== src/Reorg/Agrees.antt =====
-- Databases that agree stay in agreement under the undo entries of src/reorg.rs.
use wjk_20_indexer.Prelude.{
  ℕ, ◌-◌, ℕ_discrete, ◌≡◌, refl, sym, ap, ◌∙◌, none, some, List, [], ◌∷◌, arith,
}
use wjk_20_indexer.Store.{Table, extend, remove}
use wjk_20_indexer.Store.Laws.{extend-at}
use wjk_20_indexer.Tokens.Types.{OutPoint, OutPoint-discrete}
use wjk_20_indexer.Tokens.Holders.{or_default}
use wjk_20_indexer.Db.{Db}
use wjk_20_indexer.Db.Types.{TxPrevout}
use wjk_20_indexer.Reorg.Cache.{
  TokenHistoryEntry, OrdinalsEntry, balances_before, balances_to_remove, deploys_to_remove,
  deploys_to_restore, restore_transfers, remove_transfers, remove_history, restore_offsets,
  remove_offsets, restore_prevouts, restore_partial, remove_partials, ReorgHistoryBlock,
  restore_block, proceed_rev, proceed_token, proceed_ordinals,
}
use wjk_20_indexer.Reorg.Writes.{Agrees}

extend-keeps :
    (kvs : List (OutPoint × TxPrevout)) (s t : Table OutPoint TxPrevout)
    → ((k : OutPoint) (v : TxPrevout) → s k ≡ some v → t k ≡ some v)
    → (k : OutPoint) (v : TxPrevout) → extend OutPoint-discrete kvs s k ≡ some v
    → extend OutPoint-discrete kvs t k ≡ some v
extend-keeps kvs s t f k v h =
    ground (arith, extend-at OutPoint-discrete k kvs s, extend-at OutPoint-discrete k kvs t, f k v)

module _ {Amount : Type 0} where
  -- A database less what `Agrees` does not look at.
  abbrev forget : Db Amount → Db Amount
  forget db = record db {
    prevouts = λ k. none;
    last_block = none;
    proof_of_history = λ k. none;
    fullhash_to_address = λ k. none;
    last_history_id = some (or_default 0 db.last_history_id);
  }

  Agrees-forget : (a b : Db Amount) → Agrees a b → forget b ≡ forget a
  Agrees-forget a b f =
      rw
        (
          f.metas, f.transfers, f.balances, f.history, f.partials, f.offsets, f.blocks,
          f.block_events, f.events, f.ids, f.next_id,
        )
        refl

  forget-Agrees :
      (a b : Db Amount)
      → forget b ≡ forget a
      → ((k : OutPoint) (v : TxPrevout) → a.prevouts k ≡ some v → b.prevouts k ≡ some v)
      → Agrees a b
  forget-Agrees a b e p = record {
    metas = ap (λ (x : Db Amount). x.token_to_meta) e;
    transfers = ap (λ (x : Db Amount). x.address_location_to_transfer) e;
    balances = ap (λ (x : Db Amount). x.address_token_to_balance) e;
    history = ap (λ (x : Db Amount). x.address_token_to_history) e;
    partials = ap (λ (x : Db Amount). x.outpoint_to_partials) e;
    offsets = ap (λ (x : Db Amount). x.outpoint_to_inscription_offsets) e;
    blocks = ap (λ (x : Db Amount). x.block_info) e;
    block_events = ap (λ (x : Db Amount). x.block_events) e;
    events = ap (λ (x : Db Amount). x.outpoint_to_event) e;
    ids = ap (λ (x : Db Amount). x.token_id_to_event) e;
    next_id = ap (λ (x : Db Amount). or_default 0 x.last_history_id) e;
    prevouts = p;
  }

  pub Agrees-refl : (a : Db Amount) → Agrees a a
  Agrees-refl a = forget-Agrees a a refl (λ k v h. h)

  pub Agrees-trans : (a b c : Db Amount) → Agrees a b → Agrees b c → Agrees a c
  Agrees-trans a b c f g =
      forget-Agrees a c (Agrees-forget b c g ∙ Agrees-forget a b f)
        (λ k v h. g.prevouts k v (f.prevouts k v h))

  token-forget :
      (e : TokenHistoryEntry Amount) (a : Db Amount)
      → forget (proceed_token e a) ≡ forget (proceed_token e (forget a))
  unfolding proceed_token
  token-forget (balances_before items) a = refl
  token-forget (balances_to_remove ks) a = refl
  token-forget (deploys_to_remove ks) a = refl
  token-forget (deploys_to_restore items) a = refl
  token-forget (restore_transfers items) a = refl
  token-forget (remove_transfers ks) a = refl
  token-forget (remove_history ks n os h ts) a = refl

  ordinals-forget :
      (e : OrdinalsEntry Amount) (a : Db Amount)
      → forget (proceed_ordinals e a) ≡ forget (proceed_ordinals e (forget a))
  unfolding proceed_ordinals
  ordinals-forget (restore_offsets items) a = refl
  ordinals-forget (remove_offsets ks) a = refl
  ordinals-forget (restore_prevouts items) a = refl
  ordinals-forget (restore_partial items) a = refl
  ordinals-forget (remove_partials ks) a = refl

  token-prevouts :
      (e : TokenHistoryEntry Amount) (a : Db Amount) → (proceed_token e a).prevouts ≡ a.prevouts
  unfolding proceed_token
  token-prevouts (balances_before items) a = refl
  token-prevouts (balances_to_remove ks) a = refl
  token-prevouts (deploys_to_remove ks) a = refl
  token-prevouts (deploys_to_restore items) a = refl
  token-prevouts (restore_transfers items) a = refl
  token-prevouts (remove_transfers ks) a = refl
  token-prevouts (remove_history ks n os h ts) a = refl

  ordinals-prevouts :
      (e : OrdinalsEntry Amount) (a b : Db Amount)
      → ((k : OutPoint) (v : TxPrevout) → a.prevouts k ≡ some v → b.prevouts k ≡ some v)
      → (k : OutPoint) (v : TxPrevout) → (proceed_ordinals e a).prevouts k ≡ some v
      → (proceed_ordinals e b).prevouts k ≡ some v
  unfolding proceed_ordinals
  ordinals-prevouts (restore_offsets items) a b f = f
  ordinals-prevouts (remove_offsets ks) a b f = f
  ordinals-prevouts (restore_prevouts items) a b f = extend-keeps items a.prevouts b.prevouts f
  ordinals-prevouts (restore_partial items) a b f = f
  ordinals-prevouts (remove_partials ks) a b f = f

  proceed_token-Agrees :
      (e : TokenHistoryEntry Amount) (a b : Db Amount)
      → Agrees a b
      → Agrees (proceed_token e a) (proceed_token e b)
  unfolding proceed_token
  proceed_token-Agrees e a b f =
      forget-Agrees (proceed_token e a) (proceed_token e b)
        (token-forget e b
          ∙ ap (λ x. forget (proceed_token e x)) (Agrees-forget a b f)
          ∙ sym (token-forget e a))
        (rw (token-prevouts e a, token-prevouts e b) f.prevouts)

  proceed_ordinals-Agrees :
      (e : OrdinalsEntry Amount) (a b : Db Amount)
      → Agrees a b
      → Agrees (proceed_ordinals e a) (proceed_ordinals e b)
  unfolding proceed_ordinals
  proceed_ordinals-Agrees e a b f =
      forget-Agrees (proceed_ordinals e a) (proceed_ordinals e b)
        (ordinals-forget e b
          ∙ ap (λ x. forget (proceed_ordinals e x)) (Agrees-forget a b f)
          ∙ sym (ordinals-forget e a))
        (ordinals-prevouts e a b f.prevouts)

  proceed_rev-Agrees :
      {E : Type 0} (proceed : E → Db Amount → Db Amount)
      → ((e : E) (a b : Db Amount) → Agrees a b → Agrees (proceed e a) (proceed e b))
      → (es : List E) (a b : Db Amount) → Agrees a b
      → Agrees (proceed_rev proceed es a) (proceed_rev proceed es b)
  unfolding proceed_rev
  proceed_rev-Agrees p step [] a b f = f
  proceed_rev-Agrees p step (e ∷ es) a b f =
      step e (proceed_rev p es a) (proceed_rev p es b) (proceed_rev-Agrees p step es a b f)

  -- Undoing the same log keeps agreeing databases in agreement.
  pub restore_block_cong :
      (h : ℕ) (r : ReorgHistoryBlock Amount) (a b : Db Amount)
      → Agrees a b
      → Agrees (restore_block h r a) (restore_block h r b)
  unfolding restore_block
  restore_block_cong h r a b f =
      let below = λ (db : Db Amount). record db {
        last_block = some (h - 1);
        block_info = remove ℕ_discrete h db.block_info;
      } in
      let token = λ (db : Db Amount). proceed_rev proceed_token r.token_history (below db) in
      proceed_rev-Agrees proceed_ordinals proceed_ordinals-Agrees r.ordinals_history (token a)
        (token b)
        (proceed_rev-Agrees proceed_token proceed_token-Agrees r.token_history (below a) (below b) (
          forget-Agrees (below a) (below b) (ap (λ x. forget (below x)) (Agrees-forget a b f))
            f.prevouts))
