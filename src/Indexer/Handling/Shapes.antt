-- ===== src/Indexer/Handling/Shapes.antt =====
-- The writes that the parts of `handle_block` of src/inscriptions/indexer.rs give, and its history's hash.
use wjk_20_indexer.Prelude.{
  ℕ, suc, ◌+◌, ◌*◌, ◌^◌, ◌<◌, ◌≤◌, ◌≡◌, refl, sym, ap, ◌∙◌, subst, Bool, true, false, Option, none,
  some, Option-cases, inl, inr, ◌-◌, map, List, [], ◌∷◌, ◌++◌, Bytes, Map, All, length, ltb, le→ltb,
  ◌==◌, if◌then◌else◌, Outcome, ok, Results, >>=-eq-ok, arith,
}
use wjk_20_indexer.Prelude
use wjk_20_indexer.Tokens.Platform.{Platform}
use wjk_20_indexer.Tokens.Types.{OutPoint, TokenCache, FullHash}
use wjk_20_indexer.Db.{Db}
use wjk_20_indexer.Db.Types.{TxPrevout, Partials, AddressTokenIdDb, HistoryValue}
use wjk_20_indexer.Inscriptions.Types.{Tx}
use wjk_20_indexer.Inscriptions.Leaked.{get_leaked_inscriptions}
use wjk_20_indexer.Store.{multi_get_kv}
use wjk_20_indexer.Parser.{Context, Block}
use wjk_20_indexer.Parser.Blocks.{parse_block, parse_from, insert_locations, keys_of}
use wjk_20_indexer.Parser.Spent.{process_prevouts, created_prevouts, spent_keys, unique, find_spent}
use wjk_20_indexer.Reorg.Data.{ProcessedData, spent_prevouts}
use wjk_20_indexer.Indexer.Handling.Reads.{find_spent-spent_prevouts}
use wjk_20_indexer.Indexer.{Entries}
use wjk_20_indexer.Indexer.Handling.{Host, history_bytes, current_hash, generate_history_hash}

pub laid_out :
    {A : Type 0} (s s' f a b : A) (writes rest : List A)
    → s ≡ s'
    → writes ≡ a ∷ b ∷ []
    → (s ∷ f ∷ []) ++ (writes ++ rest) ≡ s' ∷ f ∷ a ∷ b ∷ rest
laid_out s s' f a b writes rest e e' = rw (e, e') refl

pub not_one : (n : ℕ) → suc (suc n) == 1 ≡ false
not_one n = ground arith

pub Results-ok :
    {A : Type 0} (P : A → Type 0) (step : Outcome A)
    → Results P step
    → (a : A) × (step ≡ ok a) × P a
Results-ok P Prelude.panic h = absurd h
Results-ok P (ok a) h = (a, refl, h)

module _ {Amount : Type 0} (is_provably_unspendable : Bytes → Bool)
    (sha256 : Bytes → FullHash) where
  -- Of the outputs that are spent the log of a write finds all.
  pub prevouts-write :
      (db : Db Amount) (txs : List Tx) (result : Map OutPoint TxPrevout) (pd : ProcessedData Amount)
      → process_prevouts is_provably_unspendable sha256 db txs ≡ some (result, pd)
      → (pd
          ≡ ProcessedData.prevouts
              (created_prevouts is_provably_unspendable sha256 txs [])
              (unique (spent_keys txs)))
        × ((spent : List (OutPoint × TxPrevout)) × (spent_prevouts
                (unique (spent_keys txs))
                (created_prevouts is_provably_unspendable sha256 txs [])
                db.prevouts
              ≡ ok spent))
  unfolding process_prevouts
  prevouts-write db txs result pd h =
      let created = created_prevouts is_provably_unspendable sha256 txs [] in
      elim (Option-cases (find_spent (unique (spent_keys txs)) db.prevouts created)) [
        | inl failed ↦ cc (rw failed at h)
        | inr (m, e) ↦ (
          cc (rw e at h),
          find_spent-spent_prevouts (unique (spent_keys txs)) db.prevouts created m e,
        )
      ]

module _ (p : Platform) (x : Context p) where
  open p use {Amount}

  -- The parser's two writes: what the tables have at the outputs that are spent, and what comes of it.
  pub parse_block-writes :
      (height : ℕ) (block : Block) (prevouts : Map OutPoint TxPrevout) (db : Db Amount)
      (c c' : TokenCache Amount) (writes : List (ProcessedData Amount))
      → parse_block p x height block prevouts db c ≡ ok (c', writes)
      → (partials : List (OutPoint × Partials)) × (offsets : List (OutPoint × List ℕ)) × (writes
          ≡ ProcessedData.inscription_partials
              (multi_get_kv (keys_of p x prevouts) db.outpoint_to_partials)
              partials
            ∷ ProcessedData.inscription_offset
                (multi_get_kv (keys_of p x prevouts) db.outpoint_to_inscription_offsets)
                offsets
            ∷ [])
  unfolding parse_block
  parse_block-writes height block prevouts db c c' writes h =
      let stored = multi_get_kv (keys_of p x prevouts) db.outpoint_to_partials in
      let offsets = multi_get_kv (keys_of p x prevouts) db.outpoint_to_inscription_offsets in
      let (st, e1, h1) =
        >>=-eq-ok (parse_from p x height block.timestamp prevouts block.txs c stored offsets) _ h in
      let (ls, e2, h2) = >>=-eq-ok (get_leaked_inscriptions st.leaked) _ h1 in
      (st.outpoint_to_partials, insert_locations p x ls st.offsets, cc)

module _ (p : Platform) (h : Host p)
    (json : (e : AddressTokenIdDb × HistoryValue p.Amount) (addresses : Map FullHash Bytes)
      → (bytes : Bytes) × (h.to_json e addresses ≡ some bytes)) where
  open p use {Amount}

  history_bytes-returns :
      (es : Entries Amount) (addresses : Map FullHash Bytes)
      → (bytes : Bytes) × (history_bytes p h es addresses ≡ some bytes)
  unfolding history_bytes
  history_bytes-returns [] addresses = ([], refl)
  history_bytes-returns (e ∷ es) addresses =
      let (bytes, e1) = json e addresses in
      let (rest, e2) = history_bytes-returns es addresses in (bytes ++ rest, rw (e1, e2) refl)

  -- The hash of a history fails with the JSON of an entry only.
  pub generate_history_hash-returns :
      (prev : Bytes) (es : Entries Amount) (addresses : Map FullHash Bytes)
      → (proof : Bytes) × (generate_history_hash p h prev es addresses ≡ some proof)
  unfolding generate_history_hash
  generate_history_hash-returns prev [] addresses = (_, refl)
  generate_history_hash-returns prev (e ∷ es) addresses =
      let (buffer, eb) = history_bytes-returns (e ∷ es) addresses in
      (
        h.context.sha256 (prev ++ h.context.sha256 buffer),
        rw (eb, generate_history_hash, current_hash) refl,
      )
