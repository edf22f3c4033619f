-- ===== src/Parser/Inputs.antt =====
-- The loops of `parse_block` of src/inscriptions/parser.rs return for a block whose spent outputs are
-- known.
use wjk_20_indexer.Prelude.{
  ℕ, ◌+◌, ◌%◌, ◌^◌, ◌<◌, ◌≡◌, refl, Bool, true, false, not, ◌&&◌, ◌||◌, List, [], ◌∷◌, Map, lookup,
  All, length, leb, ◌==◌, if◌then◌else◌, ok, Results, Results->>=, arith,
}
use wjk_20_indexer.Tokens.Platform.{Platform}
use wjk_20_indexer.Tokens.Types.{OutPoint, TokenCache, OutPoint-discrete}
use wjk_20_indexer.Tokens.Parsing.{InscriptionTemplate, parse_token_action}
use wjk_20_indexer.Tokens.Holders.{or_default}
use wjk_20_indexer.Db.{Db}
use wjk_20_indexer.Store.{multi_get_kv}
use wjk_20_indexer.Db.Types.{TxPrevout, Partials}
use wjk_20_indexer.Inscriptions.Types.{TxIn, Tx}
use wjk_20_indexer.Inscriptions.Parts.{from_parts}
use wjk_20_indexer.Inscriptions.Offsets.{calc_offsets}
use wjk_20_indexer.Inscriptions.Leaked.{new, unwrap, add_tx_fee, get_leaked_inscriptions}
use wjk_20_indexer.Reorg.Data.{ProcessedData}
use wjk_20_indexer.Parser.{
  Context, ParsedInscriptionResult, nothing, partials, single, many, State, is_coinbase,
  parse_inscription,
}
use wjk_20_indexer.Parser.Blocks.{
  move_inscriptions, place_template, place_templates, keys_of, part_of, parts_of, is_genesis,
  numbered_if, insert_offset, is_occupied, keep_partials, place_all, take_result,
  create_inscriptions, parse_input, parse_inputs, parse_tx, parse_txs, parse_from, parse_block,
}
use wjk_20_indexer.Parser.Known.{
  IsKnown, SpendsKnown, unwrap-returns, add_tx_fee-returns, calc_offsets-IsSome,
  get_leaked_inscriptions-returns,
}
use wjk_20_indexer.Parser.Keeps.{Keeps, Keeps-refl, parse_token_action-Keeps}
use wjk_20_indexer.Parser.Returns.{Any, parsed_result-returns, move_all-returns, from_parts-returns}

module _ (p : Platform) (x : Context p) (prevouts : Map OutPoint TxPrevout) where
  open p use {Amount}
  open x use {instructions, jubilee_height}

  place_template-Keeps :
      (c0 : TokenCache Amount) (height created : ℕ) (t : InscriptionTemplate) (st : State p x)
      → Keeps p c0 st.cache
      → Keeps p c0 (place_template p x height created t st).cache
  unfolding place_template
  place_template-Keeps c0 height created t st h =
      let occupied =
        not (jubilee_height == 133000)
        && is_occupied t.location.outpoint t.location.offset st.offsets in
      skip-Keeps (not t.leaked && (occupied && not (leb jubilee_height height)))
    where
      skip-Keeps :
          (b : Bool)
          → Keeps p c0
              (if b
                then record st {
                  offsets = insert_offset t.location.outpoint t.location.offset st.offsets;
                }
                else record st {
                  offsets = insert_offset t.location.outpoint t.location.offset st.offsets;
                  cache = parse_token_action p x.chain x.from_json t height created st.cache;
                }).cache
      skip-Keeps true = h
      skip-Keeps false = parse_token_action-Keeps p x c0 st.cache t height created h

  place_templates-Keeps :
      (c0 : TokenCache Amount) (height created : ℕ) (ts : List InscriptionTemplate) (st : State p x)
      → Keeps p c0 st.cache
      → Keeps p c0 (place_templates p x height created ts st).cache
  unfolding place_templates
  place_templates-Keeps c0 height created [] st h = h
  place_templates-Keeps c0 height created (t ∷ ts) st h =
      place_templates-Keeps c0 height created ts (place_template p x height created t st)
        (place_template-Keeps c0 height created t st h)

  place_all-Keeps :
      (c0 : TokenCache Amount) (height created : ℕ) (tx : Tx) (parts : Partials)
      (ts : List InscriptionTemplate) (st : State p x)
      → Keeps p c0 st.cache
      → Keeps p c0 (place_all p x height created tx parts ts st).cache
  unfolding place_all
  place_all-Keeps c0 height created tx parts ts st h =
      let n = numbered_if p x (is_genesis p x tx parts) ts st.inscription_index in
      place_templates-Keeps c0 height created n.0 (record st { inscription_index = n.1 }) h

  take_result-Keeps :
      (c0 : TokenCache Amount) (height created : ℕ) (tx : Tx) (i : ℕ) (parts : Partials)
      (r : ParsedInscriptionResult) (st : State p x)
      → Keeps p c0 st.cache
      → Keeps p c0 (take_result p x height created tx i parts r st).cache
  unfolding take_result keep_partials
  take_result-Keeps c0 height created tx i parts nothing st h = h
  take_result-Keeps c0 height created tx i parts partials st h = h
  take_result-Keeps c0 height created tx i parts (single t) st h =
      place_all-Keeps c0 height created tx parts (t ∷ []) st h
  take_result-Keeps c0 height created tx i parts (many ts) st h =
      place_all-Keeps c0 height created tx parts ts st h

  abbrev pub Kept : TokenCache Amount → State p x → Type 0
  Kept c0 st = Keeps p c0 st.cache

  module _ (height created : ℕ) (c0 : TokenCache Amount) where
    create-returns :
        (tx : Tx) (i : ℕ) (txin : TxIn) (cum : List ℕ) (st : State p x)
        → All (IsKnown prevouts) tx.inputs
        → i < length tx.inputs
        → Kept c0 st
        → Results (Kept c0) (create_inscriptions p x height created tx i txin cum prevouts st)
    unfolding create_inscriptions parse_inscription
    create-returns tx i txin cum st known at h =
        let parts = parts_of p x tx txin st.outpoint_to_partials in
        let old =
          or_default (record { inscription_index = 0; genesis_txid = tx.hash; parts = [] })
            (lookup OutPoint-discrete txin.outpoint st.outpoint_to_partials) in
        let small : i % 2 ^ 32 < length tx.inputs = omega (arith, at) in
        Results->>= Any (Kept c0)
          (parse_inscription p x tx (i % 2 ^ 32) cum parts prevouts st.leaked) _
          (Results->>= Any Any (from_parts instructions parts.parts (i % 2 ^ 32)) _
            (from_parts-returns p x prevouts old.parts (part_of p x txin txin.tapscript)
              (i % 2 ^ 32))
            λ r u.
              parsed_result-returns p x prevouts tx known (i % 2 ^ 32) small cum parts st.leaked r)
          λ r u. take_result-Keeps c0 height created tx i parts r.0 _ h

    parse_input-returns :
        (tx : Tx) (i : ℕ) (txin : TxIn) (cum : List ℕ) (st : State p x)
        → All (IsKnown prevouts) tx.inputs
        → IsKnown prevouts txin
        → i < length tx.inputs
        → Kept c0 st
        → Results (Kept c0) (parse_input p x height created tx i txin cum prevouts st)
    unfolding parse_input move_inscriptions
    parse_input-returns tx i txin cum st known k at h =
        Results->>= (Kept c0) (Kept c0) (move_inscriptions p x tx i txin cum prevouts st) _
          (move_all-returns p x prevouts tx known i at c0 txin cum _ _ k h)
          λ s k'. creates (leb jubilee_height height || i == 0) s k'
      where
        creates :
            (b : Bool) (s : State p x)
            → Kept c0 s
            → Results (Kept c0) (
                if b then create_inscriptions p x height created tx i txin cum prevouts s else ok s)
        creates true s k' = create-returns tx i txin cum s known at k'
        creates false s k' = k'

    parse_inputs-returns :
        (tx : Tx) (i : ℕ) (is : List TxIn) (cum : List ℕ) (st : State p x)
        → All (IsKnown prevouts) tx.inputs
        → All (IsKnown prevouts) is
        → i + length is ≡ length tx.inputs
        → Kept c0 st
        → Results (Kept c0) (parse_inputs p x height created tx i is cum prevouts st)
    unfolding parse_inputs
    parse_inputs-returns tx i [] cum st known k at h = h
    parse_inputs-returns tx i (n ∷ ns) cum st known k at h =
        Results->>= (Kept c0) (Kept c0) (parse_input p x height created tx i n cum prevouts st) _
          (parse_input-returns tx i n cum st known k.0 (omega (arith, at)) h)
          λ s k'. parse_inputs-returns tx (i + 1) ns cum s known k.1 (omega (arith, at)) k'

    parse_tx-returns :
        (tx : Tx) (st : State p x)
        → All (IsKnown prevouts) tx.inputs
        → Kept c0 st
        → Results (Kept c0) (parse_tx p x height created tx prevouts st)
    unfolding parse_tx
    parse_tx-returns tx st known h =
        Results->>= Any (Kept c0) (add_tx_fee tx prevouts st.leaked) _
          (add_tx_fee-returns prevouts tx st.leaked known)
          λ l u.
            Results->>= _ (Kept c0) (unwrap (calc_offsets tx prevouts)) _
              (unwrap-returns (calc_offsets tx prevouts) (calc_offsets-IsSome prevouts tx known))
              λ cum e. parse_inputs-returns tx 0 tx.inputs cum _ known known (omega arith) h

    parse_txs-returns :
        (txs : List Tx) (st : State p x)
        → All (SpendsKnown prevouts) txs
        → Kept c0 st
        → Results (Kept c0) (parse_txs p x height created prevouts txs st)
    unfolding parse_txs
    parse_txs-returns [] st k h = h
    parse_txs-returns (tx ∷ txs) st k h =
        Results->>= (Kept c0) (Kept c0)
          (if is_coinbase tx
            then ok (record st { leaked = new tx })
            else parse_tx p x height created tx prevouts st)
          _ (one (is_coinbase tx) k.0) λ s k'. parse_txs-returns txs s k.1 k'
      where
        one :
            (b : Bool)
            → (b ≡ false → All (IsKnown prevouts) tx.inputs)
            → Results (Kept c0) (
                if b
                then ok (record st { leaked = new tx })
                else parse_tx p x height created tx prevouts st)
        one true known = h
        one false known = parse_tx-returns tx st (known refl) h

    pub parse_from-returns :
        (coinbase : Tx) (txs : List Tx) (stored : Map OutPoint Partials)
        (offsets : Map OutPoint (List ℕ))
        → is_coinbase coinbase ≡ true
        → All (SpendsKnown prevouts) txs
        → Results
            (Kept c0)
            (parse_from p x height created prevouts (coinbase ∷ txs) c0 stored offsets)
    unfolding is_coinbase parse_txs
    parse_from-returns coinbase txs stored offsets c k =
        rw (c, Results)
          (parse_txs-returns txs
            (record {
              cache = c0;
              outpoint_to_partials = stored;
              offsets = offsets;
              leaked = new coinbase;
              inscription_index = 0;
            })
            k (Keeps-refl p c0))

  -- A block that starts with a coinbase, and of which the outputs that the others spend are known, is
  -- parsed without a panic; the tokens, the accounts and the valid transfers stay as they were, and
  -- the actions that it queues stand behind those that were queued before.
  pub parse_block-Keeps :
      (height timestamp : ℕ) (coinbase : Tx) (txs : List Tx) (db : Db Amount)
      (c0 : TokenCache Amount)
      → is_coinbase coinbase ≡ true
      → All (SpendsKnown prevouts) txs
      → Results
          (λ (r : TokenCache Amount × List (ProcessedData Amount)). Keeps p c0 r.0)
          (parse_block p x height
            (record { timestamp = timestamp; txs = coinbase ∷ txs })
            prevouts
            db
            c0)
  unfolding parse_block
  parse_block-Keeps height timestamp coinbase txs db c0 c k =
      let stored = multi_get_kv (keys_of p x prevouts) db.outpoint_to_partials in
      let offsets = multi_get_kv (keys_of p x prevouts) db.outpoint_to_inscription_offsets in
      Results->>= (Kept c0)
        (λ (r : TokenCache Amount × List (ProcessedData Amount)). Keeps p c0 r.0)
        (parse_from p x height timestamp prevouts (coinbase ∷ txs) c0 stored offsets) _
        (parse_from-returns height timestamp c0 coinbase txs stored offsets c k)
        λ st h.
          Results->>= Any (λ (r : TokenCache Amount × List (ProcessedData Amount)). Keeps p c0 r.0)
            (get_leaked_inscriptions st.leaked) _ (get_leaked_inscriptions-returns st.leaked)
            λ ls u. h
