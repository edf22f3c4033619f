-- ===== src/Parser/Blocks.antt =====
-- `parse_block` of src/inscriptions/parser.rs: the loops over the transactions of a block, their
-- inputs and the inscriptions there.
use wjk_20_indexer.Prelude.{
  ℕ, ◌+◌, ◌%◌, ◌^◌, Bool, true, false, not, ◌&&◌, ◌||◌, Option, none, some, List, [], ◌∷◌, ◌++◌,
  map, Bytes, Map, lookup, insert, remove, get_elem?, leb, ◌==◌, ite, if◌then◌else◌, Outcome, ok,
  panic, ◌>>=◌,
}
use wjk_20_indexer.Store.{multi_get_kv}
use wjk_20_indexer.Tokens.Platform.{Platform}
use wjk_20_indexer.Tokens.Types.{
  OutPoint, Location, TokenCache, Bytes-discrete, OutPoint-discrete, Location-discrete,
}
use wjk_20_indexer.Tokens.Parsing.{
  InscriptionTemplate, parse_token_action, transferred, burned_transfer,
}
use wjk_20_indexer.Tokens.Holders.{or_default}
use wjk_20_indexer.Db.{Db}
use wjk_20_indexer.Db.Types.{TxPrevout, Part, Partials}
use wjk_20_indexer.Inscriptions.Types.{TxIn, TxOut, Tx, add_u64}
use wjk_20_indexer.Inscriptions.Offsets.{calc_offsets, get_output_index_by_input}
use wjk_20_indexer.Inscriptions.Leaked.{
  LeakedInscriptions, move, unwrap, add, add_tx_fee, get_leaked_inscriptions,
}
use wjk_20_indexer.Inscriptions.Leaked
use wjk_20_indexer.Reorg.Data.{ProcessedData}
use wjk_20_indexer.Parser.{
  Context, ParsedInscriptionResult, nothing, partials, single, many, Block, State, is_coinbase,
  parse_inscription,
}

-- `insert` of a set of offsets, and whether the offset is new.
abbrev pub contains : ℕ → List ℕ → Bool
contains n [] = false
contains n (m ∷ ms) = n == m || contains n ms

-- `entry(outpoint).or_default().insert(offset)`
unfoldable pub insert_offset : OutPoint → ℕ → Map OutPoint (List ℕ) → Map OutPoint (List ℕ)
insert_offset outpoint offset offsets =
    let old = or_default [] (lookup OutPoint-discrete outpoint offsets) in
    insert OutPoint-discrete outpoint (if contains offset old then old else offset ∷ old) offsets

unfoldable pub is_occupied : OutPoint → ℕ → Map OutPoint (List ℕ) → Bool
is_occupied outpoint offset offsets =
    contains offset (or_default [] (lookup OutPoint-discrete outpoint offsets))

abbrev pub is_some {ℓ} : {A : Type ℓ} → Option A → Bool
is_some none = false
is_some (some a) = true

abbrev pub place_of : Option ℕ → ℕ → Option ℕ
place_of none inscription_offset = none
place_of (some start) inscription_offset = some (add_u64 start inscription_offset)

module _ (p : Platform) (x : Context p) where
  open p use {Amount, op_return_hash}
  open x use {chain, from_json, is_op_return, sha256, jubilee_height}

  -- The move of a token transfer to an output, which may burn it.
  unfoldable pub move_transfer : Tx → Location → ℕ → TxOut → TokenCache Amount → TokenCache Amount
  move_transfer tx old_location vout out cache =
      if is_op_return out.script_pubkey
      then burned_transfer p chain from_json old_location tx.hash vout cache
      else transferred p chain from_json old_location (sha256 out.script_pubkey) tx.hash vout cache

  -- An inscription that moves to the place that is found for it
  unfoldable pub move_found : Tx → Location → Bool → ℕ × ℕ → State p x → Outcome (State p x)
  unfolding move_transfer insert_offset
  move_found tx old_location is_transfer (vout, offset) st = do
    let st1 = record st {
      offsets = insert_offset (record { txid = tx.hash; vout = vout }) offset st.offsets;
    }
    if is_transfer
        then (unwrap (get_elem? tx.outputs vout) >>= λ (out : TxOut).
            ok (record st1 { cache = move_transfer tx old_location vout out st.cache }))
        else ok st1

  -- A token transfer that is spent on fees comes back to its owner.
  unfoldable pub come_back :
      Tx
      → TxIn
      → Location
      → Bool
      → Map OutPoint TxPrevout
      → TokenCache Amount
      → Outcome (TokenCache Amount)
  come_back tx txin old_location is_transfer prevouts cache =
      if is_transfer
      then (unwrap (lookup OutPoint-discrete txin.outpoint prevouts) >>= λ (owner : TxPrevout).
          ok (transferred p chain from_json old_location owner.script_hash tx.hash 0 cache))
      else ok cache

  unfoldable pub move_leaked :
      Tx → ℕ → TxIn → ℕ → Bool → Map OutPoint TxPrevout → State p x → Outcome (State p x)
  unfolding come_back
  move_leaked tx input_index txin inscription_offset is_transfer prevouts st = do
    cache ←
        come_back tx txin (record { outpoint = txin.outpoint; offset = inscription_offset })
          is_transfer prevouts st.cache
    leaked ← add input_index tx inscription_offset prevouts move st.leaked
    ok (record st { cache = cache; leaked = leaked })

  -- The loop over the offsets of the inscriptions at an input
  unfoldable pub move_all :
      Tx → ℕ → TxIn → List ℕ → Map OutPoint TxPrevout → List ℕ → State p x → Outcome (State p x)
  unfolding move_found move_leaked
  move_all tx input_index txin inputs_cum prevouts [] st = ok st
  move_all tx input_index txin inputs_cum prevouts (o ∷ os) st = do
    let old_location : Location = record { outpoint = txin.outpoint; offset = o }
    let is_transfer = is_some (lookup Location-discrete old_location st.cache.all_transfers)
    st1 ←
        (elim (get_output_index_by_input (place_of (get_elem? inputs_cum input_index) o)
          tx.outputs) [
            | none ↦ move_leaked tx input_index txin o is_transfer prevouts st
            | some found ↦ move_found tx old_location is_transfer found st
          ])
    move_all tx input_index txin inputs_cum prevouts os st1

  -- `inscription_outpoint_to_offsets.remove(..)`, and the loop when there was an entry.
  unfoldable pub move_inscriptions :
      Tx → ℕ → TxIn → List ℕ → Map OutPoint TxPrevout → State p x → Outcome (State p x)
  unfolding move_all
  move_inscriptions tx input_index txin inputs_cum prevouts st =
      move_all tx input_index txin inputs_cum prevouts
        (or_default [] (lookup OutPoint-discrete txin.outpoint st.offsets))
        (record st { offsets = remove OutPoint-discrete txin.outpoint st.offsets })

  -- Whether the inscriptions of an input are of this transaction, and not continued from another.
  abbrev pub is_genesis : Tx → Partials → Bool
  is_genesis tx parts = ite (Bytes-discrete parts.genesis_txid tx.hash) true false

  -- The part of an input: its tapscript, or its signature script.
  abbrev pub part_of : TxIn → Option Bytes → Part
  part_of txin none = record { is_tapscript = false; script_buffer = txin.script_sig }
  part_of txin (some script) = record { is_tapscript = true; script_buffer = script }

  -- `inscription_template.genesis.index = inscription_index_in_tx`, counting up
  abbrev pub numbered : List InscriptionTemplate → ℕ → List InscriptionTemplate × ℕ
  numbered [] n = ([], n)
  numbered (t ∷ ts) n =
      let (rest, end) = numbered ts ((n + 1) % 2 ^ 32) in
      (record t { genesis = record { txid = t.genesis.txid; index = n } } ∷ rest, end)

  abbrev pub numbered_if : Bool → List InscriptionTemplate → ℕ → List InscriptionTemplate × ℕ
  numbered_if false ts n = (ts, n)
  numbered_if true ts n = numbered ts n

  -- One turn of the loop over the templates
  unfoldable pub place_template : ℕ → ℕ → InscriptionTemplate → State p x → State p x
  unfolding insert_offset is_occupied
  place_template height created t st =
      let offset_occupied =
        not (jubilee_height == 133000)
        && is_occupied t.location.outpoint t.location.offset st.offsets in
      let st1 = record st {
        offsets = insert_offset t.location.outpoint t.location.offset st.offsets;
      } in
      if not t.leaked && (offset_occupied && not (leb jubilee_height height))
      then st1
      else record st1 { cache = parse_token_action p chain from_json t height created st.cache }

  unfoldable pub place_templates : ℕ → ℕ → List InscriptionTemplate → State p x → State p x
  unfolding place_template
  place_templates height created [] st = st
  place_templates height created (t ∷ ts) st =
      place_templates height created ts (place_template height created t st)

  -- Partials that go on, kept under the output with the number of the input if there is one.
  unfoldable pub keep_partials : Tx → ℕ → Partials → State p x → State p x
  keep_partials tx input_index parts st =
      let first = is_genesis tx parts in
      let kept =
        if first then record parts { inscription_index = st.inscription_index } else parts in
      record st {
        inscription_index =
            if first then (st.inscription_index + 1) % 2 ^ 32 else st.inscription_index;
        outpoint_to_partials =
            if is_some (get_elem? tx.outputs input_index)
            then insert OutPoint-discrete (record { txid = tx.hash; vout = input_index % 2 ^ 32 })
                kept st.outpoint_to_partials
            else st.outpoint_to_partials;
      }

  unfoldable pub place_all :
      ℕ → ℕ → Tx → Partials → List InscriptionTemplate → State p x → State p x
  unfolding place_templates
  place_all height created tx parts ts st =
      let (ts', n) = numbered_if (is_genesis tx parts) ts st.inscription_index in
      place_templates height created ts' (record st { inscription_index = n })

  -- The `match` on what was parsed, with the loop over the templates
  unfoldable pub take_result :
      ℕ → ℕ → Tx → ℕ → Partials → ParsedInscriptionResult → State p x → State p x
  unfolding keep_partials place_all
  take_result height created tx input_index parts nothing st = st
  take_result height created tx input_index parts partials st =
      keep_partials tx input_index parts st
  take_result height created tx input_index parts (single t) st =
      place_all height created tx parts (t ∷ []) st
  take_result height created tx input_index parts (many ts) st =
      place_all height created tx parts ts st

  -- The partials that the input goes on with, and its own part
  abbrev pub parts_of : Tx → TxIn → Map OutPoint Partials → Partials
  parts_of tx txin stored =
      let old =
        or_default (record { inscription_index = 0; genesis_txid = tx.hash; parts = [] })
          (lookup OutPoint-discrete txin.outpoint stored) in
      record old { parts = old.parts ++ (part_of txin txin.tapscript ∷ []) }

  unfoldable pub create_inscriptions :
      ℕ → ℕ → Tx → ℕ → TxIn → List ℕ → Map OutPoint TxPrevout → State p x → Outcome (State p x)
  unfolding parse_inscription take_result
  create_inscriptions height created tx input_index txin inputs_cum prevouts st = do
    let parts = parts_of tx txin st.outpoint_to_partials
    let st1 = record st {
      outpoint_to_partials = remove OutPoint-discrete txin.outpoint st.outpoint_to_partials;
    }
    (result, leaked) ←
        parse_inscription p x tx (input_index % 2 ^ 32) inputs_cum parts prevouts st.leaked
    ok (take_result height created tx input_index parts result (record st1 { leaked = leaked }))

  -- The body of the loop over the inputs
  unfoldable pub parse_input :
      ℕ → ℕ → Tx → ℕ → TxIn → List ℕ → Map OutPoint TxPrevout → State p x → Outcome (State p x)
  unfolding move_inscriptions create_inscriptions
  parse_input height created tx input_index txin inputs_cum prevouts st = do
    st1 ← move_inscriptions tx input_index txin inputs_cum prevouts st
    if leb jubilee_height height || input_index == 0
        then create_inscriptions height created tx input_index txin inputs_cum prevouts st1
        else ok st1

  unfoldable pub parse_inputs :
      ℕ → ℕ → Tx → ℕ → List TxIn → List ℕ → Map OutPoint TxPrevout → State p x → Outcome (State p x)
  unfolding parse_input
  parse_inputs height created tx input_index [] inputs_cum prevouts st = ok st
  parse_inputs height created tx input_index (i ∷ is) inputs_cum prevouts st = do
    st1 ← parse_input height created tx input_index i inputs_cum prevouts st
    parse_inputs height created tx (input_index + 1) is inputs_cum prevouts st1

  -- A transaction that is not a coinbase
  unfoldable pub parse_tx : ℕ → ℕ → Tx → Map OutPoint TxPrevout → State p x → Outcome (State p x)
  unfolding add_tx_fee calc_offsets parse_inputs
  parse_tx height created tx prevouts st = do
    leaked ← add_tx_fee tx prevouts st.leaked
    inputs_cum ← unwrap (calc_offsets tx prevouts)
    parse_inputs height created tx 0 tx.inputs inputs_cum prevouts
        (record st { leaked = leaked; inscription_index = 0 })

  -- The loop over the transactions, once there is a coinbase
  unfoldable pub parse_txs :
      ℕ → ℕ → Map OutPoint TxPrevout → List Tx → State p x → Outcome (State p x)
  unfolding is_coinbase parse_tx
  parse_txs height created prevouts [] st = ok st
  parse_txs height created prevouts (tx ∷ txs) st = do
    st1 ←
        (if is_coinbase tx
          then ok (record st { leaked = Leaked.new tx })
          else parse_tx height created tx prevouts st)
    parse_txs height created prevouts txs st1

  -- A block whose first transaction is no coinbase panics, on `leaked`.
  abbrev pub parse_from :
      ℕ
      → ℕ
      → Map OutPoint TxPrevout
      → List Tx
      → TokenCache Amount
      → Map OutPoint Partials
      → Map OutPoint (List ℕ)
      → Outcome (State p x)
  unfolding is_coinbase parse_txs
  parse_from height created prevouts [] cache stored offsets = panic
  parse_from height created prevouts (tx ∷ txs) cache stored offsets =
      if is_coinbase tx
      then parse_txs height created prevouts txs (record {
        cache = cache;
        outpoint_to_partials = stored;
        offsets = offsets;
        leaked = Leaked.new tx;
        inscription_index = 0;
      })
      else panic

  abbrev pub insert_locations : List Location → Map OutPoint (List ℕ) → Map OutPoint (List ℕ)
  unfolding insert_offset
  insert_locations [] offsets = offsets
  insert_locations (l ∷ ls) offsets =
      insert_locations ls (insert_offset l.outpoint l.offset offsets)

  abbrev pub keys_of : Map OutPoint TxPrevout → List OutPoint
  keys_of m = map (λ e. e.0) m

  -- `parse_block`, with the two writes that it queues.
  unfoldable pub parse_block :
      ℕ
      → Block
      → Map OutPoint TxPrevout
      → Db Amount
      → TokenCache Amount
      → Outcome (TokenCache Amount × List (ProcessedData Amount))
  unfolding multi_get_kv parse_from get_leaked_inscriptions insert_locations
  parse_block height block prevouts db cache = do
    let stored = multi_get_kv (keys_of prevouts) db.outpoint_to_partials
    let prev_offsets = multi_get_kv (keys_of prevouts) db.outpoint_to_inscription_offsets
    st ← parse_from height block.timestamp prevouts block.txs cache stored prev_offsets
    locations ← get_leaked_inscriptions st.leaked
    ok (
      st.cache,
      ProcessedData.inscription_partials stored st.outpoint_to_partials
          ∷ ProcessedData.inscription_offset prev_offsets (insert_locations locations st.offsets)
          ∷ [],
    )
