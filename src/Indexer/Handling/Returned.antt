-- ===== src/Indexer/Handling/Returned.antt =====
-- What `handle_block` of src/inscriptions/indexer.rs gives for a block with token transactions.
use wjk_20_indexer.Prelude.{
  ℕ, ◌+◌, ◌*◌, ◌^◌, ◌<◌, ◌≤◌, ◌≡◌, refl, ap, ◌∙◌, true, some, ◌-◌, map, List, [], ◌∷◌, Bytes, Map,
  All, length, le→ltb, ok,
}
use wjk_20_indexer.Codec.{Decoded, panic, error, value}
use wjk_20_indexer.Tokens.Platform.{Platform}
use wjk_20_indexer.Tokens.Types.{
  OutPoint, OutPoint-discrete, HistoryTokenAction, TokenCache, FullHash,
}
use wjk_20_indexer.Tokens.Holders.{Holders, or_default}
use wjk_20_indexer.Tokens.Process.{process_token_actions}
use wjk_20_indexer.Tokens.Process.Invariant.{IsValid, IsQueued}
use wjk_20_indexer.Tokens.Process.Actions.{process_token_actions-IsValid}
use wjk_20_indexer.Tokens.Loading.{load_tokens_data}
use wjk_20_indexer.Db.{Db}
use wjk_20_indexer.Db.Types.{TxPrevout}
use wjk_20_indexer.Inscriptions.Types.{Tx}
use wjk_20_indexer.Parser.{Block, is_coinbase}
use wjk_20_indexer.Parser.Blocks.{parse_block, keys_of}
use wjk_20_indexer.Parser.Spent.{process_prevouts, created_prevouts, spent_keys, unique}
use wjk_20_indexer.Parser.Prevouts.{process_prevouts-parse_block}
use wjk_20_indexer.Reorg.Data.{ProcessedData}
use wjk_20_indexer.Reorg.Writes.{processed}
use wjk_20_indexer.Store.{multi_get_kv}
use wjk_20_indexer.Indexer.Numbers.{history_of-Appends}
use wjk_20_indexer.Indexer.Handling.Written.{BlockWritten}
use wjk_20_indexer.Indexer.Handling.Reads.{multi_get_kv-known}
use wjk_20_indexer.Db.Types.{AddressTokenIdDb, HistoryValue}
use wjk_20_indexer.Indexer.Handling.Shapes.{
  laid_out, not_one, Results-ok, prevouts-write, parse_block-writes, generate_history_hash-returns,
}
use wjk_20_indexer.Indexer.Handling.{
  Host, load, block_addresses, rest_addresses, address_locations, with_tokens, handle_block,
}

-- A value is returned, and it is in `P`.
abbrev pub Returns : {A : Type 0} → (A → Type 0) → Decoded A → Type 0
Returns P panic = ⊥
Returns P error = ⊥
Returns P (value a) = P a

module _ (p : Platform) (h : Host p) where
  open p use {Amount}
  open h use {context, is_provably_unspendable, start_height}

  -- A block from the start height on, whose first transaction is a coinbase among others, whose spent
  -- outputs are found, and whose parsed actions meet a valid cache and leave room for the numbers of
  -- the history, is handled without a panic or an error, when the entries of a history have JSON. Its
  -- writes are, in the order of `processed`: the outputs that it creates and spends, its addresses, the
  -- partials and offsets that the tables have at the spent outputs and those that the parser leaves, the
  -- entries of its history numbered on from the last number in the tables, the tokens, accounts and
  -- transfers of the valid cache that processing leaves, in place of the transfers that were loaded, and
  -- the hash and time of the block. Every spent output is known to the tables or among the created ones, and
  -- the old partials and offsets are those of the tables, as `Fits` asks of the block.
  pub handle_block-Returns :
      (height timestamp : ℕ) (hash : Bytes) (coinbase tx : Tx) (txs : List Tx) (db : Db Amount)
      (holders : Holders Amount) (prevouts : Map OutPoint TxPrevout) (spent : ProcessedData Amount)
      (json : (e : AddressTokenIdDb × HistoryValue Amount) (addresses : Map FullHash Bytes)
        → (bytes : Bytes) × (h.to_json e addresses ≡ some bytes))
      → is_coinbase coinbase ≡ true
      → start_height ≤ height
      → process_prevouts is_provably_unspendable context.sha256 db (coinbase ∷ tx ∷ txs)
        ≡ some (prevouts, spent)
      → ((parsed : TokenCache Amount) (writes : List (ProcessedData Amount))
          → parse_block p context height
              (record { timestamp = timestamp; txs = coinbase ∷ tx ∷ txs })
              prevouts
              db
              (load p h prevouts db)
            ≡ ok (parsed, writes)
          → IsValid p
              (length (load_tokens_data p db parsed).token_actions)
              (load_tokens_data p db parsed)
            × All
                (IsQueued p (load_tokens_data p db parsed))
                (load_tokens_data p db parsed).token_actions
            × ((c' : TokenCache Amount) (holders' : Holders Amount)
                  (actions : List (HistoryTokenAction Amount))
                → process_token_actions p (load_tokens_data p db parsed) holders
                  ≡ ok (c', holders', actions)
                → or_default 0 db.last_history_id + 2 * length actions < 2 ^ 64))
      → Returns (BlockWritten p h height timestamp hash (coinbase ∷ tx ∷ txs) db holders prevouts) (
          handle_block p h height hash
            (record { timestamp = timestamp; txs = coinbase ∷ tx ∷ txs })
            db
            holders)
  unfolding handle_block with_tokens processed
  handle_block-Returns height timestamp hash coinbase tx txs db holders prevouts spent json first
        start e v =
      let all = coinbase ∷ tx ∷ txs in
      let block : Block = record { timestamp = timestamp; txs = all } in
      let ks = keys_of p context prevouts in
      let ((parsed, writes), e1, k1) =
        Results-ok _ (parse_block p context height block prevouts db (load p h prevouts db)) (
          process_prevouts-parse_block p context is_provably_unspendable height timestamp coinbase
            (tx ∷ txs) db (load p h prevouts db) prevouts spent first e) in
      let (valid, queued, room) = v parsed writes e1 in
      let (c', holders', actions, e2, v2) =
        process_token_actions-IsValid p (load_tokens_data p db parsed) holders valid queued in
      let (r, e3, n, k3, m) =
        history_of-Appends height actions (or_default 0 db.last_history_id)
          (room c' holders' actions e2) in
      let (partials, offsets, ew) =
        parse_block-writes p context height block prevouts db (load p h prevouts db) parsed writes
          e1 in
      let (proof, ep) =
        generate_history_hash-returns p h json
          (or_default h.default_hash (db.proof_of_history (height - 1))) r.0
          (rest_addresses p h db actions (block_addresses p h all [])) in
      let (es, known) =
        prevouts-write is_provably_unspendable context.sha256 db all prevouts spent e in
      rw (e, le→ltb height start_height start, not_one (length txs), e1, e2, e3, ep, Returns)
        (record {
          w = record {
            height = height;
            outputs = created_prevouts is_provably_unspendable context.sha256 all [];
            inputs = unique (spent_keys all);
            addresses = block_addresses p h all [];
            partials_before = multi_get_kv ks db.outpoint_to_partials;
            partials_after = partials;
            offsets_before = multi_get_kv ks db.outpoint_to_inscription_offsets;
            offsets_after = offsets;
            last_history_id = r.1;
            entries = r.0;
            metas = c'.tokens;
            balances = c'.token_accounts;
            transfers_to_write = address_locations p h c'.valid_transfers;
            transfers_to_remove =
                map (λ q. q.0) (address_locations p h (load p h prevouts db).valid_transfers);
            block_info = record { hash = hash; created = timestamp };
            block_proof = proof;
          };
          laid = laid_out spent _ _ _ _ writes _ es ew;
          at_height = refl;
          block_info = refl;
          outputs = refl;
          inputs = refl;
          addresses = refl;
          parsed = parsed;
          parsing = e1 ∙ ap (λ ws. ok (parsed, ws)) ew;
          cache = c';
          actions = actions;
          processing = e2;
          valid = v2;
          metas = refl;
          balances = refl;
          written = refl;
          removed = refl;
          entries = refl;
          numbering = e3;
          numbered = n;
          partials_before = refl;
          offsets_before = refl;
          inputs_known = known;
          partials_known = λ k. multi_get_kv-known OutPoint-discrete k ks db.outpoint_to_partials;
          offsets_known =
              λ k. multi_get_kv-known OutPoint-discrete k ks db.outpoint_to_inscription_offsets;
        })
