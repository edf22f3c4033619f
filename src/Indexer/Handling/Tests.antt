-- ===== src/Indexer/Handling/Tests.antt =====
-- The handling of a block that moves an inscription.
use wjk_20_indexer.Prelude.{
  ℕ, ◌+◌, ◌*◌, ◌^◌, ◌<◌, ◌≤◌, ◌≡◌, refl, sym, ap, ◌∙◌, remove, Outcome, panic, subst, none, some,
  List, [], ◌∷◌, All, ite, if_pos, if_neg, length, lookup, insert, ℕ_discrete, ok, total, arith,
}
use wjk_20_indexer.Tokens.Types.{
  TokenCache, HistoryTokenAction, OriginalTokenTick, AddressToken, TokenMeta, TransferProtoDb,
  Bytes-discrete, OutPoint-discrete, Location-discrete, AddressToken-discrete,
  AddressLocation-discrete, trim_tick_bytes, rposition_nonzero,
}
use wjk_20_indexer.Tokens.Tests.{numbers, nobody, place, start, wojk, deployed}
use wjk_20_indexer.Tokens.Cache.{lower, account}
use wjk_20_indexer.Db.{Db}
use wjk_20_indexer.Tokens.Loading.Loaded.{Loaded, load_tokens_data-Loaded}
use wjk_20_indexer.Tokens.Holders.{Holders, or_default, change, SortedByBalance-discrete}
use wjk_20_indexer.Tokens.Process.{process_token_actions, process_all, process_action}
use wjk_20_indexer.Tokens.Moving.{
  deliver, withdraw, move_checked, move_transfer, process_transferred,
}
use wjk_20_indexer.Tokens.Process.Sums.{held, supply_of, pending, counted}
use wjk_20_indexer.Tokens.Process.Invariant.{
  IsValid, IsQueued, TransfersKnown, TokensSound, TokenOk, Known,
}
use wjk_20_indexer.Tokens.Loading.{
  load_tokens_data, fill_tickers_and_users, account_keys, action_tickers, action_users,
}
use wjk_20_indexer.Store.{multi_get_kv}
use wjk_20_indexer.Parser.Blocks.{parse_block}
use wjk_20_indexer.Parser.Tests.{
  context, unspendable, rewarded, spending, tables, spent, prevouts_write, pair, minted_meta,
  set_aside, token_tables, loaded_cache, moved_cache, pair_run, pair_parsed, found_in_token_tables,
  first_is_coinbase,
}
use wjk_20_indexer.Reorg.Data.{ProcessedData}
use wjk_20_indexer.Indexer.Handling.{Host, load, load_transfers, handle_block}
use wjk_20_indexer.Indexer.Handling.Returned.{Returns, handle_block-Returns}
use wjk_20_indexer.Indexer.Handling.Written.{BlockWritten}

abbrev pub host : Host numbers
host = record {
  context = context;
  range = λ t from to. [];
  is_provably_unspendable = unspendable;
  address_of = λ script. none;
  to_json = λ e addresses. some [];
  default_hash = [];
  start_height = 0;
}

-- A table whose transfers all stand at the first place of their output.
abbrev token_host : Host numbers
token_host = record host {
  range = λ t from to. elim (t from) [ none ↦ [] | some v ↦ (from, v) ∷ [] ];
}

loaded : load numbers token_host spent token_tables ≡ loaded_cache
unfolding load load_transfers insert AddressLocation-discrete Location-discrete OutPoint-discrete
    Bytes-discrete ℕ_discrete
loaded = refl

abbrev owner_key : AddressToken
owner_key = record { address = 3 ∷ []; token = wojk }

-- The cache with the token, and the account of the owner; the recipient has none.
abbrev ready_cache : TokenCache ℕ
ready_cache = record moved_cache {
  tokens = (lower numbers wojk, minted_meta) ∷ [];
  token_accounts =
      (owner_key, record { balance = 0; transferable_balance = 25; transfers_count = 1 }) ∷ [];
}

moved_loaded : load_tokens_data numbers token_tables moved_cache ≡ ready_cache
unfolding load_tokens_data fill_tickers_and_users action_tickers action_users account_keys
    multi_get_kv lookup trim_tick_bytes rposition_nonzero AddressToken-discrete Location-discrete
    OutPoint-discrete Bytes-discrete ℕ_discrete
moved_loaded = refl

held-wojk : held numbers wojk ready_cache ≡ 25
unfolding held total Bytes-discrete ℕ_discrete
held-wojk = refl

supply_wojk : supply_of numbers wojk ready_cache ≡ 60
unfolding supply_of lookup trim_tick_bytes rposition_nonzero Bytes-discrete ℕ_discrete
supply_wojk = refl

ready_backed :
    (t : OriginalTokenTick) → held numbers t ready_cache ≤ supply_of numbers t ready_cache
unfolding held total
ready_backed t = elim (Bytes-discrete wojk t) [
  | yes same ↦
      subst
        (λ (x : OriginalTokenTick). held numbers x ready_cache ≤ supply_of numbers x ready_cache)
        same (omega (arith, held-wojk, supply_wojk))
  | no other ↦
      let none_held : held numbers t ready_cache ≡ 0 =
        rw (held, if_neg (Bytes-discrete wojk t) other) refl in
      omega (arith, none_held)
]

ready_amounts :
    (k : AddressToken)
    → pending numbers k ready_cache ≤ (account numbers k ready_cache).transferable_balance
unfolding pending total lookup
ready_amounts k = ground arith

ready_counts :
    (k : AddressToken)
    → counted numbers k ready_cache ≤ (account numbers k ready_cache).transfers_count
unfolding counted total lookup
ready_counts k = ground arith

ready_room : (k : AddressToken) → (account numbers k ready_cache).transfers_count + 1 < 2 ^ 64
unfolding lookup
ready_room k = ground arith

wojk_found : lookup Bytes-discrete (lower numbers wojk) ready_cache.tokens ≡ some minted_meta
unfolding lookup trim_tick_bytes rposition_nonzero Bytes-discrete ℕ_discrete
wojk_found = refl

ready_known : TransfersKnown numbers ready_cache
unfolding lookup
ready_known l s e q = elim (Location-discrete l place) [
  | yes here ↦
      let found : some (3 ∷ [], set_aside) ≡ some (s, e) =
        rw (if_pos (Location-discrete l place) here) at q in
      let same : set_aside ≡ e = cc found in
      subst (λ (x : TransferProtoDb ℕ). Known numbers ready_cache x) same
        (minted_meta, wojk_found, refl)
  | no away ↦ cc (rw (if_neg (Location-discrete l place) away) at q)
]

ready_sound : TokensSound numbers ready_cache
unfolding lookup
ready_sound l m e = elim (Bytes-discrete l (lower numbers wojk)) [
  | yes here ↦
      let found : some minted_meta ≡ some m =
        rw (if_pos (Bytes-discrete l (lower numbers wojk)) here) at e in
      let same : minted_meta ≡ m = cc found in
      subst (λ (x : TokenMeta ℕ). TokenOk numbers l x) same
        (record { lowered = sym here; minted_le = omega arith; max_le = omega arith })
  | no away ↦ cc (rw (if_neg (Bytes-discrete l (lower numbers wojk)) away) at e)
]

ready-IsValid : IsValid numbers 1 ready_cache
ready-IsValid = record {
  sound = ready_sound;
  backed = ready_backed;
  amounts = ready_amounts;
  counts = ready_counts;
  known = ready_known;
  room = ready_room;
}

abbrev counted_actions : Outcome (TokenCache ℕ × Holders ℕ × List (HistoryTokenAction ℕ)) → ℕ
counted_actions panic = 0
counted_actions (ok r) = length r.2

one_sent : counted_actions (process_token_actions numbers ready_cache nobody) ≡ 1
unfolding process_token_actions process_all process_action process_transferred move_transfer
    move_checked deliver withdraw change lookup insert remove trim_tick_bytes rposition_nonzero
    Bytes-discrete OutPoint-discrete Location-discrete AddressToken-discrete
    SortedByBalance-discrete ℕ_discrete
one_sent = refl

abbrev Ready : TokenCache ℕ → Type 0
Ready parsed =
    IsValid numbers (length (load_tokens_data numbers token_tables parsed).token_actions)
      (load_tokens_data numbers token_tables parsed)
    × All (IsQueued numbers (load_tokens_data numbers token_tables parsed))
        (load_tokens_data numbers token_tables parsed).token_actions
    × ((c' : TokenCache ℕ) (holders' : Holders ℕ) (actions : List (HistoryTokenAction ℕ))
        → process_token_actions numbers (load_tokens_data numbers token_tables parsed) nobody
          ≡ ok (c', holders', actions)
        → or_default 0 token_tables.last_history_id + 2 * length actions < 2 ^ 64)

moved-Ready : Ready moved_cache
moved-Ready = rw moved_loaded (
  ready-IsValid,
  (tt, tt),
  (λ c' holders' actions e.
      let count : length actions ≡ 1 = sym (ap counted_actions e) ∙ one_sent in
      omega (arith, count)),
)

parsed-Ready :
    (parsed : TokenCache ℕ) (writes : List (ProcessedData ℕ))
    → parse_block numbers context 7 pair spent token_tables
        (load numbers token_host spent token_tables)
      ≡ ok (parsed, writes)
    → Ready parsed
parsed-Ready parsed writes e =
    let q : ok (moved_cache, pair_run.1) ≡ ok (parsed, writes) = rw (loaded, pair_parsed) at e in
    let same : moved_cache ≡ parsed = cc q in subst (λ (c : TokenCache ℕ). Ready c) same moved-Ready

-- The block moves the transfer that was set aside to the owner of its first output.
handle_block-Returns_example :
    Returns
      (BlockWritten numbers token_host 7 1
        (4 ∷ [])
        (rewarded ∷ spending ∷ [])
        token_tables
        nobody
        spent)
      (handle_block numbers token_host 7 (4 ∷ []) pair token_tables nobody)
handle_block-Returns_example =
    handle_block-Returns numbers token_host 7 1 (4 ∷ []) rewarded spending [] token_tables nobody
      spent prevouts_write (λ e addresses. ([], refl)) first_is_coinbase (omega arith)
      found_in_token_tables parsed-Ready

abbrev with_token : Db ℕ
with_token = record tables {
  token_to_meta = λ k. ite (Bytes-discrete k (lower numbers wojk)) (some deployed) none;
  address_token_to_balance =
      λ k. some (record { balance = 9; transferable_balance = 0; transfers_count = 1 });
}

load_tokens_data-Loaded_example :
    All
      (Loaded numbers with_token start (load_tokens_data numbers with_token start))
      start.token_actions
    × ((load_tokens_data numbers with_token start).token_actions ≡ start.token_actions)
    × ((load_tokens_data numbers with_token start).all_transfers ≡ start.all_transfers)
    × ((load_tokens_data numbers with_token start).valid_transfers ≡ start.valid_transfers)
load_tokens_data-Loaded_example = load_tokens_data-Loaded numbers with_token start
