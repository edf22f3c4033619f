-- ===== src/Tokens/Loading/Loaded.antt =====
-- What `load_tokens_data` of src/tokens/parser.rs has loaded for each queued action.
use wjk_20_indexer.Prelude.{
  ◌≡◌, refl, subst, ◌∙◌, Option, none, some, List, [], ◌∷◌, Map, lookup, All, ite, if_neg,
  Option-cases, inl, inr,
}
use wjk_20_indexer.Store.{multi_get_kv}
use wjk_20_indexer.Tokens.Platform.{Platform}
use wjk_20_indexer.Tokens.Types.{
  FullHash, OriginalTokenTick, LowerCaseTokenTick, AddressToken, TransferProtoDb, TokenMeta,
  TokenAction, TokenCache, Bytes-discrete, Location-discrete, AddressToken-discrete,
}
use wjk_20_indexer.Tokens.Cache.{lower}
use wjk_20_indexer.Tokens.Loading.{
  owner_of, moved, moved_tickers, moved_users, action_tickers, action_users, fill_tickers_and_users,
  account_keys, load_tokens_data,
}
use wjk_20_indexer.Db.{Db}
use wjk_20_indexer.Tokens.Loading.Tables.{All-map, All-append, All-lookup}

module _ (p : Platform) where
  open p use {Amount, op_return_hash}

  -- The token of a tick is in the cache as it is in the table.
  abbrev pub TokenLoaded : Db Amount → TokenCache Amount → OriginalTokenTick → Type 0
  TokenLoaded db c tick =
      lookup Bytes-discrete (lower p tick) c.tokens ≡ db.token_to_meta (lower p tick)

  -- If the token of a tick is deployed, so is the account of an address at it.
  abbrev pub AccountLoaded : Db Amount → TokenCache Amount → FullHash → OriginalTokenTick → Type 0
  AccountLoaded db c address tick =
      (m : TokenMeta Amount)
      → db.token_to_meta (lower p tick) ≡ some m
      → lookup AddressToken-discrete (record { address = address; token = m.proto.tick })
          c.token_accounts
        ≡ db.address_token_to_balance (record { address = address; token = m.proto.tick })

  -- All that an action of the cache `c` needs is in the cache `c'`.
  abbrev pub Loaded :
      Db Amount → TokenCache Amount → TokenCache Amount → TokenAction Amount → Type 0
  Loaded db c c' (TokenAction.deploy genesis proto owner) = TokenLoaded db c' proto.tick
  Loaded db c c' (TokenAction.mint owner proto txid vout) =
      TokenLoaded db c' proto.tick × AccountLoaded db c' owner proto.tick
  Loaded db c c' (TokenAction.transfer location owner proto txid vout) =
      TokenLoaded db c' proto.tick × AccountLoaded db c' owner proto.tick
  Loaded db c c' (TokenAction.transferred location recipient txid vout) =
      (t : TransferProtoDb Amount)
      → moved p location c ≡ some t
      → TokenLoaded db c' t.tick
        × (¬ (recipient ≡ op_return_hash) → AccountLoaded db c' recipient t.tick)
        × ((address : FullHash) (valid : TransferProtoDb Amount)
            → lookup Location-discrete location c.valid_transfers ≡ some (address, valid)
            → AccountLoaded db c' address t.tick)

  module _ (db : Db Amount) (c : TokenCache Amount) where
    abbrev KeyLoaded : TokenCache Amount → LowerCaseTokenTick → Type 0
    KeyLoaded c' k = lookup Bytes-discrete k c'.tokens ≡ db.token_to_meta k

    All-account_keys :
        (P : AddressToken → Type 0) (tokens : Map LowerCaseTokenTick (TokenMeta Amount))
        (users : List (FullHash × OriginalTokenTick))
        → All P (account_keys p tokens users)
        → All
            (λ u.
              (m : TokenMeta Amount)
              → lookup Bytes-discrete (lower p u.1) tokens ≡ some m
              → P (record { address = u.0; token = m.proto.tick }))
            users
    unfolding account_keys
    All-account_keys P tokens [] h = tt
    All-account_keys P tokens ((address, tick) ∷ users) h =
        elim (Option-cases (lookup Bytes-discrete (lower p tick) tokens)) [
          | inl missing ↦
              ((λ m e. cc (missing, e)), All-account_keys P tokens users (rw missing at h))
          | inr (n, found) ↦
              let h' = rw found at h in
              (
                (λ m e.
                    let same : n ≡ m = cc (found, e) in
                    subst
                      (λ (x : TokenMeta Amount).
                        P (record { address = address; token = x.proto.tick }))
                      same h'.0),
                All-account_keys P tokens users h'.1,
              )
        ]

    All-filled :
        (P : LowerCaseTokenTick → Type 0) (Q : FullHash × OriginalTokenTick → Type 0)
        (as_ : List (TokenAction Amount))
        → All P (fill_tickers_and_users p c as_).0
        → All Q (fill_tickers_and_users p c as_).1
        → All (λ a. All P (action_tickers p c a) × All Q (action_users p c a)) as_
    unfolding fill_tickers_and_users
    All-filled P Q [] h k = tt
    All-filled P Q (a ∷ as_) h k =
        let (h1, h2) = All-append P (action_tickers p c a) (fill_tickers_and_users p c as_).0 h in
        let (k1, k2) = All-append Q (action_users p c a) (fill_tickers_and_users p c as_).1 k in
        ((h1, k1), All-filled P Q as_ h2 k2)

    abbrev Account : TokenCache Amount → FullHash × OriginalTokenTick → Type 0
    Account c' u =
        (m : TokenMeta Amount)
        → lookup Bytes-discrete (lower p u.1) c'.tokens ≡ some m
        → lookup AddressToken-discrete (record { address = u.0; token = m.proto.tick })
            c'.token_accounts
          ≡ db.address_token_to_balance (record { address = u.0; token = m.proto.tick })

    accounted :
        (c' : TokenCache Amount) (a : FullHash) (tick : OriginalTokenTick)
        → TokenLoaded db c' tick
        → Account c' (a, tick)
        → AccountLoaded db c' a tick
    accounted c' a tick h k m e = k m (h ∙ e)

    move-Loaded :
        (c' : TokenCache Amount) (recipient : FullHash) (o : Option (TransferProtoDb Amount))
        (valid : Option (FullHash × TransferProtoDb Amount))
        → All (KeyLoaded c') (moved_tickers p o)
        → All (Account c') (moved_users p recipient o valid)
        → (t : TransferProtoDb Amount) → o ≡ some t
        → TokenLoaded db c' t.tick
          × (¬ (recipient ≡ op_return_hash) → AccountLoaded db c' recipient t.tick)
          × ((address : FullHash) (v : TransferProtoDb Amount)
              → valid ≡ some (address, v)
              → AccountLoaded db c' address t.tick)
    move-Loaded c' recipient none valid h k t e = cc
    move-Loaded c' recipient (some s) valid h k t e =
        let same : s.tick ≡ t.tick = cc in
        let (recipients, owners) =
          All-append (Account c')
            (ite (Bytes-discrete recipient op_return_hash) [] ((recipient, s.tick) ∷ []))
            (owner_of p valid s.tick) k in
        subst
          (λ (tick : OriginalTokenTick).
            TokenLoaded db c' tick
            × (¬ (recipient ≡ op_return_hash) → AccountLoaded db c' recipient tick)
            × ((address : FullHash) (v : TransferProtoDb Amount)
                → valid ≡ some (address, v)
                → AccountLoaded db c' address tick))
          same
          (
            h.0,
            (λ other.
                accounted c' recipient s.tick h.0
                  (rw
                    (
                      if_neg {C = List (FullHash × OriginalTokenTick)}
                          (Bytes-discrete recipient op_return_hash) other []
                          ((recipient, s.tick) ∷ []),
                      All,
                    )
                    at recipients).0),
            (λ address v found. accounted c' address s.tick h.0 (rw (found, owner_of) at owners).0),
          )

    Loaded-of :
        (c' : TokenCache Amount) (a : TokenAction Amount)
        → All (KeyLoaded c') (action_tickers p c a)
        → All (Account c') (action_users p c a)
        → Loaded db c c' a
    unfolding action_tickers action_users
    Loaded-of c' (TokenAction.deploy genesis proto owner) h k = h.0
    Loaded-of c' (TokenAction.mint owner proto txid vout) h k =
        (h.0, accounted c' owner proto.tick h.0 k.0)
    Loaded-of c' (TokenAction.transfer location owner proto txid vout) h k =
        (h.0, accounted c' owner proto.tick h.0 k.0)
    Loaded-of c' (TokenAction.transferred location recipient txid vout) h k =
        move-Loaded c' recipient (moved p location c)
          (lookup Location-discrete location c.valid_transfers) h k

    -- After `load_tokens_data` the cache has for each queued action the token of its tick as the table
    -- has it, and, when that token is deployed, the accounts that the action reads: of the owner of a
    -- mint or a transfer; of the recipient of a move, but for the burn address, and of its sender. The
    -- queue and the transfers are as they were.
    pub load_tokens_data-Loaded :
        All (Loaded db c (load_tokens_data p db c)) c.token_actions
        × ((load_tokens_data p db c).token_actions ≡ c.token_actions)
        × ((load_tokens_data p db c).all_transfers ≡ c.all_transfers)
        × ((load_tokens_data p db c).valid_transfers ≡ c.valid_transfers)
    unfolding load_tokens_data
    load_tokens_data-Loaded =
        let filled = fill_tickers_and_users p c c.token_actions in
        let tokens = multi_get_kv filled.0 db.token_to_meta in
        let c' = load_tokens_data p db c in
        let tickers = All-lookup Bytes-discrete db.token_to_meta filled.0 in
        let users =
          All-account_keys
            (λ k.
              lookup AddressToken-discrete k
                (multi_get_kv (account_keys p tokens filled.1) db.address_token_to_balance)
              ≡ db.address_token_to_balance k)
            tokens filled.1
            (All-lookup AddressToken-discrete db.address_token_to_balance
              (account_keys p tokens filled.1)) in
        (
          All-map
              (λ a.
                All (KeyLoaded c') (action_tickers p c a) × All (Account c') (action_users p c a))
              (Loaded db c c') c.token_actions (λ a (h, k). Loaded-of c' a h k)
              (All-filled (KeyLoaded c') (Account c') c.token_actions tickers users),
          refl,
          refl,
          refl,
        )
