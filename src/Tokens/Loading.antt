-- ===== src/Tokens/Loading.antt =====
-- `TokenCache::load_tokens_data` of src/tokens/parser.rs: the tokens and the accounts that the queued
-- actions of a block need, from the tables. Hash sets are lists here.
pub mod Tables
pub mod Loaded
use wjk_20_indexer.Prelude.{
  ◌≡◌, refl, Option, none, some, List, [], ◌∷◌, ◌++◌, Map, lookup, All, ite, if_pos, if_neg,
  Option-cases, inl, inr,
}
use wjk_20_indexer.Store.{Table, multi_get_kv, with_found}
use wjk_20_indexer.Tokens.Platform.{Platform}
use wjk_20_indexer.Tokens.Types.{
  FullHash, OriginalTokenTick, LowerCaseTokenTick, Location, AddressToken, TransferProtoDb,
  TokenMeta, TokenAction, TokenBalance, TokenCache, Bytes-discrete, Location-discrete,
  AddressToken-discrete,
}
use wjk_20_indexer.Tokens.Cache.{lower}
use wjk_20_indexer.Db.{Db}

module _ (p : Platform) where
  open p use {Amount, op_return_hash}

  -- `all_transfers.get(..)`, or else the transfer of `valid_transfers`
  abbrev pub or_valid :
      Option (TransferProtoDb Amount)
      → Option (FullHash × TransferProtoDb Amount)
      → Option (TransferProtoDb Amount)
  or_valid (some t) valid = some t
  or_valid none (some (address, t)) = some t
  or_valid none none = none

  -- `proto` of a queued move
  abbrev pub moved : Location → TokenCache Amount → Option (TransferProtoDb Amount)
  moved location c =
      or_valid (lookup Location-discrete location c.all_transfers)
        (lookup Location-discrete location c.valid_transfers)

  abbrev pub owner_of :
      Option (FullHash × TransferProtoDb Amount)
      → OriginalTokenTick
      → List (FullHash × OriginalTokenTick)
  owner_of none tick = []
  owner_of (some (address, t)) tick = (address, tick) ∷ []

  abbrev pub moved_tickers : Option (TransferProtoDb Amount) → List LowerCaseTokenTick
  moved_tickers none = []
  moved_tickers (some t) = lower p t.tick ∷ []

  -- The recipient, but for the burn address, and the sender of a valid transfer
  abbrev pub moved_users :
      FullHash
      → Option (TransferProtoDb Amount)
      → Option (FullHash × TransferProtoDb Amount)
      → List (FullHash × OriginalTokenTick)
  moved_users recipient none valid = []
  moved_users recipient (some t) valid =
      ite (Bytes-discrete recipient op_return_hash) [] ((recipient, t.tick) ∷ [])
      ++ owner_of valid t.tick

  -- What one turn of the loop inserts into the tickers
  unfoldable pub action_tickers : TokenCache Amount → TokenAction Amount → List LowerCaseTokenTick
  action_tickers c (TokenAction.deploy genesis proto owner) = lower p proto.tick ∷ []
  action_tickers c (TokenAction.mint owner proto txid vout) = lower p proto.tick ∷ []
  action_tickers c (TokenAction.transfer location owner proto txid vout) = lower p proto.tick ∷ []
  action_tickers c (TokenAction.transferred location recipient txid vout) =
      moved_tickers (moved location c)

  -- What it inserts into the users
  unfoldable pub action_users :
      TokenCache Amount → TokenAction Amount → List (FullHash × OriginalTokenTick)
  action_users c (TokenAction.deploy genesis proto owner) = []
  action_users c (TokenAction.mint owner proto txid vout) = (owner, proto.tick) ∷ []
  action_users c (TokenAction.transfer location owner proto txid vout) = (owner, proto.tick) ∷ []
  action_users c (TokenAction.transferred location recipient txid vout) =
      moved_users recipient (moved location c) (lookup Location-discrete location c.valid_transfers)

  -- The loop of `fill_tickers_and_users`
  unfoldable pub fill_tickers_and_users :
      TokenCache Amount
      → List (TokenAction Amount)
      → List LowerCaseTokenTick × List (FullHash × OriginalTokenTick)
  unfolding action_tickers action_users
  fill_tickers_and_users c [] = ([], [])
  fill_tickers_and_users c (a ∷ as_) =
      let rest = fill_tickers_and_users c as_ in
      (action_tickers c a ++ rest.0, action_users c a ++ rest.1)

  abbrev pub key_of : FullHash → Option (TokenMeta Amount) → List AddressToken → List AddressToken
  key_of address none rest = rest
  key_of address (some m) rest = record { address = address; token = m.proto.tick } ∷ rest

  -- `keys`: the accounts of the users at the tokens that there are
  unfoldable pub account_keys :
      Map LowerCaseTokenTick (TokenMeta Amount)
      → List (FullHash × OriginalTokenTick)
      → List AddressToken
  account_keys tokens [] = []
  account_keys tokens ((address, tick) ∷ users) =
      key_of address (lookup Bytes-discrete (lower p tick) tokens) (account_keys tokens users)

  unfoldable pub load_tokens_data : Db Amount → TokenCache Amount → TokenCache Amount
  unfolding fill_tickers_and_users account_keys multi_get_kv
  load_tokens_data db c =
      let filled = fill_tickers_and_users c c.token_actions in
      let tokens = multi_get_kv filled.0 db.token_to_meta in
      record c {
        tokens = tokens;
        token_accounts = multi_get_kv (account_keys tokens filled.1) db.address_token_to_balance;
      }
