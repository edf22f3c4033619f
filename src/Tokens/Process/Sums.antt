-- ===== src/Tokens/Process/Sums.antt =====
-- What the cache of src/tokens/parser.rs holds in sum: the amounts of a token on all loaded
-- accounts, and the valid transfers of an account.
use wjk_20_indexer.Prelude.{
  ℕ, ◌+◌, ◌≤◌, ◌≡◌, refl, Option, none, some, List, [], ◌∷◌, lookup, insert, lookup-insert, total,
  weight_at, total-insert, weight-le-total, ite, arith,
}
use wjk_20_indexer.Tokens.Platform.{Platform}
use wjk_20_indexer.Tokens.Types.{
  FullHash, OriginalTokenTick, Location, AddressToken, TokenBalance, TransferProtoDb,
  HistoryTokenAction, TokenMeta, TokenCache, Bytes-discrete, AddressToken-discrete,
}
use wjk_20_indexer.Tokens.Holders.{or_default}
use wjk_20_indexer.Tokens.Cache.{account, lower, empty_balance}

module _ (p : Platform) where
  open p use {Amount, units, op_return_hash, units-zero}

  abbrev pub held_weight : OriginalTokenTick → AddressToken → TokenBalance Amount → ℕ
  held_weight t k b =
      ite (Bytes-discrete k.token t) (units b.balance + units b.transferable_balance) 0

  -- All units of a token on the loaded accounts, free or set aside for transfers.
  unfoldable pub held : OriginalTokenTick → TokenCache Amount → ℕ
  held t c = total (held_weight t) c.token_accounts

  abbrev pub pending_weight : AddressToken → Location → FullHash × TransferProtoDb Amount → ℕ
  pending_weight key l (sender, entry) =
      ite (AddressToken-discrete (record { address = sender; token = entry.tick }) key)
        (units entry.amt) 0

  -- The amounts of an account's valid transfers.
  unfoldable pub pending : AddressToken → TokenCache Amount → ℕ
  pending key c = total (pending_weight key) c.valid_transfers

  abbrev pub counted_weight : AddressToken → Location → FullHash × TransferProtoDb Amount → ℕ
  counted_weight key l (sender, entry) =
      ite (AddressToken-discrete (record { address = sender; token = entry.tick }) key) 1 0

  -- The number of an account's valid transfers.
  unfoldable pub counted : AddressToken → TokenCache Amount → ℕ
  counted key c = total (counted_weight key) c.valid_transfers

  abbrev pub supply_at : OriginalTokenTick → Option (TokenMeta Amount) → ℕ
  supply_at t none = 0
  supply_at t (some m) = ite (Bytes-discrete m.proto.tick t) (units m.proto.supply) 0

  -- The recorded supply of the token deployed with this tick, 0 if there is none.
  unfoldable pub supply_of : OriginalTokenTick → TokenCache Amount → ℕ
  supply_of t c = supply_at t (lookup Bytes-discrete (lower p t) c.tokens)

  -- What a history entry mints, and what it burns, of a token.
  abbrev pub minted : OriginalTokenTick → Option (HistoryTokenAction Amount) → ℕ
  minted t none = 0
  minted t (some (HistoryTokenAction.deploy _ _ _ _ _ _ _)) = 0
  minted t (some (HistoryTokenAction.mint tick amt _ _ _)) =
      ite (Bytes-discrete tick t) (units amt) 0
  minted t (some (HistoryTokenAction.deploy_transfer _ _ _ _ _)) = 0
  minted t (some (HistoryTokenAction.send _ _ _ _ _ _)) = 0

  abbrev pub burned : OriginalTokenTick → Option (HistoryTokenAction Amount) → ℕ
  burned t none = 0
  burned t (some (HistoryTokenAction.deploy _ _ _ _ _ _ _)) = 0
  burned t (some (HistoryTokenAction.mint _ _ _ _ _)) = 0
  burned t (some (HistoryTokenAction.deploy_transfer _ _ _ _ _)) = 0
  burned t (some (HistoryTokenAction.send tick amt recipient _ _ _)) =
      ite (Bytes-discrete recipient op_return_hash) (ite (Bytes-discrete tick t) (units amt) 0) 0

  unfoldable pub minted_all : OriginalTokenTick → List (HistoryTokenAction Amount) → ℕ
  minted_all t [] = 0
  minted_all t (e ∷ es) = minted t (some e) + minted_all t es

  unfoldable pub burned_all : OriginalTokenTick → List (HistoryTokenAction Amount) → ℕ
  burned_all t [] = 0
  burned_all t (e ∷ es) = burned t (some e) + burned_all t es

  abbrev pub with_account :
      AddressToken → TokenBalance Amount → TokenCache Amount → TokenCache Amount
  with_account key b c = record c {
    token_accounts = insert AddressToken-discrete key b c.token_accounts;
  }

  pub account-with_account :
      (k key : AddressToken) (b : TokenBalance Amount) (c : TokenCache Amount)
      → account p k (with_account key b c) ≡ ite (AddressToken-discrete k key) b (account p k c)
  account-with_account k key b c =
      ground (arith, lookup-insert AddressToken-discrete k key b c.token_accounts)

  own_default :
      (t : OriginalTokenTick) (key : AddressToken) (o : Option (TokenBalance Amount))
      → weight_at (held_weight t) key o ≡ held_weight t key (or_default (empty_balance p) o)
  own_default t key none = ground (arith, units-zero)
  own_default t key (some b) = refl

  pub held-with_account :
      (t : OriginalTokenTick) (key : AddressToken) (b : TokenBalance Amount) (c : TokenCache Amount)
      → held t (with_account key b c) + held_weight t key (account p key c)
        ≡ held t c + held_weight t key b
  unfolding held
  held-with_account t key b c =
      rw (← own_default t key (lookup AddressToken-discrete key c.token_accounts))
        (total-insert AddressToken-discrete (held_weight t) key b c.token_accounts)

  pub account-le-held :
      (key : AddressToken) (c : TokenCache Amount)
      → units (account p key c).balance + units (account p key c).transferable_balance
        ≤ held key.token c
  unfolding held
  account-le-held key c = ground (
    arith,
    own_default key.token key (lookup AddressToken-discrete key c.token_accounts),
    weight-le-total AddressToken-discrete (held_weight key.token) key c.token_accounts,
  )
