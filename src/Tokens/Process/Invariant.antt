-- ===== src/Tokens/Process/Invariant.antt =====
-- The invariant of the cache while src/tokens/parser.rs processes the actions of a block, and what
-- one action may change.
use wjk_20_indexer.Prelude.{ℕ, ◌+◌, ◌^◌, ◌≤◌, ◌<◌, ◌≡◌, Option, some, lookup, ok}
use wjk_20_indexer.Tokens.Platform.{Platform}
use wjk_20_indexer.Tokens.Types.{
  FullHash, OriginalTokenTick, LowerCaseTokenTick, Location, AddressToken, TransferProtoDb,
  HistoryTokenAction, TokenMeta, TokenAction, TokenCache, Bytes-discrete, Location-discrete,
}
use wjk_20_indexer.Tokens.Holders.{Holders}
use wjk_20_indexer.Tokens.Cache.{account, lower, Step}
use wjk_20_indexer.Tokens.Process.Sums.{held, pending, counted, supply_of, minted, burned}

module _ (p : Platform) where
  open p use {Amount, units, capacity}

  -- A token under the lower case of its tick, minted up to its maximum at most.
  pub record TokenOk (l : LowerCaseTokenTick) (m : TokenMeta Amount) : Type 0 where
    pub lowered : lower p m.proto.tick ≡ l
    pub minted_le : units m.proto.supply ≤ units m.proto.max
    pub max_le : units m.proto.max ≤ capacity

  abbrev pub TokensSound : TokenCache Amount → Type 0
  TokensSound c =
      (l : LowerCaseTokenTick) (m : TokenMeta Amount)
      → lookup Bytes-discrete l c.tokens ≡ some m
      → TokenOk l m

  -- The entry of a valid transfer carries the tick of a loaded token as it was deployed.
  abbrev pub Known : TokenCache Amount → TransferProtoDb Amount → Type 0
  Known c e =
      (m : TokenMeta Amount) × (lookup Bytes-discrete (lower p e.tick) c.tokens ≡ some m)
      × (m.proto.tick ≡ e.tick)

  abbrev pub TransfersKnown : TokenCache Amount → Type 0
  TransfersKnown c =
      (l : Location) (s : FullHash) (e : TransferProtoDb Amount)
      → lookup Location-discrete l c.valid_transfers ≡ some (s, e)
      → Known c e

  -- `n` is the number of actions that are still to come.
  pub record IsValid (n : ℕ) (c : TokenCache Amount) : Type 0 where
    pub sound : TokensSound c
    pub backed : (t : OriginalTokenTick) → held p t c ≤ supply_of p t c
    pub amounts : (k : AddressToken) → pending p k c ≤ units (account p k c).transferable_balance
    pub counts : (k : AddressToken) → counted p k c ≤ (account p k c).transfers_count
    pub known : TransfersKnown c
    pub room : (k : AddressToken) → (account p k c).transfers_count + n < 2 ^ 64

  -- What parsing has made sure of for a queued action.
  abbrev pub IsQueued : TokenCache Amount → TokenAction Amount → Type 0
  IsQueued c (TokenAction.deploy genesis proto owner) =
      (units proto.supply ≡ 0) × (units proto.max ≤ capacity)
  IsQueued c (TokenAction.mint owner proto txid vout) = Unit
  IsQueued c (TokenAction.transfer location owner proto txid vout) =
      (e : TransferProtoDb Amount)
      → lookup Location-discrete location c.all_transfers ≡ some e
      → units e.amt ≡ units proto.amt
  IsQueued c (TokenAction.transferred location recipient txid vout) = Unit

  -- What never changes of a deployed token.
  pub record SameTerms (m m' : TokenMeta Amount) : Type 0 where
    pub genesis : m'.genesis ≡ m.genesis
    pub tick : m'.proto.tick ≡ m.proto.tick
    pub max : m'.proto.max ≡ m.proto.max
    pub lim : m'.proto.lim ≡ m.proto.lim
    pub dec : m'.proto.dec ≡ m.proto.dec
    pub deployer : m'.proto.deployer ≡ m.proto.deployer

  abbrev pub KeepsTokens : TokenCache Amount → TokenCache Amount → Type 0
  KeepsTokens c c' =
      (l : LowerCaseTokenTick) (m : TokenMeta Amount)
      → lookup Bytes-discrete l c.tokens ≡ some m
      → (m' : TokenMeta Amount) × (lookup Bytes-discrete l c'.tokens ≡ some m') × SameTerms m m'

  -- The accounts and the supply move by what the history says.
  abbrev pub Conserves :
      TokenCache Amount → TokenCache Amount → Option (HistoryTokenAction Amount) → Type 0
  Conserves c c' e =
      (t : OriginalTokenTick)
      → (held p t c' + burned p t e ≡ held p t c + minted p t e)
        × (supply_of p t c' ≡ supply_of p t c + minted p t e)

  -- No entry is added to `all_transfers`.
  abbrev pub Shrinks : TokenCache Amount → TokenCache Amount → Type 0
  Shrinks c c' =
      (l : Location) (e : TransferProtoDb Amount)
      → lookup Location-discrete l c'.all_transfers ≡ some e
      → lookup Location-discrete l c.all_transfers ≡ some e

  -- An action returns, keeps the invariant and the tokens, and conserves the amounts.
  pub record Settles (n : ℕ) (c : TokenCache Amount) (s : Step p) : Type 0 where
    pub cache : TokenCache Amount
    pub holders : Holders Amount
    pub entry : Option (HistoryTokenAction Amount)
    pub returns : s ≡ ok (cache, holders, entry)
    pub valid : IsValid n cache
    pub conserves : Conserves c cache entry
    pub keeps : KeepsTokens c cache
    pub shrinks : Shrinks c cache
