-- ===== src/Tokens/Process/Updates.antt =====
-- How the invariant fares under each update that the actions make.
use wjk_20_indexer.Prelude.{ℕ, ◌+◌, ◌≤◌, ◌≡◌, refl, ◌∙◌, some, lookup, lookup-insert, ite, arith}
use wjk_20_indexer.Tokens.Platform.{Platform}
use wjk_20_indexer.Tokens.Types.{
  FullHash, OriginalTokenTick, LowerCaseTokenTick, AddressToken, TransferProtoDb, DeployProtoDb,
  TokenMeta, TokenCache, Bytes-discrete,
}
use wjk_20_indexer.Tokens.Cache.{account, lower, set_token, credit}
use wjk_20_indexer.Tokens.Process.Sums.{
  held, pending, counted, supply_of, account-with_account, held-with_account, account-le-held,
}
use wjk_20_indexer.Tokens.Process.Invariant.{TokensSound, SameTerms, KeepsTokens, Known}

module _ (p : Platform) where
  open p use {Amount, units, capacity, add}

  pub SameTerms-refl : (m : TokenMeta Amount) → SameTerms p m m
  SameTerms-refl m = record {
    genesis = refl;
    tick = refl;
    max = refl;
    lim = refl;
    dec = refl;
    deployer = refl;
  }

  pub KeepsTokens-refl : (c : TokenCache Amount) → KeepsTokens p c c
  KeepsTokens-refl c l m e = (m, e, SameTerms-refl m)

  module _ (l : LowerCaseTokenTick) (token : TokenMeta Amount) (d : DeployProtoDb Amount)
      (c : TokenCache Amount) (x : ℕ) (found : lookup Bytes-discrete l c.tokens ≡ some token)
      (same : SameTerms p token (record token { proto = d }))
      (more : units d.supply ≡ units token.proto.supply + x)
      (fits : units d.supply ≤ units token.proto.max) (sound : TokensSound p c) where
    pub set_token-TokensSound : TokensSound p (set_token p l token d c)
    set_token-TokensSound k m e = ground (
      arith,
      lookup-insert Bytes-discrete k l (record token { proto = d }) c.tokens,
      sound l token found,
      sound k m,
      same,
    )

    pub set_token-KeepsTokens : KeepsTokens p c (set_token p l token d c)
    set_token-KeepsTokens k m e = elim (Bytes-discrete k l) [
      | yes q ↦ (
        record token { proto = d },
        ground (arith, lookup-insert Bytes-discrete k l (record token { proto = d }) c.tokens),
        ground (arith, same),
      )
      | no q ↦ (
        m,
        ground (arith, lookup-insert Bytes-discrete k l (record token { proto = d }) c.tokens),
        SameTerms-refl m,
      )
    ]

    pub supply_of-set_token :
        (t : OriginalTokenTick)
        → supply_of p t (set_token p l token d c)
          ≡ supply_of p t c + ite (Bytes-discrete token.proto.tick t) x 0
    unfolding supply_of
    supply_of-set_token t = ground (
      arith,
      lookup-insert Bytes-discrete (lower p t) l (record token { proto = d }) c.tokens,
      sound l token found,
      same,
      ap_lower,
    )
      where
        ap_lower : token.proto.tick ≡ t → lower p t ≡ l
        ap_lower e = ground (arith, (sound l token found).lowered)

  -- The supply of a token that is found is its record's.
  pub supply_of-found :
      (l : LowerCaseTokenTick) {token : TokenMeta Amount} (c : TokenCache Amount)
      → TokensSound p c
      → lookup Bytes-discrete l c.tokens ≡ some token
      → supply_of p token.proto.tick c ≡ units token.proto.supply
  unfolding supply_of
  supply_of-found l {token} c sound found = ground (arith, found, (sound l token found).lowered)

  -- No account holds more than the recorded supply of its token.
  pub account-le-supply :
      (l : LowerCaseTokenTick) {token : TokenMeta Amount} (owner : FullHash) (c : TokenCache Amount)
      → TokensSound p c
      → ((t : OriginalTokenTick) → held p t c ≤ supply_of p t c)
      → lookup Bytes-discrete l c.tokens ≡ some token
      → let a = account p (record { address = owner; token = token.proto.tick }) c in
        units a.balance + units a.transferable_balance ≤ units token.proto.supply
  account-le-supply l {token = token} owner c sound backed found = omega (
    arith,
    account-le-held p (record { address = owner; token = token.proto.tick }) c,
    backed token.proto.tick,
    supply_of-found l c sound found,
  )

  -- Transfers stay known where tokens are kept.
  pub Known-keeps :
      (c c' : TokenCache Amount) (e : TransferProtoDb Amount)
      → KeepsTokens p c c'
      → Known p c e
      → Known p c' e
  Known-keeps c c' e keep (m, found, same) =
      let (m', found', terms) = keep _ m found in (m', found', terms.tick ∙ same)

  -- A credit leaves the part of every account that is set aside.
  pub account-credit :
      (k key : AddressToken) (amt : Amount) (c : TokenCache Amount)
      → ((account p k (credit p key amt c)).transferable_balance
          ≡ (account p k c).transferable_balance)
        × ((account p k (credit p key amt c)).transfers_count ≡ (account p k c).transfers_count)
  account-credit k key amt c = ground (
    arith,
    account-with_account p k key
        (record (account p key c) { balance = add (account p key c).balance amt }) c,
  )

  pub held-credit :
      (t : OriginalTokenTick) (key : AddressToken) (amt : Amount) (c : TokenCache Amount)
      → units (add (account p key c).balance amt) ≡ units (account p key c).balance + units amt
      → held p t (credit p key amt c) ≡ held p t c + ite (Bytes-discrete key.token t) (units amt) 0
  held-credit t key amt c grows = ground (
    arith,
    held-with_account p t key
        (record (account p key c) { balance = add (account p key c).balance amt }) c,
  )

  -- The sums look at one part of the cache each.
  pub held-set_token :
      (t : OriginalTokenTick) (l : LowerCaseTokenTick) (token : TokenMeta Amount)
      (d : DeployProtoDb Amount) (c : TokenCache Amount)
      → held p t (set_token p l token d c) ≡ held p t c
  unfolding held
  held-set_token t l token d c = refl

  pub pending_same :
      (k : AddressToken) (c c' : TokenCache Amount)
      → c'.valid_transfers ≡ c.valid_transfers
      → (pending p k c' ≡ pending p k c) × (counted p k c' ≡ counted p k c)
  unfolding pending counted
  pending_same k c c' e = (cc, cc)

  pub supply_of_same :
      (t : OriginalTokenTick) (c c' : TokenCache Amount)
      → c'.tokens ≡ c.tokens
      → supply_of p t c' ≡ supply_of p t c
  unfolding supply_of
  supply_of_same t c c' e = cc
