-- ===== src/Tokens/Process/Mint.antt =====
-- The `TokenAction::Mint` and `TokenAction::Deploy` branches of src/tokens/parser.rs keep the
-- invariant.
use wjk_20_indexer.Prelude.{
  ℕ, suc, ◌+◌, ◌≤◌, ◌≡◌, refl, none, some, [], lookup, ite, ok, arith, Option-cases, inl, inr, ltb,
  if◌then◌else◌,
}
use wjk_20_indexer.Tokens.Platform.{Platform, amount_lt, amount_min}
use wjk_20_indexer.Tokens.Types.{
  FullHash, Txid, LowerCaseTokenTick, AddressToken, DeployProtoDb, MintProtoWrapper,
  HistoryTokenAction, TokenMeta, TokenCache, Bytes-discrete,
}
use wjk_20_indexer.Tokens.Holders.{Holders, increase, change}
use wjk_20_indexer.Tokens.Cache.{account, lower, Step, set_token, credit, inc_u32, inc_u64}
use wjk_20_indexer.Tokens.Minting.{mint_amount, process_mint, mint_checked}
use wjk_20_indexer.Tokens.Process.Invariant.{IsValid, SameTerms, KeepsTokens, Conserves, Settles}
use wjk_20_indexer.Tokens.Process.Branches.{skip-Settles, if-Settles, ite-Settles}
use wjk_20_indexer.Tokens.Process.Updates.{
  set_token-TokensSound, set_token-KeepsTokens, supply_of-set_token, account-le-supply, Known-keeps,
  account-credit, held-credit, held-set_token, pending_same, supply_of_same,
}

module _ (p : Platform) where
  open p use {Amount, units, capacity, add, sub, units-add, units-sub, scale, amount_discrete}

  module _ (n : ℕ) (l : LowerCaseTokenTick) (token : TokenMeta Amount) (owner : FullHash)
      (amt : Amount) (c : TokenCache Amount) (v : IsValid p (suc n) c)
      (found : lookup Bytes-discrete l c.tokens ≡ some token)
      (fits : units token.proto.supply + units amt ≤ units token.proto.max) where
    abbrev minted_proto : DeployProtoDb Amount
    minted_proto =
        let d = token.proto in
        record d {
          supply = add d.supply amt;
          transactions = inc_u32 d.transactions;
          mint_count = inc_u64 d.mint_count;
        }

    abbrev minter : AddressToken
    minter = record { address = owner; token = token.proto.tick }

    abbrev after : TokenCache Amount
    after = credit p minter amt (set_token p l token minted_proto c)

    supply_grows : units minted_proto.supply ≡ units token.proto.supply + units amt
    supply_grows = units-add token.proto.supply amt (omega (arith, (v.sound l token found).max_le))

    balance_grows :
        units (add (account p minter c).balance amt)
        ≡ units (account p minter c).balance + units amt
    balance_grows = units-add (account p minter c).balance amt (
        omega (
          arith,
          (v.sound l token found).max_le,
          account-le-supply p l owner c v.sound v.backed found,
        ))

    same_terms : SameTerms p token (record token { proto = minted_proto })
    same_terms = record {
      genesis = refl;
      tick = refl;
      max = refl;
      lim = refl;
      dec = refl;
      deployer = refl;
    }

    keeps : KeepsTokens p c after
    keeps =
        set_token-KeepsTokens p l token minted_proto c (units amt) found same_terms supply_grows
          (omega (arith, supply_grows)) v.sound

    abbrev between : TokenCache Amount
    between = set_token p l token minted_proto c

    conserves :
        (txid : Txid) (vout : ℕ)
        → Conserves p c after (some (HistoryTokenAction.mint token.proto.tick amt owner txid vout))
    conserves txid vout t = (
      omega (
        arith,
        held-credit p t minter amt between balance_grows,
        held-set_token p t l token minted_proto c,
      ),
      omega (
        arith,
        supply_of_same p t between after refl,
        supply_of-set_token p l token minted_proto c (units amt) found same_terms supply_grows
            (omega (arith, supply_grows)) v.sound t,
      ),
    )

    after-IsValid : IsValid p n after
    after-IsValid = record {
      sound =
          set_token-TokensSound p l token minted_proto c (units amt) found same_terms supply_grows
            (omega (arith, supply_grows)) v.sound;
      backed = λ t. let (h, s) = conserves [] 0 t in omega (arith, h, s, v.backed t);
      amounts = λ k. ground (
        arith,
        account-credit p k minter amt between,
        pending_same p k c after refl,
        v.amounts k,
      );
      counts = λ k.
          ground (
            arith,
            account-credit p k minter amt between,
            pending_same p k c after refl,
            v.counts k,
          );
      known = λ loc s e q. Known-keeps p c after e keeps (v.known loc s e q);
      room = λ k. ground (arith, account-credit p k minter amt between, v.room k);
    }

    pub mint_amount-Settles :
        (txid : Txid) (vout : ℕ) (h : Holders Amount)
        → Settles p n c (mint_amount p l token owner amt txid vout c h)
    unfolding mint_amount
    mint_amount-Settles txid vout h = record {
      cache = after;
      holders = change p minter (account p minter c) amt increase h;
      entry = some (HistoryTokenAction.mint token.proto.tick amt owner txid vout);
      returns = refl;
      valid = after-IsValid;
      conserves = conserves txid vout;
      keeps = keeps;
      shrinks = λ loc e q. q;
    }

  min-fits :
      (supply max amt : Amount)
      → units supply ≤ units max
      → units supply + units (amount_min p amt (sub max supply)) ≤ units max
  min-fits supply max amt le = ground (arith, units-sub max supply le)

  mint_checked-Settles :
      (n : ℕ) (l : LowerCaseTokenTick) (token : TokenMeta Amount) (owner : FullHash) (amt : Amount)
      (txid : Txid) (vout : ℕ) (c : TokenCache Amount) (h : Holders Amount)
      → IsValid p (suc n) c
      → lookup Bytes-discrete l c.tokens ≡ some token
      → Settles p n c (mint_checked p l token owner amt txid vout c h)
  unfolding mint_checked
  mint_checked-Settles n l token owner amt txid vout c h v found =
      let d = token.proto in
      let skip = skip-Settles p n c h v in
      let cut = amount_min p amt (sub d.max d.supply) in
      let stop : Step p = ok (c, h, none) in
      let go : Step p = mint_amount p l token owner cut txid vout c h in
      let last : Step p = ite (amount_discrete d.supply d.max) stop go in
      if-Settles p n c (ltb d.dec (scale amt)) stop (if amount_lt p d.lim amt then stop else last)
        (λ _. skip)
        (λ _.
          if-Settles p n c (amount_lt p d.lim amt) stop last (λ _. skip)
            (λ _.
              ite-Settles p n c (amount_discrete d.supply d.max) stop go (λ _. skip)
                (λ _.
                  mint_amount-Settles n l token owner cut c v found
                    (min-fits d.supply d.max amt (v.sound l token found).minted_le) txid vout h)))

  pub process_mint-Settles :
      (n : ℕ) (owner : FullHash) (proto : MintProtoWrapper Amount) (txid : Txid) (vout : ℕ)
      (c : TokenCache Amount) (h : Holders Amount)
      → IsValid p (suc n) c
      → Settles p n c (process_mint p owner proto txid vout c h)
  unfolding process_mint
  process_mint-Settles n owner proto txid vout c h v =
      elim (Option-cases (lookup Bytes-discrete (lower p proto.tick) c.tokens)) [
        | inl missing ↦ rw (missing, process_mint) (skip-Settles p n c h v)
        | inr (token, found) ↦
            rw (found, process_mint)
              (mint_checked-Settles n (lower p proto.tick) token owner proto.amt txid vout c h v
                found)
      ]
