-- ===== src/Tokens/Process/Move.antt =====
-- The `TokenAction::Transferred` branch of src/tokens/parser.rs never panics on a valid cache, and
-- keeps the invariant.
use wjk_20_indexer.Prelude.{
  ℕ, suc, ◌+◌, ◌-◌, ◌≤◌, ◌<◌, ◌≡◌, refl, some, lookup, remove, lookup-remove, total-remove,
  weight-le-total, ite, arith,
}
use wjk_20_indexer.Tokens.Platform.{Platform}
use wjk_20_indexer.Tokens.Types.{
  FullHash, OriginalTokenTick, LowerCaseTokenTick, Location, AddressToken, TransferProtoDb,
  TokenBalance, DeployProtoDb, TokenMeta, TokenCache, Bytes-discrete, Location-discrete,
  AddressToken-discrete,
}
use wjk_20_indexer.Tokens.Cache.{account, lower, set_token, inc_u32}
use wjk_20_indexer.Tokens.Moving.{withdraw}
use wjk_20_indexer.Tokens.Process.Sums.{
  pending_weight, counted_weight, held, pending, counted, supply_of, with_account,
  account-with_account, held-with_account,
}
use wjk_20_indexer.Tokens.Process.Invariant.{IsValid, SameTerms, KeepsTokens}
use wjk_20_indexer.Tokens.Process.Updates.{
  set_token-TokensSound, set_token-KeepsTokens, supply_of-set_token, Known-keeps, supply_of_same,
}

module _ (p : Platform) where
  open p use {Amount, units, capacity, add, sub, units-add, units-sub, op_return_hash}

  -- The cache `c` holds the transfer of `entry` at `location`, whose token and account are found.
  module _ (n : ℕ) (location : Location) (sender : FullHash) (entry : TransferProtoDb Amount)
      (token : TokenMeta Amount) (acc : TokenBalance Amount) (c : TokenCache Amount)
      (v : IsValid p (suc n) c)
      (listed : lookup Location-discrete location c.valid_transfers ≡ some (sender, entry))
      (found : lookup Bytes-discrete (lower p entry.tick) c.tokens ≡ some token)
      (named : token.proto.tick ≡ entry.tick)
      (has : lookup AddressToken-discrete
          (record { address = sender; token = token.proto.tick })
          c.token_accounts
        ≡ some acc) where
    abbrev pub l : LowerCaseTokenTick
    l = lower p entry.tick

    abbrev pub key : AddressToken
    key = record { address = sender; token = token.proto.tick }

    abbrev pub d' : DeployProtoDb Amount
    d' = let d = token.proto in record d { transactions = inc_u32 d.transactions }

    abbrev pub acc' : TokenBalance Amount
    acc' = record acc {
      transferable_balance = sub acc.transferable_balance entry.amt;
      transfers_count = acc.transfers_count - 1;
    }

    abbrev pub unlisted : TokenCache Amount
    unlisted = record c { valid_transfers = remove Location-discrete location c.valid_transfers }

    abbrev pub between : TokenCache Amount
    between = with_account p key acc' unlisted

    abbrev pub withdrawn : TokenCache Amount
    withdrawn = set_token p l token d' between

    -- The account has at least this transfer set aside.
    pub enough : (units entry.amt ≤ units acc.transferable_balance) × (0 < acc.transfers_count)
    unfolding pending counted
    enough = ground (
      arith,
      v.amounts key,
      v.counts key,
      weight-le-total Location-discrete (pending_weight p key) location c.valid_transfers,
      weight-le-total Location-discrete (counted_weight p key) location c.valid_transfers,
    )

    same_terms : SameTerms p token (record token { proto = d' })
    same_terms = record {
      genesis = refl;
      tick = refl;
      max = refl;
      lim = refl;
      dec = refl;
      deployer = refl;
    }

    left : units acc'.transferable_balance ≡ units acc.transferable_balance - units entry.amt
    left = units-sub acc.transferable_balance entry.amt enough.0

    pub withdrawn-KeepsTokens : KeepsTokens p c withdrawn
    withdrawn-KeepsTokens =
        set_token-KeepsTokens p l token d' between 0 found same_terms (omega arith)
          (v.sound l token found).minted_le v.sound

    pub withdrawn-held :
        (t : OriginalTokenTick)
        → held p t withdrawn + ite (Bytes-discrete token.proto.tick t) (units entry.amt) 0
          ≡ held p t c
    unfolding held
    withdrawn-held t = ground (arith, held-with_account p t key acc' c, left, enough)

    pub withdrawn-supply : (t : OriginalTokenTick) → supply_of p t withdrawn ≡ supply_of p t c
    withdrawn-supply t = ground (
      arith,
      supply_of-set_token p l token d' between 0 found same_terms (omega arith)
          (v.sound l token found).minted_le v.sound t,
      supply_of_same p t c between refl,
    )

    withdrawn-amounts :
        (k : AddressToken)
        → pending p k withdrawn ≤ units (account p k withdrawn).transferable_balance
    unfolding pending
    withdrawn-amounts k = ground (
      arith,
      left,
      v.amounts k,
      account-with_account p k key acc' c,
      total-remove Location-discrete (pending_weight p k) location c.valid_transfers,
    )

    withdrawn-counts :
        (k : AddressToken) → counted p k withdrawn ≤ (account p k withdrawn).transfers_count
    unfolding counted
    withdrawn-counts k = ground (
      arith,
      enough,
      v.counts k,
      account-with_account p k key acc' c,
      total-remove Location-discrete (counted_weight p k) location c.valid_transfers,
    )

    pub withdrawn-IsValid : IsValid p n withdrawn
    withdrawn-IsValid = record {
      sound =
          set_token-TokensSound p l token d' between 0 found same_terms (omega arith)
            (v.sound l token found).minted_le v.sound;
      backed = λ t. omega (arith, v.backed t, withdrawn-held t, withdrawn-supply t);
      amounts = withdrawn-amounts;
      counts = withdrawn-counts;
      known = λ loc s e q. Known-keeps p c withdrawn e withdrawn-KeepsTokens (
          v.known loc s e
            (ground (arith, lookup-remove Location-discrete loc location c.valid_transfers)));
      room = λ k. ground (arith, v.room k, account-with_account p k key acc' c);
    }

    -- The cache above is the code's.
    pub withdraw_lem : withdraw p l token acc sender entry.amt unlisted ≡ withdrawn
    unfolding withdraw
    withdraw_lem = refl
