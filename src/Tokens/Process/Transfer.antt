-- ===== src/Tokens/Process/Transfer.antt =====
-- The `TokenAction::Transfer` branch of src/tokens/parser.rs keeps the invariant.
use wjk_20_indexer.Prelude.{
  ℕ, suc, ◌+◌, ◌-◌, ◌^◌, ◌≤◌, ◌<◌, ◌≡◌, refl, subst, none, some, lookup, insert, remove,
  lookup-insert, lookup-remove, total-insert, ok, arith, Option-cases, inl, inr, ltb, if◌then◌else◌,
}
use wjk_20_indexer.Tokens.Platform.{Platform, amount_lt}
use wjk_20_indexer.Tokens.Types.{
  FullHash, Txid, OriginalTokenTick, LowerCaseTokenTick, Location, AddressToken, TransferProtoDb,
  TokenBalance, DeployProtoDb, MintProtoWrapper, HistoryTokenAction, TokenMeta, TokenCache,
  Bytes-discrete, Location-discrete, AddressToken-discrete,
}
use wjk_20_indexer.Tokens.Holders.{Holders}
use wjk_20_indexer.Tokens.Cache.{account, lower, Step, set_token, inc_u32, inc_u64}
use wjk_20_indexer.Tokens.Reserving.{reserve, transfer_checked, transfer_entry, process_transfer}
use wjk_20_indexer.Tokens.Process.Sums.{
  pending_weight, counted_weight, held, pending, counted, supply_of, with_account,
  account-with_account, held-with_account,
}
use wjk_20_indexer.Tokens.Process.Invariant.{
  IsValid, SameTerms, KeepsTokens, Known, TransfersKnown, Settles,
}
use wjk_20_indexer.Tokens.Process.Branches.{skip-Settles, if-Settles}
use wjk_20_indexer.Tokens.Process.Updates.{
  set_token-TokensSound, set_token-KeepsTokens, supply_of-set_token, account-le-supply, Known-keeps,
  supply_of_same,
}

module _ (p : Platform) where
  open p use {Amount, units, capacity, add, sub, units-add, units-sub, scale}

  module _ (n : ℕ) (l : LowerCaseTokenTick) (token : TokenMeta Amount) (acc : TokenBalance Amount)
      (location : Location) (owner : FullHash) (amt : Amount) (entry : TransferProtoDb Amount)
      (c : TokenCache Amount) (v : IsValid p (suc n) c)
      (found : lookup Bytes-discrete l c.tokens ≡ some token)
      (has : lookup AddressToken-discrete
          (record { address = owner; token = token.proto.tick })
          c.token_accounts
        ≡ some acc)
      (covered : units amt ≤ units acc.balance) (agrees : units entry.amt ≡ units amt) where
    abbrev key : AddressToken
    key = record { address = owner; token = token.proto.tick }

    abbrev d' : DeployProtoDb Amount
    d' =
        let d = token.proto in
        record d {
          transfer_count = inc_u64 d.transfer_count;
          transactions = inc_u32 d.transactions;
        }

    abbrev acc' : TokenBalance Amount
    acc' = record {
      balance = sub acc.balance amt;
      transferable_balance = add acc.transferable_balance amt;
      transfers_count = inc_u64 acc.transfers_count;
    }

    abbrev entry' : TransferProtoDb Amount
    entry' = record entry { tick = token.proto.tick }

    abbrev listed : TokenCache Amount
    listed = record c {
      valid_transfers = insert Location-discrete location (owner, entry') c.valid_transfers;
    }

    abbrev between : TokenCache Amount
    between = with_account p key acc' listed

    abbrev after : TokenCache Amount
    after = set_token p l token d' between

    same_terms : SameTerms p token (record token { proto = d' })
    same_terms = record {
      genesis = refl;
      tick = refl;
      max = refl;
      lim = refl;
      dec = refl;
      deployer = refl;
    }

    sums :
        (units acc'.balance ≡ units acc.balance - units amt)
        × (units acc'.transferable_balance ≡ units acc.transferable_balance + units amt)
    sums = ground (
      arith,
      units-sub acc.balance amt,
      units-add acc.transferable_balance amt,
      (v.sound l token found).max_le,
      (v.sound l token found).minted_le,
      account-le-supply p l owner c v.sound v.backed found,
    )

    keeps : KeepsTokens p c after
    keeps =
        set_token-KeepsTokens p l token d' between 0 found same_terms (omega arith)
          (v.sound l token found).minted_le v.sound

    held_same : (t : OriginalTokenTick) → held p t after ≡ held p t c
    unfolding held
    held_same t = ground (arith, held-with_account p t key acc' c, sums)

    supply_same : (t : OriginalTokenTick) → supply_of p t after ≡ supply_of p t c
    supply_same t = ground (
      arith,
      supply_of-set_token p l token d' between 0 found same_terms (omega arith)
          (v.sound l token found).minted_le v.sound t,
      supply_of_same p t c between refl,
    )

    amounts_after :
        (k : AddressToken) → pending p k after ≤ units (account p k after).transferable_balance
    unfolding pending
    amounts_after k = ground (
      arith,
      sums,
      v.amounts k,
      account-with_account p k key acc' c,
      total-insert Location-discrete (pending_weight p k) location (owner, entry')
          c.valid_transfers,
    )

    counts_after : (k : AddressToken) → counted p k after ≤ (account p k after).transfers_count
    unfolding counted
    counts_after k = ground (
      arith,
      v.room k,
      v.counts k,
      account-with_account p k key acc' c,
      total-insert Location-discrete (counted_weight p k) location (owner, entry')
          c.valid_transfers,
    )

    room_after : (k : AddressToken) → (account p k after).transfers_count + n < 2 ^ 64
    room_after k = ground (arith, v.room k, account-with_account p k key acc' c)

    Known-new : Known p after entry'
    Known-new =
        Known-keeps p c after entry' keeps (token, rw ((v.sound l token found).lowered) found, refl)

    after-TransfersKnown : TransfersKnown p after
    after-TransfersKnown loc s e q = elim (Location-discrete loc location) [
      | yes same ↦
          let there : entry' ≡ e = ground (
            arith,
            lookup-insert Location-discrete loc location (owner, entry') c.valid_transfers,
          ) in
          subst (λ x. Known p after x) there Known-new
      | no other ↦ Known-keeps p c after e keeps (
          v.known loc s e (
            ground (
              arith,
              lookup-insert Location-discrete loc location (owner, entry') c.valid_transfers,
            )))
    ]

    pub reserve-Settles :
        (txid : Txid) (vout : ℕ) (h : Holders Amount)
        → Settles p n c (reserve p l token acc location owner amt entry txid vout c h)
    unfolding reserve
    reserve-Settles txid vout h = record {
      cache = after;
      holders = h;
      entry = some (HistoryTokenAction.deploy_transfer token.proto.tick amt owner txid vout);
      returns = refl;
      valid = record {
        sound =
            set_token-TokensSound p l token d' between 0 found same_terms (omega arith)
              (v.sound l token found).minted_le v.sound;
        backed = λ t. omega (arith, v.backed t, held_same t, supply_same t);
        amounts = amounts_after;
        counts = counts_after;
        known = after-TransfersKnown;
        room = room_after;
      };
      conserves = λ t. (omega (arith, held_same t), omega (arith, supply_same t));
      keeps = keeps;
      shrinks = λ loc e q. q;
    }

  transfer_checked-Settles :
      (n : ℕ) (l : LowerCaseTokenTick) (token : TokenMeta Amount) (location : Location)
      (owner : FullHash) (amt : Amount) (entry : TransferProtoDb Amount) (txid : Txid) (vout : ℕ)
      (c : TokenCache Amount) (h : Holders Amount)
      → IsValid p (suc n) c
      → lookup Bytes-discrete l c.tokens ≡ some token
      → units entry.amt ≡ units amt
      → Settles p n c (transfer_checked p l token location owner amt entry txid vout c h)
  unfolding transfer_checked
  transfer_checked-Settles n l token location owner amt entry txid vout c h v found agrees =
      let skip = skip-Settles p n c h v in
      let stop : Step p = ok (c, h, none) in
      elim (Option-cases (
        lookup AddressToken-discrete (record { address = owner; token = token.proto.tick })
          c.token_accounts)) [
            | inl missing ↦
                rw (missing, transfer_checked)
                  (if-Settles p n c (ltb token.proto.dec (scale amt)) stop stop (λ _. skip)
                    (λ _. skip))
            | inr (acc, has) ↦
                let go : Step p = reserve p l token acc location owner amt entry txid vout c h in
                rw (has, transfer_checked)
                  (if-Settles p n c (ltb token.proto.dec (scale amt)) stop
                    (if amount_lt p acc.balance amt then stop else go) (λ _. skip)
                    (λ _.
                      if-Settles p n c (amount_lt p acc.balance amt) stop go (λ _. skip)
                        (λ enough.
                          reserve-Settles n l token acc location owner amt entry c v found has
                            (ground arith) agrees txid vout h)))
          ]

  -- Taking an entry out of `all_transfers` leaves the invariant alone.
  taken-IsValid :
      (n : ℕ) (location : Location) (c : TokenCache Amount)
      → IsValid p n c
      → IsValid p n (record c { all_transfers = remove Location-discrete location c.all_transfers })
  unfolding held supply_of pending counted
  taken-IsValid n location c v = record {
    sound = v.sound;
    backed = v.backed;
    amounts = v.amounts;
    counts = v.counts;
    known = v.known;
    room = v.room;
  }

  -- What settles after the entry is taken out settles before.
  taken-Settles :
      (n : ℕ) (location : Location) (c : TokenCache Amount) (s : Step p)
      → Settles p n
          (record c { all_transfers = remove Location-discrete location c.all_transfers })
          s
      → Settles p n c s
  unfolding held supply_of
  taken-Settles n location c s r = record {
    cache = r.cache;
    holders = r.holders;
    entry = r.entry;
    returns = r.returns;
    valid = r.valid;
    conserves = r.conserves;
    keeps = r.keeps;
    shrinks = λ loc e q.
        ground
          (arith, r.shrinks loc e q, lookup-remove Location-discrete loc location c.all_transfers);
  }

  transfer_entry-Settles :
      (n : ℕ) (location : Location) (owner : FullHash) (proto : MintProtoWrapper Amount)
      (entry : TransferProtoDb Amount) (txid : Txid) (vout : ℕ) (c : TokenCache Amount)
      (h : Holders Amount)
      → IsValid p (suc n) c
      → units entry.amt ≡ units proto.amt
      → Settles p n c (transfer_entry p location owner proto entry txid vout c h)
  unfolding transfer_entry
  transfer_entry-Settles n location owner proto entry txid vout c h v agrees =
      elim (Option-cases (lookup Bytes-discrete (lower p proto.tick) c.tokens)) [
        | inl missing ↦ rw (missing, transfer_entry) (skip-Settles p n c h v)
        | inr (token, found) ↦
            rw (found, transfer_entry)
              (transfer_checked-Settles n (lower p proto.tick) token location owner proto.amt entry
                txid vout c h v found agrees)
      ]

  pub process_transfer-Settles :
      (n : ℕ) (location : Location) (owner : FullHash) (proto : MintProtoWrapper Amount)
      (txid : Txid) (vout : ℕ) (c : TokenCache Amount) (h : Holders Amount)
      → IsValid p (suc n) c
      → ((e : TransferProtoDb Amount)
          → lookup Location-discrete location c.all_transfers ≡ some e
          → units e.amt ≡ units proto.amt)
      → Settles p n c (process_transfer p location owner proto txid vout c h)
  unfolding process_transfer
  process_transfer-Settles n location owner proto txid vout c h v agrees =
      elim (Option-cases (lookup Location-discrete location c.all_transfers)) [
        | inl missing ↦ rw (missing, process_transfer) (skip-Settles p n c h v)
        | inr (entry, queued) ↦
            rw (queued, process_transfer)
              (taken-Settles n location c _ (
                transfer_entry-Settles n location owner proto entry txid vout _ h
                  (taken-IsValid (suc n) location c v) (agrees entry queued)))
      ]
