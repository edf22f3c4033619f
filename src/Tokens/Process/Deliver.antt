-- ===== src/Tokens/Process/Deliver.antt =====
-- The recipient's side of the `TokenAction::Transferred` branch of src/tokens/parser.rs, and the
-- branch as a whole.
use wjk_20_indexer.Prelude.{
  ℕ, suc, ◌+◌, ◌≤◌, ◌<◌, ◌≡◌, refl, none, some, lookup, remove, weight-le-total, ite, arith,
  Option-cases, inl, inr,
}
use wjk_20_indexer.Tokens.Platform.{Platform}
use wjk_20_indexer.Tokens.Types.{
  FullHash, Txid, OriginalTokenTick, Location, AddressToken, TransferProtoDb, TokenBalance,
  HistoryTokenAction, TokenMeta, TokenCache, Bytes-discrete, Location-discrete,
  AddressToken-discrete,
}
use wjk_20_indexer.Tokens.Holders.{Holders, increase, decrease, change}
use wjk_20_indexer.Tokens.Cache.{account, lower, credit}
use wjk_20_indexer.Tokens.Moving.{
  withdraw, deliver, move_checked, move_transfer, process_transferred,
}
use wjk_20_indexer.Tokens.Process.Sums.{counted_weight, held, counted, supply_of, account-le-held}
use wjk_20_indexer.Tokens.Process.Invariant.{IsValid, KeepsTokens, Conserves, Shrinks, Settles}
use wjk_20_indexer.Tokens.Process.Branches.{skip-Settles}
use wjk_20_indexer.Tokens.Process.Move.{
  withdrawn-IsValid, withdrawn-held, withdrawn-supply, withdrawn-KeepsTokens, enough,
}
use wjk_20_indexer.Tokens.Process.Updates.{
  supply_of-found, account-credit, held-credit, pending_same, supply_of_same,
}

module _ (p : Platform) where
  open p use {Amount, units, capacity, add, sub, units-add, op_return_hash}

  -- Where the supply backs a credit, it keeps the invariant.
  credit-IsValid :
      (n : ℕ) (key : AddressToken) (amt : Amount) (c : TokenCache Amount)
      → IsValid p n c
      → units (add (account p key c).balance amt) ≡ units (account p key c).balance + units amt
      → ((t : OriginalTokenTick)
          → held p t c + ite (Bytes-discrete key.token t) (units amt) 0 ≤ supply_of p t c)
      → IsValid p n (credit p key amt c)
  credit-IsValid n key amt c v grows room = record {
    sound = v.sound;
    backed = λ t. omega (
      arith,
      room t,
      held-credit p t key amt c grows,
      supply_of_same p t c (credit p key amt c) refl,
    );
    amounts = λ k. ground (
      arith,
      account-credit p k key amt c,
      pending_same p k c (credit p key amt c) refl,
      v.amounts k,
    );
    counts = λ k. ground (
      arith,
      account-credit p k key amt c,
      pending_same p k c (credit p key amt c) refl,
      v.counts k,
    );
    known = v.known;
    room = λ k. ground (arith, account-credit p k key amt c, v.room k);
  }

  module _ (n : ℕ) (location : Location) (sender : FullHash) (entry : TransferProtoDb Amount)
      (token : TokenMeta Amount) (acc : TokenBalance Amount) (c : TokenCache Amount)
      (v : IsValid p (suc n) c)
      (listed : lookup Location-discrete location c.valid_transfers ≡ some (sender, entry))
      (found : lookup Bytes-discrete (lower p entry.tick) c.tokens ≡ some token)
      (named : token.proto.tick ≡ entry.tick)
      (has : lookup AddressToken-discrete
          (record { address = sender; token = token.proto.tick })
          c.token_accounts
        ≡ some acc)
      (recipient : FullHash) (txid : Txid) (vout : ℕ) (h : Holders Amount) where
    abbrev tick : OriginalTokenTick
    tick = token.proto.tick

    abbrev taken : TokenCache Amount
    taken = record c { valid_transfers = remove Location-discrete location c.valid_transfers }

    -- The cache after the sender's side.
    abbrev w : TokenCache Amount
    w = withdraw p (lower p entry.tick) token acc sender entry.amt taken

    abbrev rkey : AddressToken
    rkey = record { address = recipient; token = tick }

    w-IsValid : IsValid p n w
    unfolding withdraw
    w-IsValid = withdrawn-IsValid p n location sender entry token acc c v listed found named has

    w-held :
        (t : OriginalTokenTick)
        → held p t w + ite (Bytes-discrete tick t) (units entry.amt) 0 ≡ held p t c
    unfolding withdraw
    w-held t = withdrawn-held p n location sender entry token acc c v listed found named has t

    w-supply : (t : OriginalTokenTick) → supply_of p t w ≡ supply_of p t c
    unfolding withdraw
    w-supply t = withdrawn-supply p n location sender entry token acc c v listed found named has t

    w-KeepsTokens : KeepsTokens p c w
    unfolding withdraw
    w-KeepsTokens =
        withdrawn-KeepsTokens p n location sender entry token acc c v listed found named has

    w-enough : (units entry.amt ≤ units acc.transferable_balance) × (0 < acc.transfers_count)
    w-enough = enough p n location sender entry token acc c v listed found named has

    w-Shrinks : Shrinks p c w
    unfolding withdraw
    w-Shrinks loc e q = q

    grows :
        units (add (account p rkey w).balance entry.amt)
        ≡ units (account p rkey w).balance + units entry.amt
    grows = units-add (account p rkey w).balance entry.amt (
        ground (
          arith,
          account-le-held p rkey w,
          w-held tick,
          v.backed tick,
          supply_of-found p (lower p entry.tick) c v.sound found,
          v.sound (lower p entry.tick) token found,
        ))

    abbrev moved : HistoryTokenAction Amount
    moved = HistoryTokenAction.send tick entry.amt recipient sender txid vout

    abbrev h' : Holders Amount
    h' = change p (record { address = sender; token = tick }) acc entry.amt decrease h

    abbrev delivered : TokenCache Amount × Holders Amount
    delivered = deliver p recipient tick entry.amt w h'

    delivered-IsValid : IsValid p n delivered.0
    unfolding deliver
    delivered-IsValid =
        elim (Bytes-discrete recipient op_return_hash)
          as (λ d.
            IsValid p n
              (ite {C = TokenCache Amount × Holders Amount} d (w, h')
                (
                  credit p rkey entry.amt w,
                  change p rkey (account p rkey w) entry.amt increase h',
                )).0) [
                  | yes burn ↦ w-IsValid
                  | no sent ↦
                      credit-IsValid n rkey entry.amt w w-IsValid grows
                        (λ t. omega (arith, w-held t, w-supply t, v.backed t))
                ]

    delivered-Conserves : Conserves p c delivered.0 (some moved)
    unfolding deliver
    delivered-Conserves t = (
      ground (arith, w-held t, held-credit p t rkey entry.amt w grows),
      ground (arith, w-supply t, supply_of_same p t w (credit p rkey entry.amt w) refl),
    )

    delivered-KeepsTokens : KeepsTokens p c delivered.0
    unfolding deliver
    delivered-KeepsTokens k m q =
        let (m', found', same) = w-KeepsTokens k m q in (m', ground arith, same)

    delivered-Shrinks : Shrinks p c delivered.0
    unfolding deliver
    delivered-Shrinks loc e q = ground (arith, w-Shrinks loc e)

    pub move_checked-Settles :
        Settles p n c (
          move_checked p
            (lower p entry.tick)
            token
            acc
            sender
            entry.amt
            recipient
            txid
            vout
            taken
            h)
    unfolding move_checked
    move_checked-Settles = record {
      cache = delivered.0;
      holders = delivered.1;
      entry = some moved;
      returns = ground (arith, w-enough);
      valid = delivered-IsValid;
      conserves = delivered-Conserves;
      keeps = delivered-KeepsTokens;
      shrinks = delivered-Shrinks;
    }

  -- A sender with a valid transfer has an account.
  no_account_absurd :
      (n : ℕ) (location : Location) (sender : FullHash) (entry : TransferProtoDb Amount)
      (c : TokenCache Amount)
      → IsValid p n c
      → lookup Location-discrete location c.valid_transfers ≡ some (sender, entry)
      → lookup AddressToken-discrete
          (record { address = sender; token = entry.tick })
          c.token_accounts
        ≡ none
      → ⊥
  unfolding counted
  no_account_absurd n location sender entry c v listed missing =
      let key : AddressToken = record { address = sender; token = entry.tick } in
      ground (
        arith,
        v.counts key,
        weight-le-total Location-discrete (counted_weight p key) location c.valid_transfers,
      )

  move_transfer-Settles :
      (n : ℕ) (location : Location) (sender : FullHash) (entry : TransferProtoDb Amount)
      (recipient : FullHash) (txid : Txid) (vout : ℕ) (c : TokenCache Amount) (h : Holders Amount)
      → IsValid p (suc n) c
      → lookup Location-discrete location c.valid_transfers ≡ some (sender, entry)
      → Settles p n c (
          move_transfer p sender entry recipient txid vout
            (record c { valid_transfers = remove Location-discrete location c.valid_transfers })
            h)
  unfolding move_transfer
  move_transfer-Settles n location sender entry recipient txid vout c h v listed =
      let (token, found, named) = v.known location sender entry listed in
      elim (Option-cases (
        lookup AddressToken-discrete (record { address = sender; token = token.proto.tick })
          c.token_accounts)) [
            | inl missing ↦
                absurd (
                  no_account_absurd (suc n) location sender entry c v listed (rw (← named) missing))
            | inr (acc, has) ↦
                rw (found, move_transfer, has)
                  (move_checked-Settles n location sender entry token acc c v listed found named has
                    recipient txid vout h)
          ]

  pub process_transferred-Settles :
      (n : ℕ) (location : Location) (recipient : FullHash) (txid : Txid) (vout : ℕ)
      (c : TokenCache Amount) (h : Holders Amount)
      → IsValid p (suc n) c
      → Settles p n c (process_transferred p location recipient txid vout c h)
  unfolding process_transferred
  process_transferred-Settles n location recipient txid vout c h v =
      elim (Option-cases (lookup Location-discrete location c.valid_transfers)) [
        | inl missing ↦ rw (missing, process_transferred) (skip-Settles p n c h v)
        | inr ((sender, entry), listed) ↦
            rw (listed, process_transferred)
              (move_transfer-Settles n location sender entry recipient txid vout c h v listed)
      ]
