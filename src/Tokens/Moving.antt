-- ===== src/Tokens/Moving.antt =====
-- The `Transferred` branch of `TokenCache::process_token_actions` in src/tokens/parser.rs.
use wjk_20_indexer.Prelude.{
  ℕ, ◌-◌, none, some, lookup, insert, remove, ◌==◌, ◌||◌, if◌then◌else◌, ite, ok, panic,
}
use wjk_20_indexer.Tokens.Types.{
  FullHash, Txid, OriginalTokenTick, LowerCaseTokenTick, Location, AddressToken, TokenBalance,
  TransferProtoDb, HistoryTokenAction, TokenMeta, TokenCache, Bytes-discrete, Location-discrete,
  AddressToken-discrete,
}
use wjk_20_indexer.Tokens.Platform.{Platform, amount_lt}
use wjk_20_indexer.Tokens.Holders.{Holders, increase, decrease, change}
use wjk_20_indexer.Tokens.Cache.{Step, lower, account, credit, set_token, inc_u32}

module _ (p : Platform) where
  open p use {Amount, sub, op_return_hash}

  -- The recipient's side of a move: nothing when the transfer was burnt.
  unfoldable pub deliver :
      FullHash
      → OriginalTokenTick
      → Amount
      → TokenCache Amount
      → Holders Amount
      → TokenCache Amount × Holders Amount
  deliver recipient tick amt c h =
      let key : AddressToken = record { address = recipient; token = tick } in
      ite (Bytes-discrete recipient op_return_hash) (c, h)
        (credit p key amt c, change p key (account p key c) amt increase h)

  -- The sender's side of a move, once the token and the account p are found.
  unfoldable pub withdraw :
      LowerCaseTokenTick
      → TokenMeta Amount
      → TokenBalance Amount
      → FullHash
      → Amount
      → TokenCache Amount
      → TokenCache Amount
  withdraw l token acc sender amt c =
      let d = token.proto in
      let acc' : TokenBalance Amount = record acc {
        transferable_balance = sub acc.transferable_balance amt;
        transfers_count = acc.transfers_count - 1;
      } in
      set_token p l token (record d { transactions = inc_u32 d.transactions })
        (record c {
          token_accounts =
              insert AddressToken-discrete (record { address = sender; token = d.tick }) acc'
                c.token_accounts;
        })

  -- The move of a valid transfer once its token and the sender's account p are found.
  unfoldable pub move_checked :
      LowerCaseTokenTick
      → TokenMeta Amount
      → TokenBalance Amount
      → FullHash
      → Amount
      → FullHash
      → Txid
      → ℕ
      → TokenCache Amount
      → Holders Amount
      → Step p
  unfolding deliver withdraw
  move_checked l token acc sender amt recipient txid vout c h =
      let tick = token.proto.tick in
      if acc.transfers_count == 0 || amount_lt p acc.transferable_balance amt
      then panic
      else let moved =
          deliver recipient tick amt (withdraw l token acc sender amt c)
            (change p (record { address = sender; token = tick }) acc amt decrease h) in
        ok (moved.0, moved.1, some (HistoryTokenAction.send tick amt recipient sender txid vout))

  -- The move of a valid transfer that was found in, and taken out of, `valid_transfers`.
  unfoldable pub move_transfer :
      FullHash
      → TransferProtoDb Amount
      → FullHash
      → Txid
      → ℕ
      → TokenCache Amount
      → Holders Amount
      → Step p
  move_transfer sender entry recipient txid vout c h =
      elim (lookup Bytes-discrete (lower p entry.tick) c.tokens) [
        | none ↦ panic
        | some token ↦
            elim (lookup AddressToken-discrete
              (record { address = sender; token = token.proto.tick }) c.token_accounts) [
                | none ↦ panic
                | some acc ↦
                    move_checked (lower p entry.tick) token acc sender entry.amt recipient txid vout
                      c h
              ]
      ]

  unfoldable pub process_transferred :
      Location → FullHash → Txid → ℕ → TokenCache Amount → Holders Amount → Step p
  process_transferred location recipient txid vout c h =
      elim (lookup Location-discrete location c.valid_transfers) [
        | none ↦ ok (c, h, none)
        | some (sender, entry) ↦
            move_transfer sender entry recipient txid vout
              (record c { valid_transfers = remove Location-discrete location c.valid_transfers }) h
      ]
