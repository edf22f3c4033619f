-- ===== src/Tokens/Reserving.antt =====
-- The `Transfer` branch of `TokenCache::process_token_actions` in src/tokens/parser.rs.
use wjk_20_indexer.Prelude.{ℕ, none, some, lookup, insert, remove, ltb, if◌then◌else◌, ok}
use wjk_20_indexer.Tokens.Types.{
  FullHash, Txid, LowerCaseTokenTick, Location, AddressToken, TokenBalance, TransferProtoDb,
  MintProtoWrapper, HistoryTokenAction, TokenMeta, TokenCache, Bytes-discrete, Location-discrete,
  AddressToken-discrete,
}
use wjk_20_indexer.Tokens.Platform.{Platform, amount_lt}
use wjk_20_indexer.Tokens.Holders.{Holders}
use wjk_20_indexer.Tokens.Cache.{Step, lower, set_token, inc_u32, inc_u64}

module _ (p : Platform) where
  open p use {Amount, add, sub, scale}

  -- The transfer once its token and the owner's account p are found and the balance covers it.
  unfoldable pub reserve :
      LowerCaseTokenTick
      → TokenMeta Amount
      → TokenBalance Amount
      → Location
      → FullHash
      → Amount
      → TransferProtoDb Amount
      → Txid
      → ℕ
      → TokenCache Amount
      → Holders Amount
      → Step p
  reserve l token acc location owner amt entry txid vout c h =
      let d = token.proto in
      let key : AddressToken = record { address = owner; token = d.tick } in
      let acc' : TokenBalance Amount = record {
        balance = sub acc.balance amt;
        transferable_balance = add acc.transferable_balance amt;
        transfers_count = inc_u64 acc.transfers_count;
      } in
      ok (
        set_token p l token
            (record d {
              transfer_count = inc_u64 d.transfer_count;
              transactions = inc_u32 d.transactions;
            })
            (record c {
              token_accounts = insert AddressToken-discrete key acc' c.token_accounts;
              valid_transfers =
                  insert Location-discrete location (owner, record entry { tick = d.tick })
                    c.valid_transfers;
            }),
        h,
        some (HistoryTokenAction.deploy_transfer d.tick amt owner txid vout),
      )

  -- The checks of a transfer once its token is found.
  unfoldable pub transfer_checked :
      LowerCaseTokenTick
      → TokenMeta Amount
      → Location
      → FullHash
      → Amount
      → TransferProtoDb Amount
      → Txid
      → ℕ
      → TokenCache Amount
      → Holders Amount
      → Step p
  transfer_checked l token location owner amt entry txid vout c h =
      if ltb token.proto.dec (scale amt)
      then ok (c, h, none)
      else elim (lookup AddressToken-discrete (record { address = owner; token = token.proto.tick })
          c.token_accounts) [
            | none ↦ ok (c, h, none)
            | some acc ↦
                if amount_lt p acc.balance amt
                then ok (c, h, none)
                else reserve l token acc location owner amt entry txid vout c h
          ]

  -- A transfer whose entry was found in, and taken out of, `all_transfers`.
  unfoldable pub transfer_entry :
      Location
      → FullHash
      → MintProtoWrapper Amount
      → TransferProtoDb Amount
      → Txid
      → ℕ
      → TokenCache Amount
      → Holders Amount
      → Step p
  transfer_entry location owner proto entry txid vout c h =
      elim (lookup Bytes-discrete (lower p proto.tick) c.tokens) [
        | none ↦ ok (c, h, none)
        | some token ↦
            transfer_checked (lower p proto.tick) token location owner proto.amt entry txid vout c h
      ]

  unfoldable pub process_transfer :
      Location
      → FullHash
      → MintProtoWrapper Amount
      → Txid
      → ℕ
      → TokenCache Amount
      → Holders Amount
      → Step p
  process_transfer location owner proto txid vout c h =
      elim (lookup Location-discrete location c.all_transfers) [
        | none ↦ ok (c, h, none)
        | some entry ↦
            transfer_entry location owner proto entry txid vout
              (record c { all_transfers = remove Location-discrete location c.all_transfers }) h
      ]
