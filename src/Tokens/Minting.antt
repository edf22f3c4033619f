-- ===== src/Tokens/Minting.antt =====
-- The `Deploy` and `Mint` branches of `TokenCache::process_token_actions` in src/tokens/parser.rs.
use wjk_20_indexer.Prelude.{ℕ, none, some, lookup, insert, ltb, if◌then◌else◌, ite, ok}
use wjk_20_indexer.Tokens.Types.{
  FullHash, Txid, LowerCaseTokenTick, AddressToken, InscriptionId, DeployProtoDb, MintProtoWrapper,
  HistoryTokenAction, TokenMeta, TokenCache, Bytes-discrete,
}
use wjk_20_indexer.Tokens.Platform.{Platform, amount_lt, amount_min}
use wjk_20_indexer.Tokens.Holders.{Holders, increase, change}
use wjk_20_indexer.Tokens.Cache.{Step, lower, account, credit, set_token, inc_u32, inc_u64}

module _ (p : Platform) where
  open p use {Amount, amount_discrete, add, sub, scale}

  unfoldable pub process_deploy :
      InscriptionId → DeployProtoDb Amount → FullHash → TokenCache Amount → Holders Amount → Step p
  process_deploy genesis proto owner c h =
      elim (lookup Bytes-discrete (lower p proto.tick) c.tokens) [
        | some _ ↦ ok (c, h, none)
        | none ↦ ok (
          record c {
            tokens =
                insert Bytes-discrete (lower p proto.tick)
                  (record { genesis = genesis; proto = proto }) c.tokens;
          },
          h,
          some (
              HistoryTokenAction.deploy proto.tick proto.max proto.lim proto.dec owner genesis.txid
                genesis.index),
        )
      ]

  -- The mint once the token is found and the amount is cut to what is left of the supply.
  unfoldable pub mint_amount :
      LowerCaseTokenTick
      → TokenMeta Amount
      → FullHash
      → Amount
      → Txid
      → ℕ
      → TokenCache Amount
      → Holders Amount
      → Step p
  mint_amount l token owner amt txid vout c h =
      let d = token.proto in
      let key : AddressToken = record { address = owner; token = d.tick } in
      ok (
        credit p key amt (
            set_token p l token
              (record d {
                supply = add d.supply amt;
                transactions = inc_u32 d.transactions;
                mint_count = inc_u64 d.mint_count;
              })
              c),
        change p key (account p key c) amt increase h,
        some (HistoryTokenAction.mint d.tick amt owner txid vout),
      )

  -- The checks of a mint once the token is found.
  unfoldable pub mint_checked :
      LowerCaseTokenTick
      → TokenMeta Amount
      → FullHash
      → Amount
      → Txid
      → ℕ
      → TokenCache Amount
      → Holders Amount
      → Step p
  mint_checked l token owner amt txid vout c h =
      let d = token.proto in
      if ltb d.dec (scale amt)
      then ok (c, h, none)
      else if amount_lt p d.lim amt
      then ok (c, h, none)
      else ite (amount_discrete d.supply d.max) (ok (c, h, none))
          (mint_amount l token owner (amount_min p amt (sub d.max d.supply)) txid vout c h)

  unfoldable pub process_mint :
      FullHash → MintProtoWrapper Amount → Txid → ℕ → TokenCache Amount → Holders Amount → Step p
  process_mint owner proto txid vout c h =
      elim (lookup Bytes-discrete (lower p proto.tick) c.tokens) [
        | none ↦ ok (c, h, none)
        | some token ↦ mint_checked (lower p proto.tick) token owner proto.amt txid vout c h
      ]
