-- ===== src/Tokens/Cache.antt =====
-- The parts of `TokenCache` in src/tokens/parser.rs that its operations share. A step returns the
-- cache, the holders and the history entry that it pushed, if any; it panics where the source
-- calls `expect`, `unwrap` or `panic!`.
use wjk_20_indexer.Prelude.{ℕ, ◌+◌, ◌%◌, ◌^◌, Option, lookup, insert, Outcome}
use wjk_20_indexer.Tokens.Types.{
  OriginalTokenTick, LowerCaseTokenTick, AddressToken, DeployProtoDb, TokenBalance,
  HistoryTokenAction, TokenMeta, TokenCache, Bytes-discrete, AddressToken-discrete, trim_tick_bytes,
}
use wjk_20_indexer.Tokens.Platform.{Platform}
use wjk_20_indexer.Tokens.Holders.{Holders, or_default}

-- Counters of the width of their Rust types, which wrap.
abbrev pub inc_u32 : ℕ → ℕ
inc_u32 n = (n + 1) % 2 ^ 32

abbrev pub inc_u64 : ℕ → ℕ
inc_u64 n = (n + 1) % 2 ^ 64

module _ (p : Platform) where
  open p use {Amount, zero_amount, add, to_lowercase}

  abbrev pub Step : Type 0
  Step = Outcome (TokenCache Amount × Holders Amount × Option (HistoryTokenAction Amount))

  -- `LowerCaseTokenTick::from(tick)`
  abbrev pub lower : OriginalTokenTick → LowerCaseTokenTick
  lower tick = to_lowercase (trim_tick_bytes tick)

  -- `TokenBalance::default()`
  abbrev pub empty_balance : TokenBalance Amount
  empty_balance = record {
    balance = zero_amount;
    transferable_balance = zero_amount;
    transfers_count = 0;
  }

  abbrev pub account : AddressToken → TokenCache Amount → TokenBalance Amount
  account key c = or_default empty_balance (lookup AddressToken-discrete key c.token_accounts)

  -- `token_accounts.entry(key).or_default().balance += amt`
  abbrev pub credit : AddressToken → Amount → TokenCache Amount → TokenCache Amount
  credit key amt c =
      let a = account key c in
      record c {
        token_accounts =
            insert AddressToken-discrete key (record a { balance = add a.balance amt })
              c.token_accounts;
      }

  abbrev pub set_token :
      LowerCaseTokenTick
      → TokenMeta Amount
      → DeployProtoDb Amount
      → TokenCache Amount
      → TokenCache Amount
  set_token l token d c = record c {
    tokens = insert Bytes-discrete l (record token { proto = d }) c.tokens;
  }
