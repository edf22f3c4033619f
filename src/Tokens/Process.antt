-- ===== src/Tokens/Process.antt =====
-- `TokenCache::process_token_actions` of src/tokens/parser.rs: the loop over the queued actions.
pub mod Sums
pub mod Invariant
pub mod Updates
pub mod Branches
pub mod Mint
pub mod Deploy
pub mod Transfer
pub mod Move
pub mod Deliver
pub mod Actions
use wjk_20_indexer.Prelude.{
  ℕ, ◌+◌, ◌-◌, ◌%◌, ◌^◌, Option, none, some, List, [], ◌∷◌, lookup, insert, remove, ltb, ◌==◌, ◌||◌,
  if◌then◌else◌, ite, Outcome, ok, panic, ◌>>=◌,
}
use wjk_20_indexer.Tokens.Types.{
  FullHash, Txid, OriginalTokenTick, LowerCaseTokenTick, Location, AddressToken, InscriptionId,
  DeployProtoDb, TokenBalance, TransferProtoDb, MintProtoWrapper, HistoryTokenAction, TokenMeta,
  TokenAction, TokenCache, Bytes-discrete, Location-discrete, AddressToken-discrete,
  trim_tick_bytes,
}
use wjk_20_indexer.Tokens.Platform.{Platform, amount_lt, amount_min}
use wjk_20_indexer.Tokens.Holders.{Holders, increase, decrease, change, or_default}
use wjk_20_indexer.Tokens.Cache.{Step}
use wjk_20_indexer.Tokens.Minting.{process_deploy, process_mint}
use wjk_20_indexer.Tokens.Reserving.{process_transfer}
use wjk_20_indexer.Tokens.Moving.{process_transferred}

module _ (p : Platform) where
  open p use {Amount}

  unfoldable pub process_action : TokenAction Amount → TokenCache Amount → Holders Amount → Step p
  process_action (TokenAction.deploy genesis proto owner) = process_deploy p genesis proto owner
  process_action (TokenAction.mint owner proto txid vout) = process_mint p owner proto txid vout
  process_action (TokenAction.transfer location owner proto txid vout) =
      process_transfer p location owner proto txid vout
  process_action (TokenAction.transferred location recipient txid vout) =
      process_transferred p location recipient txid vout

  abbrev pub push :
      Option (HistoryTokenAction Amount)
      → List (HistoryTokenAction Amount)
      → List (HistoryTokenAction Amount)
  push none history = history
  push (some e) history = e ∷ history

  -- The loop over the drained actions, with the history in the order of the actions.
  unfoldable pub process_all :
      List (TokenAction Amount)
      → TokenCache Amount
      → Holders Amount
      → Outcome (TokenCache Amount × Holders Amount × List (HistoryTokenAction Amount))
  process_all [] c h = ok (c, h, [])
  process_all (a ∷ rest) c h = do
    (c', h', e) ← process_action a c h
    (c'', h'', history) ← process_all rest c' h'
    ok (c'', h'', push e history)

  unfoldable pub process_token_actions :
      TokenCache Amount
      → Holders Amount
      → Outcome (TokenCache Amount × Holders Amount × List (HistoryTokenAction Amount))
  unfolding process_all
  process_token_actions c h = process_all c.token_actions (record c { token_actions = [] }) h
