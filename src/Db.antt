-- ===== src/Db.antt =====
-- src/db: the structs that the tables hold, and the tables.
pub mod Types
pub mod Codec
use wjk_20_indexer.Prelude.{ℕ, Option, List, Bytes, Map}
use wjk_20_indexer.Store.{Table}
use wjk_20_indexer.Tokens.Types.{
  FullHash, LowerCaseTokenTick, OutPoint, AddressToken, AddressLocation, TokenBalance,
  TransferProtoDb, TokenMeta,
}
use wjk_20_indexer.Db.Types.{
  AddressTokenIdDb, TokenId, HistoryValue, BlockInfo, TxPrevout, Partials,
}

-- The tables of `generate_db_code!`. A table with the key `()` is its one value; `TokenMetaDB` has
-- the fields of `TokenMeta`.
pub record Db (Amount : Type 0) : Type 0 where
  pub token_to_meta : Table LowerCaseTokenTick (TokenMeta Amount)
  pub address_location_to_transfer : Table AddressLocation (TransferProtoDb Amount)
  pub address_token_to_balance : Table AddressToken (TokenBalance Amount)
  pub address_token_to_history : Table AddressTokenIdDb (HistoryValue Amount)
  pub block_info : Table ℕ BlockInfo
  pub prevouts : Table OutPoint TxPrevout
  pub outpoint_to_partials : Table OutPoint Partials
  pub outpoint_to_inscription_offsets : Table OutPoint (List ℕ)
  pub last_block : Option ℕ
  pub last_history_id : Option ℕ
  pub proof_of_history : Table ℕ Bytes
  pub block_events : Table ℕ (List AddressTokenIdDb)
  pub fullhash_to_address : Table FullHash Bytes
  pub outpoint_to_event : Table OutPoint AddressTokenIdDb
  pub token_id_to_event : Table TokenId AddressTokenIdDb
