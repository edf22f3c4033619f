-- ===== src/Db/Codec.antt =====
-- The encodings of the keys and values of the tables: the impls of `Pebble` in src/db/structs.rs.
pub mod RoundTrip
pub mod Partials
pub mod Vectors
mod Tests
use wjk_20_indexer.Prelude.{ℕ, ◌+◌, ◌-◌, ◌*◌, ◌^◌, ◌<◌, ◌≡◌, List, [], ◌∷◌, ◌++◌, Bytes, length}
use wjk_20_indexer.Codec.{
  Decoded, value, error, panic, ◌>>=◌, slice_to, slice_from, slice, to_array, to_be_bytes,
  from_be_bytes,
}
use wjk_20_indexer.Tokens.Types.{
  FullHash, Txid, OriginalTokenTick, OutPoint, AddressToken, AddressLocation,
}
use wjk_20_indexer.Db.Types.{AddressTokenIdDb, TokenId, BlockInfo, TxPrevout}

-- The consensus encoding of bellscoin: a transaction id has 32 bytes, an outpoint 36, and what is
-- written is read back.
pub record Consensus : Type 0 where
  pub serialize_outpoint : OutPoint → Bytes
  pub deserialize_outpoint : Bytes → Decoded OutPoint
  pub serialize_txid : Txid → Bytes
  pub deserialize_txid : Bytes → Decoded Txid
  pub length-outpoint :
      (o : OutPoint) → length o.txid ≡ 32 → o.vout < 2 ^ 32 → length (serialize_outpoint o) ≡ 36
  pub read_outpoint :
      (o : OutPoint)
      → length o.txid ≡ 32
      → o.vout < 2 ^ 32
      → deserialize_outpoint (serialize_outpoint o) ≡ value o
  pub length-txid : (t : Txid) → length t ≡ 32 → length (serialize_txid t) ≡ 32
  pub read_txid : (t : Txid) → length t ≡ 32 → deserialize_txid (serialize_txid t) ≡ value t

-- `.expect(..)`
abbrev pub or_panic {ℓ} : {A : Type ℓ} → Decoded A → Decoded A
or_panic (value a) = value a
or_panic error = panic
or_panic panic = panic

-- `Pebble for TxPrevout`
unfoldable pub get_tx_prevout_bytes : TxPrevout → Bytes
get_tx_prevout_bytes v = v.script_hash ++ to_be_bytes 8 v.value

unfoldable pub tx_prevout_from_bytes : Bytes → Decoded TxPrevout
tx_prevout_from_bytes v = do
  h ← slice_to 32 v
  script_hash ← to_array 32 h
  t ← slice_from 32 v
  n ← to_array 8 t
  value (record { script_hash = script_hash; value = from_be_bytes n })

-- `Pebble for BlockInfo`
unfoldable pub get_block_info_bytes : BlockInfo → Bytes
get_block_info_bytes v = v.hash ++ to_be_bytes 4 v.created

unfoldable pub block_info_from_bytes : Bytes → Decoded BlockInfo
block_info_from_bytes v = do
  h ← slice 0 32 v
  hash ← to_array 32 h
  t ← slice_from 32 v
  n ← to_array 4 t
  value (record { hash = hash; created = from_be_bytes n })

-- `Pebble for AddressToken`
unfoldable pub get_address_token_bytes : AddressToken → Bytes
get_address_token_bytes v = v.address ++ v.token

unfoldable pub address_token_from_bytes : Bytes → Decoded AddressToken
address_token_from_bytes v = do
  a ← slice_to 32 v
  address ← to_array 32 a
  t ← slice_from 32 v
  token ← or_panic (to_array 8 t)
  value (record { address = address; token = token })

-- `Pebble for AddressTokenIdDB`
abbrev pub address_token_id_fixed_size : ℕ
address_token_id_fixed_size = 32 + 4 + 8

unfoldable pub get_address_token_id_bytes : AddressTokenIdDb → Bytes
get_address_token_id_bytes v = v.address ++ (v.token ++ to_be_bytes 8 v.id)

-- `v.len() - 8` stops at 0 here; below 8 bytes the slice `v[..32]` has panicked before.
unfoldable pub address_token_id_from_bytes : Bytes → Decoded AddressTokenIdDb
address_token_id_from_bytes v = do
  a ← slice_to 32 v
  address ← to_array 32 a
  t ← slice 32 (length v - 8) v
  token ← to_array 8 t
  n ← slice_from (length v - 8) v
  id ← to_array 8 n
  value (record { address = address; token = token; id = from_be_bytes id })

-- `Pebble for TokenId`
unfoldable pub get_token_id_bytes : TokenId → Bytes
get_token_id_bytes v = v.token ++ to_be_bytes 8 v.id

unfoldable pub token_id_from_bytes : Bytes → Decoded TokenId
token_id_from_bytes v = do
  t ← slice_to 4 v
  token ← to_array 8 t
  n ← slice_from 4 v
  id ← to_array 8 n
  value (record { token = token; id = from_be_bytes id })

-- `Pebble for AddressLocation`
module _ (c : Consensus) where
  unfoldable pub get_address_location_bytes : AddressLocation → Bytes
  get_address_location_bytes v =
      v.address ++ (c.serialize_outpoint v.location.outpoint ++ to_be_bytes 8 v.location.offset)

  unfoldable pub address_location_from_bytes : Bytes → Decoded AddressLocation
  address_location_from_bytes v = do
    a ← slice_to 32 v
    address ← to_array 32 a
    o ← slice 32 (32 + 36) v
    outpoint ← c.deserialize_outpoint o
    n ← slice_from (32 + 32 + 4) v
    offset ← to_array 8 n
    value (record {
      address = address;
      location = record { outpoint = outpoint; offset = from_be_bytes offset };
    })
