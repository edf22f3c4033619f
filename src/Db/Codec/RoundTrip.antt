-- ===== src/Db/Codec/RoundTrip.antt =====
-- What the encodings of src/db/structs.rs write is read back, for the structs of fixed size.
use wjk_20_indexer.Prelude.{
  ◌^◌, ◌<◌, ◌≡◌, refl, sym, [], ◌++◌, append_assoc, length, length-append, take, length-take_le,
  le→ltb, arith,
}
use wjk_20_indexer.Codec.{
  value, error, slice_to, to_be_bytes, length-to_be_bytes, from_be_bytes-to_be_bytes,
  slice_to-append, slice_from-append, slice-append, to_array-length, to_array-other,
}
use wjk_20_indexer.Tokens.Types.{AddressToken, AddressLocation}
use wjk_20_indexer.Db.Types.{AddressTokenIdDb, TokenId, BlockInfo, TxPrevout}
use wjk_20_indexer.Db.Codec.{
  Consensus, get_tx_prevout_bytes, tx_prevout_from_bytes, get_block_info_bytes,
  block_info_from_bytes, get_address_token_bytes, address_token_from_bytes,
  get_address_token_id_bytes, address_token_id_from_bytes, get_token_id_bytes, token_id_from_bytes,
  get_address_location_bytes, address_location_from_bytes,
}

pub TxPrevout-round_trip :
    (v : TxPrevout)
    → length v.script_hash ≡ 32
    → v.value < 2 ^ 64
    → tx_prevout_from_bytes (get_tx_prevout_bytes v) ≡ value v
unfolding tx_prevout_from_bytes get_tx_prevout_bytes
TxPrevout-round_trip v h k =
    rw
      (
        slice_to-append 32 v.script_hash (to_be_bytes 8 v.value) h,
        to_array-length 32 v.script_hash h,
        slice_from-append 32 v.script_hash (to_be_bytes 8 v.value) h,
        to_array-length 8 (to_be_bytes 8 v.value) (length-to_be_bytes 8 v.value),
        from_be_bytes-to_be_bytes 8 v.value k,
      )
      refl

pub BlockInfo-round_trip :
    (v : BlockInfo)
    → length v.hash ≡ 32
    → v.created < 2 ^ 32
    → block_info_from_bytes (get_block_info_bytes v) ≡ value v
unfolding block_info_from_bytes get_block_info_bytes
BlockInfo-round_trip v h k =
    rw
      (
        slice-append 0 32 [] v.hash (to_be_bytes 4 v.created) refl (omega (arith, h)),
        to_array-length 32 v.hash h,
        slice_from-append 32 v.hash (to_be_bytes 4 v.created) h,
        to_array-length 4 (to_be_bytes 4 v.created) (length-to_be_bytes 4 v.created),
        from_be_bytes-to_be_bytes 4 v.created k,
      )
      refl

pub AddressToken-round_trip :
    (v : AddressToken)
    → length v.address ≡ 32
    → length v.token ≡ 8
    → address_token_from_bytes (get_address_token_bytes v) ≡ value v
unfolding address_token_from_bytes get_address_token_bytes
AddressToken-round_trip v h k =
    rw
      (
        slice_to-append 32 v.address v.token h,
        to_array-length 32 v.address h,
        slice_from-append 32 v.address v.token h,
        to_array-length 8 v.token k,
      )
      refl

AddressTokenId-length :
    (v : AddressTokenIdDb)
    → length v.address ≡ 32
    → length v.token ≡ 8
    → length (get_address_token_id_bytes v) ≡ 48
unfolding get_address_token_id_bytes
AddressTokenId-length v h k = omega (
  arith,
  h,
  k,
  length-append v.address (v.token ++ to_be_bytes 8 v.id),
  length-append v.token (to_be_bytes 8 v.id),
  length-to_be_bytes 8 v.id,
)

pub AddressTokenId-round_trip :
    (v : AddressTokenIdDb)
    → length v.address ≡ 32
    → length v.token ≡ 8
    → v.id < 2 ^ 64
    → address_token_id_from_bytes (get_address_token_id_bytes v) ≡ value v
unfolding address_token_id_from_bytes get_address_token_id_bytes
AddressTokenId-round_trip v h k l =
    let n = to_be_bytes 8 v.id in
    rw
      (
        AddressTokenId-length v h k,
        slice_to-append 32 v.address (v.token ++ n) h,
        to_array-length 32 v.address h,
        slice-append 32 40 v.address v.token n h (omega arith),
        to_array-length 8 v.token k,
        sym (append_assoc v.address v.token n),
        slice_from-append 40 (v.address ++ v.token) n
            (omega (arith, length-append v.address v.token)),
        to_array-length 8 n (length-to_be_bytes 8 v.id),
        from_be_bytes-to_be_bytes 8 v.id l,
      )
      refl

module _ (c : Consensus) where
  pub AddressLocation-round_trip :
      (v : AddressLocation)
      → length v.address ≡ 32
      → length v.location.outpoint.txid ≡ 32
      → v.location.outpoint.vout < 2 ^ 32
      → v.location.offset < 2 ^ 64
      → address_location_from_bytes c (get_address_location_bytes c v) ≡ value v
  unfolding address_location_from_bytes get_address_location_bytes
  AddressLocation-round_trip v h t o k =
      let n = to_be_bytes 8 v.location.offset in
      let s = c.serialize_outpoint v.location.outpoint in
      let l = c.length-outpoint v.location.outpoint t o in
      rw
        (
          slice_to-append 32 v.address (s ++ n) h,
          to_array-length 32 v.address h,
          slice-append 32 68 v.address s n h (omega arith),
          c.read_outpoint v.location.outpoint t o,
          sym (append_assoc v.address s n),
          slice_from-append 68 (v.address ++ s) n (omega (arith, length-append v.address s)),
          to_array-length 8 n (length-to_be_bytes 8 v.location.offset),
          from_be_bytes-to_be_bytes 8 v.location.offset k,
        )
        refl

-- No key of the table `token_id_to_event` is read back: `from_bytes` takes four bytes for the tick,
-- which has eight.
pub TokenId-from_bytes-error :
    (v : TokenId) → length v.token ≡ 8 → token_id_from_bytes (get_token_id_bytes v) ≡ error
unfolding token_id_from_bytes get_token_id_bytes slice_to
TokenId-from_bytes-error v h =
    let bytes = v.token ++ to_be_bytes 8 v.id in
    rw
      (
        le→ltb (length bytes) 4 (omega (arith, h, length-append v.token (to_be_bytes 8 v.id))),
        to_array-other 8 (take 4 bytes) (omega (arith, length-take_le 4 bytes)),
      )
      refl
