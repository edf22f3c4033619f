-- ===== src/Db/Codec/Tests.antt =====
-- The encodings of src/db/structs.rs at concrete values.
use wjk_20_indexer.Prelude.{
  ◌^◌, ◌<◌, ◌≡◌, refl, true, false, [], ◌∷◌, ◌++◌, Bytes, length, length-append, replicate, arith,
}
use wjk_20_indexer.Codec.{
  Decoded, value, error, ◌>>=◌, slice_to, slice_from, to_be_bytes, from_be_bytes,
  length-to_be_bytes, from_be_bytes-to_be_bytes, slice_to-append, slice_from-append,
}
use wjk_20_indexer.Tokens.Types.{OutPoint, AddressLocation, OriginalTokenTick, FullHash}
use wjk_20_indexer.Db.Types.{AddressTokenIdDb, Partials}
use wjk_20_indexer.Db.Codec.{
  Consensus, get_address_token_id_bytes, address_token_id_from_bytes, get_address_location_bytes,
  address_location_from_bytes, get_token_id_bytes, token_id_from_bytes, address_token_id_fixed_size,
}
use wjk_20_indexer.Db.Codec.RoundTrip.{
  AddressTokenId-round_trip, AddressLocation-round_trip, TokenId-from_bytes-error,
}
use wjk_20_indexer.Db.Codec.Partials.{get_partials_bytes, partials_from_bytes, partials-round_trip}
use wjk_20_indexer.Db.Codec.Vectors.{
  vec_from_bytes, get_vec_bytes, vec_from_bytes-error, offsets-round_trip, u64_from_bytes,
}

unfoldable read_outpoint : Bytes → Decoded OutPoint
read_outpoint v = do
  txid ← slice_to 32 v
  vout ← slice_from 32 v
  value (record { txid = txid; vout = from_be_bytes vout })

read_outpoint_lem :
    (o : OutPoint)
    → length o.txid ≡ 32
    → o.vout < 2 ^ 32
    → read_outpoint (o.txid ++ to_be_bytes 4 o.vout) ≡ value o
unfolding read_outpoint
read_outpoint_lem o h k =
    rw
      (
        slice_to-append 32 o.txid (to_be_bytes 4 o.vout) h,
        slice_from-append 32 o.txid (to_be_bytes 4 o.vout) h,
        from_be_bytes-to_be_bytes 4 o.vout k,
      )
      refl

-- A consensus encoding: the transaction id and the number of the output.
abbrev plain : Consensus
plain = record {
  serialize_outpoint = λ o. o.txid ++ to_be_bytes 4 o.vout;
  deserialize_outpoint = read_outpoint;
  serialize_txid = λ t. t;
  deserialize_txid = value;
  length-outpoint = λ o h k.
      omega (arith, h, length-append o.txid (to_be_bytes 4 o.vout), length-to_be_bytes 4 o.vout);
  read_outpoint = read_outpoint_lem;
  length-txid = λ t h. h;
  read_txid = λ t h. refl;
}

abbrev alice : FullHash
alice = replicate 32 1

abbrev wojk : OriginalTokenTick
wojk = 87 ∷ 111 ∷ 106 ∷ 107 ∷ 0 ∷ 0 ∷ 0 ∷ 0 ∷ []

abbrev event : AddressTokenIdDb
event = record { address = alice; token = wojk; id = 300 }

abbrev place : AddressLocation
place = record {
  address = alice;
  location = record { outpoint = record { txid = replicate 32 7; vout = 1 }; offset = 70000 };
}

abbrev partials : Partials
partials = record {
  inscription_index = 2;
  genesis_txid = replicate 32 9;
  parts =
      record { is_tapscript = true; script_buffer = 0 ∷ 99 ∷ [] }
      ∷ record { is_tapscript = false; script_buffer = [] }
      ∷ [];
}

AddressTokenId-round_trip_example :
    address_token_id_from_bytes (get_address_token_id_bytes event) ≡ value event
AddressTokenId-round_trip_example = AddressTokenId-round_trip event refl refl (omega arith)

AddressLocation-round_trip_example :
    address_location_from_bytes plain (get_address_location_bytes plain place) ≡ value place
AddressLocation-round_trip_example =
    AddressLocation-round_trip plain place refl refl (omega arith) (omega arith)

TokenId-from_bytes-error_example :
    token_id_from_bytes (get_token_id_bytes (record { token = wojk; id = 3 })) ≡ error
TokenId-from_bytes-error_example = TokenId-from_bytes-error (record { token = wojk; id = 3 }) refl

partials-round_trip_example :
    partials_from_bytes plain (get_partials_bytes plain partials) ≡ value partials
partials-round_trip_example =
    partials-round_trip plain partials refl (omega arith) (omega arith, (omega arith, tt))

vec_from_bytes-error_example :
    vec_from_bytes address_token_id_fixed_size address_token_id_from_bytes
      (get_vec_bytes get_address_token_id_bytes (event ∷ []))
    ≡ error
vec_from_bytes-error_example = vec_from_bytes-error event [] refl refl

offsets-round_trip_example :
    vec_from_bytes 8 u64_from_bytes (get_vec_bytes (to_be_bytes 8) (0 ∷ 546 ∷ []))
    ≡ value (0 ∷ 546 ∷ [])
offsets-round_trip_example = offsets-round_trip (0 ∷ 546 ∷ []) (omega arith, (omega arith, tt))
