-- ===== src/Wire/RoundTrip.antt =====
-- What packages/new-blk-parser/src/blockchain/proto writes, read again by
-- src/blockchain/parser/reader.rs.
use wjk_20_indexer.Prelude.{
  ℕ, zero, suc, ◌/◌, ◌%◌, ◌^◌, ◌<◌, ◌≤◌, ◌≡◌, refl, sym, true, false, List, [], ◌∷◌, ◌++◌,
  append_assoc, Bytes, All, length, length-append, take-append, drop-append, ◌==◌, le→leb, le→ltb,
  arith,
}
use wjk_20_indexer.Codec.{value}
use wjk_20_indexer.Wire.Types.{
  VarUint, from_u8, from_u16, from_u32, from_u64, TxInput, TxOutput, RawTx, BlockHeader,
  to_le_bytes, output_bytes, outputs_bytes, input_bytes, inputs_bytes, header_bytes, tx_bytes,
}
use wjk_20_indexer.Wire.Read.{
  Reader, Outside, from_le_bytes, read_exact, read_le, read_u8, read_after, read_from, read_256hash,
  read_u8_vec, read_many, read_block_header, read_tx_outpoint, read_tx_output, read_tx_input,
  read_tx_inputs, read_tx_outputs, read_in_count, read_tx,
}
use wjk_20_indexer.Wire.Takes.{length-to_le_bytes}

-- The bytes `bs` before any others are read as `x`.
abbrev pub Reads : {A : Type 0} → Reader A → Bytes → A → Type 0
Reads read bs x = (rest : Bytes) → read (bs ++ rest) ≡ value (x, rest)

from_le_bytes-to_le_bytes : (w n : ℕ) → n < 256 ^ w → from_le_bytes (to_le_bytes w n) ≡ n
unfolding from_le_bytes to_le_bytes
from_le_bytes-to_le_bytes zero n h = omega arith
from_le_bytes-to_le_bytes (suc w) n h =
    omega (arith, from_le_bytes-to_le_bytes w (n / 256) (omega arith))

read_exact-Reads : (n : ℕ) (bs : Bytes) → length bs ≡ n → Reads (read_exact n) bs bs
unfolding read_exact
read_exact-Reads n bs h rest =
    rw
      (
        le→ltb (length (bs ++ rest)) n (omega (arith, h, length-append bs rest)),
        take-append bs rest h,
        drop-append bs rest h,
      )
      refl

pub read_le-Reads : (w n : ℕ) → n < 256 ^ w → Reads (read_le w) (to_le_bytes w n) n
unfolding read_le
read_le-Reads w n h rest =
    rw
      (
        read_exact-Reads w (to_le_bytes w n) (length-to_le_bytes w n) rest,
        from_le_bytes-to_le_bytes w n h,
      )
      refl

-- What a `VarUint` can be: its bytes are one of the four forms of its value.
pub data IsVarUint : VarUint → Type 0 where
  one : (n : ℕ) → n ≤ 0xfc → IsVarUint (from_u8 n)
  two : (n : ℕ) → n < 2 ^ 16 → IsVarUint (from_u16 n)
  four : (n : ℕ) → n < 2 ^ 32 → IsVarUint (from_u32 n)
  eight : (n : ℕ) → n < 2 ^ 64 → IsVarUint (from_u64 n)

pub read_from-Reads : (v : VarUint) → IsVarUint v → Reads read_from v.buf v
unfolding read_from read_u8 read_after
read_from-Reads v (one n h) rest = rw (le→leb n 0xfc h) refl
read_from-Reads v (two n h) rest = rw (read_le-Reads 2 n (omega arith) rest) refl
read_from-Reads v (four n h) rest = rw (read_le-Reads 4 n (omega arith) rest) refl
read_from-Reads v (eight n h) rest = rw (read_le-Reads 8 n (omega arith) rest) refl

read_u8_vec-Reads : (n : ℕ) (bs : Bytes) → length bs ≡ n → n < 2 ^ 32 → Reads (read_u8_vec n) bs bs
unfolding read_u8_vec
read_u8_vec-Reads n bs h small rest =
    read_exact-Reads (n % 2 ^ 32) bs (omega (arith, h, small)) rest

read_256hash-Reads : (bs : Bytes) → length bs ≡ 32 → Reads read_256hash bs bs
unfolding read_256hash
read_256hash-Reads bs h = read_exact-Reads 32 bs h

pub record IsHeader (h : BlockHeader) : Type 0 where
  pub version_fits : h.version < 2 ^ 32
  pub prev_hash_fits : length h.prev_hash ≡ 32
  pub merkle_root_fits : length h.merkle_root ≡ 32
  pub timestamp_fits : h.timestamp < 2 ^ 32
  pub bits_fits : h.bits < 2 ^ 32
  pub nonce_fits : h.nonce < 2 ^ 32

pub read_block_header-Reads :
    (h : BlockHeader) → IsHeader h → Reads read_block_header (header_bytes h) h
unfolding read_block_header header_bytes
read_block_header-Reads h v rest = simp (
  append_assoc,
  read_le-Reads 4 h.version (omega (arith, v.version_fits)),
  read_256hash-Reads h.prev_hash v.prev_hash_fits,
  read_256hash-Reads h.merkle_root v.merkle_root_fits,
  read_le-Reads 4 h.timestamp (omega (arith, v.timestamp_fits)),
  read_le-Reads 4 h.bits (omega (arith, v.bits_fits)),
  read_le-Reads 4 h.nonce (omega (arith, v.nonce_fits)),
)

pub record IsOutput (o : TxOutput) : Type 0 where
  pub value_fits : o.value < 2 ^ 64
  pub counted : IsVarUint o.script_len
  pub script_fits : length o.script_pubkey ≡ o.script_len.value
  pub script_small : o.script_len.value < 2 ^ 32

read_tx_output-Reads : (o : TxOutput) → IsOutput o → Reads read_tx_output (output_bytes o) o
unfolding read_tx_output output_bytes
read_tx_output-Reads o v rest = simp (
  append_assoc,
  read_le-Reads 8 o.value (omega (arith, v.value_fits)),
  read_from-Reads o.script_len v.counted,
  read_u8_vec-Reads o.script_len.value o.script_pubkey v.script_fits v.script_small,
)

read_outputs-Reads :
    (os : List TxOutput)
    → All IsOutput os
    → Reads (read_many read_tx_output (length os)) (outputs_bytes os) os
unfolding read_many outputs_bytes
read_outputs-Reads [] v rest = refl
read_outputs-Reads (o ∷ os) v rest =
    simp (append_assoc, read_tx_output-Reads o v.0, read_outputs-Reads os v.1)

module _ (o : Outside) where
  open o use {Witness, no_witness, has_room_inputs, has_room_outputs}

  -- An input as it stands in a transaction without witnesses.
  pub record IsInput (i : TxInput Witness) : Type 0 where
    pub txid_fits : length i.outpoint.txid ≡ 32
    pub vout_fits : i.outpoint.vout < 2 ^ 32
    pub counted : IsVarUint i.script_len
    pub script_fits : length i.script_sig ≡ i.script_len.value
    pub script_small : i.script_len.value < 2 ^ 32
    pub seq_no_fits : i.seq_no < 2 ^ 32
    pub bare : i.witness ≡ no_witness

  read_tx_input-Reads :
      (i : TxInput Witness) → IsInput i → Reads (read_tx_input o) (input_bytes i) i
  unfolding read_tx_input read_tx_outpoint input_bytes
  read_tx_input-Reads i v rest = simp (
    append_assoc,
    read_256hash-Reads i.outpoint.txid v.txid_fits,
    read_le-Reads 4 i.outpoint.vout (omega (arith, v.vout_fits)),
    read_from-Reads i.script_len v.counted,
    read_u8_vec-Reads i.script_len.value i.script_sig v.script_fits v.script_small,
    read_le-Reads 4 i.seq_no (omega (arith, v.seq_no_fits)),
    sym v.bare,
  )

  read_inputs-Reads :
      (is : List (TxInput Witness))
      → All IsInput is
      → Reads (read_many (read_tx_input o) (length is)) (inputs_bytes is) is
  unfolding read_many inputs_bytes
  read_inputs-Reads [] v rest = refl
  read_inputs-Reads (i ∷ is) v rest =
      simp (append_assoc, read_tx_input-Reads i v.0, read_inputs-Reads is v.1)

  read_tx_inputs-Reads :
      (n : ℕ) (is : List (TxInput Witness))
      → length is ≡ n
      → has_room_inputs n ≡ true
      → All IsInput is
      → Reads (read_tx_inputs o n) (inputs_bytes is) is
  unfolding read_tx_inputs
  read_tx_inputs-Reads n is c room v rest = rw (room, ← c) (read_inputs-Reads is v rest)

  read_tx_outputs-Reads :
      (n : ℕ) (os : List TxOutput)
      → length os ≡ n
      → has_room_outputs n ≡ true
      → All IsOutput os
      → Reads (read_tx_outputs o n) (outputs_bytes os) os
  unfolding read_tx_outputs
  read_tx_outputs-Reads n os c room v rest = rw (room, ← c) (read_outputs-Reads os v rest)

  pub record IsTx (tx : RawTx Witness) : Type 0 where
    pub version_fits : tx.version < 2 ^ 32
    pub in_counted : IsVarUint tx.in_count
    pub inputs_counted : length tx.inputs ≡ tx.in_count.value
    pub some_input : (tx.in_count.value == 0) ≡ false
    pub inputs : All IsInput tx.inputs
    pub out_counted : IsVarUint tx.out_count
    pub outputs_counted : length tx.outputs ≡ tx.out_count.value
    pub outputs : All IsOutput tx.outputs
    pub locktime_fits : tx.locktime < 2 ^ 32
    pub room :
        (has_room_inputs tx.in_count.value ≡ true) × (has_room_outputs tx.out_count.value ≡ true)

  -- A transaction without witnesses that has an input is read from its bytes, whatever follows them.
  pub read_tx-Reads :
      (tx : RawTx Witness) (rest : Bytes)
      → IsTx tx
      → read_tx o (tx_bytes tx ++ rest) ≡ value (tx, rest)
  unfolding read_tx read_in_count tx_bytes
  read_tx-Reads tx rest v = simp (
    append_assoc,
    read_le-Reads 4 tx.version (omega (arith, v.version_fits)),
    read_from-Reads tx.in_count v.in_counted,
    v.some_input,
    read_tx_inputs-Reads tx.in_count.value tx.inputs v.inputs_counted v.room.0 v.inputs,
    read_from-Reads tx.out_count v.out_counted,
    read_tx_outputs-Reads tx.out_count.value tx.outputs v.outputs_counted v.room.1 v.outputs,
    read_le-Reads 4 tx.locktime (omega (arith, v.locktime_fits)),
  )
