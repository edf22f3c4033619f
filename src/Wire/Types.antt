-- ===== src/Wire/Types.antt =====
-- The structs of src/blockchain/proto in packages/new-blk-parser, and their bytes. The coin, which
-- only chooses the form of addresses, is left out.
use wjk_20_indexer.Prelude.{
  ℕ, zero, suc, ◌/◌, ◌%◌, ◌==◌, Bool, false, List, [], ◌∷◌, ◌++◌, Bytes, ite, if◌then◌else◌,
  replicate, Outcome, ok, panic,
}
use wjk_20_indexer.Tokens.Types.{OutPoint, Bytes-discrete}

-- `to_le_bytes` of an integer of `w` bytes
unfoldable pub to_le_bytes : ℕ → ℕ → Bytes
to_le_bytes zero n = []
to_le_bytes (suc w) n = n % 256 ∷ to_le_bytes w (n / 256)

-- A number with the bytes that it was read from.
pub record VarUint : Type 0 where
  pub value : ℕ
  pub buf : Bytes

-- The four `From` of `VarUint`
abbrev pub from_u8 : ℕ → VarUint
from_u8 value = record { value = value; buf = value ∷ [] }

abbrev pub from_u16 : ℕ → VarUint
from_u16 value = record { value = value; buf = 0xfd ∷ to_le_bytes 2 value }

abbrev pub from_u32 : ℕ → VarUint
from_u32 value = record { value = value; buf = 0xfe ∷ to_le_bytes 4 value }

abbrev pub from_u64 : ℕ → VarUint
from_u64 value = record { value = value; buf = 0xff ∷ to_le_bytes 8 value }

pub record TxOutput : Type 0 where
  pub value : ℕ
  pub script_len : VarUint
  pub script_pubkey : Bytes

pub record BlockHeader : Type 0 where
  pub version : ℕ
  pub prev_hash : Bytes
  pub merkle_root : Bytes
  pub timestamp : ℕ
  pub bits : ℕ
  pub nonce : ℕ

pub record MerkleBranch : Type 0 where
  pub hashes : List Bytes
  pub side_mask : ℕ

pub record Hashed (A : Type 0) : Type 0 where
  pub hash : Bytes
  pub value : A

-- `to_bytes` of an output
unfoldable pub output_bytes : TxOutput → Bytes
output_bytes o = to_le_bytes 8 o.value ++ (o.script_len.buf ++ o.script_pubkey)

-- `to_bytes` of a header
unfoldable pub header_bytes : BlockHeader → Bytes
header_bytes h =
    to_le_bytes 4 h.version
    ++ (h.prev_hash
        ++ (h.merkle_root
            ++ (to_le_bytes 4 h.timestamp ++ (to_le_bytes 4 h.bits ++ to_le_bytes 4 h.nonce))))

unfoldable pub outputs_bytes : List TxOutput → Bytes
outputs_bytes [] = []
outputs_bytes (o ∷ os) = output_bytes o ++ outputs_bytes os

module _ (Witness : Type 0) where
  pub record TxInput : Type 0 where
    pub outpoint : OutPoint
    pub script_len : VarUint
    pub script_sig : Bytes
    pub seq_no : ℕ
    pub witness : Witness

module _ (Witness : Type 0) where
  pub record RawTx : Type 0 where
    pub version : ℕ
    pub in_count : VarUint
    pub inputs : List (TxInput Witness)
    pub out_count : VarUint
    pub outputs : List TxOutput
    pub locktime : ℕ

module _ (Witness : Type 0) where
  pub record AuxPowExtension : Type 0 where
    pub coinbase_tx : RawTx Witness
    pub block_hash : Bytes
    pub coinbase_branch : MerkleBranch
    pub blockchain_branch : MerkleBranch
    pub parent_block : BlockHeader

module _ {Witness : Type 0} where
  -- `to_bytes` of an input
  unfoldable pub input_bytes : TxInput Witness → Bytes
  input_bytes i =
      i.outpoint.txid
      ++ (to_le_bytes 4 i.outpoint.vout
          ++ (i.script_len.buf ++ (i.script_sig ++ to_le_bytes 4 i.seq_no)))

  unfoldable pub inputs_bytes : List (TxInput Witness) → Bytes
  inputs_bytes [] = []
  inputs_bytes (i ∷ is) = input_bytes i ++ inputs_bytes is

  -- `to_bytes` of a transaction: neither the marker of the witnesses nor the witnesses.
  unfoldable pub tx_bytes : RawTx Witness → Bytes
  unfolding inputs_bytes outputs_bytes
  tx_bytes tx =
      to_le_bytes 4 tx.version
      ++ (tx.in_count.buf
          ++ (inputs_bytes tx.inputs
              ++ (tx.out_count.buf ++ (outputs_bytes tx.outputs ++ to_le_bytes 4 tx.locktime))))

  -- `is_coinbase`: `inputs.first().unwrap()` panics on a transaction that counts one input and has
  -- none.
  abbrev is_coinbase_input : List (TxInput Witness) → Outcome Bool
  is_coinbase_input [] = panic
  is_coinbase_input (i ∷ is) =
      ok (
        ite (Bytes-discrete i.outpoint.txid (replicate 32 0)) (i.outpoint.vout == 0xffffffff) false)

  unfoldable pub is_coinbase : RawTx Witness → Outcome Bool
  is_coinbase tx = if tx.in_count.value == 1 then is_coinbase_input tx.inputs else ok false
