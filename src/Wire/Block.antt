-- ===== src/Wire/Block.antt =====
-- `Block` of packages/new-blk-parser/src/blockchain/proto/block.rs with the hashes of its header and
-- transactions.
use wjk_20_indexer.Prelude.{
  ℕ, ◌/◌, ◌%◌, ◌==◌, Bool, true, false, Option, none, some, List, [], ◌∷◌, ◌++◌, map, Bytes, ite,
  if◌then◌else◌, Outcome, ok, panic,
}
use wjk_20_indexer.Codec.{value, ◌>>=◌}
use wjk_20_indexer.Tokens.Types.{Bytes-discrete}
use wjk_20_indexer.Wire.Types.{
  VarUint, TxInput, TxOutput, RawTx, BlockHeader, AuxPowExtension, Hashed, to_le_bytes,
  header_bytes, output_bytes, inputs_bytes,
}
use wjk_20_indexer.Wire.Merkle.{merkle_root}
use wjk_20_indexer.Wire.Read.{
  Reader, Outside, read_block_header, read_aux_pow_extension, read_from, read_txs,
}

-- `sha256d::Hash::hash`, and what `eval_from_bytes` makes of a script.
pub record Hashing : Type 1 where
  pub hash : Bytes → Bytes
  pub Script : Type 0
  pub eval_from_bytes : Bytes → Script

module _ (Script : Type 0) where
  pub record EvaluatedTxOut : Type 0 where
    pub script : Script
    pub out : TxOutput

module _ (Witness Script : Type 0) where
  pub record EvaluatedTx : Type 0 where
    pub version : ℕ
    pub in_count : VarUint
    pub inputs : List (TxInput Witness)
    pub out_count : VarUint
    pub outputs : List (EvaluatedTxOut Script)
    pub locktime : ℕ

module _ (Witness Script : Type 0) where
  pub record Block : Type 0 where
    pub size : ℕ
    pub header : Hashed BlockHeader
    pub aux_pow_extension : Option (AuxPowExtension Witness)
    pub tx_count : VarUint
    pub txs : List (Hashed (EvaluatedTx Witness Script))

module _ {Script : Type 0} where
  unfoldable pub evaluated_outputs_bytes : List (EvaluatedTxOut Script) → Bytes
  evaluated_outputs_bytes [] = []
  evaluated_outputs_bytes (o ∷ os) = output_bytes o.out ++ evaluated_outputs_bytes os

module _ {Witness Script : Type 0} where
  -- `to_bytes` of an evaluated transaction
  unfoldable pub evaluated_tx_bytes : EvaluatedTx Witness Script → Bytes
  evaluated_tx_bytes tx =
      to_le_bytes 4 tx.version
      ++ (tx.in_count.buf
          ++ (inputs_bytes tx.inputs
              ++ (tx.out_count.buf
                  ++ (evaluated_outputs_bytes tx.outputs ++ to_le_bytes 4 tx.locktime))))

abbrev is_root : Bytes → Outcome Bytes → Outcome Bool
is_root expected panic = panic
is_root expected (ok root) = ok (ite (Bytes-discrete root expected) true false)

module _ (s : Hashing) where
  open s use {hash, Script, eval_from_bytes}

  -- `EvaluatedTxOut::eval_script`
  abbrev pub eval_script : TxOutput → EvaluatedTxOut Script
  eval_script out = record { script = eval_from_bytes out.script_pubkey; out = out }

  -- `Hashed::double_sha256` of a header
  abbrev pub hashed_header : BlockHeader → Hashed BlockHeader
  hashed_header header = record { hash = hash (header_bytes header); value = header }

  module _ {Witness : Type 0} where
    -- `EvaluatedTx::from`
    abbrev pub from_raw : RawTx Witness → EvaluatedTx Witness Script
    from_raw tx = record {
      version = tx.version;
      in_count = tx.in_count;
      inputs = tx.inputs;
      out_count = tx.out_count;
      outputs = map eval_script tx.outputs;
      locktime = tx.locktime;
    }

    -- `Hashed::double_sha256` of a transaction
    abbrev pub hashed_tx : EvaluatedTx Witness Script → Hashed (EvaluatedTx Witness Script)
    hashed_tx tx = record { hash = hash (evaluated_tx_bytes tx); value = tx }

    -- `Block::new`
    unfoldable pub new :
        ℕ
        → BlockHeader
        → Option (AuxPowExtension Witness)
        → VarUint
        → List (RawTx Witness)
        → Block Witness Script
    new size header aux_pow_extension tx_count txs = record {
      size = size;
      header = hashed_header header;
      aux_pow_extension = aux_pow_extension;
      tx_count = tx_count;
      txs = map (λ tx. hashed_tx (from_raw tx)) txs;
    }

    unfoldable pub compute_merkle_root : Block Witness Script → Outcome Bytes
    unfolding merkle_root
    compute_merkle_root block = merkle_root hash (map (λ tx. tx.hash) block.txs)

    -- `verify_merkle_root`: true for `Ok(())`, false for the error.
    unfoldable pub verify_merkle_root : Block Witness Script → Outcome Bool
    unfolding compute_merkle_root
    verify_merkle_root block = is_root block.header.value.merkle_root (compute_merkle_root block)

-- `header.version & (1 << 8) != 0`
abbrev pub has_aux_pow : BlockHeader → Bool
has_aux_pow h = h.version / 256 % 2 == 1

module _ (o : Outside) (s : Hashing) where
  open o use {Witness}
  open s use {Script}

  abbrev read_some_aux_pow : Reader (Option (AuxPowExtension Witness))
  unfolding read_aux_pow_extension
  read_some_aux_pow bs = do
    (extension, rest) ← read_aux_pow_extension o bs
    value (some extension, rest)

  unfoldable pub read_block : ℕ → Reader (Block Witness Script)
  unfolding read_block_header read_aux_pow_extension read_from read_txs new
  read_block size bs = do
    (header, bs1) ← read_block_header bs
    (extension, bs2) ← (if has_aux_pow header then read_some_aux_pow bs1 else value (none, bs1))
    (tx_count, bs3) ← read_from bs2
    (txs, bs4) ← read_txs o tx_count.value bs3
    value (new s size header extension tx_count txs, bs4)
