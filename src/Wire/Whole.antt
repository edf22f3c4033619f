-- ===== src/Wire/Whole.antt =====
-- A whole block of packages/new-blk-parser, from its bytes to `Block::new` with its hashes.
use wjk_20_indexer.Prelude.{
  ℕ, ◌≡◌, refl, false, none, List, [], ◌∷◌, ◌++◌, append_assoc, map, Bytes, All, length,
}
use wjk_20_indexer.Codec.{value}
use wjk_20_indexer.Wire.Types.{
  VarUint, TxOutput, RawTx, BlockHeader, header_bytes, outputs_bytes, tx_bytes,
}
use wjk_20_indexer.Wire.Read.{Outside, read_many, read_tx, read_txs}
use wjk_20_indexer.Wire.RoundTrip.{
  Reads, IsHeader, IsVarUint, IsTx, read_block_header-Reads, read_from-Reads, read_tx-Reads,
}
use wjk_20_indexer.Wire.Block.{
  Hashing, Block, evaluated_outputs_bytes, evaluated_tx_bytes, eval_script, from_raw, hashed_tx,
  new, has_aux_pow, read_block,
}

unfoldable pub txs_bytes : {Witness : Type 0} → List (RawTx Witness) → Bytes
txs_bytes [] = []
txs_bytes (tx ∷ txs) = tx_bytes tx ++ txs_bytes txs

module _ (s : Hashing) where
  open s use {hash}

  evaluated_outputs-same :
      (os : List TxOutput) → evaluated_outputs_bytes (map (eval_script s) os) ≡ outputs_bytes os
  unfolding evaluated_outputs_bytes outputs_bytes
  evaluated_outputs-same [] = refl
  evaluated_outputs-same (o ∷ os) = rw (evaluated_outputs-same os) refl

  evaluated-same :
      {Witness : Type 0} (tx : RawTx Witness) → evaluated_tx_bytes (from_raw s tx) ≡ tx_bytes tx
  unfolding evaluated_tx_bytes tx_bytes
  evaluated-same tx = rw (evaluated_outputs-same tx.outputs) refl

  hashes-same :
      {Witness : Type 0} (txs : List (RawTx Witness))
      → map (λ t. t.hash) (map (λ tx. hashed_tx s (from_raw s tx)) txs)
        ≡ map (λ tx. hash (tx_bytes tx)) txs
  hashes-same [] = refl
  hashes-same (tx ∷ txs) = rw (evaluated-same tx, hashes-same txs) refl

module _ (o : Outside) (s : Hashing) where
  open o use {Witness}
  open s use {hash, Script}

  read_txs-Reads :
      (txs : List (RawTx Witness))
      → All (IsTx o) txs
      → Reads (read_many (read_tx o) (length txs)) (txs_bytes txs) txs
  unfolding read_many txs_bytes
  read_txs-Reads [] v rest = refl
  read_txs-Reads (tx ∷ txs) v rest =
      simp (append_assoc, (λ (rest : Bytes). read_tx-Reads o tx rest v.0), read_txs-Reads txs v.1)

  read_count-Reads :
      (n : ℕ) (txs : List (RawTx Witness))
      → length txs ≡ n
      → All (IsTx o) txs
      → Reads (read_txs o n) (txs_bytes txs) txs
  unfolding read_txs
  read_count-Reads n txs c v rest = rw (← c) (read_txs-Reads txs v rest)

  -- A block whose version has no AuxPoW extension, whose header fits its widths, whose transactions
  -- have no witnesses, at least one input each and fields that fit their widths, and whose count is that
  -- of its transactions, is read from its bytes whatever follows them, and its header and its
  -- transactions have the hashes of their own bytes.
  pub read_block-Reads :
      (size : ℕ) (header : BlockHeader) (tx_count : VarUint) (txs : List (RawTx Witness))
      (rest : Bytes)
      → IsHeader header
      → has_aux_pow header ≡ false
      → IsVarUint tx_count
      → length txs ≡ tx_count.value
      → All (IsTx o) txs
      → (block : Block Witness Script) × (read_block o s size
            ((header_bytes header ++ (tx_count.buf ++ txs_bytes txs)) ++ rest)
          ≡ value (block, rest))
        × (block ≡ new s size header none tx_count txs)
        × (block.header.hash ≡ hash (header_bytes header))
        × (map (λ t. t.hash) block.txs ≡ map (λ tx. hash (tx_bytes tx)) txs)
  unfolding read_block new
  read_block-Reads size header tx_count txs rest h plain c n v = (
    new s size header none tx_count txs,
    simp (
      append_assoc,
      read_block_header-Reads header h,
      plain,
      read_from-Reads tx_count c,
      read_count-Reads tx_count.value txs n v,
    ),
    refl,
    refl,
    hashes-same s txs,
  )
