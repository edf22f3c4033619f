-- ===== src/Wire/Read.antt =====
-- `BlockchainRead` of packages/new-blk-parser/src/blockchain/parser/reader.rs. A reader takes the
-- bytes that are left and returns its value and what is left then; an `io::Error` is `error`.
use wjk_20_indexer.Prelude.{
  ℕ, zero, suc, ◌+◌, ◌*◌, ◌%◌, ◌^◌, ◌==◌, Bool, List, [], ◌∷◌, Bytes, length, take, drop, ltb, leb,
  if◌then◌else◌,
}
use wjk_20_indexer.Codec.{Decoded, panic, error, value, ◌>>=◌}
use wjk_20_indexer.Tokens.Types.{OutPoint}
use wjk_20_indexer.Wire.Types.{
  VarUint, from_u8, from_u16, from_u32, from_u64, TxInput, TxOutput, RawTx, BlockHeader,
  MerkleBranch, AuxPowExtension,
}

abbrev pub Reader : Type 0 → Type 0
Reader A = Bytes → Decoded (A × Bytes)

-- `from_le_bytes`
unfoldable pub from_le_bytes : Bytes → ℕ
from_le_bytes [] = 0
from_le_bytes (b ∷ bs) = b + 256 * from_le_bytes bs

-- `read_exact`
unfoldable pub read_exact : ℕ → Reader Bytes
read_exact n bs = if ltb (length bs) n then error else value (take n bs, drop n bs)

-- `read_u16`, `read_u32` and `read_u64` of `LittleEndian`, of `w` bytes
unfoldable pub read_le : ℕ → Reader ℕ
unfolding read_exact from_le_bytes
read_le w bs = do (bytes, rest) ← read_exact w bs; value (from_le_bytes bytes, rest)

unfoldable pub read_u8 : Reader ℕ
read_u8 [] = error
read_u8 (b ∷ rest) = value (b, rest)

-- A number in `w` bytes, as the `From` of that width makes it.
abbrev pub read_wide : ℕ → (ℕ → VarUint) → Reader VarUint
read_wide w from bs = do (n, rest) ← read_le w bs; value (from n, rest)

-- The `match` on the first byte
unfoldable pub read_after : ℕ → Reader VarUint
read_after first bs =
    if leb first 0xfc
    then value (from_u8 first, bs)
    else if first == 0xfd
    then read_wide 2 from_u16 bs
    else if first == 0xfe
    then read_wide 4 from_u32 bs
    else read_wide 8 from_u64 bs

-- `VarUint::read_from`
unfoldable pub read_from : Reader VarUint
unfolding read_u8 read_after
read_from bs = do (first, rest) ← read_u8 bs; read_after first rest

-- `read_256hash`
unfoldable pub read_256hash : Reader Bytes
unfolding read_exact
read_256hash bs = read_exact 32 bs

-- `read_u8_vec`, whose count is a `u32`
unfoldable pub read_u8_vec : ℕ → Reader Bytes
unfolding read_exact
read_u8_vec count bs = read_exact (count % 2 ^ 32) bs

-- `for _ in 0..count`, and `(0..count).map(..).collect()`
unfoldable pub read_many : {A : Type 0} → Reader A → ℕ → Reader (List A)
read_many read zero bs = value ([], bs)
read_many read (suc count) bs = do
  (x, rest) ← read bs
  (xs, rest') ← read_many read count rest
  value (x ∷ xs, rest')

unfoldable pub read_block_header : Reader BlockHeader
unfolding read_le read_256hash
read_block_header bs = do
  (version, bs1) ← read_le 4 bs
  (prev_hash, bs2) ← read_256hash bs1
  (merkle_root, bs3) ← read_256hash bs2
  (timestamp, bs4) ← read_le 4 bs3
  (bits, bs5) ← read_le 4 bs4
  (nonce, bs6) ← read_le 4 bs5
  value (
    record {
      version = version;
      prev_hash = prev_hash;
      merkle_root = merkle_root;
      timestamp = timestamp;
      bits = bits;
      nonce = nonce;
    },
    bs6,
  )

unfoldable pub read_tx_outpoint : Reader OutPoint
unfolding read_le read_256hash
read_tx_outpoint bs = do
  (txid, bs1) ← read_256hash bs
  (index, bs2) ← read_le 4 bs1
  value (record { txid = txid; vout = index }, bs2)

-- The body of the loop of `read_tx_outputs`
unfoldable pub read_tx_output : Reader TxOutput
unfolding read_le read_from read_u8_vec
read_tx_output bs = do
  (amount, bs1) ← read_le 8 bs
  (script_len, bs2) ← read_from bs1
  (script_pubkey, bs3) ← read_u8_vec script_len.value bs2
  value (record { value = amount; script_len = script_len; script_pubkey = script_pubkey }, bs3)

unfoldable pub read_merkle_branch : Reader MerkleBranch
unfolding read_from read_many read_256hash read_le
read_merkle_branch bs = do
  (branch_length, bs1) ← read_from bs
  (hashes, bs2) ← read_many read_256hash branch_length.value bs1
  (side_mask, bs3) ← read_le 4 bs2
  value (record { hashes = hashes; side_mask = side_mask }, bs3)

unfoldable pub read_flagged_count : Reader (ℕ × VarUint)
unfolding read_from read_u8
read_flagged_count bs = do
  (flags, bs1) ← read_u8 bs
  (in_count, bs2) ← read_from bs1
  value ((flags, in_count), bs2)

-- The count of the inputs, after the marker and the flags if there are any.
unfoldable pub read_in_count : Reader (ℕ × VarUint)
unfolding read_from read_flagged_count
read_in_count bs = do
  (in_count, bs1) ← read_from bs
  if in_count.value == 0 then read_flagged_count bs1 else value ((0, in_count), bs1)

-- What the reading takes from elsewhere: the witnesses of bellscoin, and whether
-- `Vec::with_capacity` returns for a number of inputs and of outputs.
pub record Outside : Type 1 where
  pub Witness : Type 0
  pub no_witness : Witness
  pub consensus_decode : Reader Witness
  pub has_room_inputs : ℕ → Bool
  pub has_room_outputs : ℕ → Bool

module _ (o : Outside) where
  open o use {Witness, no_witness, consensus_decode, has_room_inputs, has_room_outputs}

  -- The body of the loop of `read_tx_inputs`
  unfoldable pub read_tx_input : Reader (TxInput Witness)
  unfolding read_tx_outpoint read_from read_u8_vec read_le
  read_tx_input bs = do
    (outpoint, bs1) ← read_tx_outpoint bs
    (script_len, bs2) ← read_from bs1
    (script_sig, bs3) ← read_u8_vec script_len.value bs2
    (seq_no, bs4) ← read_le 4 bs3
    value (
      record {
        outpoint = outpoint;
        script_len = script_len;
        script_sig = script_sig;
        seq_no = seq_no;
        witness = no_witness;
      },
      bs4,
    )

  unfoldable pub read_tx_inputs : ℕ → Reader (List (TxInput Witness))
  unfolding read_many read_tx_input
  read_tx_inputs count bs =
      if has_room_inputs count then read_many read_tx_input count bs else panic

  unfoldable pub read_tx_outputs : ℕ → Reader (List TxOutput)
  unfolding read_many read_tx_output
  read_tx_outputs count bs =
      if has_room_outputs count then read_many read_tx_output count bs else panic

  -- `for input in inputs.iter_mut()`
  unfoldable pub read_witnesses : List (TxInput Witness) → Reader (List (TxInput Witness))
  read_witnesses [] bs = value ([], bs)
  read_witnesses (i ∷ is) bs = do
    (witness, bs1) ← consensus_decode bs
    (js, bs2) ← read_witnesses is bs1
    value (record i { witness = witness } ∷ js, bs2)

  unfoldable pub read_tx : Reader (RawTx Witness)
  unfolding read_in_count read_tx_inputs read_tx_outputs read_witnesses read_le read_from
  read_tx bs = do
    (version, bs1) ← read_le 4 bs
    ((flags, in_count), bs2) ← read_in_count bs1
    (inputs, bs3) ← read_tx_inputs in_count.value bs2
    (out_count, bs4) ← read_from bs3
    (outputs, bs5) ← read_tx_outputs out_count.value bs4
    (inputs', bs6) ← (if flags % 2 == 1 then read_witnesses inputs bs5 else value (inputs, bs5))
    (locktime, bs7) ← read_le 4 bs6
    value (
      record {
        version = version;
        in_count = in_count;
        inputs = inputs';
        out_count = out_count;
        outputs = outputs;
        locktime = locktime;
      },
      bs7,
    )

  unfoldable pub read_txs : ℕ → Reader (List (RawTx Witness))
  unfolding read_many read_tx
  read_txs tx_count bs = read_many read_tx tx_count bs

  unfoldable pub read_aux_pow_extension : Reader (AuxPowExtension Witness)
  unfolding read_tx read_256hash read_merkle_branch read_block_header
  read_aux_pow_extension bs = do
    (coinbase_tx, bs1) ← read_tx bs
    (block_hash, bs2) ← read_256hash bs1
    (coinbase_branch, bs3) ← read_merkle_branch bs2
    (blockchain_branch, bs4) ← read_merkle_branch bs3
    (parent_block, bs5) ← read_block_header bs4
    value (
      record {
        coinbase_tx = coinbase_tx;
        block_hash = block_hash;
        coinbase_branch = coinbase_branch;
        blockchain_branch = blockchain_branch;
        parent_block = parent_block;
      },
      bs5,
    )
