-- ===== src/Wire/Tests.antt =====
-- A small block, its file and its record in the index.
use wjk_20_indexer.Prelude.{
  ℕ, ◌≡◌, refl, true, none, some, List, [], ◌∷◌, ◌++◌, Bytes, length, replicate, map, ok, panic,
  arith, ℕ_discrete,
}
use wjk_20_indexer.Codec.{value}
use wjk_20_indexer.Tokens.Types.{Bytes-discrete}
use wjk_20_indexer.Wire.Types.{
  from_u8, TxInput, TxOutput, RawTx, BlockHeader, Hashed, to_le_bytes, header_bytes, tx_bytes,
  inputs_bytes, input_bytes, outputs_bytes, output_bytes,
}
use wjk_20_indexer.Wire.Read.{Outside, read_tx}
use wjk_20_indexer.Wire.RoundTrip.{one, IsTx, IsHeader, read_tx-Reads}
use wjk_20_indexer.Wire.Block.{
  Hashing, EvaluatedTx, Block, new, read_block, verify_merkle_root, from_raw,
}
use wjk_20_indexer.Wire.Merkle.{merkle_root}
use wjk_20_indexer.Wire.Levels.{IsRoot}
use wjk_20_indexer.Wire.Roots.{merkle_root-IsRoot, verify_merkle_root-twice}
use wjk_20_indexer.Wire.Whole.{txs_bytes, read_block-Reads}
use wjk_20_indexer.Wire.Files.{XorReader, open_file, reads, stream, xor_with, read_block_at}
use wjk_20_indexer.Wire.Streams.{reads-stream, read_block_at-Reads}
use wjk_20_indexer.Wire.Index.{BlockIndexRecord, from, walk}
use wjk_20_indexer.Wire.Varint.{varint_bytes}
use wjk_20_indexer.Wire.Linked.{Chained, undo_bytes, from-record, walk-Chained}

abbrev outside : Outside
outside = record {
  Witness = List Bytes;
  no_witness = [];
  consensus_decode = λ bs. value ([], bs);
  has_room_inputs = λ n. true;
  has_room_outputs = λ n. true;
}

-- The first byte stands for a hash.
abbrev hashing : Hashing
hashing = record { hash = λ bs. length bs ∷ []; Script = Bytes; eval_from_bytes = λ bs. bs }

abbrev pay : TxOutput
pay = record { value = 5000; script_len = from_u8 2; script_pubkey = 118 ∷ 169 ∷ [] }

abbrev spend : TxInput (List Bytes)
spend = record {
  outpoint = record { txid = replicate 32 7; vout = 1 };
  script_len = from_u8 1;
  script_sig = 81 ∷ [];
  seq_no = 4294967295;
  witness = [];
}

abbrev small_tx : RawTx (List Bytes)
small_tx = record {
  version = 2;
  in_count = from_u8 1;
  inputs = spend ∷ [];
  out_count = from_u8 1;
  outputs = pay ∷ [];
  locktime = 0;
}

small_tx-IsTx : IsTx outside small_tx
small_tx-IsTx = record {
  version_fits = omega arith;
  in_counted = one 1 (omega arith);
  inputs_counted = refl;
  some_input = refl;
  inputs = (
    record {
      txid_fits = refl;
      vout_fits = omega arith;
      counted = one 1 (omega arith);
      script_fits = refl;
      script_small = omega arith;
      seq_no_fits = omega arith;
      bare = refl;
    },
    tt,
  );
  out_counted = one 1 (omega arith);
  outputs_counted = refl;
  outputs = (
    record {
      value_fits = omega arith;
      counted = one 2 (omega arith);
      script_fits = refl;
      script_small = omega arith;
    },
    tt,
  );
  locktime_fits = omega arith;
  room = (refl, refl);
}

read_tx-Reads_example : read_tx outside (tx_bytes small_tx ++ (9 ∷ [])) ≡ value (small_tx, 9 ∷ [])
read_tx-Reads_example = read_tx-Reads outside small_tx (9 ∷ []) small_tx-IsTx

-- The bytes of that transaction, and one more.
abbrev small_bytes : Bytes
small_bytes =
    2
    ∷ 0
    ∷ 0
    ∷ 0
    ∷ 1
    ∷ (replicate 32 7
        ++ (1 ∷ 0 ∷ 0 ∷ 0 ∷ 1 ∷ 81 ∷ 255 ∷ 255 ∷ 255 ∷ 255 ∷ 1 ∷ 136 ∷ 19 ∷ 0 ∷ 0 ∷ 0 ∷ 0 ∷ 0 ∷ 0
            ∷ 2 ∷ 118 ∷ 169 ∷ 0 ∷ 0 ∷ 0 ∷ 0 ∷ 9 ∷ []))

abbrev header : BlockHeader
header = record {
  version = 1;
  prev_hash = replicate 32 3;
  merkle_root = replicate 32 4;
  timestamp = 1700000000;
  bits = 7;
  nonce = 8;
}

header-IsHeader : IsHeader header
header-IsHeader = record {
  version_fits = omega arith;
  prev_hash_fits = refl;
  merkle_root_fits = refl;
  timestamp_fits = omega arith;
  bits_fits = omega arith;
  nonce_fits = omega arith;
}

abbrev small_block : Block (List Bytes) Bytes
small_block = new hashing 200 header none (from_u8 1) (small_tx ∷ [])

read_block-Reads_example :
    (block : Block (List Bytes) Bytes) × (read_block outside hashing 200
        ((header_bytes header ++ ((from_u8 1).buf ++ txs_bytes (small_tx ∷ []))) ++ (5 ∷ []))
      ≡ value (block, 5 ∷ []))
    × (block ≡ small_block)
    × (block.header.hash ≡ hashing.hash (header_bytes header))
    × (map (λ t. t.hash) block.txs ≡ map (λ tx. hashing.hash (tx_bytes tx)) (small_tx ∷ []))
read_block-Reads_example =
    read_block-Reads outside hashing 200 header (from_u8 1) (small_tx ∷ []) (5 ∷ []) header-IsHeader
      refl (one 1 (omega arith)) refl (small_tx-IsTx, tt)

merkle_root-IsRoot_example :
    (merkle_root hashing.hash [] ≡ panic)
    × ((root : Bytes) × (merkle_root hashing.hash ((1 ∷ []) ∷ (2 ∷ []) ∷ (3 ∷ []) ∷ []) ≡ ok root)
        × IsRoot hashing.hash ((1 ∷ []) ∷ (2 ∷ []) ∷ (3 ∷ []) ∷ []) root)
merkle_root-IsRoot_example = merkle_root-IsRoot hashing.hash (1 ∷ []) ((2 ∷ []) ∷ (3 ∷ []) ∷ [])

abbrev hashed : ℕ → Hashed (EvaluatedTx (List Bytes) Bytes)
hashed n = record { hash = n ∷ []; value = from_raw hashing small_tx }

abbrev with_txs : List (Hashed (EvaluatedTx (List Bytes) Bytes)) → Block (List Bytes) Bytes
with_txs txs = record small_block { txs = txs }

verify_merkle_root-twice_example :
    verify_merkle_root hashing (with_txs (hashed 1 ∷ hashed 2 ∷ hashed 3 ∷ hashed 3 ∷ []))
    ≡ verify_merkle_root hashing (with_txs (hashed 1 ∷ hashed 2 ∷ hashed 3 ∷ []))
verify_merkle_root-twice_example =
    verify_merkle_root-twice hashing (with_txs (hashed 1 ∷ hashed 2 ∷ hashed 3 ∷ []))
      (with_txs (hashed 1 ∷ hashed 2 ∷ hashed 3 ∷ hashed 3 ∷ [])) (hashed 1) (hashed 2) []
      (hashed 3) refl refl refl refl

-- A file with a key of two bytes, read in pieces of one and of two bytes.
abbrev keyed : XorReader
keyed = open_file (1 ∷ 2 ∷ 3 ∷ 4 ∷ []) (some (5 ∷ 6 ∷ []))

reads-stream_example : (stream keyed ≡ value ((4 ∷ 4 ∷ 6 ∷ []) ++ (2 ∷ []))) × (◌≡◌ {A = ℕ} 3 3)
unfolding reads stream
reads-stream_example =
    reads-stream (1 ∷ 2 ∷ []) keyed (record keyed { position = 3; absolute_pos = 3 })
      (4 ∷ 4 ∷ 6 ∷ []) (2 ∷ []) refl refl refl

read_block_at-Reads_example :
    read_block_at outside hashing
      ((0 ∷ 0 ∷ [])
        ++ (to_le_bytes 4 200
            ++ ((header_bytes header ++ ((from_u8 1).buf ++ txs_bytes (small_tx ∷ []))) ++ [])))
      none
      6
    ≡ value small_block
unfolding xor_with to_le_bytes header_bytes tx_bytes inputs_bytes input_bytes outputs_bytes
    output_bytes txs_bytes
read_block_at-Reads_example =
    read_block_at-Reads outside hashing 200 header (from_u8 1) (small_tx ∷ []) (0 ∷ 0 ∷ []) []
      (to_le_bytes 4 200
        ++ ((header_bytes header ++ ((from_u8 1).buf ++ txs_bytes (small_tx ∷ []))) ++ []))
      none (omega arith) header-IsHeader refl (one 1 (omega arith)) refl (small_tx-IsTx, tt) tt
      (omega arith) refl (omega arith)

from-record_example :
    from (replicate 32 9) (
      varint_bytes 1
      ++ (varint_bytes 500
          ++ (varint_bytes 29
              ++ (varint_bytes 1
                  ++ (varint_bytes 2
                      ++ (varint_bytes 8 ++ (undo_bytes 29 4 ++ (header_bytes header ++ []))))))))
    ≡ value (
        some (record {
          block_hash = replicate 32 9;
          blk_index = 2;
          data_offset = 8;
          height = 500;
          status = 29;
          prev_hash = replicate 32 3;
        }))
from-record_example =
    from-record (replicate 32 9) 1 500 29 1 2 8 4 header [] refl refl (omega arith) header-IsHeader

abbrev at_height : ℕ → ℕ → ℕ → BlockIndexRecord
at_height h n prev = record {
  block_hash = n ∷ [];
  blk_index = 0;
  data_offset = 8;
  height = h;
  status = 29;
  prev_hash = prev ∷ [];
}

walk-Chained_example :
    (prev_hash : Bytes) × Chained prev_hash (at_height 2 22 11 ∷ at_height 1 11 0 ∷ [])
unfolding walk Bytes-discrete ℕ_discrete
walk-Chained_example =
    walk-Chained
      ((at_height 4 44 33 ∷ at_height 4 45 33 ∷ [])
        ∷ (at_height 3 33 22 ∷ [])
        ∷ (at_height 2 23 11 ∷ at_height 2 22 11 ∷ [])
        ∷ (at_height 1 11 0 ∷ [])
        ∷ [])
      (at_height 2 22 11 ∷ at_height 1 11 0 ∷ []) refl
