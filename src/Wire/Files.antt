-- ===== src/Wire/Files.antt =====
-- `XorReader` of packages/new-blk-parser/src/blockchain/parser/reader.rs over the contents of a
-- file, and `BlkFile::read_block` of src/blockchain/parser/blk_file.rs.
use wjk_20_indexer.Prelude.{
  ℕ, ◌+◌, ◌-◌, ◌%◌, ◌^◌, Option, none, some, List, [], ◌∷◌, ◌++◌, Bytes, length, take, drop,
  get_elem?,
}
use Prim.Native.Nat.{bit_xor}
use wjk_20_indexer.Codec.{Decoded, panic, value, ◌>>=◌}
use wjk_20_indexer.Wire.Read.{Outside, read_le}
use wjk_20_indexer.Wire.Block.{Hashing, Block, read_block}

-- `xor_key[(i + absolute_pos) % xor_key.len()]`
abbrev pub key_at : Bytes → ℕ → ℕ
key_at key pos = elim (get_elem? key (pos % length key)) [ none ↦ 0 | some k ↦ k ]

-- The loop over the bytes that have been read, with a key that is not empty
unfoldable pub xor_bytes : Bytes → ℕ → Bytes → Bytes
xor_bytes key pos [] = []
xor_bytes key pos (b ∷ bs) = bit_xor b (key_at key pos) ∷ xor_bytes key (pos + 1) bs

-- An empty key panics, on the remainder by its length.
unfoldable pub xor_with : Option Bytes → ℕ → Bytes → Decoded Bytes
unfolding xor_bytes
xor_with none pos bs = value bs
xor_with (some []) pos [] = value []
xor_with (some []) pos (b ∷ bs) = panic
xor_with (some (k ∷ ks)) pos bs = value (xor_bytes (k ∷ ks) pos bs)

-- `XorReader`, with the contents of the file and the position in it of the reader below.
pub record XorReader : Type 0 where
  pub contents : Bytes
  pub position : ℕ
  pub xor_key : Option Bytes
  pub absolute_pos : ℕ

-- `XorReader::new` over a file that has just been opened
abbrev pub open_file : Bytes → Option Bytes → XorReader
open_file contents xor_key = record {
  contents = contents;
  position = 0;
  xor_key = xor_key;
  absolute_pos = 0;
}

-- `read`, where the reader below gives `n` bytes if there are so many.
unfoldable pub read : ℕ → XorReader → Decoded (Bytes × XorReader)
unfolding xor_with
read n r = do
  let got = take n (drop r.position r.contents)
  out ← xor_with r.xor_key r.absolute_pos got
  value (
    out,
    record r { position = r.position + length got; absolute_pos = r.absolute_pos + length got },
  )

-- `seek` to `SeekFrom::Start`
abbrev pub seek : ℕ → XorReader → XorReader
seek pos r = record r { position = pos; absolute_pos = pos }

-- Everything from where the reader stands.
unfoldable pub stream : XorReader → Decoded Bytes
unfolding xor_with
stream r = xor_with r.xor_key r.absolute_pos (drop r.position r.contents)

-- Reads one after the other, of the numbers of bytes that the reader below gives.
unfoldable pub reads : List ℕ → XorReader → Decoded (Bytes × XorReader)
unfolding read
reads [] r = value ([], r)
reads (n ∷ ns) r = do (out, r') ← read n r; (outs, r'') ← reads ns r'; value (out ++ outs, r'')

module _ (o : Outside) (s : Hashing) where
  open o use {Witness}
  open s use {Script}

  -- `BlkFile::read_block` on a file with these contents; `offset - 4` wraps.
  unfoldable pub read_block_at : Bytes → Option Bytes → ℕ → Decoded (Block Witness Script)
  unfolding stream read_le read_block
  read_block_at contents xor_key offset = do
    bs ← stream (seek ((offset + 2 ^ 64 - 4) % 2 ^ 64) (open_file contents xor_key))
    (block_size, bs1) ← read_le 4 bs
    (block, bs2) ← read_block o s block_size bs1
    value block
