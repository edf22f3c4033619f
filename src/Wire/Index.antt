-- ===== src/Wire/Index.antt =====
-- The block index of the node: packages/new-blk-parser/src/blockchain/parser/index.rs. Entries of
-- the index are pairs of a key and a value; opening LevelDB and stepping through it is outside.
use wjk_20_indexer.Prelude.{
  ℕ, ◌+◌, ◌-◌, ◌*◌, ◌/◌, ◌%◌, ◌^◌, Bool, true, false, not, ◌&&◌, ◌||◌, Option, none, some, List, [],
  ◌∷◌, Bytes, length, get_elem?, ltb, leb, ◌==◌, ite, if◌then◌else◌,
}
use wjk_20_indexer.Codec.{Decoded, panic, error, value, ◌>>=◌}
use wjk_20_indexer.Tokens.Types.{Bytes-discrete}
use wjk_20_indexer.Wire.Read.{Reader, read_block_header}

-- The loop of `read_varint`. `u64::MAX >> 7` is 2 ^ 57 - 1.
unfoldable pub varint_loop : ℕ → Reader ℕ
varint_loop n [] = error
varint_loop n (ch_data ∷ bs) =
    let n' = n * 128 + ch_data % 128 in
    let more = varint_loop (n' + 1) bs in
    if ltb (2 ^ 57 - 1) n
    then panic
    else if leb 128 ch_data
    then if n' == 2 ^ 64 - 1 then panic else more
    else value (n', bs)

unfoldable pub read_varint : Reader ℕ
unfolding varint_loop
read_varint bs = varint_loop 0 bs

pub record BlockIndexRecord : Type 0 where
  pub block_hash : Bytes
  pub blk_index : ℕ
  pub data_offset : ℕ
  pub height : ℕ
  pub status : ℕ
  pub prev_hash : Bytes

-- `status & BLOCK_HAVE_DATA > 0` and `status & BLOCK_HAVE_UNDO > 0`
abbrev pub have_data : ℕ → Bool
have_data status = status / 8 % 2 == 1

abbrev pub have_undo : ℕ → Bool
have_undo status = status / 16 % 2 == 1

abbrev pub read_if : Bool → Reader (Option ℕ)
read_if false bs = value (none, bs)
read_if true bs = do (n, rest) ← read_varint bs; value (some n, rest)

abbrev pub unwrap : Option ℕ → Decoded ℕ
unwrap none = panic
unwrap (some n) = value n

-- The part of `BlockIndexRecord::from` behind the test that there is a file.
unfoldable pub read_positions : Bytes → ℕ → ℕ → Bytes → Decoded (Option BlockIndexRecord)
unfolding read_varint read_block_header
read_positions block_hash height status bs = do
  (blk_index, bs1) ← read_varint bs
  (data_offset, bs2) ← read_if (have_data status) bs1
  (undo_offset, bs3) ← read_if (have_undo status) bs2
  (block_header, bs4) ← read_block_header bs3
  offset ← unwrap data_offset
  value (
      some (record {
        block_hash = block_hash;
        blk_index = blk_index;
        data_offset = offset;
        height = height;
        status = status;
        prev_hash = block_header.prev_hash;
      }))

-- The integers before the positions
unfoldable pub read_record : Bytes → Bytes → Decoded (Option BlockIndexRecord)
unfolding read_varint read_positions
read_record block_hash values = do
  (version, bs1) ← read_varint values
  (height, bs2) ← read_varint bs1
  (status, bs3) ← read_varint bs2
  (tx_count, bs4) ← read_varint bs3
  if have_data status || have_undo status
      then read_positions block_hash height status bs4
      else value none

-- `BlockIndexRecord::from`
unfoldable pub from : Bytes → Bytes → Decoded (Option BlockIndexRecord)
unfolding read_record
from key values = if length key == 32 then read_record key values else panic

-- The tests of `get_block_index` on a record: its height, and the masks of its status.
unfoldable pub is_kept : ℕ → Option ℕ → BlockIndexRecord → Bool
is_kept start end r =
    not (ltb r.height (start - 1))
    && (not (ltb (elim end [ none ↦ 2 ^ 64 - 1 | some e ↦ e ]) r.height)
        && (not (r.status % 8 == 0) && (r.status / 32 % 4 == 0)))

-- `position(|x| x.block_hash == prev_hash)`
unfoldable pub position : Bytes → List BlockIndexRecord → Option ℕ
position prev_hash [] = none
position prev_hash (r ∷ rs) =
    ite (Bytes-discrete r.block_hash prev_hash) (some 0)
      (elim (position prev_hash rs) [ none ↦ none | some i ↦ some (i + 1) ])

-- An index that panics out of range
abbrev pub at_index : Option BlockIndexRecord → Decoded BlockIndexRecord
at_index none = panic
at_index (some r) = value r

-- The record before one with this `prev_hash` among those of the height below, which must be there.
abbrev pub linked :
    Bytes
    → List BlockIndexRecord
    → (ℕ → Decoded (List BlockIndexRecord))
    → Decoded (List BlockIndexRecord)
unfolding position
linked prev_hash prev next = do
  pos ← unwrap (position prev_hash prev)
  found ← at_index (get_elem? prev pos)
  founds ← next pos
  value (found ∷ founds)

-- The `batching` of `get_block_index` over the records by height, the highest first. Heights with
-- more records than one are passed over until one has a single record; the first is not taken.
unfoldable pub walk : Option ℕ → List (List BlockIndexRecord) → Decoded (List BlockIndexRecord)
unfolding position
walk last_pos [] = value []
walk none ([] ∷ rest) = walk none rest
walk none ((r ∷ s ∷ rs) ∷ rest) = walk none rest
walk none ((r ∷ []) ∷ []) = value []
walk none ((r ∷ []) ∷ prev ∷ rest) = linked r.prev_hash prev (λ pos. walk (some pos) (prev ∷ rest))
walk (some last) (cur ∷ []) = do r ← at_index (get_elem? cur last); value []
walk (some last) (cur ∷ prev ∷ rest) = do
  r ← at_index (get_elem? cur last)
  linked r.prev_hash prev (λ pos. walk (some pos) (prev ∷ rest))
