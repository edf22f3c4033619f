-- ===== src/Wire/Linked.antt =====
-- What packages/new-blk-parser/src/blockchain/parser/index.rs reads and selects: the records of the
-- node's index, and the chain of the blocks.
use wjk_20_indexer.Prelude.{
  ℕ, suc, ◌+◌, ◌^◌, ◌<◌, ◌≡◌, refl, sym, ◌∙◌, Bool, true, false, Option-cases, inl, inr, Option,
  none, some, List, [], ◌∷◌, ◌++◌, subst, Bytes, length, get_elem?, ==_iff, if_pos, if_neg,
  if◌then◌else◌, arith,
}
use wjk_20_indexer.Codec.{Decoded, value}
use wjk_20_indexer.Tokens.Types.{Bytes-discrete}
use wjk_20_indexer.Wire.Types.{BlockHeader, header_bytes}
use wjk_20_indexer.Wire.Takes.{>>=-then}
use wjk_20_indexer.Wire.RoundTrip.{IsHeader, read_block_header-Reads}
use wjk_20_indexer.Wire.Index.{
  BlockIndexRecord, have_data, have_undo, read_if, unwrap, read_positions, read_record, from,
  position, at_index, linked, walk,
}
use wjk_20_indexer.Wire.Varint.{varint_bytes, read_varint-Reads}

-- Each record of a list is the one that the record before it names.
abbrev pub Chained : Bytes → List BlockIndexRecord → Type 0
Chained prev_hash [] = Unit
Chained prev_hash (r ∷ rs) = (r.block_hash ≡ prev_hash) × Chained r.prev_hash rs

some_injective : (i j : ℕ) → some i ≡ some j → i ≡ j
some_injective i j h = cc

position-found :
    (prev_hash : Bytes) (rs : List BlockIndexRecord) (i : ℕ)
    → position prev_hash rs ≡ some i
    → (r : BlockIndexRecord) × (get_elem? rs i ≡ some r) × (r.block_hash ≡ prev_hash)
unfolding position
position-found prev_hash [] i h = cc
position-found prev_hash (r ∷ rs) i h = elim (Bytes-discrete r.block_hash prev_hash) [
  | yes same ↦
      let e : some 0 ≡ some i = rw (if_pos _ same) at h in
      let z : 0 ≡ i = cc in rw (← z) (r, refl, same)
  | no other ↦
      let h' = rw (if_neg _ other) at h in
      elim (Option-cases (position prev_hash rs)) [
        | inl missing ↦ cc (rw missing at h')
        | inr (j, found) ↦
            let e : some (j + 1) ≡ some i = rw found at h' in
            let z : i ≡ suc j = omega (arith, some_injective (j + 1) i e) in
            rw z (position-found prev_hash rs j found)
      ]
]

unwrap-some : (o : Option ℕ) (i : ℕ) → unwrap o ≡ value i → o ≡ some i
unwrap-some none i h = cc
unwrap-some (some j) i h = cc

at_index-some :
    (o : Option BlockIndexRecord) (r : BlockIndexRecord) → at_index o ≡ value r → o ≡ some r
at_index-some none r h = cc
at_index-some (some q) r h = cc

found-some :
    (o : Option BlockIndexRecord) (r q : BlockIndexRecord)
    → o ≡ some r
    → at_index o ≡ value q
    → r ≡ q
found-some none r q h k = cc
found-some (some t) r q h k = cc

linked-Chained :
    (prev_hash : Bytes) (prev : List BlockIndexRecord) (next : ℕ → Decoded (List BlockIndexRecord))
    (founds : List BlockIndexRecord)
    → ((pos : ℕ) (rest : List BlockIndexRecord)
        → next pos ≡ value rest
        → (r : BlockIndexRecord) × (get_elem? prev pos ≡ some r) × Chained r.prev_hash rest)
    → linked prev_hash prev next ≡ value founds
    → Chained prev_hash founds
unfolding position
linked-Chained prev_hash prev next founds below h =
    >>=-then (unwrap (position prev_hash prev)) _ h λ (pos : ℕ) e h1.
      >>=-then (at_index (get_elem? prev pos)) _ h1 λ (found : BlockIndexRecord) e2 h2.
        >>=-then (next pos) _ h2 λ (rest : List BlockIndexRecord) e3 h3.
          let ef : found ∷ rest ≡ founds = cc in
          let (r, er, same) =
            position-found prev_hash prev pos (unwrap-some (position prev_hash prev) pos e) in
          let (r', er', chained) = below pos rest e3 in
          let one : r ≡ r' = cc in
          let two : r ≡ found = found-some (get_elem? prev pos) r found er e2 in
          rw (← ef) (
            rw (← two) same,
            subst (λ (x : BlockIndexRecord). Chained x.prev_hash rest) (sym one ∙ two) chained,
          )

-- The blocks that are selected are a chain, each named by the one above it.
walk-some-Chained :
    (last : ℕ) (cur : List BlockIndexRecord) (rest : List (List BlockIndexRecord))
    (founds : List BlockIndexRecord)
    → walk (some last) (cur ∷ rest) ≡ value founds
    → (r : BlockIndexRecord) × (get_elem? cur last ≡ some r) × Chained r.prev_hash founds
unfolding walk
walk-some-Chained last cur [] founds h =
    >>=-then (at_index (get_elem? cur last)) _ h λ (r : BlockIndexRecord) e h1.
      let ef : [] ≡ founds = cc in (r, at_index-some (get_elem? cur last) r e, rw (← ef) tt)
walk-some-Chained last cur (prev ∷ rest) founds h =
    >>=-then (at_index (get_elem? cur last)) _ h λ (r : BlockIndexRecord) e h1. (
      r,
      at_index-some (get_elem? cur last) r e,
      linked-Chained r.prev_hash prev _ founds (λ pos rs k. walk-some-Chained pos prev rest rs k)
          h1,
    )

-- The records that `get_block_index` selects are a chain, from the highest down: each has the block
-- hash that the one above names as its previous.
pub walk-Chained :
    (groups : List (List BlockIndexRecord)) (founds : List BlockIndexRecord)
    → walk none groups ≡ value founds
    → (prev_hash : Bytes) × Chained prev_hash founds
unfolding walk
walk-Chained [] founds h = let ef : [] ≡ founds = cc in ([], rw (← ef) tt)
walk-Chained ([] ∷ rest) founds h = walk-Chained rest founds h
walk-Chained ((r ∷ s ∷ rs) ∷ rest) founds h = walk-Chained rest founds h
walk-Chained ((r ∷ []) ∷ []) founds h = let ef : [] ≡ founds = cc in ([], rw (← ef) tt)
walk-Chained ((r ∷ []) ∷ prev ∷ rest) founds h = (
  r.prev_hash,
  linked-Chained r.prev_hash prev _ founds (λ pos rs k. walk-some-Chained pos prev rest rs k) h,
)

abbrev pub undo_bytes : ℕ → ℕ → Bytes
undo_bytes status undo_offset = if have_undo status then varint_bytes undo_offset else []

read_if-Reads :
    (b : Bool) (n : ℕ)
    → n < 2 ^ 64
    → (rest : Bytes)
    → (o : Option ℕ) × (read_if b ((if b then varint_bytes n else []) ++ rest) ≡ value (o, rest))
read_if-Reads false n h rest = (none, refl)
read_if-Reads true n h rest = (some n, rw (read_varint-Reads n h rest) refl)

-- A record of a block with its data is read from what the node writes for it.
pub from-record :
    (key : Bytes) (version height status tx_count blk_index data_offset undo_offset : ℕ)
    (header : BlockHeader) (rest : Bytes)
    → length key ≡ 32
    → have_data status ≡ true
    → (version < 2 ^ 64)
      × (height < 2 ^ 64)
      × (status < 2 ^ 64)
      × (tx_count < 2 ^ 64)
      × (blk_index < 2 ^ 64)
      × (data_offset < 2 ^ 64)
      × (undo_offset < 2 ^ 64)
    → IsHeader header
    → from key (
        varint_bytes version
        ++ (varint_bytes height
            ++ (varint_bytes status
                ++ (varint_bytes tx_count
                    ++ (varint_bytes blk_index
                        ++ (varint_bytes data_offset
                            ++ (undo_bytes status undo_offset
                                ++ (header_bytes header ++ rest))))))))
      ≡ value (
          some (record {
            block_hash = key;
            blk_index = blk_index;
            data_offset = data_offset;
            height = height;
            status = status;
            prev_hash = header.prev_hash;
          }))
unfolding from read_record read_positions
from-record key version height status tx_count blk_index data_offset undo_offset header rest l d s
      h =
    let (o, e) = read_if-Reads (have_undo status) undo_offset s.6 (header_bytes header ++ rest) in
    simp (
      (==_iff (length key) 32).1 l,
      read_varint-Reads version s.0,
      read_varint-Reads height s.1,
      read_varint-Reads status s.2,
      read_varint-Reads tx_count s.3,
      read_varint-Reads blk_index s.4,
      read_varint-Reads data_offset s.5,
      d,
      e,
      read_block_header-Reads header h,
    )
