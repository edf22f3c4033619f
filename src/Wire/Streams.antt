-- ===== src/Wire/Streams.antt =====
-- What `XorReader` of packages/new-blk-parser/src/blockchain/parser/reader.rs gives, in pieces and
-- as a whole, and a block that is read from a file with a key.
use wjk_20_indexer.Prelude.{
  ℕ, ◌+◌, ◌-◌, ◌%◌, ◌^◌, ◌<◌, ◌≡◌, refl, sym, ap, ◌∙◌, subst, false, Option, none, some, List, [],
  ◌∷◌, ◌++◌, append_assoc, Bytes, All, length, take, drop, take-drop, drop-append, arith,
}
use wjk_20_indexer.Codec.{value}
use wjk_20_indexer.Wire.Types.{VarUint, RawTx, BlockHeader, to_le_bytes, header_bytes}
use wjk_20_indexer.Wire.Read.{Outside}
use wjk_20_indexer.Wire.RoundTrip.{IsHeader, IsVarUint, IsTx, read_le-Reads}
use wjk_20_indexer.Wire.Takes.{IsBytes, >>=-then}
use wjk_20_indexer.Wire.Block.{Hashing, new, has_aux_pow}
use wjk_20_indexer.Wire.Whole.{txs_bytes, read_block-Reads}
use wjk_20_indexer.Wire.Files.{xor_bytes, xor_with, XorReader, read, stream, reads, read_block_at}
use wjk_20_indexer.Wire.Keyed.{xor_bytes-twice, xor_with-append, drop-add, drop-length-take}

read-stream :
    (n : ℕ) (r r' : XorReader) (out rest : Bytes)
    → read n r ≡ value (out, r')
    → stream r' ≡ value rest
    → stream r ≡ value (out ++ rest)
unfolding read stream
read-stream n r r' out rest h k =
    >>=-then (xor_with r.xor_key r.absolute_pos (take n (drop r.position r.contents))) _ h
      λ (got : Bytes) e h1.
        let left = drop r.position r.contents in
        let here = length (take n left) in
        let r1 = record r { position = r.position + here; absolute_pos = r.absolute_pos + here } in
        let eo : got ≡ out = cc in
        let er : r1 ≡ r' = cc in
        let d : drop (r.position + here) r.contents ≡ drop n left =
          drop-add r.position here r.contents ∙ drop-length-take n left in
        let after : xor_with r.xor_key (r.absolute_pos + here) (drop n left) ≡ value rest =
          rw (← d) (subst (λ x. stream x ≡ value rest) (sym er) k) in
        let whole =
          xor_with-append r.xor_key r.absolute_pos (take n left) (drop n left) got e rest after in
        rw (← eo) (
          subst (λ (x : Bytes). xor_with r.xor_key r.absolute_pos x ≡ value (got ++ rest))
            (take-drop n left) whole)

read-position :
    (n : ℕ) (r r' : XorReader) (out : Bytes)
    → read n r ≡ value (out, r')
    → r.position ≡ r.absolute_pos
    → r'.position ≡ r'.absolute_pos
unfolding read
read-position n r r' out h same =
    >>=-then (xor_with r.xor_key r.absolute_pos (take n (drop r.position r.contents))) _ h
      λ (got : Bytes) e h1.
        let here = length (take n (drop r.position r.contents)) in
        let r1 = record r { position = r.position + here; absolute_pos = r.absolute_pos + here } in
        let er : r1 ≡ r' = cc in
        subst (λ (x : XorReader). x.position ≡ x.absolute_pos) er (ap (λ (p : ℕ). p + here) same)

-- What is read in pieces of any sizes, and then what is left, is the stream; and the two positions
-- stay the same.
pub reads-stream :
    (ns : List ℕ) (r r' : XorReader) (out rest : Bytes)
    → r.position ≡ r.absolute_pos
    → reads ns r ≡ value (out, r')
    → stream r' ≡ value rest
    → (stream r ≡ value (out ++ rest)) × (r'.position ≡ r'.absolute_pos)
unfolding reads
reads-stream [] r r' out rest same h k =
    let eo : [] ≡ out = cc in
    let er : r ≡ r' = cc in
    (
      rw (← eo) (subst (λ (x : XorReader). stream x ≡ value rest) (sym er) k),
      subst (λ (x : XorReader). x.position ≡ x.absolute_pos) er same,
    )
reads-stream (n ∷ ns) r r' out rest same h k =
    >>=-then (read n r) _ h λ (m : Bytes × XorReader) e h1.
      >>=-then (reads ns m.1) _ h1 λ (q : Bytes × XorReader) e2 h2.
        let eo : m.0 ++ q.0 ≡ out = cc in
        let er : q.1 ≡ r' = cc in
        let (below, same') =
          reads-stream ns m.1 q.1 q.0 rest (read-position n r m.1 m.0 e same) e2
            (subst (λ (x : XorReader). stream x ≡ value rest) (sym er) k) in
        let whole = read-stream n r m.1 m.0 (q.0 ++ rest) e below in
        (
          rw (← eo, append_assoc) whole,
          subst (λ (x : XorReader). x.position ≡ x.absolute_pos) er same',
        )

-- The key of a file is bytes.
abbrev pub IsKey : Option Bytes → Type 0
IsKey none = Unit
IsKey (some key) = IsBytes key

xor_with-twice :
    (key : Option Bytes) (pos : ℕ) (bs stored : Bytes)
    → IsKey key
    → IsBytes bs
    → xor_with key pos bs ≡ value stored
    → xor_with key pos stored ≡ value bs
unfolding xor_with
xor_with-twice none pos bs stored hk h e = cc
xor_with-twice (some []) pos [] stored hk h e = let q : [] ≡ stored = cc in rw (← q) refl
xor_with-twice (some []) pos (b ∷ bs) stored hk h e = cc
xor_with-twice (some (k ∷ ks)) pos bs stored hk h e =
    let q : xor_bytes (k ∷ ks) pos bs ≡ stored = cc in
    rw (← q) (ap value (xor_bytes-twice (k ∷ ks) pos bs hk h))

module _ (o : Outside) (s : Hashing) where
  open o use {Witness}

  -- A block in a file of blocks: where the file has, behind its first bytes, the size and the bytes of
  -- a block and whatever follows, under a key of bytes that is not empty, or plain if there is none,
  -- `read_block` at the offset of the block's bytes gives that block. The size is below 2^32, the
  -- version has no AuxPoW extension, the header fits its widths, the transactions have no witnesses, at
  -- least one input each and fields that fit their widths, the count is theirs, the contents are bytes,
  -- and the offset fits 64 bits.
  pub read_block_at-Reads :
      (size : ℕ) (header : BlockHeader) (tx_count : VarUint) (txs : List (RawTx Witness))
      (before after stored : Bytes) (xor_key : Option Bytes)
      → size < 2 ^ 32
      → IsHeader header
      → has_aux_pow header ≡ false
      → IsVarUint tx_count
      → length txs ≡ tx_count.value
      → All (IsTx o) txs
      → IsKey xor_key
      → IsBytes (
          to_le_bytes 4 size ++ ((header_bytes header ++ (tx_count.buf ++ txs_bytes txs)) ++ after))
      → xor_with xor_key (length before) (
          to_le_bytes 4 size ++ ((header_bytes header ++ (tx_count.buf ++ txs_bytes txs)) ++ after))
        ≡ value stored
      → length before + 4 < 2 ^ 64
      → read_block_at o s (before ++ stored) xor_key (length before + 4)
        ≡ value (new s size header none tx_count txs)
  unfolding read_block_at stream
  read_block_at-Reads size header tx_count txs before after stored xor_key hs h plain c n v hk hb e
        small =
      let body = header_bytes header ++ (tx_count.buf ++ txs_bytes txs) in
      let at : (length before + 4 + 2 ^ 64 - 4) % 2 ^ 64 ≡ length before = omega (arith, small) in
      let (block, r, same, of_header, of_txs) =
        read_block-Reads o s size header tx_count txs after h plain c n v in
      rw
        (
          at,
          drop-append before stored refl,
          xor_with-twice xor_key (length before) (to_le_bytes 4 size ++ (body ++ after)) stored hk
              hb e,
          read_le-Reads 4 size (omega (arith, hs)) (body ++ after),
          r,
        )
        (ap value same)
