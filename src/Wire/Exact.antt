-- ===== src/Wire/Exact.antt =====
-- The bytes that a reader of packages/new-blk-parser/src/blockchain/parser/reader.rs has taken, from
-- the value that it gives.
use wjk_20_indexer.Prelude.{
  ℕ, zero, suc, ◌≡◌, refl, false, List, [], ◌∷◌, ◌++◌, append_assoc, Bytes, ◌==◌,
}
use wjk_20_indexer.Codec.{value}
use wjk_20_indexer.Wire.Types.{VarUint, to_le_bytes, output_bytes, header_bytes}
use wjk_20_indexer.Wire.Read.{
  Reader, Outside, read_le, read_from, read_256hash, read_u8_vec, read_many, read_block_header,
  read_tx_output,
}
use wjk_20_indexer.Wire.Takes.{
  Takes, read_le-Takes, Takes-then, Takes-done, read_from-Takes, read_256hash-Takes,
  read_u8_vec-Takes,
}

pub read_tx_output-Takes : Takes read_tx_output output_bytes
unfolding read_tx_output output_bytes
read_tx_output-Takes bs x rest b h =
    Takes-then (read_le 8) (to_le_bytes 8) (read_le-Takes 8) _ bs _ b h λ amount bs1 e1 b1 h1.
      Takes-then read_from (λ v. v.buf) read_from-Takes _ bs1 _ b1 h1
        λ len bs2 e2 b2 h2.
          Takes-then (read_u8_vec len.value) (λ x. x) (read_u8_vec-Takes len.value) _ bs2 _ b2 h2
            λ script bs3 e3 b3 h3.
              Takes-done output_bytes bs _ x bs3 rest h3 (rw (e1, e2, e3) (simp append_assoc)) b3

-- What `bytes` makes of each value, one after the other.
abbrev pub all_bytes : {A : Type 0} → (A → Bytes) → List A → Bytes
all_bytes bytes [] = []
all_bytes bytes (x ∷ xs) = bytes x ++ all_bytes bytes xs

pub read_many-Takes :
    {A : Type 0} (read : Reader A) (bytes : A → Bytes)
    → Takes read bytes
    → (count : ℕ) → Takes (read_many read count) (all_bytes bytes)
unfolding read_many
read_many-Takes read bytes takes zero bs xs rest b h =
    Takes-done (all_bytes bytes) bs [] xs bs rest h refl b
read_many-Takes read bytes takes (suc count) bs xs rest b h =
    Takes-then read bytes takes _ bs _ b h λ x bs1 e1 b1 h1.
      Takes-then (read_many read count) (all_bytes bytes) (read_many-Takes read bytes takes count) _
        bs1 _ b1 h1
        λ ys bs2 e2 b2 h2.
          Takes-done (all_bytes bytes) bs (x ∷ ys) xs bs2 rest h2 (rw (e1, e2) (simp append_assoc))
            b2

pub read_block_header-Takes : Takes read_block_header header_bytes
unfolding read_block_header header_bytes
read_block_header-Takes bs x rest b h =
    Takes-then (read_le 4) (to_le_bytes 4) (read_le-Takes 4) _ bs _ b h λ version bs1 e1 b1 h1.
      Takes-then read_256hash (λ x. x) read_256hash-Takes _ bs1 _ b1 h1
        λ prev bs2 e2 b2 h2.
          Takes-then read_256hash (λ x. x) read_256hash-Takes _ bs2 _ b2 h2
            λ root bs3 e3 b3 h3.
              Takes-then (read_le 4) (to_le_bytes 4) (read_le-Takes 4) _ bs3 _ b3 h3
                λ time bs4 e4 b4 h4.
                  Takes-then (read_le 4) (to_le_bytes 4) (read_le-Takes 4) _ bs4 _ b4 h4
                    λ bits bs5 e5 b5 h5.
                      Takes-then (read_le 4) (to_le_bytes 4) (read_le-Takes 4) _ bs5 _ b5 h5
                        λ nonce bs6 e6 b6 h6.
                          Takes-done header_bytes bs _ x bs6 rest h6
                            (rw (e1, e2, e3, e4, e5, e6) (simp append_assoc)) b6

module _ (o : Outside) where
  open o use {Witness, has_room_inputs, has_room_outputs}

  -- No marker of witnesses: the number that is read is not zero.
  abbrev pub Unmarked : Bytes → Type 0
  Unmarked bs =
      (c : VarUint) (rest : Bytes) → read_from bs ≡ value (c, rest) → (c.value == 0) ≡ false
