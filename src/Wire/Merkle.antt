-- ===== src/Wire/Merkle.antt =====
-- `merkle_root` of packages/new-blk-parser/src/utils/mod.rs.
use wjk_20_indexer.Prelude.{
  ℕ, zero, suc, ◌%◌, ◌==◌, Option, none, some, List, [], ◌∷◌, ◌++◌, Bytes, length, ltb,
  if◌then◌else◌, Outcome, ok, panic, ◌>>=◌,
}

-- `hashes.chunks(2).filter(|c| c.len() == 2).map(..)`
unfoldable pub hash_pairs : (Bytes → Bytes) → List Bytes → List Bytes
hash_pairs hash [] = []
hash_pairs hash (a ∷ []) = []
hash_pairs hash (a ∷ b ∷ rest) = hash (a ++ b) ∷ hash_pairs hash rest

abbrev pub last : List Bytes → Option Bytes
last [] = none
last (a ∷ []) = some a
last (a ∷ b ∷ rest) = last (b ∷ rest)

-- The body of the loop of `merkle_root`; `last` is there, since the length is odd.
abbrev pub push_last : (Bytes → Bytes) → List Bytes → Option Bytes → Outcome (List Bytes)
push_last hash news none = panic
push_last hash news (some l) = ok (news ++ (hash (l ++ l) ∷ []))

unfoldable pub merkle_level : (Bytes → Bytes) → List Bytes → Outcome (List Bytes)
unfolding hash_pairs
merkle_level hash hashes =
    if length hashes % 2 == 1
    then push_last hash (hash_pairs hash hashes) (last hashes)
    else ok (hash_pairs hash hashes)

abbrev first_of : List Bytes → Outcome Bytes
first_of [] = panic
first_of (a ∷ rest) = ok a

-- `while hashes.len() > 1`; a level is shorter than the one before it, so `merkle_root`'s fuel is
-- never used up. Out of fuel no root is given.
unfoldable pub merkle_loop : (Bytes → Bytes) → ℕ → List Bytes → Outcome Bytes
merkle_loop hash zero hashes = panic
merkle_loop hash (suc fuel) hashes =
    let rest = merkle_level hash hashes >>= merkle_loop hash fuel in
    if ltb 1 (length hashes) then rest else first_of hashes

unfoldable pub merkle_root : (Bytes → Bytes) → List Bytes → Outcome Bytes
unfolding merkle_loop
merkle_root hash hashes = merkle_loop hash (suc (length hashes)) hashes
