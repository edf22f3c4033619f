-- ===== src/Blocks/Heights.antt =====
-- Chains of checkpoints of packages/new-blk-parser/src/blockchain/checkpoint.rs by their heights.
use wjk_20_indexer.Prelude.{
  ℕ, ◌<◌, ◌≡◌, Option, none, some, List, [], ◌∷◌, Bytes, ◌==◌, if◌then◌else◌,
}
use wjk_20_indexer.Blocks.{BlockId, CheckPoint}

-- The heights go down from a block on.
abbrev pub Descends : BlockId → List BlockId → Type 0
Descends b [] = Unit
Descends b (c ∷ cs) = (c.height < b.height) × Descends c cs

abbrev pub Ascends : BlockId → List BlockId → Type 0
Ascends b [] = Unit
Ascends b (c ∷ cs) = (b.height < c.height) × Ascends c cs

-- The oldest block is the genesis block, of height 0.
abbrev pub Rooted : BlockId → List BlockId → Type 0
Rooted b [] = b.height ≡ 0
Rooted b (c ∷ cs) = Rooted c cs

-- The hash at a height.
abbrev pub hash_at : ℕ → List BlockId → Option Bytes
hash_at h [] = none
hash_at h (c ∷ cs) = if c.height == h then some c.hash else hash_at h cs

abbrev pub blocks : CheckPoint → List BlockId
blocks cp = cp.block ∷ cp.prev

-- Blocks put on a chain one after the other.
abbrev pub pushed_all : BlockId → List BlockId → List BlockId → CheckPoint
pushed_all c ps [] = record { block = c; prev = ps }
pushed_all c ps (b ∷ bs) = pushed_all b (c ∷ ps) bs
