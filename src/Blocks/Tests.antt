-- ===== src/Blocks/Tests.antt =====
-- Checkpoints of packages/new-blk-parser/src/blockchain/checkpoint.rs at concrete chains.
use wjk_20_indexer.Prelude.{◌≡◌, refl, none, some, [], ◌∷◌, ok, arith}
use wjk_20_indexer.Blocks.{BlockId, CheckPoint, Attempt, insert, from_block_ids}
use wjk_20_indexer.Blocks.Order.{IsInserted, insert-IsInserted}
use wjk_20_indexer.Blocks.Chains.{IsChain, from_block_ids-IsChain}

abbrev genesis : BlockId
genesis = record { height = 0; hash = 9 ∷ [] }

abbrev fifth : BlockId
fifth = record { height = 5; hash = 1 ∷ [] }

abbrev other_fifth : BlockId
other_fifth = record { height = 5; hash = 2 ∷ [] }

abbrev eighth : BlockId
eighth = record { height = 8; hash = 3 ∷ [] }

abbrev chain : CheckPoint
chain = record { block = eighth; prev = fifth ∷ genesis ∷ [] }

insert-IsInserted_example :
    (cp : CheckPoint) × (insert other_fifth chain ≡ ok cp) × IsInserted other_fifth chain cp
insert-IsInserted_example =
    insert-IsInserted other_fifth chain (omega arith, (omega arith, tt)) refl (omega arith)

from_block_ids-IsChain_example :
    (from_block_ids [] ≡ none)
    × ((r : Attempt) × (from_block_ids (genesis ∷ fifth ∷ eighth ∷ other_fifth ∷ []) ≡ some r)
        × IsChain (genesis ∷ fifth ∷ eighth ∷ other_fifth ∷ []) r)
from_block_ids-IsChain_example = from_block_ids-IsChain genesis (fifth ∷ eighth ∷ other_fifth ∷ [])
