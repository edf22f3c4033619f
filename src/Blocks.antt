-- ===== src/Blocks.antt =====
-- packages/new-blk-parser: the chain of checkpoints of src/blockchain/checkpoint.rs and the ranges of
-- heights of src/utils/range.rs.
pub mod Heights
pub mod Found
pub mod Order
pub mod Chains
mod Tests
use wjk_20_indexer.Prelude.{
  ℕ, ◌+◌, ◌≡◌, Option, none, some, List, [], ◌∷◌, Bytes, ltb, leb, ◌==◌, ite, if◌then◌else◌,
  Outcome, ok, panic,
}
use wjk_20_indexer.Tokens.Types.{Bytes-discrete}

pub record BlockId : Type 0 where
  pub height : ℕ
  pub hash : Bytes

-- The newest block, and those before it, from the newest on.
pub record CheckPoint : Type 0 where
  pub block : BlockId
  pub prev : List BlockId

-- `Result<Self, Self>`
pub data Attempt : Type 0 where
  done refused : CheckPoint → Attempt

-- `CheckPoint::new`
abbrev pub new : BlockId → CheckPoint
new block = record { block = block; prev = [] }

unfoldable pub push : BlockId → CheckPoint → Attempt
push b cp =
    if ltb cp.block.height b.height
    then done (record { block = b; prev = cp.block ∷ cp.prev })
    else refused cp

-- The loop of `extend`; what is refused is `self`.
unfoldable pub extend_from : CheckPoint → CheckPoint → List BlockId → Attempt
unfolding push
extend_from self curr [] = done curr
extend_from self curr (b ∷ bs) = elim (push b curr) [
  | done next ↦ extend_from self next bs
  | refused same ↦ refused self
]

unfoldable pub extend : CheckPoint → List BlockId → Attempt
unfolding extend_from
extend self bs = extend_from self self bs

-- `from_block_ids`: the last checkpoint is given back when a block is refused.
unfoldable pub push_all : CheckPoint → List BlockId → Attempt
unfolding push
push_all acc [] = done acc
push_all acc (b ∷ bs) = elim (push b acc) [
  | done next ↦ push_all next bs
  | refused same ↦ refused same
]

unfoldable pub from_block_ids : List BlockId → Option Attempt
unfolding push_all
from_block_ids [] = none
from_block_ids (b ∷ bs) = some (push_all (new b) bs)

-- Where the loop of `insert` breaks: the block is there already, or the base and the blocks to put
-- back on it, in the order of their heights.
pub data Break : Type 0 where
  present : Break
  base : CheckPoint → List BlockId → Break

abbrev pub replaced : BlockId → List BlockId → Outcome Break
replaced cur [] = panic
replaced cur (p ∷ ps) =
    if cur.height == 0 then panic else ok (base (record { block = p; prev = ps }) [])

-- The loop of `insert` at the checkpoint `cur` before `prev`. The source pushes to the end of `tail`
-- and reverses it at last; here its last block comes first.
unfoldable pub find_base : BlockId → BlockId → List BlockId → List BlockId → Outcome Break
find_base b cur [] tail =
    if cur.height == b.height
    then ite (Bytes-discrete cur.hash b.hash) (ok present) (replaced cur [])
    else if ltb cur.height b.height
    then ok (base (record { block = cur; prev = [] }) tail)
    else panic
find_base b cur (p ∷ ps) tail =
    let deeper = find_base b p ps (cur ∷ tail) in
    if cur.height == b.height
    then ite (Bytes-discrete cur.hash b.hash) (ok present) (replaced cur (p ∷ ps))
    else if ltb cur.height b.height
    then ok (base (record { block = cur; prev = p ∷ ps }) tail)
    else deeper

-- `.expect("tail is in order")`
abbrev pub expect_done : Attempt → Outcome CheckPoint
expect_done (done cp) = ok cp
expect_done (refused cp) = panic

abbrev pub put_back : CheckPoint → BlockId → Outcome Break → Outcome CheckPoint
unfolding extend
put_back self b panic = panic
put_back self b (ok present) = ok self
put_back self b (ok (base cp tail)) = expect_done (extend cp (b ∷ tail))

unfoldable pub insert : BlockId → CheckPoint → Outcome CheckPoint
unfolding find_base extend
insert b self = put_back self b (find_base b self.block self.prev [])

-- `BlockHeightRange::new`
abbrev pub BlockHeightRange : Type 0
BlockHeightRange = ℕ × Option ℕ

unfoldable pub new_range : ℕ → Option ℕ → Option BlockHeightRange
new_range start none = some (start, none)
new_range start (some end) = if leb end start then none else some (start, some end)
