-- ===== src/Blocks/Chains.antt =====
-- The chain that `from_block_ids` of packages/new-blk-parser/src/blockchain/checkpoint.rs makes.
use mathlib.Core.List.{reverse, reverse-append}
use wjk_20_indexer.Prelude.{
  ◌≤◌, ◌≡◌, refl, sym, ap, ◌∙◌, subst, none, some, List, [], ◌∷◌, ◌++◌, append-nil, append_assoc,
  lt→ltb, le→ltb, arith, dec_lt,
}
use wjk_20_indexer.Blocks.{
  BlockId, CheckPoint, Attempt, done, refused, push, push_all, from_block_ids,
}
use wjk_20_indexer.Blocks.Heights.{Descends, blocks}

-- The chain has the given blocks, from the newest on, and its heights go down; or it has those before
-- the first block that is not above the one before it.
abbrev pub IsChain : List BlockId → Attempt → Type 0
IsChain bs (done cp) = (blocks cp ≡ reverse bs) × Descends cp.block cp.prev
IsChain bs (refused cp) =
    (taken : List BlockId) × (y : BlockId) × (left : List BlockId) × (bs ≡ taken ++ (y ∷ left))
    × (blocks cp ≡ reverse taken)
    × Descends cp.block cp.prev
    × (y.height ≤ cp.block.height)

push_all-IsChain :
    (taken bs : List BlockId) (acc : CheckPoint)
    → blocks acc ≡ reverse taken
    → Descends acc.block acc.prev
    → IsChain (taken ++ bs) (push_all acc bs)
unfolding push_all push
push_all-IsChain taken [] acc e d = (e ∙ ap reverse (sym (append-nil taken)), d)
push_all-IsChain taken (b ∷ bs) acc e d = elim (dec_lt acc.block.height b.height) [
  | yes l ↦
      rw (push_all, lt→ltb acc.block.height b.height l)
        (subst
          (λ (xs : List BlockId).
            IsChain xs (push_all (record { block = b; prev = acc.block ∷ acc.prev }) bs))
          (append_assoc taken (b ∷ []) bs)
          (push_all-IsChain (taken ++ (b ∷ [])) bs
            (record { block = b; prev = acc.block ∷ acc.prev })
            (ap (◌∷◌ b) e ∙ sym (reverse-append taken (b ∷ []))) (l, d)))
  | no n ↦
      rw (push_all, le→ltb acc.block.height b.height (omega (arith, n)))
        (taken, b, bs, refl, e, d, omega (arith, n))
]

-- `from_block_ids` gives nothing for no blocks. Of the others it makes a chain of exactly these blocks,
-- from the last on, whose heights go down, or refuses with the chain of those before the first one
-- whose height is not above that of the block before it.
pub from_block_ids-IsChain :
    (b : BlockId) (bs : List BlockId)
    → (from_block_ids [] ≡ none)
      × ((r : Attempt) × (from_block_ids (b ∷ bs) ≡ some r) × IsChain (b ∷ bs) r)
unfolding from_block_ids
from_block_ids-IsChain b bs =
    (refl, (_, refl, push_all-IsChain (b ∷ []) bs (record { block = b; prev = [] }) refl tt))
