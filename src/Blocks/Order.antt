-- ===== src/Blocks/Order.antt =====
-- The order of the checkpoints of packages/new-blk-parser/src/blockchain/checkpoint.rs.
use wjk_20_indexer.Prelude.{
  ℕ, ◌≤◌, ◌<◌, ◌≡◌, refl, ap, ◌∙◌, Option, none, some, List, [], ◌∷◌, Bytes, lt→ltb, lt→==, gt→==,
  ◌==◌, if◌then◌else◌, ok, arith,
}
use wjk_20_indexer.Blocks.{
  BlockId, CheckPoint, done, push, extend_from, extend, Break, present, base, insert, put_back,
  expect_done,
}
use wjk_20_indexer.Blocks.Found.{
  hash_at-here, hash_at-past, find_base-IsFound, IsFound, PutBack, conflict, absent,
}
use wjk_20_indexer.Blocks.Heights.{Descends, Ascends, Rooted, hash_at, blocks, pushed_all}

extend_from-Ascends :
    (self : CheckPoint) (c : BlockId) (ps bs : List BlockId)
    → Ascends c bs
    → extend_from self (record { block = c; prev = ps }) bs ≡ done (pushed_all c ps bs)
unfolding extend_from push
extend_from-Ascends self c ps [] a = refl
extend_from-Ascends self c ps (b ∷ bs) a =
    rw (extend_from, lt→ltb c.height b.height a.0) (extend_from-Ascends self b (c ∷ ps) bs a.1)

pushed_all-Descends :
    (c : BlockId) (ps bs : List BlockId)
    → Descends c ps
    → Ascends c bs
    → Descends (pushed_all c ps bs).block (pushed_all c ps bs).prev
pushed_all-Descends c ps [] d a = d
pushed_all-Descends c ps (b ∷ bs) d a = pushed_all-Descends b (c ∷ ps) bs (a.0, d) a.1

pushed_all-Rooted :
    (c : BlockId) (ps bs : List BlockId)
    → Rooted c ps
    → Rooted (pushed_all c ps bs).block (pushed_all c ps bs).prev
pushed_all-Rooted c ps [] r = r
pushed_all-Rooted c ps (b ∷ bs) r = pushed_all-Rooted b (c ∷ ps) bs r

-- Heights above the newest pushed do not hide a block below.
hash_at-pushed_all :
    (h : ℕ) (c : BlockId) (ps bs : List BlockId)
    → h ≤ c.height
    → Ascends c bs
    → hash_at h (blocks (pushed_all c ps bs)) ≡ hash_at h (c ∷ ps)
hash_at-pushed_all h c ps [] l a = refl
hash_at-pushed_all h c ps (b ∷ bs) l a =
    hash_at-pushed_all h b (c ∷ ps) bs (omega (arith, a.0)) a.1
    ∙ (rw (gt→== b.height h (omega (arith, a.0))) refl)

put_back-extend :
    (b : BlockId) (self cp : CheckPoint) (tail : List BlockId)
    → Ascends cp.block (b ∷ tail)
    → put_back self b (ok (base cp tail)) ≡ ok (pushed_all cp.block cp.prev (b ∷ tail))
unfolding extend
put_back-extend b self cp tail a =
    ap expect_done (extend_from-Ascends cp cp.block cp.prev (b ∷ tail) a)

-- What the chain holds at a height stays when the same blocks are put on it.
hash_at-pushed_same :
    (h : ℕ) (c c' : BlockId) (ps ps' bs : List BlockId)
    → hash_at h (c ∷ ps) ≡ hash_at h (c' ∷ ps')
    → hash_at h (blocks (pushed_all c ps bs)) ≡ hash_at h (blocks (pushed_all c' ps' bs))
hash_at-pushed_same h c c' ps ps' [] e = e
hash_at-pushed_same h c c' ps ps' (b ∷ bs) e =
    hash_at-pushed_same h b b (c ∷ ps) (c' ∷ ps') bs
      (ap (λ (o : Option Bytes). if b.height == h then some b.hash else o) e)

-- What `insert` does to the blocks above: it keeps the chain when the block is in it, puts them back
-- above it when its height is new, and drops them when another block had its height.
pub data Effect (b : BlockId) (cp cp' : CheckPoint) : Type 0 where
  kept : hash_at b.height (blocks cp) ≡ some b.hash → cp' ≡ cp → Effect b cp cp'
  put_below :
      hash_at b.height (blocks cp) ≡ none
      → ((h : ℕ) → b.height < h → hash_at h (blocks cp') ≡ hash_at h (blocks cp))
      → Effect b cp cp'
  purged :
      (q : Bytes)
      → hash_at b.height (blocks cp) ≡ some q
      → ¬ (q ≡ b.hash)
      → cp'.block ≡ b
      → Effect b cp cp'

-- What `insert` gives back: the heights go down to the genesis block, the block stands at its height, the
-- chain below it is what it was, and the blocks above it are kept, put back or dropped.
abbrev pub IsInserted : BlockId → CheckPoint → CheckPoint → Type 0
IsInserted b cp cp' =
    Descends cp'.block cp'.prev
    × Rooted cp'.block cp'.prev
    × (hash_at b.height (blocks cp') ≡ some b.hash)
    × ((h : ℕ) → h < b.height → hash_at h (blocks cp') ≡ hash_at h (blocks cp))
    × Effect b cp cp'

PutBack-Effect :
    (b : BlockId) (self cp : CheckPoint) (tail : List BlockId)
    → PutBack b self.block self.prev [] cp tail
    → Effect b self (pushed_all cp.block cp.prev (b ∷ tail))
PutBack-Effect b self cp tail (conflict q at other none_) =
    purged q at other (ap (λ (t : List BlockId). (pushed_all b (cp.block ∷ cp.prev) t).block) none_)
PutBack-Effect b self cp tail (absent none_ same) = put_below none_ (λ h l.
    hash_at-pushed_same h b cp.block (cp.block ∷ cp.prev) cp.prev tail
      (rw (lt→== b.height h l) refl)
    ∙ ap (λ (c : CheckPoint). hash_at h (blocks c)) same)

put_back-IsInserted :
    (b : BlockId) (self : CheckPoint) (f : Break)
    → Descends self.block self.prev
    → Rooted self.block self.prev
    → IsFound b self.block self.prev [] f
    → (cp : CheckPoint) × (put_back self b (ok f) ≡ ok cp) × IsInserted b self cp
unfolding put_back
put_back-IsInserted b self present d r f = (self, refl, (d, r, f, (λ h k. refl), kept f refl))
put_back-IsInserted b self (base cp tail) d r (l, a, d', r', back, low) = (
  pushed_all cp.block cp.prev (b ∷ tail),
  put_back-extend b self cp tail (l, a),
  (
    pushed_all-Descends cp.block cp.prev (b ∷ tail) d' (l, a),
    pushed_all-Rooted cp.block cp.prev (b ∷ tail) r',
    hash_at-pushed_all b.height b (cp.block ∷ cp.prev) tail (omega arith) a
        ∙ hash_at-here b.height b (cp.block ∷ cp.prev) refl,
    (λ h k.
        hash_at-pushed_all h b (cp.block ∷ cp.prev) tail (omega arith) a
        ∙ hash_at-past h b (cp.block ∷ cp.prev) k
        ∙ low h k),
    PutBack-Effect b self cp tail back,
  ),
)

-- A block above the genesis block is inserted into a chain whose heights go down to the genesis block without a
-- panic: the heights of the new chain go down to the genesis block, the block stands at its height,
-- and below it the chain is unchanged. The chain is unchanged if the block was in it; if no block had
-- its height, all higher blocks stay at their heights; if another block had its height, the higher
-- blocks are gone and the block is the newest.
pub insert-IsInserted :
    (b : BlockId) (cp : CheckPoint)
    → Descends cp.block cp.prev
    → Rooted cp.block cp.prev
    → 0 < b.height
    → (cp' : CheckPoint) × (insert b cp ≡ ok cp') × IsInserted b cp cp'
unfolding insert
insert-IsInserted b cp d r p =
    let (f, found, is) = find_base-IsFound b cp.block cp.prev [] d r p tt (λ l. (l, tt)) in
    let (cp', back, inserted) = put_back-IsInserted b cp f d r is in
    (cp', ap (put_back cp b) found ∙ back, inserted)
