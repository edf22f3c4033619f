-- ===== src/Blocks/Found.antt =====
-- What the loop of `CheckPoint::insert` of packages/new-blk-parser/src/blockchain/checkpoint.rs finds.
use wjk_20_indexer.Prelude.{
  ℕ, ◌<◌, ◌≡◌, refl, sym, ap, ◌∙◌, none, some, List, [], ◌∷◌, Bytes, lt→ltb, le→ltb, lt→==, gt→==,
  ==_iff, if_pos, if_neg, ok, arith, dec_lt, ℕ_discrete,
}
use wjk_20_indexer.Tokens.Types.{Bytes-discrete}
use wjk_20_indexer.Blocks.Heights.{Descends, Ascends, Rooted, hash_at, blocks, pushed_all}
use wjk_20_indexer.Blocks.{BlockId, CheckPoint, Break, present, base, find_base}

-- What the loop puts back above the block: nothing when another block has its height, or else all
-- that is higher.
pub data PutBack (b cur : BlockId) (prev above : List BlockId) (cp : CheckPoint)
    (tail : List BlockId) : Type 0 where
  conflict :
      (q : Bytes)
      → hash_at b.height (cur ∷ prev) ≡ some q
      → ¬ (q ≡ b.hash)
      → tail ≡ []
      → PutBack b cur prev above cp tail
  absent :
      hash_at b.height (cur ∷ prev) ≡ none
      → pushed_all cp.block cp.prev tail ≡ pushed_all cur prev above
      → PutBack b cur prev above cp tail

-- What the loop of `insert` finds from a block on, below those of `above`.
abbrev pub IsFound : BlockId → BlockId → List BlockId → List BlockId → Break → Type 0
IsFound b cur prev above present = hash_at b.height (cur ∷ prev) ≡ some b.hash
IsFound b cur prev above (base cp tail) =
    (cp.block.height < b.height)
    × Ascends b tail
    × Descends cp.block cp.prev
    × Rooted cp.block cp.prev
    × PutBack b cur prev above cp tail
    × ((h : ℕ) → h < b.height → hash_at h (blocks cp) ≡ hash_at h (cur ∷ prev))

pub find_base-below :
    (b cur : BlockId) (prev tail : List BlockId)
    → cur.height < b.height
    → find_base b cur prev tail ≡ ok (base (record { block = cur; prev = prev }) tail)
unfolding find_base
find_base-below b cur [] tail l =
    rw (lt→== cur.height b.height l, lt→ltb cur.height b.height l) refl
find_base-below b cur (q ∷ qs) tail l =
    rw (lt→== cur.height b.height l, lt→ltb cur.height b.height l) refl

pub find_base-present :
    (b cur : BlockId) (prev tail : List BlockId)
    → cur.height ≡ b.height
    → cur.hash ≡ b.hash
    → find_base b cur prev tail ≡ ok present
unfolding find_base
find_base-present b cur [] tail e h =
    rw ((==_iff cur.height b.height).1 e, if_pos (Bytes-discrete cur.hash b.hash) h) refl
find_base-present b cur (q ∷ qs) tail e h =
    rw ((==_iff cur.height b.height).1 e, if_pos (Bytes-discrete cur.hash b.hash) h) refl

pub find_base-conflict :
    (b cur q : BlockId) (qs tail : List BlockId)
    → cur.height ≡ b.height
    → ¬ (cur.hash ≡ b.hash)
    → 0 < b.height
    → find_base b cur (q ∷ qs) tail ≡ ok (base (record { block = q; prev = qs }) [])
unfolding find_base
find_base-conflict b cur q qs tail e h p =
    rw
      (
        (==_iff cur.height b.height).1 e,
        if_neg (Bytes-discrete cur.hash b.hash) h,
        gt→== cur.height 0 (omega (arith, e)),
      )
      refl

pub find_base-above :
    (b cur q : BlockId) (qs tail : List BlockId)
    → b.height < cur.height
    → find_base b cur (q ∷ qs) tail ≡ find_base b q qs (cur ∷ tail)
unfolding find_base
find_base-above b cur q qs tail l =
    rw (gt→== cur.height b.height l, le→ltb cur.height b.height (omega arith)) refl

pub hash_at-here :
    (h : ℕ) (c : BlockId) (cs : List BlockId) → c.height ≡ h → hash_at h (c ∷ cs) ≡ some c.hash
hash_at-here h c cs e = rw ((==_iff c.height h).1 e) refl

pub hash_at-past :
    (h : ℕ) (c : BlockId) (cs : List BlockId) → h < c.height → hash_at h (c ∷ cs) ≡ hash_at h cs
hash_at-past h c cs l = rw (gt→== c.height h l) refl

pub hash_at-none :
    (h : ℕ) (c : BlockId) (cs : List BlockId)
    → Descends c cs
    → c.height < h
    → hash_at h (c ∷ cs) ≡ none
hash_at-none h c [] d l = rw (lt→== c.height h l) refl
hash_at-none h c (q ∷ qs) d l =
    rw (lt→== c.height h l) (hash_at-none h q qs d.1 (omega (arith, d.0, l)))

PutBack-above :
    (b cur q : BlockId) (qs above : List BlockId) (cp : CheckPoint) (tail : List BlockId)
    → b.height < cur.height
    → PutBack b q qs (cur ∷ above) cp tail
    → PutBack b cur (q ∷ qs) above cp tail
PutBack-above b cur q qs above cp tail l (conflict r at other none_) =
    conflict r (hash_at-past b.height cur (q ∷ qs) l ∙ at) other none_
PutBack-above b cur q qs above cp tail l (absent none_ same) =
    absent (hash_at-past b.height cur (q ∷ qs) l ∙ none_) same

-- The step of the loop from a checkpoint above the block to the one before.
pub IsFound-above :
    (b cur q : BlockId) (qs above : List BlockId) (r : Break)
    → b.height < cur.height
    → IsFound b q qs (cur ∷ above) r
    → IsFound b cur (q ∷ qs) above r
IsFound-above b cur q qs above present l f = hash_at-past b.height cur (q ∷ qs) l ∙ f
IsFound-above b cur q qs above (base cp tail) l (f0, f1, f2, f3, f4, f5) = (
  f0,
  f1,
  f2,
  f3,
  PutBack-above b cur q qs above cp tail l f4,
  λ h k. f5 h k ∙ sym (hash_at-past h cur (q ∷ qs) (omega arith)),
)

-- The loop ends at a block below.
IsFound-below :
    (b cur : BlockId) (prev tail : List BlockId)
    → Descends cur prev
    → Rooted cur prev
    → cur.height < b.height
    → Ascends b tail
    → (r : Break) × (find_base b cur prev tail ≡ ok r) × IsFound b cur prev tail r
IsFound-below b cur prev tail d r l ab = (
  base (record { block = cur; prev = prev }) tail,
  find_base-below b cur prev tail l,
  (l, ab, d, r, absent (hash_at-none b.height cur prev d l) refl, λ h k. refl),
)

pub find_base-IsFound :
    (b cur : BlockId) (prev tail : List BlockId)
    → Descends cur prev
    → Rooted cur prev
    → 0 < b.height
    → Ascends b tail
    → (b.height < cur.height → Ascends b (cur ∷ tail))
    → (r : Break) × (find_base b cur prev tail ≡ ok r) × IsFound b cur prev tail r
find_base-IsFound b cur [] tail d r p ab ac =
    IsFound-below b cur [] tail d r (omega (arith, r, p)) ab
find_base-IsFound b cur (q ∷ qs) tail d r p ab ac = elim (dec_lt cur.height b.height) [
  | yes l ↦ IsFound-below b cur (q ∷ qs) tail d r l ab
  | no n ↦ elim (ℕ_discrete cur.height b.height) [
    | yes e ↦ elim (Bytes-discrete cur.hash b.hash) [
      | yes same ↦ (
        present,
        find_base-present b cur (q ∷ qs) tail e same,
        hash_at-here b.height cur (q ∷ qs) e ∙ ap some same,
      )
      | no other ↦ (
        base (record { block = q; prev = qs }) [],
        find_base-conflict b cur q qs tail e other p,
        (
          omega (arith, d.0, e),
          tt,
          d.1,
          r,
          conflict cur.hash (hash_at-here b.height cur (q ∷ qs) e) other refl,
          λ h k. sym (hash_at-past h cur (q ∷ qs) (omega (arith, e))),
        ),
      )
    ]
    | no ne ↦
        let above : b.height < cur.height = omega (arith, n, ne) in
        let (f, found, is) =
          find_base-IsFound b q qs (cur ∷ tail) d.1 r p (ac above)
            (λ l. (l, (d.0, (ac above).1))) in
        (f, find_base-above b cur q qs tail above ∙ found, IsFound-above b cur q qs tail f above is)
  ]
]
