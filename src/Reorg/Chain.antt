-- ===== src/Reorg/Chain.antt =====
-- `ReorgCache::restore` of src/reorg.rs after several blocks of `InscriptionIndexer::handle_block`:
-- the tables are those of the block that is gone back to.
use wjk_20_indexer.Prelude.{
  ℕ, suc, ◌+◌, ◌≤◌, ◌<◌, ◌≡◌, refl, sym, ap, ◌∙◌, subst, Option, some, List, [], ◌∷◌, Outcome, ok,
  arith, length, lt→ltb, le→ltb, ==_iff, Bool-cases, inl, inr, ◌==◌,
}
use wjk_20_indexer.Db.{Db}
use wjk_20_indexer.Reorg.Cache.{
  ReorgHistoryBlock, ReorgCache, restore_block, restore_blocks, restore, new_block, pop_first,
  insert_block, empty_block,
}
use wjk_20_indexer.Reorg.Agrees.{Agrees-refl, Agrees-trans, restore_block_cong}
use wjk_20_indexer.Reorg.Data.{write_all}
use wjk_20_indexer.Reorg.Block.{store_all, block_log, write_all-processed, restore_block-Agrees}
use wjk_20_indexer.Reorg.Writes.{BlockWrites, processed, Fits, Agrees}

module _ {Amount : Type 0} where
  -- The newest block that the cache keeps is not above a height.
  abbrev pub Below : ℕ → List (ℕ × ReorgHistoryBlock Amount) → Type 0
  Below h [] = Unit
  Below h ((k, b) ∷ bs) = k ≤ h

  pop_first-Below :
      (h : ℕ) (bs : List (ℕ × ReorgHistoryBlock Amount)) → Below h bs → Below h (pop_first bs)
  unfolding pop_first
  pop_first-Below h [] b = b
  pop_first-Below h (x ∷ []) b = tt
  pop_first-Below h (x ∷ y ∷ bs) b = b

  restore_blocks-Below :
      (h : ℕ) (bs : List (ℕ × ReorgHistoryBlock Amount)) (db : Db Amount)
      → Below h bs
      → restore_blocks h bs db ≡ (bs, db)
  unfolding restore_blocks
  restore_blocks-Below h [] db b = refl
  restore_blocks-Below h (x ∷ bs) db b = rw (le→ltb h x.0 b) refl

  insert_block-Below :
      (t : ℕ) (bs : List (ℕ × ReorgHistoryBlock Amount))
      → Below t bs
      → insert_block (suc t) empty_block bs ≡ (suc t, empty_block) ∷ bs
  unfolding insert_block
  insert_block-Below t [] b = refl
  insert_block-Below t (x ∷ bs) b = rw (lt→ltb x.0 (suc t) (omega (arith, b))) refl

  ok-injective :
      {a a' : Db Amount} {c c' : ReorgCache Amount}
      → ◌≡◌ {A = Outcome (Db Amount × Option (ReorgCache Amount))}
          (ok (a, some c))
          (ok (a', some c'))
      → (a ≡ a') × (c ≡ c')
  ok-injective e = (cc, cc)

module _ {Amount : Type 0} (h : ℕ) (db0 : Db Amount) where
  -- `Chain h db0 c0 t db c`: the indexer has handled the blocks from `h + 1` to `t`, each of which
  -- fits the tables that it finds, and has come from `db0` and `c0` to `db` and `c`.
  pub data Chain (c0 : ReorgCache Amount) : ℕ → Db Amount → ReorgCache Amount → Type 0 where
    start : Chain c0 h db0 c0
    block :
        {t : ℕ} {db db' : Db Amount} {c c' : ReorgCache Amount}
        → Chain c0 t db c
        → (w : BlockWrites Amount) → w.height ≡ suc t
        → Fits db w
        → write_all (processed w) db (some (new_block w.height c)) ≡ ok (db', some c')
        → Chain c0 (suc t) db' c'

  -- The log on top of the older blocks of the cache undoes what was written.
  data Undone : ℕ → Db Amount → List (ℕ × ReorgHistoryBlock Amount) → Type 0 where
    base : {bs : List (ℕ × ReorgHistoryBlock Amount)} → Below h bs → Undone h db0 bs
    step :
        {t : ℕ} {db : Db Amount} {bs : List (ℕ × ReorgHistoryBlock Amount)}
        → Undone t db bs
        → (w : BlockWrites Amount) (f : Fits db w) → w.height ≡ suc t
        → Undone (suc t) (store_all (processed w) db) ((w.height, block_log db w f) ∷ bs)

module _ {Amount : Type 0} {h : ℕ} {db0 : Db Amount} where
  Undone-from :
      {t : ℕ} {db : Db Amount} {bs : List (ℕ × ReorgHistoryBlock Amount)}
      → Undone h db0 t db bs
      → (h ≤ t) × Below t bs
  Undone-from (base b) = (omega arith, b)
  Undone-from (step u w f e) = (omega (arith, (Undone-from u).0), omega (arith, e))

  Undone-pop_first :
      {t : ℕ} {db : Db Amount} {bs : List (ℕ × ReorgHistoryBlock Amount)}
      → Undone h db0 t db bs
      → t < h + length bs
      → Undone h db0 t db (pop_first bs)
  unfolding pop_first
  Undone-pop_first {bs = bs} (base b) l = base (pop_first-Below h bs b)
  Undone-pop_first (step {bs = []} u w f e) l = absurd (omega (arith, (Undone-from u).0))
  Undone-pop_first (step {bs = x ∷ bs} u w f e) l = step (Undone-pop_first u (omega arith)) w f e

  Undone-restore_blocks :
      {t : ℕ} {db : Db Amount} {bs : List (ℕ × ReorgHistoryBlock Amount)}
      → Undone h db0 t db bs
      → (db' : Db Amount) → Agrees db db'
      → Agrees db0 (restore_blocks h bs db').1
  unfolding restore_blocks
  Undone-restore_blocks {bs = bs} (base b) db' a = rw (restore_blocks-Below h bs db' b) a
  Undone-restore_blocks (step {db = db} {bs = bs} u w f e) db' a =
      let undone = restore_block w.height (block_log db w f) in
      rw (lt→ltb h w.height (omega (arith, e, (Undone-from u).0))) (
        Undone-restore_blocks u (undone db') (
          Agrees-trans db (undone (store_all (processed w) db)) (undone db')
            (restore_block-Agrees db w f)
            (restore_block_cong w.height (block_log db w f) (store_all (processed w) db) db' a)))

  Undone-new_block :
      {t : ℕ} {db : Db Amount} (c : ReorgCache Amount)
      → Undone h db0 t db c.blocks
      → t < h + c.len
      → (bs : List (ℕ × ReorgHistoryBlock Amount)) × (new_block (suc t) c
          ≡ record { blocks = (suc t, empty_block) ∷ bs; len = c.len })
        × Undone h db0 t db bs
  unfolding new_block
  Undone-new_block {t} c u l = elim (Bool-cases (length c.blocks == c.len)) [
    | inl full ↦
        let popped =
          Undone-pop_first u (omega (arith, l, (==_iff (length c.blocks) c.len).0 full)) in
        (
          pop_first c.blocks,
          rw (full, insert_block-Below t (pop_first c.blocks) (Undone-from popped).1) refl,
          popped,
        )
    | inr room ↦ (c.blocks, rw (room, insert_block-Below t c.blocks (Undone-from u).1) refl, u)
  ]

  -- What a chain of blocks leaves in the cache undoes it, as long as the chain is not longer than
  -- the cache.
  Chain-Undone :
      {c0 : ReorgCache Amount} {t : ℕ} {db : Db Amount} {c : ReorgCache Amount}
      → Below h c0.blocks
      → Chain h db0 c0 t db c
      → t ≤ h + c0.len
      → Undone h db0 t db c.blocks × (c.len ≡ c0.len)
  Chain-Undone b start l = (base b, refl)
  Chain-Undone b (block {t = t} {db = db} {c = c} {c' = c'} ch w e f run) l =
      let (u, n) = Chain-Undone b ch (omega arith) in
      let (bs, new, u') = Undone-new_block c u (omega (arith, n, l)) in
      let fresh : new_block w.height c
          ≡ record { blocks = (w.height, empty_block) ∷ bs; len = c.len } =
        subst (λ x. new_block x c ≡ record { blocks = (x, empty_block) ∷ bs; len = c.len }) (sym e)
          new in
      let ran =
        ap (λ x. write_all (processed w) db (some x)) fresh ∙ write_all-processed db w f c.len bs in
      let (stored, kept) = ok-injective (sym ran ∙ run) in
      (
        subst (λ x. Undone h db0 (suc t) x c'.blocks) stored
            (subst (λ x. Undone h db0 (suc t) (store_all (processed w) db) x.blocks) kept
              (step u' w f e)),
        rw (sym kept) n,
      )

  -- Going back: after any number of blocks that the cache has room for, each of which has the writes
  -- that `handle_block` queues for a block of more than one transaction from the start height on and
  -- fits the tables that it finds, `restore` to the height `h` gives tables that agree with those of
  -- that height.
  pub restore-Agrees :
      (c0 : ReorgCache Amount)
      → Below h c0.blocks
      → (t : ℕ) (db : Db Amount) (c : ReorgCache Amount) → Chain h db0 c0 t db c
      → t ≤ h + c0.len
      → Agrees db0 (restore c db h).1
  unfolding restore
  restore-Agrees c0 b t db c ch l =
      Undone-restore_blocks (Chain-Undone b ch l).0 db (Agrees-refl db)
