-- ===== src/Indexer/Receiving/Kept.antt =====
-- What `Indexer::index` of src/inscriptions/mod.rs keeps of the log from one block to the next.
use wjk_20_indexer.Prelude.{
  ℕ, ◌+◌, ◌-◌, ◌%◌, ◌^◌, ◌<◌, ◌≤◌, ◌≡◌, refl, sym, ap, ◌∙◌, subst, Bool, true, false, not,
  Bool-cases, inl, inr, Option, none, some, List, [], ◌∷◌, ◌++◌, Bytes, ltb, ◌==◌, ==_iff,
  if◌then◌else◌, Outcome, ok, arith,
}
use wjk_20_indexer.Prelude
use wjk_20_indexer.Codec.{value, >>=-eq-value}
use wjk_20_indexer.Store.Laws.{keys}
use wjk_20_indexer.Tokens.Platform.{Platform}
use wjk_20_indexer.Tokens.Holders.{Holders, or_default}
use wjk_20_indexer.Db.{Db}
use wjk_20_indexer.Parser.{Block}
use wjk_20_indexer.Reorg.Cache.{ReorgHistoryBlock, ReorgCache, new_block, restore}
use wjk_20_indexer.Reorg.Data.{ProcessedData, store, write, write_all}
use wjk_20_indexer.Indexer.Handling.{
  DataToWrite, Host, from_outcome, cache_for, handle_block, handle,
}
use wjk_20_indexer.Indexer.Receiving.{
  Received, handle_reorgs, is_wrong_tip, cleared, restored, Receiver, receive,
}
use wjk_20_indexer.Indexer.Receiving.Consecutive.{
  Whenever, SomeKeys, Logged, Under, Consecutive, write_all-SomeKeys, new_block-Consecutive,
  restore_blocks-Consecutive,
}

Whenever-ok : {A : Type 0} (P : A → Type 0) (o : Outcome A) (a : A) → Whenever P o → o ≡ ok a → P a
Whenever-ok P Prelude.panic a h e = cc
Whenever-ok P (ok b) a h e = let same : b ≡ a = cc in subst (λ x. P x) same h

from_outcome-ok : {A : Type 0} (o : Outcome A) (a : A) → from_outcome o ≡ value a → o ≡ ok a
from_outcome-ok Prelude.panic a e = cc
from_outcome-ok (ok b) a e = let same : b ≡ a = cc in ap ok same

module _ {Amount : Type 0} where
  write_all-none :
      (ds : List (ProcessedData Amount)) (db : Db Amount)
      → Whenever (λ (r : Db Amount × Option (ReorgCache Amount)). r.1 ≡ none) (write_all ds db none)
  unfolding write_all write
  write_all-none [] db = refl
  write_all-none (d ∷ ds) db = write_all-none ds (store d db)

  right_tip :
      (bs : List (ℕ × ReorgHistoryBlock Amount)) (height : ℕ)
      → Consecutive (keys bs)
      → is_wrong_tip bs height ≡ false
      → Under height (keys bs)
  right_tip [] height c e = tt
  right_tip ((k, b) ∷ bs) height c e = elim (Bool-cases ((k + 1) % 2 ^ 32 == height)) [
    | inl same ↦ let q = (==_iff ((k + 1) % 2 ^ 32) height).0 same in omega (arith, q, c.0)
    | inr other ↦ cc (rw other at e)
  ]

  cleared-Consecutive :
      (b : Bool) (c : ReorgCache Amount)
      → Consecutive (keys c.blocks)
      → Consecutive (keys (cleared b c).blocks)
  cleared-Consecutive true c k = k
  cleared-Consecutive false c k = tt

  restored-Consecutive :
      (reorg_len : ℕ) (prev_height : Option ℕ) (c : ReorgCache Amount) (db : Db Amount)
      → Consecutive (keys c.blocks)
      → Consecutive (keys (restored reorg_len prev_height c db).0.blocks)
  unfolding restored restore
  restored-Consecutive reorg_len prev_height c db k = elim (Bool-cases (ltb 0 reorg_len)) [
    | inl some_ ↦
        rw some_ (
          restore_blocks-Consecutive ((or_default 0 prev_height - reorg_len) % 2 ^ 32) c.blocks db
            k)
    | inr none_ ↦ rw none_ k
  ]

  SomeKeys-Consecutive :
      (ks : List ℕ) (c : ReorgCache Amount) (o : Option (ReorgCache Amount))
      → SomeKeys ks o
      → Consecutive ks
      → Consecutive (keys (or_default c o).blocks)
  SomeKeys-Consecutive ks c none s k = absurd s
  SomeKeys-Consecutive ks c (some c') s k = rw s k

module _ (p : Platform) (h : Host p) where
  open p use {Amount}

  written-Consecutive :
      (b : Bool) (height : ℕ) (c : ReorgCache Amount) (ds : List (ProcessedData Amount))
      (db db' : Db Amount) (o : Option (ReorgCache Amount))
      → height + 1 < 2 ^ 32
      → Under height (keys c.blocks)
      → Consecutive (keys c.blocks)
      → write_all ds db (cache_for p h b height c) ≡ ok (db', o)
      → Consecutive (keys (or_default c o).blocks)
  unfolding cache_for
  written-Consecutive true height c ds db db' o f u k e =
      SomeKeys-Consecutive (keys (new_block height c).blocks) c o
        (Whenever-ok (Logged (keys (new_block height c).blocks)) _ (db', o)
          (write_all-SomeKeys (keys (new_block height c).blocks) ds db (some (new_block height c))
            refl)
          e)
        (new_block-Consecutive height c f u k)
  written-Consecutive false height c ds db db' o f u k e =
      let gone : o ≡ none =
        Whenever-ok (λ (r : Db Amount × Option (ReorgCache Amount)). r.1 ≡ none) _ (db', o)
          (write_all-none ds db) e in
      rw gone k

  handle-Consecutive :
      (height : ℕ) (hash : Bytes) (block : Block) (b : Bool) (db db' : Db p.Amount)
      (holders holders' : Holders p.Amount) (c : ReorgCache p.Amount) (d : DataToWrite p.Amount)
      (o : Option (ReorgCache p.Amount))
      → height + 1 < 2 ^ 32
      → Under height (keys c.blocks)
      → Consecutive (keys c.blocks)
      → handle p h height hash block b db holders c ≡ value (d, holders', db', o)
      → Consecutive (keys (or_default c o).blocks)
  unfolding handle
  handle-Consecutive height hash block b db db' holders holders' c d o f u k got =
      let ((d1, holders1), e1, g1) =
        >>=-eq-value (handle_block p h height hash block db holders) _ got in
      let ((db1, o1), e2, g2) =
        >>=-eq-value (from_outcome (write_all d1.processed db (cache_for p h b height c))) _ g1 in
      let same : o1 ≡ o = cc in
      subst (λ (x : Option (ReorgCache p.Amount)). Consecutive (keys (or_default c x).blocks)) same
        (written-Consecutive b height c d1.processed db db1 o1 f u k
          (from_outcome-ok (write_all d1.processed db (cache_for p h b height c)) (db1, o1) e2))

  -- The log of blocks has no gap: when the heights in it follow each other, they still do after a block
  -- of a height that fits 32 bits is received, after a reorganisation or not.
  pub receive-Consecutive :
      (e : Received) (r r' : Receiver p h)
      → e.height + 1 < 2 ^ 32
      → Consecutive (keys r.reorg_cache.blocks)
      → receive p h e r ≡ value r'
      → Consecutive (keys r'.reorg_cache.blocks)
  unfolding receive
  receive-Consecutive e r r' f k got =
      let reorgs = handle_reorgs e in
      let after = restored e.reorg_len r.prev_height (cleared reorgs r.reorg_cache) r.db in
      let k' =
        restored-Consecutive e.reorg_len r.prev_height (cleared reorgs r.reorg_cache) r.db
          (cleared-Consecutive reorgs r.reorg_cache k) in
      elim (Bool-cases (is_wrong_tip after.0.blocks (e.height % 2 ^ 32))) [
        | inl wrong ↦ cc (rw wrong at got)
        | inr right ↦
            (let got' = rw right at got in
              let ((d, holders, db', o), e1, g1) =
                >>=-eq-value
                  (handle p h (e.height % 2 ^ 32) e.hash e.block reorgs after.1 r.holders after.0) _
                  got' in
              let same : or_default after.0 o ≡ r'.reorg_cache = cc in
              subst (λ (c : ReorgCache p.Amount). Consecutive (keys c.blocks)) same
                (handle-Consecutive (e.height % 2 ^ 32) e.hash e.block reorgs after.1 db' r.holders
                  holders after.0 d o (omega (arith, f))
                  (right_tip after.0.blocks (e.height % 2 ^ 32) k' right) k' e1))
      ]
