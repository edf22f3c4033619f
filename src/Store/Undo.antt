-- ===== src/Store/Undo.antt =====
-- Batches that take back other batches, on the tables of packages/rocksdb-wrapper/src/storage.rs.
use wjk_20_indexer.Prelude.{
  ◌≡◌, refl, sym, true, false, none, some, List, arith, ite, if◌then◌else◌,
}
use wjk_20_indexer.Store.{Table, set, remove, extend, remove_batch, multi_get_kv}
use wjk_20_indexer.Store.Laws.{
  keys, written, contains, filter_keys, is_none, extend-at, remove_batch-at, written-multi_get_kv,
  written-none, contains-filter_keys,
}

module _ {K V : Type 0} (dec : Discrete K) (t : Table K V) (k : K) where
  -- Of the keys that a batch writes, the new ones are removed and the old ones get their value back.
  pub undo-extend :
      (kvs : List (K × V))
      → let before = multi_get_kv (keys kvs) t in
        let fresh = filter_keys (λ j. is_none (written dec j before)) (keys kvs) in
        (remove_batch dec fresh (extend dec before (extend dec kvs t)) k ≡ t k)
        × (extend dec before (remove_batch dec fresh (extend dec kvs t)) k ≡ t k)
  undo-extend kvs =
      let before = multi_get_kv (keys kvs) t in
      let new = λ (j : K). is_none (written dec j before) in
      let fresh = filter_keys new (keys kvs) in
      let w = extend dec kvs t in
      ground (
        arith,
        remove_batch-at dec k fresh (extend dec before w),
        extend-at dec k before w,
        extend-at dec k before (remove_batch dec fresh w),
        remove_batch-at dec k fresh w,
        extend-at dec k kvs t,
        contains-filter_keys dec k new (keys kvs),
        written-multi_get_kv dec k (keys kvs) t,
        written-none dec k kvs,
      )

  -- A batch of new keys is taken back by removing them.
  pub undo_new :
      (kvs : List (K × V))
      → (contains dec k (keys kvs) ≡ true → t k ≡ none)
      → remove_batch dec (keys kvs) (extend dec kvs t) k ≡ t k
  undo_new kvs fresh = ground (
    arith,
    remove_batch-at dec k (keys kvs) (extend dec kvs t),
    extend-at dec k kvs t,
    written-none dec k kvs,
  )

  -- Some keys were removed, whose values are known, and new ones written.
  pub undo_swap :
      (ks : List K) (old kvs : List (K × V))
      → written dec k old ≡ (if contains dec k ks then t k else none)
      → (contains dec k (keys kvs) ≡ true → contains dec k ks ≡ false → t k ≡ none)
      → extend dec old (remove_batch dec (keys kvs) (extend dec kvs (remove_batch dec ks t))) k
        ≡ t k
  undo_swap ks old kvs known fresh =
      let gone = remove_batch dec ks t in
      ground (
        arith,
        extend-at dec k old (remove_batch dec (keys kvs) (extend dec kvs gone)),
        remove_batch-at dec k (keys kvs) (extend dec kvs gone),
        extend-at dec k kvs gone,
        remove_batch-at dec k ks t,
        written-none dec k kvs,
      )

  pub undo_set : (j : K) (v : V) → t j ≡ none → remove dec j (set dec j v t) k ≡ t k
  unfolding remove set
  undo_set j v fresh = elim (dec k j) as (λ d. ite d none (ite d (some v) (t k)) ≡ t k) [
    | yes p ↦ rw p (sym fresh)
    | no n ↦ refl
  ]
