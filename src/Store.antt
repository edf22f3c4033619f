-- ===== src/Store.antt =====
-- `RocksTable` of packages/rocksdb-wrapper/src/storage.rs: a table as the function from its keys to
-- the values stored, and the operations that the indexer calls. RocksDB itself (column families,
-- batches, their atomicity) is not code of this repository.
pub mod Laws
pub mod Undo
use wjk_20_indexer.Prelude.{
  Bool, true, false, ◌||◌, Option, none, some, List, [], ◌∷◌, map, ite, Outcome, ok, panic, ◌>>=◌,
}

abbrev pub Table : Type 0 → Type 0 → Type 0
Table K V = K → Option V

module _ {K V : Type 0} (dec : Discrete K) where
  unfoldable pub set : K → V → Table K V → Table K V
  set k v t = λ j. ite (dec j k) (some v) (t j)

  unfoldable pub remove : K → Table K V → Table K V
  remove k t = λ j. ite (dec j k) none (t j)

  -- `extend`: a batch of puts, in order.
  unfoldable pub extend : List (K × V) → Table K V → Table K V
  extend [] t = t
  extend ((k, v) ∷ kvs) t = extend kvs (set k v t)

  unfoldable pub remove_batch : List K → Table K V → Table K V
  remove_batch [] t = t
  remove_batch (k ∷ ks) t = remove_batch ks (remove k t)

module _ {K V : Type 0} where
  unfoldable pub multi_get : List K → Table K V → List (Option V)
  multi_get ks t = map t ks

  abbrev pub with_found : K → Option V → List (K × V) → List (K × V)
  with_found k none rest = rest
  with_found k (some v) rest = (k, v) ∷ rest

  -- `multi_get_kv(keys, false)`: the keys that are found, with their values.
  unfoldable pub multi_get_kv : List K → Table K V → List (K × V)
  multi_get_kv [] t = []
  multi_get_kv (k ∷ ks) t = with_found k (t k) (multi_get_kv ks t)

  abbrev pub found_or_panic : K → Option V → Outcome (List (K × V)) → Outcome (List (K × V))
  found_or_panic k none rest = panic
  found_or_panic k (some v) rest = do kvs ← rest; ok ((k, v) ∷ kvs)

  -- `multi_get_kv(keys, true)`: a key that is missing panics.
  unfoldable pub multi_get_kv_strict : List K → Table K V → Outcome (List (K × V))
  multi_get_kv_strict [] t = ok []
  multi_get_kv_strict (k ∷ ks) t = found_or_panic k (t k) (multi_get_kv_strict ks t)
