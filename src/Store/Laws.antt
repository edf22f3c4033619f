-- ===== src/Store/Laws.antt =====
-- What a table of packages/rocksdb-wrapper/src/storage.rs holds at a key after each operation.
use wjk_20_indexer.Prelude.{
  ◌≡◌, refl, Bool, true, false, ◌&&◌, not, Option, none, some, List, [], ◌∷◌, ite, ok, >>=-eq-ok,
  arith, if◌then◌else◌, Option-cases, inl, inr,
}
use wjk_20_indexer.Store.{
  Table, set, remove, extend, remove_batch, multi_get_kv, multi_get_kv_strict,
}

abbrev pub or_else {ℓ} : {A : Type ℓ} → Option A → Option A → Option A
or_else none o = o
or_else (some a) o = some a

abbrev pub is_none {ℓ} : {A : Type ℓ} → Option A → Bool
is_none none = true
is_none (some a) = false

abbrev pub keys {ℓ} : {K V : Type ℓ} → List (K × V) → List K
keys [] = []
keys ((k, v) ∷ kvs) = k ∷ keys kvs

abbrev pub filter_keys {ℓ} : {K : Type ℓ} → (K → Bool) → List K → List K
filter_keys f [] = []
filter_keys f (k ∷ ks) = if f k then k ∷ filter_keys f ks else filter_keys f ks

module _ {K : Type 0} (dec : Discrete K) where
  abbrev pub contains : K → List K → Bool
  contains k [] = false
  contains k (j ∷ ks) = ite (dec k j) true (contains k ks)

  pub contains-filter_keys :
      (k : K) (f : K → Bool) (ks : List K) → contains k (filter_keys f ks) ≡ contains k ks && f k
  contains-filter_keys k f [] = refl
  contains-filter_keys k f (j ∷ ks) = ground (arith, contains-filter_keys k f ks)

module _ {K V : Type 0} (dec : Discrete K) where
  -- The value that a batch of puts leaves at a key: the last one.
  abbrev pub written : K → List (K × V) → Option V
  written k [] = none
  written k ((j, v) ∷ kvs) = or_else (written k kvs) (ite (dec k j) (some v) none)

  pub extend-at :
      (k : K) (kvs : List (K × V)) (t : Table K V)
      → extend dec kvs t k ≡ or_else (written k kvs) (t k)
  unfolding extend set
  extend-at k [] t = refl
  extend-at k ((j, v) ∷ kvs) t = ground (arith, extend-at k kvs (λ i. ite (dec i j) (some v) (t i)))

  pub remove_batch-at :
      (k : K) (ks : List K) (t : Table K V)
      → remove_batch dec ks t k ≡ (if contains dec k ks then none else t k)
  unfolding remove_batch remove
  remove_batch-at k [] t = refl
  remove_batch-at k (j ∷ ks) t =
      ground (arith, remove_batch-at k ks (λ i. ite (dec i j) none (t i)))

  pub written-multi_get_kv :
      (k : K) (ks : List K) (t : Table K V)
      → written k (multi_get_kv ks t) ≡ (if contains dec k ks then t k else none)
  unfolding multi_get_kv
  written-multi_get_kv k [] t = refl
  written-multi_get_kv k (j ∷ ks) t = elim (Option-cases (t j)) [
    | inl missing ↦ rw missing (ground (arith, written-multi_get_kv k ks t))
    | inr (v, found) ↦ rw found (ground (arith, written-multi_get_kv k ks t))
  ]

  -- A strict read that returns has found every key.
  pub written-strict :
      (k : K) (ks : List K) (t : Table K V) {kvs : List (K × V)}
      → multi_get_kv_strict ks t ≡ ok kvs
      → written k kvs ≡ (if contains dec k ks then t k else none)
  unfolding multi_get_kv_strict
  written-strict k [] t h = ground arith
  written-strict k (j ∷ ks) t h = elim (Option-cases (t j)) [
    | inl missing ↦ absurd (ground arith)
    | inr (v, found) ↦
        let (rest, read, e) =
          >>=-eq-ok (multi_get_kv_strict ks t) (λ kvs. ok ((j, v) ∷ kvs)) (rw found at h) in
        ground (arith, written-strict k ks t read)
  ]

  pub strict_found :
      (k : K) (ks : List K) (t : Table K V) {kvs : List (K × V)}
      → multi_get_kv_strict ks t ≡ ok kvs
      → contains dec k ks ≡ true
      → is_none (t k) ≡ false
  unfolding multi_get_kv_strict
  strict_found k [] t h c = cc
  strict_found k (j ∷ ks) t h c = elim (Option-cases (t j)) [
    | inl missing ↦ absurd (ground arith)
    | inr (v, found) ↦
        let (rest, read, e) =
          >>=-eq-ok (multi_get_kv_strict ks t) (λ kvs. ok ((j, v) ∷ kvs)) (rw found at h) in
        ground (arith, strict_found k ks t read)
  ]

  pub written-none :
      (k : K) (kvs : List (K × V)) → is_none (written k kvs) ≡ not (contains dec k (keys kvs))
  written-none k [] = refl
  written-none k ((j, v) ∷ kvs) = ground (arith, written-none k kvs)
