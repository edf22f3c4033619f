-- ===== src/Tokens/Loading/Tables.antt =====
-- What `multi_get_kv` of packages/rocksdb-wrapper/src/storage.rs collects.
use wjk_20_indexer.Prelude.{
  ◌≡◌, refl, sym, none, some, List, [], ◌∷◌, ◌++◌, lookup, All, if_pos, if_neg, Option-cases, inl,
  inr,
}
use wjk_20_indexer.Store.{Table, multi_get_kv, with_found}

pub All-map :
    {A : Type 0} (P Q : A → Type 0) (xs : List A) → ((x : A) → P x → Q x) → All P xs → All Q xs
All-map P Q [] f h = tt
All-map P Q (x ∷ xs) f h = (f x h.0, All-map P Q xs f h.1)

pub All-append :
    {A : Type 0} (P : A → Type 0) (xs ys : List A) → All P (xs ++ ys) → All P xs × All P ys
All-append P [] ys h = (tt, h)
All-append P (x ∷ xs) ys h = let (a, b) = All-append P xs ys h.1 in ((h.0, a), b)

module _ {K V : Type 0} (dec : Discrete K) (t : Table K V) where
  pub lookup-missing : (k : K) (ks : List K) → t k ≡ none → lookup dec k (multi_get_kv ks t) ≡ none
  unfolding multi_get_kv lookup
  lookup-missing k [] h = refl
  lookup-missing k (j ∷ ks) h = elim (Option-cases (t j)) [
    | inl missing ↦ rw missing (lookup-missing k ks h)
    | inr (v, found) ↦ rw found (elim (dec k j) [
      | yes same ↦ cc (rw same at h)
      | no other ↦ rw (if_neg (dec k j) other) (lookup-missing k ks h)
    ])
  ]

  pub lookup-with_found :
      (j k : K) (rest : List (K × V))
      → lookup dec j rest ≡ t j
      → lookup dec j (with_found k (t k) rest) ≡ t j
  unfolding lookup
  lookup-with_found j k rest h = elim (Option-cases (t k)) [
    | inl missing ↦ rw missing h
    | inr (v, found) ↦ rw found (elim (dec j k) [
      | yes same ↦ rw (if_pos (dec j k) same (some v) (lookup dec j rest), same) (sym found)
      | no other ↦ rw (if_neg (dec j k) other (some v) (lookup dec j rest)) h
    ])
  ]

  pub lookup-head :
      (k : K) (ks : List K) → lookup dec k (with_found k (t k) (multi_get_kv ks t)) ≡ t k
  unfolding lookup
  lookup-head k ks = elim (Option-cases (t k)) [
    | inl missing ↦ rw missing (lookup-missing k ks missing)
    | inr (v, found) ↦
        rw (found, if_pos (dec k k) refl (some v) (lookup dec k (multi_get_kv ks t))) refl
  ]

  -- What `multi_get_kv` collects has the table's value at every key that was asked for.
  pub All-lookup : (ks : List K) → All (λ k. lookup dec k (multi_get_kv ks t) ≡ t k) ks
  unfolding multi_get_kv
  All-lookup [] = tt
  All-lookup (k ∷ ks) = (
    lookup-head k ks,
    All-map (λ j. lookup dec j (multi_get_kv ks t) ≡ t j) _ ks
        (λ j h. lookup-with_found j k (multi_get_kv ks t) h) (All-lookup ks),
  )
