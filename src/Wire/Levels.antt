-- ===== src/Wire/Levels.antt =====
-- The levels of the tree of `merkle_root` of packages/new-blk-parser/src/utils/mod.rs.
use wjk_20_indexer.Prelude.{
  ◌+◌, ◌/◌, ◌%◌, ◌<◌, ◌≡◌, refl, ap, ◌∙◌, Bool-cases, inl, inr, some, List, [], ◌∷◌, ◌++◌, Bytes,
  length, ◌==◌, ==_iff, ok, arith,
}
use wjk_20_indexer.Wire.Merkle.{hash_pairs, last, merkle_level}

-- A level of the tree: pairs from the left, and a last hash without a partner with itself.
abbrev pub pair_up : (Bytes → Bytes) → List Bytes → List Bytes
pair_up hash [] = []
pair_up hash (a ∷ []) = hash (a ++ a) ∷ []
pair_up hash (a ∷ b ∷ rest) = hash (a ++ b) ∷ pair_up hash rest

-- The root of the tree over some hashes.
pub data IsRoot (hash : Bytes → Bytes) : List Bytes → Bytes → Type 0 where
  one : (a : Bytes) → IsRoot hash (a ∷ []) a
  level :
      (a b : Bytes) (rest : List Bytes) (root : Bytes)
      → IsRoot hash (pair_up hash (a ∷ b ∷ rest)) root
      → IsRoot hash (a ∷ b ∷ rest) root

module _ (hash : Bytes → Bytes) where
  last-some : (a : Bytes) (hs : List Bytes) → (l : Bytes) × (last (a ∷ hs) ≡ some l)
  last-some a [] = (a, refl)
  last-some a (b ∷ hs) = last-some b hs

  nonempty : (hs : List Bytes) → 0 < length hs → (n : Bytes) × (ns : List Bytes) × (hs ≡ n ∷ ns)
  nonempty [] h = absurd (omega arith)
  nonempty (n ∷ ns) h = (n, ns, refl)

  pub hash_pairs-append :
      (xs ys : List Bytes)
      → length xs % 2 ≡ 0
      → hash_pairs hash (xs ++ ys) ≡ hash_pairs hash xs ++ hash_pairs hash ys
  unfolding hash_pairs
  hash_pairs-append [] ys h = refl
  hash_pairs-append (a ∷ []) ys h = absurd (omega arith)
  hash_pairs-append (a ∷ b ∷ xs) ys h =
      ap (◌∷◌ (hash (a ++ b))) (hash_pairs-append xs ys (omega arith))

  pub last-append : (xs : List Bytes) (x : Bytes) → last (xs ++ (x ∷ [])) ≡ some x
  last-append [] x = refl
  last-append (a ∷ []) x = refl
  last-append (a ∷ b ∷ xs) x = last-append (b ∷ xs) x

  hash_pairs-even : (hs : List Bytes) → length hs % 2 ≡ 0 → hash_pairs hash hs ≡ pair_up hash hs
  unfolding hash_pairs
  hash_pairs-even [] h = refl
  hash_pairs-even (a ∷ []) h = absurd (omega arith)
  hash_pairs-even (a ∷ b ∷ rest) h =
      ap (◌∷◌ (hash (a ++ b))) (hash_pairs-even rest (omega (arith, h)))

  hash_pairs-odd :
      (hs : List Bytes) (l : Bytes)
      → length hs % 2 ≡ 1
      → last hs ≡ some l
      → hash_pairs hash hs ++ (hash (l ++ l) ∷ []) ≡ pair_up hash hs
  unfolding hash_pairs
  hash_pairs-odd [] l h e = absurd (omega arith)
  hash_pairs-odd (a ∷ []) l h e = let same : a ≡ l = cc e in rw same refl
  hash_pairs-odd (a ∷ b ∷ []) l h e = absurd (omega arith)
  hash_pairs-odd (a ∷ b ∷ c ∷ rest) l h e =
      ap (◌∷◌ (hash (a ++ b))) (hash_pairs-odd (c ∷ rest) l (omega (arith, h)) e)

  merkle_level-pair_up :
      (a : Bytes) (hs : List Bytes) → merkle_level hash (a ∷ hs) ≡ ok (pair_up hash (a ∷ hs))
  unfolding merkle_level
  merkle_level-pair_up a hs = elim (Bool-cases (length (a ∷ hs) % 2 == 1)) [
    | inl odd ↦
        let (l, e) = last-some a hs in
        rw (odd, e) (ap ok (hash_pairs-odd (a ∷ hs) l ((==_iff (length (a ∷ hs) % 2) 1).0 odd) e))
    | inr even ↦
        let o : length (a ∷ hs) % 2 ≡ 0 = ground arith in
        rw even (ap ok (hash_pairs-even (a ∷ hs) o))
  ]

  length-pair_up : (hs : List Bytes) → length (pair_up hash hs) ≡ (length hs + 1) / 2
  length-pair_up [] = omega arith
  length-pair_up (a ∷ []) = omega arith
  length-pair_up (a ∷ b ∷ rest) = omega (arith, length-pair_up rest)

  -- A level of some hashes has half as many, rounded up.
  pub merkle_level_lem :
      (a : Bytes) (hs : List Bytes)
      → (n : Bytes) × (ns : List Bytes) × (merkle_level hash (a ∷ hs) ≡ ok (n ∷ ns))
        × (length ns ≡ length hs / 2)
        × (pair_up hash (a ∷ hs) ≡ n ∷ ns)
  merkle_level_lem a hs =
      let count = length-pair_up (a ∷ hs) in
      let (n, ns, some_n) = nonempty (pair_up hash (a ∷ hs)) (omega (arith, count)) in
      (
        n,
        ns,
        merkle_level-pair_up a hs ∙ ap ok some_n,
        omega (arith, count, ap length some_n),
        some_n,
      )
