-- ===== src/Wire/Roots.antt =====
-- `merkle_root` of packages/new-blk-parser/src/utils/mod.rs: its tree, and what it does not tell
-- apart.
use wjk_20_indexer.Prelude.{
  ℕ, zero, suc, ◌+◌, ◌%◌, ◌<◌, ◌≡◌, refl, sym, ap, subst, ◌∙◌, true, false, List, [], ◌∷◌, ◌++◌,
  append-nil, map, map-append, length-map, Bytes, length, length-append, lt→ltb, ◌==◌, ok, panic,
  arith,
}
use wjk_20_indexer.Wire.Types.{Hashed}
use wjk_20_indexer.Wire.Block.{Hashing, EvaluatedTx, Block, compute_merkle_root, verify_merkle_root}
use wjk_20_indexer.Wire.Levels.{
  IsRoot, one, level, hash_pairs-append, last-append, merkle_level_lem,
}
use wjk_20_indexer.Wire.Merkle.{hash_pairs, merkle_level, merkle_loop, merkle_root}

module _ (hash : Bytes → Bytes) where
  merkle_loop-step :
      (fuel : ℕ) (hs news : List Bytes)
      → 1 < length hs
      → merkle_level hash hs ≡ ok news
      → merkle_loop hash (suc fuel) hs ≡ merkle_loop hash fuel news
  unfolding merkle_loop
  merkle_loop-step fuel hs news more e = ground (arith, lt→ltb 1 (length hs), e)

  merkle_loop-IsRoot :
      (fuel : ℕ) (a : Bytes) (hs : List Bytes)
      → length hs < fuel
      → (root : Bytes) × (merkle_loop hash fuel (a ∷ hs) ≡ ok root) × IsRoot hash (a ∷ hs) root
  unfolding merkle_loop
  merkle_loop-IsRoot zero a hs h = absurd (omega arith)
  merkle_loop-IsRoot (suc fuel) a [] h = (a, refl, one a)
  merkle_loop-IsRoot (suc fuel) a (b ∷ hs) h =
      let (n, ns, e, l, up) = merkle_level_lem hash a (b ∷ hs) in
      let (root, r, is) = merkle_loop-IsRoot fuel n ns (omega (arith, l, h)) in
      (
        root,
        merkle_loop-step fuel (a ∷ b ∷ hs) (n ∷ ns) (omega arith) e ∙ r,
        level a b hs root (subst (λ (xs : List Bytes). IsRoot hash xs root) (sym up) is),
      )

  -- More fuel gives the same.
  merkle_loop-suc :
      (fuel : ℕ) (a : Bytes) (hs : List Bytes)
      → length hs < fuel
      → merkle_loop hash (suc fuel) (a ∷ hs) ≡ merkle_loop hash fuel (a ∷ hs)
  unfolding merkle_loop
  merkle_loop-suc zero a hs h = absurd (omega arith)
  merkle_loop-suc (suc fuel) a [] h = refl
  merkle_loop-suc (suc fuel) a (b ∷ hs) h =
      let (n, ns, e, l, up) = merkle_level_lem hash a (b ∷ hs) in
      merkle_loop-step (suc fuel) (a ∷ b ∷ hs) (n ∷ ns) (omega arith) e
      ∙ (merkle_loop-suc fuel n ns (omega (arith, l, h))
          ∙ sym (merkle_loop-step fuel (a ∷ b ∷ hs) (n ∷ ns) (omega arith) e))

  -- `merkle_root` gives the root of the tree over every list of hashes that is not empty, in which the
  -- hashes of a level are paired from the left, a last one without a partner with itself, until one is
  -- left; it panics on no hashes.
  pub merkle_root-IsRoot :
      (a : Bytes) (hs : List Bytes)
      → (merkle_root hash [] ≡ panic)
        × ((root : Bytes) × (merkle_root hash (a ∷ hs) ≡ ok root) × IsRoot hash (a ∷ hs) root)
  unfolding merkle_root merkle_loop
  merkle_root-IsRoot a hs = (refl, merkle_loop-IsRoot (suc (length (a ∷ hs))) a hs (omega arith))

  -- The two levels above.
  merkle_level-twice :
      (xs : List Bytes) (x : Bytes)
      → length xs % 2 ≡ 0
      → merkle_level hash (xs ++ (x ∷ x ∷ [])) ≡ merkle_level hash (xs ++ (x ∷ []))
  unfolding merkle_level hash_pairs
  merkle_level-twice xs x h =
      let once : (length (xs ++ (x ∷ [])) % 2 == 1) ≡ true =
        ground (arith, length-append xs (x ∷ [])) in
      let twice : (length (xs ++ (x ∷ x ∷ [])) % 2 == 1) ≡ false =
        ground (arith, length-append xs (x ∷ x ∷ [])) in
      rw
        (
          once,
          twice,
          hash_pairs-append hash xs (x ∷ []) h,
          hash_pairs-append hash xs (x ∷ x ∷ []) h,
          last-append hash xs x,
        )
        (simp append-nil)

  merkle_root-fuel :
      (n : ℕ) (hs : List Bytes) → suc (length hs) ≡ n → merkle_root hash hs ≡ merkle_loop hash n hs
  unfolding merkle_root
  merkle_root-fuel n hs h = ap (λ (k : ℕ). merkle_loop hash k hs) h

  -- The root of two hashes at least and one more does not change when that one stands twice.
  pub merkle_root-twice :
      (a b : Bytes) (xs : List Bytes) (x : Bytes)
      → length xs % 2 ≡ 0
      → merkle_root hash (a ∷ b ∷ (xs ++ (x ∷ x ∷ [])))
        ≡ merkle_root hash (a ∷ b ∷ (xs ++ (x ∷ [])))
  merkle_root-twice a b xs x h =
      let once = length-append xs (x ∷ []) in
      let twice = length-append xs (x ∷ x ∷ []) in
      let short = a ∷ b ∷ (xs ++ (x ∷ [])) in
      let long = a ∷ b ∷ (xs ++ (x ∷ x ∷ [])) in
      let fuel = length xs + 3 in
      let (n, ns, e, l, up) = merkle_level_lem hash a (b ∷ (xs ++ (x ∷ []))) in
      merkle_root-fuel (suc (suc fuel)) long (omega (arith, twice))
      ∙ (merkle_loop-step (suc fuel) long (n ∷ ns) (omega arith)
            (merkle_level-twice (a ∷ b ∷ xs) x (omega (arith, h)) ∙ e)
          ∙ (merkle_loop-suc fuel n ns (omega (arith, l, once))
              ∙ sym (
                  merkle_root-fuel (suc fuel) short (omega (arith, once))
                  ∙ merkle_loop-step fuel short (n ∷ ns) (omega arith) e)))

module _ (s : Hashing) {Witness : Type 0} where
  open s use {Script}

  -- `verify_merkle_root` does not tell a block whose transactions are two, an even number of others and
  -- one more from the block with the same header that has the last transaction twice.
  pub verify_merkle_root-twice :
      (block block' : Block Witness Script) (a b : Hashed (EvaluatedTx Witness Script))
      (txs : List (Hashed (EvaluatedTx Witness Script))) (x : Hashed (EvaluatedTx Witness Script))
      → length txs % 2 ≡ 0
      → block.header ≡ block'.header
      → block.txs ≡ a ∷ b ∷ (txs ++ (x ∷ []))
      → block'.txs ≡ a ∷ b ∷ (txs ++ (x ∷ x ∷ []))
      → verify_merkle_root s block' ≡ verify_merkle_root s block
  unfolding verify_merkle_root compute_merkle_root
  verify_merkle_root-twice block block' a b txs x h eh e e' =
      rw
        (
          e,
          e',
          sym eh,
          map-append (λ (t : Hashed (EvaluatedTx Witness Script)). t.hash) txs (x ∷ []),
          map-append (λ (t : Hashed (EvaluatedTx Witness Script)). t.hash) txs (x ∷ x ∷ []),
          merkle_root-twice s.hash a.hash b.hash (map (λ t. t.hash) txs) x.hash (
              omega
                (arith, length-map (λ (t : Hashed (EvaluatedTx Witness Script)). t.hash) txs, h)),
        )
        refl
