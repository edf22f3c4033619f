-- ===== src/Parser/Prevouts.antt =====
-- What `process_prevouts` of src/inscriptions/utils.rs finds, and the parsing of a block with it.
use wjk_20_indexer.Prelude.{
  ℕ, ◌≡◌, refl, sym, subst, Bool, true, false, Bool-cases, Option-cases, inl, inr, some, List, [],
  ◌∷◌, Bytes, Map, lookup, insert, lookup-insert, All, if_pos, if_neg, Results,
}
use wjk_20_indexer.Store.{Table}
use wjk_20_indexer.Tokens.Platform.{Platform}
use wjk_20_indexer.Tokens.Types.{FullHash, OutPoint, TokenCache, OutPoint-discrete}
use wjk_20_indexer.Db.{Db}
use wjk_20_indexer.Db.Types.{TxPrevout}
use wjk_20_indexer.Inscriptions.Types.{TxIn, Tx}
use wjk_20_indexer.Reorg.Data.{ProcessedData}
use wjk_20_indexer.Parser.{Context, is_coinbase}
use wjk_20_indexer.Parser.Blocks.{parse_block}
use wjk_20_indexer.Parser.Known.{IsSome, IsKnown, SpendsKnown}
use wjk_20_indexer.Parser.Keeps.{Keeps}
use wjk_20_indexer.Parser.Inputs.{parse_block-Keeps}
use wjk_20_indexer.Parser.Spent.{
  created_prevouts, without, unique, outpoints, spent_keys, first_some, find_spent,
  process_prevouts,
}

-- A key has the value of the table, or else of the block.
abbrev pub Found :
    Table OutPoint TxPrevout → Map OutPoint TxPrevout → Map OutPoint TxPrevout → OutPoint → Type 0
Found t created m k =
    IsSome (lookup OutPoint-discrete k m)
    × (lookup OutPoint-discrete k m ≡ first_some (t k) (lookup OutPoint-discrete k created))

Found-insert :
    (t : Table OutPoint TxPrevout) (created m : Map OutPoint TxPrevout) (k : OutPoint)
    (v : TxPrevout) (ks : List OutPoint)
    → first_some (t k) (lookup OutPoint-discrete k created) ≡ some v
    → All (Found t created m) ks
    → All (Found t created (insert OutPoint-discrete k v m)) ks
Found-insert t created m k v [] e h = tt
Found-insert t created m k v (j ∷ js) e h = (
  rw (lookup-insert OutPoint-discrete j k v m) (elim (OutPoint-discrete j k) [
    | yes same ↦ rw (if_pos (OutPoint-discrete j k) same) (tt, rw same (sym e))
    | no other ↦ rw (if_neg (OutPoint-discrete j k) other) h.0
  ]),
  Found-insert t created m k v js e h.1,
)

find_spent-Found :
    (ks : List OutPoint) (t : Table OutPoint TxPrevout) (created m : Map OutPoint TxPrevout)
    → find_spent ks t created ≡ some m
    → All (Found t created m) ks
unfolding find_spent
find_spent-Found [] t created m h = tt
find_spent-Found (k ∷ ks) t created m h =
    elim (Option-cases (first_some (t k) (lookup OutPoint-discrete k created))) [
      | inl missing ↦ cc (rw missing at h)
      | inr (v, e) ↦ elim (Option-cases (find_spent ks t created)) [
        | inl failed ↦ cc (rw (e, failed) at h)
        | inr (rest, e2) ↦
            let q : some (insert OutPoint-discrete k v rest) ≡ some m = rw (e, e2) at h in
            let same : insert OutPoint-discrete k v rest ≡ m = cc in
            let here : lookup OutPoint-discrete k (insert OutPoint-discrete k v rest) ≡ some v =
              rw (lookup-insert OutPoint-discrete k k v rest)
                (if_pos (OutPoint-discrete k k) refl (some v) (lookup OutPoint-discrete k rest)) in
            subst (λ (n : Map OutPoint TxPrevout). All (Found t created n) (k ∷ ks)) same
              (
                (rw here tt, rw (here, e) refl),
                Found-insert t created rest k v ks e (find_spent-Found ks t created rest e2),
              )
      ]
    ]

All-without :
    (P : OutPoint → Type 0) (k : OutPoint) (ks : List OutPoint)
    → P k
    → All P (without k ks)
    → All P ks
All-without P k [] pk h = tt
All-without P k (j ∷ js) pk h = elim (OutPoint-discrete j k) [
  | yes same ↦ (rw same pk, All-without P k js pk (rw (if_pos (OutPoint-discrete j k) same) at h))
  | no other ↦
      let h' = rw (if_neg (OutPoint-discrete j k) other) at h in (h'.0, All-without P k js pk h'.1)
]

All-unique : (P : OutPoint → Type 0) (ks : List OutPoint) → All P (unique ks) → All P ks
All-unique P [] h = tt
All-unique P (k ∷ ks) h = (h.0, All-unique P ks (All-without P k (unique ks) h.0 h.1))

All-outpoints :
    (P : OutPoint → Type 0) (is : List TxIn) (rest : List OutPoint)
    → All P (outpoints is rest)
    → All (λ i. P i.outpoint) is × All P rest
All-outpoints P [] rest h = (tt, h)
All-outpoints P (i ∷ is) rest h = let (a, b) = All-outpoints P is rest h.1 in ((h.0, a), b)

-- What all but coinbases spend is in `P`.
abbrev pub Spends : (OutPoint → Type 0) → Tx → Type 0
Spends P tx = is_coinbase tx ≡ false → All (λ i. P i.outpoint) tx.inputs

All-spent_keys :
    (P : OutPoint → Type 0) (txs : List Tx) → All P (spent_keys txs) → All (Spends P) txs
unfolding spent_keys
All-spent_keys P [] h = tt
All-spent_keys P (tx ∷ txs) h = elim (Bool-cases (is_coinbase tx)) [
  | inl coinbase ↦ ((λ plain. cc), All-spent_keys P txs (rw coinbase at h))
  | inr plain ↦
      let (a, b) = All-outpoints P tx.inputs (spent_keys txs) (rw plain at h) in
      ((λ q. a), All-spent_keys P txs b)
]

module _ {Amount : Type 0} (is_provably_unspendable : Bytes → Bool)
    (sha256 : Bytes → FullHash) where
  -- When all that a block spends is found, each output that it spends, but for coinbases, is in the
  -- result with its value in the table, or else with the value that the block gives it.
  pub process_prevouts-Found :
      (db : Db Amount) (txs : List Tx) (result : Map OutPoint TxPrevout) (pd : ProcessedData Amount)
      → process_prevouts is_provably_unspendable sha256 db txs ≡ some (result, pd)
      → All
          (Spends
            (Found db.prevouts (created_prevouts is_provably_unspendable sha256 txs []) result))
          txs
  unfolding process_prevouts
  process_prevouts-Found db txs result pd h =
      let created = created_prevouts is_provably_unspendable sha256 txs [] in
      let keys = unique (spent_keys txs) in
      elim (Option-cases (find_spent keys db.prevouts created)) [
        | inl failed ↦ cc (rw failed at h)
        | inr (m, e) ↦
            let q : some (m, ProcessedData.prevouts created keys) ≡ some (result, pd) = rw e at h in
            let same : m ≡ result = cc in
            All-spent_keys (Found db.prevouts created result) txs (
              All-unique (Found db.prevouts created result) (spent_keys txs) (
                subst (λ (n : Map OutPoint TxPrevout). All (Found db.prevouts created n) keys) same
                  (find_spent-Found keys db.prevouts created m e)))
      ]

All-IsKnown :
    (t : Table OutPoint TxPrevout) (created m : Map OutPoint TxPrevout) (is : List TxIn)
    → All (λ i. Found t created m i.outpoint) is
    → All (IsKnown m) is
All-IsKnown t created m [] h = tt
All-IsKnown t created m (i ∷ is) h = (h.0.0, All-IsKnown t created m is h.1)

All-SpendsKnown :
    (t : Table OutPoint TxPrevout) (created m : Map OutPoint TxPrevout) (txs : List Tx)
    → All (Spends (Found t created m)) txs
    → All (SpendsKnown m) txs
All-SpendsKnown t created m [] h = tt
All-SpendsKnown t created m (tx ∷ txs) h =
    ((λ plain. All-IsKnown t created m tx.inputs (h.0 plain)), All-SpendsKnown t created m txs h.1)

module _ (p : Platform) (x : Context p) (is_provably_unspendable : Bytes → Bool) where
  open p use {Amount}

  -- A block that starts with a coinbase is parsed without a panic once `process_prevouts` has found
  -- what it spends, and leaves the tokens, the accounts and the valid transfers of the cache.
  pub process_prevouts-parse_block :
      (height timestamp : ℕ) (coinbase : Tx) (txs : List Tx) (db : Db Amount)
      (c : TokenCache Amount) (result : Map OutPoint TxPrevout) (pd : ProcessedData Amount)
      → is_coinbase coinbase ≡ true
      → process_prevouts is_provably_unspendable x.sha256 db (coinbase ∷ txs) ≡ some (result, pd)
      → Results
          (λ (r : TokenCache Amount × List (ProcessedData Amount)). Keeps p c r.0)
          (parse_block p x height
            (record { timestamp = timestamp; txs = coinbase ∷ txs })
            result
            db
            c)
  process_prevouts-parse_block height timestamp coinbase txs db c result pd first h =
      parse_block-Keeps p x result height timestamp coinbase txs db c first (
        All-SpendsKnown db.prevouts
          (created_prevouts is_provably_unspendable x.sha256 (coinbase ∷ txs) []) result txs
          (process_prevouts-Found is_provably_unspendable x.sha256 db (coinbase ∷ txs) result pd
            h).1)
