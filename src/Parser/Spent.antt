-- ===== src/Parser/Spent.antt =====
-- `process_prevouts` of src/inscriptions/utils.rs: the outputs that a block creates and those that it spends.
use wjk_20_indexer.Prelude.{
  ℕ, ◌+◌, ◌%◌, ◌^◌, Bool, Option, none, some, List, [], ◌∷◌, Bytes, Map, lookup, insert, ite,
  if◌then◌else◌,
}
use wjk_20_indexer.Store.{Table}
use wjk_20_indexer.Tokens.Types.{FullHash, OutPoint, OutPoint-discrete}
use wjk_20_indexer.Db.{Db}
use wjk_20_indexer.Db.Types.{TxPrevout}
use wjk_20_indexer.Inscriptions.Types.{TxIn, TxOut, Tx}
use wjk_20_indexer.Reorg.Data.{ProcessedData}
use wjk_20_indexer.Parser.{is_coinbase}

module _ (is_provably_unspendable : Bytes → Bool) (sha256 : Bytes → FullHash) where
  -- The spendable outputs of a transaction from number `vout` on, put into the map
  unfoldable pub created_outputs :
      Tx → ℕ → List TxOut → Map OutPoint TxPrevout → Map OutPoint TxPrevout
  created_outputs tx vout [] m = m
  created_outputs tx vout (o ∷ os) m = created_outputs tx (vout + 1) os (
      if is_provably_unspendable o.script_pubkey
      then m
      else insert OutPoint-discrete (record { txid = tx.hash; vout = vout % 2 ^ 32 })
          (record { script_hash = sha256 o.script_pubkey; value = o.value }) m)

  unfoldable pub created_prevouts : List Tx → Map OutPoint TxPrevout → Map OutPoint TxPrevout
  unfolding created_outputs
  created_prevouts [] m = m
  created_prevouts (tx ∷ txs) m = created_prevouts txs (created_outputs tx 0 tx.outputs m)

abbrev pub without : OutPoint → List OutPoint → List OutPoint
without k [] = []
without k (j ∷ js) = ite (OutPoint-discrete j k) (without k js) (j ∷ without k js)

-- `.unique()`
abbrev pub unique : List OutPoint → List OutPoint
unique [] = []
unique (k ∷ ks) = k ∷ without k (unique ks)

abbrev pub outpoints : List TxIn → List OutPoint → List OutPoint
outpoints [] rest = rest
outpoints (i ∷ is) rest = i.outpoint ∷ outpoints is rest

-- `txids_keys`, before `unique`: what all but coinbases spend
unfoldable pub spent_keys : List Tx → List OutPoint
unfolding is_coinbase
spent_keys [] = []
spent_keys (tx ∷ txs) =
    if is_coinbase tx then spent_keys txs else outpoints tx.inputs (spent_keys txs)

abbrev pub first_some : Option TxPrevout → Option TxPrevout → Option TxPrevout
first_some none o = o
first_some (some v) o = some v

abbrev pub insert_some :
    OutPoint → Option TxPrevout → Option (Map OutPoint TxPrevout) → Option (Map OutPoint TxPrevout)
insert_some k none rest = none
insert_some k (some v) none = none
insert_some k (some v) (some m) = some (insert OutPoint-discrete k v m)

-- The loop over the keys: from the table, or of this block, or an error.
unfoldable pub find_spent :
    List OutPoint
    → Table OutPoint TxPrevout
    → Map OutPoint TxPrevout
    → Option (Map OutPoint TxPrevout)
find_spent [] t created = some []
find_spent (k ∷ ks) t created =
    insert_some k (first_some (t k) (lookup OutPoint-discrete k created)) (find_spent ks t created)

module _ {Amount : Type 0} (is_provably_unspendable : Bytes → Bool)
    (sha256 : Bytes → FullHash) where
  abbrev pub with_write :
      Map OutPoint TxPrevout
      → List OutPoint
      → Option (Map OutPoint TxPrevout)
      → Option (Map OutPoint TxPrevout × ProcessedData Amount)
  with_write created keys none = none
  with_write created keys (some result) = some (result, ProcessedData.prevouts created keys)

  unfoldable pub process_prevouts :
      Db Amount → List Tx → Option (Map OutPoint TxPrevout × ProcessedData Amount)
  unfolding created_prevouts spent_keys find_spent
  process_prevouts db txs =
      let created = created_prevouts is_provably_unspendable sha256 txs [] in
      let keys = unique (spent_keys txs) in
      with_write created keys (find_spent keys db.prevouts created)
