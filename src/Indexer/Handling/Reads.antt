-- ===== src/Indexer/Handling/Reads.antt =====
-- What `handle_block` of src/inscriptions/indexer.rs has read of the tables when it returns.
use wjk_20_indexer.Prelude.{
  ◌≡◌, refl, none, some, Option-cases, Bool-cases, inl, inr, List, [], ◌∷◌, Map, Option, lookup, ok,
  if_pos, if_neg, if◌then◌else◌, arith,
}
use wjk_20_indexer.Tokens.Types.{OutPoint, OutPoint-discrete}
use wjk_20_indexer.Db.Types.{TxPrevout}
use wjk_20_indexer.Store.{Table, multi_get_kv}
use wjk_20_indexer.Store.Laws.{keys, written, contains, or_else, written-multi_get_kv, written-none}
use wjk_20_indexer.Parser.Spent.{find_spent, first_some}
use wjk_20_indexer.Reorg.Data.{spent_prevouts}

module _ {K V : Type 0} (dec : Discrete K) where
  -- What is read without a panic is what the table has at the keys that are read.
  pub multi_get_kv-known :
      (k : K) (ks : List K) (t : Table K V)
      → written dec k (multi_get_kv ks t)
        ≡ (if contains dec k (keys (multi_get_kv ks t)) then t k else none)
  multi_get_kv-known k ks t =
      let at = written-multi_get_kv dec k ks t in
      let here = written-none dec k (multi_get_kv ks t) in
      elim (Bool-cases (contains dec k ks)) [
        | inl read ↦ ground (arith, at, here, read)
        | inr unread ↦ ground (arith, at, here, unread)
      ]

  -- A key of a map is one of its writes.
  pub written_of_lookup :
      (k : K) (m : Map K V) (v : V) → lookup dec k m ≡ some v → (w : V) × (written dec k m ≡ some w)
  unfolding lookup
  written_of_lookup k [] v e = cc
  written_of_lookup k ((j, u) ∷ m) v e = elim (dec k j) [
    | yes same ↦ elim (Option-cases (written dec k m)) [
      | inl missing ↦ (u, rw (missing, if_pos {C = Option V} (dec k j) same (some u) none) refl)
      | inr (w, later) ↦ (w, rw later refl)
    ]
    | no other ↦
        let (w, later) =
          written_of_lookup k m v
            (rw (if_neg {C = Option V} (dec k j) other (some u) (lookup dec k m)) at e) in
        (w, rw later refl)
  ]

-- What a key is found under, in the table or else among the writes.
found_or_written :
    (k : OutPoint) (t : Table OutPoint TxPrevout) (created : Map OutPoint TxPrevout) (v : TxPrevout)
    → first_some (t k) (lookup OutPoint-discrete k created) ≡ some v
    → (w : TxPrevout) × (or_else (t k) (written OutPoint-discrete k created) ≡ some w)
found_or_written k t created v e = elim (Option-cases (t k)) [
  | inl missing ↦
      let (w, later) = written_of_lookup OutPoint-discrete k created v (rw missing at e) in
      (w, rw (missing, later) refl)
  | inr (a, found) ↦ (a, rw found refl)
]

-- The outputs that are found for the parser are found for the log too.
pub find_spent-spent_prevouts :
    (ks : List OutPoint) (t : Table OutPoint TxPrevout) (created m : Map OutPoint TxPrevout)
    → find_spent ks t created ≡ some m
    → (spent : List (OutPoint × TxPrevout)) × (spent_prevouts ks created t ≡ ok spent)
unfolding find_spent spent_prevouts
find_spent-spent_prevouts [] t created m e = ([], refl)
find_spent-spent_prevouts (k ∷ ks) t created m e =
    elim (Option-cases (first_some (t k) (lookup OutPoint-discrete k created))) [
      | inl missing ↦ cc (rw missing at e)
      | inr (v, here) ↦ elim (Option-cases (find_spent ks t created)) [
        | inl failed ↦ cc (rw (here, failed) at e)
        | inr (rest, later) ↦
            let (w, known) = found_or_written k t created v here in
            let (spent, all) = find_spent-spent_prevouts ks t created rest later in
            ((k, w) ∷ spent, rw (spent_prevouts, known, all) refl)
      ]
    ]
