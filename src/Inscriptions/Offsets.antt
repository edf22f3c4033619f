-- ===== src/Inscriptions/Offsets.antt =====
-- `InscriptionSearcher` of src/inscriptions/searcher.rs: where the inputs of a transaction start
-- among the outputs, and in which output a position lies.
pub mod Found
pub mod Starts
use wjk_20_indexer.Prelude.{
  ℕ, zero, suc, ◌+◌, ◌-◌, ◌*◌, ◌%◌, ◌^◌, ◌≤◌, ◌<◌, ◌≡◌, refl, sym, ap, ◌∙◌, Option, none, some,
  List, [], ◌∷◌, ◌++◌, map, Map, lookup, length, get_elem?, take, ltb, leb, if◌then◌else◌, arith,
  Bool, true, false, Bool-cases, inl, inr, append-nil, append_assoc, length-append,
}
use wjk_20_indexer.Tokens.Types.{OutPoint, OutPoint-discrete}
use wjk_20_indexer.Db.Types.{TxPrevout}
use wjk_20_indexer.Inscriptions.Types.{
  TxIn, TxOut, Tx, add_u64, sub_u64, sum, sum_u64, values, start_of, sum-append, sub_u64_lem,
  add_u64_lem,
}

abbrev pub cons_value : Option TxPrevout → Option (List ℕ) → Option (List ℕ)
cons_value (some p) (some vs) = some (p.value ∷ vs)
cons_value none vs = none
cons_value (some p) none = none

-- `.map(|x| tx_outs.get(&x.outpoint).map(|x| x.value)).collect::<Option<_>>()`
unfoldable pub input_values : List TxIn → Map OutPoint TxPrevout → Option (List ℕ)
input_values [] tx_outs = some []
input_values (x ∷ xs) tx_outs =
    cons_value (lookup OutPoint-discrete x.outpoint tx_outs) (input_values xs tx_outs)

abbrev pub reverse {ℓ} : {A : Type ℓ} → List A → List A
reverse [] = []
reverse (x ∷ xs) = reverse xs ++ (x ∷ [])

-- `while let Some(input) = input_values.pop()`, the last value first.
unfoldable pub pop_fee : ℕ → List ℕ → List ℕ
pop_fee fee [] = []
pop_fee fee (input ∷ rest) =
    if ltb fee input then sub_u64 input fee ∷ rest else pop_fee (sub_u64 fee input) rest

-- `fold(vec![0], ..)`
unfoldable pub prefix_sums : ℕ → List ℕ → List ℕ
prefix_sums last [] = last ∷ []
prefix_sums last (x ∷ xs) = last ∷ prefix_sums (add_u64 last x) xs

abbrev pub pop {ℓ} : {A : Type ℓ} → List A → List A
pop [] = []
pop (x ∷ []) = []
pop (x ∷ y ∷ xs) = x ∷ pop (y ∷ xs)

unfoldable pub offsets_of_values : List ℕ → List ℕ → List ℕ
unfolding pop_fee prefix_sums
offsets_of_values ins outs =
    let fee = sub_u64 (sum_u64 ins) (sum_u64 outs) in
    pop (prefix_sums 0 (reverse (pop_fee fee (reverse ins))))

unfoldable pub calc_offsets : Tx → Map OutPoint TxPrevout → Option (List ℕ)
unfolding input_values offsets_of_values
calc_offsets tx tx_outs = elim (input_values tx.inputs tx_outs) [
  | none ↦ none
  | some ins ↦ some (offsets_of_values ins (values tx.outputs))
]

-- The loop over the outputs.
unfoldable pub find_output : ℕ → ℕ → List TxOut → Option (ℕ × ℕ)
find_output idx offset [] = none
find_output idx offset (o ∷ os) =
    if ltb offset o.value
    then some (idx % 2 ^ 32, offset)
    else find_output (idx + 1) (sub_u64 offset o.value) os

unfoldable pub get_output_index_by_input : Option ℕ → List TxOut → Option (ℕ × ℕ)
unfolding find_output
get_output_index_by_input none tx_outs = none
get_output_index_by_input (some offset) tx_outs =
    if leb (sum_u64 (values tx_outs)) offset then none else find_output 0 offset tx_outs
