-- ===== src/Inscriptions/Leaked.antt =====
-- `LeakedInscriptions` of src/inscriptions/leaked.rs: the inscriptions of a block that are spent on
-- fees, by their position among the fees, and where the coinbase transaction puts them.
pub mod Known
pub mod Position
use wjk_20_indexer.Prelude.{
  ℕ, zero, suc, ◌+◌, ◌-◌, ◌*◌, ◌%◌, ◌^◌, Option, none, some, List, [], ◌∷◌, ◌++◌, Map, lookup,
  insert, get_elem?, ltb, if◌then◌else◌, Outcome, ok, panic, ◌>>=◌, ℕ_discrete,
}
use wjk_20_indexer.Tokens.Types.{OutPoint, Location, OutPoint-discrete}
use wjk_20_indexer.Db.Types.{TxPrevout}
use wjk_20_indexer.Inscriptions.Types.{TxIn, TxOut, Tx, add_u64, sub_u64, sum, sum_u64, values}

pub data LeakedInscription : Type 0 where
  creation move : LeakedInscription

pub record LeakedInscriptions : Type 0 where
  pub inscriptions : Map ℕ (List LeakedInscription)
  pub total_amount : ℕ
  pub coinbase_tx : Tx
  pub coinbase_reward : Option ℕ

-- `LeakedInscriptions::new`
abbrev pub new : Tx → LeakedInscriptions
new coinbase_tx = record {
  inscriptions = [];
  total_amount = 0;
  coinbase_tx = coinbase_tx;
  coinbase_reward = none;
}

-- `.unwrap()`
abbrev pub unwrap {ℓ} : {A : Type ℓ} → Option A → Outcome A
unwrap none = panic
unwrap (some a) = ok a

-- `tx_outs.get(&x.outpoint).unwrap().value` of every input
unfoldable pub known_values : List TxIn → Map OutPoint TxPrevout → Outcome (List ℕ)
known_values [] tx_outs = ok []
known_values (x ∷ xs) tx_outs = do
  p ← unwrap (lookup OutPoint-discrete x.outpoint tx_outs)
  vs ← known_values xs tx_outs
  ok (p.value ∷ vs)

-- `inputs_cum`: the running sums of the values.
unfoldable pub running : ℕ → List ℕ → List ℕ
running last [] = []
running last (v ∷ vs) = add_u64 last v ∷ running (add_u64 last v) vs

abbrev pub last_of : List ℕ → Option ℕ
last_of [] = none
last_of (x ∷ []) = some x
last_of (x ∷ y ∷ xs) = last_of (y ∷ xs)

pub record FeeResult : Type 0 where
  pub fee : ℕ
  pub fee_offset : ℕ

unfoldable pub find_fee : Tx → ℕ → ℕ → Map OutPoint TxPrevout → Outcome FeeResult
unfolding known_values running
find_fee tx input_idx input_offset tx_outs = do
  vs ← known_values tx.inputs tx_outs
  let inputs_cum = running 0 vs
  let output_sum = sum_u64 (values tx.outputs)
  input_sum ← unwrap (last_of inputs_cum)
  input ← unwrap (get_elem? tx.inputs input_idx)
  prev_out ← unwrap (lookup OutPoint-discrete input.outpoint tx_outs)
  cum ← unwrap (get_elem? inputs_cum input_idx)
  ok (record {
    fee = sub_u64 input_sum output_sum;
    fee_offset = sub_u64 (add_u64 (sub_u64 cum prev_out.value) input_offset) output_sum;
  })

-- `entry(..).and_modify(..).or_insert(..)`
abbrev pub push_at :
    ℕ → LeakedInscription → Map ℕ (List LeakedInscription) → Map ℕ (List LeakedInscription)
push_at k x m = elim (lookup ℕ_discrete k m) [
  | none ↦ insert ℕ_discrete k (x ∷ []) m
  | some xs ↦ insert ℕ_discrete k (xs ++ (x ∷ [])) m
]

unfoldable pub add :
    ℕ
    → Tx
    → ℕ
    → Map OutPoint TxPrevout
    → LeakedInscription
    → LeakedInscriptions
    → Outcome LeakedInscriptions
unfolding find_fee
add input_idx tx input_offset tx_outs inscription s = do
  r ← find_fee tx input_idx input_offset tx_outs
  let diff = sub_u64 r.fee r.fee_offset
  ok (record s { inscriptions = push_at (sub_u64 s.total_amount diff) inscription s.inscriptions })

unfoldable pub add_tx_fee :
    Tx → Map OutPoint TxPrevout → LeakedInscriptions → Outcome LeakedInscriptions
unfolding known_values
add_tx_fee tx txos s = do
  vs ← known_values tx.inputs txos
  ok (record s {
    total_amount = add_u64 s.total_amount (sub_u64 (sum_u64 vs) (sum_u64 (values tx.outputs)));
  })

-- `update_reward`
unfoldable pub update_reward : LeakedInscriptions → LeakedInscriptions
update_reward s = record s {
  coinbase_reward = some (sub_u64 (sum_u64 (values s.coinbase_tx.outputs)) s.total_amount);
}

-- The loop of `find_inscription_vout`
unfoldable pub find_vout : ℕ → ℕ → List TxOut → Option (ℕ × ℕ)
find_vout i offset [] = none
find_vout i offset (o ∷ os) =
    if ltb offset o.value
    then some (i % 2 ^ 32, offset)
    else find_vout (i + 1) (sub_u64 offset o.value) os

unfoldable pub find_inscription_vout : LeakedInscriptions → ℕ → Outcome (Option (ℕ × ℕ))
unfolding find_vout
find_inscription_vout s offset = do
  reward ← unwrap s.coinbase_reward
  ok (find_vout 0 (add_u64 offset reward) s.coinbase_tx.outputs)

-- The inscriptions at one position, each at the place that is found for it, if any.
abbrev pub with_locations :
    Tx → Option (ℕ × ℕ) → List LeakedInscription → List Location → List Location
with_locations tx found [] rest = rest
with_locations tx none (x ∷ xs) rest = with_locations tx none xs rest
with_locations tx (some (vout, offset)) (x ∷ xs) rest =
    record { outpoint = record { txid = tx.hash; vout = vout }; offset = offset }
    ∷ with_locations tx (some (vout, offset)) xs rest

unfoldable pub locations :
    LeakedInscriptions → Map ℕ (List LeakedInscription) → Outcome (List Location)
unfolding find_inscription_vout
locations s [] = ok []
locations s ((offset, xs) ∷ m) = do
  found ← find_inscription_vout s offset
  rest ← locations s m
  ok (with_locations s.coinbase_tx found xs rest)

unfoldable pub get_leaked_inscriptions : LeakedInscriptions → Outcome (List Location)
unfolding update_reward locations
get_leaked_inscriptions s = let t = update_reward s in locations t t.inscriptions
