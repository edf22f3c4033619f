-- ===== src/Parser/Known.antt =====
-- The outputs that a transaction spends are known: then nothing that src/inscriptions/leaked.rs and
-- src/inscriptions/searcher.rs look up is missing.
use wjk_20_indexer.Prelude.{
  ℕ, zero, suc, ◌+◌, ◌%◌, ◌^◌, ◌<◌, ◌≡◌, refl, Option-cases, leb, ap, subst, false, Bool-cases, inl,
  inr, Option, none, some, List, [], ◌∷◌, Map, lookup, All, length, get_elem?, ltb, Results,
  Results->>=, arith,
}
use wjk_20_indexer.Tokens.Types.{OutPoint, OutPoint-discrete, Location}
use wjk_20_indexer.Db.Types.{TxPrevout}
use wjk_20_indexer.Inscriptions.Types.{TxIn, TxOut, Tx, add_u64, sub_u64, values, sum_u64}
use wjk_20_indexer.Inscriptions.Offsets.{
  cons_value, input_values, calc_offsets, find_output, get_output_index_by_input,
}
use wjk_20_indexer.Parser.{is_coinbase}
use wjk_20_indexer.Inscriptions.Leaked.{
  LeakedInscription, LeakedInscriptions, unwrap, known_values, running, last_of, FeeResult,
  find_fee, add, add_tx_fee, update_reward, find_inscription_vout, locations,
  get_leaked_inscriptions,
}

abbrev pub IsSome {ℓ} : {A : Type ℓ} → Option A → Type 0
IsSome none = ⊥
IsSome (some a) = Unit

pub unwrap-returns : {A : Type 0} (o : Option A) → IsSome o → Results (λ a. o ≡ some a) (unwrap o)
unwrap-returns none h = absurd h
unwrap-returns (some a) h = refl

get_elem?-IsSome {ℓ} : {A : Type ℓ} (xs : List A) (i : ℕ) → i < length xs → IsSome (get_elem? xs i)
get_elem?-IsSome [] i h = absurd (omega arith)
get_elem?-IsSome (x ∷ xs) zero h = tt
get_elem?-IsSome (x ∷ xs) (suc i) h = get_elem?-IsSome xs i (omega arith)

length-running : (a : ℕ) (vs : List ℕ) → length (running a vs) ≡ length vs
unfolding running
length-running a [] = refl
length-running a (v ∷ vs) = ap suc (length-running (add_u64 a v) vs)

last_of-IsSome : (xs : List ℕ) → 0 < length xs → IsSome (last_of xs)
last_of-IsSome [] h = absurd (omega arith)
last_of-IsSome (x ∷ []) h = tt
last_of-IsSome (x ∷ y ∷ xs) h = last_of-IsSome (y ∷ xs) (omega arith)

-- The output that is found is there.
find_output-there :
    (os : List TxOut) (idx offset : ℕ) (found : ℕ × ℕ)
    → find_output idx offset os ≡ some found
    → (j : ℕ) × (found.0 ≡ (idx + j) % 2 ^ 32) × (j < length os)
unfolding find_output
find_output-there [] idx offset found h = cc
find_output-there (o ∷ os) idx offset found h = elim (Bool-cases (ltb offset o.value)) [
  | inl here ↦
      let e : some (idx % 2 ^ 32, offset) ≡ some found = rw here at h in
      let q : (idx % 2 ^ 32, offset) ≡ found = cc in
      (0, omega (arith, ap (λ (f : ℕ × ℕ). f.0) q), omega arith)
  | inr later ↦
      let (j, e, l) =
        find_output-there os (idx + 1) (sub_u64 offset o.value) found (rw later at h) in
      (j + 1, omega (arith, e), omega (arith, l))
]

pub output-there :
    (offset : Option ℕ) (os : List TxOut) (found : ℕ × ℕ)
    → get_output_index_by_input offset os ≡ some found
    → IsSome (get_elem? os found.0)
unfolding get_output_index_by_input
output-there none os found h = cc
output-there (some offset) os found h = elim (Bool-cases (leb (sum_u64 (values os)) offset)) [
  | inl beyond ↦ cc (rw beyond at h)
  | inr within ↦
      let (j, e, l) = find_output-there os 0 offset found (rw within at h) in
      get_elem?-IsSome os found.0 (omega (arith, e, l))
]

cons-IsSome :
    (o : Option TxPrevout) (vs : Option (List ℕ)) → IsSome o → IsSome vs → IsSome (cons_value o vs)
cons-IsSome none vs h k = absurd h
cons-IsSome (some p) none h k = absurd k
cons-IsSome (some p) (some vs) h k = tt

module _ (m : Map OutPoint TxPrevout) where
  abbrev pub IsKnown : TxIn → Type 0
  IsKnown i = IsSome (lookup OutPoint-discrete i.outpoint m)

  -- The outputs that a transaction spends are known, unless it is a coinbase.
  abbrev pub SpendsKnown : Tx → Type 0
  SpendsKnown tx = is_coinbase tx ≡ false → All IsKnown tx.inputs

  pub known_values-returns :
      (xs : List TxIn) → All IsKnown xs → Results (λ vs. length vs ≡ length xs) (known_values xs m)
  unfolding known_values
  known_values-returns [] k = refl
  known_values-returns (i ∷ is) k =
      Results->>= (λ a. lookup OutPoint-discrete i.outpoint m ≡ some a)
        (λ (vs : List ℕ). length vs ≡ suc (length is))
        (unwrap (lookup OutPoint-discrete i.outpoint m)) _
        (unwrap-returns (lookup OutPoint-discrete i.outpoint m) k.0)
        λ a e.
          Results->>= (λ (vs : List ℕ). length vs ≡ length is)
            (λ (vs : List ℕ). length vs ≡ suc (length is)) (known_values is m) _
            (known_values-returns is k.1) λ vs l. ap suc l

  input_values-IsSome : (xs : List TxIn) → All IsKnown xs → IsSome (input_values xs m)
  unfolding input_values
  input_values-IsSome [] k = tt
  input_values-IsSome (i ∷ is) k =
      cons-IsSome (lookup OutPoint-discrete i.outpoint m) (input_values is m) k.0
        (input_values-IsSome is k.1)

  pub calc_offsets-IsSome : (tx : Tx) → All IsKnown tx.inputs → IsSome (calc_offsets tx m)
  unfolding calc_offsets
  calc_offsets-IsSome tx k = elim (Option-cases (input_values tx.inputs m)) [
    | inl missing ↦ absurd (subst IsSome missing (input_values-IsSome tx.inputs k))
    | inr (ins, e) ↦ rw (e, IsSome) tt
  ]

  input-IsKnown :
      (xs : List TxIn) (i : ℕ) (a : TxIn) → All IsKnown xs → get_elem? xs i ≡ some a → IsKnown a
  input-IsKnown [] i a k h = cc
  input-IsKnown (x ∷ xs) zero a k h = let e : x ≡ a = cc in subst IsKnown e k.0
  input-IsKnown (x ∷ xs) (suc i) a k h = input-IsKnown xs i a k.1 h

  find_fee-returns :
      (i : ℕ) (tx : Tx) (offset : ℕ)
      → All IsKnown tx.inputs
      → i < length tx.inputs
      → Results (λ l. Unit {0}) (find_fee tx i offset m)
  unfolding find_fee
  find_fee-returns i tx offset k h =
      Results->>= (λ (vs : List ℕ). length vs ≡ length tx.inputs) (λ (r : FeeResult). Unit {0})
        (known_values tx.inputs m) _ (known_values-returns tx.inputs k)
        λ vs l.
          let cums = length-running 0 vs in
          Results->>= _ (λ (r : FeeResult). Unit {0}) (unwrap (last_of (running 0 vs))) _
            (unwrap-returns (last_of (running 0 vs))
              (last_of-IsSome (running 0 vs) (omega (arith, l, cums, h))))
            λ input_sum e1.
              Results->>= _ (λ (r : FeeResult). Unit {0}) (unwrap (get_elem? tx.inputs i)) _
                (unwrap-returns (get_elem? tx.inputs i) (get_elem?-IsSome tx.inputs i h))
                λ input e2.
                  Results->>= _ (λ (r : FeeResult). Unit {0})
                    (unwrap (lookup OutPoint-discrete input.outpoint m)) _
                    (unwrap-returns (lookup OutPoint-discrete input.outpoint m)
                      (input-IsKnown tx.inputs i input k e2))
                    λ prev e3.
                      Results->>= _ (λ (r : FeeResult). Unit {0})
                        (unwrap (get_elem? (running 0 vs) i)) _
                        (unwrap-returns (get_elem? (running 0 vs) i)
                          (get_elem?-IsSome (running 0 vs) i (omega (arith, l, cums, h))))
                        λ cum e4. tt

  pub add-returns :
      (i : ℕ) (tx : Tx) (offset : ℕ) (kind : LeakedInscription) (s : LeakedInscriptions)
      → All IsKnown tx.inputs
      → i < length tx.inputs
      → Results (λ l. Unit {0}) (add i tx offset m kind s)
  unfolding add find_fee
  add-returns i tx offset kind s k h =
      Results->>= (λ (r : FeeResult). Unit {0}) (λ (l : LeakedInscriptions). Unit {0})
        (find_fee tx i offset m) _ (find_fee-returns i tx offset k h) λ r u. tt

  pub add_tx_fee-returns :
      (tx : Tx) (s : LeakedInscriptions)
      → All IsKnown tx.inputs
      → Results (λ l. Unit {0}) (add_tx_fee tx m s)
  unfolding add_tx_fee
  add_tx_fee-returns tx s k =
      Results->>= (λ (vs : List ℕ). length vs ≡ length tx.inputs) (λ l. Unit {0})
        (known_values tx.inputs m) _ (known_values-returns tx.inputs k) λ vs l. tt

-- The leaked inscriptions of a block all get their places.
locations-returns :
    (s : LeakedInscriptions) (ms : Map ℕ (List LeakedInscription))
    → IsSome s.coinbase_reward
    → Results (λ ls. Unit {0}) (locations s ms)
unfolding locations find_inscription_vout
locations-returns s [] h = tt
locations-returns s ((offset, xs) ∷ ms) h =
    Results->>= (λ (f : Option (ℕ × ℕ)). Unit {0}) (λ (ls : List Location). Unit {0})
      (find_inscription_vout s offset) _
      (Results->>= _ (λ (f : Option (ℕ × ℕ)). Unit {0}) (unwrap s.coinbase_reward) _
        (unwrap-returns s.coinbase_reward h) λ reward e. tt)
      λ found u.
        Results->>= (λ (ls : List Location). Unit {0}) (λ (ls : List Location). Unit {0})
          (locations s ms) _ (locations-returns s ms h) λ rest v. tt

pub get_leaked_inscriptions-returns :
    (s : LeakedInscriptions) → Results (λ ls. Unit {0}) (get_leaked_inscriptions s)
unfolding get_leaked_inscriptions update_reward
get_leaked_inscriptions-returns s =
    locations-returns (update_reward s) (update_reward s).inscriptions tt
