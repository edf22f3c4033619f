-- ===== src/Inscriptions/Leaked/Known.antt =====
-- The values of known inputs, and their running sums, as src/inscriptions/leaked.rs reads them.
use wjk_20_indexer.Prelude.{
  ℕ, zero, suc, ◌+◌, ◌-◌, ◌^◌, ◌≤◌, ◌<◌, ◌≡◌, ◌≢◌, refl, sym, ap, ◌∙◌, subst, some, List, [], ◌∷◌,
  Map, lookup, length, get_elem?, ok, >>=-eq-ok, Option-cases, inl, inr, arith,
}
use wjk_20_indexer.Tokens.Types.{OutPoint, OutPoint-discrete}
use wjk_20_indexer.Db.Types.{TxPrevout}
use wjk_20_indexer.Inscriptions.Types.{TxIn, sum, start_of, add_u64_lem}
use wjk_20_indexer.Inscriptions.Leaked.{known_values, running, last_of}

pub known_values-cons :
    (x : TxIn) (xs : List TxIn) (m : Map OutPoint TxPrevout) {vs : List ℕ}
    → known_values (x ∷ xs) m ≡ ok vs
    → (p : TxPrevout) × (ws : List ℕ) × (lookup OutPoint-discrete x.outpoint m ≡ some p)
      × (known_values xs m ≡ ok ws)
      × (vs ≡ p.value ∷ ws)
unfolding known_values
known_values-cons x xs m h = elim (Option-cases (lookup OutPoint-discrete x.outpoint m)) [
  | inl missing ↦ absurd (ground (arith, rw (known_values, missing) at h))
  | inr (p, found) ↦
      let (ws, read, e) =
        >>=-eq-ok (known_values xs m) (λ ws. ok (p.value ∷ ws)) (rw (known_values, found) at h) in
      (p, ws, found, read, cc)
]

pub cons-head : {a b : ℕ} {xs ys : List ℕ} → (a ∷ xs) ≡ (b ∷ ys) → a ≡ b
cons-head e = cc

pub cons-tail : {a b : ℕ} {xs ys : List ℕ} → (a ∷ xs) ≡ (b ∷ ys) → xs ≡ ys
cons-tail e = cc

pub nothing_known :
    (m : Map OutPoint TxPrevout) (v : ℕ) (vs : List ℕ) → known_values [] m ≢ ok (v ∷ vs)
unfolding known_values
nothing_known m v vs h = cc

-- Every input that is known has a value in the list.
pub known_values-get :
    (xs : List TxIn) (m : Map OutPoint TxPrevout) (vs : List ℕ) (i : ℕ)
    → known_values xs m ≡ ok vs
    → i < length vs
    → (x : TxIn) × (p : TxPrevout) × (get_elem? xs i ≡ some x)
      × (lookup OutPoint-discrete x.outpoint m ≡ some p)
      × (start_of (suc i) vs ≡ start_of i vs + p.value)
known_values-get xs m [] i h l = absurd (omega arith)
known_values-get [] m (v ∷ vs) i h l = absurd (nothing_known m v vs h)
known_values-get (x ∷ xs) m (v ∷ vs) zero h l =
    let (p, ws, found, read, e) = known_values-cons x xs m h in
    (x, p, refl, found, omega (arith, cons-head e))
known_values-get (x ∷ xs) m (v ∷ vs) (suc i) h l =
    let (p, ws, found, read, e) = known_values-cons x xs m h in
    let (x', p', at, found', start) =
      known_values-get xs m vs i (read ∙ ap ok (sym (cons-tail e))) (omega arith) in
    (x', p', at, found', omega (arith, start))

pub running-get :
    (a : ℕ) (vs : List ℕ) (i : ℕ)
    → a + sum vs < 2 ^ 64
    → i < length vs
    → get_elem? (running a vs) i ≡ some (a + start_of (suc i) vs)
unfolding running
running-get a [] i b l = absurd (omega arith)
running-get a (v ∷ vs) zero b l = ap some (add_u64_lem a v (omega arith) ∙ omega arith)
running-get a (v ∷ vs) (suc i) b l =
    rw (add_u64_lem a v (omega arith))
      (running-get (a + v) vs i (omega arith) (omega arith) ∙ ap some (omega arith))

pub last-running :
    (a v : ℕ) (vs : List ℕ)
    → a + (v + sum vs) < 2 ^ 64
    → last_of (running a (v ∷ vs)) ≡ some (a + (v + sum vs))
unfolding running
last-running a v [] b = ap some (add_u64_lem a v (omega arith) ∙ omega arith)
last-running a v (w ∷ vs) b =
    subst (λ z. last_of (running z (w ∷ vs)) ≡ some (a + (v + (w + sum vs))))
      (sym (add_u64_lem a v (omega arith)))
      (last-running (a + v) w vs (omega arith) ∙ ap some (omega arith))

pub start_of-le : (i : ℕ) (vs : List ℕ) → start_of i vs ≤ sum vs
start_of-le zero vs = omega arith
start_of-le (suc i) [] = omega arith
start_of-le (suc i) (v ∷ vs) = omega (arith, start_of-le i vs)

pub zero_add : (n : ℕ) → 0 + n ≡ n
zero_add n = omega arith

pub add_sub : (a b : ℕ) → a + b - b ≡ a
add_sub a b = omega arith
