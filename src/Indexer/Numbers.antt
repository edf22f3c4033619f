-- ===== src/Indexer/Numbers.antt =====
-- The numbers of the entries of the history of src/inscriptions/indexer.rs.
use wjk_20_indexer.Prelude.{
  ℕ, ◌+◌, ◌*◌, ◌^◌, ◌≤◌, ◌<◌, ◌≡◌, ◌≢◌, refl, List, [], ◌∷◌, ◌++◌, All, length, length-append,
  arith, Outcome, ok, ite,
}
use wjk_20_indexer.Tokens.Types.{HistoryTokenAction, Bytes-discrete}
use wjk_20_indexer.Db.Types.{
  AddressTokenIdDb, HistoryValue, TokenHistoryDb, deploy, mint, deploy_transfer, send, send_receive,
  from_token_history,
}
use wjk_20_indexer.Indexer.{Entries, single, entries_of, history_of}

module _ {Amount : Type 0} where
  abbrev Other : ℕ → AddressTokenIdDb × HistoryValue Amount → Type 0
  Other i e = i ≢ e.0.id

  -- The numbers lie above `low` and up to `high`, and no two entries have the same.
  abbrev pub Numbered : ℕ → ℕ → Entries Amount → Type 0
  Numbered low high [] = low ≤ high
  Numbered low high ((k, v) ∷ es) =
      (low < k.id) × (k.id ≤ high) × All (Other k.id) es × Numbered low high es

  Numbered-le : (low high : ℕ) (es : Entries Amount) → Numbered low high es → low ≤ high
  Numbered-le low high [] n = n
  Numbered-le low high ((k, v) ∷ es) (a, b, d, n) = omega (arith, a, b)

  Numbered-down :
      (low mid high : ℕ) (es : Entries Amount)
      → low ≤ mid
      → Numbered mid high es
      → Numbered low high es
  Numbered-down low mid high [] l n = omega (arith, l, n)
  Numbered-down low mid high ((k, v) ∷ es) l (a, b, d, n) =
      (omega (arith, a, l), b, d, Numbered-down low mid high es l n)

  Numbered-apart :
      (i low high : ℕ) (es : Entries Amount) → i ≤ low → Numbered low high es → All (Other i) es
  Numbered-apart i low high [] l n = tt
  Numbered-apart i low high ((k, v) ∷ es) l (a, b, d, n) =
      ((λ e. omega (arith, a, e, l)), Numbered-apart i low high es l n)

  All-append :
      (i : ℕ) (xs ys : Entries Amount)
      → All (Other i) xs
      → All (Other i) ys
      → All (Other i) (xs ++ ys)
  All-append i [] ys a b = b
  All-append i (x ∷ xs) ys (p, a) b = (p, All-append i xs ys a b)

  Numbered-append :
      (low mid high : ℕ) (xs ys : Entries Amount)
      → Numbered low mid xs
      → Numbered mid high ys
      → Numbered low high (xs ++ ys)
  Numbered-append low mid high [] ys l n = Numbered-down low mid high ys l n
  Numbered-append low mid high ((k, v) ∷ xs) ys (a, b, d, n) m = (
    a,
    (let l = Numbered-le mid high ys m in omega (arith, b, l)),
    All-append k.id xs ys d (Numbered-apart k.id mid high ys b m),
    Numbered-append low mid high xs ys n m,
  )

  -- `step` returns at most `most` entries, with all the numbers after `last`.
  abbrev pub Appends : ℕ → ℕ → Outcome (Entries Amount × ℕ) → Type 0
  Appends last most step =
      (r : Entries Amount × ℕ) × (step ≡ ok r)
      × Numbered last r.1 r.0
      × (r.1 ≡ last + length r.0)
      × (r.1 ≤ last + most)

  single-Appends :
      (height : ℕ) (a : HistoryTokenAction Amount) (t : TokenHistoryDb Amount) (last : ℕ)
      → last + 2 < 2 ^ 64
      → Appends last 2 (single height a t last)
  single-Appends height a t last b = (
    _,
    refl,
    (omega (arith, b), omega (arith, b), tt, omega (arith, b)),
    omega (arith, b),
    omega (arith, b),
  )

  entries_of-Appends :
      (height : ℕ) (a : HistoryTokenAction Amount) (last : ℕ)
      → last + 2 < 2 ^ 64
      → Appends last 2 (entries_of height a (from_token_history Amount a) last)
  unfolding from_token_history
  entries_of-Appends height (HistoryTokenAction.deploy t max lim dec r txid vout) last b =
      single-Appends height (HistoryTokenAction.deploy t max lim dec r txid vout)
        (deploy max lim dec txid vout) last b
  entries_of-Appends height (HistoryTokenAction.mint t amt r txid vout) last b =
      single-Appends height (HistoryTokenAction.mint t amt r txid vout) (mint amt txid vout) last b
  entries_of-Appends height (HistoryTokenAction.deploy_transfer t amt r txid vout) last b =
      single-Appends height (HistoryTokenAction.deploy_transfer t amt r txid vout)
        (deploy_transfer amt txid vout) last b
  entries_of-Appends height (HistoryTokenAction.send t amt r s txid vout) last b =
      let move = HistoryTokenAction.send t amt r s txid vout in
      elim (Bytes-discrete s r)
        as (λ d. Appends last 2 (
          entries_of height move (ite d (send_receive amt txid vout) (send amt r txid vout))
            last)) [
              | yes _ ↦ single-Appends height move (send_receive amt txid vout) last b
              | no _ ↦ (
                _,
                refl,
                (
                  omega (arith, b),
                  omega (arith, b),
                  ((λ e. omega (arith, b, e)), tt),
                  (omega (arith, b), omega (arith, b), tt, omega (arith, b)),
                ),
                omega (arith, b),
                omega (arith, b),
              )
            ]

  -- The history of a block: when the numbers have room for two entries of each action, `history_of`
  -- returns without a panic, with at most two entries of each action; their numbers are all
  -- different, lie after the last one and up to the new last one, which is as many further as there
  -- are entries.
  pub history_of-Appends :
      (height : ℕ) (actions : List (HistoryTokenAction Amount)) (last : ℕ)
      → last + 2 * length actions < 2 ^ 64
      → Appends last (2 * length actions) (history_of height actions last)
  unfolding history_of
  history_of-Appends height [] last b = (_, refl, omega arith, omega arith, omega arith)
  history_of-Appends height (a ∷ later) last b =
      let (r, e, n, c, m) = entries_of-Appends height a last (omega (arith, b)) in
      let (q, e', n', c', m') = history_of-Appends height later r.1 (omega (arith, b, m)) in
      (
        (r.0 ++ q.0, q.1),
        rw e (rw e' refl),
        Numbered-append last r.1 q.1 r.0 q.0 n n',
        (let l = length-append r.0 q.0 in omega (arith, l, c, c')),
        omega (arith, m, m'),
      )
