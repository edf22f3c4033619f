-- ===== src/Inscriptions/Offsets/Starts.antt =====
-- Where the inputs start: `calc_offsets` of src/inscriptions/searcher.rs.
use wjk_20_indexer.Prelude.{
  ℕ, zero, suc, ◌+◌, ◌-◌, ◌^◌, ◌≤◌, ◌<◌, ◌≡◌, refl, sym, ap, ◌∙◌, none, some, List, [], ◌∷◌, ◌++◌,
  Map, length, get_elem?, ltb, lt→ltb, le→ltb, dec_lt, if◌then◌else◌, arith, subst,
}
use wjk_20_indexer.Tokens.Types.{OutPoint}
use wjk_20_indexer.Db.Types.{TxPrevout}
use wjk_20_indexer.Inscriptions.Types.{
  Tx, sum, values, start_of, sum-append, sub_u64_lem, add_u64_lem, small_u64,
}
use wjk_20_indexer.Inscriptions.Offsets.{
  input_values, reverse, pop_fee, prefix_sums, pop, offsets_of_values, calc_offsets,
}

sum-reverse : (xs : List ℕ) → sum (reverse xs) ≡ sum xs
sum-reverse [] = refl
sum-reverse (x ∷ xs) = omega (arith, sum-append (reverse xs) (x ∷ []), sum-reverse xs)

reverse-snoc : (xs : List ℕ) (x : ℕ) → reverse (xs ++ (x ∷ [])) ≡ x ∷ reverse xs
reverse-snoc [] x = refl
reverse-snoc (y ∷ xs) x = ap (λ z. z ++ (y ∷ [])) (reverse-snoc xs x)

ltb_sub : (f y s : ℕ) → y ≤ f → ltb (f - y) s ≡ ltb f (y + s)
ltb_sub f y s h = ground arith

-- The fee is taken from the last values.
pop_fee-append :
    (fee : ℕ) (ys zs : List ℕ)
    → fee < 2 ^ 64
    → pop_fee fee (ys ++ zs)
      ≡ (if ltb fee (sum ys) then pop_fee fee ys ++ zs else pop_fee (fee - sum ys) zs)
unfolding pop_fee
pop_fee-append fee [] zs b = rw (le→ltb fee 0 (omega arith)) (ap (λ x. pop_fee x zs) (omega arith))
pop_fee-append fee (y ∷ ys) zs b = elim (dec_lt fee y) [
  | yes h ↦ rw (lt→ltb fee y h, lt→ltb fee (y + sum ys) (omega arith)) refl
  | no h ↦
      rw (le→ltb fee y (omega arith), sub_u64_lem fee y (omega arith) b)
        (pop_fee-append (fee - y) ys zs (omega arith)
          ∙ rw (ltb_sub fee y (sum ys) (omega arith)) (
              ap (λ x. if ltb fee (y + sum ys) then pop_fee (fee - y) ys ++ zs else pop_fee x zs)
                (omega arith)))
]

pop_fee-nil : (fee : ℕ) → pop_fee fee [] ≡ []
unfolding pop_fee
pop_fee-nil fee = refl

-- The values cut off after a total.
cut : ℕ → List ℕ → List ℕ
cut t [] = []
cut t (x ∷ xs) = if ltb x t then x ∷ cut (t - x) xs else if ltb 0 t then t ∷ [] else []

last_value :
    (x fee t : ℕ)
    → x < 2 ^ 64
    → t ≤ x
    → fee ≡ x - t
    → reverse (pop_fee fee (x ∷ [])) ≡ (if ltb 0 t then t ∷ [] else [])
unfolding pop_fee
last_value x fee t b h e = elim (dec_lt 0 t) [
  | yes p ↦
      rw (lt→ltb fee x (omega arith), sub_u64_lem x fee (omega arith) b, lt→ltb 0 t p)
        (ap (λ z. z ∷ []) (omega arith))
  | no n ↦ rw (le→ltb fee x (omega arith), le→ltb 0 t (omega arith)) refl
]

pop_fee-cut :
    (xs : List ℕ) (t : ℕ)
    → sum xs < 2 ^ 64
    → t ≤ sum xs
    → reverse (pop_fee (sum xs - t) (reverse xs)) ≡ cut t xs
unfolding cut
pop_fee-cut [] t b h = ap reverse (pop_fee-nil (0 - t))
pop_fee-cut (x ∷ xs) t b h = elim (dec_lt x t) [
  | yes l ↦
      rw
        (
          pop_fee-append (x + sum xs - t) (reverse xs) (x ∷ []) (omega arith),
          sum-reverse xs,
          lt→ltb (x + sum xs - t) (sum xs) (omega arith),
          lt→ltb x t l,
        )
        (reverse-snoc (pop_fee (x + sum xs - t) (reverse xs)) x
          ∙ ap (λ z. x ∷ reverse (pop_fee z (reverse xs))) (omega arith)
          ∙ ap (◌∷◌ x) (pop_fee-cut xs (t - x) (omega arith) (omega arith)))
  | no n ↦
      rw
        (
          pop_fee-append (x + sum xs - t) (reverse xs) (x ∷ []) (omega arith),
          sum-reverse xs,
          le→ltb (x + sum xs - t) (sum xs) (omega arith),
          le→ltb x t (omega arith),
        )
        (last_value x (x + sum xs - t - sum xs) t (omega arith) (omega arith) (omega arith))
]

-- Where values start, as long as they start before a bound.
starts : ℕ → ℕ → List ℕ → List ℕ
starts a t [] = []
starts a t (x ∷ xs) = if ltb a t then a ∷ starts (a + x) t xs else []

starts-past : (a t : ℕ) (xs : List ℕ) → t ≤ a → starts a t xs ≡ []
unfolding starts
starts-past a t [] h = refl
starts-past a t (x ∷ xs) h = rw (le→ltb a t h) refl

pop-prefix_sums : (a b : ℕ) (xs : List ℕ) → pop (a ∷ prefix_sums b xs) ≡ a ∷ pop (prefix_sums b xs)
unfolding prefix_sums
pop-prefix_sums a b [] = refl
pop-prefix_sums a b (x ∷ xs) = refl

prefix_sums-cut :
    (xs : List ℕ) (a t : ℕ)
    → a + sum xs < 2 ^ 64
    → t ≤ sum xs
    → pop (prefix_sums a (cut t xs)) ≡ starts a (a + t) xs
unfolding cut starts prefix_sums
prefix_sums-cut [] a t b h = refl
prefix_sums-cut (x ∷ xs) a t b h = elim (dec_lt x t) [
  | yes l ↦
      rw (lt→ltb x t l, add_u64_lem a x (omega arith), lt→ltb a (a + t) (omega arith))
        (pop-prefix_sums a (a + x) (cut (t - x) xs)
          ∙ ap (◌∷◌ a) (
              prefix_sums-cut xs (a + x) (t - x) (omega arith) (omega arith)
              ∙ ap (λ z. starts (a + x) z xs) (omega arith)))
  | no n ↦ elim (dec_lt 0 t) [
    | yes p ↦
        rw (le→ltb x t (omega arith), lt→ltb 0 t p, lt→ltb a (a + t) (omega arith))
          (ap (◌∷◌ a) (sym (starts-past (a + x) (a + t) xs (omega arith))))
    | no q ↦
        rw (le→ltb x t (omega arith), le→ltb 0 t (omega arith), le→ltb a (a + t) (omega arith)) refl
  ]
]

first_start :
    (x : ℕ) (xs : List ℕ) (a t : ℕ)
    → get_elem? (starts a t (x ∷ xs)) 0 ≡ (if ltb a t then some a else none)
unfolding starts
first_start x xs a t = elim (dec_lt a t) [
  | yes l ↦ rw (lt→ltb a t l) refl
  | no n ↦ rw (le→ltb a t (omega arith)) refl
]

offsets_of_values-starts :
    (ins outs : List ℕ)
    → sum ins < 2 ^ 64
    → sum outs ≤ sum ins
    → offsets_of_values ins outs ≡ starts 0 (sum outs) ins
unfolding offsets_of_values
offsets_of_values-starts ins outs b h =
    rw
      (
        small_u64 (sum ins) b,
        small_u64 (sum outs) (omega arith),
        sub_u64_lem (sum ins) (sum outs) h b,
      )
      (ap (λ z. pop (prefix_sums 0 z)) (pop_fee-cut ins (sum outs) b h)
        ∙ prefix_sums-cut ins 0 (sum outs) (omega arith) h
        ∙ ap (λ z. starts 0 z ins) (omega arith))

get_elem?-starts :
    (xs : List ℕ) (a t i : ℕ)
    → i < length xs
    → get_elem? (starts a t xs) i
      ≡ (if ltb (a + start_of i xs) t then some (a + start_of i xs) else none)
unfolding starts
get_elem?-starts [] a t i h = absurd (omega arith)
get_elem?-starts (x ∷ xs) a t zero h =
    subst (λ z. get_elem? (starts a t (x ∷ xs)) 0 ≡ (if ltb z t then some z else none))
      (omega arith) (first_start x xs a t)
get_elem?-starts (x ∷ xs) a t (suc i) h = elim (dec_lt a t) [
  | yes l ↦ rw (lt→ltb a t l) (
      subst (λ z. get_elem? (starts (a + x) t xs) i ≡ (if ltb z t then some z else none))
        (omega arith) (get_elem?-starts xs (a + x) t i (omega arith)))
  | no n ↦ rw (le→ltb a t (omega arith), le→ltb (a + (x + start_of i xs)) t (omega arith)) refl
]

-- What is left of the inputs when the fee is taken from the last ones: an input gets the sum of the
-- values before it, when that is less than the sum of the outputs, and none otherwise. The values
-- of the inputs add up to less than 2^64, and the outputs do not take more than that sum.
pub calc_offsets_lem :
    (tx : Tx) (tx_outs : Map OutPoint TxPrevout) (ins : List ℕ) (i : ℕ)
    → input_values tx.inputs tx_outs ≡ some ins
    → sum ins < 2 ^ 64
    → sum (values tx.outputs) ≤ sum ins
    → i < length ins
    → (offsets : List ℕ) × (calc_offsets tx tx_outs ≡ some offsets)
      × (get_elem? offsets i ≡ (
          if ltb (start_of i ins) (sum (values tx.outputs)) then some (start_of i ins) else none))
unfolding calc_offsets
calc_offsets_lem tx tx_outs ins i e b h l =
    let t = sum (values tx.outputs) in
    (
      offsets_of_values ins (values tx.outputs),
      rw (calc_offsets, e) refl,
      ap (λ z. get_elem? z i) (offsets_of_values-starts ins (values tx.outputs) b h)
          ∙ subst (λ z. get_elem? (starts 0 t ins) i ≡ (if ltb z t then some z else none))
              (omega arith) (get_elem?-starts ins 0 t i l),
    )
