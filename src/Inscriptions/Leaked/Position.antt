-- ===== src/Inscriptions/Leaked/Position.antt =====
-- Where `LeakedInscriptions` of src/inscriptions/leaked.rs puts the inscriptions of a block.
use wjk_20_indexer.Prelude.{
  ℕ, suc, ◌+◌, ◌-◌, ◌%◌, ◌^◌, ◌≤◌, ◌<◌, ◌≡◌, refl, ap, ◌∙◌, some, List, [], ◌∷◌, Map, length,
  get_elem?, ltb, if◌then◌else◌, ok, ◌>>=◌, arith,
}
use wjk_20_indexer.Tokens.Types.{OutPoint}
use wjk_20_indexer.Db.Types.{TxPrevout}
use wjk_20_indexer.Inscriptions.Types.{
  TxOut, Tx, sub_u64, sum, values, start_of, add_u64_lem, sub_u64_lem, small_u64,
}
use wjk_20_indexer.Inscriptions.Offsets.{find_output}
use wjk_20_indexer.Inscriptions.Offsets.Found.{find_output_lem}
use wjk_20_indexer.Inscriptions.Leaked.{
  LeakedInscription, LeakedInscriptions, known_values, find_fee, push_at, add, add_tx_fee,
  update_reward, find_vout, find_inscription_vout,
}
use wjk_20_indexer.Inscriptions.Leaked.Known.{
  known_values-get, running-get, last-running, start_of-le, zero_add, add_sub,
}

find_vout-output :
    (i offset : ℕ) (os : List TxOut) → find_vout i offset os ≡ find_output i offset os
unfolding find_vout find_output
find_vout-output i offset [] = refl
find_vout-output i offset (o ∷ os) =
    ap (λ z. if ltb offset o.value then some (i % 2 ^ 32, offset) else z)
      (find_vout-output (i + 1) (sub_u64 offset o.value) os)

-- A leaked inscription at a position of the block's fees is put into the output of the coinbase
-- transaction that covers that position after the subsidy, which is what the outputs exceed the
-- fees by. The outputs are fewer than 2^32, and their values add up to less than 2^64 and not to
-- less than the fees.
pub find_inscription_vout_lem :
    (s : LeakedInscriptions) (offset : ℕ)
    → let os = s.coinbase_tx.outputs in
      length os < 2 ^ 32
      → sum (values os) < 2 ^ 64
      → s.total_amount ≤ sum (values os)
      → offset < s.total_amount
      → (i : ℕ) × (rest : ℕ) × (find_inscription_vout (update_reward s) offset
          ≡ ok (some (i, rest)))
        × (start_of i (values os) + rest ≡ sum (values os) - s.total_amount + offset)
        × ((o : TxOut) × (get_elem? os i ≡ some o) × (rest < o.value))
unfolding find_inscription_vout update_reward
find_inscription_vout_lem s offset n b h l =
    let os = s.coinbase_tx.outputs in
    let subsidy = sum (values os) - s.total_amount in
    let (i, rest, found, at, o) =
      find_output_lem os 0 (offset + subsidy) (omega arith) b (omega arith) in
    (
      i,
      rest,
      rw
          (
            small_u64 (sum (values os)) b,
            sub_u64_lem (sum (values os)) s.total_amount h b,
            add_u64_lem offset subsidy (omega arith),
            find_vout-output 0 (offset + subsidy) os,
            found,
          )
          (ap (λ z. ok (some (z, rest))) (omega arith)),
      omega arith,
      o,
    )

find_fee_lem :
    (tx : Tx) (tx_outs : Map OutPoint TxPrevout) (vs : List ℕ) (i k : ℕ)
    → let outs = sum (values tx.outputs) in
      known_values tx.inputs tx_outs ≡ ok vs
      → i < length vs
      → sum vs < 2 ^ 64
      → outs ≤ start_of i vs + k
      → start_of i vs + k < sum vs
      → find_fee tx i k tx_outs
        ≡ ok (record { fee = sum vs - outs; fee_offset = start_of i vs + k - outs })
unfolding find_fee
find_fee_lem tx tx_outs [] i k known l b h t = absurd (omega arith)
find_fee_lem tx tx_outs (v ∷ vs) i k known l b h t =
    let all = v ∷ vs in
    let outs = sum (values tx.outputs) in
    let (x, p, at, found, next) = known_values-get tx.inputs tx_outs all i known l in
    let within = start_of-le (suc i) all in
    rw
      (
        known,
        small_u64 outs (omega arith),
        last-running 0 v vs (omega arith),
        at,
        found,
        running-get 0 all i (omega arith) l,
        zero_add (sum all),
        zero_add (start_of (suc i) all),
        next,
        sub_u64_lem (start_of i all + p.value) p.value (omega arith) (omega (arith, within, next)),
        add_sub (start_of i all) p.value,
        add_u64_lem (start_of i all) k (omega arith),
        sub_u64_lem (start_of i all + k) outs h (omega arith),
        sub_u64_lem (sum all) outs (omega arith) b,
      )
      refl

add_tx_fee_lem :
    (tx : Tx) (tx_outs : Map OutPoint TxPrevout) (vs : List ℕ) (s : LeakedInscriptions)
    → let fee = sum vs - sum (values tx.outputs) in
      known_values tx.inputs tx_outs ≡ ok vs
      → sum vs < 2 ^ 64
      → sum (values tx.outputs) ≤ sum vs
      → s.total_amount + fee < 2 ^ 64
      → add_tx_fee tx tx_outs s ≡ ok (record s { total_amount = s.total_amount + fee })
unfolding add_tx_fee
add_tx_fee_lem tx tx_outs vs s known b h m =
    let outs = sum (values tx.outputs) in
    rw
      (
        known,
        small_u64 (sum vs) b,
        small_u64 outs (omega arith),
        sub_u64_lem (sum vs) outs h b,
        add_u64_lem s.total_amount (sum vs - outs) m,
      )
      refl

add_lem :
    (tx : Tx) (tx_outs : Map OutPoint TxPrevout) (vs : List ℕ) (i k : ℕ) (x : LeakedInscription)
    (s : LeakedInscriptions)
    → let outs = sum (values tx.outputs) in
      let p = start_of i vs + k in
      known_values tx.inputs tx_outs ≡ ok vs
      → i < length vs
      → sum vs < 2 ^ 64
      → outs ≤ p
      → p < sum vs
      → s.total_amount < 2 ^ 64
      → sum vs - outs ≤ s.total_amount
      → add i tx k tx_outs x s
        ≡ ok (record s {
          inscriptions = push_at (s.total_amount - ((sum vs - outs) - (p - outs))) x s.inscriptions;
        })
unfolding add
add_lem tx tx_outs vs i k x s known l b h t m f =
    let outs = sum (values tx.outputs) in
    rw
      (
        find_fee_lem tx tx_outs vs i k known l b h t,
        sub_u64_lem (sum vs - outs) (start_of i vs + k - outs) (omega arith) (omega arith),
        sub_u64_lem s.total_amount (sum vs - outs - (start_of i vs + k - outs)) (omega arith) m,
      )
      refl

-- The fee of a transaction makes room for its inscriptions: one that leaks from the position `p`
-- of the inputs, past the outputs, is stored as many positions after the fees of the earlier
-- transactions as `p` is after the outputs. Every input is known, the values of the inputs add up
-- to less than 2^64, and with the earlier fees the fee stays below 2^64.
pub add-position :
    (tx : Tx) (tx_outs : Map OutPoint TxPrevout) (vs : List ℕ) (i k : ℕ) (x : LeakedInscription)
    (s : LeakedInscriptions)
    → let outs = sum (values tx.outputs) in
      let p = start_of i vs + k in
      known_values tx.inputs tx_outs ≡ ok vs
      → i < length vs
      → sum vs < 2 ^ 64
      → outs ≤ p
      → p < sum vs
      → s.total_amount + (sum vs - outs) < 2 ^ 64
      → (do s' ← add_tx_fee tx tx_outs s; add i tx k tx_outs x s')
        ≡ ok (record s {
          total_amount = s.total_amount + (sum vs - outs);
          inscriptions = push_at (s.total_amount + (p - outs)) x s.inscriptions;
        })
add-position tx tx_outs vs i k x s known l b h t m =
    let fees = s.total_amount + (sum vs - sum (values tx.outputs)) in
    rw (add_tx_fee_lem tx tx_outs vs s known b (omega arith) m) (
      add_lem tx tx_outs vs i k x (record s { total_amount = fees }) known l b h t m (omega arith)
      ∙ ap (λ z. ok (record s { total_amount = fees; inscriptions = push_at z x s.inscriptions }))
          (omega arith))
