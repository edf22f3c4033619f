-- ===== src/Follow/Enough.antt =====
-- The loop `while checkpoint.height() < best_height` of packages/new-blk-parser/src/lib.rs ends.
use wjk_20_indexer.Prelude.{
  ℕ, zero, suc, ◌+◌, ◌<◌, ◌≤◌, ◌≡◌, refl, sym, ap, ◌∙◌, Bool, true, false, ltb, le→ltb, ite,
  if◌then◌else◌, Outcome, ok, panic, ◌>>=◌, arith,
}
use wjk_20_indexer.Tokens.Types.{Bytes-discrete}
use wjk_20_indexer.Inscriptions.Leaked.{unwrap}
use wjk_20_indexer.Blocks.{CheckPoint, insert}
use wjk_20_indexer.Follow.{
  check_ordering, Node, BlockEvent, Follower, Turn, send_block, next_block, catch_up,
}
use wjk_20_indexer.Follow.Views.{blocks, insert-next}

>>=-same {ℓ κ} :
    {A : Type ℓ} {B : Type κ} (step : Outcome A) (f g : A → Outcome B)
    → ((result : A) → step ≡ ok result → f result ≡ g result)
    → (step >>= f) ≡ (step >>= g)
>>=-same panic f g h = refl
>>=-same (ok result) f g h = h result refl

if-same {ℓ} :
    {A : Type ℓ} (b : Bool) (x y z : A) → x ≡ y → (if b then x else z) ≡ (if b then y else z)
if-same true x y z h = h
if-same false x y z h = refl

ite-same {ℓ κ} : {A : Type ℓ} {B : Type κ} (d : Dec A) (x y z : B) → x ≡ y → ite d x z ≡ ite d y z
ite-same (yes a) x y z h = h
ite-same (no n) x y z h = refl

module _ {Witness Script : Type 0} (node : ℕ → Node Witness Script) (has_receiver : ℕ → Bool)
    (reorg_max_len : ℕ) where
  -- What follows a block is only asked at the height of the block.
  send_block-same :
      (e : BlockEvent Witness Script)
      (f g : Follower Witness Script → Outcome (Turn Witness Script)) (st : Follower Witness Script)
      → st.checkpoint.block.height < e.id.height
      → ((s : Follower Witness Script) → s.checkpoint.block.height ≡ e.id.height → f s ≡ g s)
      → send_block node has_receiver reorg_max_len e f st
        ≡ send_block node has_receiver reorg_max_len e g st
  unfolding send_block
  send_block-same e f g st h same =
      >>=-same (check_ordering st.last_hash e.block.header) _ _ (λ last ordered.
        if-same (has_receiver st.calls) _ _ _ (
          >>=-same (insert e.id st.checkpoint) _ _ (λ cp put.
            let q : ok (record { block = e.id; prev = blocks st.checkpoint }) ≡ ok cp =
              rw (insert-next e.id st.checkpoint h) at put in
            let top : record { block = e.id; prev = blocks st.checkpoint } ≡ cp = cc in
            same _ (ap (λ (c : CheckPoint). c.block.height) (sym top)))))

  plus_left : (n : ℕ) → 0 + n ≡ n
  plus_left n = omega arith

  plus_sucs : (n k : ℕ) → suc n + suc k ≡ suc (n + suc k)
  plus_sucs n k = omega arith

  next_block-same :
      (best_height counter : ℕ) (f g : Follower Witness Script → Outcome (Turn Witness Script))
      (st : Follower Witness Script)
      → ((s : Follower Witness Script)
          → s.checkpoint.block.height ≡ st.checkpoint.block.height + 1
          → f s ≡ g s)
      → next_block node has_receiver reorg_max_len best_height counter f st
        ≡ next_block node has_receiver reorg_max_len best_height counter g st
  unfolding next_block
  next_block-same best_height counter f g st same =
      >>=-same (unwrap ((node st.calls).get_block_hash (st.checkpoint.block.height + 1))) _ _
        (λ hash _. >>=-same (unwrap ((node (st.calls + 1)).get_block hash)) _ _ (λ b _.
          ite-same (Bytes-discrete b.header.value.prev_hash st.checkpoint.block.hash) _ _ _
            (send_block-same _ f g (record st { calls = st.calls + 2 }) (omega arith) same)))

  -- Fuel for the heights up to the best one, as `turn` gives it, is enough for the loop that catches up:
  -- with more of it the loop does the same.
  pub catch_up-enough :
      (more fuel best_height counter : ℕ) (st : Follower Witness Script)
      → best_height ≤ st.checkpoint.block.height + fuel
      → catch_up node has_receiver reorg_max_len (fuel + more) best_height counter st
        ≡ catch_up node has_receiver reorg_max_len fuel best_height counter st
  unfolding catch_up
  catch_up-enough zero fuel best_height counter st h =
      ap (λ (n : ℕ). catch_up node has_receiver reorg_max_len n best_height counter st)
        (omega arith)
  catch_up-enough (suc more) zero best_height counter st h =
      ap (λ (n : ℕ). catch_up node has_receiver reorg_max_len n best_height counter st)
        (plus_left (suc more))
      ∙ rw (le→ltb st.checkpoint.block.height best_height (omega (arith, h))) refl
  catch_up-enough (suc more) (suc fuel) best_height counter st h =
      ap (λ (n : ℕ). catch_up node has_receiver reorg_max_len n best_height counter st)
        (plus_sucs fuel more)
      ∙ if-same (ltb st.checkpoint.block.height best_height) _ _ _ (
          next_block-same best_height counter _ _ st
            (λ s e. catch_up-enough (suc more) fuel best_height 0 s (omega (arith, e, h))))
