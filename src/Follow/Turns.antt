-- ===== src/Follow/Turns.antt =====
-- A turn of the loop of `parse_blocks` of packages/new-blk-parser/src/lib.rs: it ends, and the receiver
-- sees the blocks of the checkpoint.
use wjk_20_indexer.Prelude.{
  ℕ, zero, suc, ◌+◌, ◌-◌, ◌<◌, ◌≤◌, ◌≡◌, refl, sym, ap, ◌∙◌, subst, Bool, false, inl, inr,
  Bool-cases, some, List, [], ◌∷◌, Bytes, get_elem?, drop, ltb, ltb→lt, le→ltb, ite, Outcome, ok,
  Results, Results->>=, Results-weaken, arith,
}
use wjk_20_indexer.Tokens.Types.{Bytes-discrete}
use wjk_20_indexer.Blocks.{BlockId}
use wjk_20_indexer.Wire.Block.{Block}
use wjk_20_indexer.Follow.{
  is_stale, Node, BlockEvent, Follower, Turn, going, Rolled, roll_back, send_block, next_block,
  catch_up, go_on, turn,
}
use wjk_20_indexer.Follow.Views.{blocks, follow, Seen, Sent-none, Answers, send_block-Seen}

ite-Results {ℓ κ} :
    {A : Type ℓ} {R : Type κ} (P : R → Type 0) (d : Dec A) (x y : Outcome R)
    → (A → Results P x)
    → (¬ A → Results P y)
    → Results P (ite d x y)
ite-Results P (yes a) x y f g = f a
ite-Results P (no n) x y f g = g n

module _ {Witness Script : Type 0} (node : ℕ → Node Witness Script) (has_receiver : ℕ → Bool)
    (reorg_max_len top : ℕ) (a : Answers node top) where
  guarded-Seen :
      (seen : List BlockId) (k best_height : ℕ) (hash : Bytes) (b : Block Witness Script)
      (next : Follower Witness Script → Outcome (Turn Witness Script))
      (st : Follower Witness Script)
      → st.last_hash ≡ st.checkpoint.block.hash
      → drop k seen ≡ blocks st.checkpoint
      → b.header.hash ≡ hash
      → ((seen2 : List BlockId) (st2 : Follower Witness Script)
          → st2.last_hash ≡ st2.checkpoint.block.hash
          → seen2 ≡ blocks st2.checkpoint
          → Results (Seen seen2 0 st2.sent) (next st2))
      → Results (Seen seen k st.sent) (
          ite
            (Bytes-discrete b.header.value.prev_hash st.checkpoint.block.hash)
            (send_block node has_receiver reorg_max_len
              (record {
                id = record { height = st.checkpoint.block.height + 1; hash = hash };
                block = b;
                reorg_len = k;
                tip = best_height;
              })
              next
              st)
            (ok (going st)))
  guarded-Seen seen k best_height hash b next st l d x n =
      ite-Results (Seen seen k st.sent)
        (Bytes-discrete b.header.value.prev_hash st.checkpoint.block.hash) _ _
        (λ same.
          let event : BlockEvent Witness Script = record {
            id = record { height = st.checkpoint.block.height + 1; hash = hash };
            block = b;
            reorg_len = k;
            tip = best_height;
          } in
          send_block-Seen node has_receiver reorg_max_len seen k event next st refl l d same refl x
            (λ st2 l2 d2 s2 h2.
              subst
                (λ (before : List (BlockEvent Witness Script)).
                  Results (Seen (follow seen event) 0 before) (next st2))
                s2 (n (follow seen event) st2 l2 d2)))
        (λ other. (l, Sent-none seen k st d))

  next_block-Seen :
      (seen : List BlockId) (k best_height : ℕ)
      (next : Follower Witness Script → Outcome (Turn Witness Script))
      (st : Follower Witness Script)
      → st.last_hash ≡ st.checkpoint.block.hash
      → drop k seen ≡ blocks st.checkpoint
      → st.checkpoint.block.height < top
      → ((seen2 : List BlockId) (st2 : Follower Witness Script)
          → st2.last_hash ≡ st2.checkpoint.block.hash
          → seen2 ≡ blocks st2.checkpoint
          → Results (Seen seen2 0 st2.sent) (next st2))
      → Results
          (Seen seen k st.sent)
          (next_block node has_receiver reorg_max_len best_height k next st)
  unfolding next_block
  next_block-Seen seen k best_height next st l d low n =
      let height = st.checkpoint.block.height + 1 in
      let (hash, eh) = a.hashes st.calls height (omega (arith, low)) in
      let (b, eb, xb) = a.found st.calls height hash eh in
      rw (eh, eb, Results)
        (guarded-Seen seen k best_height hash b next (record st { calls = st.calls + 2 }) l d xb n)

  catch_up-Seen :
      (fuel : ℕ) (seen : List BlockId) (k best_height : ℕ) (st : Follower Witness Script)
      → st.last_hash ≡ st.checkpoint.block.hash
      → drop k seen ≡ blocks st.checkpoint
      → best_height ≤ top
      → Results
          (Seen seen k st.sent)
          (catch_up node has_receiver reorg_max_len fuel best_height k st)
  unfolding catch_up
  catch_up-Seen zero seen k best_height st l d h = (l, Sent-none seen k st d)
  catch_up-Seen (suc fuel) seen k best_height st l d h =
      elim (Bool-cases (ltb st.checkpoint.block.height best_height)) [
        | inr there ↦ rw (there, Results) (l, Sent-none seen k st d)
        | inl below ↦
            rw (below, Results)
              (next_block-Seen seen k best_height _ st l d
                (omega (arith, ltb→lt st.checkpoint.block.height best_height below, h))
                (λ seen2 st2 l2 d2. catch_up-Seen fuel seen2 0 best_height st2 l2 d2 h))
      ]

  -- As many blocks are left out as are counted.
  abbrev Rolls : ℕ → BlockId → List BlockId → Rolled → Type 0
  Rolls counter cur prev r =
      (n : ℕ) × (r.reorg_counter ≡ counter + n)
      × (drop n (cur ∷ prev) ≡ blocks r.checkpoint)
      × (r.last_hash ≡ r.checkpoint.block.hash)

  plus_zero : (n : ℕ) → n + 0 ≡ n
  plus_zero n = omega arith

  plus_suc : (n k : ℕ) → n + 1 + k ≡ n + suc k
  plus_suc n k = omega arith

  -- A checkpoint that is not stale is reached.
  roll_back-returns :
      (k counter : ℕ) (cur : BlockId) (prev : List BlockId) (last_hash : Bytes) (calls : ℕ)
      (b : BlockId)
      → last_hash ≡ cur.hash
      → get_elem? (cur ∷ prev) k ≡ some b
      → counter + k ≤ reorg_max_len
      → is_stale ((node (calls + k)).get_block_info b.hash) ≡ false
      → Results
          (Rolls counter cur prev)
          (roll_back node has_receiver reorg_max_len counter cur prev last_hash calls)
  unfolding roll_back
  roll_back-returns zero counter cur [] last_hash calls b l e h s =
      let same : cur ≡ b = cc in
      let fresh : is_stale ((node calls).get_block_info cur.hash) ≡ false =
        rw (same, ← plus_zero calls) s in
      rw (le→ltb reorg_max_len counter (omega (arith, h)), fresh, Results) (0, omega arith, refl, l)
  roll_back-returns zero counter cur (p ∷ ps) last_hash calls b l e h s =
      let same : cur ≡ b = cc in
      let fresh : is_stale ((node calls).get_block_info cur.hash) ≡ false =
        rw (same, ← plus_zero calls) s in
      rw (le→ltb reorg_max_len counter (omega (arith, h)), fresh, Results) (0, omega arith, refl, l)
  roll_back-returns (suc k) counter cur [] last_hash calls b l e h s = cc
  roll_back-returns (suc k) counter cur (p ∷ ps) last_hash calls b l e h s =
      elim (Bool-cases (is_stale ((node calls).get_block_info cur.hash))) [
        | inr fresh ↦
            rw (le→ltb reorg_max_len counter (omega (arith, h)), fresh, Results)
              (0, omega arith, refl, l)
        | inl stale ↦
            rw (le→ltb reorg_max_len counter (omega (arith, h)), stale, Results)
              (Results-weaken (Rolls (counter + 1) p ps) (Rolls counter cur (p ∷ ps)) _
                (roll_back-returns k (counter + 1) p ps p.hash (calls + 1) b refl e
                  (omega (arith, h)) (rw (plus_suc calls k) s))
                (λ r (n, c, d, q). (suc n, omega (arith, c), d, q)))
      ]

  turn-Seen_of_checkpoint :
      (st : Follower Witness Script) (k : ℕ) (b : BlockId)
      → st.last_hash ≡ st.checkpoint.block.hash
      → get_elem? (blocks st.checkpoint) k ≡ some b
      → k ≤ reorg_max_len
      → is_stale ((node (st.calls + 1 + k)).get_block_info b.hash) ≡ false
      → Results
          (λ (t : Turn Witness Script). (n : ℕ) × Seen (blocks st.checkpoint) n st.sent t)
          (turn node has_receiver reorg_max_len st)
  unfolding turn go_on
  turn-Seen_of_checkpoint st k b l e h s =
      let seen = blocks st.checkpoint in
      let (best_hash, eb) = a.best st.calls in
      rw (eb, Results)
        (ite-Results (λ (t : Turn Witness Script). (n : ℕ) × Seen seen n st.sent t)
          (Bytes-discrete best_hash st.checkpoint.block.hash) _ _
          (λ same. (0, (l, Sent-none seen 0 (record st { calls = st.calls + 1 }) refl)))
          (λ other.
            Results->>= (Rolls 0 st.checkpoint.block st.checkpoint.prev)
              (λ (t : Turn Witness Script). (n : ℕ) × Seen seen n st.sent t)
              (roll_back node has_receiver reorg_max_len 0 st.checkpoint.block st.checkpoint.prev
                st.last_hash (st.calls + 1))
              _
              (roll_back-returns k 0 st.checkpoint.block st.checkpoint.prev st.last_hash
                (st.calls + 1) b l e (omega (arith, h)) s)
              (λ r (n, c, d, q).
                let (info, ei, low) = a.infos st.calls r.calls best_hash eb in
                rw (ei, Results)
                  (Results-weaken (Seen seen r.reorg_counter st.sent)
                    (λ (t : Turn Witness Script). (n : ℕ) × Seen seen n st.sent t) _
                    (catch_up-Seen (info.height - r.checkpoint.block.height) seen r.reorg_counter
                      info.height
                      (record {
                        checkpoint = r.checkpoint;
                        last_hash = r.last_hash;
                        calls = r.calls + 1;
                        sent = st.sent;
                      })
                      q (ap (λ (j : ℕ). drop j seen) (omega (arith, c)) ∙ d) low)
                    (λ t w. (r.reorg_counter, w))))))

  -- With a node that answers up to the height `top`, one of whose checkpoints among the newest, not more
  -- than `reorg_max_len` below the last, is not stale, a turn that starts with the hash of the last
  -- checkpoint, and with a receiver that has exactly the blocks of the checkpoints, ends without a panic;
  -- what it sent stands on what the receiver had, block on block, and the receiver sees the blocks of
  -- the checkpoints after the turn, unless nothing was sent.
  pub turn-Seen :
      (st : Follower Witness Script) (had : List BlockId) (k : ℕ) (b : BlockId)
      → had ≡ blocks st.checkpoint
      → st.last_hash ≡ st.checkpoint.block.hash
      → get_elem? (blocks st.checkpoint) k ≡ some b
      → k ≤ reorg_max_len
      → is_stale ((node (st.calls + 1 + k)).get_block_info b.hash) ≡ false
      → Results
          (λ (t : Turn Witness Script). (n : ℕ) × Seen had n st.sent t)
          (turn node has_receiver reorg_max_len st)
  turn-Seen st had k b same l e h s =
      subst
        (λ (seen : List BlockId).
          Results (λ (t : Turn Witness Script). (n : ℕ) × Seen seen n st.sent t)
            (turn node has_receiver reorg_max_len st))
        (sym same) (turn-Seen_of_checkpoint st k b l e h s)
