-- ===== src/Follow/Views.antt =====
-- What a receiver of the events of packages/new-blk-parser/src/lib.rs sees: for each it forgets as many
-- blocks as it says, and takes its block.
use wjk_20_indexer.Prelude.{
  ℕ, ◌+◌, ◌<◌, ◌≤◌, ◌≡◌, ◌⊎◌, refl, sym, ap, ◌∙◌, Bool, inl, inr, Bool-cases, some, List, [], ◌∷◌,
  ◌++◌, append-nil, append_assoc, Bytes, drop, lt→ltb, if_pos, Outcome, ok, panic, Results,
  Results-weaken, arith,
}
use wjk_20_indexer.Tokens.Types.{Bytes-discrete}
use wjk_20_indexer.Blocks.{
  BlockId, CheckPoint, push, extend, extend_from, insert, put_back, expect_done,
}
use wjk_20_indexer.Blocks.Found.{find_base-below}
use wjk_20_indexer.Wire.Block.{Block}
use wjk_20_indexer.Follow.{
  GetBlockResult, check_ordering, Node, BlockEvent, Follower, Turn, going, returned, send_block,
}

-- The blocks of a checkpoint, from the newest on
abbrev pub blocks : CheckPoint → List BlockId
blocks cp = cp.block ∷ cp.prev

-- A block above the newest is put on it.
pub insert-next :
    (b : BlockId) (cp : CheckPoint)
    → cp.block.height < b.height
    → insert b cp ≡ ok (record { block = b; prev = blocks cp })
unfolding insert extend extend_from push
insert-next b cp h =
    ap (put_back cp b) (find_base-below b cp.block cp.prev [] h)
    ∙ rw (lt→ltb cp.block.height b.height h, expect_done) refl

module _ {Witness Script : Type 0} where
  abbrev pub follow : List BlockId → BlockEvent Witness Script → List BlockId
  follow seen e = e.id ∷ drop e.reorg_len seen

  abbrev pub replay : List BlockId → List (BlockEvent Witness Script) → List BlockId
  replay seen [] = seen
  replay seen (e ∷ es) = replay (follow seen e) es

  -- The block of an event stands on the newest of these: it names it, and has the height above.
  abbrev pub Extends : List BlockId → BlockEvent Witness Script → Type 0
  Extends [] e = ⊥
  Extends (b ∷ bs) e =
      (e.block.header.value.prev_hash ≡ b.hash)
      × (e.id.height ≡ b.height + 1)
      × (e.block.header.hash ≡ e.id.hash)

  abbrev pub Linked : List BlockId → List (BlockEvent Witness Script) → Type 0
  Linked seen [] = Unit
  Linked seen (e ∷ es) = Extends (drop e.reorg_len seen) e × Linked (follow seen e) es

  -- Events were sent that stand on each other, and the receiver sees the checkpoint's blocks, or no
  -- event was sent and the checkpoint's blocks are those without the newest `k`.
  abbrev pub Sent :
      List BlockId → ℕ → List (BlockEvent Witness Script) → Follower Witness Script → Type 0
  Sent seen k before st =
      (new : List (BlockEvent Witness Script)) × (st.sent ≡ before ++ new)
      × Linked seen new
      × (((new ≡ []) × (drop k seen ≡ blocks st.checkpoint))
          ⊎ (replay seen new ≡ blocks st.checkpoint))

  -- A turn that goes on knows the hash of its checkpoint as the last one.
  abbrev pub Seen :
      List BlockId → ℕ → List (BlockEvent Witness Script) → Turn Witness Script → Type 0
  Seen seen k before (going st) = (st.last_hash ≡ st.checkpoint.block.hash) × Sent seen k before st
  Seen seen k before (returned st) = Sent seen k before st

  pub Sent-none :
      (seen : List BlockId) (k : ℕ) (st : Follower Witness Script)
      → drop k seen ≡ blocks st.checkpoint
      → Sent seen k st.sent st
  Sent-none seen k st h = ([], sym (append-nil st.sent), tt, inl (refl, h))

  Sent-more :
      (seen : List BlockId) (k : ℕ) (before : List (BlockEvent Witness Script))
      (e : BlockEvent Witness Script) (st : Follower Witness Script)
      → Extends (drop e.reorg_len seen) e
      → Sent (follow seen e) 0 (before ++ (e ∷ [])) st
      → Sent seen k before st
  Sent-more seen k before e st x (new, s, l, inl (none_, h)) =
      (e ∷ new, s ∙ append_assoc before (e ∷ []) new, (x, l), inr (rw none_ h))
  Sent-more seen k before e st x (new, s, l, inr h) =
      (e ∷ new, s ∙ append_assoc before (e ∷ []) new, (x, l), inr h)

  Seen-more :
      (seen : List BlockId) (k : ℕ) (before : List (BlockEvent Witness Script))
      (e : BlockEvent Witness Script) (t : Turn Witness Script)
      → Extends (drop e.reorg_len seen) e
      → Seen (follow seen e) 0 (before ++ (e ∷ [])) t
      → Seen seen k before t
  Seen-more seen k before e (going st) x (l, s) = (l, Sent-more seen k before e st x s)
  Seen-more seen k before e (returned st) x s = Sent-more seen k before e st x s

-- What the node answers up to the height `top`, at any time: a block at each height, with the hash that
-- was asked for, and the place of what it called its best block, not above `top`.
pub record Answers {Witness Script : Type 0} (node : ℕ → Node Witness Script) (top : ℕ)
    : Type 0 where
  pub best : (t : ℕ) → (hash : Bytes) × ((node t).get_best_block_hash ≡ some hash)
  pub hashes : (t h : ℕ) → h ≤ top → (hash : Bytes) × ((node t).get_block_hash h ≡ some hash)
  pub found :
      (t h : ℕ) (hash : Bytes)
      → (node t).get_block_hash h ≡ some hash
      → (b : Block Witness Script) × ((node (t + 1)).get_block hash ≡ some b)
        × (b.header.hash ≡ hash)
  pub infos :
      (t t' : ℕ) (hash : Bytes)
      → (node t).get_best_block_hash ≡ some hash
      → (i : GetBlockResult) × ((node t').get_block_info hash ≡ some i) × (i.height ≤ top)

module _ {Witness Script : Type 0} (node : ℕ → Node Witness Script) (has_receiver : ℕ → Bool)
    (reorg_max_len : ℕ) where
  pub send_block-Seen :
      (seen : List BlockId) (k : ℕ) (e : BlockEvent Witness Script)
      (next : Follower Witness Script → Outcome (Turn Witness Script))
      (st : Follower Witness Script)
      → e.reorg_len ≡ k
      → st.last_hash ≡ st.checkpoint.block.hash
      → drop k seen ≡ blocks st.checkpoint
      → e.block.header.value.prev_hash ≡ st.checkpoint.block.hash
      → e.id.height ≡ st.checkpoint.block.height + 1
      → e.block.header.hash ≡ e.id.hash
      → ((st2 : Follower Witness Script)
          → st2.last_hash ≡ st2.checkpoint.block.hash
          → follow seen e ≡ blocks st2.checkpoint
          → st2.sent ≡ st.sent ++ (e ∷ [])
          → st2.checkpoint.block.height ≡ e.id.height
          → Results (Seen (follow seen e) 0 (st.sent ++ (e ∷ []))) (next st2))
      → Results (Seen seen k st.sent) (send_block node has_receiver reorg_max_len e next st)
  unfolding send_block check_ordering
  send_block-Seen seen k e next st r l d p h x n =
      let ordered : st.last_hash ≡ e.block.header.value.prev_hash = l ∙ sym p in
      let below = insert-next e.id st.checkpoint (omega (arith, h)) in
      let d' : drop e.reorg_len seen ≡ blocks st.checkpoint = ap (λ (j : ℕ). drop j seen) r ∙ d in
      let ext : Extends (drop e.reorg_len seen) e = rw d' (p, h, x) in
      rw
        (
          if_pos (Bytes-discrete st.last_hash e.block.header.value.prev_hash) ordered
              (ok e.block.header.hash) panic,
          Results,
        )
        (elim (Bool-cases (has_receiver st.calls)) [
          | inr gone ↦
              rw (gone, Results)
                (Sent-none seen k (record st { last_hash = e.block.header.hash }) d)
          | inl here ↦
              rw (here, below, Results)
                (let st2 = record st {
                  checkpoint = record { block = e.id; prev = blocks st.checkpoint };
                  last_hash = e.block.header.hash;
                  sent = st.sent ++ (e ∷ []);
                } in
                  Results-weaken (Seen (follow seen e) 0 (st.sent ++ (e ∷ [])))
                    (Seen seen k st.sent) (next st2) (n st2 x (ap (◌∷◌ e.id) d') refl refl)
                    (λ t q. Seen-more seen k st.sent e t ext q))
        ])
