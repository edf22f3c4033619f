-- ===== src/Follow/Tests.antt =====
-- A turn that leaves a stale block and sends two others.
use wjk_20_indexer.Prelude.{
  ℕ, ◌-◌, ◌≡◌, refl, true, none, some, List, [], ◌∷◌, Bytes, ite, ltb, if◌then◌else◌, map, Outcome,
  ok, panic, Results, arith, ℕ_discrete,
}
use wjk_20_indexer.Tokens.Types.{Bytes-discrete}
use wjk_20_indexer.Blocks.{insert, extend, extend_from, push, find_base}
use wjk_20_indexer.Wire.Types.{from_u8}
use wjk_20_indexer.Wire.Block.{Block}
use wjk_20_indexer.Follow.{
  pos, negsuc, going, returned, Node, Follower, Turn, check_ordering, send_block, next_block,
  catch_up, roll_back, go_on, turn,
}
use wjk_20_indexer.Follow.Views.{blocks, Seen, Answers}
use wjk_20_indexer.Follow.Turns.{turn-Seen}

abbrev before : Bytes → Bytes
before [] = []
before (h ∷ hs) = (h - 1) ∷ []

abbrev mined : Bytes → Block Unit Unit
mined hash = record {
  size = 0;
  header = record {
    hash = hash;
    value = record {
      version = 1;
      prev_hash = before hash;
      merkle_root = [];
      timestamp = 0;
      bits = 0;
      nonce = 0;
    };
  };
  aux_pow_extension = none;
  tx_count = from_u8 0;
  txs = [];
}

-- Blocks whose hash is their height, but for a stale one with the hash 9.
abbrev node : ℕ → Node Unit Unit
node t = record {
  get_best_block_hash = some (3 ∷ []);
  get_block_info = λ hash.
      ite (Bytes-discrete hash (9 ∷ [])) (some (record { confirmations = negsuc 0; height = 2 }))
        (some (record { confirmations = pos 1; height = 3 }));
  get_block_hash = λ h. some (h ∷ []);
  get_block = λ hash. some (mined hash);
}

best_info :
    (hash : Bytes)
    → some (3 ∷ []) ≡ some hash
    → (node 0).get_block_info hash ≡ some (record { confirmations = pos 1; height = 3 })
unfolding Bytes-discrete ℕ_discrete
best_info hash e = let same : 3 ∷ [] ≡ hash = cc in rw (← same) refl

answers : Answers node 3
answers = record {
  best = λ t. (3 ∷ [], refl);
  hashes = λ t h low. (h ∷ [], refl);
  found = λ t h hash e. (mined hash, refl, refl);
  infos =
      λ t t' hash e. (record { confirmations = pos 1; height = 3 }, best_info hash e, omega arith);
}

abbrev follower : Follower Unit Unit
follower = record {
  checkpoint = record {
    block = record { height = 2; hash = 9 ∷ [] };
    prev = record { height = 1; hash = 1 ∷ [] } ∷ record { height = 0; hash = 0 ∷ [] } ∷ [];
  };
  last_hash = 9 ∷ [];
  calls = 0;
  sent = [];
}

turn-Seen_example :
    Results
      (λ (t : Turn Unit Unit). (n : ℕ) × Seen (blocks follower.checkpoint) n [] t)
      (turn node (λ t. true) 30 follower)
unfolding Bytes-discrete ℕ_discrete
turn-Seen_example =
    turn-Seen node (λ t. true) 30 3 answers follower (blocks follower.checkpoint) 1
      (record { height = 1; hash = 1 ∷ [] }) refl refl refl (omega arith) refl

abbrev turned : Outcome (Turn Unit Unit) → Follower Unit Unit
turned panic = follower
turned (ok (going st)) = st
turned (ok (returned st)) = st

abbrev lengths : Follower Unit Unit → List ℕ
lengths st = map (λ e. e.reorg_len) st.sent

-- The first event carries the length of the reorganisation.
length_sent : lengths (turned (turn node (λ t. true) 30 follower)) ≡ 1 ∷ 0 ∷ []
unfolding turn roll_back go_on catch_up next_block send_block check_ordering insert find_base extend
    extend_from push Bytes-discrete ℕ_discrete
length_sent = refl

-- A node whose block at height 2 is replaced between two calls of the first turn.
abbrev moving : ℕ → Node Unit Unit
moving t = record (node t) { get_block = λ hash. some (mined (if ltb t 7 then 8 ∷ [] else hash)) }

-- The block left by the first turn is in no event: the receiver is not told of the reorganisation.
length_lost :
    lengths (turned (turn moving (λ t. true) 30 (turned (turn moving (λ t. true) 30 follower))))
    ≡ 0 ∷ 0 ∷ []
unfolding turn roll_back go_on catch_up next_block send_block check_ordering insert find_base extend
    extend_from push Bytes-discrete ℕ_discrete
length_lost = refl
