-- ===== src/Indexer/Tests.antt =====
-- A history with a mint and a move, numbered.
use wjk_20_indexer.Prelude.{ℕ, refl, ◌≡◌, List, [], ◌∷◌, ok, Bytes, arith, ℕ_discrete}
use wjk_20_indexer.Tokens.Types.{HistoryTokenAction, Bytes-discrete}
use wjk_20_indexer.Db.Types.{mint, send, receive, send_receive, from_token_history}
use wjk_20_indexer.Indexer.{history_of}
use wjk_20_indexer.Indexer.Numbers.{Appends, history_of-Appends}

abbrev word : Bytes
word = 119 ∷ 106 ∷ 107 ∷ 32 ∷ []

abbrev alice : Bytes
alice = 1 ∷ []

abbrev bob : Bytes
bob = 2 ∷ []

abbrev actions : List (HistoryTokenAction ℕ)
actions =
    HistoryTokenAction.mint word 5 alice [] 0
    ∷ HistoryTokenAction.send word 3 bob alice [] 1
    ∷ HistoryTokenAction.send word 2 bob bob [] 0
    ∷ []

move_run :
    history_of 9 actions 40
    ≡ ok (
      (
        record { address = alice; token = word; id = 41 },
        record { height = 9; action = mint 5 [] 0 },
      )
          ∷ (
            record { address = alice; token = word; id = 43 },
            record { height = 9; action = send 3 bob [] 1 },
          )
          ∷ (
            record { address = bob; token = word; id = 42 },
            record { height = 9; action = receive 3 alice [] 1 },
          )
          ∷ (
            record { address = bob; token = word; id = 44 },
            record { height = 9; action = send_receive 2 [] 0 },
          )
          ∷ [],
      44,
    )
unfolding history_of from_token_history Bytes-discrete ℕ_discrete
move_run = refl

history_of-Appends_example : Appends 40 6 (history_of 9 actions 40)
history_of-Appends_example = history_of-Appends 9 actions 40 (omega arith)
