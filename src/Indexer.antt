-- ===== src/Indexer.antt =====
-- `InscriptionIndexer::handle_block` of src/inscriptions/indexer.rs: the entries of the history that
-- the processed actions of a block become, with their numbers.
mod Numbers
pub mod Handling
pub mod Receiving
mod Tests
use wjk_20_indexer.Prelude.{ℕ, List, [], ◌∷◌, ◌++◌, Option, none, some, Outcome, ok, panic, ◌>>=◌}
use wjk_20_indexer.Tokens.Types.{FullHash, OriginalTokenTick, HistoryTokenAction}
use wjk_20_indexer.Tokens.Cache.{inc_u64}
use wjk_20_indexer.Db.Types.{
  AddressTokenIdDb, HistoryValue, TokenHistoryDb, deploy, mint, deploy_transfer, send, receive,
  send_receive, from_token_history,
}

abbrev pub Entries : (Amount : Type 0) → Type 0
Entries Amount = List (AddressTokenIdDb × HistoryValue Amount)

module _ {Amount : Type 0} where
  abbrev pub tick : HistoryTokenAction Amount → OriginalTokenTick
  tick (HistoryTokenAction.deploy t max lim dec r txid vout) = t
  tick (HistoryTokenAction.mint t amt r txid vout) = t
  tick (HistoryTokenAction.deploy_transfer t amt r txid vout) = t
  tick (HistoryTokenAction.send t amt r s txid vout) = t

  abbrev pub recipient : HistoryTokenAction Amount → FullHash
  recipient (HistoryTokenAction.deploy t max lim dec r txid vout) = r
  recipient (HistoryTokenAction.mint t amt r txid vout) = r
  recipient (HistoryTokenAction.deploy_transfer t amt r txid vout) = r
  recipient (HistoryTokenAction.send t amt r s txid vout) = r

  abbrev pub sender : HistoryTokenAction Amount → Option FullHash
  sender (HistoryTokenAction.send t amt r s txid vout) = some s
  sender _ = none

  abbrev pub entry :
      ℕ
      → FullHash
      → OriginalTokenTick
      → ℕ
      → TokenHistoryDb Amount
      → AddressTokenIdDb × HistoryValue Amount
  entry height a t id done =
      (record { address = a; token = t; id = id }, record { height = height; action = done })

  abbrev pub single :
      ℕ → HistoryTokenAction Amount → TokenHistoryDb Amount → ℕ → Outcome (Entries Amount × ℕ)
  single height a done last =
      ok (entry height (recipient a) (tick a) (inc_u64 last) done ∷ [], inc_u64 last)

  -- The two entries of a move: `action.sender().unwrap()`, then the sender's with the later number.
  abbrev pub double :
      ℕ
      → HistoryTokenAction Amount
      → TokenHistoryDb Amount
      → ℕ
      → (FullHash → TokenHistoryDb Amount)
      → Option FullHash
      → Outcome (Entries Amount × ℕ)
  double height a done last received none = panic
  double height a done last received (some s) =
      let id = inc_u64 last in
      let next = inc_u64 id in
      ok (
        entry height s (tick a) next done
            ∷ entry height (recipient a) (tick a) id (received s)
            ∷ [],
        next,
      )

  abbrev pub entries_of :
      ℕ → HistoryTokenAction Amount → TokenHistoryDb Amount → ℕ → Outcome (Entries Amount × ℕ)
  entries_of height a (send amt to txid vout) last =
      double height a (send amt to txid vout) last (λ s. receive amt s txid vout) (sender a)
  entries_of height a done last = single height a done last

  -- `.flat_map(..).collect()`, with the number that is last at its end.
  unfoldable pub history_of :
      ℕ → List (HistoryTokenAction Amount) → ℕ → Outcome (Entries Amount × ℕ)
  history_of height [] last = ok ([], last)
  history_of height (a ∷ later) last =
      entries_of height a (from_token_history Amount a) last >>= λ (r : Entries Amount × ℕ).
      history_of height later r.1 >>= λ (q : Entries Amount × ℕ). ok (r.0 ++ q.0, q.1)
