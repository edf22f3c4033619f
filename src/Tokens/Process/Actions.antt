-- ===== src/Tokens/Process/Actions.antt =====
-- `process_token_actions` of src/tokens/parser.rs as a whole: it returns, keeps the invariant, and
-- moves the amounts as its history says.
use wjk_20_indexer.Prelude.{
  ℕ, suc, ◌+◌, ◌≤◌, ◌≡◌, refl, ◌∙◌, Option, none, some, List, [], ◌∷◌, All, length, lookup, Outcome,
  ok, arith,
}
use wjk_20_indexer.Tokens.Platform.{Platform}
use wjk_20_indexer.Tokens.Types.{
  OriginalTokenTick, LowerCaseTokenTick, TokenMeta, TokenAction, TokenCache, HistoryTokenAction,
  Bytes-discrete,
}
use wjk_20_indexer.Tokens.Holders.{Holders}
use wjk_20_indexer.Tokens.Process.{process_action, process_all, process_token_actions, push}
use wjk_20_indexer.Tokens.Process.Sums.{
  held, pending, counted, supply_of, minted, burned, minted_all, burned_all,
}
use wjk_20_indexer.Tokens.Process.Invariant.{
  IsValid, IsQueued, SameTerms, KeepsTokens, Shrinks, Settles,
}
use wjk_20_indexer.Tokens.Process.Updates.{KeepsTokens-refl}
use wjk_20_indexer.Tokens.Process.Mint.{process_mint-Settles}
use wjk_20_indexer.Tokens.Process.Deploy.{process_deploy-Settles}
use wjk_20_indexer.Tokens.Process.Transfer.{process_transfer-Settles}
use wjk_20_indexer.Tokens.Process.Deliver.{process_transferred-Settles}

module _ (p : Platform) where
  open p use {Amount, units}

  process_action-Settles :
      (n : ℕ) (a : TokenAction Amount) (c : TokenCache Amount) (h : Holders Amount)
      → IsValid p (suc n) c
      → IsQueued p c a
      → Settles p n c (process_action p a c h)
  unfolding process_action
  process_action-Settles n (TokenAction.deploy genesis proto owner) c h v q =
      process_deploy-Settles p n genesis proto owner c h v q
  process_action-Settles n (TokenAction.mint owner proto txid vout) c h v q =
      process_mint-Settles p n owner proto txid vout c h v
  process_action-Settles n (TokenAction.transfer location owner proto txid vout) c h v q =
      process_transfer-Settles p n location owner proto txid vout c h v q
  process_action-Settles n (TokenAction.transferred location recipient txid vout) c h v q =
      process_transferred-Settles p n location recipient txid vout c h v

  -- A queued action stays one where no entry is added.
  IsQueued-Shrinks :
      (c c' : TokenCache Amount) (a : TokenAction Amount)
      → Shrinks p c c'
      → IsQueued p c a
      → IsQueued p c' a
  IsQueued-Shrinks c c' (TokenAction.deploy genesis proto owner) s q = q
  IsQueued-Shrinks c c' (TokenAction.mint owner proto txid vout) s q = q
  IsQueued-Shrinks c c' (TokenAction.transfer location owner proto txid vout) s q =
      λ e r. q e (s location e r)
  IsQueued-Shrinks c c' (TokenAction.transferred location recipient txid vout) s q = q

  pub All-IsQueued-Shrinks :
      (c c' : TokenCache Amount) (queue : List (TokenAction Amount))
      → Shrinks p c c'
      → All (IsQueued p c) queue
      → All (IsQueued p c') queue
  All-IsQueued-Shrinks c c' [] s q = q
  All-IsQueued-Shrinks c c' (a ∷ queue) s q =
      (IsQueued-Shrinks c c' a s q.0, All-IsQueued-Shrinks c c' queue s q.1)

  KeepsTokens-trans :
      (c c' c'' : TokenCache Amount)
      → KeepsTokens p c c'
      → KeepsTokens p c' c''
      → KeepsTokens p c c''
  KeepsTokens-trans c c' c'' k k' l m e =
      let (m', found, same) = k l m e in
      let (m'', found', same') = k' l m' found in
      (
        m'',
        found',
        record {
          genesis = same'.genesis ∙ same.genesis;
          tick = same'.tick ∙ same.tick;
          max = same'.max ∙ same.max;
          lim = same'.lim ∙ same.lim;
          dec = same'.dec ∙ same.dec;
          deployer = same'.deployer ∙ same.deployer;
        },
      )

  -- A run returns this.
  pub record Settled (c : TokenCache Amount)
      (s : Outcome (TokenCache Amount × Holders Amount × List (HistoryTokenAction Amount)))
      : Type 0 where
    pub cache : TokenCache Amount
    pub holders : Holders Amount
    pub history : List (HistoryTokenAction Amount)
    pub returns : s ≡ ok (cache, holders, history)
    pub valid : IsValid p 0 cache
    pub held_eq :
        (t : OriginalTokenTick)
        → held p t cache + burned_all p t history ≡ held p t c + minted_all p t history
    pub supply_eq :
        (t : OriginalTokenTick) → supply_of p t cache ≡ supply_of p t c + minted_all p t history
    pub keeps : KeepsTokens p c cache

  minted-push :
      (t : OriginalTokenTick) (e : Option (HistoryTokenAction Amount))
      (es : List (HistoryTokenAction Amount))
      → minted_all p t (push p e es) ≡ minted p t e + minted_all p t es
  unfolding minted_all
  minted-push t none es = omega arith
  minted-push t (some e) es = refl

  burned-push :
      (t : OriginalTokenTick) (e : Option (HistoryTokenAction Amount))
      (es : List (HistoryTokenAction Amount))
      → burned_all p t (push p e es) ≡ burned p t e + burned_all p t es
  unfolding burned_all
  burned-push t none es = omega arith
  burned-push t (some e) es = refl

  process_all-Settled :
      (queue : List (TokenAction Amount)) (c : TokenCache Amount) (h : Holders Amount)
      → IsValid p (length queue) c
      → All (IsQueued p c) queue
      → Settled c (process_all p queue c h)
  unfolding process_all minted_all burned_all
  process_all-Settled [] c h v q = record {
    cache = c;
    holders = h;
    history = [];
    returns = refl;
    valid = v;
    held_eq = λ t. omega arith;
    supply_eq = λ t. omega arith;
    keeps = KeepsTokens-refl p c;
  }
  process_all-Settled (a ∷ queue) c h v q =
      let step = process_action-Settles (length queue) a c h v q.0 in
      let rest =
        process_all-Settled queue step.cache step.holders step.valid
          (All-IsQueued-Shrinks c step.cache queue step.shrinks q.1) in
      record {
        cache = rest.cache;
        holders = rest.holders;
        history = push p step.entry rest.history;
        returns = rw (step.returns, process_all, rest.returns);
        valid = rest.valid;
        held_eq = λ t. omega (
          arith,
          step.conserves t,
          rest.held_eq t,
          minted-push t step.entry rest.history,
          burned-push t step.entry rest.history,
        );
        supply_eq = λ t.
            omega
              (arith, step.conserves t, rest.supply_eq t, minted-push t step.entry rest.history);
        keeps = KeepsTokens-trans c step.cache rest.cache step.keeps rest.keeps;
      }

  -- The queue plays no part in the invariant.
  drained-Settled :
      (c : TokenCache Amount) (h : Holders Amount)
      → IsValid p (length c.token_actions) c
      → All (IsQueued p c) c.token_actions
      → Settled (record c { token_actions = [] }) (process_token_actions p c h)
  unfolding process_token_actions held supply_of pending counted
  drained-Settled c h v q =
      process_all-Settled c.token_actions (record c { token_actions = [] }) h
        (record {
          sound = v.sound;
          backed = v.backed;
          amounts = v.amounts;
          counts = v.counts;
          known = v.known;
          room = v.room;
        })
        (All-IsQueued-Shrinks c (record c { token_actions = [] }) c.token_actions (λ l e r. r) q)

  module _ (c : TokenCache Amount) (h : Holders Amount)
      (valid : IsValid p (length c.token_actions) c)
      (queued : All (IsQueued p c) c.token_actions) where
    -- On a valid cache, whose queued actions are as parsing leaves them, `process_token_actions`
    -- does not panic, and the cache that it returns is valid again.
    pub process_token_actions-IsValid :
        (c' : TokenCache Amount) × (h' : Holders Amount) × (history : List
          (HistoryTokenAction Amount))
        × (process_token_actions p c h ≡ ok (c', h', history))
        × IsValid p 0 c'
    process_token_actions-IsValid =
        let s = drained-Settled c h valid queued in
        (s.cache, s.holders, s.history, s.returns, s.valid)

    module _ {c' : TokenCache Amount} {h' : Holders Amount}
        {history : List (HistoryTokenAction Amount)}
        (returned : process_token_actions p c h ≡ ok (c', h', history)) where
      outcome :
          (s : Settled (record c { token_actions = [] }) (process_token_actions p c h))
          → s.cache ≡ c'
      outcome s = ground (arith, s.returns)

      history_outcome :
          (s : Settled (record c { token_actions = [] }) (process_token_actions p c h))
          → s.history ≡ history
      history_outcome s = ground (arith, s.returns)

      -- Amounts are conserved: when a valid cache, whose queued actions are as parsing leaves them, is
      -- processed, what all its accounts hold of a token grows by exactly what the history records as
      -- minted and shrinks by exactly what it records as sent to the burn address.
      pub held-process_token_actions :
          (t : OriginalTokenTick)
          → held p t c' + burned_all p t history ≡ held p t c + minted_all p t history
      unfolding held
      held-process_token_actions t =
          let s = drained-Settled c h valid queued in
          rw (← outcome s, ← history_outcome s) (s.held_eq t)

      -- When a valid cache, whose queued actions are as parsing leaves them, is processed, the recorded
      -- supply of every token grows by exactly what the history records as minted of it, and no token's
      -- supply is above its maximum afterwards.
      pub supply-process_token_actions :
          ((t : OriginalTokenTick) → supply_of p t c' ≡ supply_of p t c + minted_all p t history)
          × ((l : LowerCaseTokenTick) (m : TokenMeta Amount)
              → lookup Bytes-discrete l c'.tokens ≡ some m
              → units m.proto.supply ≤ units m.proto.max)
      unfolding supply_of
      supply-process_token_actions =
          let s = drained-Settled c h valid queued in
          rw (← outcome s, ← history_outcome s)
            (s.supply_eq, λ l m e. (s.valid.sound l m e).minted_le)

      -- When a valid cache, whose queued actions are as parsing leaves them, is processed, a deployed
      -- token stays deployed on its own terms: its genesis, tick, maximum, limit, decimals and deployer
      -- are the same.
      pub terms-process_token_actions :
          (l : LowerCaseTokenTick) (m : TokenMeta Amount)
          → lookup Bytes-discrete l c.tokens ≡ some m
          → (m' : TokenMeta Amount) × (lookup Bytes-discrete l c'.tokens ≡ some m')
            × SameTerms p m m'
      terms-process_token_actions =
          let s = drained-Settled c h valid queued in rw (← outcome s) s.keeps
