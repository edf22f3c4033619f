-- ===== src/Tokens/Process/Deploy.antt =====
-- The `TokenAction::Deploy` branch of src/tokens/parser.rs keeps the invariant.
use wjk_20_indexer.Prelude.{
  ℕ, suc, ◌≤◌, ◌≡◌, refl, none, some, lookup, insert, lookup-insert, ite, arith, Option-cases, inl,
  inr,
}
use wjk_20_indexer.Tokens.Platform.{Platform}
use wjk_20_indexer.Tokens.Types.{
  FullHash, OriginalTokenTick, LowerCaseTokenTick, DeployProtoDb, InscriptionId, HistoryTokenAction,
  TokenMeta, TokenCache, Bytes-discrete,
}
use wjk_20_indexer.Tokens.Holders.{Holders}
use wjk_20_indexer.Tokens.Cache.{lower}
use wjk_20_indexer.Tokens.Minting.{process_deploy}
use wjk_20_indexer.Tokens.Process.Sums.{held, supply_of}
use wjk_20_indexer.Tokens.Process.Invariant.{IsValid, TokensSound, KeepsTokens, Settles}
use wjk_20_indexer.Tokens.Process.Branches.{skip-Settles}
use wjk_20_indexer.Tokens.Process.Updates.{Known-keeps, SameTerms-refl, pending_same}

module _ (p : Platform) where
  open p use {Amount, units, capacity}

  module _ (n : ℕ) (genesis : InscriptionId) (proto : DeployProtoDb Amount) (owner : FullHash)
      (c : TokenCache Amount) (v : IsValid p (suc n) c)
      (vacant : lookup Bytes-discrete (lower p proto.tick) c.tokens ≡ none)
      (none_minted : units proto.supply ≡ 0) (fits : units proto.max ≤ capacity) where
    abbrev deployed : TokenMeta Amount
    deployed = record { genesis = genesis; proto = proto }

    abbrev after : TokenCache Amount
    after = record c { tokens = insert Bytes-discrete (lower p proto.tick) deployed c.tokens }

    looked_up :
        (k : LowerCaseTokenTick)
        → lookup Bytes-discrete k after.tokens
          ≡ ite
              (Bytes-discrete k (lower p proto.tick))
              (some deployed)
              (lookup Bytes-discrete k c.tokens)
    looked_up k = lookup-insert Bytes-discrete k (lower p proto.tick) deployed c.tokens

    after_sound : TokensSound p after
    after_sound k m e = ground (arith, looked_up k, v.sound k m)

    after_keeps : KeepsTokens p c after
    after_keeps k m e = (m, ground (arith, looked_up k), SameTerms-refl p m)

    after-supply_of : (t : OriginalTokenTick) → supply_of p t after ≡ supply_of p t c
    unfolding supply_of
    after-supply_of t = ground (arith, looked_up (lower p t))

    after-held : (t : OriginalTokenTick) → held p t after ≡ held p t c
    unfolding held
    after-held t = refl

    vacant-Settles : (h : Holders Amount) → Settles p n c (process_deploy p genesis proto owner c h)
    unfolding process_deploy
    vacant-Settles h = record {
      cache = after;
      holders = h;
      entry = some (
          HistoryTokenAction.deploy proto.tick proto.max proto.lim proto.dec owner genesis.txid
            genesis.index);
      returns = rw (vacant, process_deploy);
      valid = record {
        sound = after_sound;
        backed = λ t. omega (arith, v.backed t, after-supply_of t, after-held t);
        amounts = λ k. omega (arith, v.amounts k, pending_same p k c after refl);
        counts = λ k. omega (arith, v.counts k, pending_same p k c after refl);
        known = λ loc s e q. Known-keeps p c after e after_keeps (v.known loc s e q);
        room = λ k. omega (arith, v.room k);
      };
      conserves = λ t. (omega (arith, after-held t), omega (arith, after-supply_of t));
      keeps = after_keeps;
      shrinks = λ loc e q. q;
    }

  pub process_deploy-Settles :
      (n : ℕ) (genesis : InscriptionId) (proto : DeployProtoDb Amount) (owner : FullHash)
      (c : TokenCache Amount) (h : Holders Amount)
      → IsValid p (suc n) c
      → (units proto.supply ≡ 0) × (units proto.max ≤ capacity)
      → Settles p n c (process_deploy p genesis proto owner c h)
  process_deploy-Settles n genesis proto owner c h v (zero_supply, fits) =
      elim (Option-cases (lookup Bytes-discrete (lower p proto.tick) c.tokens)) [
        | inl vacant ↦ vacant-Settles n genesis proto owner c v vacant zero_supply fits h
        | inr (m, taken) ↦
            unfold process_deploy in rw (taken, process_deploy) (skip-Settles p n c h v)
      ]
