-- ===== src/Tokens/Process/Branches.antt =====
-- The tests and early `continue`s of `process_token_actions` in src/tokens/parser.rs.
use wjk_20_indexer.Prelude.{
  ℕ, suc, ◌≡◌, refl, none, ite, ok, arith, if◌then◌else◌, Bool, true, false,
}
use wjk_20_indexer.Tokens.Platform.{Platform}
use wjk_20_indexer.Tokens.Types.{TokenCache}
use wjk_20_indexer.Tokens.Holders.{Holders}
use wjk_20_indexer.Tokens.Cache.{Step}
use wjk_20_indexer.Tokens.Process.Invariant.{IsValid, Settles}
use wjk_20_indexer.Tokens.Process.Updates.{KeepsTokens-refl}

module _ (p : Platform) where
  open p use {Amount}

  -- An action that changes nothing settles.
  pub skip-Settles :
      (n : ℕ) (c : TokenCache Amount) (h : Holders Amount)
      → IsValid p (suc n) c
      → Settles p n c (ok (c, h, none))
  skip-Settles n c h v = record {
    cache = c;
    holders = h;
    entry = none;
    returns = refl;
    valid = record {
      sound = v.sound;
      backed = v.backed;
      amounts = v.amounts;
      counts = v.counts;
      known = v.known;
      room = λ k. omega (arith, v.room k);
    };
    conserves = λ t. (omega arith, omega arith);
    keeps = KeepsTokens-refl p c;
    shrinks = λ l e q. q;
  }

  -- Both sides of a test settle.
  pub if-Settles :
      (n : ℕ) (c : TokenCache Amount) (b : Bool) (s s' : Step p)
      → (b ≡ true → Settles p n c s)
      → (b ≡ false → Settles p n c s')
      → Settles p n c (if b then s else s')
  if-Settles n c true s s' h h' = h refl
  if-Settles n c false s s' h h' = h' refl

  pub ite-Settles {ℓ} :
      {P : Type ℓ} (n : ℕ) (c : TokenCache Amount) (d : Dec P) (s s' : Step p)
      → (P → Settles p n c s)
      → (¬ P → Settles p n c s')
      → Settles p n c (ite d s s')
  ite-Settles n c (yes q) s s' h h' = h q
  ite-Settles n c (no q) s s' h h' = h' q
