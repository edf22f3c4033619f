-- ===== src/Indexer/Receiving/Consecutive.antt =====
-- The log of the last blocks that `Indexer::index` of src/inscriptions/mod.rs keeps has no gap.
use wjk_20_indexer.Prelude.{
  ℕ, ◌+◌, ◌-◌, ◌%◌, ◌^◌, ◌<◌, ◌≤◌, ◌≡◌, refl, sym, ap, ◌∙◌, subst, Bool, true, false, not,
  Bool-cases, inl, inr, Option, none, some, List, [], ◌∷◌, ◌++◌, length, ltb, lt→ltb, ◌==◌, ==_iff,
  if◌then◌else◌, Outcome, ok, ◌>>=◌, arith,
}
use wjk_20_indexer.Prelude
use wjk_20_indexer.Store.{multi_get_kv_strict}
use wjk_20_indexer.Store.Laws.{keys}
use wjk_20_indexer.Db.{Db}
use wjk_20_indexer.Reorg.Cache.{
  ReorgHistoryBlock, ReorgCache, empty_block, pop_first, insert_block, new_block, update_last,
  push_token_entry, push_ordinals_entry, restore_block, restore_blocks,
}
use wjk_20_indexer.Reorg.Data.{ProcessedData, log, write, write_all, spent_prevouts}

-- `P` holds of what is returned, if anything is.
abbrev pub Whenever : {A : Type 0} → (A → Type 0) → Outcome A → Type 0
Whenever P Prelude.panic = Unit
Whenever P (ok a) = P a

module _ {A B : Type 0} where
  Whenever->>= :
      (P : A → Type 0) (Q : B → Type 0) (step : Outcome A) (next : A → Outcome B)
      → Whenever P step
      → ((a : A) → P a → Whenever Q (next a))
      → Whenever Q (step >>= next)
  Whenever->>= P Q Prelude.panic next h n = tt
  Whenever->>= P Q (ok a) next h n = n a h

abbrev Any : {A : Type 0} → A → Type 0
Any a = Unit

Whenever-Any : {A : Type 0} (step : Outcome A) → Whenever Any step
Whenever-Any Prelude.panic = tt
Whenever-Any (ok a) = tt

module _ {Amount : Type 0} (ks : List ℕ) where
  abbrev HasKeys : ReorgCache Amount → Type 0
  HasKeys c = keys c.blocks ≡ ks

  update_keys :
      (f : ReorgHistoryBlock Amount → ReorgHistoryBlock Amount)
      (bs : List (ℕ × ReorgHistoryBlock Amount)) (len : ℕ)
      → keys bs ≡ ks
      → Whenever HasKeys (update_last f (record { blocks = bs; len = len }))
  update_keys f [] len h = tt
  update_keys f ((k, b) ∷ bs) len h = h

  token-HasKeys :
      (e : _) (c : ReorgCache Amount) → HasKeys c → Whenever HasKeys (push_token_entry e c)
  unfolding push_token_entry
  token-HasKeys e c h = update_keys _ c.blocks c.len h

  ordinals-HasKeys :
      (e : _) (c : ReorgCache Amount) → HasKeys c → Whenever HasKeys (push_ordinals_entry e c)
  unfolding push_ordinals_entry
  ordinals-HasKeys e c h = update_keys _ c.blocks c.len h

  log-HasKeys :
      (d : ProcessedData Amount) (db : Db Amount) (c : ReorgCache Amount)
      → HasKeys c
      → Whenever HasKeys (log d db c)
  unfolding log
  log-HasKeys (ProcessedData.info n i proof) db c h = h
  log-HasKeys (ProcessedData.prevouts to_write to_remove) db c h =
      Whenever->>= Any HasKeys (spent_prevouts to_remove to_write db.prevouts) _ (Whenever-Any _)
        (λ spent _. ordinals-HasKeys _ c h)
  log-HasKeys (ProcessedData.full_hash addresses) db c h = h
  log-HasKeys (ProcessedData.history n last entries) db c h = token-HasKeys _ c h
  log-HasKeys (ProcessedData.tokens metas balances to_write to_remove) db c h =
      Whenever->>= HasKeys HasKeys (push_token_entry _ c) _ (token-HasKeys _ c h) λ c1 h1.
        Whenever->>= HasKeys HasKeys (push_token_entry _ c1) _ (token-HasKeys _ c1 h1) λ c2 h2.
          Whenever->>= HasKeys HasKeys (push_token_entry _ c2) _ (token-HasKeys _ c2 h2) λ c3 h3.
            Whenever->>= HasKeys HasKeys (push_token_entry _ c3) _ (token-HasKeys _ c3 h3) λ c4 h4.
              Whenever->>= Any HasKeys
                (multi_get_kv_strict to_remove db.address_location_to_transfer) _ (Whenever-Any _)
                λ gone _.
                  Whenever->>= HasKeys HasKeys (push_token_entry _ c4) _ (token-HasKeys _ c4 h4)
                    λ c5 h5. token-HasKeys _ c5 h5
  log-HasKeys (ProcessedData.inscription_partials to_remove to_write) db c h =
      Whenever->>= HasKeys HasKeys (push_ordinals_entry _ c) _ (ordinals-HasKeys _ c h)
        λ c1 h1. ordinals-HasKeys _ c1 h1
  log-HasKeys (ProcessedData.inscription_offset to_remove to_write) db c h =
      Whenever->>= HasKeys HasKeys (push_ordinals_entry _ c) _ (ordinals-HasKeys _ c h)
        λ c1 h1. ordinals-HasKeys _ c1 h1

  abbrev pub SomeKeys : Option (ReorgCache Amount) → Type 0
  SomeKeys none = ⊥
  SomeKeys (some c) = HasKeys c

  abbrev pub Logged : Db Amount × Option (ReorgCache Amount) → Type 0
  Logged r = SomeKeys r.1

  -- Writing a block adds to the log of the newest block, and to no other.
  pub write_all-SomeKeys :
      (ds : List (ProcessedData Amount)) (db : Db Amount) (o : Option (ReorgCache Amount))
      → SomeKeys o
      → Whenever Logged (write_all ds db o)
  unfolding write_all write
  write_all-SomeKeys [] db o h = h
  write_all-SomeKeys (d ∷ ds) db none h = absurd h
  write_all-SomeKeys (d ∷ ds) db (some c) h =
      Whenever->>= Logged Logged (write d db (some c)) _
        (Whenever->>= HasKeys Logged (log d db c) _ (log-HasKeys d db c h) (λ c' k. k))
        (λ r k. write_all-SomeKeys ds r.0 r.1 k)

abbrev pub Under : ℕ → List ℕ → Type 0
Under h [] = Unit
Under h (k ∷ ks) = h ≡ k + 1

-- Heights that follow each other, the highest first, and of which the next one fits 32 bits.
abbrev pub Consecutive : List ℕ → Type 0
Consecutive [] = Unit
Consecutive (h ∷ ks) = (h + 1 < 2 ^ 32) × Under h ks × Consecutive ks

module _ {Amount : Type 0} where
  pop_first-Consecutive :
      (bs : List (ℕ × ReorgHistoryBlock Amount))
      → Consecutive (keys bs)
      → Consecutive (keys (pop_first bs))
        × ((h : ℕ) → Under h (keys bs) → Under h (keys (pop_first bs)))
  unfolding pop_first
  pop_first-Consecutive [] c = (tt, λ h u. tt)
  pop_first-Consecutive (x ∷ []) c = (tt, λ h u. tt)
  pop_first-Consecutive ((k, b) ∷ (j, b') ∷ bs) (f, u, c) =
      let (c', under) = pop_first-Consecutive ((j, b') ∷ bs) c in ((f, under k u, c'), λ h v. v)

  insert-Consecutive :
      (height : ℕ) (bs : List (ℕ × ReorgHistoryBlock Amount))
      → height + 1 < 2 ^ 32
      → Under height (keys bs)
      → Consecutive (keys bs)
      → Consecutive (keys (insert_block height empty_block bs))
  unfolding insert_block
  insert-Consecutive height [] f u c = (f, tt, tt)
  insert-Consecutive height ((k, b) ∷ bs) f u c =
      rw (lt→ltb k height (omega (arith, u)), keys) (f, u, c)

  pub new_block-Consecutive :
      (height : ℕ) (c : ReorgCache Amount)
      → height + 1 < 2 ^ 32
      → Under height (keys c.blocks)
      → Consecutive (keys c.blocks)
      → Consecutive (keys (new_block height c).blocks)
  unfolding new_block
  new_block-Consecutive height c f u k =
      let (k', under) = pop_first-Consecutive c.blocks k in
      elim (Bool-cases (length c.blocks == c.len)) [
        | inl full ↦ rw full (insert-Consecutive height (pop_first c.blocks) f (under height u) k')
        | inr space ↦ rw space (insert-Consecutive height c.blocks f u k)
      ]

  pub restore_blocks-Consecutive :
      (height : ℕ) (bs : List (ℕ × ReorgHistoryBlock Amount)) (db : Db Amount)
      → Consecutive (keys bs)
      → Consecutive (keys (restore_blocks height bs db).0)
  unfolding restore_blocks
  restore_blocks-Consecutive height [] db c = tt
  restore_blocks-Consecutive height ((k, b) ∷ bs) db c = elim (Bool-cases (ltb height k)) [
    | inl above ↦ rw above (restore_blocks-Consecutive height bs (restore_block k b db) c.2)
    | inr kept ↦ rw kept c
  ]
