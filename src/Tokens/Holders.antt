-- ===== src/Tokens/Holders.antt =====
-- src/tokens/holders.rs: the balances of each token's holders, kept in memory. A `BTreeSet` is the
-- list of its elements, and the two maps stand in one record; the locks do not matter here, since
-- only the indexer's thread writes.
use wjk_20_indexer.Prelude.{
  ℕ, ◌+◌, ◌-◌, Bool, true, false, Option, none, some, [], Map, lookup, insert, remove,
  if◌then◌else◌,
}
use wjk_20_indexer.Tokens.Platform.{Platform, is_zero}
use wjk_20_indexer.Tokens.Types.{
  FullHash, OriginalTokenTick, AddressToken, TokenBalance, Bytes-discrete,
}

module _ (Amount : Type 0) where
  pub record SortedByBalance : Type 0 where
    pub balance : Amount
    pub address : FullHash

unfoldable pub SortedByBalance-discrete :
    {Amount : Type 0} → Discrete Amount → Discrete (SortedByBalance Amount)
SortedByBalance-discrete d = hlevel (d, Bytes-discrete)

-- A set as the map of its elements.
abbrev pub Set : Type 0 → Type 0
Set K = Map K (Unit {0})

module _ (Amount : Type 0) where
  pub record Holders : Type 0 where
    pub balances : Map OriginalTokenTick (Set (SortedByBalance Amount))
    pub stats : Map OriginalTokenTick ℕ

pub data Change : Type 0 where
  increase decrease : Change

-- `entry(k).or_default()`, and `get(k)` with a default.
abbrev pub or_default {ℓ} : {A : Type ℓ} → A → Option A → A
or_default d none = d
or_default d (some a) = a

abbrev pub is_some {ℓ} : {A : Type ℓ} → Option A → Bool
is_some none = false
is_some (some a) = true

-- `entry(k).and_modify(|x| *x += 1).or_insert(1)`
unfoldable pub count_up : OriginalTokenTick → Map OriginalTokenTick ℕ → Map OriginalTokenTick ℕ
count_up t s = elim (lookup Bytes-discrete t s) [
  | none ↦ insert Bytes-discrete t 1 s
  | some n ↦ insert Bytes-discrete t (n + 1) s
]

-- `entry(k).and_modify(|x| *x -= 1)`: a token with no entry gets none.
unfoldable pub count_down : OriginalTokenTick → Map OriginalTokenTick ℕ → Map OriginalTokenTick ℕ
count_down t s = elim (lookup Bytes-discrete t s) [
  | none ↦ s
  | some n ↦ insert Bytes-discrete t (n - 1) s
]

module _ (p : Platform) where
  open p use {Amount, amount_discrete, add, sub}

  unfoldable pub change :
      AddressToken → TokenBalance Amount → Amount → Change → Holders Amount → Holders Amount
  unfolding count_up count_down
  change key acc amt action h =
      let dec = SortedByBalance-discrete amount_discrete in
      let old_balance = add acc.balance acc.transferable_balance in
      let v : Set (SortedByBalance Amount) =
        or_default [] (lookup Bytes-discrete key.token h.balances) in
      let old : SortedByBalance Amount = record { balance = old_balance; address = key.address } in
      let existed = is_some (lookup dec old v) in
      let v' = remove dec old v in
      let store =
        λ (s : Set (SortedByBalance Amount)). insert Bytes-discrete key.token s h.balances in
      let put =
        λ (b : Amount). store (insert dec (record { balance = b; address = key.address }) tt v') in
      elim action [
        | increase ↦ record {
          balances = put (add old_balance amt);
          stats = if existed then h.stats else count_up key.token h.stats;
        }
        | decrease ↦
            let bal = sub old_balance amt in
            if is_zero p bal
            then record { balances = store v'; stats = count_down key.token h.stats }
            else record { balances = put bal; stats = h.stats }
      ]
