-- ===== src/Tokens/Platform.antt =====
-- What the token code takes from elsewhere: `nintypes`' `Fixed128<18>`, Unicode lower case, and
-- the hash of the text "BURNED" (`OP_RETURN_HASH` of src/main.rs).
use wjk_20_indexer.Prelude.{ℕ, ◌+◌, ◌-◌, ◌≤◌, ◌≡◌, Bool, Bytes, ltb, ◌==◌, if◌then◌else◌}

pub record Platform : Type 1 where
  -- `Fixed128<18>`: a number of units of 10^-18, at most `capacity` of them.
  pub Amount : Type 0
  pub units : Amount → ℕ
  pub capacity : ℕ
  pub amount_discrete : Discrete Amount
  pub zero_amount : Amount
  pub add : Amount → Amount → Amount
  pub sub : Amount → Amount → Amount
  -- The number of decimals that the value needs.
  pub scale : Amount → ℕ
  pub units-zero : units zero_amount ≡ 0
  pub units-add :
      (a b : Amount) → units a + units b ≤ capacity → units (add a b) ≡ units a + units b
  pub units-sub : (a b : Amount) → units b ≤ units a → units (sub a b) ≡ units a - units b
  -- `String::from_utf8_lossy(bytes).to_lowercase()`
  pub to_lowercase : Bytes → Bytes
  pub op_return_hash : Bytes

-- The order of `Fixed128` is that of the numbers.
abbrev pub amount_lt : (p : Platform) → p.Amount → p.Amount → Bool
amount_lt p a b = ltb (p.units a) (p.units b)

-- `Ord::min`
abbrev pub amount_min : (p : Platform) → p.Amount → p.Amount → p.Amount
amount_min p a b = if amount_lt p b a then b else a

abbrev pub is_zero : (p : Platform) → p.Amount → Bool
is_zero p a = p.units a == 0
