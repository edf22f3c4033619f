-- ===== src/Inscriptions/Types.antt =====
-- The parts of a transaction that src/inscriptions reads, and the arithmetic of `u64`, which wraps.
use wjk_20_indexer.Prelude.{
  ℕ, ◌+◌, ◌-◌, ◌%◌, ◌^◌, ◌≤◌, ◌<◌, ◌≡◌, Option, List, [], ◌∷◌, ◌++◌, Bytes, take, arith,
}
use wjk_20_indexer.Tokens.Types.{OutPoint, Txid}

pub record TxIn : Type 0 where
  pub outpoint : OutPoint
  pub script_sig : Bytes
  pub tapscript : Option Bytes

pub record TxOut : Type 0 where
  pub value : ℕ
  pub script_pubkey : Bytes

-- `Hashed<EvaluatedTx>`
pub record Tx : Type 0 where
  pub hash : Txid
  pub inputs : List TxIn
  pub outputs : List TxOut

abbrev pub add_u64 : ℕ → ℕ → ℕ
add_u64 a b = (a + b) % 2 ^ 64

abbrev pub sub_u64 : ℕ → ℕ → ℕ
sub_u64 a b = (a + 2 ^ 64 - b) % 2 ^ 64

abbrev pub sum : List ℕ → ℕ
sum [] = 0
sum (x ∷ xs) = x + sum xs

-- `.sum::<u64>()`
abbrev pub sum_u64 : List ℕ → ℕ
sum_u64 xs = sum xs % 2 ^ 64

abbrev pub values : List TxOut → List ℕ
values [] = []
values (o ∷ os) = o.value ∷ values os

-- Where the `i`-th of some values starts when they are laid out one after the other.
abbrev pub start_of : ℕ → List ℕ → ℕ
start_of i xs = sum (take i xs)

pub sum-append : (xs ys : List ℕ) → sum (xs ++ ys) ≡ sum xs + sum ys
sum-append [] ys = omega arith
sum-append (x ∷ xs) ys = omega (arith, sum-append xs ys)

pub sub_u64_lem : (a b : ℕ) → b ≤ a → a < 2 ^ 64 → sub_u64 a b ≡ a - b
sub_u64_lem a b h k = omega arith

pub add_u64_lem : (a b : ℕ) → a + b < 2 ^ 64 → add_u64 a b ≡ a + b
add_u64_lem a b h = omega arith

pub small_u64 : (a : ℕ) → a < 2 ^ 64 → a % 2 ^ 64 ≡ a
small_u64 a h = omega arith

pub small_u32 : (a : ℕ) → a < 2 ^ 32 → a % 2 ^ 32 ≡ a
small_u32 a h = omega arith
