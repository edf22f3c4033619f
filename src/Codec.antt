-- ===== src/Codec.antt =====
-- What the decoders of src/db/structs.rs and packages/rocksdb-wrapper/src/item.rs are written with:
-- slices that panic out of range, `try_into` to an array, big-endian integers.
use wjk_20_indexer.Prelude.{
  ℕ, zero, suc, ◌+◌, ◌*◌, ◌/◌, ◌%◌, ◌^◌, ◌<◌, ◌≡◌, refl, sym, [], ◌∷◌, ◌++◌, append_assoc, Bytes,
  length, length-append, take, drop, take-append, drop-append, ltb, le→ltb, ◌==◌, ==_iff,
  if◌then◌else◌, arith,
}

-- `anyhow::Result` of a decoder, which may also panic.
pub data Decoded {ℓ} (A : Type ℓ) : Type ℓ where
  panic error : Decoded A
  value : (decoded : A) → Decoded A

infixl 5 ◌>>=◌
abbrev pub ◌>>=◌ {ℓ κ} :
    {A : Type ℓ} {B : Type κ} (first : Decoded A) (after : A → Decoded B) → Decoded B
panic >>= after = panic
error >>= after = error
value decoded >>= after = after decoded

module _ {ℓ κ} {A : Type ℓ} {B : Type κ} where
  -- Both steps have given a value when the whole has.
  pub >>=-eq-value :
      {r : B} (first : Decoded A) (after : A → Decoded B) (whole : (first >>= after) ≡ value r)
      → (mid : A) × (first ≡ value mid) × (after mid ≡ value r)
  >>=-eq-value panic after whole = cc
  >>=-eq-value error after whole = cc
  >>=-eq-value (value mid) after whole = (mid, refl, whole)

-- `v[..n]`
unfoldable pub slice_to : ℕ → Bytes → Decoded Bytes
slice_to n v = if ltb (length v) n then panic else value (take n v)

-- `v[n..]`
unfoldable pub slice_from : ℕ → Bytes → Decoded Bytes
slice_from n v = if ltb (length v) n then panic else value (drop n v)

-- `v[a..b]`
unfoldable pub slice : ℕ → ℕ → Bytes → Decoded Bytes
unfolding slice_to slice_from
slice a b v = do start ← slice_to b v; slice_from a start

-- `try_into()` of a slice to `[u8; n]`
unfoldable pub to_array : ℕ → Bytes → Decoded Bytes
to_array n v = if length v == n then value v else error

-- `to_be_bytes` of an integer of `w` bytes
unfoldable pub to_be_bytes : ℕ → ℕ → Bytes
to_be_bytes zero n = []
to_be_bytes (suc w) n = to_be_bytes w (n / 256) ++ (n % 256 ∷ [])

abbrev from_be : ℕ → Bytes → ℕ
from_be acc [] = acc
from_be acc (b ∷ bs) = from_be (acc * 256 + b) bs

-- `from_be_bytes`
unfoldable pub from_be_bytes : Bytes → ℕ
from_be_bytes bs = from_be 0 bs

from_be-snoc :
    (acc : ℕ) (bs : Bytes) (b : ℕ) → from_be acc (bs ++ (b ∷ [])) ≡ from_be acc bs * 256 + b
from_be-snoc acc [] b = refl
from_be-snoc acc (c ∷ bs) b = from_be-snoc (acc * 256 + c) bs b

pub length-to_be_bytes : (w n : ℕ) → length (to_be_bytes w n) ≡ w
unfolding to_be_bytes
length-to_be_bytes zero n = refl
length-to_be_bytes (suc w) n =
    omega (
      arith,
      length-append (to_be_bytes w (n / 256)) (n % 256 ∷ []),
      length-to_be_bytes w (n / 256),
    )

pub from_be_bytes-to_be_bytes : (w n : ℕ) → n < 256 ^ w → from_be_bytes (to_be_bytes w n) ≡ n
unfolding to_be_bytes from_be_bytes
from_be_bytes-to_be_bytes zero n h = omega arith
from_be_bytes-to_be_bytes (suc w) n h = omega (
  arith,
  from_be-snoc 0 (to_be_bytes w (n / 256)) (n % 256),
  from_be_bytes-to_be_bytes w (n / 256) (omega arith),
)

pub slice_to-append : (n : ℕ) (xs ys : Bytes) → length xs ≡ n → slice_to n (xs ++ ys) ≡ value xs
unfolding slice_to
slice_to-append n xs ys h =
    rw (le→ltb (length (xs ++ ys)) n (omega (arith, h, length-append xs ys)), take-append xs ys h)
      refl

pub slice_from-append : (n : ℕ) (xs ys : Bytes) → length xs ≡ n → slice_from n (xs ++ ys) ≡ value ys
unfolding slice_from
slice_from-append n xs ys h =
    rw (le→ltb (length (xs ++ ys)) n (omega (arith, h, length-append xs ys)), drop-append xs ys h)
      refl

pub slice-append :
    (a b : ℕ) (xs ys zs : Bytes)
    → length xs ≡ a
    → length xs + length ys ≡ b
    → slice a b (xs ++ (ys ++ zs)) ≡ value ys
unfolding slice
slice-append a b xs ys zs h k =
    rw
      (
        sym (append_assoc xs ys zs),
        slice_to-append b (xs ++ ys) zs (omega (arith, length-append xs ys)),
        slice_from-append a xs ys h,
      )
      refl

pub to_array-length : (n : ℕ) (v : Bytes) → length v ≡ n → to_array n v ≡ value v
unfolding to_array
to_array-length n v h = rw ((==_iff (length v) n).1 h) refl

pub to_array-other : (n : ℕ) (v : Bytes) → length v < n → to_array n v ≡ error
unfolding to_array
to_array-other n v h = ground arith
