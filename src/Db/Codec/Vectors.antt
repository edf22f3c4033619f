-- ===== src/Db/Codec/Vectors.antt =====
-- `Pebble for Vec<T>` of packages/rocksdb-wrapper/src/item.rs: the values one after the other, cut
-- into chunks of `FIXED_SIZE` bytes.
use wjk_20_indexer.Prelude.{
  ℕ, zero, suc, ◌^◌, ◌≤◌, ◌<◌, ◌≡◌, refl, sym, ap, ◌∙◌, List, [], ◌∷◌, ◌++◌, Bytes, length,
  length-append, take, drop, take-append, drop-append, All, arith, subst, append_assoc, take-drop,
  length-take, length-drop,
}
use wjk_20_indexer.Codec.{
  Decoded, value, error, ◌>>=◌, to_be_bytes, from_be_bytes, to_array, from_be_bytes-to_be_bytes,
  length-to_be_bytes, slice_to-append, to_array-length, slice-append, to_array-other,
}
use wjk_20_indexer.Db.Types.{AddressTokenIdDb}
use wjk_20_indexer.Db.Codec.{
  get_address_token_id_bytes, address_token_id_from_bytes, address_token_id_fixed_size,
}

-- `v.chunks(size)`, with fuel: every chunk but none is not empty.
unfoldable pub chunks : ℕ → ℕ → Bytes → List Bytes
chunks fuel size [] = []
chunks zero size (b ∷ bs) = []
chunks (suc fuel) size (b ∷ bs) = take size (b ∷ bs) ∷ chunks fuel size (drop size (b ∷ bs))

module _ {A : Type 0} where
  -- `.map(..).collect::<Result<_>>()`: the first error ends it.
  unfoldable pub collect : (Bytes → Decoded A) → List Bytes → Decoded (List A)
  collect f [] = value []
  collect f (x ∷ xs) = do a ← f x; xs ← collect f xs; value (a ∷ xs)

  unfoldable pub vec_from_bytes : ℕ → (Bytes → Decoded A) → Bytes → Decoded (List A)
  unfolding chunks collect
  vec_from_bytes size f v = collect f (chunks (length v) size v)

  unfoldable pub get_vec_bytes : (A → Bytes) → List A → Bytes
  get_vec_bytes g [] = []
  get_vec_bytes g (a ∷ xs) = g a ++ get_vec_bytes g xs

chunks-cons :
    (fuel size : ℕ) (xs ys : Bytes)
    → length xs ≡ size
    → 0 < size
    → chunks (suc fuel) size (xs ++ ys) ≡ xs ∷ chunks fuel size ys
unfolding chunks
chunks-cons fuel size [] ys h p = absurd (omega arith)
chunks-cons fuel size (x ∷ xs) ys h p =
    rw (take-append (x ∷ xs) ys h, drop-append (x ∷ xs) ys h) refl

module _ {A : Type 0} (size : ℕ) (get : A → Bytes) (from : Bytes → Decoded A) (P : A → Type 0) where
  module _ (sized : (a : A) → P a → length (get a) ≡ size) (positive : 0 < size)
      (back : (a : A) → P a → from (get a) ≡ value a) where
    collect-chunks :
        (xs : List A) (fuel : ℕ)
        → All P xs
        → length xs ≤ fuel
        → collect from (chunks fuel size (get_vec_bytes get xs)) ≡ value xs
    unfolding chunks collect get_vec_bytes
    collect-chunks [] zero p l = refl
    collect-chunks [] (suc fuel) p l = refl
    collect-chunks (a ∷ xs) zero p l = absurd (omega arith)
    collect-chunks (a ∷ xs) (suc fuel) p l =
        rw
          (
            chunks-cons fuel size (get a) (get_vec_bytes get xs) (sized a p.0) positive,
            back a p.0,
            collect-chunks xs fuel p.1 (omega arith),
          )
          refl

    length-get_vec_bytes : (xs : List A) → All P xs → length xs ≤ length (get_vec_bytes get xs)
    unfolding get_vec_bytes
    length-get_vec_bytes [] p = omega arith
    length-get_vec_bytes (a ∷ xs) p = omega (
      arith,
      length-append (get a) (get_vec_bytes get xs),
      sized a p.0,
      length-get_vec_bytes xs p.1,
    )

    -- A list of values is read back when every value has the encoding's size and is read back.
    pub vec-round_trip :
        (xs : List A) → All P xs → vec_from_bytes size from (get_vec_bytes get xs) ≡ value xs
    unfolding vec_from_bytes
    vec-round_trip xs p =
        collect-chunks xs (length (get_vec_bytes get xs)) p (length-get_vec_bytes xs p)

reassociate :
    (a t u b c r : Bytes) → (a ++ ((t ++ u) ++ (b ++ c))) ++ r ≡ (a ++ (t ++ (u ++ b))) ++ (c ++ r)
reassociate a t u b c r = simp append_assoc refl

-- Bytes that are too short for a tick are no event.
short_event-error :
    (a t w : Bytes)
    → length a ≡ 32
    → length t ≡ 4
    → length w ≡ 8
    → address_token_id_from_bytes (a ++ (t ++ w)) ≡ error
unfolding address_token_id_from_bytes
short_event-error a t w h k l =
    let n : length (a ++ (t ++ w)) ≡ 44 =
      omega (arith, length-append a (t ++ w), length-append t w) in
    rw
      (
        n,
        slice_to-append 32 a (t ++ w) h,
        to_array-length 32 a h,
        slice-append 32 36 a t w h (omega arith),
        to_array-other 8 t (omega arith),
      )
      refl

collect-first :
    {A : Type 0} (size fuel : ℕ) (from : Bytes → Decoded A) (xs ys : Bytes)
    → 0 < fuel
    → length xs ≡ size
    → 0 < size
    → from xs ≡ error
    → collect from (chunks fuel size (xs ++ ys)) ≡ error
unfolding collect
collect-first size zero from xs ys f h p e = absurd (omega arith)
collect-first size (suc fuel) from xs ys f h p e = rw (chunks-cons fuel size xs ys h p, e) refl

vec_from_bytes-first :
    {A : Type 0} (size : ℕ) (from : Bytes → Decoded A) (xs ys : Bytes)
    → length xs ≡ size
    → 0 < size
    → from xs ≡ error
    → vec_from_bytes size from (xs ++ ys) ≡ error
unfolding vec_from_bytes
vec_from_bytes-first size from xs ys h p e =
    collect-first size (length (xs ++ ys)) from xs ys (omega (arith, h, length-append xs ys)) h p e

-- The events of a block are not read back unless there are none: `FIXED_SIZE` is 44, and the
-- encoding of an event has 48 bytes.
pub vec_from_bytes-error :
    (e : AddressTokenIdDb) (es : List AddressTokenIdDb)
    → length e.address ≡ 32
    → length e.token ≡ 8
    → vec_from_bytes address_token_id_fixed_size address_token_id_from_bytes
        (get_vec_bytes get_address_token_id_bytes (e ∷ es))
      ≡ error
unfolding get_vec_bytes get_address_token_id_bytes
vec_from_bytes-error e es h k =
    let t = take 4 e.token in
    let u = drop 4 e.token in
    let n = to_be_bytes 8 e.id in
    let head = e.address ++ (t ++ (u ++ take 4 n)) in
    let tail = drop 4 n ++ get_vec_bytes get_address_token_id_bytes es in
    let rest = get_vec_bytes get_address_token_id_bytes es in
    let split : get_vec_bytes get_address_token_id_bytes (e ∷ es) ≡ head ++ tail =
      ap (λ x. (e.address ++ (x ++ n)) ++ rest) (sym (take-drop 4 e.token))
      ∙ ap (λ x. (e.address ++ ((t ++ u) ++ x)) ++ rest) (sym (take-drop 4 n))
      ∙ reassociate e.address t u (take 4 n) (drop 4 n) rest in
    let length-t = length-take 4 e.token (omega (arith, k)) in
    let length-u = length-drop 4 e.token in
    let length-n = length-take 4 n (omega (arith, length-to_be_bytes 8 e.id)) in
    let length-w : length (u ++ take 4 n) ≡ 8 =
      omega (arith, k, length-append u (take 4 n), length-u, length-n) in
    subst (λ x. vec_from_bytes address_token_id_fixed_size address_token_id_from_bytes x ≡ error)
      (sym split)
      (vec_from_bytes-first 44 address_token_id_from_bytes head tail
        (omega (
          arith,
          h,
          length-t,
          length-w,
          length-append e.address (t ++ (u ++ take 4 n)),
          length-append t (u ++ take 4 n),
        ))
        (omega arith) (short_event-error e.address t (u ++ take 4 n) h length-t length-w))

-- `u64::from_bytes`
unfoldable pub u64_from_bytes : Bytes → Decoded ℕ
u64_from_bytes v = do n ← to_array 8 v; value (from_be_bytes n)

u64-round_trip : (n : ℕ) → n < 2 ^ 64 → u64_from_bytes (to_be_bytes 8 n) ≡ value n
unfolding u64_from_bytes
u64-round_trip n h =
    rw
      (
        to_array-length 8 (to_be_bytes 8 n) (length-to_be_bytes 8 n),
        from_be_bytes-to_be_bytes 8 n h,
      )
      refl

-- The offsets of the inscriptions of an output, each below 2^64, are read back in their order.
pub offsets-round_trip :
    (offsets : List ℕ)
    → All (λ n. n < 2 ^ 64) offsets
    → vec_from_bytes 8 u64_from_bytes (get_vec_bytes (to_be_bytes 8) offsets) ≡ value offsets
offsets-round_trip =
    vec-round_trip 8 (to_be_bytes 8) u64_from_bytes (λ n. n < 2 ^ 64)
      (λ n p. length-to_be_bytes 8 n) (omega arith) u64-round_trip
