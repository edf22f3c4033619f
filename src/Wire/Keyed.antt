-- ===== src/Wire/Keyed.antt =====
-- The key of the block files: `XorReader::read` of packages/new-blk-parser/src/blockchain/parser/reader.rs.
use wjk_20_indexer.Prelude.{
  ℕ, zero, suc, ◌+◌, ◌%◌, ◌<◌, ◌≡◌, refl, sym, ap, Bool, true, Option, none, some, [], ◌∷◌, ◌++◌,
  Bytes, length, take, drop, get_elem?, ◌==◌, ==_iff, ◌&&◌, arith,
}
use Prim.Native.Nat.{bit_xor}
use wjk_20_indexer.Codec.{value}
use wjk_20_indexer.Wire.Takes.{IsBytes}
use wjk_20_indexer.Wire.Files.{key_at, xor_bytes, xor_with}

pub all_below : ℕ → (ℕ → Bool) → Bool
all_below zero p = true
all_below (suc n) p = p n && all_below n p

pub all_below-true : (n : ℕ) (p : ℕ → Bool) (x : ℕ) → all_below n p ≡ true → x < n → p x ≡ true
unfolding all_below
all_below-true zero p x h lt = absurd (omega arith)
all_below-true (suc n) p x h lt = ground (arith, all_below-true n p x)

pub xor_table : all_below 256 (λ x. all_below 256 (λ k. bit_xor (bit_xor x k) k == x)) ≡ true
unfolding all_below
xor_table = refl

pub bit_xor-twice : (x k : ℕ) → x < 256 → k < 256 → bit_xor (bit_xor x k) k ≡ x
bit_xor-twice x k hx hk =
    let row =
      all_below-true 256 (λ x. all_below 256 (λ k. bit_xor (bit_xor x k) k == x)) x xor_table hx in
    (==_iff _ x).0 (all_below-true 256 (λ k. bit_xor (bit_xor x k) k == x) k row hk)

pub get_elem?-lt : (bs : Bytes) (i : ℕ) (b : ℕ) → IsBytes bs → get_elem? bs i ≡ some b → b < 256
get_elem?-lt [] i b h e = cc
get_elem?-lt (c ∷ bs) zero b h e = let q : c ≡ b = cc in rw (← q) h.0
get_elem?-lt (c ∷ bs) (suc i) b h e = get_elem?-lt bs i b h.1 e

pub key_at-lt : (key : Bytes) (pos : ℕ) → IsBytes key → key_at key pos < 256
key_at-lt key pos h = go (get_elem? key (pos % length key)) refl
  where
    go :
        (e : Option ℕ)
        → get_elem? key (pos % length key) ≡ e
        → (elim e as (λ x. ℕ) [ none ↦ 0 | some k ↦ k ]) < 256
    go none q = omega arith
    go (some k) q = get_elem?-lt key _ k h q

pub length-xor_bytes :
    (key : Bytes) (pos : ℕ) (bs : Bytes) → length (xor_bytes key pos bs) ≡ length bs
unfolding xor_bytes
length-xor_bytes key pos [] = refl
length-xor_bytes key pos (b ∷ bs) = ap suc (length-xor_bytes key (pos + 1) bs)

pub xor_bytes-append :
    (key : Bytes) (pos : ℕ) (xs ys : Bytes)
    → xor_bytes key pos (xs ++ ys) ≡ xor_bytes key pos xs ++ xor_bytes key (pos + length xs) ys
unfolding xor_bytes
xor_bytes-append key pos [] ys = let z : pos + 0 ≡ pos = omega arith in rw z refl
xor_bytes-append key pos (x ∷ xs) ys =
    let z : pos + suc (length xs) ≡ pos + 1 + length xs = omega arith in
    rw z (ap (◌∷◌ (bit_xor x (key_at key pos))) (xor_bytes-append key (pos + 1) xs ys))

pub xor_bytes-twice :
    (key : Bytes) (pos : ℕ) (bs : Bytes)
    → IsBytes key
    → IsBytes bs
    → xor_bytes key pos (xor_bytes key pos bs) ≡ bs
unfolding xor_bytes
xor_bytes-twice key pos [] hk h = refl
xor_bytes-twice key pos (b ∷ bs) hk h =
    rw (bit_xor-twice b (key_at key pos) h.0 (key_at-lt key pos hk))
      (ap (◌∷◌ b) (xor_bytes-twice key (pos + 1) bs hk h.1))

-- A part of a stream and what is left.
pub xor_with-append :
    (key : Option Bytes) (pos : ℕ) (xs ys out : Bytes)
    → xor_with key pos xs ≡ value out
    → (rest : Bytes) → xor_with key (pos + length xs) ys ≡ value rest
    → xor_with key pos (xs ++ ys) ≡ value (out ++ rest)
unfolding xor_with
xor_with-append none pos xs ys out h rest k = cc
xor_with-append (some []) pos [] [] out h rest k = ground arith
xor_with-append (some []) pos [] (y ∷ ys) out h rest k = cc
xor_with-append (some []) pos (x ∷ xs) ys out h rest k = cc
xor_with-append (some (k ∷ ks)) pos xs ys out h rest e =
    rw (xor_bytes-append (k ∷ ks) pos xs ys) (cc)

pub drop-nil : (k : ℕ) → drop {A = ℕ} k [] ≡ []
drop-nil zero = refl
drop-nil (suc k) = refl

pub drop-add : (n k : ℕ) (xs : Bytes) → drop (n + k) xs ≡ drop k (drop n xs)
drop-add zero k xs = let z : 0 + k ≡ k = omega arith in rw z refl
drop-add (suc n) k [] = let z : suc n + k ≡ suc (n + k) = omega arith in rw z (sym (drop-nil k))
drop-add (suc n) k (x ∷ xs) =
    let z : suc n + k ≡ suc (n + k) = omega arith in rw z (drop-add n k xs)

pub drop-length-take : (m : ℕ) (xs : Bytes) → drop (length (take m xs)) xs ≡ drop m xs
drop-length-take zero xs = refl
drop-length-take (suc m) [] = refl
drop-length-take (suc m) (x ∷ xs) = drop-length-take m xs
