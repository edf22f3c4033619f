-- ===== src/Wire/Varint.antt =====
-- The variable-length integers of the block index, as the node writes them: `read_varint` of packages/new-blk-parser/src/blockchain/parser/index.rs.
use wjk_20_indexer.Prelude.{
  ℕ, zero, suc, ◌+◌, ◌-◌, ◌*◌, ◌/◌, ◌%◌, ◌^◌, ◌<◌, ◌≤◌, ◌≡◌, refl, ap, ◌∙◌, Bool-cases, inl, inr,
  [], ◌∷◌, ◌++◌, append_assoc, Bytes, ltb, le→ltb, lt→leb, le→leb, lt→==, if◌then◌else◌, arith,
}
use wjk_20_indexer.Codec.{value}
use wjk_20_indexer.Wire.RoundTrip.{Reads}
use wjk_20_indexer.Wire.Index.{varint_loop, read_varint}

-- The integers as the node writes them: seven bits a byte, the lowest last, all but the last byte
-- with the high bit and less by one.
pub high_bytes : ℕ → ℕ → Bytes
high_bytes zero m = []
high_bytes (suc fuel) m =
    (if ltb m 128 then [] else high_bytes fuel (m / 128 - 1)) ++ ((128 + m % 128) ∷ [])

pub varint_bytes : ℕ → Bytes
unfolding high_bytes
varint_bytes n = (if ltb n 128 then [] else high_bytes n (n / 128 - 1)) ++ (n % 128 ∷ [])

pub varint_loop-more :
    (n b : ℕ) (bs : Bytes)
    → n < 2 ^ 57
    → 128 ≤ b
    → n * 128 + b % 128 < 2 ^ 64 - 1
    → varint_loop n (b ∷ bs) ≡ varint_loop (n * 128 + b % 128 + 1) bs
unfolding varint_loop
varint_loop-more n b bs h more small =
    rw
      (
        le→ltb (2 ^ 57 - 1) n (omega (arith, h)),
        le→leb 128 b more,
        lt→== (n * 128 + b % 128) (2 ^ 64 - 1) small,
      )
      refl

pub varint_loop-last :
    (n b : ℕ) (bs : Bytes)
    → n < 2 ^ 57
    → b < 128
    → varint_loop n (b ∷ bs) ≡ value (n * 128 + b % 128, bs)
unfolding varint_loop
varint_loop-last n b bs h last =
    rw (le→ltb (2 ^ 57 - 1) n (omega (arith, h)), lt→leb 128 b last) refl

pub high_bytes-loop :
    (fuel m : ℕ) (bs : Bytes)
    → m < fuel
    → m + 1 ≤ 2 ^ 57
    → varint_loop 0 (high_bytes fuel m ++ bs) ≡ varint_loop (m + 1) bs
unfolding high_bytes
high_bytes-loop zero m bs h small = absurd (omega arith)
high_bytes-loop (suc fuel) m bs h small = elim (Bool-cases (ltb m 128)) [
  | inl low ↦ rw low (
      let e : 0 * 128 + (128 + m % 128) % 128 + 1 ≡ m + 1 = ground arith in
      varint_loop-more 0 (128 + m % 128) bs (omega arith) (omega arith) (omega arith)
      ∙ ap (λ (k : ℕ). varint_loop k bs) e)
  | inr high ↦
      let ge : 128 ≤ m = ground arith in
      let e : (m / 128 - 1 + 1) * 128 + (128 + m % 128) % 128 + 1 ≡ m + 1 = omega (arith, ge) in
      rw high (
        ap (varint_loop 0) (append_assoc (high_bytes fuel (m / 128 - 1)) ((128 + m % 128) ∷ []) bs)
        ∙ (high_bytes-loop fuel (m / 128 - 1) ((128 + m % 128) ∷ bs) (omega (arith, ge, h))
              (omega (arith, ge, small))
            ∙ (varint_loop-more (m / 128 - 1 + 1) (128 + m % 128) bs (omega (arith, ge, small))
                  (omega arith) (omega (arith, ge, small))
                ∙ ap (λ (k : ℕ). varint_loop k bs) e)))
]

pub read_varint-Reads : (n : ℕ) → n < 2 ^ 64 → Reads read_varint (varint_bytes n) n
unfolding read_varint varint_bytes
read_varint-Reads n h rest = elim (Bool-cases (ltb n 128)) [
  | inl low ↦
      let e : 0 * 128 + n % 128 % 128 ≡ n = ground arith in
      rw low (
        varint_loop-last 0 (n % 128) rest (omega arith) (omega arith)
        ∙ ap (λ (k : ℕ). value (k, rest)) e)
  | inr high ↦
      let ge : 128 ≤ n = ground arith in
      let e : (n / 128 - 1 + 1) * 128 + n % 128 % 128 ≡ n = omega (arith, ge) in
      rw high (
        ap (varint_loop 0) (append_assoc (high_bytes n (n / 128 - 1)) (n % 128 ∷ []) rest)
        ∙ (high_bytes-loop n (n / 128 - 1) (n % 128 ∷ rest) (omega (arith, ge))
              (omega (arith, ge, h))
            ∙ (varint_loop-last (n / 128 - 1 + 1) (n % 128) rest (omega (arith, ge, h))
                  (omega arith)
                ∙ ap (λ (k : ℕ). value (k, rest)) e)))
]
