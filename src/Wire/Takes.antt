-- ===== src/Wire/Takes.antt =====
-- What a reader of packages/new-blk-parser/src/blockchain/parser/reader.rs takes of its input.
use wjk_20_indexer.Prelude.{
  ℕ, zero, suc, ◌+◌, ◌*◌, ◌/◌, ◌%◌, ◌^◌, ◌<◌, ◌≡◌, refl, sym, ap, Bool-cases, inl, inr, [], ◌∷◌,
  ◌++◌, Bytes, All, length, take, drop, take-drop, length-take, ltb, leb, ◌==◌, ==_iff, arith,
}
use wjk_20_indexer.Codec.{Decoded, value, ◌>>=◌, >>=-eq-value}
use wjk_20_indexer.Wire.Types.{VarUint, from_u8, from_u16, from_u32, from_u64, to_le_bytes}
use wjk_20_indexer.Wire.Read.{
  Reader, from_le_bytes, read_exact, read_le, read_u8, read_wide, read_after, read_from,
  read_256hash, read_u8_vec,
}

abbrev pub IsBytes : Bytes → Type 0
IsBytes = All (λ b. b < 256)

pub IsBytes-append : (xs ys : Bytes) → IsBytes (xs ++ ys) → IsBytes ys
IsBytes-append [] ys h = h
IsBytes-append (x ∷ xs) ys h = IsBytes-append xs ys h.1

pub IsBytes-take : (n : ℕ) (bs : Bytes) → IsBytes bs → IsBytes (take n bs)
IsBytes-take zero bs h = tt
IsBytes-take (suc n) [] h = tt
IsBytes-take (suc n) (b ∷ bs) h = (h.0, IsBytes-take n bs h.1)

abbrev pub given : {A : Type 0} → A → Bytes → Decoded (A × Bytes)
given x rest = value (x, rest)

-- What a reader takes is what `bytes` makes of its value.
abbrev pub Takes : {A : Type 0} → Reader A → (A → Bytes) → Type 0
Takes {A} read bytes =
    (bs : Bytes) (x : A) (rest : Bytes)
    → IsBytes bs
    → read bs ≡ value (x, rest)
    → (bs ≡ bytes x ++ rest) × IsBytes rest

pub length-to_le_bytes : (w n : ℕ) → length (to_le_bytes w n) ≡ w
unfolding to_le_bytes
length-to_le_bytes zero n = refl
length-to_le_bytes (suc w) n = ap suc (length-to_le_bytes w (n / 256))

pub to_le_bytes-from_le_bytes :
    (bs : Bytes) → IsBytes bs → to_le_bytes (length bs) (from_le_bytes bs) ≡ bs
unfolding to_le_bytes from_le_bytes
to_le_bytes-from_le_bytes [] h = refl
to_le_bytes-from_le_bytes (b ∷ bs) h =
    let low : (b + 256 * from_le_bytes bs) % 256 ≡ b = omega (arith, h) in
    let high : (b + 256 * from_le_bytes bs) / 256 ≡ from_le_bytes bs = omega (arith, h) in
    rw (low, high, to_le_bytes-from_le_bytes bs h.1) refl

pub read_exact_lem :
    (n : ℕ) (bs x rest : Bytes)
    → read_exact n bs ≡ value (x, rest)
    → (bs ≡ x ++ rest) × (length x ≡ n) × (x ≡ take n bs)
unfolding read_exact
read_exact_lem n bs x rest h = elim (Bool-cases (ltb (length bs) n)) [
  | inl short ↦ cc (rw short at h)
  | inr long ↦
      let e : value (take n bs, drop n bs) ≡ value (x, rest) = rw long at h in
      let ex : take n bs ≡ x = cc in
      let er : drop n bs ≡ rest = cc in
      (sym (rw (← ex, ← er) (take-drop n bs)), rw (← ex) (length-take n bs (ground arith)), sym ex)
]

pub read_exact-Takes : (n : ℕ) → Takes (read_exact n) (λ x. x)
read_exact-Takes n bs x rest b h =
    let (e, l, t) = read_exact_lem n bs x rest h in (e, IsBytes-append x rest (rw (← e) b))

pub read_le-Takes : (w : ℕ) → Takes (read_le w) (to_le_bytes w)
unfolding read_le
read_le-Takes w bs n rest b h =
    let ((x, rest'), r, k) = >>=-eq-value (read_exact w bs) _ h in
    let (e, l, t) = read_exact_lem w bs x rest' r in
    let en : from_le_bytes x ≡ n = cc in
    let er : rest' ≡ rest = cc in
    let bx : IsBytes x = rw t (IsBytes-take w bs b) in
    let back : to_le_bytes w n ≡ x = rw (← en, ← l) (to_le_bytes-from_le_bytes x bx) in
    (rw (back, ← er) e, IsBytes-append x rest (rw (← er, ← e) b))

-- One step of a reader, and what is proved from it.
pub Takes-then :
    {A B C : Type 0} (read : Reader A) (bytes : A → Bytes) (takes : Takes read bytes)
    (after : A × Bytes → Decoded B) (bs : Bytes) (r : B)
    → IsBytes bs
    → (read bs >>= after) ≡ value r
    → ((x : A) (rest : Bytes) → bs ≡ bytes x ++ rest → IsBytes rest → after (x, rest) ≡ value r → C)
    → C
Takes-then read bytes takes after bs r b h next =
    let ((x, rest), e, k) = >>=-eq-value (read bs) after h in
    let (eq, br) = takes bs x rest b e in next x rest eq br k

-- The same of a step of which less is known.
pub >>=-then :
    {A B C : Type 0} (step : Decoded A) (after : A → Decoded B) {r : B}
    → (step >>= after) ≡ value r
    → ((mid : A) → step ≡ value mid → after mid ≡ value r → C)
    → C
>>=-then step after h next = let (mid, e, k) = >>=-eq-value step after h in next mid e k

-- The end of a reader.
pub Takes-done :
    {A : Type 0} (bytes : A → Bytes) (bs : Bytes) (y x : A) (last rest : Bytes)
    → given y last ≡ given x rest
    → bs ≡ bytes y ++ last
    → IsBytes last
    → (bs ≡ bytes x ++ rest) × IsBytes rest
Takes-done bytes bs y x last rest h e b =
    let ex : y ≡ x = cc in let er : last ≡ rest = cc in (rw (← ex, ← er) e, rw (← er) b)

pub read_wide-Takes :
    (tag w : ℕ) (from : ℕ → VarUint) (bs : Bytes) (v : VarUint) (rest : Bytes)
    → ((n : ℕ) → (from n).buf ≡ tag ∷ to_le_bytes w n)
    → IsBytes bs
    → read_wide w from bs ≡ value (v, rest)
    → (tag ∷ bs ≡ v.buf ++ rest) × IsBytes rest
read_wide-Takes tag w from bs v rest tagged b h =
    Takes-then (read_le w) (to_le_bytes w) (read_le-Takes w) _ bs (v, rest) b h
      (λ n bs1 e b1 k.
        Takes-done (λ u. u.buf) (tag ∷ bs) (from n) v bs1 rest k (rw (tagged n, ← e) refl) b1)

pub read_from-Takes : Takes read_from (λ v. v.buf)
unfolding read_from read_u8 read_after
read_from-Takes [] v rest b h = cc
read_from-Takes (first ∷ bs) v rest b h = elim (Bool-cases (leb first 0xfc)) [
  | inl low ↦
      let h' : value (from_u8 first, bs) ≡ value (v, rest) = rw low at h in
      let ev : from_u8 first ≡ v = cc in
      let er : bs ≡ rest = cc in (rw (← ev, er) refl, rw (← er) b.1)
  | inr high ↦ elim (Bool-cases (first == 0xfd)) [
    | inl two ↦
        let t : first ≡ 0xfd = (==_iff _ _).0 two in
        rw t (read_wide-Takes 0xfd 2 from_u16 bs v rest (λ n. refl) b.1 (rw (high, two) at h))
    | inr more ↦ elim (Bool-cases (first == 0xfe)) [
      | inl four ↦
          let t : first ≡ 0xfe = (==_iff _ _).0 four in
          rw t
            (read_wide-Takes 0xfe 4 from_u32 bs v rest (λ n. refl) b.1 (rw (high, more, four) at h))
      | inr eight ↦
          let t : first ≡ 0xff = ground (arith, b.0) in
          rw t (
            read_wide-Takes 0xff 8 from_u64 bs v rest (λ n. refl) b.1 (rw (high, more, eight) at h))
    ]
  ]
]

pub read_256hash-Takes : Takes read_256hash (λ x. x)
unfolding read_256hash
read_256hash-Takes = read_exact-Takes 32

pub read_u8_vec-Takes : (n : ℕ) → Takes (read_u8_vec n) (λ x. x)
unfolding read_u8_vec
read_u8_vec-Takes n = read_exact-Takes (n % 2 ^ 32)
