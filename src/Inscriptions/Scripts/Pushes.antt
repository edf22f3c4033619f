-- ===== src/Inscriptions/Scripts/Pushes.antt =====
-- `decode_push_datas` of src/inscriptions/structs.rs on scripts that push data.
use wjk_20_indexer.Prelude.{
  ℕ, zero, suc, ◌+◌, ◌*◌, ◌%◌, ◌/◌, ◌^◌, ◌≤◌, ◌<◌, ◌≡◌, refl, ap, ◌∙◌, none, some, List, [], ◌∷◌,
  ◌++◌, Bytes, length, length-append, append_assoc, take-append, drop-append, All, leb, lt→ltb,
  le→ltb, lt→leb, le→leb, gt→==, ◌==◌, if◌then◌else◌, arith, dec_lt,
}
use wjk_20_indexer.Inscriptions.Scripts.{push_of, next_push, decode, decode_push_datas}

-- A push of up to 255 bytes: `OP_0` for none, the length itself for 1 to 75 bytes, or `OP_PUSHDATA1`.
abbrev pub push_script : Bytes → Bytes
push_script data_ =
    if length data_ == 0
    then 0 ∷ []
    else if leb (length data_) 75
    then length data_ ∷ data_
    else 76 ∷ length data_ ∷ data_

abbrev pub push_scripts : List Bytes → Bytes
push_scripts [] = []
push_scripts (d ∷ ds) = push_script d ++ push_scripts ds

push_of-append : (xs ys : Bytes) (n : ℕ) → length xs ≡ n → push_of n (xs ++ ys) ≡ some (xs, ys)
push_of-append xs ys n h =
    rw
      (
        le→ltb (length (xs ++ ys)) n (omega (arith, h, length-append xs ys)),
        take-append xs ys h,
        drop-append xs ys h,
      )
      refl

-- A push of 1 to 75 bytes.
next_push-short : (n : ℕ) (rest : Bytes) → 1 ≤ n → n ≤ 75 → next_push n rest ≡ push_of n rest
unfolding next_push
next_push-short n rest l h =
    rw (gt→== n 0 l, lt→leb 81 n (omega arith), le→leb 1 n l, le→leb n 75 h) refl

pushed-empty : (rest : Bytes) → next_push 0 rest ≡ some ([], rest)
unfolding next_push
pushed-empty rest = refl

pushed-1 : (n : ℕ) (bytes : Bytes) → next_push 76 (n ∷ bytes) ≡ push_of n bytes
unfolding next_push
pushed-1 n bytes = refl

push_script-long : (d : Bytes) → 1 ≤ length (push_script d)
push_script-long [] = omega arith
push_script-long (b ∷ bs) = elim (dec_lt 75 (length (b ∷ bs))) [
  | yes long ↦
      rw (gt→== (length (b ∷ bs)) 0 (omega arith), lt→leb (length (b ∷ bs)) 75 long) (omega arith)
  | no short ↦
      rw (gt→== (length (b ∷ bs)) 0 (omega arith), le→leb (length (b ∷ bs)) 75 (omega arith))
        (omega arith)
]

-- The first opcode of a push reads its data.
next_push-push_script :
    (d rest : Bytes)
    → length d ≤ 255
    → (op : ℕ) × (tail : Bytes) × (push_script d ++ rest ≡ op ∷ tail)
      × (next_push op tail ≡ some (d, rest))
next_push-push_script [] rest h = (0, rest, refl, pushed-empty rest)
next_push-push_script (b ∷ bs) rest h =
    let n = length (b ∷ bs) in
    let d = b ∷ bs in
    elim (dec_lt 75 n) [
      | yes long ↦ (
        76,
        n ∷ (d ++ rest),
        rw (gt→== n 0 (omega arith), lt→leb n 75 long) refl,
        pushed-1 n (d ++ rest) ∙ push_of-append d rest n refl,
      )
      | no short ↦ (
        n,
        d ++ rest,
        rw (gt→== n 0 (omega arith), le→leb n 75 (omega arith)) refl,
        next_push-short n (d ++ rest) (omega arith) (omega arith) ∙ push_of-append d rest n refl,
      )
    ]

abbrev IsShort : Bytes → Type 0
IsShort d = length d ≤ 255

decode-push_scripts :
    (ds : List Bytes) (fuel : ℕ)
    → All IsShort ds
    → length ds ≤ fuel
    → decode fuel (push_scripts ds) ≡ some ds
unfolding decode
decode-push_scripts [] zero s l = refl
decode-push_scripts [] (suc fuel) s l = refl
decode-push_scripts (d ∷ ds) zero s l = absurd (omega arith)
decode-push_scripts (d ∷ ds) (suc fuel) s l =
    let (op, tail, split, next) = next_push-push_script d (push_scripts ds) s.0 in
    ap (decode (suc fuel)) split
    ∙ (rw (decode, next, decode-push_scripts ds fuel s.1 (omega arith)) refl)

count-push_scripts : (ds : List Bytes) → All IsShort ds → length ds ≤ length (push_scripts ds)
count-push_scripts [] s = omega arith
count-push_scripts (d ∷ ds) s = omega (
  arith,
  length-append (push_script d) (push_scripts ds),
  push_script-long d,
  count-push_scripts ds s.1,
)

-- A script that pushes data of up to 255 bytes each, by `OP_0` for no bytes, the length as the opcode
-- for 1 to 75 bytes and `OP_PUSHDATA1` for 76 to 255, is decoded to that data.
pub decode_push_datas-push_scripts :
    (ds : List Bytes) → All IsShort ds → decode_push_datas (push_scripts ds) ≡ some ds
unfolding decode_push_datas
decode_push_datas-push_scripts ds s =
    decode-push_scripts ds (length (push_scripts ds)) s (count-push_scripts ds s)

pushed-2 : (a b : ℕ) (bytes : Bytes) → next_push 77 (a ∷ b ∷ bytes) ≡ push_of (a * 2 ^ 8 + 77) bytes
unfolding next_push
pushed-2 a b bytes = refl

push_of-short : (xs : Bytes) (n : ℕ) → length xs < n → push_of n xs ≡ none
push_of-short xs n h = rw (lt→ltb (length xs) n h) refl

-- A script that is refused from some place on is refused whatever pushes stand before that place.
decode-refused :
    (ds : List Bytes) (fuel : ℕ) (rest : Bytes)
    → All IsShort ds
    → 1 ≤ length rest
    → length ds + length rest ≤ fuel
    → ((f : ℕ) → length rest ≤ f → decode f rest ≡ none)
    → decode fuel (push_scripts ds ++ rest) ≡ none
unfolding decode
decode-refused [] fuel rest s p l refused = refused fuel (omega (arith, l))
decode-refused (d ∷ ds) zero rest s p l refused = absurd (omega arith)
decode-refused (d ∷ ds) (suc fuel) rest s p l refused =
    let (op, tail, split, next) = next_push-push_script d (push_scripts ds ++ rest) s.0 in
    ap (decode (suc fuel)) (append_assoc (push_script d) (push_scripts ds) rest ∙ split)
    ∙ (rw (decode, next, decode-refused ds fuel rest s.1 p (omega (arith, l)) refused) refl)

decode-pushdata2 :
    (d : Bytes) (fuel : ℕ)
    → length d < (length d % 256) * 2 ^ 8 + 77
    → 1 ≤ fuel
    → decode fuel (77 ∷ length d % 256 ∷ length d / 256 ∷ d) ≡ none
unfolding decode
decode-pushdata2 d zero h p = absurd (omega arith)
decode-pushdata2 d (suc fuel) h p =
    let n = length d in
    rw (decode, pushed-2 (n % 256) (n / 256) d ∙ push_of-short d (n % 256 * 2 ^ 8 + 77) h) refl

-- Data of `n` bytes that `OP_PUSHDATA2` pushes at the end of a script, after any pushes of up to 255
-- bytes each by `OP_0`, a length or `OP_PUSHDATA1`, is refused when `256 * (n % 256) + 77` exceeds
-- `n`: the opcode is taken for the low byte of the length and the low byte for the high one.
pub decode_push_datas-pushdata2 :
    (ds : List Bytes) (d : Bytes)
    → All IsShort ds
    → length d < (length d % 256) * 2 ^ 8 + 77
    → decode_push_datas (push_scripts ds ++ (77 ∷ length d % 256 ∷ length d / 256 ∷ d)) ≡ none
unfolding decode_push_datas
decode_push_datas-pushdata2 ds d s h =
    let rest = 77 ∷ length d % 256 ∷ length d / 256 ∷ d in
    let count = length-append (push_scripts ds) rest in
    decode-refused ds (length (push_scripts ds ++ rest)) rest s (omega arith)
      (omega (arith, count, count-push_scripts ds s))
      (λ f l. decode-pushdata2 d f h (omega (arith, l)))
