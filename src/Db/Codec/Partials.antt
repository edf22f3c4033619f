-- ===== src/Db/Codec/Partials.antt =====
-- `Pebble for Partials` of src/db/structs.rs: the parts of an inscription one after the other, each
-- with its length.
use wjk_20_indexer.Prelude.{
  ℕ, zero, suc, ◌+◌, ◌%◌, ◌^◌, ◌≤◌, ◌<◌, ◌≡◌, refl, ap, ◌∙◌, Bool, true, false, none, some, List,
  [], ◌∷◌, ◌++◌, append-nil, append_assoc, Bytes, length, length-append, get_elem?, All, ◌==◌,
  ==_refl, lt→==, subst, if◌then◌else◌, arith,
}
use wjk_20_indexer.Codec.{
  Decoded, value, panic, ◌>>=◌, slice_to, slice, to_array, to_be_bytes, from_be_bytes,
  length-to_be_bytes, from_be_bytes-to_be_bytes, slice_to-append, slice-append, to_array-length,
}
use wjk_20_indexer.Db.Types.{Partials, Part}
use wjk_20_indexer.Db.Codec.{Consensus}

-- The loop of `get_bytes`.
unfoldable pub get_parts_bytes : List Part → Bytes
get_parts_bytes [] = []
get_parts_bytes (part ∷ parts) =
    (if part.is_tapscript then 1 else 0)
    ∷ (to_be_bytes 4 (length part.script_buffer % 2 ^ 32)
        ++ (part.script_buffer ++ get_parts_bytes parts))

-- `v[i]`
abbrev byte_at : ℕ → Bytes → Decoded ℕ
byte_at i v = elim (get_elem? v i) [ some b ↦ value b | none ↦ panic ]

-- `while current_byte != v.len()`, with fuel: every turn reads five bytes at least.
unfoldable pub read_parts : ℕ → Bytes → ℕ → Decoded (List Part)
read_parts zero v current = if current == length v then value [] else panic
read_parts (suc fuel) v current = if current == length v then value [] else do
  flag ← byte_at current v
  n ← slice (current + 1) (current + 1 + 4) v
  len ← to_array 4 n
  script ← slice (current + 5) (current + 5 + from_be_bytes len) v
  parts ← read_parts fuel v (current + 5 + from_be_bytes len)
  value (record { is_tapscript = flag == 1; script_buffer = script } ∷ parts)

module _ (c : Consensus) where
  unfoldable pub get_partials_bytes : Partials → Bytes
  unfolding get_parts_bytes
  get_partials_bytes v =
      to_be_bytes 4 v.inscription_index
      ++ (c.serialize_txid v.genesis_txid ++ get_parts_bytes v.parts)

  unfoldable pub partials_from_bytes : Bytes → Decoded Partials
  unfolding read_parts
  partials_from_bytes v = do
    n ← slice_to 4 v
    index ← to_array 4 n
    t ← slice 4 (32 + 4) v
    txid ← c.deserialize_txid t
    parts ← read_parts (length v) v (32 + 4)
    value (record { inscription_index = from_be_bytes index; genesis_txid = txid; parts = parts })

get_elem?-append :
    {A : Type 0} (xs ys : List A) (y : A) → get_elem? (xs ++ (y ∷ ys)) (length xs) ≡ some y
get_elem?-append [] ys y = refl
get_elem?-append (x ∷ xs) ys y = get_elem?-append xs ys y

byte_at-append : (xs ys : Bytes) (y : ℕ) → byte_at (length xs) (xs ++ (y ∷ ys)) ≡ value y
byte_at-append xs ys y = rw (byte_at, get_elem?-append xs ys y) refl

small : (n : ℕ) → n < 2 ^ 32 → n % 2 ^ 32 ≡ n
small n h = omega arith

flag_back : (b : Bool) → ((if b then 1 else 0) == 1) ≡ b
flag_back true = refl
flag_back false = refl

-- One turn of the loop, at a part that starts after `pre`.
read_parts-turn :
    (fuel flag : ℕ) (pre n script rest : Bytes)
    → length n ≡ 4
    → from_be_bytes n ≡ length script
    → let v = pre ++ (flag ∷ (n ++ (script ++ rest))) in
      read_parts (suc fuel) v (length pre) ≡ (do
        parts ← read_parts fuel v (length pre + 5 + length script)
        value (record { is_tapscript = flag == 1; script_buffer = script } ∷ parts))
unfolding read_parts
read_parts-turn fuel flag pre n script rest h k =
    let before = pre ++ (flag ∷ []) in
    let v = pre ++ (flag ∷ (n ++ (script ++ rest))) in
    let length-before : length before ≡ length pre + 1 =
      omega (arith, length-append pre (flag ∷ [])) in
    let whole : before ++ (n ++ (script ++ rest)) ≡ v =
      append_assoc pre (flag ∷ []) (n ++ (script ++ rest)) in
    let size : slice (length pre + 1) (length pre + 1 + 4) v ≡ value n =
      subst (λ x. slice (length pre + 1) (length pre + 1 + 4) x ≡ value n) whole
        (slice-append (length pre + 1) (length pre + 1 + 4) before n (script ++ rest) length-before
          (omega (arith, length-before, h))) in
    let body : slice (length pre + 5) (length pre + 5 + length script) v ≡ value script =
      subst (λ x. slice (length pre + 5) (length pre + 5 + length script) x ≡ value script)
        (append_assoc before n (script ++ rest) ∙ whole)
        (slice-append (length pre + 5) (length pre + 5 + length script) (before ++ n) script rest
          (omega (arith, length-append before n, length-before, h))
          (omega (arith, length-append before n, length-before, h))) in
    let more : (length pre == length v) ≡ false =
      lt→== (length pre) (length v)
        (omega (arith, length-append pre (flag ∷ (n ++ (script ++ rest))))) in
    rw (more, byte_at-append pre (n ++ (script ++ rest)) flag, size, to_array-length 4 n h, k, body)
      refl

-- What `get_bytes` writes for the parts is read back wherever it stands, when the fuel is at least
-- the number of parts.
read_parts-get_parts_bytes :
    (parts : List Part) (pre : Bytes) (fuel : ℕ)
    → All (λ (p : Part). length p.script_buffer < 2 ^ 32) parts
    → length parts ≤ fuel
    → read_parts fuel (pre ++ get_parts_bytes parts) (length pre) ≡ value parts
unfolding read_parts get_parts_bytes
read_parts-get_parts_bytes [] pre zero s l = rw (append-nil pre, ==_refl (length pre)) refl
read_parts-get_parts_bytes [] pre (suc fuel) s l = rw (append-nil pre, ==_refl (length pre)) refl
read_parts-get_parts_bytes (p ∷ ps) pre zero s l = absurd (omega arith)
read_parts-get_parts_bytes (p ∷ ps) pre (suc fuel) s l =
    let flag : ℕ = if p.is_tapscript then 1 else 0 in
    let n = to_be_bytes 4 (length p.script_buffer % 2 ^ 32) in
    let rest = get_parts_bytes ps in
    let next = pre ++ (flag ∷ (n ++ p.script_buffer)) in
    let v = pre ++ (flag ∷ (n ++ (p.script_buffer ++ rest))) in
    let whole : next ++ rest ≡ v =
      append_assoc pre (flag ∷ (n ++ p.script_buffer)) rest
      ∙ ap (λ x. pre ++ (flag ∷ x)) (append_assoc n p.script_buffer rest) in
    let at : length next ≡ length pre + 5 + length p.script_buffer = omega (
      arith,
      length-append pre (flag ∷ (n ++ p.script_buffer)),
      length-append n p.script_buffer,
      length-to_be_bytes 4 (length p.script_buffer % 2 ^ 32),
    ) in
    let read : read_parts fuel v (length pre + 5 + length p.script_buffer) ≡ value ps =
      subst (λ x. read_parts fuel v x ≡ value ps) at
        (subst (λ x. read_parts fuel x (length next) ≡ value ps) whole
          (read_parts-get_parts_bytes ps next fuel s.1 (omega arith))) in
    rw
      (read_parts-turn fuel flag pre n p.script_buffer rest
        (length-to_be_bytes 4 (length p.script_buffer % 2 ^ 32))
        (from_be_bytes-to_be_bytes 4 (length p.script_buffer % 2 ^ 32) (omega (arith))
          ∙ small (length p.script_buffer) s.0))
      (rw (read, flag_back p.is_tapscript) refl)

count-get_parts_bytes : (parts : List Part) → length parts ≤ length (get_parts_bytes parts)
unfolding get_parts_bytes
count-get_parts_bytes [] = omega arith
count-get_parts_bytes (p ∷ ps) =
    let n = to_be_bytes 4 (length p.script_buffer % 2 ^ 32) in
    omega (
      arith,
      length-append n (p.script_buffer ++ get_parts_bytes ps),
      length-append p.script_buffer (get_parts_bytes ps),
      count-get_parts_bytes ps,
    )

module _ (c : Consensus) where
  -- Partials with a transaction id of 32 bytes, an index below 2^32 and scripts shorter than 2^32
  -- bytes are read back from what is written for them.
  pub partials-round_trip :
      (v : Partials)
      → length v.genesis_txid ≡ 32
      → v.inscription_index < 2 ^ 32
      → All (λ (p : Part). length p.script_buffer < 2 ^ 32) v.parts
      → partials_from_bytes c (get_partials_bytes c v) ≡ value v
  unfolding partials_from_bytes get_partials_bytes
  partials-round_trip v h k s =
      let i = to_be_bytes 4 v.inscription_index in
      let t = c.serialize_txid v.genesis_txid in
      let ps = get_parts_bytes v.parts in
      let length-i = length-to_be_bytes 4 v.inscription_index in
      let length-t = c.length-txid v.genesis_txid h in
      let all = i ++ (t ++ ps) in
      let read : read_parts (length all) all 36 ≡ value v.parts =
        subst (λ x. read_parts (length all) all x ≡ value v.parts)
          (omega (arith, length-append i t))
          (subst (λ x. read_parts (length all) x (length (i ++ t)) ≡ value v.parts)
            (append_assoc i t ps)
            (read_parts-get_parts_bytes v.parts (i ++ t) (length all) s (
              omega (
                arith,
                length-append i (t ++ ps),
                length-append t ps,
                count-get_parts_bytes v.parts,
              )))) in
      rw
        (
          slice_to-append 4 i (t ++ ps) length-i,
          to_array-length 4 i length-i,
          slice-append 4 36 i t ps length-i (omega arith),
          c.read_txid v.genesis_txid h,
          read,
          from_be_bytes-to_be_bytes 4 v.inscription_index k,
        )
        refl
