-- ===== src/Inscriptions/Scripts.antt =====
-- `InscriptionParser` of src/inscriptions/structs.rs: inscriptions whose pieces are pushed by the
-- signature scripts of one or more transactions.
pub mod Pushes
pub mod Pieces
use wjk_20_indexer.Prelude.{
  ℕ, zero, suc, ◌+◌, ◌-◌, ◌*◌, ◌%◌, ◌^◌, Bool, true, false, ◌&&◌, Option, none, some, List, [], ◌∷◌,
  ◌++◌, Bytes, length, take, drop, ltb, leb, ◌==◌, ite, if◌then◌else◌,
}
use wjk_20_indexer.Tokens.Types.{Bytes-discrete}

pub record Inscription : Type 0 where
  pub body : Option Bytes
  pub content_type : Option Bytes
  pub content_encoding : Option Bytes
  pub delegate : Option Bytes
  pub duplicate_field : Bool
  pub incomplete_field : Bool
  pub metadata : Option Bytes
  pub metaprotocol : Option Bytes
  pub parents : List Bytes
  pub pointer : Option Bytes
  pub rune : Option Bytes
  pub unrecognized_even_field : Bool

pub data ParsedInscription : Type 0 where
  nothing partial : ParsedInscription
  single : Inscription → ParsedInscription
  many : List Inscription → ParsedInscription

-- `PROTOCOL_ID`: "ord"
abbrev pub protocol_id : Bytes
protocol_id = 111 ∷ 114 ∷ 100 ∷ []

-- The next `len` bytes as a push, with what follows, when there are so many.
abbrev pub push_of : ℕ → Bytes → Option (Bytes × Bytes)
push_of len bytes = if ltb (length bytes) len then none else some (take len bytes, drop len bytes)

abbrev pub pushdata1 : Bytes → Option (Bytes × Bytes)
pushdata1 [] = none
pushdata1 (n ∷ bytes) = push_of n bytes

-- The length is `(bytes[1] << 8) + bytes[0]`, where `bytes[0]` is the opcode.
abbrev pub pushdata2 : ℕ → Bytes → Option (Bytes × Bytes)
pushdata2 op [] = none
pushdata2 op (b1 ∷ []) = none
pushdata2 op (b1 ∷ b2 ∷ bytes) = push_of (b1 * 2 ^ 8 + op) bytes

abbrev pub pushdata4 : ℕ → Bytes → Option (Bytes × Bytes)
pushdata4 op (b1 ∷ b2 ∷ b3 ∷ b4 ∷ bytes) =
    push_of (b3 * 2 ^ 24 + b2 * 2 ^ 16 + b1 * 2 ^ 8 + op) bytes
pushdata4 op _ = none

-- One turn of the loop of `decode_push_datas`: the data of the next opcode, and the bytes after it.
unfoldable pub next_push : ℕ → Bytes → Option (Bytes × Bytes)
next_push op bytes =
    if op == 0
    then some ([], bytes)
    else if leb 81 op && leb op 96
    then some ((op - 80) ∷ [], bytes)
    else if leb 1 op && leb op 75
    then push_of op bytes
    else if op == 76
    then pushdata1 bytes
    else if op == 77
    then pushdata2 op bytes
    else if op == 78
    then pushdata4 op bytes
    else none

abbrev pub cons_push : Bytes → Option (List Bytes) → Option (List Bytes)
cons_push d none = none
cons_push d (some ds) = some (d ∷ ds)

-- `while !bytes.is_empty()`, with fuel: every turn takes a byte at least.
unfoldable pub decode : ℕ → Bytes → Option (List Bytes)
unfolding next_push
decode fuel [] = some []
decode zero (op ∷ bytes) = none
decode (suc fuel) (op ∷ bytes) = elim (next_push op bytes) [
  | none ↦ none
  | some (d, rest) ↦ cons_push d (decode fuel rest)
]

unfoldable pub decode_push_datas : Bytes → Option (List Bytes)
unfolding decode
decode_push_datas script = decode (length script) script

-- `n += (*i as u64) << m; m += 8`
abbrev pub number : ℕ → ℕ → Bytes → ℕ
number n m [] = n
number n m (i ∷ data_) = number ((n + i * 2 ^ m) % 2 ^ 64) (m + 8) data_

unfoldable pub push_data_to_number : Bytes → Option ℕ
push_data_to_number data_ = if ltb 8 (length data_) then none else some (number 0 0 data_)

-- The loop over chunks: the number of pieces that are left, and the body.
unfoldable pub take_chunks : ℕ → List Bytes → Bytes → ℕ × Bytes
take_chunks zero push_datas body = (0, body)
take_chunks (suc n) (a ∷ d ∷ push_datas) body =
    let rest = take_chunks n push_datas (body ++ d) in
    elim (push_data_to_number a) [
      | none ↦ (suc n, body)
      | some next ↦ if next == n then rest else (suc n, body)
    ]
take_chunks (suc n) (a ∷ []) body = (suc n, body)
take_chunks (suc n) [] body = (suc n, body)

abbrev pub inscription_of : Bytes → Bytes → Inscription
inscription_of content_type body = record {
  body = some body;
  content_type = some content_type;
  content_encoding = none;
  delegate = none;
  duplicate_field = false;
  incomplete_field = false;
  metadata = none;
  metaprotocol = none;
  parents = [];
  pointer = none;
  rune = none;
  unrecognized_even_field = false;
}

-- Whether a later script starts with the piece that is expected after `n` left.
abbrev pub continues : ℕ → List Bytes → Bool
continues n (a ∷ d ∷ push_datas) = elim (push_data_to_number a) [
  | none ↦ false
  | some next ↦ next == n - 1
]
continues n _ = false

-- The loop over transactions, after the chunks of a script: with no piece left it is done.
unfoldable pub read_scripts : Bytes → List Bytes → ℕ × Bytes → ParsedInscription
unfolding take_chunks push_data_to_number decode_push_datas
read_scripts content_type [] (zero, body) = single (inscription_of content_type body)
read_scripts content_type [] (suc n, body) = partial
read_scripts content_type (s ∷ ss) (zero, body) = single (inscription_of content_type body)
read_scripts content_type (s ∷ ss) (suc n, body) = elim (decode_push_datas s) [
  | none ↦ nothing
  | some push_datas ↦
      let rest = read_scripts content_type ss (take_chunks (suc n) push_datas body) in
      if continues (suc n) push_datas then rest else nothing
]

abbrev pub start : List Bytes → List Bytes → ParsedInscription
unfolding push_data_to_number read_scripts take_chunks
start ss (protocol ∷ npieces ∷ content_type ∷ push_datas) =
    ite (Bytes-discrete protocol protocol_id)
      (elim (push_data_to_number npieces) [
        | none ↦ nothing
        | some zero ↦ nothing
        | some (suc n) ↦ read_scripts content_type ss (take_chunks (suc n) push_datas [])
      ])
      nothing
start ss _ = nothing

-- `InscriptionParser::parse` of the script of a first transaction and those of the later ones.
unfoldable pub parse : Bytes → List Bytes → ParsedInscription
unfolding decode_push_datas push_data_to_number read_scripts take_chunks
parse s ss = elim (decode_push_datas s) [ none ↦ nothing | some push_datas ↦ start ss push_datas ]
