-- ===== src/Inscriptions/Envelopes.antt =====
-- `RawEnvelope` of src/inscriptions/envelope.rs: the envelopes in a tapscript. The decoding of a
-- script into instructions is bellscoin's: the model starts from the list that it yields, in
-- which `none` stands for an error.
pub mod Fields
pub mod Reading
use wjk_20_indexer.Prelude.{
  ℕ, zero, suc, ◌+◌, ◌-◌, Bool, true, false, ◌&&◌, Option, none, some, List, [], ◌∷◌, ◌++◌, Bytes,
  length, leb, ◌==◌, ite, if◌then◌else◌,
}
use wjk_20_indexer.Tokens.Types.{Bytes-discrete}
use wjk_20_indexer.Inscriptions.Scripts.{protocol_id}

pub data Instruction : Type 0 where
  push_bytes : Bytes → Instruction
  op : ℕ → Instruction

abbrev pub Instructions : Type 0
Instructions = List (Option Instruction)

pub record Envelope (T : Type 0) : Type 0 where
  pub input : ℕ
  pub offset : ℕ
  pub payload : T
  pub pushnum : Bool
  pub stutter : Bool

-- `peek() == Some(&Ok(PushBytes((&[]).into())))`
abbrev pub peeks_empty : Instructions → Bool
peeks_empty (some (push_bytes []) ∷ is) = true
peeks_empty _ = false

-- `accept` of an opcode, and of a push: what is left when it is accepted.
abbrev pub accept_op : ℕ → Instructions → Option Instructions
accept_op c (some (op d) ∷ is) = if d == c then some is else none
accept_op c _ = none

abbrev pub accept_push : Bytes → Instructions → Option Instructions
accept_push b (some (push_bytes d) ∷ is) = ite (Bytes-discrete d b) (some is) none
accept_push b _ = none

-- The bytes that `OP_PUSHNUM_NEG1` and `OP_PUSHNUM_1` to `OP_PUSHNUM_16` stand for.
abbrev pub pushnum_of : ℕ → Option Bytes
pushnum_of c =
    if c == 79 then some (129 ∷ []) else if leb 81 c && leb c 96 then some ((c - 80) ∷ []) else none

-- `script::Error`
pub data Read (A : Type 0) : Type 0 where
  script_error : Read A
  read : Instructions → A → Read A

-- The loop of `from_instructions`, which starts after the protocol's name: the payload, and whether
-- a number was pushed, when it comes to `OP_ENDIF` (104).
unfoldable pub read_payload : List Bytes → Bool → Instructions → Read (Option (List Bytes × Bool))
read_payload payload pushnum [] = read [] none
read_payload payload pushnum (none ∷ is) = script_error
read_payload payload pushnum (some (push_bytes b) ∷ is) =
    read_payload (payload ++ (b ∷ [])) pushnum is
read_payload payload pushnum (some (op c) ∷ is) =
    if c == 104 then read is (some (payload, pushnum)) else elim (pushnum_of c) [
      | none ↦ read is none
      | some b ↦ read_payload (payload ++ (b ∷ [])) true is
    ]

module _ (input : ℕ) where
  abbrev pub envelope_of :
      ℕ → Bool → Option (List Bytes × Bool) → Bool × Option (Envelope (List Bytes))
  envelope_of offset stutter none = (false, none)
  envelope_of offset stutter (some (payload, pushnum)) = (
    false,
    some (record {
      input = input;
      offset = offset;
      payload = payload;
      pushnum = pushnum;
      stutter = stutter;
    }),
  )

  abbrev pub finish :
      ℕ → Bool → Read (Option (List Bytes × Bool)) → Read (Bool × Option (Envelope (List Bytes)))
  finish offset stutter script_error = script_error
  finish offset stutter (read is r) = read is (envelope_of offset stutter r)

  -- `from_instructions`: `OP_IF` (99) and the protocol's name, and then the payload.
  unfoldable pub from_instructions :
      ℕ → Bool → Instructions → Read (Bool × Option (Envelope (List Bytes)))
  unfolding read_payload
  from_instructions offset stutter is = elim (accept_op 99 is) [
    | none ↦ read is (peeks_empty is, none)
    | some js ↦ elim (accept_push protocol_id js) [
      | none ↦ read js (peeks_empty js, none)
      | some ks ↦ finish offset stutter (read_payload [] false ks)
    ]
  ]

  -- The loop of `from_tapscript`, with fuel: every turn takes an instruction at least.
  unfoldable pub find_envelopes :
      ℕ → Bool → List (Envelope (List Bytes)) → Instructions → Option (List (Envelope (List Bytes)))
  unfolding from_instructions
  find_envelopes fuel stuttered envelopes [] = some envelopes
  find_envelopes zero stuttered envelopes (i ∷ is) = none
  find_envelopes (suc fuel) stuttered envelopes (none ∷ is) = none
  find_envelopes (suc fuel) stuttered envelopes (some (op c) ∷ is) =
      find_envelopes fuel stuttered envelopes is
  find_envelopes (suc fuel) stuttered envelopes (some (push_bytes (b ∷ bs)) ∷ is) =
      find_envelopes fuel stuttered envelopes is
  find_envelopes (suc fuel) stuttered envelopes (some (push_bytes []) ∷ is) =
      elim (from_instructions (length envelopes) stuttered is) [
        | script_error ↦ none
        | read js (stutter, none) ↦ find_envelopes fuel stutter envelopes js
        | read js (stutter, some e) ↦ find_envelopes fuel stuttered (envelopes ++ (e ∷ [])) js
      ]

  unfoldable pub from_tapscript : Instructions → Option (List (Envelope (List Bytes)))
  unfolding find_envelopes
  from_tapscript is = find_envelopes (length is) false [] is
