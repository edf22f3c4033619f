-- ===== src/Inscriptions/Envelopes/Reading.antt =====
-- `RawEnvelope::from_tapscript` of src/inscriptions/envelope.rs on a script of envelopes, and what
-- the parser makes of one with a content type and a body.
use wjk_20_indexer.Prelude.{
  ℕ, zero, suc, ◌+◌, ◌≤◌, ◌≡◌, refl, sym, ap, ◌∙◌, Bool, false, some, List, [], ◌∷◌, ◌++◌,
  append_assoc, append-nil, Bytes, length, length-append, lookup, insert, remove, arith, ℕ_discrete,
}
use wjk_20_indexer.Tokens.Types.{Bytes-discrete}
use wjk_20_indexer.Inscriptions.Scripts.{protocol_id, inscription_of}
use wjk_20_indexer.Inscriptions.Envelopes.{
  push_bytes, op, Instructions, Envelope, read, read_payload, from_instructions, find_envelopes,
  from_tapscript,
}
use wjk_20_indexer.Inscriptions.Envelopes.Fields.{
  concat, take_tag, take_array, body_position, collect_fields, parse_payload,
}

abbrev pub pushes : List Bytes → Instructions
pushes [] = []
pushes (b ∷ bs) = some (push_bytes b) ∷ pushes bs

-- The script of some envelopes, one after the other.
abbrev pub script_of : List (List Bytes) → Instructions
script_of [] = []
script_of (p ∷ ps) =
    some (push_bytes [])
    ∷ some (op 99)
    ∷ some (push_bytes protocol_id)
    ∷ (pushes p ++ (some (op 104) ∷ script_of ps))

read_payload-pushes :
    (p acc : List Bytes) (pushnum : Bool) (is : Instructions)
    → read_payload acc pushnum (pushes p ++ (some (op 104) ∷ is))
      ≡ read is (some (acc ++ p, pushnum))
unfolding read_payload
read_payload-pushes [] acc pushnum is = ap (λ z. read is (some (z, pushnum))) (sym (append-nil acc))
read_payload-pushes (b ∷ p) acc pushnum is =
    read_payload-pushes p (acc ++ (b ∷ [])) pushnum is
    ∙ ap (λ z. read is (some (z, pushnum))) (append_assoc acc (b ∷ []) p)

module _ (input : ℕ) where
  -- The envelopes of some payloads, numbered from `n`.
  abbrev pub numbered : ℕ → List (List Bytes) → List (Envelope (List Bytes))
  numbered n [] = []
  numbered n (p ∷ ps) =
      record { input = input; offset = n; payload = p; pushnum = false; stutter = false }
      ∷ numbered (n + 1) ps

  from_instructions-pushes :
      (offset : ℕ) (p : List Bytes) (is : Instructions)
      → from_instructions input offset false
          (some (op 99) ∷ some (push_bytes protocol_id) ∷ (pushes p ++ (some (op 104) ∷ is)))
        ≡ read is (
          false,
          some (record {
            input = input;
            offset = offset;
            payload = p;
            pushnum = false;
            stutter = false;
          }),
        )
  unfolding from_instructions Bytes-discrete ℕ_discrete
  from_instructions-pushes offset p is =
      rw (from_instructions, read_payload-pushes p [] false is) refl

  find_envelopes-script_of :
      (ps : List (List Bytes)) (fuel : ℕ) (acc : List (Envelope (List Bytes)))
      → length ps ≤ fuel
      → find_envelopes input fuel false acc (script_of ps) ≡ some (acc ++ numbered (length acc) ps)
  unfolding find_envelopes
  find_envelopes-script_of [] fuel acc h = ap some (sym (append-nil acc))
  find_envelopes-script_of (p ∷ ps) zero acc h = absurd (omega arith)
  find_envelopes-script_of (p ∷ ps) (suc fuel) acc h =
      let e : Envelope (List Bytes) = record {
        input = input;
        offset = length acc;
        payload = p;
        pushnum = false;
        stutter = false;
      } in
      rw (find_envelopes, from_instructions-pushes (length acc) p (script_of ps))
        (find_envelopes-script_of ps fuel (acc ++ (e ∷ [])) (omega arith)
          ∙ ap (λ z. some ((acc ++ (e ∷ [])) ++ numbered z ps)) (length-append acc (e ∷ []))
          ∙ ap some (append_assoc acc (e ∷ []) (numbered (length acc + 1) ps)))

  count-script_of : (ps : List (List Bytes)) → length ps ≤ length (script_of ps)
  count-script_of [] = omega arith
  count-script_of (p ∷ ps) =
      omega (arith, length-append (pushes p) (some (op 104) ∷ script_of ps), count-script_of ps)

  -- The envelopes of a script that consists of them are found, with their payloads and numbers, in
  -- order, with the fuel that is given.
  pub from_tapscript-script_of :
      (ps : List (List Bytes)) → from_tapscript input (script_of ps) ≡ some (numbered 0 ps)
  unfolding from_tapscript
  from_tapscript-script_of ps =
      find_envelopes-script_of ps (length (script_of ps)) [] (count-script_of ps)

-- A payload of a content type and a body in chunks is parsed to them, and to no other field.
pub parse_payload-content :
    (content : Bytes) (chunks : List Bytes)
    → parse_payload ((1 ∷ []) ∷ content ∷ [] ∷ chunks) ≡ inscription_of content (concat chunks)
unfolding parse_payload take_tag take_array body_position collect_fields lookup insert remove
    Bytes-discrete ℕ_discrete
parse_payload-content content chunks = refl
