-- ===== src/Inscriptions/Envelopes/Fields.antt =====
-- `From<RawEnvelope> for ParsedEnvelope` of src/inscriptions/envelope.rs, and `Tag` of
-- src/inscriptions/tag.rs.
use wjk_20_indexer.Prelude.{
  ℕ, ◌+◌, ◌%◌, Bool, true, false, ◌&&◌, ◌||◌, Option, none, some, List, [], ◌∷◌, ◌++◌, Map, lookup,
  insert, remove, Bytes, length, take, drop, ltb, ◌==◌, if◌then◌else◌,
}
use wjk_20_indexer.Tokens.Types.{Bytes-discrete}
use wjk_20_indexer.Inscriptions.Scripts.{Inscription}
use wjk_20_indexer.Inscriptions.Envelopes.{Envelope}

abbrev pub Fields : Type 0
Fields = Map Bytes (List Bytes)

-- The tags by their number.
pub data Tag : Type 0 where
  pointer content_type parent metadata metaprotocol content_encoding delegate rune : Tag

abbrev pub tag_bytes : Tag → Bytes
tag_bytes pointer = 2 ∷ []
tag_bytes content_type = 1 ∷ []
tag_bytes parent = 3 ∷ []
tag_bytes metadata = 5 ∷ []
tag_bytes metaprotocol = 7 ∷ []
tag_bytes content_encoding = 9 ∷ []
tag_bytes delegate = 11 ∷ []
tag_bytes rune = 13 ∷ []

abbrev pub chunked : Tag → Bool
chunked metadata = true
chunked _ = false

abbrev pub concat : List Bytes → Bytes
concat [] = []
concat (b ∷ bs) = b ++ concat bs

-- The value that is taken of a tag's values, and what is left of the fields.
abbrev take_values : Tag → List Bytes → Fields → Option Bytes × Fields
take_values t [] fields =
    (none, if chunked t then remove Bytes-discrete (tag_bytes t) fields else fields)
take_values t (v ∷ vs) fields =
    if chunked t then (some (concat (v ∷ vs)), remove Bytes-discrete (tag_bytes t) fields) else (
      some v,
      elim vs [
        | [] ↦ remove Bytes-discrete (tag_bytes t) fields
        | w ∷ ws ↦ insert Bytes-discrete (tag_bytes t) (w ∷ ws) fields
      ],
    )

-- `Tag::take`
unfoldable pub take_tag : Tag → Fields → Option Bytes × Fields
take_tag t fields = elim (lookup Bytes-discrete (tag_bytes t) fields) [
  | none ↦ (none, fields)
  | some vs ↦ take_values t vs fields
]

-- `Tag::take_array`
unfoldable pub take_array : Tag → Fields → List Bytes × Fields
take_array t fields = elim (lookup Bytes-discrete (tag_bytes t) fields) [
  | none ↦ ([], fields)
  | some vs ↦ (vs, remove Bytes-discrete (tag_bytes t) fields)
]

abbrev is_empty : Bytes → Bool
is_empty [] = true
is_empty (b ∷ bs) = false

-- `position(|(i, push)| i % 2 == 0 && push.is_empty())`
unfoldable pub body_position : ℕ → List Bytes → Option ℕ
body_position i [] = none
body_position i (push ∷ pushes) =
    let rest = body_position (i + 1) pushes in if i % 2 == 0 && is_empty push then some i else rest

-- `fields.entry(key).or_default().push(value)`
abbrev push_field : Bytes → Bytes → Fields → Fields
push_field key value fields = elim (lookup Bytes-discrete key fields) [
  | none ↦ insert Bytes-discrete key (value ∷ []) fields
  | some vs ↦ insert Bytes-discrete key (vs ++ (value ∷ [])) fields
]

-- The loop over `chunks(2)`: the fields, and whether one is incomplete.
unfoldable pub collect_fields : Fields → List Bytes → Fields × Bool
collect_fields fields [] = (fields, false)
collect_fields fields (key ∷ []) = (fields, true)
collect_fields fields (key ∷ value ∷ rest) = collect_fields (push_field key value fields) rest

abbrev any_duplicate : Fields → Bool
any_duplicate [] = false
any_duplicate ((k, vs) ∷ fields) = ltb 1 (length vs) || any_duplicate fields

abbrev any_even : Fields → Bool
any_even [] = false
any_even (([], vs) ∷ fields) = any_even fields
any_even ((b ∷ k, vs) ∷ fields) = b % 2 == 0 || any_even fields

abbrev body_after : Option ℕ → List Bytes → Option Bytes
body_after none payload = none
body_after (some i) payload = some (concat (drop (i + 1) payload))

abbrev before_body : Option ℕ → List Bytes → List Bytes
before_body none payload = payload
before_body (some i) payload = take i payload

unfoldable pub parse_payload : List Bytes → Inscription
unfolding take_tag take_array body_position collect_fields
parse_payload payload =
    let body = body_position 0 payload in
    let (fields, incomplete_field) = collect_fields [] (before_body body payload) in
    let duplicate_field = any_duplicate fields in
    let (encoding, f1) = take_tag content_encoding fields in
    let (kind, f2) = take_tag content_type f1 in
    let (delegated, f3) = take_tag delegate f2 in
    let (meta, f4) = take_tag metadata f3 in
    let (protocol, f5) = take_tag metaprotocol f4 in
    let (parents, f6) = take_array parent f5 in
    let (pointed, f7) = take_tag pointer f6 in
    let (runed, f8) = take_tag rune f7 in
    record {
      body = body_after body payload;
      content_type = kind;
      content_encoding = encoding;
      delegate = delegated;
      duplicate_field = duplicate_field;
      incomplete_field = incomplete_field;
      metadata = meta;
      metaprotocol = protocol;
      parents = parents;
      pointer = pointed;
      rune = runed;
      unrecognized_even_field = any_even f8;
    }

-- `ParsedEnvelope::from`
unfoldable pub parse_envelope : Envelope (List Bytes) → Envelope Inscription
unfolding parse_payload
parse_envelope e = record {
  input = e.input;
  offset = e.offset;
  payload = parse_payload e.payload;
  pushnum = e.pushnum;
  stutter = e.stutter;
}
