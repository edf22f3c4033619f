-- ===== src/Inscriptions/Parts.antt =====
-- `Inscription::from_parts` of src/inscriptions/structs.rs: one tapscript is read for envelopes, and
-- anything else as the signature scripts of an inscription.
use wjk_20_indexer.Prelude.{
  ℕ, ◌≡◌, refl, true, Option, none, some, List, [], ◌∷◌, Bytes, Outcome, ok, panic, if◌then◌else◌,
  ◌+◌,
}
use wjk_20_indexer.Db.Types.{Part}
use wjk_20_indexer.Inscriptions.Scripts.{
  Inscription, ParsedInscription, many, inscription_of, parse,
}
use wjk_20_indexer.Inscriptions.Envelopes.{Instructions, Envelope, from_tapscript}
use wjk_20_indexer.Inscriptions.Envelopes.Fields.{concat, parse_envelope}
use wjk_20_indexer.Inscriptions.Envelopes.Reading.{
  script_of, numbered, from_tapscript-script_of, parse_payload-content,
}

abbrev scripts : List Part → List Bytes
scripts [] = []
scripts (p ∷ ps) = p.script_buffer ∷ scripts ps

abbrev payloads : List (Envelope Inscription) → List Inscription
payloads [] = []
payloads (e ∷ es) = e.payload ∷ payloads es

abbrev parsed : List (Envelope (List Bytes)) → List (Envelope Inscription)
parsed [] = []
parsed (e ∷ es) = parse_envelope e ∷ parsed es

-- The instructions of a script are bellscoin's to decode.
module _ (instructions : Bytes → Instructions) where
  -- The scripts of all parts; the first one is looked at, which panics when there is none.
  abbrev pub from_scripts : List Part → Outcome ParsedInscription
  unfolding parse
  from_scripts [] = panic
  from_scripts (p ∷ ps) = ok (parse p.script_buffer (scripts ps))

  abbrev pub from_envelopes :
      List Part → Option (List (Envelope (List Bytes))) → Outcome ParsedInscription
  unfolding parse parse_envelope
  from_envelopes parts none = from_scripts parts
  from_envelopes parts (some es) = ok (many (payloads (parsed es)))

  unfoldable pub from_parts : List Part → ℕ → Outcome ParsedInscription
  unfolding parse from_tapscript parse_envelope
  from_parts [] vin = from_scripts []
  from_parts (p ∷ []) vin =
      if p.is_tapscript
      then from_envelopes (p ∷ []) (from_tapscript vin (instructions p.script_buffer))
      else from_scripts (p ∷ [])
  from_parts (p ∷ q ∷ ps) vin = from_scripts (p ∷ q ∷ ps)

abbrev pub content_payload : Bytes × List Bytes → List Bytes
content_payload (content, chunks) = (1 ∷ []) ∷ content ∷ [] ∷ chunks

abbrev pub content_payloads : List (Bytes × List Bytes) → List (List Bytes)
content_payloads [] = []
content_payloads (c ∷ cs) = content_payload c ∷ content_payloads cs

abbrev pub contents : List (Bytes × List Bytes) → List Inscription
contents [] = []
contents ((content, chunks) ∷ cs) = inscription_of content (concat chunks) ∷ contents cs

payloads-numbered :
    (vin n : ℕ) (cs : List (Bytes × List Bytes))
    → payloads (parsed (numbered vin n (content_payloads cs))) ≡ contents cs
unfolding parse_envelope
payloads-numbered vin n [] = refl
payloads-numbered vin n ((content, chunks) ∷ cs) =
    rw (parse_payload-content content chunks, payloads-numbered vin (n + 1) cs) refl

-- A tapscript of envelopes with a content type and a body each is parsed to those inscriptions, in
-- order, each body put together from its pushes, whatever input the script is of.
pub from_parts-script_of :
    (instructions : Bytes → Instructions) (p : Part) (vin : ℕ) (cs : List (Bytes × List Bytes))
    → p.is_tapscript ≡ true
    → instructions p.script_buffer ≡ script_of (content_payloads cs)
    → from_parts instructions (p ∷ []) vin ≡ ok (many (contents cs))
unfolding from_parts
from_parts-script_of instructions p vin cs t e =
    rw (t, e, from_tapscript-script_of vin (content_payloads cs), payloads-numbered vin 0 cs) refl
