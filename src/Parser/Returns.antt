-- ===== src/Parser/Returns.antt =====
-- `parse_block` of src/inscriptions/parser.rs returns for a block whose spent outputs are known.
use wjk_20_indexer.Prelude.{
  ℕ, ◌<◌, Bool, true, false, Bool-cases, Option-cases, inl, inr, Option, none, some, List, [], ◌∷◌,
  ◌++◌, Bytes, Map, lookup, All, length, get_elem?, Results, Results->>=,
}
use wjk_20_indexer.Tokens.Platform.{Platform}
use wjk_20_indexer.Tokens.Types.{OutPoint, Location, TokenCache, Location-discrete}
use wjk_20_indexer.Db.Types.{TxPrevout, Part, Partials}
use wjk_20_indexer.Inscriptions.Types.{TxIn, TxOut, Tx}
use wjk_20_indexer.Inscriptions.Scripts.{Inscription, ParsedInscription, parse}
use wjk_20_indexer.Inscriptions.Parts.{from_parts, from_envelopes}
use wjk_20_indexer.Inscriptions.Envelopes.{Envelope, from_tapscript}
use wjk_20_indexer.Inscriptions.Envelopes.Fields.{parse_envelope}
use wjk_20_indexer.Inscriptions.Offsets.{get_output_index_by_input}
use wjk_20_indexer.Inscriptions.Leaked.{LeakedInscriptions, creation, move, unwrap, add}
use wjk_20_indexer.Parser.{
  Context, State, pointed, pointer_of, convert_found, convert_to_template, convert_all,
  parsed_result,
}
use wjk_20_indexer.Parser.Blocks.{move_found, move_leaked, move_all, place_of, is_some, come_back}
use wjk_20_indexer.Parser.Known.{IsSome, IsKnown, unwrap-returns, output-there, add-returns}
use wjk_20_indexer.Parser.Keeps.{Keeps, move_transfer-Keeps, come_back-Keeps}

abbrev pub Any : {A : Type 0} → A → Type 0
Any a = Unit

module _ (p : Platform) (x : Context p) (prevouts : Map OutPoint TxPrevout) where
  open p use {Amount}
  open x use {instructions, jubilee_height, is_op_return}

  pointed-there :
      (pointer : Option ℕ) (os : List TxOut) (found : ℕ × ℕ)
      → IsSome (get_elem? os found.0)
      → IsSome (get_elem? os (pointed p x pointer os found).0)
  pointed-there pointer os found there =
      elim (Option-cases (get_output_index_by_input pointer os)) [
        | inl missing ↦ rw (missing, pointed) there
        | inr (place, e) ↦ rw (e, pointed) (output-there pointer os place e)
      ]

  convert_found-returns :
      (parts : Partials) (tx : Tx) (i : Inscription) (found : ℕ × ℕ)
      → IsSome (get_elem? tx.outputs found.0)
      → Results Any (convert_found p x parts tx i found)
  unfolding convert_found
  convert_found-returns parts tx i found there =
      let place = pointed p x (pointer_of i.pointer) tx.outputs found in
      Results->>= _ Any (unwrap (get_elem? tx.outputs place.0)) _
        (unwrap-returns (get_elem? tx.outputs place.0)
          (pointed-there (pointer_of i.pointer) tx.outputs found there))
        λ out e. tt

  module _ (tx : Tx) (known : All (IsKnown prevouts) tx.inputs) (i : ℕ)
      (at : i < length tx.inputs) where
    pub convert_to_template-returns :
        (cum : List ℕ) (parts : Partials) (inscription : Inscription) (l : LeakedInscriptions)
        → Results Any (convert_to_template p x tx i cum parts prevouts inscription l)
    unfolding convert_to_template
    convert_to_template-returns cum parts inscription l =
        elim (Option-cases (get_output_index_by_input (get_elem? cum i) tx.outputs)) [
          | inl missing ↦
              rw (missing, Results)
                (Results->>= Any Any (add i tx 0 prevouts creation l) _
                  (add-returns prevouts i tx 0 creation l known at) λ l' u. tt)
          | inr (found, e) ↦
              rw (e, Results)
                (Results->>= Any Any (convert_found p x parts tx inscription found) _
                  (convert_found-returns parts tx inscription found
                    (output-there (get_elem? cum i) tx.outputs found e))
                  λ t u. tt)
        ]

    convert_all-returns :
        (cum : List ℕ) (parts : Partials) (is : List Inscription) (l : LeakedInscriptions)
        → Results Any (convert_all p x tx i cum parts prevouts is l)
    unfolding convert_all
    convert_all-returns cum parts [] l = tt
    convert_all-returns cum parts (n ∷ ns) l =
        Results->>= Any Any (convert_to_template p x tx i cum parts prevouts n l) _
          (convert_to_template-returns cum parts n l)
          λ r u.
            Results->>= Any Any (convert_all p x tx i cum parts prevouts ns r.1) _
              (convert_all-returns cum parts ns r.1) λ q v. tt

    pub parsed_result-returns :
        (cum : List ℕ) (parts : Partials) (l : LeakedInscriptions) (r : ParsedInscription)
        → Results Any (parsed_result p x tx i cum parts prevouts l r)
    unfolding parsed_result
    parsed_result-returns cum parts l ParsedInscription.nothing = tt
    parsed_result-returns cum parts l ParsedInscription.partial = tt
    parsed_result-returns cum parts l (ParsedInscription.single n) =
        Results->>= Any Any (convert_to_template p x tx i cum parts prevouts n l) _
          (convert_to_template-returns cum parts n l) λ r u. tt
    parsed_result-returns cum parts l (ParsedInscription.many ns) =
        Results->>= Any Any (convert_all p x tx i cum parts prevouts ns l) _
          (convert_all-returns cum parts ns l) λ r u. tt

    move_leaked-returns :
        (c0 : TokenCache Amount) (txin : TxIn) (o : ℕ) (is_transfer : Bool) (st : State p x)
        → IsKnown prevouts txin
        → Keeps p c0 st.cache
        → Results
            (λ (s : State p x). Keeps p c0 s.cache)
            (move_leaked p x tx i txin o is_transfer prevouts st)
    unfolding move_leaked
    move_leaked-returns c0 txin o is_transfer st k h =
        let old : Location = record { outpoint = txin.outpoint; offset = o } in
        Results->>= (Keeps p c0) (λ (s : State p x). Keeps p c0 s.cache)
          (come_back p x tx txin old is_transfer prevouts st.cache) _
          (come_back-Keeps p x c0 st.cache tx txin old is_transfer prevouts k h)
          λ cache k'.
            Results->>= Any (λ (s : State p x). Keeps p c0 s.cache)
              (add i tx o prevouts move st.leaked) _
              (add-returns prevouts i tx o move st.leaked known at) λ l u. k'

    move_found-returns :
        (c0 : TokenCache Amount) (old : Location) (is_transfer : Bool) (found : ℕ × ℕ)
        (st : State p x)
        → IsSome (get_elem? tx.outputs found.0)
        → Keeps p c0 st.cache
        → Results
            (λ (s : State p x). Keeps p c0 s.cache)
            (move_found p x tx old is_transfer found st)
    unfolding move_found
    move_found-returns c0 old false (vout, offset) st there h = h
    move_found-returns c0 old true (vout, offset) st there h =
        Results->>= _ (λ (s : State p x). Keeps p c0 s.cache) (unwrap (get_elem? tx.outputs vout)) _
          (unwrap-returns (get_elem? tx.outputs vout) there)
          λ out e. move_transfer-Keeps p x c0 st.cache tx old vout out h

    pub move_all-returns :
        (c0 : TokenCache Amount) (txin : TxIn) (cum offsets : List ℕ) (st : State p x)
        → IsKnown prevouts txin
        → Keeps p c0 st.cache
        → Results
            (λ (s : State p x). Keeps p c0 s.cache)
            (move_all p x tx i txin cum prevouts offsets st)
    unfolding move_all
    move_all-returns c0 txin cum [] st k h = h
    move_all-returns c0 txin cum (o ∷ os) st k h =
        let old : Location = record { outpoint = txin.outpoint; offset = o } in
        let is_transfer = is_some (lookup Location-discrete old st.cache.all_transfers) in
        elim (Option-cases (get_output_index_by_input (place_of (get_elem? cum i) o) tx.outputs)) [
          | inl missing ↦ rw missing (
              Results->>= (λ (s : State p x). Keeps p c0 s.cache)
                (λ (s : State p x). Keeps p c0 s.cache)
                (move_leaked p x tx i txin o is_transfer prevouts st) _
                (move_leaked-returns c0 txin o is_transfer st k h)
                λ s k'. move_all-returns c0 txin cum os s k k')
          | inr (found, e) ↦ rw e (
              Results->>= (λ (s : State p x). Keeps p c0 s.cache)
                (λ (s : State p x). Keeps p c0 s.cache) (move_found p x tx old is_transfer found st)
                _
                (move_found-returns c0 old is_transfer found st
                  (output-there (place_of (get_elem? cum i) o) tx.outputs found e) h)
                λ s k'. move_all-returns c0 txin cum os s k k')
        ]

  from_envelopes-returns :
      (q : Part) (es : Option (List (Envelope (List Bytes))))
      → Results Any (from_envelopes instructions (q ∷ []) es)
  unfolding parse parse_envelope
  from_envelopes-returns q none = tt
  from_envelopes-returns q (some es) = tt

  pub from_parts-returns :
      (ps : List Part) (q : Part) (vin : ℕ)
      → Results Any (from_parts instructions (ps ++ (q ∷ [])) vin)
  unfolding from_parts
  from_parts-returns [] q vin = elim (Bool-cases q.is_tapscript) [
    | inl tapscript ↦
        rw (tapscript, Results)
          (from_envelopes-returns q (from_tapscript vin (instructions q.script_buffer)))
    | inr script ↦ rw (script, Results) tt
  ]
  from_parts-returns (a ∷ []) q vin = tt
  from_parts-returns (a ∷ b ∷ ps) q vin = tt
