-- ===== src/Parser.antt =====
-- `Parser` of src/inscriptions/parser.rs: the inscriptions that the transactions of a block move and
-- create, and what they queue for the tokens.
pub mod Blocks
pub mod Known
pub mod Keeps
pub mod Returns
pub mod Inputs
pub mod Spent
pub mod Prevouts
pub mod Tests
use wjk_20_indexer.Prelude.{
  ℕ, zero, suc, ◌+◌, ◌*◌, ◌%◌, ◌^◌, Bool, true, false, not, ◌&&◌, ◌||◌, Option, none, some, List,
  [], ◌∷◌, ◌++◌, map, Bytes, Map, lookup, insert, remove, replicate, get_elem?, drop, leb, ◌==◌,
  ite, if◌then◌else◌, Outcome, ok, panic, ◌>>=◌,
}
use wjk_20_indexer.Tokens.Platform.{Platform}
use wjk_20_indexer.Tokens.Types.{
  FullHash, Txid, OutPoint, Location, InscriptionId, TokenCache, Bytes-discrete, OutPoint-discrete,
  Location-discrete,
}
use wjk_20_indexer.Tokens.Parsing.{
  Blockchain, Brc4, InscriptionTemplate, parse_token_action, transferred, burned_transfer,
}
use wjk_20_indexer.Db.Types.{TxPrevout, Part, Partials}
use wjk_20_indexer.Inscriptions.Types.{TxIn, TxOut, Tx, add_u64}
use wjk_20_indexer.Inscriptions.Scripts.{Inscription, ParsedInscription}
use wjk_20_indexer.Inscriptions.Envelopes.{Instructions}
use wjk_20_indexer.Inscriptions.Parts.{from_parts}
use wjk_20_indexer.Inscriptions.Offsets.{calc_offsets, get_output_index_by_input}
use wjk_20_indexer.Inscriptions.Leaked.{
  LeakedInscription, LeakedInscriptions, creation, move, unwrap, add, add_tx_fee,
  get_leaked_inscriptions,
}
use wjk_20_indexer.Inscriptions.Leaked
use wjk_20_indexer.Wire.Read.{from_le_bytes}

-- `value.iter().skip(8).any(|byte| byte != 0)`
abbrev pub any_nonzero : Bytes → Bool
any_nonzero [] = false
any_nonzero (b ∷ bs) = not (b == 0) || any_nonzero bs

-- The first `n` bytes, with zeros where there are none.
abbrev pub padded : ℕ → Bytes → Bytes
padded zero bs = []
padded (suc n) [] = 0 ∷ padded n []
padded (suc n) (b ∷ bs) = b ∷ padded n bs

-- `Inscription::pointer`
unfoldable pub pointer_of : Option Bytes → Option ℕ
unfolding from_le_bytes
pointer_of none = none
pointer_of (some bytes) =
    if any_nonzero (drop 8 bytes) then none else some (from_le_bytes (padded 8 bytes))

-- What the parser takes from elsewhere: bellscoin's decoding of scripts and its test of `OP_RETURN`,
-- SHA-256, UTF-8, and the JSON of the tokens; and the constants of src/main.rs.
pub record Context (p : Platform) : Type 0 where
  pub chain : Blockchain
  pub from_json : Bytes → Option (Brc4 p.Amount)
  pub instructions : Bytes → Instructions
  pub is_op_return : Bytes → Bool
  pub sha256 : Bytes → FullHash
  pub is_utf8 : Bytes → Bool
  pub jubilee_height : ℕ

-- `ParsedInscriptionResult` of src/inscriptions/indexer.rs
pub data ParsedInscriptionResult : Type 0 where
  nothing partials : ParsedInscriptionResult
  single : InscriptionTemplate → ParsedInscriptionResult
  many : List InscriptionTemplate → ParsedInscriptionResult

-- `Inscription::content_type`
abbrev pub content_type_of : (Bytes → Bool) → Option Bytes → Option Bytes
content_type_of is_utf8 none = none
content_type_of is_utf8 (some bytes) = if is_utf8 bytes then some bytes else none

-- `block.txs` and the height and time of `block.header` that `parse_block` reads
pub record Block : Type 0 where
  pub timestamp : ℕ
  pub txs : List Tx

-- `is_coinbase`, where `in_count` is the number of the inputs
unfoldable pub is_coinbase : Tx → Bool
is_coinbase tx = elim tx.inputs [
  | [] ↦ false
  | i ∷ is ↦ elim is [
    | [] ↦
        ite (Bytes-discrete i.outpoint.txid (replicate 32 0)) (i.outpoint.vout == 0xffffffff) false
    | j ∷ js ↦ false
  ]
]

module _ (p : Platform) (x : Context p) where
  open p use {Amount, op_return_hash}
  open x use {chain, from_json, instructions, is_op_return, sha256, is_utf8, jubilee_height}

  -- `inscription_template` with its place and its owner
  abbrev pub template_at : Partials → Tx → Inscription → ℕ → ℕ → TxOut → InscriptionTemplate
  template_at parts tx inscription vout offset tx_out = record {
    genesis = record { txid = parts.genesis_txid; index = 0 };
    location = record { outpoint = record { txid = tx.hash; vout = vout }; offset = offset };
    content_type = content_type_of is_utf8 inscription.content_type;
    owner =
        if is_op_return tx_out.script_pubkey then op_return_hash else sha256 tx_out.script_pubkey;
    value = tx_out.value;
    content = inscription.body;
    leaked = false;
  }

  -- The place that the pointer names, if it names one.
  abbrev pub pointed : Option ℕ → List TxOut → ℕ × ℕ → ℕ × ℕ
  pointed pointer outputs found = elim (get_output_index_by_input pointer outputs) [
    | none ↦ found
    | some place ↦ place
  ]

  unfoldable pub convert_found :
      Partials → Tx → Inscription → ℕ × ℕ → Outcome (Option InscriptionTemplate)
  unfolding pointer_of
  convert_found parts tx inscription found = do
    let place = pointed (pointer_of inscription.pointer) tx.outputs found
    tx_out ← unwrap (get_elem? tx.outputs place.0)
    ok (some (template_at parts tx inscription place.0 place.1 tx_out))

  unfoldable pub convert_to_template :
      Tx
      → ℕ
      → List ℕ
      → Partials
      → Map OutPoint TxPrevout
      → Inscription
      → LeakedInscriptions
      → Outcome (Option InscriptionTemplate × LeakedInscriptions)
  unfolding convert_found
  convert_to_template tx input_index inputs_cum parts prevouts inscription leaked =
      elim (get_output_index_by_input (get_elem? inputs_cum input_index) tx.outputs) [
        | none ↦ add input_index tx 0 prevouts creation leaked >>= λ (l : LeakedInscriptions).
            ok (none, l)
        | some found ↦
            convert_found parts tx inscription found >>= λ (t : Option InscriptionTemplate).
            ok (t, leaked)
      ]

  abbrev pub cons_some :
      Option InscriptionTemplate → List InscriptionTemplate → List InscriptionTemplate
  cons_some none ts = ts
  cons_some (some t) ts = t ∷ ts

  -- `filter_map(..).collect()`
  unfoldable pub convert_all :
      Tx
      → ℕ
      → List ℕ
      → Partials
      → Map OutPoint TxPrevout
      → List Inscription
      → LeakedInscriptions
      → Outcome (List InscriptionTemplate × LeakedInscriptions)
  unfolding convert_to_template
  convert_all tx input_index inputs_cum parts prevouts [] leaked = ok ([], leaked)
  convert_all tx input_index inputs_cum parts prevouts (i ∷ is) leaked = do
    (t, l) ← convert_to_template tx input_index inputs_cum parts prevouts i leaked
    (ts, l') ← convert_all tx input_index inputs_cum parts prevouts is l
    ok (cons_some t ts, l')

  abbrev pub single_or_nothing : Option InscriptionTemplate → ParsedInscriptionResult
  single_or_nothing none = nothing
  single_or_nothing (some t) = single t

  -- The `match` of `parse_inscription`
  unfoldable pub parsed_result :
      Tx
      → ℕ
      → List ℕ
      → Partials
      → Map OutPoint TxPrevout
      → LeakedInscriptions
      → ParsedInscription
      → Outcome (ParsedInscriptionResult × LeakedInscriptions)
  unfolding convert_to_template convert_all
  parsed_result tx i inputs_cum parts prevouts leaked ParsedInscription.nothing =
      ok (nothing, leaked)
  parsed_result tx i inputs_cum parts prevouts leaked ParsedInscription.partial =
      ok (partials, leaked)
  parsed_result tx i inputs_cum parts prevouts leaked (ParsedInscription.single inscription) = do
    (t, l) ← convert_to_template tx i inputs_cum parts prevouts inscription leaked
    ok (single_or_nothing t, l)
  parsed_result tx i inputs_cum parts prevouts leaked (ParsedInscription.many inscriptions) = do
    (ts, l) ← convert_all tx i inputs_cum parts prevouts inscriptions leaked
    ok (many ts, l)

  unfoldable pub parse_inscription :
      Tx
      → ℕ
      → List ℕ
      → Partials
      → Map OutPoint TxPrevout
      → LeakedInscriptions
      → Outcome (ParsedInscriptionResult × LeakedInscriptions)
  unfolding from_parts parsed_result
  parse_inscription tx input_index inputs_cum parts prevouts leaked =
      from_parts instructions parts.parts input_index
      >>= parsed_result tx input_index inputs_cum parts prevouts leaked

  -- What `parse_block` changes as it goes: the tokens, the two maps, the leaked inscriptions of the
  -- block, and the number of the next inscription of a transaction.
  pub record State : Type 0 where
    pub cache : TokenCache Amount
    pub outpoint_to_partials : Map OutPoint Partials
    pub offsets : Map OutPoint (List ℕ)
    pub leaked : LeakedInscriptions
    pub inscription_index : ℕ
