-- ===== src/Parser/Tests.antt =====
-- Runs of the block parser of src/inscriptions at concrete inputs.
use wjk_20_indexer.Prelude.{
  ℕ, ◌≡◌, refl, true, false, none, some, List, [], ◌∷◌, Bytes, Map, All, replicate, lookup, insert,
  remove, ok, panic, ite, Bool, ℕ_discrete, Results,
}
use wjk_20_indexer.Tokens.Types.{
  OutPoint, TokenCache, TokenAction, TokenMeta, TransferProtoDb, Bytes-discrete, OutPoint-discrete,
  Location-discrete, AddressLocation-discrete,
}
use wjk_20_indexer.Tokens.Tests.{numbers, place, start, wojk, deployed}
use wjk_20_indexer.Tokens.Cache.{lower}
use wjk_20_indexer.Tokens.Parsing.{wojakcoin, transferred}
use wjk_20_indexer.Db.{Db}
use wjk_20_indexer.Db.Types.{TxPrevout}
use wjk_20_indexer.Inscriptions.Types.{Tx}
use wjk_20_indexer.Reorg.Data.{ProcessedData}
use wjk_20_indexer.Parser.{Context, is_coinbase}
use wjk_20_indexer.Parser.{Block, parse_inscription, parsed_result}
use wjk_20_indexer.Parser.Blocks.{
  parse_block, parse_txs, parse_tx, parse_inputs, parse_input, create_inscriptions,
  move_inscriptions, move_all, move_found, move_leaked, move_transfer, come_back, take_result,
  keep_partials, place_all, insert_offset, is_occupied,
}
use wjk_20_indexer.Inscriptions.Offsets.{
  calc_offsets, get_output_index_by_input, find_output, input_values, pop_fee, prefix_sums,
  offsets_of_values,
}
use wjk_20_indexer.Inscriptions.Leaked.{
  add_tx_fee, get_leaked_inscriptions, known_values, running, find_fee, add, update_reward,
  find_vout, find_inscription_vout, locations,
}
use wjk_20_indexer.Inscriptions.Parts.{from_parts}
use wjk_20_indexer.Inscriptions.Scripts.{parse, decode_push_datas, decode, next_push}
use wjk_20_indexer.Store.{multi_get_kv}
use wjk_20_indexer.Parser.Keeps.{Keeps}
use wjk_20_indexer.Parser.Spent.{
  created_outputs, created_prevouts, spent_keys, find_spent, process_prevouts,
}
use wjk_20_indexer.Parser.Prevouts.{
  Found, Spends, process_prevouts-Found, process_prevouts-parse_block,
}

abbrev pub context : Context numbers
context = record {
  chain = wojakcoin;
  from_json = λ b. none;
  instructions = λ b. [];
  is_op_return = λ b. false;
  sha256 = λ b. b;
  is_utf8 = λ b. true;
  jubilee_height = 0;
}

abbrev pub unspendable : Bytes → Bool
unspendable script = false

abbrev pub rewarded : Tx
rewarded = record {
  hash = 5 ∷ [];
  inputs =
      record {
        outpoint = record { txid = replicate 32 0; vout = 0xffffffff };
        script_sig = [];
        tapscript = none;
      }
      ∷ [];
  outputs = record { value = 52; script_pubkey = 9 ∷ [] } ∷ [];
}

-- It spends the output at `place`, which is of the table, and the coinbase's, which is not.
abbrev pub spending : Tx
spending = record {
  hash = 6 ∷ [];
  inputs =
      record { outpoint = place.outpoint; script_sig = 1 ∷ []; tapscript = none }
      ∷ record {
        outpoint = record { txid = 5 ∷ []; vout = 0 };
        script_sig = 2 ∷ [];
        tapscript = none;
      }
      ∷ [];
  outputs = record { value = 60; script_pubkey = 8 ∷ [] } ∷ [];
}

abbrev pub tables : Db ℕ
tables = record {
  token_to_meta = λ k. none;
  address_location_to_transfer = λ k. none;
  address_token_to_balance = λ k. none;
  address_token_to_history = λ k. none;
  block_info = λ k. none;
  prevouts = λ k.
      ite (OutPoint-discrete k place.outpoint) (some (record { script_hash = 3 ∷ []; value = 10 }))
        none;
  outpoint_to_partials = λ k. none;
  outpoint_to_inscription_offsets =
      λ k. ite (OutPoint-discrete k place.outpoint) (some (0 ∷ [])) none;
  last_block = none;
  last_history_id = none;
  proof_of_history = λ k. none;
  block_events = λ k. none;
  fullhash_to_address = λ k. none;
  outpoint_to_event = λ k. none;
  token_id_to_event = λ k. none;
}

abbrev pub spent : Map OutPoint TxPrevout
spent =
    (record { txid = 5 ∷ []; vout = 0 }, record { script_hash = 9 ∷ []; value = 52 })
    ∷ (place.outpoint, record { script_hash = 3 ∷ []; value = 10 })
    ∷ []

abbrev pub prevouts_write : ProcessedData ℕ
prevouts_write =
    ProcessedData.prevouts
      ((record { txid = 5 ∷ []; vout = 0 }, record { script_hash = 9 ∷ []; value = 52 })
        ∷ (record { txid = 6 ∷ []; vout = 0 }, record { script_hash = 8 ∷ []; value = 60 })
        ∷ [])
      (place.outpoint ∷ record { txid = 5 ∷ []; vout = 0 } ∷ [])

pub found :
    process_prevouts unspendable context.sha256 tables (rewarded ∷ spending ∷ [])
    ≡ some (spent, prevouts_write)
unfolding process_prevouts created_prevouts created_outputs spent_keys find_spent is_coinbase
    OutPoint-discrete Bytes-discrete insert lookup ℕ_discrete
found = refl

process_prevouts-Found_example :
    All
      (Spends (
        Found tables.prevouts
          (created_prevouts unspendable context.sha256 (rewarded ∷ spending ∷ []) [])
          spent))
      (rewarded ∷ spending ∷ [])
process_prevouts-Found_example =
    process_prevouts-Found unspendable context.sha256 tables (rewarded ∷ spending ∷ []) spent
      prevouts_write found

pub first_is_coinbase : is_coinbase rewarded ≡ true
unfolding is_coinbase Bytes-discrete ℕ_discrete
first_is_coinbase = refl

process_prevouts-parse_block_example :
    Results
      (λ (r : TokenCache ℕ × List (ProcessedData ℕ)). Keeps numbers start r.0)
      (parse_block numbers context 7
        (record { timestamp = 1; txs = rewarded ∷ spending ∷ [] })
        spent
        tables
        start)
process_prevouts-parse_block_example =
    process_prevouts-parse_block numbers context unspendable 7 1 rewarded (spending ∷ []) tables
      start spent prevouts_write first_is_coinbase found

-- A token minted to 60, of which the owner of the output at `place` has set 25 aside there.
abbrev pub minted_meta : TokenMeta ℕ
minted_meta = record deployed { proto = record deployed.proto { supply = 60 } }

abbrev pub set_aside : TransferProtoDb ℕ
set_aside = record { tick = wojk; amt = 25; height = 5 }

abbrev pub token_tables : Db ℕ
token_tables = record tables {
  token_to_meta = λ k. ite (Bytes-discrete k (lower numbers wojk)) (some minted_meta) none;
  address_token_to_balance = λ k.
      ite (Bytes-discrete k.address (3 ∷ []))
        (some (record { balance = 0; transferable_balance = 25; transfers_count = 1 })) none;
  address_location_to_transfer = λ k.
      ite (AddressLocation-discrete k (record { address = 3 ∷ []; location = place }))
        (some set_aside) none;
}

-- The transfer at `place` before the block is parsed, and after, when it moves to the first output.
abbrev pub loaded_cache : TokenCache ℕ
loaded_cache = record {
  tokens = [];
  token_accounts = [];
  token_actions = [];
  all_transfers = (place, set_aside) ∷ [];
  valid_transfers = (place, (3 ∷ [], set_aside)) ∷ [];
}

abbrev pub moved_cache : TokenCache ℕ
moved_cache = record loaded_cache {
  token_actions = TokenAction.transferred place (8 ∷ []) (6 ∷ []) 0 ∷ [];
}

abbrev pub pair : Block
pair = record { timestamp = 1; txs = rewarded ∷ spending ∷ [] }

program : Unit {0}
unfolding parse_block multi_get_kv get_leaked_inscriptions parse_txs parse_tx parse_inputs
    parse_input create_inscriptions move_inscriptions move_all move_found move_leaked move_transfer
    come_back take_result keep_partials place_all parse_inscription parsed_result is_coinbase
    insert_offset is_occupied lookup insert remove OutPoint-discrete Location-discrete
    Bytes-discrete ℕ_discrete add_tx_fee calc_offsets from_parts get_output_index_by_input
    find_output input_values pop_fee prefix_sums offsets_of_values known_values running find_fee add
    update_reward find_vout find_inscription_vout locations transferred parse decode_push_datas
    decode next_push
program = tt

abbrev pub pair_run : TokenCache ℕ × List (ProcessedData ℕ)
pair_run = elim (parse_block numbers context 7 pair spent token_tables loaded_cache) [
  | ok r ↦ r
  | panic ↦ (loaded_cache, [])
]

pub pair_parsed :
    parse_block numbers context 7 pair spent token_tables loaded_cache
    ≡ ok (moved_cache, pair_run.1)
unfolding program
pair_parsed = refl

pub found_in_token_tables :
    process_prevouts unspendable context.sha256 token_tables (rewarded ∷ spending ∷ [])
    ≡ some (spent, prevouts_write)
unfolding process_prevouts
found_in_token_tables = found
