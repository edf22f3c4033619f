-- ===== src/Inscriptions/Tests.antt =====
-- The positions and the parsers of src/inscriptions at concrete transactions and scripts.
use wjk_20_indexer.Prelude.{
  ℕ, ◌+◌, ◌<◌, ◌≡◌, refl, true, none, some, List, [], ◌∷◌, Map, Bytes, get_elem?, replicate, lookup,
  ltb, if◌then◌else◌, ok, ◌>>=◌, arith, ℕ_discrete,
}
use wjk_20_indexer.Tokens.Types.{OutPoint, OutPoint-discrete, Bytes-discrete}
use wjk_20_indexer.Db.Types.{TxPrevout}
use wjk_20_indexer.Inscriptions.Types.{TxOut, Tx, values, start_of}
use wjk_20_indexer.Inscriptions.Offsets.{input_values, calc_offsets, get_output_index_by_input}
use wjk_20_indexer.Inscriptions.Offsets.Found.{
  get_output_index_by_input_lem, get_output_index_by_input-leaked,
}
use wjk_20_indexer.Inscriptions.Offsets.Starts.{calc_offsets_lem}
use wjk_20_indexer.Inscriptions.Leaked.{
  LeakedInscriptions, move, known_values, push_at, add, add_tx_fee, update_reward,
  find_inscription_vout,
}
use wjk_20_indexer.Inscriptions.Leaked.Position.{find_inscription_vout_lem, add-position}
use wjk_20_indexer.Inscriptions.Scripts.{
  single, many, next_push, decode, decode_push_datas, push_data_to_number, inscription_of, parse,
}
use wjk_20_indexer.Inscriptions.Scripts.Pushes.{
  push_scripts, decode_push_datas-push_scripts, decode_push_datas-pushdata2,
}
use wjk_20_indexer.Inscriptions.Envelopes.Reading.{script_of}
use wjk_20_indexer.Inscriptions.Parts.{from_parts, content_payloads, from_parts-script_of}
use wjk_20_indexer.Inscriptions.Scripts.Pieces.{done, more, parse-Continued}

abbrev coin_a : OutPoint
coin_a = record { txid = 1 ∷ []; vout = 0 }

abbrev coin_b : OutPoint
coin_b = record { txid = 2 ∷ []; vout = 3 }

-- Two coins of 600 and 400 are spent on outputs of 500 and 300.
abbrev spending : Tx
spending = record {
  hash = 3 ∷ [];
  inputs =
      record { outpoint = coin_a; script_sig = []; tapscript = none }
      ∷ record { outpoint = coin_b; script_sig = []; tapscript = none }
      ∷ [];
  outputs =
      record { value = 500; script_pubkey = [] } ∷ record { value = 300; script_pubkey = [] } ∷ [];
}

abbrev coins : Map OutPoint TxPrevout
coins =
    (coin_a, record { script_hash = 4 ∷ []; value = 600 })
    ∷ (coin_b, record { script_hash = 5 ∷ []; value = 400 })
    ∷ []

abbrev coinbase : Tx
coinbase = record {
  hash = 6 ∷ [];
  inputs = [];
  outputs =
      record { value = 5000; script_pubkey = [] } ∷ record { value = 200; script_pubkey = [] } ∷ [];
}

abbrev fees : LeakedInscriptions
fees = record {
  inscriptions = [];
  total_amount = 0;
  coinbase_tx = coinbase;
  coinbase_reward = none;
}

get_output_index_by_input_lem_example :
    (i : ℕ) × (rest : ℕ) × (get_output_index_by_input (some 700) spending.outputs ≡ some (i, rest))
    × (start_of i (values spending.outputs) + rest ≡ 700)
    × ((o : TxOut) × (get_elem? spending.outputs i ≡ some o) × (rest < o.value))
get_output_index_by_input_lem_example =
    get_output_index_by_input_lem spending.outputs 700 (omega arith) (omega arith) (omega arith)

get_output_index_by_input-leaked_example :
    get_output_index_by_input (some 800) spending.outputs ≡ none
get_output_index_by_input-leaked_example =
    get_output_index_by_input-leaked spending.outputs 800 (omega arith) (omega arith)

coins_known : input_values spending.inputs coins ≡ some (600 ∷ 400 ∷ [])
unfolding input_values lookup OutPoint-discrete Bytes-discrete ℕ_discrete
coins_known = refl

coins_valued : known_values spending.inputs coins ≡ ok (600 ∷ 400 ∷ [])
unfolding known_values lookup OutPoint-discrete Bytes-discrete ℕ_discrete
coins_valued = refl

calc_offsets_lem_example :
    (offsets : List ℕ) × (calc_offsets spending coins ≡ some offsets)
    × (get_elem? offsets 1 ≡ (if ltb 600 800 then some 600 else none))
calc_offsets_lem_example =
    calc_offsets_lem spending coins (600 ∷ 400 ∷ []) 1 coins_known (omega arith) (omega arith)
      (omega arith)

add-position_example :
    (do s ← add_tx_fee spending coins fees; add 1 spending 250 coins move s)
    ≡ ok (record fees { total_amount = 200; inscriptions = push_at 50 move [] })
add-position_example =
    add-position spending coins (600 ∷ 400 ∷ []) 1 250 move fees coins_valued (omega arith)
      (omega arith) (omega arith) (omega arith) (omega arith)

find_inscription_vout_lem_example :
    let s = record fees { total_amount = 200 } in
    (i : ℕ) × (rest : ℕ) × (find_inscription_vout (update_reward s) 50 ≡ ok (some (i, rest)))
    × (start_of i (values coinbase.outputs) + rest ≡ 5050)
    × ((o : TxOut) × (get_elem? coinbase.outputs i ≡ some o) × (rest < o.value))
find_inscription_vout_lem_example =
    find_inscription_vout_lem (record fees { total_amount = 200 }) 50 (omega arith) (omega arith)
      (omega arith) (omega arith)

decode_push_datas-push_scripts_example :
    decode_push_datas (push_scripts ((1 ∷ 2 ∷ []) ∷ [] ∷ replicate 80 7 ∷ []))
    ≡ some ((1 ∷ 2 ∷ []) ∷ [] ∷ replicate 80 7 ∷ [])
decode_push_datas-push_scripts_example =
    decode_push_datas-push_scripts ((1 ∷ 2 ∷ []) ∷ [] ∷ replicate 80 7 ∷ [])
      (omega arith, (omega arith, (omega arith, tt)))

decode_push_datas-pushdata2_example :
    decode_push_datas (3 ∷ 111 ∷ 114 ∷ 100 ∷ 0 ∷ 77 ∷ 44 ∷ 1 ∷ replicate 300 9) ≡ none
decode_push_datas-pushdata2_example =
    decode_push_datas-pushdata2 ((111 ∷ 114 ∷ 100 ∷ []) ∷ [] ∷ []) (replicate 300 9)
      (omega arith, (omega arith, tt)) (omega arith)

-- Three pieces, two in the first script.
abbrev first_script : Bytes
first_script = 3 ∷ 111 ∷ 114 ∷ 100 ∷ 83 ∷ 1 ∷ 120 ∷ 82 ∷ 2 ∷ 5 ∷ 6 ∷ 81 ∷ 1 ∷ 7 ∷ []

abbrev second_script : Bytes
second_script = 0 ∷ 1 ∷ 8 ∷ []

parse-Continued_example :
    parse first_script (second_script ∷ [])
    ≡ single (inscription_of (120 ∷ []) (5 ∷ 6 ∷ 7 ∷ 8 ∷ []))
unfolding decode_push_datas decode next_push push_data_to_number
parse-Continued_example =
    parse-Continued first_script (second_script ∷ []) 2 1 0 (3 ∷ []) (120 ∷ []) (8 ∷ [])
      ((2 ∷ [], 5 ∷ 6 ∷ []) ∷ (1 ∷ [], 7 ∷ []) ∷ []) refl refl (refl, (refl, refl))
      (more ([], 8 ∷ []) [] refl (refl, refl) done)

-- Two envelopes in a tapscript, the second with a body of two pushes.
abbrev tapscript : Bytes
tapscript = 0 ∷ 99 ∷ []

abbrev two_contents : List (Bytes × List Bytes)
two_contents = (120 ∷ [], []) ∷ (121 ∷ [], (1 ∷ 2 ∷ []) ∷ (3 ∷ []) ∷ []) ∷ []

from_parts-script_of_example :
    from_parts
      (λ b. script_of (content_payloads two_contents))
      (record { is_tapscript = true; script_buffer = tapscript } ∷ [])
      4
    ≡ ok (many (inscription_of (120 ∷ []) [] ∷ inscription_of (121 ∷ []) (1 ∷ 2 ∷ 3 ∷ []) ∷ []))
from_parts-script_of_example =
    from_parts-script_of (λ b. script_of (content_payloads two_contents))
      (record { is_tapscript = true; script_buffer = tapscript }) 4 two_contents refl refl
