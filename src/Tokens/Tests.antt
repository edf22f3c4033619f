-- ===== src/Tokens/Tests.antt =====
-- Runs of the token code of src/tokens at concrete inputs.
use wjk_20_indexer.Prelude.{
  ℕ, ◌+◌, ◌-◌, ◌%◌, ◌^◌, ◌≤◌, ◌≡◌, refl, Option, none, some, false, Bytes, List, [], ◌∷◌, map, All,
  lookup, insert, remove, total, leb, ◌==◌, ◌&&◌, if◌then◌else◌, ok, panic, arith, ℕ_discrete,
}
use wjk_20_indexer.Tokens.Platform.{Platform}
use wjk_20_indexer.Tokens.Types.{
  FullHash, OriginalTokenTick, LowerCaseTokenTick, Location, DeployProtoDb, TokenMeta, TokenAction,
  TokenCache, HistoryTokenAction, Bytes-discrete, OutPoint-discrete, Location-discrete,
  AddressToken-discrete, trim_tick_bytes,
}
use wjk_20_indexer.Tokens.Holders.{Holders, SortedByBalance-discrete, change}
use wjk_20_indexer.Tokens.Minting.{process_deploy, mint_amount, mint_checked, process_mint}
use wjk_20_indexer.Tokens.Reserving.{reserve, transfer_checked, transfer_entry, process_transfer}
use wjk_20_indexer.Tokens.Moving.{
  deliver, withdraw, move_checked, move_transfer, process_transferred,
}
use wjk_20_indexer.Tokens.Process.{process_action, process_all, process_token_actions}
use wjk_20_indexer.Tokens.Cache.{account, lower}
use wjk_20_indexer.Tokens.Process.Sums.{held, supply_of, pending, counted, minted_all, burned_all}
use wjk_20_indexer.Tokens.Process.Invariant.{IsValid, IsQueued, SameTerms}
use wjk_20_indexer.Tokens.Parsing.{
  Brc4, transfer, wjk_20, wojakcoin, InscriptionTemplate, text_plain, parse_token_action, try_parse,
  queue_brc4, transferred,
}
use wjk_20_indexer.Tokens.Parsing.Queued.{MaxFits, IsParsed, parse_token_action-IsParsed}
use wjk_20_indexer.Tokens.Process.Actions.{
  process_token_actions-IsValid, held-process_token_actions, supply-process_token_actions,
  terms-process_token_actions,
}

abbrev ascii_lower : ℕ → ℕ
ascii_lower b = if leb 65 b && leb b 90 then b + 32 else b

-- Amounts as plain numbers of units, and ASCII lower case.
abbrev pub numbers : Platform
numbers = record {
  Amount = ℕ;
  units = λ a. a;
  capacity = 2 ^ 128 - 1;
  amount_discrete = ℕ_discrete;
  zero_amount = 0;
  add = λ a b. a + b;
  sub = λ a b. a - b;
  scale = λ a. if a % 10 ^ 18 == 0 then 0 else 18;
  units-zero = refl;
  units-add = λ a b h. refl;
  units-sub = λ a b h. refl;
  to_lowercase = map ascii_lower;
  op_return_hash = 66 ∷ [];
}

abbrev pub wojk : OriginalTokenTick
wojk = 87 ∷ 111 ∷ 106 ∷ 107 ∷ 0 ∷ 0 ∷ 0 ∷ 0 ∷ []

abbrev alice : FullHash
alice = 1 ∷ []

abbrev bob : FullHash
bob = 2 ∷ []

abbrev pub place : Location
place = record { outpoint = record { txid = 7 ∷ []; vout = 0 }; offset = 0 }

abbrev proto : DeployProtoDb ℕ
proto = record {
  tick = wojk;
  max = 100;
  lim = 60;
  dec = 18;
  supply = 0;
  transfer_count = 0;
  mint_count = 0;
  height = 5;
  created = 9;
  deployer = alice;
  transactions = 1;
}

-- Two mints of which the second is cut to what is left, a transfer of 25 and its move to Bob, and
-- a move of the same transfer again.
abbrev queue : List (TokenAction ℕ)
queue =
    TokenAction.deploy (record { txid = 3 ∷ []; index = 0 }) proto alice
    ∷ TokenAction.mint alice (record { tick = wojk; amt = 60 }) (4 ∷ []) 0
    ∷ TokenAction.mint bob (record { tick = wojk; amt = 60 }) (5 ∷ []) 0
    ∷ TokenAction.transfer place alice (record { tick = wojk; amt = 25 }) (7 ∷ []) 0
    ∷ TokenAction.transferred place bob (8 ∷ []) 0
    ∷ TokenAction.transferred place bob (8 ∷ []) 1
    ∷ []

abbrev pub start : TokenCache ℕ
start = record {
  tokens = [];
  token_accounts = [];
  token_actions = queue;
  all_transfers = (place, record { tick = wojk; amt = 25; height = 5 }) ∷ [];
  valid_transfers = [];
}

abbrev pub nobody : Holders ℕ
nobody = record { balances = []; stats = [] }

program : Unit {0}
unfolding process_token_actions process_all process_action process_deploy process_mint mint_checked
    mint_amount process_transfer transfer_entry transfer_checked reserve process_transferred
    move_transfer move_checked deliver withdraw change lookup insert remove trim_tick_bytes
    Bytes-discrete OutPoint-discrete Location-discrete AddressToken-discrete
    SortedByBalance-discrete ℕ_discrete held supply_of pending counted minted_all burned_all total
program = tt

abbrev ended : TokenCache ℕ × Holders ℕ × List (HistoryTokenAction ℕ)
ended = elim (process_token_actions numbers start nobody) [ ok r ↦ r | panic ↦ (start, nobody, []) ]

run : process_token_actions numbers start nobody ≡ ok ended
unfolding program
run = refl

run_balances :
    (account numbers (record { address = alice; token = wojk }) ended.0).balance
      + (account numbers (record { address = bob; token = wojk }) ended.0).balance
    ≡ 100
unfolding program
run_balances = refl

start-IsValid : IsValid numbers 6 start
unfolding program
start-IsValid = record {
  sound = λ l m e. absurd (ground arith);
  backed = λ t. omega arith;
  amounts = λ k. omega arith;
  counts = λ k. omega arith;
  known = λ l s e q. absurd (ground arith);
  room = λ k. omega arith;
}

start-IsQueued : All (IsQueued numbers start) queue
unfolding program
start-IsQueued = ((refl, omega arith), (tt, (tt, ((λ e q. ground arith), (tt, (tt, tt))))))

process_token_actions-IsValid_example :
    (c' : TokenCache ℕ) × (h' : Holders ℕ) × (history : List (HistoryTokenAction ℕ))
    × (process_token_actions numbers start nobody ≡ ok (c', h', history))
    × IsValid numbers 0 c'
process_token_actions-IsValid_example =
    process_token_actions-IsValid numbers start nobody start-IsValid start-IsQueued

held-process_token_actions_example :
    held numbers wojk ended.0 + burned_all numbers wojk ended.2
    ≡ held numbers wojk start + minted_all numbers wojk ended.2
held-process_token_actions_example =
    held-process_token_actions numbers start nobody start-IsValid start-IsQueued run wojk

supply-process_token_actions_example :
    ((t : OriginalTokenTick)
      → supply_of numbers t ended.0 ≡ supply_of numbers t start + minted_all numbers t ended.2)
    × ((l : LowerCaseTokenTick) (m : TokenMeta ℕ)
        → lookup Bytes-discrete l ended.0.tokens ≡ some m
        → m.proto.supply ≤ m.proto.max)
supply-process_token_actions_example =
    supply-process_token_actions numbers start nobody start-IsValid start-IsQueued run

-- A cache in which the token is deployed, and a second deploy of it waits.
abbrev pub deployed : TokenMeta ℕ
deployed = record { genesis = record { txid = 3 ∷ []; index = 0 }; proto = proto }

abbrev again : TokenCache ℕ
again = record start {
  tokens = (lower numbers wojk, deployed) ∷ [];
  token_actions =
      TokenAction.deploy (record { txid = 9 ∷ []; index = 1 }) (record proto { max = 7 }) bob ∷ [];
}

again-IsValid : IsValid numbers 1 again
unfolding program
again-IsValid = record {
  sound = λ l m e. ground arith;
  backed = λ t. omega arith;
  amounts = λ k. omega arith;
  counts = λ k. omega arith;
  known = λ l s e q. absurd (ground arith);
  room = λ k. omega arith;
}

again-IsQueued : All (IsQueued numbers again) again.token_actions
again-IsQueued = ((refl, omega arith), tt)

again_run :
    process_token_actions numbers again nobody
    ≡ ok (record again { token_actions = [] }, nobody, [])
unfolding program
again_run = refl

again_found : lookup Bytes-discrete (lower numbers wojk) again.tokens ≡ some deployed
unfolding program
again_found = refl

terms-process_token_actions_example :
    (m' : TokenMeta ℕ) × (lookup Bytes-discrete (lower numbers wojk) again.tokens ≡ some m')
    × SameTerms numbers deployed m'
terms-process_token_actions_example =
    terms-process_token_actions numbers again nobody again-IsValid again-IsQueued again_run
      (lower numbers wojk) deployed again_found

-- A text of one byte that stands for a transfer of so much.
abbrev from_byte : Bytes → Option (Brc4 ℕ)
from_byte (n ∷ []) = some (transfer wjk_20 (record { tick = wojk; amt = n }))
from_byte _ = none

abbrev text_of : ℕ → InscriptionTemplate
text_of n = record {
  genesis = record { txid = 7 ∷ []; index = 0 };
  location = place;
  content_type = some text_plain;
  owner = alice;
  value = 546;
  content = some (n ∷ []);
  leaked = false;
}

-- What waits before any transfer is inscribed: the deploy, and a mint of 60 to Alice.
abbrev minted_cache : TokenCache ℕ
minted_cache = record start {
  token_actions =
      TokenAction.deploy (record { txid = 3 ∷ []; index = 0 }) proto alice
      ∷ TokenAction.mint alice (record { tick = wojk; amt = 60 }) (4 ∷ []) 0
      ∷ [];
  all_transfers = [];
}

from_byte-MaxFits : (content : Bytes) → MaxFits numbers (from_byte content)
from_byte-MaxFits [] = tt
from_byte-MaxFits (n ∷ []) = tt
from_byte-MaxFits (n ∷ m ∷ ns) = tt

parse_token_action-IsParsed_example :
    IsParsed numbers minted_cache
      (parse_token_action numbers wojakcoin from_byte (text_of 25) 5 9 minted_cache)
parse_token_action-IsParsed_example =
    parse_token_action-IsParsed numbers wojakcoin from_byte (text_of 25) 5 9 minted_cache
      from_byte-MaxFits ((refl, omega arith), (tt, tt)) (tt, (tt, tt))

-- Two transfers of 25 and 30 inscribed at one location, and the move of what is there: the entry of
-- the second replaces that of the first, and the move finds less set aside than it says.
abbrev twin : TokenCache ℕ
unfolding parse_token_action transferred
twin = transferred numbers wojakcoin from_byte place bob (8 ∷ []) 0 (
    parse_token_action numbers wojakcoin from_byte (text_of 30) 5 9
      (parse_token_action numbers wojakcoin from_byte (text_of 25) 5 9 minted_cache))

twin_run : process_token_actions numbers twin nobody ≡ panic
unfolding program twin parse_token_action try_parse queue_brc4 transferred
twin_run = refl
