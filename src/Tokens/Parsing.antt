-- ===== src/Tokens/Parsing.antt =====
-- `TokenCache::try_parse` and `parse_token_action` of src/tokens/parser.rs: from an inscription to a
-- queued action. The protocols are those of src/tokens/proto.rs.
pub mod Queued
use wjk_20_indexer.Prelude.{
  ℕ, ◌+◌, Bool, true, false, not, ◌&&◌, ◌||◌, Option, none, some, List, [], ◌∷◌, ◌++◌, Bytes,
  insert, leb, ◌==◌, ite, if◌then◌else◌,
}
use wjk_20_indexer.Tokens.Platform.{Platform, is_zero}
use wjk_20_indexer.Tokens.Types.{
  FullHash, Txid, OriginalTokenTick, Location, InscriptionId, MintProtoWrapper, TransferProtoDb,
  TokenAction, TokenCache, Bytes-discrete, Location-discrete,
}

pub data Blockchain : Type 0 where
  bellscoin dogecoin pepecoin litecoin wojakcoin : Blockchain

-- The name under `p` in the text.
pub data Protocol : Type 0 where
  bel_20 drc_20 prc_20 ltc_20 wjk_20 : Protocol

-- The test of `value()`: the protocol is that of the chain.
abbrev pub is_supported : Blockchain → Protocol → Bool
is_supported bellscoin bel_20 = true
is_supported dogecoin drc_20 = true
is_supported pepecoin prc_20 = true
is_supported litecoin ltc_20 = true
is_supported wojakcoin wjk_20 = true
is_supported _ _ = false

module _ (Amount : Type 0) where
  pub record DeployProtoWrapper : Type 0 where
    pub tick : OriginalTokenTick
    pub max : Amount
    pub lim : Option Amount
    pub dec : ℕ

module _ (Amount : Type 0) where
  pub data Brc4 : Type 0 where
    mint transfer : Protocol → MintProtoWrapper Amount → Brc4
    deploy : Protocol → DeployProtoWrapper Amount → Brc4

pub record InscriptionTemplate : Type 0 where
  pub genesis : InscriptionId
  pub location : Location
  pub content_type : Option Bytes
  pub owner : FullHash
  pub value : ℕ
  pub content : Option Bytes
  pub leaked : Bool

-- "text/plain" and "application/json"
abbrev pub text_plain : Bytes
text_plain = 116 ∷ 101 ∷ 120 ∷ 116 ∷ 47 ∷ 112 ∷ 108 ∷ 97 ∷ 105 ∷ 110 ∷ []

abbrev pub application_json : Bytes
application_json =
    97 ∷ 112 ∷ 112 ∷ 108 ∷ 105 ∷ 99 ∷ 97 ∷ 116 ∷ 105 ∷ 111 ∷ 110 ∷ 47 ∷ 106 ∷ 115 ∷ 111 ∷ 110 ∷ []

abbrev pub starts_with : Bytes → Bytes → Bool
starts_with bytes [] = true
starts_with [] (p ∷ ps) = false
starts_with (b ∷ bs) (p ∷ ps) = b == p && starts_with bs ps

-- `split(';').nth(0)`
abbrev pub before_semicolon : Bytes → Bytes
before_semicolon [] = []
before_semicolon (b ∷ bs) = if b == 59 then [] else b ∷ before_semicolon bs

abbrev pub is_text : Blockchain → Bytes → Bool
is_text dogecoin content_type =
    starts_with content_type text_plain || starts_with content_type application_json
is_text _ content_type =
    ite (Bytes-discrete (before_semicolon content_type) text_plain) true
      (ite (Bytes-discrete (before_semicolon content_type) application_json) true false)

abbrev pub unwrap_or {ℓ} : {A : Type ℓ} → A → Option A → A
unwrap_or a none = a
unwrap_or a (some b) = b

module _ (p : Platform) (chain : Blockchain) (from_json : Bytes → Option (Brc4 p.Amount)) where
  open p use {Amount, zero_amount, op_return_hash}

  -- The last `match` of `try_parse`.
  abbrev pub is_allowed : Brc4 Amount → Bool
  is_allowed (mint k v) = is_supported chain k && not (is_zero p v.amt)
  is_allowed (transfer k v) = is_supported chain k && not (is_zero p v.amt)
  is_allowed (deploy k v) =
      is_supported chain k
      && (leb v.dec 18 && (not (is_zero p (unwrap_or v.max v.lim)) && not (is_zero p v.max)))

  abbrev pub if_allowed : Option (Brc4 Amount) → Option (Brc4 Amount)
  if_allowed none = none
  if_allowed (some brc4) = if is_allowed brc4 then some brc4 else none

  -- `try_parse`, less the kinds of errors, which its caller drops. `from_json` is the decoding of
  -- UTF-8 and of JSON by serde, twice, with the checks on the numbers.
  unfoldable pub try_parse : Bytes → Bytes → Option (Brc4 Amount)
  try_parse content_type content =
      if is_text chain content_type then if_allowed (from_json content) else none

  abbrev pub queue : TokenAction Amount → TokenCache Amount → TokenCache Amount
  queue a c = record c { token_actions = c.token_actions ++ (a ∷ []) }

  -- The last `match` of `parse_token_action`.
  unfoldable pub queue_brc4 :
      InscriptionTemplate → ℕ → ℕ → Brc4 Amount → TokenCache Amount → TokenCache Amount
  queue_brc4 inc height created (deploy k v) c =
      if is_supported chain k
      then queue
          (TokenAction.deploy inc.genesis
            (record {
              tick = v.tick;
              max = v.max;
              lim = unwrap_or v.max v.lim;
              dec = v.dec;
              supply = zero_amount;
              transfer_count = 0;
              mint_count = 0;
              height = height;
              created = created;
              deployer = inc.owner;
              transactions = 1;
            })
            inc.owner)
          c
      else c
  queue_brc4 inc height created (mint k v) c =
      if is_supported chain k
      then queue
          (TokenAction.mint inc.owner v inc.location.outpoint.txid inc.location.outpoint.vout) c
      else c
  queue_brc4 inc height created (transfer k v) c =
      if is_supported chain k
      then record (queue
          (TokenAction.transfer inc.location inc.owner v inc.location.outpoint.txid
            inc.location.outpoint.vout)
          c) {
            all_transfers =
                insert Location-discrete inc.location
                  (record { tick = v.tick; amt = v.amt; height = height }) c.all_transfers;
          }
      else c

  -- `inc.content_type.as_ref()?` and `inc.content.as_ref()?`
  abbrev pub parsed_of : Option Bytes → Option Bytes → Option (Brc4 Amount)
  unfolding try_parse
  parsed_of none content = none
  parsed_of (some content_type) none = none
  parsed_of (some content_type) (some content) = try_parse content_type content

  abbrev pub queue_parsed :
      InscriptionTemplate → ℕ → ℕ → Option (Brc4 Amount) → TokenCache Amount → TokenCache Amount
  unfolding queue_brc4
  queue_parsed inc height created none c = c
  queue_parsed inc height created (some brc4) c = queue_brc4 inc height created brc4 c

  -- `parse_token_action`, less the proto that it returns and its caller drops.
  unfoldable pub parse_token_action :
      InscriptionTemplate → ℕ → ℕ → TokenCache Amount → TokenCache Amount
  unfolding try_parse queue_brc4
  parse_token_action inc height created c = ite (Bytes-discrete inc.owner op_return_hash) c (
      if inc.leaked
      then c
      else queue_parsed inc height created (parsed_of inc.content_type inc.content) c)

  -- `transferred`, and `burned_transfer`.
  unfoldable pub transferred :
      Location → FullHash → Txid → ℕ → TokenCache Amount → TokenCache Amount
  transferred location recipient txid vout c =
      queue (TokenAction.transferred location recipient txid vout) c

  unfoldable pub burned_transfer : Location → Txid → ℕ → TokenCache Amount → TokenCache Amount
  burned_transfer location txid vout c =
      queue (TokenAction.transferred location op_return_hash txid vout) c
