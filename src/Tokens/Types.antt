-- ===== src/Tokens/Types.antt =====
-- The structs of src/tokens/structs.rs, src/tokens/proto.rs and src/db/structs.rs, over the type of
-- amounts, and the keys of the maps with their decidable equalities.
use wjk_20_indexer.Prelude.{
  ℕ, ◌+◌, Option, none, some, List, [], ◌∷◌, Bytes, Map, take, ◌==◌, if◌then◌else◌, ℕ_discrete,
}

-- `[u8; 32]` and `[u8; 8]` as lists of bytes.
abbrev pub FullHash : Type 0
FullHash = Bytes

abbrev pub Txid : Type 0
Txid = Bytes

abbrev pub OriginalTokenTick : Type 0
OriginalTokenTick = Bytes

abbrev pub LowerCaseTokenTick : Type 0
LowerCaseTokenTick = Bytes

pub record OutPoint : Type 0 where
  pub txid : Txid
  pub vout : ℕ

pub record Location : Type 0 where
  pub outpoint : OutPoint
  pub offset : ℕ

pub record AddressToken : Type 0 where
  pub address : FullHash
  pub token : OriginalTokenTick

pub record AddressLocation : Type 0 where
  pub address : FullHash
  pub location : Location

pub record InscriptionId : Type 0 where
  pub txid : Txid
  pub index : ℕ

unfoldable pub Bytes-discrete : Discrete Bytes
Bytes-discrete = hlevel ℕ_discrete

unfoldable pub OutPoint-discrete : Discrete OutPoint
OutPoint-discrete = hlevel (ℕ_discrete, Bytes-discrete)

unfoldable pub Location-discrete : Discrete Location
Location-discrete = hlevel (ℕ_discrete, OutPoint-discrete)

unfoldable pub AddressToken-discrete : Discrete AddressToken
AddressToken-discrete = hlevel Bytes-discrete

unfoldable pub AddressLocation-discrete : Discrete AddressLocation
AddressLocation-discrete = hlevel (Bytes-discrete, Location-discrete)

-- `iter().rposition(|b| *b != 0)`
unfoldable pub rposition_nonzero : Bytes → Option ℕ
rposition_nonzero [] = none
rposition_nonzero (b ∷ bs) = elim (rposition_nonzero bs) [
  | some i ↦ some (i + 1)
  | none ↦ if b == 0 then none else some 0
]

-- The tick without the zeros that pad it to eight bytes.
unfoldable pub trim_tick_bytes : Bytes → Bytes
unfolding rposition_nonzero
trim_tick_bytes bytes = take (elim (rposition_nonzero bytes) [ some i ↦ i + 1 | none ↦ 0 ]) bytes

-- A type that every struct below is over: the amounts.
module _ (Amount : Type 0) where
  pub record DeployProtoDb : Type 0 where
    pub tick : OriginalTokenTick
    pub max : Amount
    pub lim : Amount
    pub dec : ℕ
    pub supply : Amount
    pub transfer_count : ℕ
    pub mint_count : ℕ
    pub height : ℕ
    pub created : ℕ
    pub deployer : FullHash
    pub transactions : ℕ

  pub record TokenBalance : Type 0 where
    pub balance : Amount
    pub transferable_balance : Amount
    pub transfers_count : ℕ

  pub record TransferProtoDb : Type 0 where
    pub tick : OriginalTokenTick
    pub amt : Amount
    pub height : ℕ

  pub record MintProtoWrapper : Type 0 where
    pub tick : OriginalTokenTick
    pub amt : Amount

  pub data HistoryTokenAction : Type 0 where
    deploy :
        (tick : OriginalTokenTick) (max lim : Amount) (dec : ℕ) (recipient : FullHash) (txid : Txid)
        (vout : ℕ)
        → HistoryTokenAction
    mint deploy_transfer :
        (tick : OriginalTokenTick) (amt : Amount) (recipient : FullHash) (txid : Txid) (vout : ℕ)
        → HistoryTokenAction
    send :
        (tick : OriginalTokenTick) (amt : Amount) (recipient sender : FullHash) (txid : Txid)
        (vout : ℕ)
        → HistoryTokenAction

module _ (Amount : Type 0) where
  pub record TokenMeta : Type 0 where
    pub genesis : InscriptionId
    pub proto : DeployProtoDb Amount

  pub data TokenAction : Type 0 where
    deploy :
        (genesis : InscriptionId) (proto : DeployProtoDb Amount) (owner : FullHash) → TokenAction
    mint :
        (owner : FullHash) (proto : MintProtoWrapper Amount) (txid : Txid) (vout : ℕ) → TokenAction
    transfer :
        (location : Location) (owner : FullHash) (proto : MintProtoWrapper Amount) (txid : Txid)
        (vout : ℕ)
        → TokenAction
    transferred :
        (transfer_location : Location) (recipient : FullHash) (txid : Txid) (vout : ℕ) → TokenAction

module _ (Amount : Type 0) where
  pub record TokenCache : Type 0 where
    pub tokens : Map LowerCaseTokenTick (TokenMeta Amount)
    pub token_accounts : Map AddressToken (TokenBalance Amount)
    pub token_actions : List (TokenAction Amount)
    pub all_transfers : Map Location (TransferProtoDb Amount)
    pub valid_transfers : Map Location (FullHash × TransferProtoDb Amount)
