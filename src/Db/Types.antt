-- ===== src/Db/Types.antt =====
-- The values of src/db/structs.rs that are not structs of the token protocol.
use wjk_20_indexer.Prelude.{ℕ, Bool, List, Bytes, ite, Option, none, some, ℕ_discrete}
use wjk_20_indexer.Tokens.Types.{
  FullHash, Txid, OriginalTokenTick, OutPoint, HistoryTokenAction, Bytes-discrete,
}

pub record AddressTokenIdDb : Type 0 where
  pub address : FullHash
  pub token : OriginalTokenTick
  pub id : ℕ

pub record TokenId : Type 0 where
  pub token : OriginalTokenTick
  pub id : ℕ

pub record BlockInfo : Type 0 where
  pub hash : Bytes
  pub created : ℕ

pub record TxPrevout : Type 0 where
  pub script_hash : FullHash
  pub value : ℕ

-- `Part` of src/inscriptions/structs.rs.
pub record Part : Type 0 where
  pub is_tapscript : Bool
  pub script_buffer : Bytes

pub record Partials : Type 0 where
  pub inscription_index : ℕ
  pub genesis_txid : Txid
  pub parts : List Part

unfoldable pub AddressTokenIdDb-discrete : Discrete AddressTokenIdDb
AddressTokenIdDb-discrete = hlevel (ℕ_discrete, Bytes-discrete)

unfoldable pub TokenId-discrete : Discrete TokenId
TokenId-discrete = hlevel (ℕ_discrete, Bytes-discrete)

module _ (Amount : Type 0) where
  pub data TokenHistoryDb : Type 0 where
    deploy : (max lim : Amount) (dec : ℕ) (txid : Txid) (vout : ℕ) → TokenHistoryDb
    mint deploy_transfer send_receive : (amt : Amount) (txid : Txid) (vout : ℕ) → TokenHistoryDb
    send : (amt : Amount) (recipient : FullHash) (txid : Txid) (vout : ℕ) → TokenHistoryDb
    receive : (amt : Amount) (sender : FullHash) (txid : Txid) (vout : ℕ) → TokenHistoryDb

  unfoldable pub from_token_history : HistoryTokenAction Amount → TokenHistoryDb
  from_token_history (HistoryTokenAction.deploy tick max lim dec recipient txid vout) =
      deploy max lim dec txid vout
  from_token_history (HistoryTokenAction.mint tick amt recipient txid vout) = mint amt txid vout
  from_token_history (HistoryTokenAction.deploy_transfer tick amt recipient txid vout) =
      deploy_transfer amt txid vout
  from_token_history (HistoryTokenAction.send tick amt recipient sender txid vout) =
      ite (Bytes-discrete sender recipient) (send_receive amt txid vout)
        (send amt recipient txid vout)

  unfoldable pub address : TokenHistoryDb → Option FullHash
  address (receive amt sender txid vout) = some sender
  address (send amt recipient txid vout) = some recipient
  address _ = none

  unfoldable pub outpoint : TokenHistoryDb → OutPoint
  outpoint (deploy max lim dec txid vout) = record { txid = txid; vout = vout }
  outpoint (mint amt txid vout) = record { txid = txid; vout = vout }
  outpoint (deploy_transfer amt txid vout) = record { txid = txid; vout = vout }
  outpoint (send amt recipient txid vout) = record { txid = txid; vout = vout }
  outpoint (receive amt sender txid vout) = record { txid = txid; vout = vout }
  outpoint (send_receive amt txid vout) = record { txid = txid; vout = vout }

module _ (Amount : Type 0) where
  pub record HistoryValue : Type 0 where
    pub height : ℕ
    pub action : TokenHistoryDb Amount
