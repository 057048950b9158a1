-- ===== src/Wallet.antt =====
-- Structures of openwallet, with the fields that this program reads or sets.
use near_adapter.Prelude.{ℕ, List, Bool, Text}

-- openwallet.BlockHeader
pub record HeadRecord : Type 0 where
  pub hash : Text
  pub previous_block_hash : Text
  pub height : ℕ
  pub fork : Bool
  pub time : ℕ
  pub symbol : Text

-- openwallet.UnscanRecord; its `id` is made by `NewUnscanRecord`.
pub record UnscanRecord : Type 0 where
  pub id : Text
  pub block_height : ℕ
  pub tx_id : Text
  pub reason : Text
  pub symbol : Text

-- openwallet.Coin
pub record Coin : Type 0 where
  pub symbol : Text
  pub is_contract : Bool
  pub contract_id : Text

-- openwallet.Recharge, which TxInput and TxOutPut hold.
pub record Recharge : Type 0 where
  pub sid : Text
  pub tx_id : Text
  pub address : Text
  pub coin : Coin
  pub amount : Text
  pub is_memo : Bool
  pub block_hash : Text
  pub block_height : ℕ
  pub index : ℕ
  pub create_at : ℕ

-- openwallet.Transaction
pub record WalletTransaction : Type 0 where
  pub wx_id : Text
  pub tx_id : Text
  pub account_id : Text
  pub coin : Coin
  pub from : List Text
  pub to : List Text
  pub amount : Text
  pub decimal : ℕ
  pub fees : Text
  pub is_memo : Bool
  pub block_hash : Text
  pub block_height : ℕ
  pub confirm_time : ℕ
  pub submit_time : ℕ
  pub status : Text
  pub reason : Text

-- openwallet.TxExtractData
pub record TxExtractData : Type 0 where
  pub transaction : WalletTransaction
  pub tx_inputs : List Recharge
  pub tx_outputs : List Recharge

-- openwallet.Balance
pub record Balance : Type 0 where
  pub symbol : Text
  pub address : Text
  pub balance : Text
  pub unconfirm_balance : Text
  pub confirm_balance : Text
