-- ===== src/Model/Unused.antt =====
-- The structures of near/model.go that the program does not use.
use near_adapter.Prelude.{Text, List}
use near_adapter.Prelude.Int.{ℤ}
use near_adapter.Model.{Any, Validator}

pub record GasPrice : Type 0 where
  pub gas_price : Text

-- `Reason` is a map from strings.
pub record EpochKickout : Type 0 where
  pub account_id : Text
  pub reason : List (Text × Any)

pub record Fisherman : Type 0 where
  pub account_id : Text
  pub public_key : Text
  pub stake : Text

pub record ValidatorsResponse : Type 0 where
  pub current_fishermans : List Fisherman
  pub next_fishermans : List Fisherman
  pub current_validators : List Validator
  pub next_validators : List Validator
  pub current_proposal : Text
  pub epoch_start_height : ℤ
  pub prev_epoch_kickout : List EpochKickout

pub record Action : Type 0 where
  pub transfer : Any

pub record ActionRoot : Type 0 where
  pub actions : List Action
  pub gas_price : Text
  pub input_data_ids : List Text
  pub output_data_receivers : List Text
  pub signer_id : Text
  pub signer_public_key : Text

pub record Receipt : Type 0 where
  pub action : ActionRoot

pub record ReceiptHeader : Type 0 where
  pub predecessor_id : Text
  pub receipt : Receipt
  pub receipt_id : Text
  pub receiver_id : Text
