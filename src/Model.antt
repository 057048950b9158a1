-- ===== src/Model.antt =====
-- near/model.go: what the node answers, and what the scanner makes of it. An int64 is a `ℤ`.
pub mod Unused
use near_adapter.Prelude.{ℕ, List, [], Bool, Text}
use near_adapter.Prelude.Int.{ℤ}

-- `interface{}` as encoding/json fills it.
mutual
  pub data Any : Type 0 where
    null : Any
    bool : Bool → Any
    number : Text → Any
    string : Text → Any
    array : Items → Any
    object : Members → Any

  pub data Items : Type 0 where
    nil : Items
    item : Any → Items → Items

  pub data Members : Type 0 where
    end : Members
    member : Text → Any → Members → Members

pub record SyncInfo : Type 0 where
  pub latest_block_hash : Text
  pub latest_block_height : ℤ
  pub latest_block_time : Text
  pub latest_state_root : Text
  pub syncing : Bool

pub record Version : Type 0 where
  pub build : Text
  pub version : Text

pub record Validator : Type 0 where
  pub account_id : Text
  pub is_slashed : Bool
  pub expected_blocks_num : ℤ
  pub produced_blocks_num : ℤ
  pub public_key : Text
  pub shards : List ℤ
  pub stake : Text

pub record Status : Type 0 where
  pub chain_id : Text
  pub rpc_addr : Text
  pub sync_info : SyncInfo
  pub validators : List Validator
  pub version : Version

pub record Proof : Type 0 where
  pub direction : Text
  pub hash : Text

pub record Outcome : Type 0 where
  pub gas_burnt : ℤ
  pub tokens_burnt : Text
  pub logs : List Text
  pub receipt_ids : List Text
  pub status : Any

pub record RootOutcome : Type 0 where
  pub block_hash : Text
  pub id : Text
  pub outcome : Outcome
  pub proof : List Proof

pub record Transaction : Type 0 where
  pub signer_id : Text
  pub public_key : Text
  pub nonce : ℤ
  pub hash : Text
  pub receiver_id : Text
  pub block_hash : Text
  pub signature : Text
  pub actions : List Any

-- `Status` is a map from strings to strings.
pub record TransactionStatus : Type 0 where
  pub receipts_outcome : List RootOutcome
  pub transaction : Transaction
  pub status : List (Text × Text)
  pub transaction_outcome : RootOutcome

pub record TxTransfer : Type 0 where
  pub from : Text
  pub to : Text
  pub tx_id : Text
  pub value : Text
  pub fee : Text
  pub status : Text

pub record ChunkHeader : Type 0 where
  pub balance_burnt : Text
  pub chunk_hash : Text
  pub encoded_length : ℤ
  pub encoded_merkle_root : Text
  pub gas_limit : ℤ
  pub gas_used : ℤ
  pub height_created : ℤ
  pub height_included : ℤ
  pub outcome_root : Text
  pub outgoing_receipts_root : Text
  pub prev_block_hash : Text
  pub prev_state_root : Text
  pub rent_paid : Text
  pub shard_id : ℤ
  pub signature : Text
  pub tx_root : Text
  pub validator_reward : Text

pub record BlockHeader : Type 0 where
  pub chunks_included : ℕ
  pub epoch_id : Text
  pub gas_price : Text
  pub hash : Text
  pub height : ℕ
  pub last_ds_final_block : Text
  pub last_final_block : Text
  pub latest_final_block : ℕ
  pub next_bp_hash : Text
  pub next_epoch_id : Text
  pub outcome_root : Text
  pub prev_hash : Text
  pub prev_state_root : Text
  pub random_value : Text
  pub rent_paid : Text
  pub signature : Text
  pub total_supply : Text
  pub validator_reward : Text

-- A header of which only these three fields are set.
abbrev pub bare_header : Text → ℕ → Text → BlockHeader
bare_header hash height prev_hash = record {
  chunks_included = 0;
  epoch_id = [];
  gas_price = [];
  hash = hash;
  height = height;
  last_ds_final_block = [];
  last_final_block = [];
  latest_final_block = 0;
  next_bp_hash = [];
  next_epoch_id = [];
  outcome_root = [];
  prev_hash = prev_hash;
  prev_state_root = [];
  random_value = [];
  rent_paid = [];
  signature = [];
  total_supply = [];
  validator_reward = [];
}

pub record Block : Type 0 where
  pub author : Text
  pub chunks : List ChunkHeader
  pub header : BlockHeader
  pub tx_transfer : List TxTransfer

pub record ChunkResponse : Type 0 where
  pub author : Text
  pub header : ChunkHeader
  pub transactions : List Transaction

pub record AccountResponse : Type 0 where
  pub amount : Text

pub record AccessKeyResponse : Type 0 where
  pub nonce : ℕ
