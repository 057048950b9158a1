-- ===== src/Platform.antt =====
-- What the program calls and does not implement: the HTTP client, gjson, encoding/json on the
-- structs of model.go, the decimals of shopspring, the database interface and the helpers of
-- openwallet, its observers, and the clock of the scheduler.
use Prim.Native.Nat.{Ordering}
use near_adapter.Prelude.{ℕ, Bool, Text, List, Option}
use near_adapter.Prelude.Int.{ℤ}
use near_adapter.Go.{GoError}
use near_adapter.Exec.{Exec}
use near_adapter.Model.{
  Status, Block, ChunkResponse, TransactionStatus, AccountResponse, AccessKeyResponse, TxTransfer,
}
use near_adapter.Wallet.{HeadRecord, UnscanRecord, WalletTransaction, TxExtractData}

pub data Param : Type 0 where
  nothing : Param
  number : ℕ → Param
  text : Text → Param

-- `params` of a call: a list, or a map from names.
pub data Params : Type 0 where
  positional : List Param → Params
  named : List (Text × Text) → Params

-- The body of a JSON-RPC request.
pub record RpcBody : Type 0 where
  pub jsonrpc : Text
  pub id : ℕ
  pub method : Text
  pub params : Params

pub record Platform : Type 1 where
  pub World : Type 0
  -- req and gjson. A reply is a gjson.Result.
  pub Reply : Type 0
  pub req_get : Text → Exec World Text
  pub req_post : Text → RpcBody → Exec World Text
  pub parse_bytes : Text → Reply
  pub get_path : Reply → Text → Reply
  pub is_object : Reply → Bool
  pub exists : Reply → Bool
  pub to_int : Reply → ℤ
  pub to_string : Reply → Text
  pub raw : Reply → Text
  -- json.Unmarshal: the struct and the error.
  pub unmarshal_status : Text → Status × Option GoError
  pub unmarshal_block : Text → Block × Option GoError
  pub unmarshal_chunk : Text → ChunkResponse × Option GoError
  pub unmarshal_tx_status : Text → TransactionStatus × Option GoError
  pub unmarshal_account : Text → AccountResponse × Option GoError
  pub unmarshal_access_key : Text → AccessKeyResponse × Option GoError
  -- decimal. `new_from_string` gives the value beside the error; `new_from_float32 n k` is the
  -- literal n / 10 ^ k.
  pub Decimal : Type 0
  pub zero_decimal : Decimal
  pub new_decimal : ℕ → ℕ → Decimal
  pub new_from_float32 : ℕ → ℕ → Decimal
  pub new_from_string : Text → Decimal × Option GoError
  pub add : Decimal → Decimal → Decimal
  pub sub : Decimal → Decimal → Decimal
  pub mul : Decimal → Decimal → Decimal
  pub div : Decimal → Decimal → Decimal
  pub cmp : Decimal → Decimal → Ordering
  pub decimal_string : Decimal → Text
  pub string_fixed : Decimal → ℕ → Text
  -- base58.Encode of btcutil.
  pub base58_encode : List ℕ → Text
  -- BlockchainDAI.
  pub save_current_block_head : HeadRecord → Exec World (Unit {0})
  pub get_current_block_head : Text → Exec World HeadRecord
  pub save_local_block_head : HeadRecord → Exec World (Unit {0})
  pub get_local_block_head_by_height : ℕ → Text → Exec World HeadRecord
  pub save_unscan_record : UnscanRecord → Exec World (Unit {0})
  pub delete_unscan_record_by_height : ℕ → Text → Exec World (Unit {0})
  pub delete_unscan_record_by_id : Text → Text → Exec World (Unit {0})
  -- The list and the error.
  pub get_unscan_records : Text → Exec World (List UnscanRecord × Option GoError)
  -- openwallet: makers of records and of identifiers.
  pub new_unscan_record : ℕ → Text → Text → Text → UnscanRecord
  pub gen_transaction_wx_id : WalletTransaction → Text
  pub gen_tx_input_sid : Text → Text → Text → ℕ → Text
  pub gen_tx_output_sid : Text → Text → Text → ℕ → Text
  -- BlockScannerBase: the flag `Scanning`, the observers and what they are told. The account that
  -- `ScanTargetFunc` finds for an address, and whether it found one.
  pub scanning : World → Bool
  pub Observer : Type 0
  pub observers : World → List Observer
  pub block_extract_data_notify : Observer → Text → TxExtractData → Exec World (Unit {0})
  pub new_block_notify : HeadRecord → Exec World (Unit {0})
  pub scan_target : Text → Text × Bool
  -- The order in which `range` goes over a map in a world: the keys of `blockMap`, and the entries of
  -- `extractData`. `observers` is in such an order too.
  pub map_order : World → List ℕ → List ℕ
  pub entry_order : World → List (Text × List TxExtractData) → List (Text × List TxExtractData)
  -- `err.Error()` of an error that this program does not make itself.
  pub other_error_text : GoError → Text
  -- The order in which the results of concurrent extractions come in.
  pub arrival : List TxTransfer → List TxTransfer

-- BlockScannerBase: the calls that start and stop the scheduler of the task, and with it the flag
-- `Scanning`.
pub record Base (World : Type 0) : Type 0 where
  pub run : Exec World (Unit {0})
  pub stop : Exec World (Unit {0})
  pub pause : Exec World (Unit {0})
  pub restart : Exec World (Unit {0})
