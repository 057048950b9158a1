-- ===== src/Scanner/Extract.antt =====
-- `ExtractTransaction` and what it calls: what a transfer means to the accounts of the wallet.
pub mod Sides
use near_adapter.Prelude.{
  ℕ, Bool, true, false, not, ◌&&◌, List, [], ◌∷◌, ◌++◌, length, Text, text_eq, codes, Option, none,
  some, ltb, ◌==◌, if◌then◌else◌,
}
use near_adapter.Platform.{Platform}
use near_adapter.Config.{NearBlockScanner, decimals}
use near_adapter.Model.{TxTransfer}
use near_adapter.Wallet.{Coin, Recharge, WalletTransaction, TxExtractData}

-- `map[string][]*openwallet.TxExtractData`, with no key twice.
abbrev pub ExtractData : Type 0
ExtractData = List (Text × List TxExtractData)

pub record ExtractResult : Type 0 where
  pub extract_data : ExtractData
  pub tx_id : Text
  pub block_height : ℕ
  pub success : Bool

-- `extractData[key] = append(extractData[key], data)`
unfoldable pub append_at : Text → TxExtractData → ExtractData → ExtractData
append_at key entry [] = (key, entry ∷ []) ∷ []
append_at key entry ((k, es) ∷ m) =
    if text_eq k key then (k, es ++ entry ∷ []) ∷ m else (k, es) ∷ append_at key entry m

-- The last argument of `InitExtractResult`: 0, 1 and 2.
pub data Operate : Type 0 where
  both : Operate
  input : Operate
  output : Operate

module _ (p : Platform) (bs : NearBlockScanner) where
  pub coin : Coin
  coin = record { symbol = bs.wm.config.symbol; is_contract = false; contract_id = [] }

  -- `amount.String()`, of the zero decimal that comes beside an error too.
  pub amount_text : TxTransfer → Text
  amount_text tx = p.decimal_string (p.new_from_string tx.value).0

  -- The input that `extractTxInput` appends.
  pub extract_tx_input : TxTransfer → ℕ → Text → Recharge
  extract_tx_input tx block_height block_hash = record {
    sid = p.gen_tx_input_sid tx.tx_id bs.wm.config.symbol [] 0;
    tx_id = tx.tx_id;
    address = tx.from;
    coin = coin;
    amount = amount_text tx;
    is_memo = false;
    block_hash = block_hash;
    block_height = block_height;
    index = 0;
    create_at = 0;
  }

  -- The output that `extractTxOutput` appends.
  pub extract_tx_output : TxTransfer → ℕ → Text → Recharge
  extract_tx_output tx block_height block_hash = record {
    sid = p.gen_tx_output_sid tx.tx_id bs.wm.config.symbol [] 0;
    tx_id = tx.tx_id;
    address = tx.to;
    coin = coin;
    amount = amount_text tx;
    is_memo = false;
    block_hash = block_hash;
    block_height = block_height;
    index = 0;
    create_at = 0;
  }

  transaction_of : TxTransfer → Text → ℕ → Text → WalletTransaction
  transaction_of tx fee_payed block_height block_hash = record {
    wx_id = [];
    tx_id = tx.tx_id;
    account_id = [];
    coin = coin;
    from = (tx.from ++ (codes ":" ++ amount_text tx)) ∷ [];
    to = (tx.to ++ (codes ":" ++ amount_text tx)) ∷ [];
    amount = [];
    decimal = decimals;
    fees = fee_payed;
    is_memo = true;
    block_hash = block_hash;
    block_height = block_height;
    confirm_time = 0;
    submit_time = 0;
    status = tx.status;
    reason = [];
  }

  inputs : Operate → TxTransfer → ℕ → Text → List Recharge
  inputs both tx block_height block_hash = extract_tx_input tx block_height block_hash ∷ []
  inputs input tx block_height block_hash = extract_tx_input tx block_height block_hash ∷ []
  inputs output tx block_height block_hash = []

  outputs : Operate → TxTransfer → ℕ → Text → List Recharge
  outputs both tx block_height block_hash = extract_tx_output tx block_height block_hash ∷ []
  outputs input tx block_height block_hash = []
  outputs output tx block_height block_hash = extract_tx_output tx block_height block_hash ∷ []

  unfoldable pub init_extract_result :
      TxTransfer → Text → ℕ → Text → Text → ExtractData → Operate → ExtractData
  unfolding transaction_of inputs outputs
  init_extract_result tx fee_payed block_height block_hash source_key extract_data operate =
      let transx = transaction_of tx fee_payed block_height block_hash in
      append_at source_key
        (record {
          transaction = record transx { wx_id = p.gen_transaction_wx_id transx };
          tx_inputs = inputs operate tx block_height block_hash;
          tx_outputs = outputs operate tx block_height block_hash;
        })
        extract_data

  -- The data for what `scanTargetFunc` says of the sender and of the receiver.
  unfoldable pub extract_sides : TxTransfer → ℕ → Text → Text × Bool → Text × Bool → ExtractData
  extract_sides tx block_height block_hash (account_id, ok1) (account_id2, ok2) =
      let init = init_extract_result tx tx.fee block_height block_hash in
      if text_eq account_id account_id2 && ltb 0 (length account_id) && ltb 0 (length account_id2)
      then init account_id [] both
      else (let first = if ok1 then init account_id [] input else [] in
          if ok2 then init account_id2 first output else first)

  unfoldable pub extract_transaction : ℕ → Text → TxTransfer → ExtractResult
  unfolding extract_sides
  extract_transaction block_height block_hash tx = record {
    extract_data =
        extract_sides tx block_height block_hash (p.scan_target tx.from) (p.scan_target tx.to);
    tx_id = tx.tx_id;
    block_height = block_height;
    success = true;
  }
