-- ===== src/Node.antt =====
-- near/blockscanner.go, the part that asks the node.
pub mod Actions
pub mod Transfers
pub mod Blocks
pub mod Deposit
use near_adapter.Prelude.{
  ℕ, Bool, true, false, not, ◌&&◌, ◌||◌, List, [], ◌∷◌, ◌++◌, length, Text, text_eq, codes, Option,
  none, some, ltb, if◌then◌else◌,
}
use near_adapter.Prelude.Int.{to_uint64, sub64}
use near_adapter.Go
use near_adapter.Go.{GoError, Result, ok, err, panic, checked}
use near_adapter.Exec.{Exec, pure, raise, crash, lift, handle, ◌>>=◌}
use near_adapter.Bytes.Hex.{decode_string}
use near_adapter.Platform.{Platform, Params, positional, named, nothing, number, text}
use near_adapter.Config.{NearBlockScanner, decimals}
use near_adapter.Api.{get, call}
use near_adapter.Model.{
  Status, Block, ChunkHeader, ChunkResponse, Transaction, TransactionStatus, RootOutcome,
  TxTransfer,
}
use near_adapter.Wallet.{Balance, HeadRecord}
use Actions.{actions_loop}

-- `_, exists := m[key]`
unfoldable pub has_key : Text → List (Text × Text) → Bool
has_key key [] = false
has_key key ((k, v) ∷ m) = if text_eq k key then true else has_key key m

module _ (p : Platform) (bs : NearBlockScanner) where
  open p use {World}

  -- An amount in the smallest unit as a decimal number of tokens.
  abbrev pub in_tokens : p.Decimal → p.Decimal
  in_tokens d = p.div d (p.new_decimal 1 decimals)

  -- When the request fails `result` is nil, and `result.Raw` panics.
  unfoldable pub get_status : Exec World Status
  get_status =
      handle (get p bs.wm.client (codes "/status")) (λ e. crash)
        λ result.
          lift (checked (p.unmarshal_status (p.raw result)).0 (p.unmarshal_status (p.raw result)).1)

  unfoldable pub get_current_block : Exec World ℕ
  get_current_block = do status ← get_status; pure (to_uint64 status.sync_info.latest_block_height)

  pub get_current_block_header : Exec World (ℕ × Text)
  get_current_block_header = do
    status ← get_status
    pure (to_uint64 status.sync_info.latest_block_height, status.sync_info.latest_block_hash)

  -- 0 when the height cannot be had.
  pub get_global_max_block_height : Exec World ℕ
  get_global_max_block_height = handle get_current_block (λ e. pure 0) (λ height. pure height)

  unfoldable pub get_tx_by_chunk : Text → Exec World ChunkResponse
  get_tx_by_chunk chunk_hash = do
    result ← call p bs.wm.client (codes "chunk") (positional (text chunk_hash ∷ []))
    lift (checked (p.unmarshal_chunk (p.raw result)).0 (p.unmarshal_chunk (p.raw result)).1)

  -- `for _, reOutCome := range tx.ReceiptsOutcome`
  unfoldable pub sum_fees : List RootOutcome → p.Decimal → Result p.Decimal
  sum_fees [] sum_fee = ok sum_fee
  sum_fees (r ∷ rest) sum_fee =
      Go.◌>>=◌
        (checked (p.new_from_string r.outcome.tokens_burnt).0
          (p.new_from_string r.outcome.tokens_burnt).1)
        λ fee. sum_fees rest (p.add sum_fee fee)

  unfoldable pub gather_tx_fee : TransactionStatus → Result Text
  unfolding sum_fees
  gather_tx_fee tx =
      Go.◌>>=◌ (sum_fees (tx.transaction_outcome ∷ tx.receipts_outcome) p.zero_decimal)
        λ sum_fee. ok (p.decimal_string (p.div sum_fee (p.new_decimal 1 bs.wm.config.decimal)))

  -- Three results: the status, the fee and the error.
  abbrev TxStatus : Type 0
  TxStatus = Text × Text × Option GoError

  unfoldable pub fee_status : Result Text → Exec World TxStatus
  fee_status (ok fee) = pure (codes "1", fee, none)
  fee_status (err e) = pure (codes "0", codes "0", none)
  fee_status panic = crash

  unfoldable pub read_status : TransactionStatus → Option GoError → Exec World TxStatus
  unfolding fee_status
  read_status resp (some e) = pure (codes "0", codes "0", some e)
  read_status resp none =
      if has_key (codes "SuccessValue") resp.status
      then fee_status (gather_tx_fee resp)
      else pure (codes "0", codes "0", none)

  unfoldable pub get_tx_status : Text → Text → Exec World TxStatus
  unfolding read_status has_key
  get_tx_status tx_id sender_id =
      handle (call p bs.wm.client (codes "tx") (positional (text tx_id ∷ text sender_id ∷ [])))
        (λ e. pure (codes "0", codes "0", some e))
        λ result.
          read_status (p.unmarshal_tx_status (p.raw result)).0
            (p.unmarshal_tx_status (p.raw result)).1

  -- What is recorded of a transaction that carries `value`; the error of `GetTxStatus` is dropped.
  unfoldable pub record_transfer : Transaction → Text → Exec World TxTransfer
  record_transfer tx value = do
    amount ← lift (checked (p.new_from_string value).0 (p.new_from_string value).1)
    (status, fee, e) ← get_tx_status tx.hash tx.signer_id
    pure (record {
      from = tx.signer_id;
      to = tx.receiver_id;
      tx_id = tx.hash;
      value = p.decimal_string (in_tokens amount);
      fee = fee;
      status = status;
    })

  -- One round of `for _, tx := range chunkResponse.Transactions`: the transfers to append.
  unfoldable pub with_actions : Transaction → Bool × Text → Exec World (List TxTransfer)
  with_actions tx (has_trans, value) =
      if not has_trans || text_eq value (codes "0")
      then pure []
      else (do t ← record_transfer tx value; pure (t ∷ []))

  unfoldable pub transaction_transfers : Transaction → Exec World (List TxTransfer)
  unfolding with_actions
  transaction_transfers tx =
      if ltb 0 (length tx.actions)
      then (do found ← lift (actions_loop tx.actions false (codes "0")); with_actions tx found)
      else pure []

  unfoldable pub transactions_transfers : List Transaction → Exec World (List TxTransfer)
  transactions_transfers [] = pure []
  transactions_transfers (tx ∷ rest) = do
    found ← transaction_transfers tx
    more ← transactions_transfers rest
    pure (found ++ more)

  -- `for _, chunk := range block.Chunks`
  unfoldable pub chunks_transfers : List ChunkHeader → Exec World (List TxTransfer)
  chunks_transfers [] = pure []
  chunks_transfers (chunk ∷ rest) = do
    response ← get_tx_by_chunk chunk.chunk_hash
    found ← transactions_transfers response.transactions
    more ← chunks_transfers rest
    pure (found ++ more)

  unfoldable pub with_transfers : Bool → Block → Exec World Block
  with_transfers false block = pure block
  with_transfers true block = do
    found ← chunks_transfers block.chunks
    pure (record block { tx_transfer = block.tx_transfer ++ found })

  unfoldable pub get_block_by_height : ℕ → Bool → Exec World Block
  unfolding with_transfers
  get_block_by_height height get_txs = do
    result ← call p bs.wm.client (codes "block") (positional (number height ∷ []))
    block ← lift (checked (p.unmarshal_block (p.raw result)).0 (p.unmarshal_block (p.raw result)).1)
    with_transfers get_txs block

  -- The height 500 below the current one, which wraps below 0.
  unfoldable pub get_latest_ref_block_hash : Exec World Text
  get_latest_ref_block_hash = do
    current ← get_current_block
    block ← get_block_by_height (sub64 current 500) false
    pure block.header.hash

  unfoldable pub get_gas_price : Exec World Text
  get_gas_price = do
    result ← call p bs.wm.client (codes "gas_price") (positional (nothing ∷ []))
    pure (p.to_string (p.get_path result (codes "gas_price")))

  unfoldable pub get_account_balance : Text → Exec World Text
  get_account_balance account_id = do
    result ← call p bs.wm.client (codes "query") (
        named (
          (codes "request_type", codes "view_account")
          ∷ (codes "finality", codes "final")
          ∷ (codes "account_id", account_id)
          ∷ []))
    account ←
        lift (checked (p.unmarshal_account (p.raw result)).0 (p.unmarshal_account (p.raw result)).1)
    amount ←
        lift (checked (p.new_from_string account.amount).0 (p.new_from_string account.amount).1)
    pure (p.decimal_string (in_tokens amount))

  unfoldable pub query_nonce : Text → List ℕ × Option GoError → Exec World ℕ
  query_nonce account_id (hex_bytes, some e) = pure 0
  query_nonce account_id (hex_bytes, none) = do
    result ← call p bs.wm.client (codes "query") (
        named (
          (codes "request_type", codes "view_access_key")
          ∷ (codes "finality", codes "final")
          ∷ (codes "account_id", account_id)
          ∷ (codes "public_key", codes "ed25519:" ++ p.base58_encode hex_bytes)
          ∷ []))
    key ← lift (
        checked (p.unmarshal_access_key (p.raw result)).0 (p.unmarshal_access_key (p.raw result)).1)
    pure key.nonce

  -- An account that is no hexadecimal text has the nonce 0, and no error.
  unfoldable pub get_account_nonce : Text → Exec World ℕ
  unfolding query_nonce
  get_account_nonce account_id = query_nonce account_id (decode_string account_id)

  -- Addresses whose balance cannot be had are left out.
  unfoldable pub get_balance_by_address : List Text → Exec World (List Balance)
  get_balance_by_address [] = pure []
  get_balance_by_address (a ∷ rest) =
      handle (get_account_balance a) (λ e. get_balance_by_address rest)
        λ balance. do
          more ← get_balance_by_address rest
          pure (
              record {
                symbol = bs.wm.config.symbol;
                address = a;
                balance = balance;
                unconfirm_balance = codes "0";
                confirm_balance = balance;
              }
              ∷ more)
