-- ===== src/Scanner/Notify.antt =====
-- `newBlockNotify`, `newExtractDataNotify` and `BatchExtractTransaction`.
pub mod Batch
pub mod Delivered
use near_adapter.Prelude.{
  ℕ, ◌+◌, Bool, true, false, List, [], ◌∷◌, map, Text, codes, ltb, if◌then◌else◌,
}
use near_adapter.Go.{GoError, plain}
use near_adapter.Exec.{Exec, pure, raise, handle, ignore, for_each, ◌>>=◌, ◌>>◌}
use near_adapter.Platform.{Platform}
use near_adapter.Config.{NearBlockScanner}
use near_adapter.Model.{BlockHeader, TxTransfer}
use near_adapter.Wallet.{TxExtractData}
use near_adapter.Db.{save_unscan_record}
use near_adapter.Scanner.Extract.{ExtractData, ExtractResult, extract_transaction}

abbrev pub notify_failed : Text
notify_failed = codes "ExtractData Notify failed."

module _ (p : Platform) (bs : NearBlockScanner) where
  open p use {World, Observer}

  unfoldable pub new_block_notify : BlockHeader → Bool → Exec World (Unit {0})
  new_block_notify block_header is_fork = ignore (
      p.new_block_notify (record {
        hash = block_header.hash;
        previous_block_hash = block_header.prev_hash;
        height = block_header.height;
        fork = is_fork;
        time = 0;
        symbol = bs.wm.config.symbol;
      }))

  -- One call of one observer; a failure is put down as a height to scan again.
  unfoldable pub notify_one : ℕ → Observer → Text → TxExtractData → Exec World (Unit {0})
  notify_one height o key entry =
      handle (p.block_extract_data_notify o key entry)
        (λ e. ignore (
          save_unscan_record p bs
            (p.new_unscan_record height [] notify_failed bs.wm.config.symbol)))
        (λ _. pure tt)

  unfoldable pub notify_observer : ℕ → ExtractData → Observer → Exec World (Unit {0})
  notify_observer height extract_data o = λ w.
      for_each (p.entry_order w extract_data)
        (λ (key, array). for_each array (notify_one height o key)) w

  -- Always returns nil.
  unfoldable pub new_extract_data_notify : ℕ → ExtractData → Exec World (Unit {0})
  new_extract_data_notify height extract_data w =
      for_each (p.observers w) (notify_observer height extract_data) w

  -- One result that `saveWork` takes from its channel: how many failures it counts.
  unfoldable pub save_result : ℕ → ExtractResult → Exec World ℕ
  save_result height gets =
      if gets.success
      then handle (new_extract_data_notify height gets.extract_data) (λ e. pure 1) (λ _. pure 0)
      else (do
        ignore (save_unscan_record p bs (p.new_unscan_record height [] [] bs.wm.config.symbol))
        pure 1)

  unfoldable pub save_work : ℕ → List ExtractResult → Exec World ℕ
  save_work height [] = pure 0
  save_work height (gets ∷ rest) = do
    n ← save_result height gets
    failed ← save_work height rest
    pure (n + failed)

  -- What the caller is told of `failed` failures.
  unfoldable pub batch_result : ℕ → Exec World (Unit {0})
  batch_result failed =
      if ltb 0 failed then raise (plain (codes "block scanner saveWork failed")) else pure tt

  -- The batch whose results come in in this order.
  unfoldable pub batch_in_order : ℕ → Text → List TxTransfer → Exec World (Unit {0})
  unfolding save_work save_result
  batch_in_order block_height block_hash txs = do
    failed ← save_work block_height (map (extract_transaction p bs block_height block_hash) txs)
    batch_result failed

  pub batch_extract_transaction : ℕ → Text → List TxTransfer → Exec World (Unit {0})
  unfolding batch_in_order
  batch_extract_transaction block_height block_hash [] = pure tt
  batch_extract_transaction block_height block_hash (tx ∷ txs) =
      batch_in_order block_height block_hash (p.arrival (tx ∷ txs))
