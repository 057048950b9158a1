-- ===== src/Scanner/Rescan.antt =====
-- Scanning single heights, scanning again what failed, and the whole task.
pub mod Quiet
pub mod Task
pub mod Reorg
pub mod Lost
pub mod Heights
pub mod Asked
use near_adapter.Prelude.{
  ℕ, zero, suc, ◌-◌, Bool, true, false, not, List, [], ◌∷◌, Text, text_eq, codes, Option, none,
  some, ltb, leb, ◌==◌, if◌then◌else◌, ◌&&◌,
}
use near_adapter.Prelude.Int.{sub64}
use near_adapter.Go.{GoError, plain, library, checked}
use near_adapter.Exec.{Exec, pure, raise, lift, handle, ignore, for_each, ◌>>=◌, ◌>>◌}
use near_adapter.Platform.{Platform}
use near_adapter.Config.{NearBlockScanner}
use near_adapter.Model.{Block}
use near_adapter.Wallet.{UnscanRecord}
use near_adapter.Node.{get_block_by_height}
use near_adapter.Db.{save_unscan_record, delete_unscan_record, get_unscan_records, with_dai}
use near_adapter.Scanner.Notify.{new_block_notify, batch_extract_transaction}
use near_adapter.Scanner.Scan.{
  Position, LoopEnd, broke, returned, out_of_fuel, get_scanned_block_header, scan_loop,
}

-- `strings.HasPrefix(s, prefix)`
pub has_prefix : Text → Text → Bool
has_prefix s [] = true
has_prefix [] (c ∷ prefix) = false
has_prefix (b ∷ s) (c ∷ prefix) = b == c && has_prefix s prefix

-- The keys of `blockMap`: the heights of the records, each once.
pub insert_height : ℕ → List ℕ → List ℕ
insert_height h [] = h ∷ []
insert_height h (k ∷ ks) = if k == h then k ∷ ks else k ∷ insert_height h ks

pub record_heights : List UnscanRecord → List ℕ → List ℕ
unfolding insert_height
record_heights [] ks = ks
record_heights (r ∷ rs) ks = record_heights rs (insert_height r.block_height ks)

abbrev pub not_found_reason : Text
not_found_reason = codes "[-5]No information available about transaction"

module _ (p : Platform) (bs : NearBlockScanner) where
  open p use {World}

  error_text : GoError → Text
  error_text (plain m) = m
  error_text (library m) = m
  error_text e = p.other_error_text e

  -- `scanBlock`
  pub scan_block_at : ℕ → Exec World Block
  unfolding error_text
  scan_block_at height =
      handle (get_block_by_height p bs height true)
        (λ e. do
          ignore (
              save_unscan_record p bs
                (p.new_unscan_record height [] (error_text e) bs.wm.config.symbol))
          raise e)
        (λ block. do
          ignore (
              batch_extract_transaction p bs block.header.height block.header.hash
                block.tx_transfer)
          pure block)

  -- `ScanBlock`
  pub scan_block : ℕ → Exec World (Unit {0})
  scan_block height = do block ← scan_block_at height; new_block_notify p bs block.header false

  -- One round over `blockMap`.
  pub rescan_height : ℕ → Exec World (Unit {0})
  rescan_height height =
      if height == 0
      then pure tt
      else handle (get_block_by_height p bs height true) (λ e. pure tt)
          λ block.
            handle
              (batch_extract_transaction p bs block.header.height block.header.hash
                block.tx_transfer)
              (λ e. pure tt) (λ _. ignore (delete_unscan_record p bs height))

  pub delete_not_found : List UnscanRecord → Exec World (Unit {0})
  delete_not_found records = for_each records λ r.
      if has_prefix r.reason not_found_reason
      then ignore (p.delete_unscan_record_by_id r.id bs.wm.config.symbol)
      else pure tt

  pub delete_unscan_record_not_find_tx : Exec World (Unit {0})
  unfolding delete_not_found
  delete_unscan_record_not_find_tx = with_dai bs (do
    (records, e) ← p.get_unscan_records bs.wm.config.symbol
    list ← lift (checked records e)
    delete_not_found list)

  rescan_records : List UnscanRecord → Exec World (Unit {0})
  rescan_records records = do
    (λ w. for_each (p.map_order w (record_heights records [])) rescan_height w)
    ignore delete_unscan_record_not_find_tx

  pub rescan_failed_record : Exec World (Unit {0})
  unfolding rescan_records
  rescan_failed_record = do (records, e) ← get_unscan_records p bs; rescan_records records

  -- `for i := start; i < currentHeight; i++`, by the rounds that are left.
  pub scan_blocks : ℕ → ℕ → Exec World (Unit {0})
  scan_blocks zero i = pure tt
  scan_blocks (suc left) i = do ignore (scan_block_at i); scan_blocks left (suc i)

  pub after_loop : ℕ → Exec World (Unit {0})
  after_loop height = do
    let start = sub64 height bs.rescan_last_block_count
    scan_blocks (height - start) start
    rescan_failed_record

  finish_task : LoopEnd → Exec World LoopEnd
  finish_task (broke pos) = do after_loop pos.height; pure (broke pos)
  finish_task other = pure other

  -- `ScanBlockTask`, with as many rounds of its loop as `fuel` allows.
  pub scan_block_task : ℕ → Exec World LoopEnd
  unfolding finish_task after_loop
  scan_block_task fuel =
      handle (get_scanned_block_header p bs) (λ e. pure returned)
        λ pos. do end ← scan_loop p bs fuel pos; finish_task end
