-- ===== src/Scanner/Scan.antt =====
-- `ScanBlockTask`: the loop that follows the chain, and the heights that it starts from.
pub mod View
pub mod Follow
pub mod Back
pub mod Fork
pub mod Missed
pub mod Restart
use near_adapter.Prelude.{
  ℕ, zero, suc, ◌-◌, Bool, true, false, not, List, [], Text, text_eq, codes, Option, none, some,
  leb, ltb, ◌==◌, if◌then◌else◌,
}
use near_adapter.Prelude.Int.{add64, sub64}
use near_adapter.Go.{GoError, plain}
use near_adapter.Exec.{Exec, pure, raise, handle, ignore, ◌>>=◌, ◌>>◌}
use near_adapter.Platform.{Platform}
use near_adapter.Config.{NearBlockScanner}
use near_adapter.Model.{Block, BlockHeader}
use near_adapter.Node.{get_current_block, get_block_by_height}
use near_adapter.Db.{
  save_local_new_block, get_local_new_block, save_local_block, get_local_block, save_unscan_record,
  delete_unscan_record,
}
use near_adapter.Scanner.Notify.{new_block_notify, batch_extract_transaction, notify_failed}

-- `currentHeight` and `currentHash`.
pub record Position : Type 0 where
  pub height : ℕ
  pub hash : Text

-- How one round of the loop ends: with the next one, by `break`, or by `return`.
pub data Next : Type 0 where
  again : Position → Next
  leave : Position → Next
  quit : Next

-- How the loop ends. `out_of_fuel` is no outcome of the program.
pub data LoopEnd : Type 0 where
  broke : Position → LoopEnd
  returned : LoopEnd
  out_of_fuel : LoopEnd

module _ (p : Platform) (bs : NearBlockScanner) where
  open p use {World}

  -- `x, err := m` where a nil `x` stands for the failure.
  optional : {A : Type 0} → Exec World A → Exec World (Option A)
  optional m = handle m (λ e. pure none) (λ a. pure (some a))

  unfoldable pub get_scanned_block_header : Exec World Position
  get_scanned_block_header = do
    (height, hash) ← get_local_new_block p bs
    if height == 0
        then (do
          current ← get_current_block p bs
          block ← get_block_by_height p bs (sub64 current 1) false
          pure (record { height = sub64 current 1; hash = block.header.hash }))
        else pure (record { height = height; hash = hash })

  -- `height < 0` never holds of a uint64.
  pub set_rescan_block_height : ℕ → Exec World (Unit {0})
  set_rescan_block_height height = do
    block ← get_block_by_height p bs (sub64 height 1) false
    ignore (save_local_new_block p bs (sub64 height 1) block.header.hash)

  fork_notify : Option BlockHeader → Exec World (Unit {0})
  fork_notify none = pure tt
  fork_notify (some header) = new_block_notify p bs header true

  -- The scan starts again behind `header`.
  resume_at : Option BlockHeader → ℕ → BlockHeader → Exec World Next
  unfolding fork_notify
  resume_at fork_block height header = do
    ignore (save_local_new_block p bs header.height header.hash)
    ignore (save_local_block p bs header)
    fork_notify fork_block
    pure (again (record { height = height; hash = header.hash }))

  -- Two blocks back, and 1 in place of 0. `currentHeight <= 0` holds of 0 alone.
  abbrev pub step_back : ℕ → ℕ
  step_back height = if sub64 height 2 == 0 then 1 else sub64 height 2

  -- The block at `height` does not follow the hash `hash`.
  pub handle_fork : ℕ → Text → Exec World Next
  unfolding resume_at optional
  handle_fork height hash = do
    fork_block ← optional (get_local_block p bs (sub64 height 1))
    ignore (delete_unscan_record p bs (sub64 height 1))
    handle (get_local_block p bs (step_back height))
        (λ e.
          handle (get_block_by_height p bs (step_back height) false)
            (λ e'. pure (leave (record { height = step_back height; hash = hash })))
            (λ block. resume_at fork_block (step_back height) block.header))
        (λ header. resume_at fork_block (step_back height) header)

  pub handle_block : ℕ → Block → Exec World Next
  handle_block height block = do
    ignore (batch_extract_transaction p bs block.header.height block.header.hash block.tx_transfer)
    ignore (save_local_new_block p bs height block.header.hash)
    ignore (save_local_block p bs block.header)
    new_block_notify p bs block.header false
    pure (again (record { height = height; hash = block.header.hash }))

  pub handle_missing : ℕ → Text → Exec World Next
  handle_missing height hash = do
    ignore
        (save_unscan_record p bs (p.new_unscan_record height [] notify_failed bs.wm.config.symbol))
    pure (again (record { height = height; hash = hash }))

  -- The scan of the block at `height` behind the hash `hash`.
  pub scan_height : ℕ → Text → Exec World Next
  scan_height height hash =
      handle (get_block_by_height p bs height true) (λ e. handle_missing height hash)
        λ block.
          if not (text_eq hash block.header.prev_hash)
          then handle_fork height hash
          else handle_block height block

  pub scan_round : Position → Exec World Next
  scan_round pos w =
      if not (p.scanning w)
      then pure quit w
      else handle (get_current_block p bs) (λ e. pure (leave pos))
          (λ max_height.
            if leb max_height pos.height
            then pure (leave pos)
            else scan_height (add64 pos.height 1) pos.hash)
          w

  scan_next : (Position → Exec World LoopEnd) → Next → Exec World LoopEnd
  scan_next loop (again pos) = loop pos
  scan_next loop (leave pos) = pure (broke pos)
  scan_next loop quit = pure returned

  pub scan_loop : ℕ → Position → Exec World LoopEnd
  scan_loop zero pos = pure out_of_fuel
  scan_loop (suc fuel) pos = do next ← scan_round pos; scan_next (scan_loop fuel) next
