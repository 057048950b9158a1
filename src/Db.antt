-- ===== src/Db.antt =====
-- near/blocksanner_db.go: the scanner's access to its database.
use near_adapter.Prelude.{ℕ, false, List, [], Text, codes, Option, some, if◌then◌else◌}
use near_adapter.Go.{GoError, plain}
use near_adapter.Exec.{Exec, pure, raise, ◌>>=◌}
use near_adapter.Platform.{Platform}
use near_adapter.Config.{NearBlockScanner}
use near_adapter.Model.{BlockHeader, bare_header}
use near_adapter.Wallet.{UnscanRecord}

-- `if bs.BlockchainDAI == nil { return … }`
abbrev pub with_dai : {W A : Type 0} → NearBlockScanner → Exec W A → Exec W A
with_dai bs m = if bs.has_dai then m else raise (plain (codes "Blockchain DAI is not setup "))

module _ (p : Platform) (bs : NearBlockScanner) where
  open p use {World}

  -- `SaveLocalBlockHead`
  pub save_local_block_head : ℕ → Text → Exec World (Unit {0})
  save_local_block_head block_height block_hash = with_dai bs (
      p.save_current_block_head (record {
        hash = block_hash;
        previous_block_hash = [];
        height = block_height;
        fork = false;
        time = 0;
        symbol = bs.wm.config.symbol;
      }))

  -- `GetLocalBlockHead`
  pub get_local_block_head : Exec World (ℕ × Text)
  get_local_block_head =
      with_dai bs (do
        header ← p.get_current_block_head bs.wm.config.symbol
        pure (header.height, header.hash))

  -- `SaveLocalNewBlock` of blockscanner.go, the same code as `SaveLocalBlockHead`.
  unfoldable pub save_local_new_block : ℕ → Text → Exec World (Unit {0})
  save_local_new_block height hash = with_dai bs (
      p.save_current_block_head (record {
        hash = hash;
        previous_block_hash = [];
        height = height;
        fork = false;
        time = 0;
        symbol = bs.wm.config.symbol;
      }))

  -- `GetLocalNewBlock` of blockscanner.go, the same code as `GetLocalBlockHead`.
  unfoldable pub get_local_new_block : Exec World (ℕ × Text)
  get_local_new_block =
      with_dai bs (do
        header ← p.get_current_block_head bs.wm.config.symbol
        pure (header.height, header.hash))

  unfoldable pub save_local_block : BlockHeader → Exec World (Unit {0})
  save_local_block block_header = with_dai bs (
      p.save_local_block_head (record {
        hash = block_header.hash;
        previous_block_hash = block_header.prev_hash;
        height = block_header.height;
        fork = false;
        time = 0;
        symbol = bs.wm.config.symbol;
      }))

  unfoldable pub get_local_block : ℕ → Exec World BlockHeader
  get_local_block height = with_dai bs (do
    header ← p.get_local_block_head_by_height height bs.wm.config.symbol
    pure (bare_header header.hash header.height header.previous_block_hash))

  unfoldable pub save_unscan_record : UnscanRecord → Exec World (Unit {0})
  save_unscan_record unscan = with_dai bs (p.save_unscan_record unscan)

  unfoldable pub delete_unscan_record : ℕ → Exec World (Unit {0})
  delete_unscan_record height =
      with_dai bs (p.delete_unscan_record_by_height height bs.wm.config.symbol)

  -- The list and the error.
  unfoldable pub get_unscan_records : Exec World (List UnscanRecord × Option GoError)
  get_unscan_records =
      if bs.has_dai
      then p.get_unscan_records bs.wm.config.symbol
      else pure ([], some (plain (codes "Blockchain DAI is not setup ")))
