-- ===== src/Scanner/Control.antt =====
-- What the framework calls on the scanner beside the task: `Run`, `Stop`, `Pause`, `Restart`, and the
-- small queries.
use near_adapter.Prelude.{ℕ, Bool, true, List, [], Text}
use near_adapter.Exec.{Exec, pure, handle, ignore}
use near_adapter.Platform.{Platform, Base}
use near_adapter.Config.{NearBlockScanner}
use near_adapter.Wallet.{TxExtractData}
use near_adapter.Db.{get_local_new_block}

module _ (p : Platform) (bs : NearBlockScanner) (base : Base p.World) where
  open p use {World}

  -- The four calls of `BlockScannerBase`, whose errors are dropped.
  pub run : Exec World (Unit {0})
  run = ignore base.run

  pub stop : Exec World (Unit {0})
  stop = ignore base.stop

  pub pause : Exec World (Unit {0})
  pause = ignore base.pause

  pub restart : Exec World (Unit {0})
  restart = ignore base.restart

  pub setup_socket_io : Exec World (Unit {0})
  setup_socket_io = pure tt

  pub support_blockchain_dai : Bool
  support_blockchain_dai = true

  -- The height 0 where the database fails.
  pub get_scanned_block_height : Exec World ℕ
  get_scanned_block_height =
      handle (get_local_new_block p bs) (λ e. pure 0) (λ (height, hash). pure height)

  -- A nil map and no error.
  pub extract_transaction_data : Text → Exec World (List (Text × List TxExtractData))
  extract_transaction_data txid = pure []
