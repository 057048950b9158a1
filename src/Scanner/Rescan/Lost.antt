-- ===== src/Scanner/Rescan/Lost.antt =====
-- What `RescanFailedRecord` does to the record of a height whose observers refuse it again.
use near_adapter.Prelude.{ℕ, suc, true, false, ◌==◌, arith, ◌≡◌, refl}
use near_adapter.Go.{ok}
use near_adapter.Platform.{Platform}
use near_adapter.Config.{NearBlockScanner}
use near_adapter.Model.{Block}
use near_adapter.Node.{get_block_by_height}
use near_adapter.Db.{delete_unscan_record}
use near_adapter.Scanner.Notify.Batch.{BatchKeeps, batch_returns_nil}
use near_adapter.Scanner.Rescan.{rescan_height}

not_zero : (n : ℕ) → (suc n == 0) ≡ false
not_zero n = ground arith

module _ (p : Platform) (bs : NearBlockScanner) where
  open p use {World}

  -- A height that is not 0, whose block the node gives, has no unscan record left after it is
  -- scanned again, also where observers refused its transfers again and records of that were saved
  -- meanwhile, as long as the observers and the database keep an invariant under which a deletion
  -- succeeds.
  pub rescan_height_deletes :
      {Safe Gone : World → Type 0} (k : BatchKeeps p bs Safe) (n : ℕ) (block : Block) (w w1 : World)
      → get_block_by_height p bs (suc n) true w ≡ (ok block, w1)
      → Safe w1
      → ((w2 : World)
          → Safe w2
          → (w3 : World) × (delete_unscan_record p bs (suc n) w2 ≡ (ok tt, w3)) × Gone w3)
      → (w' : World) × (rescan_height p bs (suc n) w ≡ (ok tt, w')) × Gone w'
  unfolding rescan_height
  rescan_height_deletes k n block w w1 fetched safe deletes =
      let (w2, batch, safe') =
        batch_returns_nil p bs k block.header.height block.header.hash block.tx_transfer w1 safe in
      let (w3, deleted, gone) = deletes w2 safe' in
      (w3, rw (not_zero n, fetched, batch, deleted) refl, gone)
