-- ===== src/Scanner/Rescan/Quiet.antt =====
-- Scanning again what failed leaves alone all but the records of it.
use near_adapter.Prelude.{ℕ, zero, suc, ◌-◌, true, false, List, [], Text, ◌==◌}
use near_adapter.Prelude.Int.{sub64}
use near_adapter.Exec.{Exec}
use near_adapter.Exec.Keeps.{
  Keeps, Keeps-pure, Keeps-checked, Keeps-raise, Keeps-if, Keeps-handle, Keeps-bind, Keeps-ignore,
  Keeps-weaken, Keeps-for_each, Returns-Keeps,
}
use near_adapter.Platform.{Platform}
use near_adapter.Config.{NearBlockScanner}
use near_adapter.Model.{TxTransfer}
use near_adapter.Wallet.{UnscanRecord}
use near_adapter.Node.{get_block_by_height}
use near_adapter.Db.{with_dai, delete_unscan_record, get_unscan_records}
use near_adapter.Scanner.Notify.{batch_extract_transaction}
use near_adapter.Scanner.Notify.Batch.{BatchKeeps, batch_returns_nil}
use near_adapter.Scanner.Rescan.{
  has_prefix, not_found_reason, rescan_height, delete_not_found, delete_unscan_record_not_find_tx,
  record_heights, rescan_records, rescan_failed_record, scan_block_at, scan_blocks, after_loop,
}

module _ (p : Platform) (bs : NearBlockScanner) where
  open p use {World}

  -- The calls out of a rescan keep `P`, and may fail; a failure to list the records comes beside the
  -- list.
  pub record RescanKeeps (P : World → Type 0) : Type 0 where
    pub batch : BatchKeeps p bs P
    pub asks : (h : ℕ) → Keeps true P (get_block_by_height p bs h true)
    pub lists : Keeps false P (p.get_unscan_records bs.wm.config.symbol)
    pub forgets_height :
        (h : ℕ) → Keeps true P (p.delete_unscan_record_by_height h bs.wm.config.symbol)
    pub forgets_id : (i : Text) → Keeps true P (p.delete_unscan_record_by_id i bs.wm.config.symbol)

  module _ {P : World → Type 0} (k : RescanKeeps P) where
    Keeps-with_dai : {A : Type 0} {m : Exec World A} → Keeps true P m → Keeps true P (with_dai bs m)
    Keeps-with_dai km = Keeps-if bs.has_dai km (Keeps-raise _)

    batch-Keeps :
        (height : ℕ) (hash : Text) (txs : List TxTransfer)
        → Keeps false P (batch_extract_transaction p bs height hash txs)
    batch-Keeps height hash txs = Returns-Keeps (batch_returns_nil p bs k.batch height hash txs)

    rescan_height-Keeps : (h : ℕ) → Keeps false P (rescan_height p bs h)
    unfolding rescan_height delete_unscan_record
    rescan_height-Keeps h = Keeps-if (h == 0) (Keeps-pure tt) (
        Keeps-handle (k.asks h) (λ e. Keeps-pure tt)
          (λ block.
            Keeps-handle (Keeps-weaken (batch-Keeps _ _ _)) (λ e. Keeps-pure tt)
              (λ _. Keeps-ignore (Keeps-with_dai (k.forgets_height h)))))

    delete_not_found-Keeps :
        (records : List UnscanRecord) → Keeps true P (delete_not_found p bs records)
    unfolding delete_not_found
    delete_not_found-Keeps records = Keeps-for_each records _ (λ r.
        Keeps-if (has_prefix r.reason not_found_reason) (Keeps-ignore (k.forgets_id r.id))
          (Keeps-pure tt))

    rescan_records-Keeps :
        (records : List UnscanRecord) → Keeps false P (rescan_records p bs records)
    unfolding rescan_records delete_unscan_record_not_find_tx
    rescan_records-Keeps records =
        Keeps-bind
          (record {
            at = λ w.
                (Keeps-for_each (p.map_order w (record_heights records [])) _
                    rescan_height-Keeps).at
                  w;
          })
          (λ _. Keeps-ignore (
            Keeps-with_dai (
              Keeps-bind (Keeps-weaken k.lists)
                (λ (list, e). Keeps-bind (Keeps-checked list e) delete_not_found-Keeps))))

    pub rescan_failed_record-Keeps : Keeps false P (rescan_failed_record p bs)
    unfolding rescan_failed_record get_unscan_records
    rescan_failed_record-Keeps =
        Keeps-bind (Keeps-if bs.has_dai k.lists (Keeps-pure _))
          (λ (list, e). rescan_records-Keeps list)

    scan_block_at-Keeps : (h : ℕ) → Keeps true P (scan_block_at p bs h)
    unfolding scan_block_at
    scan_block_at-Keeps h =
        Keeps-handle (k.asks h)
          (λ e. Keeps-bind (Keeps-ignore (k.batch.records _)) (λ _. Keeps-raise e))
          (λ block.
            Keeps-bind (Keeps-ignore (Keeps-weaken (batch-Keeps _ _ _))) (λ _. Keeps-pure block))

    scan_blocks-Keeps : (left i : ℕ) → Keeps false P (scan_blocks p bs left i)
    unfolding scan_blocks
    scan_blocks-Keeps zero i = Keeps-pure tt
    scan_blocks-Keeps (suc left) i =
        Keeps-bind (Keeps-ignore (scan_block_at-Keeps i)) (λ _. scan_blocks-Keeps left (suc i))

    pub after_loop-Keeps : (h : ℕ) → Keeps false P (after_loop p bs h)
    unfolding after_loop
    after_loop-Keeps h =
        Keeps-bind (scan_blocks-Keeps (h - sub64 h bs.rescan_last_block_count) _)
          (λ _. rescan_failed_record-Keeps)
