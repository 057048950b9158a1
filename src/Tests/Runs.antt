-- ===== src/Tests/Runs.antt =====
-- A run of a batch with its effects on the small node.
use mathlib.Core.List.{Perm}
use near_adapter.Prelude.{ℕ, ◌≡◌, refl, true, List, [], ◌∷◌, text_eq, none, arith}
use near_adapter.Model.{TxTransfer}
use near_adapter.Go.{ok}
use near_adapter.Exec.{for_each}
use near_adapter.Db.{save_unscan_record}
use near_adapter.Scanner.Extract.{
  extract_transaction, extract_sides, append_at, init_extract_result,
}
use near_adapter.Scanner.Notify.{
  notify_failed, batch_in_order, batch_result, save_result, new_extract_data_notify,
  notify_observer, notify_one,
}
use near_adapter.Config.{new_config}
use near_adapter.Wallet.{UnscanRecord}
use near_adapter.Scanner.Channels.{Batch, begin, start, produce, release, deliver, save, exit}
use near_adapter.Scanner.Channels.Refine.{
  effect, Run, begins, steps, Run-batch_in_order, Ends, Run-Ends,
}
use near_adapter.Tests.Demo.{World, platform, scanner, started}
use near_adapter.Tests.Chain.{demo_transfer, batch_keeps}

-- What is put down for each of the two entries that the second observer refuses.
abbrev refusal : UnscanRecord
refusal = platform.new_unscan_record 3 [] notify_failed (scanner.wm.config.symbol)

abbrev after_batch : World
after_batch = record started { unscan = refusal ∷ refusal ∷ [] }

saved_result :
    save_result platform scanner 3
      (extract_transaction platform scanner 3 (3 ∷ []) demo_transfer)
      started
    ≡ (ok 0, after_batch)
unfolding save_result new_extract_data_notify notify_observer notify_one for_each
    extract_transaction extract_sides append_at save_unscan_record text_eq new_config
    init_extract_result
saved_result = refl

abbrev over : Batch TxTransfer
over = record {
  waiting = [];
  running = [];
  sent = 1;
  values = [];
  busy = none;
  saved = demo_transfer ∷ [];
  quit = true;
  returned = true;
}

abbrev batch_start : Batch TxTransfer
batch_start = begin (demo_transfer ∷ []) 1

run_started :
    Run platform scanner 3
      (3 ∷ [])
      1
      batch_start
      started
      (record batch_start { waiting = []; running = demo_transfer ∷ [] })
      started
      0
unfolding effect
run_started = steps begins (start batch_start demo_transfer [] refl (omega arith)) refl

run_over : Run platform scanner 3 (3 ∷ []) 1 batch_start started over after_batch 0
unfolding effect
run_over =
    steps
      (steps
        (steps
          (steps (steps run_started (produce _ [] demo_transfer [] refl refl) refl)
            (release _ 1 refl) refl)
          (deliver _ demo_transfer [] refl refl refl) refl)
        (save _ demo_transfer refl) saved_result)
      (exit _ refl refl) refl

Run-batch_in_order_example :
    (order : List TxTransfer) × Perm order (demo_transfer ∷ [])
    × (batch_in_order platform scanner 3 (3 ∷ []) order started
        ≡ batch_result platform scanner 0 after_batch)
Run-batch_in_order_example =
    Run-batch_in_order platform scanner 3 (3 ∷ []) {txs = demo_transfer ∷ []} {held = 1}
      (omega arith) run_over refl

Run-Ends_example :
    (◌≡◌ {A = ℕ} 0 0)
    × Ends platform scanner 3
        (3 ∷ [])
        (batch_keeps (λ w. w.notices ≡ []) (λ w r h. h))
        1
        (record batch_start { waiting = []; running = demo_transfer ∷ [] })
        started
Run-Ends_example =
    Run-Ends platform scanner 3 (3 ∷ []) (batch_keeps (λ w. w.notices ≡ []) (λ w r h. h))
      {txs = demo_transfer ∷ []} {held = 1} (omega arith) (omega arith) refl run_started
