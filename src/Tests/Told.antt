-- ===== src/Tests/Told.antt =====
-- A batch whose observers are written down.
use mathlib.Core.List.{Perm, flat_map, reverse, reverse_perm}
use mathlib.Core.List.Perm
use near_adapter.Prelude.{
  ℕ, ◌≡◌, refl, Bool, true, false, List, [], ◌∷◌, ◌++◌, Text, text_eq, none, arith, if◌then◌else◌,
}
use near_adapter.Go.{ok, err, library}
use near_adapter.Exec.{pure, crash, for_each}
use near_adapter.Exec.Keeps.{EndsWell}
use near_adapter.Platform.{Platform}
use near_adapter.Model.{TxTransfer}
use near_adapter.Wallet.{TxExtractData}
use near_adapter.Db.{save_unscan_record}
use near_adapter.Config.{new_config}
use near_adapter.Scanner.Extract.{
  extract_transaction, extract_sides, append_at, init_extract_result,
}
use near_adapter.Scanner.Notify.{save_result, new_extract_data_notify, notify_observer, notify_one}
use near_adapter.Scanner.Notify.Delivered.{Logs, deliveries_to, deliveries_of, deliveries}
use near_adapter.Scanner.Channels.{Batch, begin, start, produce, release, deliver, save, exit}
use near_adapter.Scanner.Channels.Refine.{effect, Run, begins, steps}
use near_adapter.Scanner.Channels.Told.{Run_delivers}
use near_adapter.Tests.Demo.{platform, scanner}
use near_adapter.Tests.Chain.{demo_transfer}

-- The world is what the observers were told.
abbrev Told : Type 0
Told = List (Bool × Text × TxExtractData)

-- `range` meets the observers in another order once something was told.
abbrev first_to_last : Told → List Bool
first_to_last [] = true ∷ false ∷ []
first_to_last (d ∷ w) = false ∷ true ∷ []

abbrev told_by : Platform
told_by = record platform {
  World = Told;
  req_get = λ url. crash;
  req_post = λ url body. crash;
  save_current_block_head = λ r. pure tt;
  get_current_block_head = λ s. crash;
  save_local_block_head = λ r. pure tt;
  get_local_block_head_by_height = λ h s. crash;
  save_unscan_record = λ r. pure tt;
  delete_unscan_record_by_height = λ h s. pure tt;
  delete_unscan_record_by_id = λ i s. pure tt;
  get_unscan_records = λ s. pure ([], none);
  map_order = λ w l. l;
  entry_order = λ w l. reverse l;
  scanning = λ w. true;
  observers = first_to_last;
  block_extract_data_notify =
      λ o key entry w. (if o then ok tt else err (library []), w ++ (o, key, entry) ∷ []);
  new_block_notify = λ r. pure tt;
}

logs : Logs told_by scanner (λ w. Unit {0}) (λ w. w) (true ∷ false ∷ [])
unfolding save_unscan_record
logs = record {
  observers_are = λ w h. either_order w;
  entries_are = λ w d h. reverse_perm d;
  tells = λ o key entry w h. (either o, tt, refl);
  records = λ r l. record { at = λ w h. (h, tt) };
}
  where
    either_order : (w : Told) → Perm (first_to_last w) (true ∷ false ∷ [])
    either_order [] = Perm.refl (true ∷ false ∷ [])
    either_order (d ∷ w) = Perm.swap true false []

    either : (o : Bool) → EndsWell {A = Unit {0}} true (if o then ok tt else err (library []))
    either true = tt
    either false = tt

abbrev entries : List (Text × List TxExtractData)
entries = (extract_transaction told_by scanner 3 (3 ∷ []) demo_transfer).extract_data

-- The accounts of the transfer were met from the last one.
abbrev after_batch : Told
after_batch = deliveries_of told_by scanner (true ∷ false ∷ []) (reverse entries)

tells_all :
    save_result told_by scanner 3 (extract_transaction told_by scanner 3 (3 ∷ []) demo_transfer) []
    ≡ (ok 0, after_batch)
unfolding save_result new_extract_data_notify notify_observer notify_one for_each
    extract_transaction extract_sides append_at save_unscan_record text_eq new_config
    init_extract_result deliveries_of deliveries_to flat_map
tells_all = refl

abbrev running : Batch TxTransfer
running = begin (demo_transfer ∷ []) 1

abbrev over : Batch TxTransfer
over = record {
  waiting = [];
  running = [];
  sent = 1;
  values = [];
  busy = none;
  saved = demo_transfer ∷ [];
  quit = true;
  returned = true;
}

runs : Run told_by scanner 3 (3 ∷ []) 1 running [] over after_batch 0
unfolding effect
runs =
    steps
      (steps
        (steps
          (steps
            (steps (steps begins (start running demo_transfer [] refl (omega arith)) refl)
              (produce _ [] demo_transfer [] refl refl) refl)
            (release _ 1 refl) refl)
          (deliver _ demo_transfer [] refl refl refl) refl)
        (save _ demo_transfer refl) tells_all)
      (exit _ refl refl) refl

Run_delivers_example :
    (◌≡◌ {A = ℕ} 0 0)
    × ((out : Told) × (after_batch ≡ out)
        × Perm out (deliveries told_by scanner 3 (3 ∷ []) (true ∷ false ∷ []) (demo_transfer ∷ [])))
Run_delivers_example =
    Run_delivers told_by scanner 3 (3 ∷ []) logs {txs = demo_transfer ∷ []} {held = 1} (omega arith)
      tt runs refl
