-- ===== src/Tests/Asked.antt =====
-- A rescan whose requests are written down.
use mathlib.Core.List.{reverse, reverse_perm}
use near_adapter.Prelude.{
  ℕ, ◌≡◌, refl, Bool, true, false, not, ◌&&◌, List, [], ◌∷◌, ◌++◌, Text, none, some, ◌==◌,
  Bool-cases, inl, inr, if◌then◌else◌,
}
use near_adapter.Go.{Result, ok, err, library}
use near_adapter.Exec.{Returns, pure, raise, crash}
use near_adapter.Exec.Keeps.{EndsWell, Keeps-pure, Keeps-raise}
use near_adapter.Platform.{Platform, Params, positional, number}
use near_adapter.Model.{Block}
use near_adapter.Wallet.{UnscanRecord}
use near_adapter.Api.{call, checked_reply, is_error}
use near_adapter.Db.{save_unscan_record, get_unscan_records}
use near_adapter.Node.{get_block_by_height, with_transfers, chunks_transfers}
use near_adapter.Scanner.Rescan.{rescan_failed_record}
use near_adapter.Scanner.Rescan.Heights.{count, is_recorded}
use near_adapter.Scanner.Rescan.Asked.{Asks, rescan_failed_record_asks}
use near_adapter.Tests.Demo.{platform, scanner, raw_block}
use near_adapter.Tests.Chain.{demo_transfer}

abbrev record_at : ℕ → UnscanRecord
record_at h = record { id = []; block_height = h; tx_id = []; reason = []; symbol = [] }

abbrev records : List UnscanRecord
records = record_at 4 ∷ record_at 0 ∷ record_at 6 ∷ record_at 4 ∷ []

-- The node refuses block 4.
abbrev answer : Params → List ℕ → Result Text × List ℕ
answer (positional (number h ∷ ps)) w =
    (if h == 4 then err (library []) else ok (h ∷ []), w ++ h ∷ [])
answer _ w = (err (library []), w)

abbrev block_with_transfer : Text → Block
block_with_transfer (h ∷ s) = record (raw_block h) { chunks = []; tx_transfer = demo_transfer ∷ [] }
block_with_transfer [] = raw_block 0

-- The world is the heights whose blocks were asked for. The list of the records comes beside an error,
-- deletions fail, and one observer refuses.
abbrev asked_by : Platform
asked_by = record platform {
  World = List ℕ;
  req_get = λ url. crash;
  req_post = λ url body. answer body.params;
  unmarshal_block = λ s. (block_with_transfer s, none);
  save_current_block_head = λ r. pure tt;
  get_current_block_head = λ s. crash;
  save_local_block_head = λ r. pure tt;
  get_local_block_head_by_height = λ h s. crash;
  save_unscan_record = λ r. pure tt;
  delete_unscan_record_by_height = λ h s. raise (library []);
  delete_unscan_record_by_id = λ i s. raise (library []);
  get_unscan_records = λ s. pure (records, some (library []));
  map_order = λ w l. reverse l;
  entry_order = λ w l. l;
  scanning = λ w. true;
  observers = λ w. true ∷ false ∷ [];
  block_extract_data_notify = λ o key entry w. (if o then ok tt else err (library []), w);
  new_block_notify = λ r. pure tt;
}

refuses :
    (h : ℕ) (w : List ℕ)
    → (h == 4) ≡ true
    → get_block_by_height asked_by scanner h true w ≡ (err (library []), w ++ h ∷ [])
unfolding get_block_by_height call
refuses h w e = rw e refl

gives :
    (h : ℕ) (w : List ℕ)
    → (h == 4) ≡ false
    → get_block_by_height asked_by scanner h true w
      ≡ (ok (block_with_transfer (h ∷ [])), w ++ h ∷ [])
unfolding get_block_by_height call checked_reply is_error with_transfers chunks_transfers
gives h w e = rw e refl

asks : Asks asked_by scanner (λ w. Unit {0}) (λ w. w)
unfolding save_unscan_record
asks = record {
  keys_are = λ w ks h. reverse_perm ks;
  asks = λ h w good. elim (Bool-cases (h == 4)) [
    | inl four ↦ rw (refuses h w four) (tt, tt, refl)
    | inr other ↦ rw (gives h w other) (tt, tt, refl)
  ];
  batch = λ l. record {
    notifies = λ o key entry. record { at = λ w h. (h, either o) };
    records = λ r. Keeps-pure tt;
  };
  lists = λ l. Keeps-pure _;
  forgets_height = λ h l. Keeps-raise _;
  forgets_id = λ i l. Keeps-raise _;
}
  where
    either : (o : Bool) → EndsWell {A = Unit {0}} true (if o then ok tt else err (library []))
    either true = tt
    either false = tt

rescan_failed_record_asks_example : Returns (rescan_failed_record asked_by scanner) [] tt (λ w'.
    Unit {0}
    × ((out : List ℕ) × (w' ≡ out)
        × ((h : ℕ) → count h out ≡ (if not (h == 0) && is_recorded h records then 1 else 0))))
rescan_failed_record_asks_example =
    rescan_failed_record_asks asked_by scanner asks records (some (library [])) [] []
      (unfold get_unscan_records in refl) tt
