-- ===== src/Scanner/Notify/Batch.antt =====
-- What `BatchExtractTransaction` does to the world and to its caller.
use near_adapter.Prelude.{ℕ, ◌≡◌, refl, true, false, List, [], ◌∷◌, map, Text}
use near_adapter.Go.{ok}
use near_adapter.Exec.Keeps.{
  Keeps, Keeps-pure, Keeps-handle, Keeps-ignore, Keeps-for_each, Keeps-Returns,
}
use near_adapter.Platform.{Platform}
use near_adapter.Config.{NearBlockScanner}
use near_adapter.Model.{TxTransfer}
use near_adapter.Wallet.{TxExtractData, UnscanRecord}
use near_adapter.Db.{save_unscan_record}
use near_adapter.Scanner.Extract.{ExtractData, ExtractResult, extract_transaction}
use near_adapter.Scanner.Extract.Sides.{extract_transaction-success}
use near_adapter.Scanner.Notify.{
  notify_one, notify_observer, new_extract_data_notify, save_result, save_work,
  batch_extract_transaction, batch_result,
}

module _ (p : Platform) (bs : NearBlockScanner) where
  open p use {World, Observer}

  -- The two calls out that a batch makes keep `P`: an observer's and the database's.
  pub record BatchKeeps (P : World → Type 0) : Type 0 where
    pub notifies :
        (o : Observer) (key : Text) (entry : TxExtractData)
        → Keeps true P (p.block_extract_data_notify o key entry)
    pub records : (r : UnscanRecord) → Keeps true P (save_unscan_record p bs r)

  module _ {P : World → Type 0} (k : BatchKeeps P) where
    notify_one-Keeps :
        (height : ℕ) (o : Observer) (key : Text) (entry : TxExtractData)
        → Keeps false P (notify_one p bs height o key entry)
    unfolding notify_one
    notify_one-Keeps height o key entry =
        Keeps-handle (k.notifies o key entry) (λ e. Keeps-ignore (k.records _)) (λ _. Keeps-pure tt)

    notify_observer-Keeps :
        (height : ℕ) (entries : ExtractData) (o : Observer)
        → Keeps false P (notify_observer p bs height entries o)
    unfolding notify_observer
    notify_observer-Keeps height entries o = record {
      at = λ w.
          (Keeps-for_each (p.entry_order w entries) _
              (λ (key, array). Keeps-for_each array _ (notify_one-Keeps height o key))).at
            w;
    }

    pub new_extract_data_notify-Keeps :
        (height : ℕ) (entries : ExtractData)
        → Keeps false P (new_extract_data_notify p bs height entries)
    unfolding new_extract_data_notify
    new_extract_data_notify-Keeps height entries = record {
      at = λ w h. (Keeps-for_each (p.observers w) _ (notify_observer-Keeps height entries)).at w h;
    }

    pub save_result_none :
        (height : ℕ) (gets : ExtractResult)
        → gets.success ≡ true
        → (w : World) → P w
        → (w' : World) × (save_result p bs height gets w ≡ (ok 0, w')) × P w'
    unfolding save_result
    save_result_none height gets good w h =
        let (w', e, h') =
          Keeps-Returns (new_extract_data_notify-Keeps height gets.extract_data) w h in
        (w', rw (good, e) refl, h')

    -- Of extracted transfers, `saveWork` counts no failure.
    save_work_none :
        (height : ℕ) (hash : Text) (txs : List TxTransfer) (w : World)
        → P w
        → (w' : World) × (save_work p bs height (map (extract_transaction p bs height hash) txs) w
            ≡ (ok 0, w'))
          × P w'
    unfolding save_work save_result
    save_work_none height hash [] w h = (w, refl, h)
    save_work_none height hash (tx ∷ txs) w h =
        let (w', e, h') =
          save_result_none height (extract_transaction p bs height hash tx)
            (extract_transaction-success p bs height hash tx) w h in
        let (w'', e', h'') = save_work_none height hash txs w' h' in (w'', rw e (rw e' refl), h'')

    -- Where the observers and the database keep `P` and do not panic, so does a batch, and it
    -- returns no error, also where observers refused what they were told.
    pub batch_returns_nil :
        (height : ℕ) (hash : Text) (txs : List TxTransfer) (w : World)
        → P w
        → (w' : World) × (batch_extract_transaction p bs height hash txs w ≡ (ok tt, w')) × P w'
    unfolding batch_extract_transaction batch_result
    batch_returns_nil height hash [] w h = (w, refl, h)
    batch_returns_nil height hash (tx ∷ txs) w h =
        let (w', e, h') = save_work_none height hash (p.arrival (tx ∷ txs)) w h in
        (w', rw e refl, h')
