-- ===== src/Scanner/Notify/Delivered.antt =====
-- What the observers are told of the transfers of a batch.
use mathlib.Core.List.{flat_map, append_assoc, append-nil, Perm}
use mathlib.Core.List.Perm
use near_adapter.Prelude.{ℕ, ◌≡◌, refl, sym, ap, ◌∙◌, true, List, [], ◌∷◌, ◌++◌, map, Text}
use near_adapter.Go.{Result, ok, err, panic}
use near_adapter.Exec.{Returns, pure, resume, ignore, for_each}
use near_adapter.Exec.Keeps.{EndsWell, Keeps, Keeps-ignore, Keeps-Returns}
use near_adapter.Exec.Writes.{Writes, for_each-Writes, Pieces-flat_map, flat_map-Perm}
use near_adapter.Platform.{Platform}
use near_adapter.Config.{NearBlockScanner}
use near_adapter.Model.{TxTransfer}
use near_adapter.Wallet.{TxExtractData, UnscanRecord}
use near_adapter.Db.{save_unscan_record}
use near_adapter.Scanner.Extract.{ExtractData, ExtractResult, extract_transaction}
use near_adapter.Scanner.Extract.Sides.{extract_transaction-success}
use near_adapter.Scanner.Notify.{
  notify_failed, notify_one, notify_observer, new_extract_data_notify, save_result, save_work,
}

module _ (p : Platform) (bs : NearBlockScanner) where
  open p use {World, Observer}

  -- An observer, the account, and what it is told of a transfer.
  abbrev pub Delivery : Type 0
  Delivery = Observer × Text × TxExtractData

  -- A log of what the observers `os` were told, in the worlds of which `P` holds: each call of an
  -- observer, refused or not, is written behind it, and the database does not touch it. In each world
  -- `range` meets each observer and each entry once, in an order of that world.
  pub record Logs (P : World → Type 0) (log : World → List Delivery) (os : List Observer)
      : Type 0 where
    pub observers_are : (w : World) → P w → Perm (p.observers w) os
    pub entries_are : (w : World) (d : ExtractData) → P w → Perm (p.entry_order w d) d
    pub tells :
        (o : Observer) (key : Text) (entry : TxExtractData) (w : World)
        → P w
        → let r = p.block_extract_data_notify o key entry w in
          EndsWell true r.0 × P r.1 × (log r.1 ≡ log w ++ (o, key, entry) ∷ [])
    pub records :
        (r : UnscanRecord) (l : List Delivery)
        → Keeps true (λ w. P w × (log w ≡ l)) (save_unscan_record p bs r)

  -- Each account, each entry of it.
  unfoldable pub deliveries_to : Observer → ExtractData → List Delivery
  deliveries_to o entries = flat_map (λ entry. flat_map (λ e. (o, entry.0, e) ∷ []) entry.1) entries

  -- And each observer.
  unfoldable pub deliveries_of : List Observer → ExtractData → List Delivery
  deliveries_of os entries = flat_map (λ o. deliveries_to o entries) os

  -- And each transfer.
  unfoldable pub deliveries : ℕ → Text → List Observer → List TxTransfer → List Delivery
  deliveries height hash os txs =
      flat_map (λ tx. deliveries_of os (extract_transaction p bs height hash tx).extract_data) txs

  module _ {P : World → Type 0} {log : World → List Delivery} {os : List Observer}
      (v : Logs P log os) where
    notify_one-Writes :
        (height : ℕ) (o : Observer) (key : Text) (entry : TxExtractData)
        → Writes P log (notify_one p bs height o key entry) (λ out. Perm out ((o, key, entry) ∷ []))
    unfolding notify_one
    notify_one-Writes height o key entry w h =
        let told = v.tells o key entry w h in
        let (w', e, (h', l)) =
          after (p.block_extract_data_notify o key entry w).0
            (p.block_extract_data_notify o key entry w).1 told.0 told.1 told.2 in
        (w', e, (h', ((o, key, entry) ∷ [], l, Perm.refl ((o, key, entry) ∷ []))))
      where
        failure : UnscanRecord
        failure = p.new_unscan_record height [] notify_failed bs.wm.config.symbol

        after :
            (r : Result (Unit {0})) (w1 : World)
            → EndsWell true r
            → P w1
            → log w1 ≡ log w ++ (o, key, entry) ∷ []
            → (w' : World) × (resume
                  (λ e. ignore (save_unscan_record p bs failure))
                  (λ _. pure tt)
                  r
                  w1
                ≡ (ok tt, w'))
              × (P w' × (log w' ≡ log w ++ (o, key, entry) ∷ []))
        after (ok a) w1 good h1 l1 = (w1, refl, (h1, l1))
        after (err e) w1 good h1 l1 =
            Keeps-Returns (Keeps-ignore (v.records failure (log w ++ (o, key, entry) ∷ []))) w1
              (h1, l1)
        after panic w1 good h1 l1 = absurd good

    entries_of_one :
        (height : ℕ) (o : Observer) (entry : Text × List TxExtractData)
        → Writes P log
            (for_each entry.1 (notify_one p bs height o entry.0))
            (λ out. Perm out (flat_map (λ e. (o, entry.0, e) ∷ []) entry.1))
    entries_of_one height o (key, array) w h =
        let (w', e, (h', (out, l, pieces))) =
          for_each-Writes P log array (notify_one p bs height o key)
            (notify_one-Writes height o key) w h in
        (w', e, (h', (out, l, Pieces-flat_map (λ e. (o, key, e) ∷ []) pieces)))

    notify_observer-Writes :
        (height : ℕ) (entries : ExtractData) (o : Observer)
        → Writes P log
            (notify_observer p bs height entries o)
            (λ out. Perm out (deliveries_to o entries))
    unfolding notify_observer deliveries_to
    notify_observer-Writes height entries o w h =
        let (w', e, (h', (out, l, pieces))) =
          for_each-Writes P log (p.entry_order w entries)
            (λ (key, array). for_each array (notify_one p bs height o key))
            (entries_of_one height o) w h in
        (
          w',
          e,
          (
            h',
            (
              out,
              l,
              Perm.trans (Pieces-flat_map _ pieces) (flat_map-Perm _ (v.entries_are w entries h)),
            ),
          ),
        )

    new_extract_data_notify-Writes :
        (height : ℕ) (entries : ExtractData)
        → Writes P log
            (new_extract_data_notify p bs height entries)
            (λ out. Perm out (deliveries_of os entries))
    unfolding new_extract_data_notify deliveries_of
    new_extract_data_notify-Writes height entries w h =
        let (w', e, (h', (out, l, pieces))) =
          for_each-Writes P log (p.observers w) (notify_observer p bs height entries)
            (notify_observer-Writes height entries) w h in
        (
          w',
          e,
          (
            h',
            (out, l, Perm.trans (Pieces-flat_map _ pieces) (flat_map-Perm _ (v.observers_are w h))),
          ),
        )

    save_result-Writes :
        (height : ℕ) (gets : ExtractResult)
        → gets.success ≡ true
        → (w : World) → P w
        → Returns (save_result p bs height gets) w 0 (λ w'.
          P w'
          × ((out : List Delivery) × (log w' ≡ log w ++ out)
              × Perm out (deliveries_of os gets.extract_data)))
    unfolding save_result
    save_result-Writes height gets good w h =
        let (w', e, q) = new_extract_data_notify-Writes height gets.extract_data w h in
        (w', rw (good, e) refl, q)

    -- A pass over the results counts no failure and tells all of it.
    pub save_work_delivers :
        (height : ℕ) (hash : Text) (txs : List TxTransfer) (w : World)
        → P w
        → Returns
            (save_work p bs height (map (extract_transaction p bs height hash) txs))
            w
            0
            (λ w'.
              P w'
              × ((out : List Delivery) × (log w' ≡ log w ++ out)
                  × Perm out (deliveries height hash os txs)))
    unfolding save_work deliveries flat_map
    save_work_delivers height hash [] w h =
        (w, refl, (h, ([], sym (append-nil (log w)), Perm.refl [])))
    save_work_delivers height hash (tx ∷ txs) w h =
        let (w1, e1, (h1, (out, l1, o1))) =
          save_result-Writes height (extract_transaction p bs height hash tx)
            (extract_transaction-success p bs height hash tx) w h in
        let (w2, e2, (h2, (outs, l2, o2))) = save_work_delivers height hash txs w1 h1 in
        (
          w2,
          rw e1 (rw e2 refl),
          (
            h2,
            (
              out ++ outs,
              l2 ∙ ap (λ l. l ++ outs) l1 ∙ append_assoc (log w) out outs,
              Perm.append o1 o2,
            ),
          ),
        )
