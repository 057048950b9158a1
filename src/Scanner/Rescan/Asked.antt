-- ===== src/Scanner/Rescan/Asked.antt =====
-- Which blocks `RescanFailedRecord` asks the node for.
use mathlib.Core.List.{Perm, Permᴰ, append-nil}
use mathlib.Core.Logic.{∥∥₁_elim}
use native.Mathlib.Nat.{ℕ_set}
use near_adapter.Prelude.{
  ℕ, zero, suc, ◌≡◌, refl, sym, ap, ◌∙◌, true, false, not, ◌&&◌, List, [], ◌∷◌, ◌++◌, ◌==◌, Text,
  Option, if◌then◌else◌, arith,
}
use near_adapter.Go.{GoError, Result, ok, err, panic}
use near_adapter.Exec.{Returns, pure, resume, handle, ignore}
use near_adapter.Exec.Keeps.{
  EndsWell, Keeps, Keeps-pure, Keeps-raise, Keeps-if, Keeps-checked, Keeps-weaken, Keeps-bind,
  Keeps-handle, Keeps-ignore, Keeps-for_each, Keeps-Returns, Returns-Keeps,
}
use near_adapter.Exec.Writes.{Writes, Pieces, no_piece, piece, for_each-Writes}
use near_adapter.Platform.{Platform}
use near_adapter.Config.{NearBlockScanner}
use near_adapter.Model.{Block}
use near_adapter.Wallet.{UnscanRecord}
use near_adapter.Node.{get_block_by_height}
use near_adapter.Db.{delete_unscan_record, get_unscan_records}
use near_adapter.Scanner.Notify.{batch_extract_transaction}
use near_adapter.Scanner.Notify.Batch.{BatchKeeps, batch_returns_nil}
use near_adapter.Scanner.Rescan.{
  has_prefix, not_found_reason, record_heights, rescan_height, delete_not_found,
  delete_unscan_record_not_find_tx, rescan_records, rescan_failed_record,
}
use near_adapter.Scanner.Rescan.Heights.{count, is_recorded, count-record_heights_once}

count-Permᴰ : (h : ℕ) {xs ys : List ℕ} → Permᴰ xs ys → count h xs ≡ count h ys
count-Permᴰ h Permᴰ.nil = refl
count-Permᴰ h (Permᴰ.cons {a = a} {b = b} e q) = rw e (ground (arith, count-Permᴰ h q))
count-Permᴰ h (Permᴰ.swap e e') = rw (e, e') (ground arith)
count-Permᴰ h (Permᴰ.trans q r) = count-Permᴰ h q ∙ count-Permᴰ h r

count-perm : (h : ℕ) {xs ys : List ℕ} → Perm xs ys → count h xs ≡ count h ys
count-perm h q = ∥∥₁_elim q (ℕ_set _ _) (count-Permᴰ h)

not_zero : (n : ℕ) → (suc n == 0) ≡ false
not_zero n = ground arith

-- What is asked for in the round of a height.
abbrev asked_for : ℕ → List ℕ
asked_for h = if h == 0 then [] else h ∷ []

count-asked_for :
    (h x : ℕ) (xs out : List ℕ)
    → count h out ≡ (if h == 0 then 0 else count h xs)
    → count h (asked_for x ++ out) ≡ (if h == 0 then 0 else count h (x ∷ xs))
count-asked_for h zero xs out e = ground (arith, e)
count-asked_for h (suc x) xs out e = ground (arith, e)

count-Pieces :
    (h : ℕ) {xs out : List ℕ}
    → Pieces (λ x out. out ≡ asked_for x) xs out
    → count h out ≡ (if h == 0 then 0 else count h xs)
count-Pieces h no_piece = ground arith
count-Pieces h (piece x {xs} {out} {outs} e r) =
    ap (λ o. count h (o ++ outs)) e ∙ count-asked_for h x xs outs (count-Pieces h r)

module _ (p : Platform) (bs : NearBlockScanner) where
  open p use {World}

  -- A log of the heights whose blocks the node was asked for, in the worlds of which `P` holds: a
  -- request, refused or not, is written behind it, and no other call of a rescan touches it. `range`
  -- meets each key of a map once.
  pub record Asks (P : World → Type 0) (log : World → List ℕ) : Type 0 where
    pub keys_are : (w : World) (ks : List ℕ) → P w → Perm (p.map_order w ks) ks
    pub asks :
        (h : ℕ) (w : World)
        → P w
        → let r = get_block_by_height p bs h true w in
          EndsWell true r.0 × P r.1 × (log r.1 ≡ log w ++ h ∷ [])
    pub batch : (l : List ℕ) → BatchKeeps p bs (λ w. P w × (log w ≡ l))
    pub lists :
        (l : List ℕ)
        → Keeps false (λ w. P w × (log w ≡ l)) (p.get_unscan_records bs.wm.config.symbol)
    pub forgets_height :
        (h : ℕ) (l : List ℕ)
        → Keeps true
            (λ w. P w × (log w ≡ l))
            (p.delete_unscan_record_by_height h bs.wm.config.symbol)
    pub forgets_id :
        (i : Text) (l : List ℕ)
        → Keeps true (λ w. P w × (log w ≡ l)) (p.delete_unscan_record_by_id i bs.wm.config.symbol)

  module _ {P : World → Type 0} {log : World → List ℕ} (v : Asks P log) where
    scanned-Keeps :
        (h : ℕ) (block : Block) (l : List ℕ)
        → Keeps false
            (λ w. P w × (log w ≡ l))
            (handle
              (batch_extract_transaction p bs block.header.height block.header.hash
                block.tx_transfer)
              (λ e. pure tt)
              (λ _. ignore (delete_unscan_record p bs h)))
    unfolding delete_unscan_record
    scanned-Keeps h block l =
        Keeps-handle (Keeps-weaken (Returns-Keeps (batch_returns_nil p bs (v.batch l) _ _ _)))
          (λ e. Keeps-pure tt)
          (λ _. Keeps-ignore (Keeps-if bs.has_dai (v.forgets_height h l) (Keeps-raise _)))

    rescan_height-Writes : (h : ℕ) → Writes P log (rescan_height p bs h) (λ out. out ≡ asked_for h)
    unfolding rescan_height
    rescan_height-Writes zero w good = (w, refl, (good, ([], sym (append-nil (log w)), refl)))
    rescan_height-Writes (suc h) w good =
        let told = v.asks (suc h) w good in
        let (w', e, (good', l)) =
          after (get_block_by_height p bs (suc h) true w).0
            (get_block_by_height p bs (suc h) true w).1 told.0 told.1 told.2 in
        (w', rw (not_zero h) e, (good', (suc h ∷ [], l, rw (not_zero h) refl)))
      where
        after :
            (r : Result Block) (w1 : World)
            → EndsWell true r
            → P w1
            → log w1 ≡ log w ++ suc h ∷ []
            → (w' : World) × (resume
                  (λ e. pure tt)
                  (λ block.
                    handle
                      (batch_extract_transaction p bs block.header.height block.header.hash
                        block.tx_transfer)
                      (λ e. pure tt)
                      (λ _. ignore (delete_unscan_record p bs (suc h))))
                  r
                  w1
                ≡ (ok tt, w'))
              × (P w' × (log w' ≡ log w ++ suc h ∷ []))
        after (ok block) w1 well good1 l1 =
            Keeps-Returns (scanned-Keeps (suc h) block (log w ++ suc h ∷ [])) w1 (good1, l1)
        after (err e) w1 well good1 l1 = (w1, refl, (good1, l1))
        after panic w1 well good1 l1 = absurd well

    delete_not_found-Keeps :
        (l : List ℕ) (records : List UnscanRecord)
        → Keeps true (λ w. P w × (log w ≡ l)) (delete_not_found p bs records)
    unfolding delete_not_found
    delete_not_found-Keeps l records = Keeps-for_each records _ (λ r.
        Keeps-if (has_prefix r.reason not_found_reason) (Keeps-ignore (v.forgets_id r.id l))
          (Keeps-pure tt))

    delete_unscan_record_not_find_tx-Keeps :
        (l : List ℕ) → Keeps true (λ w. P w × (log w ≡ l)) (delete_unscan_record_not_find_tx p bs)
    unfolding delete_unscan_record_not_find_tx
    delete_unscan_record_not_find_tx-Keeps l =
        Keeps-if bs.has_dai
          (Keeps-bind (Keeps-weaken (v.lists l))
            (λ (list, e). Keeps-bind (Keeps-checked list e) (delete_not_found-Keeps l)))
          (Keeps-raise _)

    rescan_records_asks :
        (rs : List UnscanRecord) (w : World)
        → P w
        → Returns (rescan_records p bs rs) w tt (λ w'.
          P w'
          × ((out : List ℕ) × (log w' ≡ log w ++ out)
              × ((h : ℕ) → count h out ≡ (if not (h == 0) && is_recorded h rs then 1 else 0))))
    unfolding rescan_records
    rescan_records_asks rs w good =
        let (w1, e1, (good1, (out, l1, pieces))) =
          for_each-Writes P log (p.map_order w (record_heights rs [])) (rescan_height p bs)
            rescan_height-Writes w good in
        let (w2, e2, (good2, l2)) =
          Keeps-Returns (Keeps-ignore (delete_unscan_record_not_find_tx-Keeps (log w1))) w1
            (good1, refl) in
        (
          w2,
          rw e1 e2,
          (
            good2,
            (
              out,
              l2 ∙ l1,
              λ h. ground (
                arith,
                count-Pieces h pieces,
                count-perm h (v.keys_are w (record_heights rs []) good),
                count-record_heights_once h rs,
              ),
            ),
          ),
        )

    -- RescanFailedRecord returns, and with the list that the database gave, also beside an error, it
    -- asks the node for the block of each height once that some record names, height 0 aside, and for
    -- no other block; also where such requests, deletions or observers fail. `range` may meet the
    -- heights in any order. No call panics.
    pub rescan_failed_record_asks :
        (rs : List UnscanRecord) (e : Option GoError) (w w1 : World)
        → get_unscan_records p bs w ≡ (ok (rs, e), w1)
        → P w1
        → Returns (rescan_failed_record p bs) w tt (λ w'.
          P w'
          × ((out : List ℕ) × (log w' ≡ log w1 ++ out)
              × ((h : ℕ) → count h out ≡ (if not (h == 0) && is_recorded h rs then 1 else 0))))
    unfolding rescan_failed_record
    rescan_failed_record_asks rs e w w1 listed good =
        let (w2, e2, told) = rescan_records_asks rs w1 good in (w2, rw listed e2, told)
