-- ===== src/Scanner/Scan/Follow.antt =====
-- The loop on a chain that only grows.
use mathlib.Core.List.{append-nil, append_assoc}
use near_adapter.Prelude.{
  ℕ, zero, suc, ◌+◌, ◌^◌, ◌<◌, ◌≤◌, ◌≡◌, refl, sym, ap, ◌∙◌, true, false, [], text_eq, text_eq_iff,
  some, leb, ==_of_eq, ==_of_lt, arith, ◌⊎◌, inl, inr,
}
use near_adapter.Prelude.Int.{add64}
use near_adapter.Go.{ok}
use near_adapter.Exec.{Returns}
use near_adapter.Platform.{Platform}
use near_adapter.Config.{NearBlockScanner}
use near_adapter.Model.{Block}
use near_adapter.Db.{save_local_new_block, save_local_block}
use near_adapter.Scanner.Notify.{new_block_notify}
use near_adapter.Scanner.Notify.Batch.{batch_returns_nil}
use near_adapter.Scanner.Scan.{
  Position, again, leave, broke, handle_block, scan_height, scan_round, scan_loop, scan_next,
}
use near_adapter.Scanner.Scan.View.{
  View, with_head, with_local, with_told, Serves, IsChain, Scanned, stored, notice, notices, place,
}

next_or_later : (h k : ℕ) → k < h → (h ≡ suc k) ⊎ (suc k < h)
next_or_later h k l = ground arith

module _ (p : Platform) (bs : NearBlockScanner) where
  open p use {World}

  pub scan_loop_again :
      (fuel : ℕ) (pos pos' : Position) (w w' : World)
      → scan_round p bs pos w ≡ (ok (again pos'), w')
      → scan_loop p bs (suc fuel) pos w ≡ scan_loop p bs fuel pos' w'
  unfolding scan_loop scan_next
  scan_loop_again fuel pos pos' w w' e = rw e refl

  scan_loop_leave :
      (fuel : ℕ) (pos pos' : Position) (w w' : World)
      → scan_round p bs pos w ≡ (ok (leave pos'), w')
      → scan_loop p bs (suc fuel) pos w ≡ (ok (broke pos'), w')
  unfolding scan_loop scan_next
  scan_loop_leave fuel pos pos' w w' e = rw e refl

  -- The view after the scan of the block `b` at the height `h`.
  abbrev after_block : ℕ → Block → View → View
  after_block h b v =
      let r = notice p bs b.header in
      with_told (with_local (with_head v (stored p bs h b.header.hash [])) r) r

  module _ {block_at : ℕ → Block} (chain : IsChain p bs block_at) where
    Scanned-none : (k : ℕ) (v : View) → Scanned p bs block_at k 0 v v
    unfolding notices
    Scanned-none k v = record {
      told_is = sym (append-nil v.told);
      head_is = λ h. absurd (omega arith);
      same_head = λ h. refl;
      stored_is = λ h a b. absurd (omega arith);
      older_is = λ h a. refl;
    }

    Scanned-next :
        (k n : ℕ) (v v' : View)
        → Scanned p bs block_at (suc k) n (after_block (suc k) (block_at (suc k)) v) v'
        → Scanned p bs block_at k (suc n) v v'
    unfolding notices
    Scanned-next k n v v' s = record {
      told_is = s.told_is ∙ append_assoc v.told _ _;
      head_is = λ _. last n s;
      same_head = λ e. absurd (omega arith);
      stored_is = λ h above up_to. elim (next_or_later h k above) [
        | inl next ↦
            s.older_is h (omega arith)
            ∙ rw
                (==_of_eq h (block_at (suc k)).header.height (next ∙ sym (chain.height_is (suc k))))
                (ap (λ i. some (notice p bs (block_at i).header)) (sym next))
        | inr later ↦ s.stored_is h later (omega arith)
      ];
      older_is = λ h below.
          s.older_is h (omega arith)
          ∙ rw (chain.height_is (suc k), ==_of_lt h (suc k) (omega arith)) refl;
    }
      where
        last :
            (n : ℕ)
            → Scanned p bs block_at (suc k) n (after_block (suc k) (block_at (suc k)) v) v'
            → v'.head ≡ (k + suc n, (block_at (k + suc n)).header.hash)
        last zero s = s.same_head refl ∙ ap (λ h. (h, (block_at h).header.hash)) (omega arith)
        last (suc n) s =
            s.head_is (omega arith) ∙ ap (λ h. (h, (block_at h).header.hash)) (omega arith)

  module _ {top : ℕ} {block_at : ℕ → Block} {Holds : View → World → Type 0}
      (serves : Serves p bs top block_at Holds) (chain : IsChain p bs block_at)
      (dai : bs.has_dai ≡ true) where
    handle_block_follows :
        {v : View} (h : ℕ) (w : World)
        → Holds v w
        → Returns
            (handle_block p bs h (block_at h))
            w
            (again (place p bs block_at h))
            (Holds (after_block h (block_at h) v))
    unfolding handle_block save_local_new_block save_local_block new_block_notify
    handle_block_follows {v} h w held =
        let b = block_at h in
        let (w1, e1, h1) =
          batch_returns_nil p bs (serves.keeps_batch v) b.header.height b.header.hash b.tx_transfer
            w held in
        let (w2, e2, h2) = serves.saves_head w1 (stored p bs h b.header.hash []) h1 in
        let (w3, e3, h3) = serves.saves_block w2 (notice p bs b.header) h2 in
        let (w4, e4, h4) = serves.tells w3 (notice p bs b.header) h3 in
        (w4, rw (e1, dai, e2, e3, e4) refl, h4)

    scan_height_follows :
        {v : View} (k : ℕ) (w : World)
        → suc k ≤ top
        → Holds v w
        → Returns
            (scan_height p bs (suc k) (block_at k).header.hash)
            w
            (again (place p bs block_at (suc k)))
            (Holds (after_block (suc k) (block_at (suc k)) v))
    unfolding scan_height
    scan_height_follows k w h held =
        let (w1, e1, h1) = serves.fetch w (suc k) h held in
        let (w2, e2, h2) = handle_block_follows (suc k) w1 h1 in (w2, rw (e1, same_hash k) e2, h2)
      where
        same_hash :
            (k : ℕ) → text_eq (block_at k).header.hash (block_at (suc k)).header.prev_hash ≡ true
        same_hash k = (text_eq_iff _ _).1 (sym (chain.linked k))

    scan_round_follows :
        {v : View} (k : ℕ) (w : World)
        → suc k ≤ top
        → top < 2 ^ 64
        → Holds v w
        → Returns
            (scan_round p bs (place p bs block_at k))
            w
            (again (place p bs block_at (suc k)))
            (Holds (after_block (suc k) (block_at (suc k)) v))
    unfolding scan_round
    scan_round_follows k w h small held =
        let (w1, e1, h1) = serves.current w held in
        let (w2, e2, h2) = scan_height_follows k w1 h h1 in
        (w2, rw (serves.scans w held, e1, not_there top k h, next_height k top h small) e2, h2)
      where
        not_there : (top k : ℕ) → suc k ≤ top → leb top k ≡ false
        not_there top k h = ground arith

        next_height : (k top : ℕ) → suc k ≤ top → top < 2 ^ 64 → add64 k 1 ≡ suc k
        next_height k top h small = omega arith

    scan_round_stops :
        {v : View} (w : World)
        → Holds v w
        → Returns
            (scan_round p bs (place p bs block_at top))
            w
            (leave (place p bs block_at top))
            (Holds v)
    unfolding scan_round
    scan_round_stops w held =
        let (w1, e1, h1) = serves.current w held in
        (w1, rw (serves.scans w held, e1, there top) refl, h1)
      where
        there : (top : ℕ) → leb top top ≡ true
        there top = ground arith

    -- On a node that serves a linked chain up to `top` (a uint64), from the block `k` on, the loop
    -- ends with the fuel of one round for each of the `n` blocks that are left and one more. It ends
    -- by `break` at `top` with the hash of that block. Then the database's head is `top`, if there
    -- was a block to scan, it has each block behind `k`, and the observers were told each of them
    -- once, in order, and no fork.
    pub scan_loop_follows :
        (fuel k n : ℕ) (v : View) (w : World)
        → k + n ≡ top
        → n < fuel
        → top < 2 ^ 64
        → Holds v w
        → (v' : View) × Scanned p bs block_at k n v v'
          × Returns
              (scan_loop p bs fuel (place p bs block_at k))
              w
              (broke (place p bs block_at top))
              (Holds v')
    scan_loop_follows zero k n v w e hf small held = absurd (omega arith)
    scan_loop_follows (suc fuel) k zero v w e hf small held =
        let (w1, e1, h1) = scan_round_stops w held in
        (
          v,
          Scanned-none chain k v,
          (
            w1,
            rw (k_is_top k e)
                (scan_loop_leave fuel (place p bs block_at top) (place p bs block_at top) w w1 e1),
            h1,
          ),
        )
      where
        k_is_top : (k : ℕ) → k + 0 ≡ top → k ≡ top
        k_is_top k e = omega arith
    scan_loop_follows (suc fuel) k (suc n) v w e hf small held =
        let (w1, e1, h1) = scan_round_follows k w (omega arith) small held in
        let (v', s, (w2, e2, h2)) =
          scan_loop_follows fuel (suc k) n (after_block (suc k) (block_at (suc k)) v) w1
            (omega arith) (omega arith) small h1 in
        (
          v',
          Scanned-next chain k n v v' s,
          (
            w2,
            scan_loop_again fuel (place p bs block_at k) (place p bs block_at (suc k)) w w1 e1 ∙ e2,
            h2,
          ),
        )
