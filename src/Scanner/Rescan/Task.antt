-- ===== src/Scanner/Rescan/Task.antt =====
-- `ScanBlockTask` as a whole: where it starts, its loop, and what it scans again.
use near_adapter.Prelude.{
  ℕ, suc, ◌+◌, ◌^◌, ◌<◌, ◌≡◌, refl, ap, ◌∙◌, true, false, List, Text, ◌==◌, arith,
}
use near_adapter.Prelude.Int.{sub64}
use near_adapter.Go.{ok}
use near_adapter.Exec.{Returns}
use near_adapter.Exec.Keeps.{Keeps-Returns}
use near_adapter.Platform.{Platform}
use near_adapter.Config.{NearBlockScanner}
use near_adapter.Model.{Block}
use near_adapter.Wallet.{HeadRecord}
use near_adapter.Db.{get_local_new_block}
use near_adapter.Scanner.Scan.{Position, broke, scan_loop, get_scanned_block_header}
use near_adapter.Scanner.Scan.View.{View, Serves, IsChain, Scanned, place}
use near_adapter.Scanner.Scan.Follow.{scan_loop_follows}
use near_adapter.Scanner.Scan.Fork.{Rewinds, Recovers, standing, scan_loop-Recovers}
use near_adapter.Scanner.Rescan.{scan_block_task, finish_task}
use near_adapter.Scanner.Rescan.Quiet.{RescanKeeps, after_loop-Keeps}

module _ (p : Platform) (bs : NearBlockScanner) where
  open p use {World}

  module _ {top : ℕ} {block_at : ℕ → Block} {Holds : View → World → Type 0}
      (serves : Serves p bs top block_at Holds) (chain : IsChain p bs block_at)
      (dai : bs.has_dai ≡ true) (rescans : (v : View) → RescanKeeps p bs (Holds v)) where
    local_new_block :
        {v : View} (x : ℕ × Text) (w : World)
        → v.head ≡ x
        → Holds v w
        → Returns (get_local_new_block p bs) w x (Holds v)
    unfolding get_local_new_block
    local_new_block x w head held =
        let (r, same, (w1, e1, h1)) = serves.gives_head w held in
        (w1, rw (dai, e1) (ap (λ y. (ok y, w1)) (same ∙ head)), h1)

    starts_at_head :
        {v : View} (h : ℕ) (hash : Text) (w : World)
        → v.head ≡ (suc h, hash)
        → Holds v w
        → Returns (get_scanned_block_header p bs) w (standing p bs (suc h) hash) (Holds v)
    unfolding get_scanned_block_header
    starts_at_head h hash w head held =
        let (w1, e1, h1) = local_new_block (suc h, hash) w head held in
        (w1, rw (e1, not_zero h) refl, h1)
      where
        not_zero : (h : ℕ) → (suc h == 0) ≡ false
        not_zero h = ground arith

    starts_at_tip :
        {v : View} (t : ℕ) (hash : Text) (w : World)
        → v.head ≡ (0, hash)
        → top ≡ suc t
        → top < 2 ^ 64
        → Holds v w
        → Returns (get_scanned_block_header p bs) w (place p bs block_at t) (Holds v)
    unfolding get_scanned_block_header
    starts_at_tip t hash w head at_top small held =
        let (w1, e1, h1) = local_new_block (0, hash) w head held in
        let (w2, e2, h2) = serves.current w1 h1 in
        let (b, same', (w3, e3, h3)) = serves.fetch_bare w2 t (omega arith) h2 in
        (
          w3,
          rw (e1, e2, before t top at_top small, e3)
              (ap (λ x. (ok (standing p bs t x.hash), w3)) same'),
          h3,
        )
      where
        before : (t top : ℕ) → top ≡ suc t → top < 2 ^ 64 → sub64 top 1 ≡ t
        before t top e small = omega arith

    task_ends :
        {v : View} (fuel : ℕ) (pos : Position) (w w1 w2 : World)
        → get_scanned_block_header p bs w ≡ (ok pos, w1)
        → scan_loop p bs fuel pos w1 ≡ (ok (broke (place p bs block_at top)), w2)
        → Holds v w2
        → Returns (scan_block_task p bs fuel) w (broke (place p bs block_at top)) (Holds v)
    unfolding scan_block_task finish_task
    task_ends {v} fuel pos w w1 w2 starts loops held =
        let (w3, e3, h3) = Keeps-Returns (after_loop-Keeps p bs (rescans v) top) w2 held in
        (w3, rw (starts, loops, e3) refl, h3)

    -- The database's head is a block below `top` (not block 0), from which the database, or the node
    -- where it has no block, leads back to the block `k` of the chain that the node serves. Then
    -- `ScanBlockTask` returns, with the fuel of one round for each block back, one for each of the `n`
    -- blocks behind `k`, and one more. It tells a fork for each replaced block, the last one first, and
    -- each block behind `k` once, in order, and leaves the head at `top` and the chain's blocks behind
    -- `k` in the database; what it scans again afterwards, where calls may fail, changes none of that.
    pub scan_block_task_catches_up :
        (fuel h k n : ℕ) (hash : Text) (ns : List HeadRecord) (v : View) (w : World)
        → v.head ≡ (suc h, hash)
        → Rewinds p bs block_at v (suc h) hash k ns
        → suc h < top
        → k + n ≡ top
        → suc h + n < k + fuel
        → top < 2 ^ 64
        → Holds v w
        → Recovers p bs serves chain dai k n ns v (scan_block_task p bs fuel) w
    scan_block_task_catches_up fuel h k n hash ns v w head goes_back below blocks enough small
          held =
        let (w1, e1, h1) = starts_at_head h hash w head held in
        let (v1, v2, rewound, scanned, (w2, e2, h2)) =
          scan_loop-Recovers p bs serves chain dai fuel (suc h) k n hash ns v w1 goes_back below
            blocks enough small h1 in
        (v1, v2, rewound, scanned, task_ends fuel (standing p bs (suc h) hash) w w1 w2 e1 e2 h2)

    -- With the head 0 in the database, `ScanBlockTask` scans the node's current block `top` alone,
    -- tells it, and leaves it as the head.
    pub scan_block_task_starts :
        (fuel t : ℕ) (hash : Text) (v : View) (w : World)
        → v.head ≡ (0, hash)
        → top ≡ suc t
        → 1 < fuel
        → top < 2 ^ 64
        → Holds v w
        → (v' : View) × Scanned p bs block_at t 1 v v'
          × Returns (scan_block_task p bs fuel) w (broke (place p bs block_at top)) (Holds v')
    scan_block_task_starts fuel t hash v w head at_top enough small held =
        let (w1, e1, h1) = starts_at_tip t hash w head at_top small held in
        let (v', scanned, (w2, e2, h2)) =
          scan_loop_follows p bs serves chain dai fuel t 1 v w1 (omega arith) enough small h1 in
        (v', scanned, task_ends fuel (place p bs block_at t) w w1 w2 e1 e2 h2)
