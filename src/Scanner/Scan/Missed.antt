-- ===== src/Scanner/Scan/Missed.antt =====
-- The loop behind a block that could not be had.
use mathlib.Core.Path.{subst}
use near_adapter.Prelude.{
  ℕ, suc, ◌+◌, ◌^◌, ◌<◌, ◌≡◌, refl, ◌∙◌, true, false, [], ◌++◌, Text, none, leb, arith,
}
use near_adapter.Prelude.Int.{add64}
use near_adapter.Go.{GoError, ok, err}
use near_adapter.Exec.{Returns}
use near_adapter.Exec.Keeps.{Keeps-ignore, Keeps-Returns}
use near_adapter.Platform.{Platform}
use near_adapter.Config.{NearBlockScanner}
use near_adapter.Model.{Block, BlockHeader}
use near_adapter.Node.{get_current_block, get_block_by_height}
use near_adapter.Scanner.Notify.{notify_failed}
use near_adapter.Scanner.Scan.{again, handle_missing, scan_height, scan_round, scan_loop}
use near_adapter.Scanner.Scan.View.{View, Serves, IsChain, place}
use near_adapter.Scanner.Scan.Follow.{scan_loop_again}
use near_adapter.Scanner.Scan.Back.{fork_notices, IsBehind}
use near_adapter.Scanner.Scan.Fork.{Rewinds, stop, back, Recovers, standing, scan_loop-Recovers}

module _ (p : Platform) (bs : NearBlockScanner) {top : ℕ} {block_at : ℕ → Block}
    {Holds : View → p.World → Type 0} (serves : Serves p bs top block_at Holds) where
  open p use {World}

  scan_round-missing :
      {v : View} (k seen : ℕ) (hash : Text) (e : GoError) (w w1 w2 : World)
      → p.scanning w ≡ true
      → get_current_block p bs w ≡ (ok seen, w1)
      → k < seen
      → suc k < 2 ^ 64
      → get_block_by_height p bs (suc k) true w1 ≡ (err e, w2)
      → Holds v w2
      → Returns
          (scan_round p bs (standing p bs k hash))
          w
          (again (standing p bs (suc k) hash))
          (Holds v)
  unfolding scan_round scan_height handle_missing
  scan_round-missing {v} k seen hash e w w1 w2 on current ahead small failed held =
      let record_of = p.new_unscan_record (suc k) [] notify_failed bs.wm.config.symbol in
      let (w3, e3, h3) =
        Keeps-Returns (Keeps-ignore ((serves.keeps_batch v).records record_of)) w2 held in
      (w3, rw (on, current, not_there seen k ahead, next_height k small, failed, e3) refl, h3)
    where
      not_there : (seen k : ℕ) → k < seen → leb seen k ≡ false
      not_there seen k h = ground arith

      next_height : (k : ℕ) → suc k < 2 ^ 64 → add64 k 1 ≡ suc k
      next_height k small = omega arith

  -- The loop stands at the block `k` of the chain (not 0) and the block behind it cannot be had this
  -- once, while the database has no such block. Then it skips the height, takes the next block for a
  -- fork, goes back to `k`, and scans the missed block too: it ends by `break` at `top`, with two
  -- rounds more than the blocks and one, and every block behind `k` is told once, in order, and no
  -- fork. The blocks `k` and `k + 1` have different hashes, and the node has a block behind them.
  pub scan_loop_retries :
      (chain : IsChain p bs block_at) (dai : bs.has_dai ≡ true) (fuel k n seen : ℕ) (v : View)
      (header : BlockHeader) (e : GoError) (w w1 w2 : World)
      → 0 < k
      → k + suc (suc n) ≡ top
      → suc (suc (suc n)) < fuel
      → top < 2 ^ 64
      → ¬ ((block_at k).header.hash ≡ (block_at (suc k)).header.hash)
      → v.local (suc k) ≡ none
      → IsBehind p bs block_at v k header
      → header.height ≡ k
      → header.hash ≡ (block_at k).header.hash
      → p.scanning w ≡ true
      → get_current_block p bs w ≡ (ok seen, w1)
      → k < seen
      → get_block_by_height p bs (suc k) true w1 ≡ (err e, w2)
      → Holds v w2
      → Recovers p bs serves chain dai k
          (suc (suc n))
          []
          v
          (scan_loop p bs (suc fuel) (place p bs block_at k))
          w
  scan_loop_retries chain dai fuel k n seen v header e w w1 w2 positive blocks enough small other
        missing behind height same on current ahead failed held =
      let hash = (block_at k).header.hash in
      let (w3, e3, h3) =
        scan_round-missing k seen hash e w w1 w2 on current ahead (omega arith) failed held in
      let goes_back : Rewinds p bs block_at v (suc k) hash k [] =
        subst (λ o. Rewinds p bs block_at v (suc k) hash k (fork_notices p bs o ++ [])) missing
          (back header positive other behind height (stop same)) in
      let (v1, v2, rewound, scanned, (w4, e4, h4)) =
        scan_loop-Recovers p bs serves chain dai fuel (suc k) k (suc (suc n)) hash [] v w3 goes_back
          (omega arith) blocks (omega arith) small h3 in
      (
        v1,
        v2,
        rewound,
        scanned,
        (
          w4,
          scan_loop_again p bs fuel (place p bs block_at k) (standing p bs (suc k) hash) w w3 e3
              ∙ e4,
          h4,
        ),
      )
