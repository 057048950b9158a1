-- ===== src/Scanner/Scan/Restart.antt =====
-- Where the scan starts after `SetRescanBlockHeight`.
use near_adapter.Prelude.{ℕ, suc, ◌^◌, ◌<◌, ◌≡◌, refl, true, false, [], Text, arith, ◌==◌}
use near_adapter.Prelude.Int.{sub64}
use near_adapter.Go.{ok}
use near_adapter.Exec.{Exec, pure, ◌>>=◌, ◌>>◌}
use near_adapter.Platform.{Platform}
use near_adapter.Config.{NearBlockScanner}
use near_adapter.Model.{Block}
use near_adapter.Wallet.{HeadRecord}
use near_adapter.Node.{get_current_block, get_block_by_height}
use near_adapter.Db.{save_local_new_block, get_local_new_block}
use near_adapter.Scanner.Scan.{Position, get_scanned_block_header, set_rescan_block_height}

module _ (p : Platform) (bs : NearBlockScanner) where
  open p use {World}

  abbrev head_of : ℕ → Text → HeadRecord
  head_of height hash = record {
    hash = hash;
    previous_block_hash = [];
    height = height;
    fork = false;
    time = 0;
    symbol = bs.wm.config.symbol;
  }

  -- The database gives back the height and the hash of the head that was saved last.
  pub record KeepsHead : Type 0 where
    pub back :
        (r : HeadRecord) (w : World)
        → (w1 : World) × (w2 : World) × (h : HeadRecord) × (p.save_current_block_head r w
            ≡ (ok tt, w1))
          × (p.get_current_block_head bs.wm.config.symbol w1 ≡ (ok h, w2))
          × (h.height ≡ r.height)
          × (h.hash ≡ r.hash)

  -- The start that a database without a head leads to: the block in front of the node's current one.
  pub at_tip : Exec World Position
  at_tip = do
    current ← get_current_block p bs
    block ← get_block_by_height p bs (sub64 current 1) false
    pure (record { height = sub64 current 1; hash = block.header.hash })

  -- With a database that gives back the height and the hash of the head saved last, and a node that
  -- gives the block in front of the height (a uint64 greater than 0): if the height is not 1, the next scan starts behind that
  -- block. For height 1 the saved head is block 0, which counts as no head, and the next scan starts
  -- at the node's current block and not at block 1.
  pub set_rescan_block_height-get_scanned_block_header :
      (keeps : KeepsHead) (dai : bs.has_dai ≡ true) (n : ℕ) (block : Block) (w w1 : World)
      → suc n < 2 ^ 64
      → get_block_by_height p bs n false w ≡ (ok block, w1)
      → (w2 : World) × (0 < n
          → (set_rescan_block_height p bs (suc n) >> get_scanned_block_header p bs) w
            ≡ (ok (record { height = n; hash = block.header.hash }), w2))
        × (n ≡ 0
            → (set_rescan_block_height p bs (suc n) >> get_scanned_block_header p bs) w ≡ at_tip w2)
  unfolding set_rescan_block_height get_scanned_block_header save_local_new_block
      get_local_new_block at_tip
  set_rescan_block_height-get_scanned_block_header keeps dai n block w w1 small fetched =
      let (w2, w3, h, saved, given, height, hash) = keeps.back (head_of n block.header.hash) w1 in
      (
        w3,
        λ positive.
            rw (before n small, fetched, dai, saved, given, height, hash, not_zero n positive) refl,
        λ none. rw (before n small, fetched, dai, saved, given, height, is_zero n none) refl,
      )
    where
      before : (n : ℕ) → suc n < 2 ^ 64 → sub64 (suc n) 1 ≡ n
      before n h = omega arith

      not_zero : (n : ℕ) → 0 < n → (n == 0) ≡ false
      not_zero n h = ground arith

      is_zero : (n : ℕ) → n ≡ 0 → (n == 0) ≡ true
      is_zero n h = ground arith
