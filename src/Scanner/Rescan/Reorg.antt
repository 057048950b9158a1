-- ===== src/Scanner/Rescan/Reorg.antt =====
-- Two runs of `ScanBlockTask`, between which the chain replaced blocks that the first one scanned.
use mathlib.Core.Path.{subst}
use near_adapter.Prelude.{
  ℕ, zero, suc, ◌+◌, ◌^◌, ◌<◌, ◌≤◌, ◌≡◌, refl, sym, ap, ◌∙◌, true, List, [], ◌∷◌, ◌++◌, Text, some,
  arith, inl,
}
use near_adapter.Go.{ok}
use near_adapter.Exec.{Exec, Returns, ◌>>◌}
use near_adapter.Platform.{Platform}
use near_adapter.Config.{NearBlockScanner}
use near_adapter.Model.{Block, bare_header}
use near_adapter.Wallet.{HeadRecord}
use near_adapter.Scanner.Scan.{broke}
use near_adapter.Scanner.Scan.View.{View, Serves, IsChain, Scanned, place, notice, notices}
use near_adapter.Scanner.Scan.Back.{fork_notice, fork_notices}
use near_adapter.Scanner.Scan.Fork.{Rewinds, stop, back}
use near_adapter.Scanner.Rescan.{scan_block_task}
use near_adapter.Scanner.Rescan.Quiet.{RescanKeeps}
use near_adapter.Scanner.Rescan.Task.{scan_block_task_catches_up}

module _ (p : Platform) (bs : NearBlockScanner) where
  open p use {World}

  -- The forks that are told of the `d` blocks from `h` down, the highest one first.
  pub replaced : (ℕ → Block) → ℕ → ℕ → List HeadRecord
  replaced block_at zero h = []
  replaced block_at (suc d) zero = []
  replaced block_at (suc d) (suc h) =
      fork_notice p bs (notice p bs (block_at (suc h)).header) ∷ replaced block_at d h

  -- Something that happens to the world between two calls.
  abbrev pub meanwhile : (World → World) → Exec World (Unit {0})
  meanwhile change w = (ok tt, change w)

  -- Two chains have the same block at `j`, and others at the heights behind it up to `top`.
  pub record PartsAt (before after : ℕ → Block) (j top : ℕ) : Type 0 where
    pub common : (before j).header.hash ≡ (after j).header.hash
    pub others : (h : ℕ) → j < h → h ≤ top → ¬ ((before h).header.hash ≡ (after h).header.hash)

  -- From the scanned blocks of one chain the scan goes back to where another one parts from it.
  Scanned-Rewinds :
      {before after : ℕ → Block} {k n j : ℕ} {v v' : View} (d h : ℕ)
      → IsChain p bs before
      → Scanned p bs before k n v v'
      → PartsAt before after j (k + n)
      → k < j
      → j + d ≡ h
      → h ≤ k + n
      → Rewinds p bs after v' h (before h).header.hash j (replaced before d h)
  unfolding replaced
  Scanned-Rewinds {before} {after} {j = j} {v' = v'} zero h chain scanned parts above at_h within =
      subst (λ i. Rewinds p bs after v' i (before i).header.hash j []) (omega arith)
        (stop parts.common)
  Scanned-Rewinds (suc d) zero chain scanned parts above at_h within = absurd (omega arith)
  Scanned-Rewinds {before} {after} {j = j} {v' = v'} (suc d) (suc h) chain scanned parts above at_h
        within =
      let b = (before h).header in
      subst
        (λ o.
          Rewinds p bs after v' (suc h) (before (suc h)).header.hash j
            (fork_notices p bs o ++ replaced before d h))
        (scanned.stored_is (suc h) (omega arith) within)
        (back (bare_header b.hash b.height b.prev_hash) (omega arith)
          (parts.others (suc h) (omega arith) within)
          (inl (notice p bs b, scanned.stored_is h (omega arith) (omega arith), refl))
          (chain.height_is h)
          (Scanned-Rewinds d h chain scanned parts above (omega arith) (omega arith)))

  -- The view that is left of a scan up to `top`, with `told` told, and the blocks behind `j` stored.
  pub record Leaves (block_at : ℕ → Block) (j top : ℕ) (told : List HeadRecord) (v : View)
      : Type 0 where
    pub told_is : v.told ≡ told
    pub head_is : v.head ≡ (top, (block_at top).header.hash)
    pub stored_is : (h : ℕ) → j < h → h ≤ top → v.local h ≡ some (notice p bs (block_at h).header)

  module _ {t top : ℕ} {before after : ℕ → Block} {Holds Holds' : View → World → Type 0}
      (serves : Serves p bs (suc t) before Holds) (serves' : Serves p bs top after Holds')
      (chain : IsChain p bs before) (chain' : IsChain p bs after) (dai : bs.has_dai ≡ true)
      (rescans : (v : View) → RescanKeeps p bs (Holds v))
      (rescans' : (v : View) → RescanKeeps p bs (Holds' v)) (change : World → World)
      (changes : (v : View) (w : World) → Holds v w → Holds' v (change w)) where
    -- A first `ScanBlockTask` starts at a head in the database (not block 0, and below the top) from
    -- which the database, or the node where it has no block, leads back to a block of the node's chain,
    -- and catches up with it. Its top is then `t + 1`.
    -- Then the node goes over to another chain, which parts from the first one at the block `j`, one of
    -- those just scanned, and reaches beyond its top. A second `ScanBlockTask` returns and tells a fork
    -- for each of the `d` blocks that are gone, the highest one first, and then each of the `m` blocks
    -- of the new chain behind `j` once, in order; the head is the new top, and the database has the
    -- new blocks. The fuel is enough as above.
    pub scan_block_task_replays :
        (fuel fuel' h k n j d m : ℕ) (hash : Text) (ns : List HeadRecord) (v : View) (w : World)
        → v.head ≡ (suc h, hash)
        → Rewinds p bs before v (suc h) hash k ns
        → suc h < suc t
        → k + n ≡ suc t
        → suc h + n < k + fuel
        → PartsAt before after j (suc t)
        → k < j
        → j + d ≡ suc t
        → suc t < top
        → j + m ≡ top
        → suc t + m < j + fuel'
        → top < 2 ^ 64
        → Holds v w
        → (v' : View) × Leaves after j top
            ((((v.told ++ ns) ++ notices p bs before k n) ++ replaced before d (suc t))
              ++ notices p bs after j m)
            v'
          × Returns
              (scan_block_task p bs fuel >> meanwhile change >> scan_block_task p bs fuel')
              w
              (broke (place p bs after top))
              (Holds' v')
    scan_block_task_replays fuel fuel' h k n j d m hash ns v w head goes_back below blocks enough
          parts above gone beyond blocks' enough' small held =
        let (v1, v2, rewound, scanned, (w1, e1, h1)) =
          scan_block_task_catches_up p bs serves chain dai rescans fuel h k n hash ns v w head
            goes_back below blocks enough (omega arith) held in
        let again_head : v2.head ≡ (suc t, (before (suc t)).header.hash) =
          scanned.head_is (omega arith) ∙ ap (λ i. (i, (before i).header.hash)) blocks in
        let again_back : Rewinds p bs after v2 (suc t) (before (suc t)).header.hash j
            (replaced before d (suc t)) =
          Scanned-Rewinds d (suc t) chain scanned
            (subst (PartsAt before after j) (sym blocks) parts) above gone (omega arith) in
        let (v3, v4, rewound', scanned', (w2, e2, h2)) =
          scan_block_task_catches_up p bs serves' chain' dai rescans' fuel' t j m
            (before (suc t)).header.hash (replaced before d (suc t)) v2 (change w1) again_head
            again_back beyond blocks' enough' small (changes v2 w1 h1) in
        (
          v4,
          record {
            told_is =
                scanned'.told_is
                ∙ ap (λ l. l ++ notices p bs after j m)
                    (rewound'.told_is
                      ∙ ap (λ l. l ++ replaced before d (suc t))
                          (scanned.told_is
                            ∙ ap (λ l. l ++ notices p bs before k n) rewound.told_is));
            head_is = scanned'.head_is (omega arith) ∙ ap (λ i. (i, (after i).header.hash)) blocks';
            stored_is = λ i l u. scanned'.stored_is i l (omega arith);
          },
          (w2, rw e1 e2, h2),
        )
