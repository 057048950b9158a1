-- ===== src/Tests/Task.antt =====
-- The whole scan task on the small node.
use near_adapter.Prelude.{ℕ, ◌<◌, ◌≡◌, refl, ap, true, false, [], ◌∷◌, ◌++◌, arith, leb, length}
use near_adapter.Exec.{Returns, ◌>>◌}
use near_adapter.Exec.Keeps.{Keeps}
use near_adapter.Config.{new_config}
use near_adapter.Node.{get_block_by_height}
use near_adapter.Scanner.Scan.{broke}
use near_adapter.Scanner.Scan.View.{View, Scanned, place, notices}
use near_adapter.Scanner.Scan.Fork.{Recovers}
use near_adapter.Scanner.Rescan.{scan_block_task}
use near_adapter.Scanner.Rescan.Quiet.{RescanKeeps}
use near_adapter.Scanner.Rescan.Task.{scan_block_task_catches_up, scan_block_task_starts}
use near_adapter.Scanner.Rescan.Reorg.{
  meanwhile, replaced, PartsAt, Leaves, scan_block_task_replays,
}
use near_adapter.Tests.Demo.{World, platform, scanner, started, first_blocks, hash_on}
use near_adapter.Tests.Chain.{served_on, served, batch_keeps}
use near_adapter.Tests.Loop.{
  HoldsOn, serves_on, top_0, top_1, chain_on, at_start, two_back, two_forks,
}

asks-Keeps :
    (b : ℕ) (v : View) (h : ℕ)
    → Keeps true (HoldsOn b v) (get_block_by_height platform scanner h true)
asks-Keeps b v h = record { at = λ w held. rw (served b h w held.answers) (held, tt) }

rescans_on : (b : ℕ) (v : View) → RescanKeeps platform scanner (HoldsOn b v)
unfolding new_config
rescans_on b v = record {
  batch = batch_keeps (HoldsOn b v) (λ w r h. stays w (r ∷ w.unscan) h);
  asks = asks-Keeps b v;
  lists = record { at = λ w h. (h, tt) };
  forgets_height = λ h. record { at = λ w held. (stays w _ held, tt) };
  forgets_id = λ i. record { at = λ w h. (h, tt) };
}
  where
    stays : (w : World) (l : _) → HoldsOn b v w → HoldsOn b v (record w { unscan = l })
    stays w l h = record {
      head_is = h.head_is;
      told_is = h.told_is;
      local_is = h.local_is;
      answers = h.answers;
    }

scan_block_task_starts_example :
    (v' : View) × Scanned platform scanner (served_on 0) 4 1 at_start v'
    × Returns
        (scan_block_task platform scanner 2)
        started
        (broke (place platform scanner (served_on 0) 5))
        (HoldsOn 0 v')
scan_block_task_starts_example =
    scan_block_task_starts platform scanner (serves_on 0 top_0) (chain_on 0) refl (rescans_on 0) 2 4
      [] at_start started refl refl (omega arith) (omega arith)
      (record { head_is = refl; told_is = refl; local_is = refl; answers = (refl, refl) })

-- The database's head is its local block 3.
abbrev behind : World
behind = record started { head = (3, 9 ∷ []) }

abbrev at_behind : View
at_behind = record { head = (3, 9 ∷ []); told = []; local = first_blocks }

behind-HoldsOn : HoldsOn 0 at_behind behind
behind-HoldsOn = record { head_is = refl; told_is = refl; local_is = refl; answers = (refl, refl) }

scan_block_task_catches_up_example :
    Recovers platform scanner
      (serves_on 0 top_0)
      (chain_on 0)
      refl
      1
      4
      two_forks
      at_behind
      (scan_block_task platform scanner 7)
      behind
scan_block_task_catches_up_example =
    scan_block_task_catches_up platform scanner (serves_on 0 top_0) (chain_on 0) refl (rescans_on 0)
      7 2 1 4 (9 ∷ []) two_forks at_behind behind refl (two_back (3, 9 ∷ [])) (omega arith) refl
      (omega arith) (omega arith) behind-HoldsOn

-- The node goes over to branch 1.
abbrev to_branch_1 : World → World
to_branch_1 w = record w { branch = 1 }

other_hash : (h : ℕ) → 2 < h → ¬ (hash_on 0 h ≡ hash_on 1 h)
other_hash h l e = omega (arith, ap length (rw (above h l) at e))
  where
    above : (h : ℕ) → 2 < h → leb h 2 ≡ false
    above h l = ground arith

parts : PartsAt platform scanner (served_on 0) (served_on 1) 2 5
parts = record { common = refl; others = λ h l u. other_hash h l }

scan_block_task_replays_example :
    (v' : View) × Leaves platform scanner
      (served_on 1)
      2
      6
      (((two_forks ++ notices platform scanner (served_on 0) 1 4)
          ++ replaced platform scanner (served_on 0) 3 5)
        ++ notices platform scanner (served_on 1) 2 4)
      v'
    × Returns
        (scan_block_task platform scanner 7
          >> meanwhile platform scanner to_branch_1
          >> scan_block_task platform scanner 8)
        behind
        (broke (place platform scanner (served_on 1) 6))
        (HoldsOn 1 v')
scan_block_task_replays_example =
    scan_block_task_replays platform scanner (serves_on 0 top_0) (serves_on 1 top_1) (chain_on 0)
      (chain_on 1) refl (rescans_on 0) (rescans_on 1) to_branch_1
      (λ v w h. record {
        head_is = h.head_is;
        told_is = h.told_is;
        local_is = h.local_is;
        answers = (h.answers.0, refl);
      })
      7 8 2 1 4 2 3 4 (9 ∷ []) two_forks at_behind behind refl (two_back (3, 9 ∷ [])) (omega arith)
      refl (omega arith) parts (omega arith) refl (omega arith) refl (omega arith) (omega arith)
      behind-HoldsOn
