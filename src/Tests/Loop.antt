-- ===== src/Tests/Loop.antt =====
-- The scan loop on the small node.
use near_adapter.Prelude.{
  List, Text, ◌<◌, get_or, ℕ, ◌≡◌, refl, ap, true, false, [], ◌∷◌, ◌++◌, codes, none, some,
  if◌then◌else◌, arith, ◌==◌, ◌⊎◌, inl, inr,
}
use near_adapter.Go.{ok, err, library}
use near_adapter.Exec.{Returns, ◌>>◌}
use near_adapter.Model.{bare_header}
use near_adapter.Wallet.{HeadRecord}
use near_adapter.Config.{new_config}
use near_adapter.Api.{get, call, checked_reply, is_error}
use near_adapter.Node.{get_block_by_height, with_transfers, get_current_block, get_status}
use near_adapter.Scanner.Scan.{broke, scan_loop, set_rescan_block_height, get_scanned_block_header}
use near_adapter.Scanner.Scan.Restart.{
  KeepsHead, at_tip, set_rescan_block_height-get_scanned_block_header,
}
use near_adapter.Scanner.Scan.View.{View, Serves, IsChain, Scanned, place}
use near_adapter.Scanner.Scan.Follow.{scan_loop_follows}
use near_adapter.Scanner.Scan.Back.{fork_notice}
use near_adapter.Scanner.Scan.Fork.{Rewinds, stop, back, Recovers, standing, scan_loop-Recovers}
use near_adapter.Scanner.Scan.Missed.{scan_loop_retries}
use near_adapter.Tests.Demo.{
  local_head, first_blocks, World, platform, scanner, raw_block, block_on, top_on, started,
  without_height,
}
use near_adapter.Tests.Chain.{served_on, served_block, served, Answers, answering, batch_keeps}

-- The world looks like the view, and its node answers and is on the branch `b`.
pub record HoldsOn (b : ℕ) (v : View) (w : World) : Type 0 where
  pub head_is : w.head ≡ v.head
  pub told_is : w.notices ≡ v.told
  pub local_is : w.local ≡ v.local
  pub answers : Answers b w

pub not_same : (a b : ℕ) → b < a ⊎ a < b → ¬ (a ∷ [] ≡ b ∷ [])
not_same a b d e = omega (arith, ap (λ l. get_or l 0 0) e)

bare_then :
    (b h : ℕ) (w : World)
    → get_block_by_height platform scanner h false (record w { busy = false; branch = b })
      ≡ (ok (block_on b h), record w { busy = false; branch = b })
unfolding get_block_by_height with_transfers call checked_reply is_error new_config
bare_then b h w = refl

bare :
    (b h : ℕ) (w : World)
    → Answers b w
    → get_block_by_height platform scanner h false w ≡ (ok (block_on b h), w)
bare b h =
    answering (λ w. get_block_by_height platform scanner h false w ≡ (ok (block_on b h), w))
      (bare_then b h)

-- The node on the branch `b` says that the branch's top is its current block.
abbrev pub SaysTop : ℕ → Type 0
SaysTop b = (w : World) → Answers b w → get_current_block platform scanner w ≡ (ok (top_on b), w)

pub top_0 : SaysTop 0
unfolding get_current_block get_status get
top_0 w a = rw a.1 refl

pub top_1 : SaysTop 1
unfolding get_current_block get_status get
top_1 w a = rw a.1 refl

pub serves_on : (b : ℕ) → SaysTop b → Serves platform scanner (top_on b) (served_on b) (HoldsOn b)
unfolding new_config
serves_on b says = record {
  scans = λ w h. refl;
  current = λ w h. (w, says w h.answers, h);
  fetch = λ w n le h. (w, served b n w h.answers, h);
  fetch_bare = λ w n le h. (block_on b n, refl, (w, bare b n w h.answers, h));
  keeps_batch = λ v. batch_keeps (HoldsOn b v) (λ w r h. record {
    head_is = h.head_is;
    told_is = h.told_is;
    local_is = h.local_is;
    answers = h.answers;
  });
  saves_head = λ w r h. (
    record w { head = (r.height, r.hash) },
    refl,
    record { head_is = refl; told_is = h.told_is; local_is = h.local_is; answers = h.answers },
  );
  gives_head = λ w h. (_, h.head_is, (w, refl, h));
  saves_block = λ w r h. (
    record w { local = λ i. if i == r.height then some r else w.local i },
    refl,
    record {
      head_is = h.head_is;
      told_is = h.told_is;
      local_is = ap (λ f i. if i == r.height then some r else f i) h.local_is;
      answers = h.answers;
    },
  );
  gives_block = λ w i r here h. (w, rw (ap (λ f. f i) h.local_is, here) refl, h);
  lacks_block = λ w i missing h.
      (library (codes "not found"), w, rw (ap (λ f. f i) h.local_is, missing) refl, h);
  forgets = λ w i h. (
    record w { unscan = without_height i w.unscan },
    refl,
    record { head_is = h.head_is; told_is = h.told_is; local_is = h.local_is; answers = h.answers },
  );
  tells = λ w r h. (
    record w { notices = w.notices ++ r ∷ [] },
    refl,
    record {
      head_is = h.head_is;
      told_is = ap (λ l. l ++ r ∷ []) h.told_is;
      local_is = h.local_is;
      answers = h.answers;
    },
  );
}

pub chain_on : (b : ℕ) → IsChain platform scanner (served_on b)
chain_on b = record { height_is = λ h. refl; linked = λ h. refl }

-- What the world `started` looks like.
abbrev pub at_start : View
at_start = record { head = (0, []); told = []; local = first_blocks }

started-HoldsOn : HoldsOn 0 at_start started
started-HoldsOn = record { head_is = refl; told_is = refl; local_is = refl; answers = (refl, refl) }

scan_loop_follows_example :
    (v' : View) × Scanned platform scanner served_block 0 5 at_start v'
    × Returns
        (scan_loop platform scanner 6 (place platform scanner served_block 0))
        started
        (broke (place platform scanner served_block 5))
        (HoldsOn 0 v')
scan_loop_follows_example =
    scan_loop_follows platform scanner (serves_on 0 top_0) (chain_on 0) refl 6 0 5 at_start started
      refl (omega arith) (omega arith) started-HoldsOn

-- Back over the local blocks 3 and 2, which are not the node's, to block 1.
abbrev pub two_forks : List HeadRecord
two_forks =
    fork_notice platform scanner (local_head 3 (9 ∷ []))
    ∷ fork_notice platform scanner (local_head 2 (8 ∷ []))
    ∷ []

pub two_back :
    (x : ℕ × Text)
    → Rewinds platform scanner served_block (record at_start { head = x }) 3 (9 ∷ []) 1 two_forks
two_back x =
    back (bare_header (8 ∷ []) 2 (1 ∷ [])) (omega arith) (not_same 9 3 (omega arith))
      (inl (local_head 2 (8 ∷ []), refl, refl)) refl
      (back (bare_header (1 ∷ []) 1 (0 ∷ [])) (omega arith) (not_same 8 2 (omega arith))
        (inl (local_head 1 (1 ∷ []), refl, refl)) refl (stop refl))

scan_loop-Recovers_example :
    Recovers platform scanner
      (serves_on 0 top_0)
      (chain_on 0)
      refl
      1
      4
      two_forks
      at_start
      (scan_loop platform scanner 7 (standing platform scanner 3 (9 ∷ [])))
      started
scan_loop-Recovers_example =
    scan_loop-Recovers platform scanner (serves_on 0 top_0) (chain_on 0) refl 7 3 1 4 (9 ∷ [])
      two_forks at_start started (two_back (0, [])) (omega arith) refl (omega arith) (omega arith)
      started-HoldsOn

-- No local blocks, and a node that refuses one request.
abbrev refusing : World
refusing = record started { local = λ h. none; busy = true }

abbrev no_blocks : View
no_blocks = record at_start { local = λ h. none }

refused :
    get_block_by_height platform scanner 4 true refusing
    ≡ (err (library (codes "busy")), record refusing { busy = false })
unfolding get_block_by_height call checked_reply
refused = refl

top_refusing : get_current_block platform scanner refusing ≡ (ok 5, refusing)
unfolding get_current_block get_status get
top_refusing = refl

scan_loop_retries_example :
    Recovers platform scanner
      (serves_on 0 top_0)
      (chain_on 0)
      refl
      3
      2
      []
      no_blocks
      (scan_loop platform scanner 5 (place platform scanner served_block 3))
      refusing
scan_loop_retries_example =
    scan_loop_retries platform scanner (serves_on 0 top_0) (chain_on 0) refl 4 3 0 5 no_blocks
      (served_block 3).header (library (codes "busy")) refusing refusing
      (record refusing { busy = false }) (omega arith) refl (omega arith) (omega arith)
      (not_same 3 4 (omega arith)) refl (inr (refl, refl)) refl refl refl top_refusing (omega arith)
      refused (record { head_is = refl; told_is = refl; local_is = refl; answers = (refl, refl) })

header_served : get_block_by_height platform scanner 3 false started ≡ (ok (raw_block 3), started)
unfolding get_block_by_height with_transfers call checked_reply is_error
header_served = refl

keeps_head : KeepsHead platform scanner
unfolding new_config
keeps_head = record {
  back = λ r w.
      let w' = record w { head = (r.height, r.hash) } in
      (w', w', local_copy r, refl, refl, refl, refl);
}
  where
    local_copy : HeadRecord → HeadRecord
    local_copy r = record {
      hash = r.hash;
      previous_block_hash = [];
      height = r.height;
      fork = false;
      time = 0;
      symbol = codes "NEAR";
    }

set_rescan_block_height-get_scanned_block_header_example :
    (w2 : World) × (0 < 3
      → (set_rescan_block_height platform scanner 4 >> get_scanned_block_header platform scanner)
          started
        ≡ (ok (record { height = 3; hash = 3 ∷ [] }), w2))
    × (◌≡◌ {A = ℕ} 3 0
        → (set_rescan_block_height platform scanner 4 >> get_scanned_block_header platform scanner)
            started
          ≡ at_tip platform scanner w2)
set_rescan_block_height-get_scanned_block_header_example =
    set_rescan_block_height-get_scanned_block_header platform scanner keeps_head refl 3
      (raw_block 3) started started (omega arith) header_served
