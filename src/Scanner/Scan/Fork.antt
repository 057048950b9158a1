-- ===== src/Scanner/Scan/Fork.antt =====
-- The loop on a chain that replaced the last scanned blocks.
use mathlib.Core.Path.{subst}
use mathlib.Core.List.{append-nil, append_assoc}
use near_adapter.Prelude.{
  ℕ, zero, suc, ◌+◌, ◌^◌, ◌<◌, ◌≤◌, ◌≡◌, refl, sym, ap, ◌∙◌, true, List, [], ◌++◌, Text, Option,
  some, arith, ◌⊎◌, inl, inr,
}
use near_adapter.Exec.{Exec, Returns}
use near_adapter.Platform.{Platform}
use near_adapter.Config.{NearBlockScanner}
use near_adapter.Model.{Block, BlockHeader}
use near_adapter.Wallet.{HeadRecord}
use near_adapter.Scanner.Scan.{Position, LoopEnd, broke, scan_loop}
use near_adapter.Scanner.Scan.View.{View, Serves, IsChain, Scanned, place, stored}
use near_adapter.Scanner.Scan.Follow.{scan_loop_again, scan_loop_follows}
use near_adapter.Scanner.Scan.Back.{
  fork_notices, resumed, resumed-told, resumed-below, resumed-here, IsBehind,
  scan_round-handle_fork, handle_fork-resumed,
}

module _ (p : Platform) (bs : NearBlockScanner) where
  open p use {World}

  -- From the height `h` with the hash `hash` the scan goes back to the height `k`, block by block,
  -- as long as the hash is not that of the chain's block at the height. On the way it tells `ns`: a
  -- fork for each block that it leaves and that the database has. It does not go back to block 0.
  pub data Rewinds (block_at : ℕ → Block) (v : View) : ℕ → Text → ℕ → List HeadRecord → Type 0 where
    stop : {h : ℕ} {hash : Text} → hash ≡ (block_at h).header.hash → Rewinds block_at v h hash h []
    back :
        {j k : ℕ} {hash : Text} {ns : List HeadRecord} (header : BlockHeader)
        → 0 < j
        → ¬ (hash ≡ (block_at (suc j)).header.hash)
        → IsBehind p bs block_at v j header
        → header.height ≡ j
        → Rewinds block_at v j header.hash k ns
        → Rewinds block_at v (suc j) hash k (fork_notices p bs (v.local (suc j)) ++ ns)

  -- What going back to `k` makes of a view: the head aside, it tells `ns` and leaves the blocks below
  -- `k` as they were.
  pub record Rewound (k : ℕ) (ns : List HeadRecord) (v v' : View) : Type 0 where
    pub told_is : v'.told ≡ v.told ++ ns
    pub older_is : (h : ℕ) → h < k → v'.local h ≡ v.local h

  module _ {block_at : ℕ → Block} where
    Rewinds-le :
        {v : View} {h k : ℕ} {hash : Text} {ns : List HeadRecord}
        → Rewinds block_at v h hash k ns
        → k ≤ h
    Rewinds-le (stop e) = omega arith
    Rewinds-le (back header positive other behind height r) = omega (arith, Rewinds-le r)

    -- Going back reads only the blocks at and below the height.
    Rewinds-same :
        {v v1 : View} {h k : ℕ} {hash : Text} {ns : List HeadRecord}
        → ((i : ℕ) → i < h → v1.local i ≡ v.local i)
        → (hash ≡ (block_at h).header.hash)
          ⊎ (fork_notices p bs (v.local h) ≡ fork_notices p bs (v1.local h))
        → Rewinds block_at v h hash k ns
        → Rewinds block_at v1 h hash k ns
    Rewinds-same below here (stop e) = stop e
    Rewinds-same {v} {v1} {k = k} {hash = hash} below here
          (back {j = j} {ns = ns} header positive other behind height r) =
        elim here [
          | inl same ↦ absurd (other same)
          | inr told ↦
              subst (λ l. Rewinds block_at v1 (suc j) hash k (l ++ ns)) (sym told)
                (back header positive other (rw (sym (below j (omega arith))) at behind) height (
                  Rewinds-same (λ i l. below i (omega arith))
                    (inr (ap (fork_notices p bs) (sym (below j (omega arith))))) r))
        ]

    Rewinds-resumed :
        (o : Option HeadRecord) (header : BlockHeader) (v : View) {j k : ℕ} {ns : List HeadRecord}
        → IsBehind p bs block_at v j header
        → header.height ≡ j
        → Rewinds block_at v j header.hash k ns
        → Rewinds block_at (resumed p bs o header v) j header.hash k ns
    Rewinds-resumed o header v {j} behind height r =
        Rewinds-same (λ i l. resumed-below p bs o header v i (omega (arith, height))) (here behind)
          r
      where
        here :
            IsBehind p bs block_at v j header
            → (header.hash ≡ (block_at j).header.hash)
              ⊎ (fork_notices p bs (v.local j)
                  ≡ fork_notices p bs ((resumed p bs o header v).local j))
        here (inr (missing, same)) = inl (ap (λ x. x.hash) same)
        here (inl (stored_one, found, same)) = inr (
            ap (fork_notices p bs) found
            ∙ ap (λ x. fork_notices p bs (some (stored p bs x.height x.hash x.prev_hash)))
                (sym same)
            ∙ ap (fork_notices p bs) (sym (resumed-here p bs o header v))
            ∙ ap (λ i. fork_notices p bs ((resumed p bs o header v).local i)) height)

  -- The scan stands at the height `h` with the hash `hash`.
  abbrev pub standing : ℕ → Text → Position
  standing h hash = record { height = h; hash = hash }

  module _ {top : ℕ} {block_at : ℕ → Block} {Holds : View → World → Type 0}
      (serves : Serves p bs top block_at Holds) (chain : IsChain p bs block_at)
      (dai : bs.has_dai ≡ true) where
    -- What the loop does to a view that goes back to `k` and then follows the chain.
    abbrev pub Recovers : ℕ → ℕ → List HeadRecord → View → Exec World LoopEnd → World → Type 0
    Recovers k n ns v loop w =
        (v1 : View) × (v2 : View) × Rewound k ns v v1
        × Scanned p bs block_at k n v1 v2
        × Returns loop w (broke (place p bs block_at top)) (Holds v2)

    -- The loop stands at the height `h` below `top` with the hash `hash`; the database or, where it
    -- has no block, the node leads back from there to the block `k` of the chain that it serves.
    -- Then the loop ends by `break` at `top`, with the fuel of one round for each block back, one for
    -- each of the `n` blocks behind `k`, and one more. It tells a fork for each replaced block that the
    -- database has, the last one first, and then each block behind `k` once, in order. The head is
    -- then `top`, and the database has the chain's blocks behind `k`, and below `k` what it had.
    pub scan_loop-Recovers :
        (fuel h k n : ℕ) (hash : Text) (ns : List HeadRecord) (v : View) (w : World)
        → Rewinds block_at v h hash k ns
        → h < top
        → k + n ≡ top
        → h + n < k + fuel
        → top < 2 ^ 64
        → Holds v w
        → Recovers k n ns v (scan_loop p bs fuel (standing h hash)) w
    scan_loop-Recovers fuel h k n hash ns v w (stop same) below e enough small held =
        let (v', s, (w1, e1, h1)) =
          scan_loop_follows p bs serves chain dai fuel h n v w e (omega arith) small held in
        (
          v,
          v',
          record { told_is = sym (append-nil v.told); older_is = λ i l. refl },
          s,
          (w1, ap (λ x. scan_loop p bs fuel (standing h x) w) same ∙ e1, h1),
        )
    scan_loop-Recovers zero h k n hash ns v w (back header positive other behind height r) below e
          enough small held =
        absurd (omega (arith, Rewinds-le r))
    scan_loop-Recovers (suc fuel) h k n hash ns v w
          (back {j = j} {ns = later} header positive other behind height r) below e enough small
          held =
        let o = v.local (suc j) in
        let (w1, e1, h1) =
          scan_round-handle_fork p bs serves chain dai j hash w below small other held in
        let (w2, e2, h2) =
          handle_fork-resumed p bs serves chain dai j hash header w1 positive below small behind
            h1 in
        let (v1, v2, back_to, s, (w3, e3, h3)) =
          scan_loop-Recovers fuel j k n header.hash later (resumed p bs o header v) w2
            (Rewinds-resumed o header v behind height r) (omega arith) e (omega arith) small h2 in
        (
          v1,
          v2,
          record {
            told_is =
                back_to.told_is
                ∙ ap (λ l. l ++ later) (resumed-told p bs o header v)
                ∙ append_assoc v.told (fork_notices p bs o) later;
            older_is = λ i l.
                back_to.older_is i l
                ∙ resumed-below p bs o header v i (omega (arith, height, Rewinds-le r));
          },
          s,
          (
            w3,
            scan_loop_again p bs fuel (standing (suc j) hash) (standing j header.hash) w w2
                  (e1 ∙ e2)
                ∙ e3,
            h3,
          ),
        )
