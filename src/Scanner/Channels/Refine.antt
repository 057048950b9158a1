-- ===== src/Scanner/Channels/Refine.antt =====
-- The batch with its effects: what its goroutines do to the world is what a sequential pass over the
-- results does.
use mathlib.Core.Path.{subst}
use mathlib.Core.List.{Perm, map-append}
use near_adapter.Prelude.{
  ℕ, zero, suc, ◌+◌, ◌<◌, ◌≤◌, ◌≡◌, refl, sym, ap, ◌∙◌, true, List, [], ◌∷◌, ◌++◌, map, length,
  Text, arith, Bool-cases, inl, inr,
}
use near_adapter.Go.{Result, ok, ok-injective}
use near_adapter.Exec.{Exec, Returns, pure}
use near_adapter.Exec.Success.{>>=-goes}
use near_adapter.Platform.{Platform}
use near_adapter.Config.{NearBlockScanner, max_extracting_size}
use near_adapter.Model.{TxTransfer}
use near_adapter.Scanner.Extract.{ExtractResult, extract_transaction}
use near_adapter.Scanner.Extract.Sides.{extract_transaction-success}
use near_adapter.Scanner.Notify.Batch.{BatchKeeps, save_result_none}
use near_adapter.Scanner.Notify.{save_result, save_work, batch_result, batch_in_order}
use near_adapter.Scanner.Channels.{
  Batch, begin, Step, start, produce, release, deliver, save, exit, Reach, here, next,
}
use near_adapter.Scanner.Channels.Conserve.{Reach-IsSound, batch_saves_all}
use near_adapter.Scanner.Channels.Progress.{to_return, work, Step-work, can-Step}

module _ (p : Platform) (bs : NearBlockScanner) (height : ℕ) (hash : Text) where
  open p use {World}

  -- What a step does to the world, and the failures that it counts: only `saveWork` calls out.
  unfoldable pub effect : {n : ℕ} {s t : Batch TxTransfer} → Step n s t → Exec World ℕ
  effect (start s tx rest e h) = pure 0
  effect (produce s front tx back e h) = pure 0
  effect (release s k e) = pure 0
  effect (deliver s tx rest e b h) = pure 0
  effect (save s tx e) = save_result p bs height (extract_transaction p bs height hash tx)
  effect (exit s q h) = pure 0

  -- A run of a batch of `n` transfers that starts at `b` in the world `w`: where it is, the world, and
  -- the failures that were counted on the way.
  pub data Run (n : ℕ) (b : Batch TxTransfer) (w : World)
      : Batch TxTransfer → World → ℕ → Type 0 where
    begins : Run n b w b w 0
    steps :
        {s t : Batch TxTransfer} {w1 w2 : World} {f m : ℕ}
        → Run n b w s w1 f
        → (st : Step n s t) → effect st w1 ≡ (ok m, w2)
        → Run n b w t w2 (f + m)

  pub Run-Reach :
      {txs : List TxTransfer} {held : ℕ} {w w1 : World} {s : Batch TxTransfer} {f : ℕ}
      → Run (length txs) (begin txs held) w s w1 f
      → Reach (length txs) (begin txs held) s
  Run-Reach begins = here
  Run-Reach (steps r st e) = next (Run-Reach r) st

  -- What a call that only returns tells.
  pure-same : {A : Type 0} {a b : A} {w w' : World} → pure a w ≡ (ok b, w') → (a ≡ b) × (w ≡ w')
  pure-same e = (ok-injective (ap (λ x. x.0) e), ap (λ x. x.1) e)

  -- One more result at the end of the pass.
  save_work-last :
      (l : List ExtractResult) (x : ExtractResult) (w w1 w2 : World) (f m : ℕ)
      → save_work p bs height l w ≡ (ok f, w1)
      → save_result p bs height x w1 ≡ (ok m, w2)
      → save_work p bs height (l ++ x ∷ []) w ≡ (ok (f + m), w2)
  unfolding save_work
  save_work-last [] x w w1 w2 f m done last =
      let (none_yet, same) = pure-same done in
      rw (same, last) (ap (λ n. (ok n, w2)) (omega (arith, none_yet)))
  save_work-last (y ∷ l) x w w1 w2 f m done last =
      >>=-goes (save_result p bs height y) _ w w1 f done (λ k w3 first then.
        >>=-goes (save_work p bs height l) _ w3 w1 f then (λ r w4 rest sum.
          let (total, same) = pure-same sum in
          rw (first, save_work-last l x w3 w1 w2 r m (rest ∙ ap (λ v. (ok r, v)) same) last)
            (ap (λ n. (ok n, w2)) (omega (arith, total)))))

  unchanged :
      {x : Result ℕ × World} {w1 w2 : World} {f m : ℕ}
      → x ≡ (ok f, w1)
      → pure 0 w1 ≡ (ok m, w2)
      → x ≡ (ok (f + m), w2)
  unchanged {w2 = w2} {f = f} done out =
      let (nothing, same) = pure-same out in
      done ∙ ap (λ v. (ok f, v)) same ∙ ap (λ n. (ok n, w2)) (omega (arith, nothing))

  abbrev results : List TxTransfer → List ExtractResult
  results txs = map (extract_transaction p bs height hash) txs

  -- A run has done what a pass over the results that `saveWork` has handled does, in their order.
  pub Run-save_work :
      {txs : List TxTransfer} {held : ℕ} {w w1 : World} {s : Batch TxTransfer} {f : ℕ}
      → Run (length txs) (begin txs held) w s w1 f
      → save_work p bs height (results s.saved) w ≡ (ok f, w1)
  unfolding save_work effect
  Run-save_work begins = refl
  Run-save_work (steps r (start s tx rest e h) out) = unchanged (Run-save_work r) out
  Run-save_work (steps r (produce s front tx back e h) out) = unchanged (Run-save_work r) out
  Run-save_work (steps r (release s k e) out) = unchanged (Run-save_work r) out
  Run-save_work (steps r (deliver s tx rest e b h) out) = unchanged (Run-save_work r) out
  Run-save_work (steps r (exit s q h) out) = unchanged (Run-save_work r) out
  Run-save_work {w = w} (steps {w1 = w1} {w2 = w2} {f = f} {m = m} r (save s tx e) out) =
      ap (λ l. save_work p bs height l w)
        (map-append (extract_transaction p bs height hash) s.saved (tx ∷ []))
      ∙ save_work-last (results s.saved) (extract_transaction p bs height hash tx) w w1 w2 f m
          (Run-save_work r) out

  -- However the goroutines of a batch run, when the call returns they have done to the world, and
  -- tell the caller, what one pass over the results in some order of the transfers does, each of
  -- them once. Goroutines of an earlier batch hold at most ten tokens at the start.
  pub Run-batch_in_order :
      {txs : List TxTransfer} {held : ℕ} {w w1 : World} {s : Batch TxTransfer} {f : ℕ}
      → held ≤ max_extracting_size
      → Run (length txs) (begin txs held) w s w1 f
      → s.returned ≡ true
      → (order : List TxTransfer) × Perm order txs
        × (batch_in_order p bs height hash order w ≡ batch_result p bs f w1)
  unfolding batch_in_order
  Run-batch_in_order {s = s} few r over =
      (s.saved, (batch_saves_all few (Run-Reach r)).1 over, rw (Run-save_work r) refl)

  module _ {P : World → Type 0} (k : BatchKeeps p bs P) where
    effect_none :
        {n : ℕ} {s t : Batch TxTransfer} (st : Step n s t) (w : World)
        → P w
        → Returns (effect st) w 0 P
    unfolding effect
    effect_none (start s tx rest e h) w held = (w, refl, held)
    effect_none (produce s front tx back e h) w held = (w, refl, held)
    effect_none (release s n e) w held = (w, refl, held)
    effect_none (deliver s tx rest e b h) w held = (w, refl, held)
    effect_none (exit s q h) w held = (w, refl, held)
    effect_none (save s tx e) w held =
        save_result_none p bs k height (extract_transaction p bs height hash tx)
          (extract_transaction-success p bs height hash tx) w held

    -- Some run from the batch `s` in the world `w` returns without a failure.
    abbrev pub Ends : ℕ → Batch TxTransfer → World → Type 0
    Ends n s w =
        (t : Batch TxTransfer) × (w' : World) × Run n s w t w' 0 × (t.returned ≡ true) × P w'

    -- No run counts a failure.
    Run-none :
        {n : ℕ} {b : Batch TxTransfer} {w : World} {s : Batch TxTransfer} {w1 : World} {f : ℕ}
        → P w
        → Run n b w s w1 f
        → P w1 × (f ≡ 0)
    Run-none good begins = (good, refl)
    Run-none good (steps {w1 = w1} r st out) =
        let (good', none_yet) = Run-none good r in
        let (w2, out', good'') = effect_none st w1 good' in
        (
          subst P (ap (λ x. x.1) (sym out' ∙ out)) good'',
          omega (arith, none_yet, ok-injective (ap (λ x. x.0) (sym out' ∙ out))),
        )

    ended :
        {n : ℕ} {b : Batch TxTransfer} {w : World} {s : Batch TxTransfer} {w1 : World} {f : ℕ}
        → P w
        → Run n b w s w1 f
        → s.returned ≡ true
        → Ends n b w
    ended {n} {b} {w} {s} {w1} good r over =
        let (good', none_yet) = Run-none good r in
        (s, w1, subst (λ x. Run n b w s w1 x) none_yet r, over, good')

    finishes :
        (fuel : ℕ) {txs : List TxTransfer} {held : ℕ} {b s : Batch TxTransfer} {w w1 : World}
        {f : ℕ}
        → held ≤ max_extracting_size
        → 0 < length txs
        → work s ≤ fuel
        → P w
        → Reach (length txs) (begin txs held) s
        → Run (length txs) b w s w1 f
        → Ends (length txs) b w
    finishes zero {s = s} few pos h good reach r = elim (Bool-cases s.returned) [
      | inl over ↦ ended good r over
      | inr live ↦ absurd (omega (arith, ap to_return live))
    ]
    finishes (suc fuel) {s = s} {w1 = w1} few pos h good reach r = elim (Bool-cases s.returned) [
      | inl over ↦ ended good r over
      | inr live ↦
          let (t, st) = can-Step s pos (Reach-IsSound few reach) live in
          let (w2, out, good') = effect_none st w1 (Run-none good r).0 in
          finishes fuel few pos (omega (arith, Step-work st)) good (next reach st) (steps r st out)
    ]

    -- Where the observers and the database keep an invariant and do not panic, a batch with a transfer
    -- in it can go on to the return of the call from wherever its goroutines have taken it. No failure
    -- was counted so far and none is then, also where observers refuse what they are told, and the
    -- invariant holds at the return.
    pub Run-Ends :
        {txs : List TxTransfer} {held : ℕ} {w w1 : World} {s : Batch TxTransfer} {f : ℕ}
        → held ≤ max_extracting_size
        → 0 < length txs
        → P w
        → Run (length txs) (begin txs held) w s w1 f
        → (f ≡ 0) × Ends (length txs) s w1
    Run-Ends {s = s} few pos good r =
        let (good', none_yet) = Run-none good r in
        (none_yet, finishes (work s) few pos (omega arith) good' (Run-Reach r) begins)
