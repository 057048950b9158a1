-- ===== src/Scanner/Channels/Progress.antt =====
-- The batch cannot get stuck, and it ends.
use near_adapter.Prelude.{
  ℕ, zero, suc, ◌+◌, ◌*◌, ◌<◌, ◌≤◌, ◌≡◌, refl, ap, Bool, true, false, List, [], ◌∷◌, length, none,
  arith, length-append, ◌⊎◌, inl, inr, Bool-cases, Option-cases,
}
use near_adapter.Config.{max_extracting_size}
use near_adapter.Scanner.Channels.{
  Batch, begin, Step, start, produce, release, deliver, save, exit, Reach, here, next,
}
use near_adapter.Scanner.Channels.Conserve.{pending, IsSound, Reach-IsSound, length-around}

-- Whether the return is still to come.
abbrev pub to_return : Bool → ℕ
to_return true = 0
to_return false = 1

ℕ-cases : (n : ℕ) → (n ≡ 0) ⊎ ((m : ℕ) × (n ≡ suc m))
ℕ-cases zero = inl refl
ℕ-cases (suc m) = inr (m, refl)

module _ {A : Type 0} where
  -- The steps that are left.
  abbrev pub work : Batch A → ℕ
  work s =
      5 * length s.waiting
      + 4 * length s.running
      + 2 * length s.values
      + length (pending s.busy)
      + s.sent
      + to_return s.returned

  pub Step-work : {n : ℕ} {s t : Batch A} → Step n s t → work s ≡ suc (work t)
  Step-work (start s tx rest e h) = omega (arith, ap length e)
  Step-work (produce s front tx back e h) =
      omega (arith, length-around front tx back s.running e, length-append s.values (tx ∷ []))
  Step-work (release s n e) = omega arith
  Step-work (deliver s tx rest e b h) = omega (arith, ap length e, ap (λ o. length (pending o)) b)
  Step-work (save s tx e) = omega (arith, ap (λ o. length (pending o)) e)
  Step-work (exit s q h) = omega (arith, ap to_return h)

  pub steps : {n : ℕ} {s t : Batch A} → Reach n s t → ℕ
  steps here = 0
  steps (next r st) = suc (steps r)

  steps-work : {n : ℕ} {s t : Batch A} (r : Reach n s t) → steps r + work t ≡ work s
  unfolding steps
  steps-work {s = s} here = omega arith
  steps-work (next r st) = omega (arith, steps-work r, Step-work st)

  List-cases : (l : List A) → (l ≡ []) ⊎ ((x : A) × (r : List A) × (l ≡ x ∷ r))
  List-cases [] = inl refl
  List-cases (x ∷ r) = inr (x, r, refl)

  pub can-Step :
      {n : ℕ} (s : Batch A) → 0 < n → IsSound n s → s.returned ≡ false → (t : Batch A) × Step n s t
  can-Step {n} s pos v live = elim (Option-cases s.busy) [
    | inr (tx, e) ↦ (_, save s tx e)
    | inl idle ↦ elim (List-cases s.values) [
      | inr (tx, rest, e) ↦ (_, deliver s tx rest e idle live)
      | inl nv ↦ elim (List-cases s.running) [
        | inr (tx, rest, e) ↦ (_, produce s [] tx rest e live)
        | inl nr ↦ elim (ℕ-cases s.sent) [
          | inr (m, e) ↦ (_, release s m e)
          | inl ns ↦ elim (List-cases s.waiting) [
            | inr (tx, rest, e) ↦ (_, start s tx rest e (omega (arith, ap length nr, ns)))
            | inl nw ↦ (_, exit s (v.finished pos (all_saved idle nv nr nw)) live)
          ]
        ]
      ]
    ]
  ]
    where
      all_saved :
          s.busy ≡ none → s.values ≡ [] → s.running ≡ [] → s.waiting ≡ [] → length s.saved ≡ n
      all_saved idle nv nr nw = omega (
        arith,
        v.total,
        ap (λ o. length (pending o)) idle,
        ap length nv,
        ap length nr,
        ap length nw,
      )

  finishes :
      (fuel : ℕ) {txs : List A} {k : ℕ} (s : Batch A)
      → k ≤ max_extracting_size
      → 0 < length txs
      → work s ≤ fuel
      → Reach (length txs) (begin txs k) s
      → (t : Batch A) × Reach (length txs) (begin txs k) t × (t.returned ≡ true)
  finishes zero s hk pos h r = elim (Bool-cases s.returned) [
    | inl over ↦ (s, r, over)
    | inr live ↦ absurd (omega (arith, ap to_return live))
  ]
  finishes (suc fuel) s hk pos h r = elim (Bool-cases s.returned) [
    | inl over ↦ (s, r, over)
    | inr live ↦
        let (t, st) = can-Step s pos (Reach-IsSound hk r) live in
        finishes fuel t hk pos (omega (arith, Step-work st)) (next r st)
  ]

  -- A batch with a transfer in it never gets stuck: from whatever it can reach it can go on to the
  -- return of the call. No run is longer than five steps for each transfer, one for each token held
  -- at the start, and one, so every run ends.
  pub batch_returns :
      {txs : List A} {k : ℕ} {s : Batch A} (r : Reach (length txs) (begin txs k) s)
      → k ≤ max_extracting_size
      → 0 < length txs
      → (steps r ≤ 5 * length txs + k + 1)
        × ((s.returned ≡ false → (t : Batch A) × Step (length txs) s t)
            × ((t : Batch A) × Reach (length txs) (begin txs k) t × (t.returned ≡ true)))
  batch_returns {s = s} r hk pos = (
    omega (arith, steps-work r),
    (λ live. can-Step s pos (Reach-IsSound hk r) live, finishes (work s) s hk pos (omega arith) r),
  )
