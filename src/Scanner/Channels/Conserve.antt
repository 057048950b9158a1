-- ===== src/Scanner/Channels/Conserve.antt =====
-- Nothing is lost or done twice on the way through the channels.
use mathlib.Core.List.{Perm, append_assoc, append-nil, perm_middle}
use mathlib.Core.List.Perm
use near_adapter.Prelude.{
  ℕ, suc, ◌+◌, ◌<◌, ◌≤◌, ◌≡◌, refl, ap, Bool, true, false, List, [], ◌∷◌, ◌++◌, length, Option,
  none, some, ◌==◌, if◌then◌else◌, arith, length-append, ◌⊎◌, inl, inr,
}
use near_adapter.Config.{max_extracting_size}
use near_adapter.Scanner.Channels.{
  Batch, begin, Step, start, produce, release, deliver, save, exit, Reach, here, next,
}

closed_by : (k n : ℕ) (q : Bool) → (if k == n then true else q) ≡ true → (k ≡ n) ⊎ (q ≡ true)
closed_by k n q h = ground arith

closes : (k n : ℕ) (q : Bool) → k ≡ n → (if k == n then true else q) ≡ true
closes k n q h = ground arith

still_closed : (b q : Bool) → q ≡ true → (if b then true else q) ≡ true
still_closed true q h = refl
still_closed false q h = h

module _ {A : Type 0} where
  abbrev pub pending : Option A → List A
  pending none = []
  pending (some a) = a ∷ []

  -- Everything that the batch holds somewhere.
  abbrev everything : Batch A → List A
  everything s = s.waiting ++ (s.running ++ (s.values ++ (pending s.busy ++ s.saved)))

  perm_move :
      (x : A) (as' bs cs ds : List A) → as' ++ bs ≡ cs ++ ds → Perm (as' ++ x ∷ bs) (cs ++ x ∷ ds)
  perm_move x as' bs cs ds e =
      Perm.trans (perm_middle as' bs) (rw e (Perm.symm (perm_middle cs ds)))

  Step-everything : {n : ℕ} {s t : Batch A} → Step n s t → Perm (everything t) (everything s)
  Step-everything (start s tx rest e h) = rw e (perm_move tx rest _ [] _ refl)
  Step-everything (produce s front tx back e h) =
      let behind = pending s.busy ++ s.saved in
      rw e (
        simp append_assoc (
          simp append_assoc at (
            perm_move tx (s.waiting ++ (front ++ (back ++ s.values))) behind (s.waiting ++ front)
              (back ++ (s.values ++ behind)) (simp append_assoc))))
  Step-everything (release s n e) = Perm.refl (everything s)
  Step-everything (deliver s tx rest e b h) =
      rw (e, b)
        (simp append_assoc at (
          perm_move tx (s.waiting ++ (s.running ++ rest)) s.saved (s.waiting ++ s.running)
            (rest ++ s.saved) (simp append_assoc)))
  Step-everything (save s tx e) = rw e (
      simp append_assoc at (
        perm_move tx (s.waiting ++ (s.running ++ (s.values ++ s.saved))) []
          (s.waiting ++ (s.running ++ s.values)) s.saved (simp (append_assoc, append-nil))))
  Step-everything (exit s q h) = Perm.refl (everything s)

  Reach-everything :
      {n : ℕ} {txs : List A} {k : ℕ} {t : Batch A}
      → Reach n (begin txs k) t
      → Perm (everything t) txs
  Reach-everything {txs = txs} here = simp append-nil (Perm.refl txs)
  Reach-everything (next r st) = Perm.trans (Step-everything st) (Reach-everything r)

  -- What holds while a batch of `n` transfers runs.
  pub record IsSound (n : ℕ) (s : Batch A) : Type 0 where
    pub tokens : length s.running + s.sent ≤ max_extracting_size
    pub total :
        length s.waiting
          + length s.running
          + length s.values
          + length (pending s.busy)
          + length s.saved
        ≡ n
    pub finished : 0 < n → length s.saved ≡ n → s.quit ≡ true
    pub closed : s.quit ≡ true → length s.saved ≡ n
    pub over : s.returned ≡ true → s.quit ≡ true

  begin-IsSound :
      (txs : List A) (k : ℕ) → k ≤ max_extracting_size → IsSound (length txs) (begin txs k)
  begin-IsSound txs k h = record {
    tokens = omega arith;
    total = omega arith;
    finished = λ h e. absurd (omega arith);
    closed = λ e. cc;
    over = λ e. cc;
  }

  pub length-around :
      (front : List A) (tx : A) (back l : List A)
      → l ≡ front ++ tx ∷ back
      → length l ≡ suc (length (front ++ back))
  length-around front tx back l e =
      omega (arith, ap length e, length-append front (tx ∷ back), length-append front back)

  Step-IsSound : {n : ℕ} {s t : Batch A} → Step n s t → IsSound n s → IsSound n t
  Step-IsSound (start s tx rest e h) v = record {
    tokens = omega arith;
    total = omega (arith, v.total, ap length e);
    finished = v.finished;
    closed = v.closed;
    over = v.over;
  }
  Step-IsSound (produce s front tx back e h) v =
      let fewer = length-around front tx back s.running e in
      record {
        tokens = omega (arith, v.tokens, fewer);
        total = omega (arith, v.total, fewer, length-append s.values (tx ∷ []));
        finished = v.finished;
        closed = v.closed;
        over = v.over;
      }
  Step-IsSound (release s n e) v = record {
    tokens = omega (arith, v.tokens);
    total = v.total;
    finished = v.finished;
    closed = v.closed;
    over = v.over;
  }
  Step-IsSound (deliver s tx rest e b h) v = record {
    tokens = v.tokens;
    total = omega (arith, v.total, ap length e, ap (λ o. length (pending o)) b);
    finished = v.finished;
    closed = v.closed;
    over = v.over;
  }
  Step-IsSound {n = n} (save s tx e) v =
      let held : length (pending s.busy) ≡ 1 = ap (λ o. length (pending o)) e in
      record {
        tokens = v.tokens;
        total = omega (arith, v.total, held, length-append s.saved (tx ∷ []));
        finished = λ _ done.
            closes (length s.saved + 1) n s.quit
              (omega (arith, done, length-append s.saved (tx ∷ [])));
        closed = λ h. elim (closed_by (length s.saved + 1) n s.quit h) [
          | inl last ↦ omega (arith, length-append s.saved (tx ∷ []), last)
          | inr q ↦ absurd (omega (arith, v.closed q, v.total, held))
        ];
        over = λ r. still_closed (length s.saved + 1 == n) s.quit (v.over r);
      }
  Step-IsSound (exit s q h) v = record {
    tokens = v.tokens;
    total = v.total;
    finished = v.finished;
    closed = v.closed;
    over = λ _. q;
  }

  pub Reach-IsSound :
      {txs : List A} {k : ℕ} {t : Batch A}
      → k ≤ max_extracting_size
      → Reach (length txs) (begin txs k) t
      → IsSound (length txs) t
  Reach-IsSound {txs = txs} {k = k} h here = begin-IsSound txs k h
  Reach-IsSound h (next r st) = Step-IsSound st (Reach-IsSound h r)

  nothing_left : (l : List A) → length l ≡ 0 → l ≡ []
  nothing_left [] h = refl
  nothing_left (x ∷ l) h = absurd (omega arith)

  nothing_pending : (o : Option A) → length (pending o) ≡ 0 → pending o ≡ []
  nothing_pending none h = refl
  nothing_pending (some a) h = absurd (omega arith)

  -- Whatever the order in which the goroutines run, never more than ten of them hold a token, and
  -- when the call returns `saveWork` has handled every transfer of the batch exactly once.
  pub batch_saves_all :
      {txs : List A} {k : ℕ} {t : Batch A}
      → k ≤ max_extracting_size
      → Reach (length txs) (begin txs k) t
      → (length t.running + t.sent ≤ max_extracting_size) × (t.returned ≡ true → Perm t.saved txs)
  batch_saves_all {t = t} h r =
      let v = Reach-IsSound h r in
      (v.tokens, λ over. only_saved (v.total) (v.closed (v.over over)) (Reach-everything r))
    where
      only_saved :
          {n : ℕ} {txs : List A}
          → length t.waiting
              + length t.running
              + length t.values
              + length (pending t.busy)
              + length t.saved
            ≡ n
          → length t.saved ≡ n
          → Perm (everything t) txs
          → Perm t.saved txs
      only_saved total all h =
          rw
            (
              nothing_left t.waiting (omega arith),
              nothing_left t.running (omega arith),
              nothing_left t.values (omega arith),
              nothing_pending t.busy (omega arith),
            )
            at h
