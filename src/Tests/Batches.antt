-- ===== src/Tests/Batches.antt =====
-- Runs of the goroutines of a batch.
use mathlib.Core.List.{Perm}
use near_adapter.Prelude.{ℕ, ◌+◌, ◌*◌, ◌≤◌, ◌≡◌, refl, true, false, [], ◌∷◌, none, arith}
use near_adapter.Config.{max_extracting_size}
use near_adapter.Scanner.Channels.{
  Batch, begin, Step, start, produce, release, deliver, save, exit, Reach, here, next,
}
use near_adapter.Scanner.Channels.Conserve.{batch_saves_all}
use near_adapter.Scanner.Channels.Progress.{steps, batch_returns}

-- Two transfers, of which the first has been started.
abbrev after_start : Batch ℕ
after_start = record {
  waiting = 5 ∷ [];
  running = 4 ∷ [];
  sent = 1;
  values = [];
  busy = none;
  saved = [];
  quit = false;
  returned = false;
}

run_of_one : Reach {A = ℕ} 1 (begin (4 ∷ []) 1) (record {
  waiting = [];
  running = [];
  sent = 1;
  values = [];
  busy = none;
  saved = 4 ∷ [];
  quit = true;
  returned = true;
})
run_of_one =
    next
      (next
        (next
          (next
            (next (next here (start (begin (4 ∷ []) 1) 4 [] refl (omega arith)))
              (produce _ [] 4 [] refl refl))
            (release _ 1 refl))
          (deliver _ 4 [] refl refl refl))
        (save _ 4 refl))
      (exit _ refl refl)

batch_saves_all_example :
    (0 + 1 ≤ max_extracting_size) × (true ≡ true → Perm {A = ℕ} (4 ∷ []) (4 ∷ []))
batch_saves_all_example =
    batch_saves_all {A = ℕ} {txs = 4 ∷ []} {k = 1}
      {t = record {
        waiting = [];
        running = [];
        sent = 1;
        values = [];
        busy = none;
        saved = 4 ∷ [];
        quit = true;
        returned = true;
      }}
      (omega arith) run_of_one

started_run : Reach 2 (begin (4 ∷ 5 ∷ []) 1) after_start
started_run = next here (start (begin (4 ∷ 5 ∷ []) 1) 4 (5 ∷ []) refl (omega arith))

batch_returns_example :
    (steps started_run ≤ 5 * 2 + 1 + 1)
    × ((false ≡ false → (t : Batch ℕ) × Step 2 after_start t)
        × ((t : Batch ℕ) × Reach 2 (begin (4 ∷ 5 ∷ []) 1) t × (t.returned ≡ true)))
batch_returns_example =
    batch_returns {A = ℕ} {txs = 4 ∷ 5 ∷ []} {k = 1} {s = after_start} started_run (omega arith)
      (omega arith)
