-- ===== src/Scanner/Channels.antt =====
-- The goroutines and channels of `BatchExtractTransaction` and `extractRuntime`, as a step relation.
-- A result stands for the transfer that it was extracted from.
pub mod Conserve
pub mod Progress
pub mod Refine
pub mod Told
use near_adapter.Prelude.{
  ℕ, suc, ◌+◌, ◌<◌, ◌≤◌, ◌≡◌, Bool, true, false, List, [], ◌∷◌, ◌++◌, length, Option, none, some,
  ◌==◌, if◌then◌else◌,
}
use near_adapter.Config.{max_extracting_size}

-- `waiting` is what `extractWork` has not started; `running` the goroutines that hold a token of
-- `extractingCH` and have not sent; `sent` those that have sent and not given the token back;
-- `values` the queue of `extractRuntime`; `busy` what `saveWork` is at; `saved` what it has done,
-- oldest first. `quit` says that the channel is closed, and `returned` that the call is over.
pub record Batch (A : Type 0) : Type 0 where
  pub waiting : List A
  pub running : List A
  pub sent : ℕ
  pub values : List A
  pub busy : Option A
  pub saved : List A
  pub quit : Bool
  pub returned : Bool

module _ {A : Type 0} where
  -- A batch at its start; goroutines of an earlier one may still hold `held` tokens.
  abbrev pub begin : List A → ℕ → Batch A
  begin txs held = record {
    waiting = txs;
    running = [];
    sent = held;
    values = [];
    busy = none;
    saved = [];
    quit = false;
    returned = false;
  }

  -- `should_done` is the length of the batch. A send on `producer` or `worker`, which have no
  -- buffer, is one step with its receipt.
  pub data Step (should_done : ℕ) : Batch A → Batch A → Type 0 where
    start :
        (s : Batch A) (tx : A) (rest : List A)
        → s.waiting ≡ tx ∷ rest
        → length s.running + s.sent < max_extracting_size
        → Step should_done s (record s { waiting = rest; running = tx ∷ s.running })
    produce :
        (s : Batch A) (front : List A) (tx : A) (back : List A)
        → s.running ≡ front ++ tx ∷ back
        → s.returned ≡ false
        → Step should_done s
            (record s { running = front ++ back; sent = suc s.sent; values = s.values ++ tx ∷ [] })
    release : (s : Batch A) (n : ℕ) → s.sent ≡ suc n → Step should_done s (record s { sent = n })
    deliver :
        (s : Batch A) (tx : A) (rest : List A)
        → s.values ≡ tx ∷ rest
        → s.busy ≡ none
        → s.returned ≡ false
        → Step should_done s (record s { values = rest; busy = some tx })
    save :
        (s : Batch A) (tx : A)
        → s.busy ≡ some tx
        → Step should_done s (record s {
          busy = none;
          saved = s.saved ++ tx ∷ [];
          quit = if length s.saved + 1 == should_done then true else s.quit;
        })
    exit :
        (s : Batch A)
        → s.quit ≡ true
        → s.returned ≡ false
        → Step should_done s (record s { returned = true })

  pub data Reach (should_done : ℕ) (s : Batch A) : Batch A → Type 0 where
    here : Reach should_done s s
    next : {t u : Batch A} → Reach should_done s t → Step should_done t u → Reach should_done s u
