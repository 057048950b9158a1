-- ===== src/Scanner/Channels/Told.antt =====
-- What the observers are told when the goroutines of a batch have run.
use mathlib.Core.Path.{subst}
use mathlib.Core.List.{Perm}
use mathlib.Core.List.Perm
use near_adapter.Exec.Writes.{flat_map-Perm}
use near_adapter.Prelude.{ℕ, ◌≤◌, ◌≡◌, sym, ap, ◌∙◌, true, List, ◌++◌, length, Text}
use near_adapter.Go.{ok-injective}
use near_adapter.Platform.{Platform}
use near_adapter.Config.{NearBlockScanner, max_extracting_size}
use near_adapter.Model.{TxTransfer}
use near_adapter.Scanner.Notify.Delivered.{Delivery, Logs, deliveries, save_work_delivers}
use near_adapter.Scanner.Channels.{Batch, begin}
use near_adapter.Scanner.Channels.Conserve.{batch_saves_all}
use near_adapter.Scanner.Channels.Refine.{Run, Run-Reach, Run-save_work}

module _ (p : Platform) (bs : NearBlockScanner) (height : ℕ) (hash : Text) where
  open p use {World, Observer}

  deliveries-Perm :
      (os : List Observer) {txs order : List TxTransfer}
      → Perm order txs
      → Perm (deliveries p bs height hash os order) (deliveries p bs height hash os txs)
  unfolding deliveries
  deliveries-Perm os q = flat_map-Perm _ q

  -- However the goroutines of a batch run, when the call returns each observer has been told, for
  -- each transfer once, each entry that was extracted for each account, in some order, and nothing
  -- else, and no failure is counted; also where observers refused what they were told. `range` may
  -- meet the observers and the accounts in another order each time. Goroutines of an earlier batch
  -- hold at most ten tokens at the start, and no call panics.
  pub Run_delivers :
      {P : World → Type 0} {log : World → List (Delivery p bs)} {os : List Observer}
      (v : Logs p bs P log os) {txs : List TxTransfer} {held : ℕ} {w w1 : World}
      {s : Batch TxTransfer} {f : ℕ}
      → held ≤ max_extracting_size
      → P w
      → Run p bs height hash (length txs) (begin txs held) w s w1 f
      → s.returned ≡ true
      → (f ≡ 0)
        × ((out : List (Delivery p bs)) × (log w1 ≡ log w ++ out)
            × Perm out (deliveries p bs height hash os txs))
  Run_delivers {log = log} {os = os} v {w = w} {s = s} few h r over =
      let (w', e, (h', (out, l, told))) = save_work_delivers p bs v height hash s.saved w h in
      let same = sym (Run-save_work p bs height hash r) ∙ e in
      (
        ok-injective (ap (λ x. x.0) same),
        (
          out,
          subst (λ x. log x ≡ log w ++ out) (sym (ap (λ x. x.1) same)) l,
          Perm.trans told
              (deliveries-Perm os ((batch_saves_all few (Run-Reach p bs height hash r)).1 over)),
        ),
      )
