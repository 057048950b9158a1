-- ===== src/Tests/Chain.antt =====
-- The scanner's queries, a batch and the decoder's choice on the small node.
use mathlib.Core.Path.{subst}
use near_adapter.Prelude.{
  ℕ, ◌≡◌, refl, sym, Bool, true, false, List, [], ◌∷◌, Text, text_eq, codes, if◌then◌else◌, All,
  ◌==◌, Bool-cases, inl, inr,
}
use near_adapter.Go.{ok, library}
use near_adapter.Exec.{pure, raise, ◌>>=◌}
use near_adapter.Exec.Keeps.{Keeps, Keeps-pure, Keeps-raise}
use near_adapter.Model.{string, Block, Transaction, TxTransfer}
use near_adapter.Wallet.{UnscanRecord}
use near_adapter.Config.{new_config}
use near_adapter.Api.{call, checked_reply, is_error, format_int, decimal_digits}
use near_adapter.Node.{
  get_block_by_height, with_transfers, chunks_transfers, transactions_transfers,
  transaction_transfers, with_actions, record_transfer, get_tx_status, read_status, fee_status,
  gather_tx_fee, sum_fees, has_key, get_tx_by_chunk,
}
use near_adapter.Node.Actions.{
  actions_loop, read_action, after_action, read_transfer, find_member, deposit_text, transfer, bare,
}
use near_adapter.Node.Blocks.{Assembled, get_block_by_height-Assembled}
use near_adapter.Node.Transfers.{transaction_transfers_last}
use near_adapter.Db.{save_unscan_record, delete_unscan_record}
use near_adapter.Scanner.Extract.{extract_transaction, extract_tx_output}
use near_adapter.Scanner.Extract.Sides.{
  entries_of, inputs_of, outputs_of, extract_transaction_sides,
}
use near_adapter.Scanner.Notify.{batch_extract_transaction}
use near_adapter.Scanner.Notify.Batch.{BatchKeeps, batch_returns_nil}
use near_adapter.Scanner.Rescan.{rescan_height}
use near_adapter.Scanner.Rescan.Lost.{rescan_height_deletes}
use near_adapter.Decoder.Keys.{Address}
use near_adapter.Decoder.Create.{find_addr_balance}
use near_adapter.Decoder.Create.Choice.{Finds, find_addr_balance-Finds}
use near_adapter.Tests.Demo.{
  World, wallet, without_height, platform, scanner, block_on, demo_transaction, started,
  transfer_of,
}

abbrev two_actions : Transaction
two_actions =
    demo_transaction
      (transfer_of (codes "6") ∷ transfer_of (codes "7") ∷ string (codes "CreateAccount") ∷ [])

transaction_transfers_last_example :
    ((v : Text)
      → read_action (string (codes "CreateAccount")) ≡ transfer (ok v)
      → text_eq v (codes "0") ≡ false
      → transaction_transfers platform scanner two_actions started
        ≡ (record_transfer platform scanner two_actions v >>= λ t. pure (t ∷ [])) started)
    × (read_action (string (codes "CreateAccount")) ≡ bare
        → transaction_transfers platform scanner two_actions started ≡ (ok [], started))
unfolding read_action read_transfer find_member deposit_text text_eq
transaction_transfers_last_example =
    transaction_transfers_last platform scanner two_actions
      (transfer_of (codes "6") ∷ transfer_of (codes "7") ∷ []) [] (string (codes "CreateAccount"))
      started refl (tt, (tt, tt)) tt

abbrev pub demo_transfer : TxTransfer
demo_transfer = record {
  from = codes "alice";
  to = codes "bob";
  tx_id = codes "tx";
  value = codes "0";
  fee = codes "0";
  status = codes "1";
}

abbrev pub served_on : ℕ → ℕ → Block
served_on b h = record (block_on b h) { tx_transfer = demo_transfer ∷ [] }

abbrev pub served_block : ℕ → Block
served_block = served_on 0

-- The node answers and is on the branch `b`.
abbrev pub Answers : ℕ → World → Type 0
Answers b w = (w.busy ≡ false) × (w.branch ≡ b)

-- A world in which the node answers is one with those two fields set.
pub answering :
    {b : ℕ} (P : World → Type 0)
    → ((w : World) → P (record w { busy = false; branch = b }))
    → (w : World) → Answers b w
    → P w
answering {b} P holds w a =
    subst (λ x. P (record w { busy = x; branch = w.branch })) (sym a.0)
      (subst (λ x. P (record w { busy = false; branch = x })) (sym a.1) (holds w))

served_then :
    (b h : ℕ) (w : World)
    → get_block_by_height platform scanner h true (record w { busy = false; branch = b })
      ≡ (ok (served_on b h), record w { busy = false; branch = b })
unfolding get_block_by_height with_transfers chunks_transfers transactions_transfers
    transaction_transfers with_actions record_transfer get_tx_status read_status fee_status
    gather_tx_fee sum_fees has_key get_tx_by_chunk call checked_reply is_error format_int
    decimal_digits actions_loop read_action after_action read_transfer find_member deposit_text
    text_eq new_config
served_then b h w = refl

pub served :
    (b h : ℕ) (w : World)
    → Answers b w
    → get_block_by_height platform scanner h true w ≡ (ok (served_on b h), w)
served b h =
    answering (λ w. get_block_by_height platform scanner h true w ≡ (ok (served_on b h), w))
      (served_then b h)

get_block_by_height-Assembled_example :
    Assembled platform scanner 3 started started (served_block 3)
get_block_by_height-Assembled_example =
    get_block_by_height-Assembled platform scanner 3 started started (served_block 3)
      (served 0 3 started (refl, refl))

extract_transaction_sides_example :
    (inputs_of (
        entries_of
          (codes "bob")
          (extract_transaction platform scanner 3 (3 ∷ []) demo_transfer).extract_data)
      ≡ [])
    × (outputs_of (
          entries_of
            (codes "bob")
            (extract_transaction platform scanner 3 (3 ∷ []) demo_transfer).extract_data)
        ≡ extract_tx_output platform scanner demo_transfer 3 (3 ∷ []) ∷ [])
unfolding text_eq
extract_transaction_sides_example =
    extract_transaction_sides platform scanner 3 (3 ∷ []) demo_transfer (codes "bob") refl refl

-- The two calls of a batch change nothing but the unscan records.
pub batch_keeps :
    (P : World → Type 0)
    → ((w : World) (r : UnscanRecord) → P w → P (record w { unscan = r ∷ w.unscan }))
    → BatchKeeps platform scanner P
unfolding save_unscan_record
batch_keeps P stays = record {
  notifies = λ o key entry. either o;
  records = λ r. record { at = λ w h. (stays w r h, tt) };
}
  where
    either : (o : Bool) → Keeps true P (if o then pure tt else raise (library (codes "refused")))
    either true = Keeps-pure tt
    either false = Keeps-raise (library (codes "refused"))

batch_returns_nil_example :
    (w' : World) × (batch_extract_transaction platform scanner 3
        (3 ∷ [])
        (demo_transfer ∷ [])
        started
      ≡ (ok tt, w'))
    × (w'.notices ≡ [])
batch_returns_nil_example =
    batch_returns_nil platform scanner (batch_keeps (λ w. w.notices ≡ []) (λ w r h. h)) 3 (3 ∷ [])
      (demo_transfer ∷ []) started refl

abbrev IsGone : ℕ → List UnscanRecord → Type 0
IsGone h rs = All (λ r. (r.block_height == h) ≡ false) rs

without_height-IsGone : (h : ℕ) (rs : List UnscanRecord) → IsGone h (without_height h rs)
without_height-IsGone h [] = tt
without_height-IsGone h (r ∷ rs) = elim (Bool-cases (r.block_height == h)) [
  | inl same ↦ rw same (without_height-IsGone h rs)
  | inr other ↦ rw other (other, without_height-IsGone h rs)
]

deleted :
    (w : World)
    → (w' : World) × (delete_unscan_record platform scanner 3 w ≡ (ok tt, w')) × IsGone 3 w'.unscan
unfolding delete_unscan_record
deleted w =
    (record w { unscan = without_height 3 w.unscan }, refl, without_height-IsGone 3 w.unscan)

rescan_height_deletes_example :
    (w' : World) × (rescan_height platform scanner 3 started ≡ (ok tt, w')) × IsGone 3 w'.unscan
rescan_height_deletes_example =
    rescan_height_deletes platform scanner {Safe = λ w. Unit {0}} {Gone = λ w. IsGone 3 w.unscan}
      (batch_keeps (λ w. Unit {0}) (λ w r h. tt)) 2 (served_block 3) started started
      (served 0 3 started (refl, refl)) tt (λ w h. deleted w)

abbrev address_of : Text → Address
address_of a = record { address = a; public_key = []; hd_path = [] }

-- The node of these tests says that the balance of an account is what its name spells.
find_addr_balance-Finds_example :
    Finds platform scanner wallet 20
      (address_of (codes "10") ∷ address_of (codes "30") ∷ [])
      started
      (find_addr_balance platform scanner wallet 20
        (address_of (codes "10") ∷ address_of (codes "30") ∷ [])
        started)
find_addr_balance-Finds_example =
    find_addr_balance-Finds platform scanner wallet 20
      (address_of (codes "10") ∷ address_of (codes "30") ∷ []) started
