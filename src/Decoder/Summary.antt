-- ===== src/Decoder/Summary.antt =====
-- `CreateSimpleSummaryRawTransaction` and `CreateSummaryRawTransactionWithError`.
pub mod Collect
pub mod Collected
pub mod Summarised
use Prim.Native.Nat.{Ordering}
use near_adapter.Prelude.{
  Bool, true, false, ◌||◌, List, [], ◌∷◌, Text, codes, Option, none, some, map, ◌++◌, if◌then◌else◌,
}
use near_adapter.Go.{GoError, coded, insufficient_balance_of_account}
use near_adapter.Exec.{Exec, pure, raise, ◌>>=◌}
use near_adapter.Platform.{Platform}
use near_adapter.Config.{NearBlockScanner}
use near_adapter.Wallet.{Balance}
use near_adapter.Decoder.Keys.{Address, RawTransaction, SummaryRawTransaction, Wallet}
use near_adapter.Decoder.Create.{
  decimal_of, estimate_fees, retained_balance, balance_at, is_less, new_addr_balance,
  create_raw_transaction, no_addresses,
}

abbrev pub is_not_greater : Ordering → Bool
is_not_greater Ordering.gt = false
is_not_greater _ = true

module _ (p : Platform) (bs : NearBlockScanner) (wallet : Wallet p.World) where
  open p use {World, Decimal}

  -- The balance less what the address keeps and the fees.
  unfoldable pub summary_amount : Decimal → Decimal → Decimal
  summary_amount balance fees = p.sub (p.sub balance (retained_balance p bs wallet)) fees

  -- The amount that the address gives, unless it is passed over.
  unfoldable pub amount_to_collect : Decimal → Decimal → Balance → Option Decimal
  amount_to_collect min_transfer fees b =
      let balance = decimal_of p bs wallet b.balance in
      let amount = summary_amount balance fees in
      if is_less (p.cmp balance min_transfer) || is_not_greater (p.cmp balance p.zero_decimal)
      then none
      else if is_not_greater (p.cmp amount p.zero_decimal)
      then none
      else some amount

  unfoldable pub summary_transaction : SummaryRawTransaction → Text → RawTransaction
  summary_transaction sum_raw_tx amount = record {
    coin = sum_raw_tx.coin;
    account_id = sum_raw_tx.account_id;
    to = (sum_raw_tx.summary_address, amount) ∷ [];
    required = 1;
    raw_hex = [];
    signatures = [];
    fee_rate = [];
    fees = [];
    is_built = false;
    is_submit = false;
    tx_id = [];
    tx_amount = [];
    tx_from = [];
    tx_to = [];
  }

  -- One address: the transactions that it adds to the list.
  unfoldable pub collect_one :
      SummaryRawTransaction → Decimal → Decimal → Option Balance → Exec World (List RawTransaction)
  collect_one sum_raw_tx min_transfer fees none = pure []
  collect_one sum_raw_tx min_transfer fees (some b) = elim (amount_to_collect min_transfer fees b) [
    | none ↦ pure []
    | some amount ↦ (do
      raw_tx ←
          create_raw_transaction p bs wallet
            (summary_transaction sum_raw_tx (p.decimal_string amount)) (new_addr_balance b)
      pure (raw_tx ∷ []))
  ]

  -- `for _, addr := range addresses`
  unfoldable pub collect :
      SummaryRawTransaction → Decimal → Decimal → List Address → Exec World (List RawTransaction)
  collect sum_raw_tx min_transfer fees [] = pure []
  collect sum_raw_tx min_transfer fees (a ∷ rest) = do
    b ← balance_at p bs wallet a.address
    made ← collect_one sum_raw_tx min_transfer fees b
    more ← collect sum_raw_tx min_transfer fees rest
    pure (made ++ more)

  unfoldable pub collect_from :
      SummaryRawTransaction → Decimal → List Address → Exec World (List RawTransaction)
  collect_from sum_raw_tx min_transfer [] = no_addresses p bs wallet sum_raw_tx.account_id
  collect_from sum_raw_tx min_transfer (a ∷ rest) = do
    fees ← estimate_fees p bs wallet
    collect sum_raw_tx min_transfer fees (a ∷ rest)

  -- `minTransfer` and the first `retainedBalance` are read from the same setting.
  unfoldable pub create_simple_summary_raw_transaction :
      SummaryRawTransaction → Exec World (List RawTransaction)
  unfolding collect_from
  create_simple_summary_raw_transaction sum_raw_tx =
      let min_transfer = decimal_of p bs wallet bs.wm.config.address_retain_amount in
      let retained = decimal_of p bs wallet bs.wm.config.address_retain_amount in
      if is_less (p.cmp min_transfer retained)
      then raise (
          coded insufficient_balance_of_account
            (codes "mini transfer amount must be greater than address retained balance"))
      else (do
        addresses ←
            wallet.get_address_list sum_raw_tx.address_start_index sum_raw_tx.address_limit
              ((codes "AccountID", sum_raw_tx.account_id) ∷ [])
        collect_from sum_raw_tx min_transfer addresses)

  -- Each transaction with the error nil.
  pub create_summary_raw_transaction_with_error :
      SummaryRawTransaction → Exec World (List (RawTransaction × Option GoError))
  create_summary_raw_transaction_with_error sum_raw_tx = do
    raw_txs ← create_simple_summary_raw_transaction sum_raw_tx
    pure (map (λ tx. (tx, none)) raw_txs)
