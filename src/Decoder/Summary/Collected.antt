-- ===== src/Decoder/Summary/Collected.antt =====
-- What a summary makes of the addresses of an account.
use near_adapter.Prelude.{◌≡◌, true, false, List, [], ◌∷◌, codes, Option, none, some}
use near_adapter.Go.{ok}
use near_adapter.Platform.{Platform}
use near_adapter.Config.{NearBlockScanner}
use near_adapter.Wallet.{Balance}
use near_adapter.Decoder.Keys.{Address, RawTransaction, SummaryRawTransaction, Wallet}
use near_adapter.Decoder.Create.{
  decimal_of, estimate_fees, retained_balance, balance_at, is_less, new_addr_balance,
  create_raw_transaction,
}
use near_adapter.Decoder.Create.Built.{BuiltFrom}
use near_adapter.Decoder.Summary.{is_not_greater}

module _ (p : Platform) (bs : NearBlockScanner) (wallet : Wallet p.World)
    (sum_raw_tx : SummaryRawTransaction) where
  open p use {World, Decimal}

  -- What is left of a balance when the address keeps its part and the fees are paid.
  abbrev pub left_over : Decimal → Balance → Decimal
  left_over fees b =
      p.sub (p.sub (decimal_of p bs wallet b.balance) (retained_balance p bs wallet)) fees

  -- Why an address gives nothing: no balance was given, it is too small, or it is not more than
  -- what is kept and paid.
  pub data GivesNothing (fees : Decimal) : Option Balance → Type 0 where
    unknown : GivesNothing fees none
    too_small :
        (b : Balance)
        → is_less (
            p.cmp
              (decimal_of p bs wallet b.balance)
              (decimal_of p bs wallet bs.wm.config.address_retain_amount))
          ≡ true
        → GivesNothing fees (some b)
    empty :
        (b : Balance)
        → is_not_greater (p.cmp (decimal_of p bs wallet b.balance) p.zero_decimal) ≡ true
        → GivesNothing fees (some b)
    used_up :
        (b : Balance)
        → is_not_greater (p.cmp (left_over fees b) p.zero_decimal) ≡ true
        → GivesNothing fees (some b)

  -- The transaction that an address with the balance `b` gives: it is built for the summary address
  -- alone, over what is left of the balance, which is more than nothing.
  pub record Gives (fees : Decimal) (b : Balance) (w w' : World) (tx : RawTransaction)
      : Type 0 where
    pub positive : is_not_greater (p.cmp (left_over fees b) p.zero_decimal) ≡ false
    pub large_enough :
        is_less (
          p.cmp
            (decimal_of p bs wallet b.balance)
            (decimal_of p bs wallet bs.wm.config.address_retain_amount))
        ≡ false
    pub not_empty : is_not_greater (p.cmp (decimal_of p bs wallet b.balance) p.zero_decimal) ≡ false
    pub asked : RawTransaction
    pub to_summary :
        asked.to ≡ (sum_raw_tx.summary_address, p.decimal_string (left_over fees b)) ∷ []
    pub for_account : asked.account_id ≡ sum_raw_tx.account_id
    pub unsigned : asked.signatures ≡ []
    pub of_coin : asked.coin ≡ sum_raw_tx.coin
    pub created : create_raw_transaction p bs wallet asked (new_addr_balance b) w ≡ (ok tx, w')
    pub built_from : BuiltFrom p bs wallet asked (new_addr_balance b) tx

  -- The addresses in order, each asked for its balance once, and the transactions that they give.
  pub data Collected (fees : Decimal)
      : List Address → List RawTransaction → World → World → Type 0 where
    nobody : (w : World) → Collected fees [] [] w w
    passed :
        (a : Address) (b : Option Balance) {rest : List Address} {txs : List RawTransaction}
        {w w1 w2 : World}
        → balance_at p bs wallet a.address w ≡ (ok b, w1)
        → GivesNothing fees b
        → Collected fees rest txs w1 w2
        → Collected fees (a ∷ rest) txs w w2
    given :
        (a : Address) (b : Balance) {rest : List Address} {tx : RawTransaction}
        {txs : List RawTransaction} {w w1 w2 w3 : World}
        → balance_at p bs wallet a.address w ≡ (ok (some b), w1)
        → Gives fees b w1 w2 tx
        → Collected fees rest txs w2 w3
        → Collected fees (a ∷ rest) (tx ∷ txs) w w3

  -- The summary asks for the addresses of the account, then for the fees, and goes through the
  -- addresses.
  pub record Summarised (w w' : World) (txs : List RawTransaction) : Type 0 where
    pub first : Address
    pub others : List Address
    pub fees : Decimal
    pub listed : World
    pub priced : World
    pub addresses_are :
        wallet.get_address_list sum_raw_tx.address_start_index sum_raw_tx.address_limit
          ((codes "AccountID", sum_raw_tx.account_id) ∷ [])
          w
        ≡ (ok (first ∷ others), listed)
    pub fees_are : estimate_fees p bs wallet listed ≡ (ok fees, priced)
    pub collected : Collected fees (first ∷ others) txs priced w'
