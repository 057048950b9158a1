-- ===== src/Decoder/Summary/Collect.antt =====
-- What a summary takes from an address.
use Prim.Native.Nat.{Ordering}
use near_adapter.Prelude.{
  ◌≡◌, refl, ap, sym, ◌∙◌, Bool, true, false, ◌||◌, none, some, [], ◌∷◌, codes, if◌then◌else◌,
  arith,
}
use near_adapter.Exec.{◌>>=◌}
use near_adapter.Platform.{Platform}
use near_adapter.Config.{NearBlockScanner}
use near_adapter.Wallet.{Balance}
use near_adapter.Decoder.Keys.{SummaryRawTransaction, Wallet}
use near_adapter.Decoder.Create.{decimal_of, retained_balance, is_less}
use near_adapter.Decoder.Summary.{
  is_not_greater, summary_amount, amount_to_collect, collect_from,
  create_simple_summary_raw_transaction,
}

either_false : (a b : Bool) → (a || b) ≡ false → (a ≡ false) × (b ≡ false)
either_false a b h = ground arith

guarded :
    {D : Type 0} (a b : Bool) (d amount : D)
    → (if a then none else if b then none else some d) ≡ some amount
    → (a ≡ false) × (b ≡ false) × (d ≡ amount)
guarded true b d amount h = cc
guarded false true d amount h = cc
guarded false false d amount h = (refl, refl, cc)

module _ (p : Platform) (bs : NearBlockScanner) (wallet : Wallet p.World) where
  open p use {World, Decimal}

  -- Where adding undoes subtracting, what a summary takes from an address, the fees and what the
  -- address keeps make up its balance. The amount is greater than 0, and the balance is not less
  -- than the least one to transfer and greater than 0.
  pub amount_to_collect_conserves :
      (undoes : (x y : Decimal) → p.add (p.sub x y) y ≡ x) (min_transfer fees amount : Decimal)
      (b : Balance)
      → amount_to_collect p bs wallet min_transfer fees b ≡ some amount
      → (p.add (p.add amount fees) (retained_balance p bs wallet)
          ≡ decimal_of p bs wallet b.balance)
        × (is_not_greater (p.cmp amount p.zero_decimal) ≡ false)
        × (is_less (p.cmp (decimal_of p bs wallet b.balance) min_transfer) ≡ false)
        × (is_not_greater (p.cmp (decimal_of p bs wallet b.balance) p.zero_decimal) ≡ false)
  unfolding amount_to_collect summary_amount
  amount_to_collect_conserves undoes min_transfer fees amount b h =
      let balance = decimal_of p bs wallet b.balance in
      let retained = retained_balance p bs wallet in
      let (enough, positive, e) = guarded _ _ _ amount h in
      let (not_small, not_empty) = either_false _ _ enough in
      (
        ap (λ a. p.add (p.add a fees) retained) (sym e)
            ∙ ap (λ a. p.add a retained) (undoes (p.sub balance retained) fees)
            ∙ undoes balance retained,
        ap (λ a. is_not_greater (p.cmp a p.zero_decimal)) (sym e) ∙ positive,
        not_small,
        not_empty,
      )

  -- Where a decimal compares equal to itself, the check of the least amount to transfer never
  -- refuses a summary: the addresses are asked for at once.
  pub create_simple_summary_raw_transaction-collect_from :
      ((x : Decimal) → p.cmp x x ≡ Ordering.eq)
      → (sum_raw_tx : SummaryRawTransaction) (w : World)
      → create_simple_summary_raw_transaction p bs wallet sum_raw_tx w
        ≡ (wallet.get_address_list sum_raw_tx.address_start_index sum_raw_tx.address_limit
                ((codes "AccountID", sum_raw_tx.account_id) ∷ [])
              >>= collect_from p bs wallet sum_raw_tx
                  (decimal_of p bs wallet bs.wm.config.address_retain_amount))
            w
  unfolding create_simple_summary_raw_transaction
  create_simple_summary_raw_transaction-collect_from same sum_raw_tx w =
      rw (same (decimal_of p bs wallet bs.wm.config.address_retain_amount)) refl
