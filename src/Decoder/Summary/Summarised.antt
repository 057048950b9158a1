-- ===== src/Decoder/Summary/Summarised.antt =====
-- The transactions of a summary.
use Prim.Native.Nat.{Ordering}
use near_adapter.Prelude.{
  ◌≡◌, refl, ap, sym, ◌∙◌, Bool, true, false, List, [], ◌∷◌, ◌++◌, codes, Option, none, some,
}
use near_adapter.Go.{ok, ok-injective}
use near_adapter.Exec.{pure, ◌>>=◌}
use near_adapter.Exec.Success.{>>=-goes}
use near_adapter.Platform.{Platform}
use near_adapter.Config.{NearBlockScanner}
use near_adapter.Wallet.{Balance}
use near_adapter.Decoder.Keys.{Address, RawTransaction, SummaryRawTransaction, Wallet}
use near_adapter.Decoder.Create.{
  decimal_of, estimate_fees, balance_at, is_less, new_addr_balance, create_raw_transaction,
  no_addresses,
}
use near_adapter.Decoder.Create.Built.{create_raw_transaction-BuiltFrom}
use near_adapter.Decoder.Summary.Collected.{
  left_over, GivesNothing, unknown, too_small, empty, used_up, Gives, Collected, nobody, passed,
  given, Summarised,
}
use near_adapter.Decoder.Summary.{
  is_not_greater, summary_amount, amount_to_collect, summary_transaction, collect_one, collect,
  collect_from, create_simple_summary_raw_transaction,
}
use near_adapter.Decoder.Summary.Collect.{create_simple_summary_raw_transaction-collect_from}

module _ (p : Platform) (bs : NearBlockScanner) (wallet : Wallet p.World)
    (sum_raw_tx : SummaryRawTransaction) where
  open p use {World, Decimal}

  abbrev least : Decimal
  least = decimal_of p bs wallet bs.wm.config.address_retain_amount

  -- The three tests of one balance.
  data Decision (fees : Decimal) (b : Balance) : Type 0 where
    nothing :
        GivesNothing p bs wallet sum_raw_tx fees (some b)
        → amount_to_collect p bs wallet least fees b ≡ none
        → Decision fees b
    something :
        is_less (p.cmp (decimal_of p bs wallet b.balance) least) ≡ false
        → is_not_greater (p.cmp (decimal_of p bs wallet b.balance) p.zero_decimal) ≡ false
        → is_not_greater (p.cmp (left_over p bs wallet sum_raw_tx fees b) p.zero_decimal) ≡ false
        → amount_to_collect p bs wallet least fees b
          ≡ some (left_over p bs wallet sum_raw_tx fees b)
        → Decision fees b

  decide : (fees : Decimal) (b : Balance) → Decision fees b
  unfolding amount_to_collect summary_amount
  decide fees b =
      let balance = decimal_of p bs wallet b.balance in
      by (is_less (p.cmp balance least)) (is_not_greater (p.cmp balance p.zero_decimal))
        (is_not_greater (p.cmp (left_over p bs wallet sum_raw_tx fees b) p.zero_decimal)) refl refl
        refl
    where
      by :
          (x y z : Bool)
          → is_less (p.cmp (decimal_of p bs wallet b.balance) least) ≡ x
          → is_not_greater (p.cmp (decimal_of p bs wallet b.balance) p.zero_decimal) ≡ y
          → is_not_greater (p.cmp (left_over p bs wallet sum_raw_tx fees b) p.zero_decimal) ≡ z
          → Decision fees b
      by true y z ex ey ez = nothing (too_small b ex) (rw ex refl)
      by false true z ex ey ez = nothing (empty b ey) (rw (ex, ey) refl)
      by false false true ex ey ez = nothing (used_up b ez) (rw (ex, ey, ez) refl)
      by false false false ex ey ez = something ex ey ez (rw (ex, ey, ez) refl)

  gives :
      (fees : Decimal) (b : Balance) (tx : RawTransaction) (w w' : World)
      → is_less (p.cmp (decimal_of p bs wallet b.balance) least) ≡ false
      → is_not_greater (p.cmp (decimal_of p bs wallet b.balance) p.zero_decimal) ≡ false
      → is_not_greater (p.cmp (left_over p bs wallet sum_raw_tx fees b) p.zero_decimal) ≡ false
      → create_raw_transaction p bs wallet
          (summary_transaction p bs wallet sum_raw_tx
            (p.decimal_string (left_over p bs wallet sum_raw_tx fees b)))
          (new_addr_balance b)
          w
        ≡ (ok tx, w')
      → Gives p bs wallet sum_raw_tx fees b w w' tx
  unfolding summary_transaction
  gives fees b tx w w' s1 s2 s3 e = record {
    positive = s3;
    large_enough = s1;
    not_empty = s2;
    asked =
        summary_transaction p bs wallet sum_raw_tx
          (p.decimal_string (left_over p bs wallet sum_raw_tx fees b));
    to_summary = refl;
    for_account = refl;
    unsigned = refl;
    of_coin = refl;
    created = e;
    built_from = create_raw_transaction-BuiltFrom p bs wallet _ (new_addr_balance b) w w' tx e;
  }

  -- What one address adds, in front of the others.
  adds_nothing :
      (fees : Decimal) (a : Address) (b : Option Balance) (rest : List Address)
      (made more : List RawTransaction) (w w1 w2 w3 : World)
      → balance_at p bs wallet a.address w ≡ (ok b, w1)
      → GivesNothing p bs wallet sum_raw_tx fees b
      → pure [] w1 ≡ (ok made, w2)
      → Collected p bs wallet sum_raw_tx fees rest more w2 w3
      → Collected p bs wallet sum_raw_tx fees (a ∷ rest) (made ++ more) w w3
  adds_nothing fees a b rest made more w w1 w2 w3 e g h c =
      rw (sym (ok-injective (ap (λ r. r.0) h))) (passed a b e g (rw (ap (λ r. r.1) h) c))

  adds_one :
      (fees : Decimal) (a : Address) (b : Balance) (rest : List Address)
      (made more : List RawTransaction) (tx : RawTransaction) (w w1 wc w2 w3 : World)
      → balance_at p bs wallet a.address w ≡ (ok (some b), w1)
      → Gives p bs wallet sum_raw_tx fees b w1 wc tx
      → pure (tx ∷ []) wc ≡ (ok made, w2)
      → Collected p bs wallet sum_raw_tx fees rest more w2 w3
      → Collected p bs wallet sum_raw_tx fees (a ∷ rest) (made ++ more) w w3
  adds_one fees a b rest made more tx w w1 wc w2 w3 e g h c =
      rw (sym (ok-injective (ap (λ r. r.0) h))) (given a b e g (rw (ap (λ r. r.1) h) c))

  collect_one_passes :
      (fees : Decimal) (b : Balance) (w : World)
      → amount_to_collect p bs wallet least fees b ≡ none
      → collect_one p bs wallet sum_raw_tx least fees (some b) w ≡ pure [] w
  unfolding collect_one
  collect_one_passes fees b w n = rw (n, collect_one) refl

  collect_one_creates :
      (fees amount : Decimal) (b : Balance) (w : World)
      → amount_to_collect p bs wallet least fees b ≡ some amount
      → collect_one p bs wallet sum_raw_tx least fees (some b) w
        ≡ (create_raw_transaction p bs wallet
                (summary_transaction p bs wallet sum_raw_tx (p.decimal_string amount))
                (new_addr_balance b)
              >>= λ tx. pure (tx ∷ []))
            w
  unfolding collect_one
  collect_one_creates fees amount b w n = rw (n, collect_one) refl

  adds :
      (fees : Decimal) (a : Address) (b : Option Balance) (rest : List Address)
      (made more : List RawTransaction) (w w1 w2 w3 : World)
      → balance_at p bs wallet a.address w ≡ (ok b, w1)
      → collect_one p bs wallet sum_raw_tx least fees b w1 ≡ (ok made, w2)
      → Collected p bs wallet sum_raw_tx fees rest more w2 w3
      → Collected p bs wallet sum_raw_tx fees (a ∷ rest) (made ++ more) w w3
  unfolding collect_one
  adds fees a none rest made more w w1 w2 w3 e h c =
      adds_nothing fees a none rest made more w w1 w2 w3 e unknown h c
  adds fees a (some b) rest made more w w1 w2 w3 e h c = by (decide fees b) h
    where
      by :
          Decision fees b
          → collect_one p bs wallet sum_raw_tx least fees (some b) w1 ≡ (ok made, w2)
          → Collected p bs wallet sum_raw_tx fees (a ∷ rest) (made ++ more) w w3
      by (nothing g n) h' =
          adds_nothing fees a (some b) rest made more w w1 w2 w3 e g
            (sym (collect_one_passes fees b w1 n) ∙ h') c
      by (something s1 s2 s3 n) h' =
          >>=-goes
            (create_raw_transaction p bs wallet
              (summary_transaction p bs wallet sum_raw_tx
                (p.decimal_string (left_over p bs wallet sum_raw_tx fees b)))
              (new_addr_balance b))
            _ w1 w2 made
            (sym (collect_one_creates fees (left_over p bs wallet sum_raw_tx fees b) b w1 n) ∙ h')
            λ tx wc ec hc.
              adds_one fees a b rest made more tx w w1 wc w2 w3 e
                (gives fees b tx w1 wc s1 s2 s3 ec) hc c

  collect-Collected :
      (fees : Decimal) (addresses : List Address) (w w' : World) (txs : List RawTransaction)
      → collect p bs wallet sum_raw_tx least fees addresses w ≡ (ok txs, w')
      → Collected p bs wallet sum_raw_tx fees addresses txs w w'
  unfolding collect
  collect-Collected fees [] w w' txs h =
      rw (sym (ok-injective (ap (λ r. r.0) h)), sym (ap (λ r. r.1) h)) (nobody w)
  collect-Collected fees (a ∷ rest) w w' txs h =
      >>=-goes (balance_at p bs wallet a.address) _ w w' txs h λ b w1 e1 h1.
        >>=-goes (collect_one p bs wallet sum_raw_tx least fees b) _ w1 w' txs h1 λ made w2 e2 h2.
          >>=-goes (collect p bs wallet sum_raw_tx least fees rest) _ w2 w' txs h2 λ more w3 e3 h3.
            rw (sym (ok-injective (ap (λ r. r.0) h3)), sym (ap (λ r. r.1) h3))
              (adds fees a b rest made more w w1 w2 w3 e1 e2
                (collect-Collected fees rest w2 w3 more e3))

  collect_from-Summarised :
      (w w1 w' : World) (addresses : List Address) (txs : List RawTransaction)
      → wallet.get_address_list sum_raw_tx.address_start_index sum_raw_tx.address_limit
          ((codes "AccountID", sum_raw_tx.account_id) ∷ [])
          w
        ≡ (ok addresses, w1)
      → collect_from p bs wallet sum_raw_tx least addresses w1 ≡ (ok txs, w')
      → Summarised p bs wallet sum_raw_tx w w' txs
  unfolding collect_from no_addresses
  collect_from-Summarised w w1 w' [] txs e h = cc
  collect_from-Summarised w w1 w' (a ∷ rest) txs e h =
      >>=-goes (estimate_fees p bs wallet) _ w1 w' txs h λ fees w2 e2 h2. record {
        first = a;
        others = rest;
        fees = fees;
        listed = w1;
        priced = w2;
        addresses_are = e;
        fees_are = e2;
        collected = collect-Collected fees (a ∷ rest) w2 w' txs h2;
      }

  -- Where a summary succeeds (and a decimal compares equal to itself), the addresses of the account
  -- were asked for their balances once, in order. An address without a balance, or whose balance is
  -- smaller than the least one to transfer, or not more than what it keeps and the fees, or than
  -- nothing, gives no transaction; each other one gives one, in this order, which createRawTransaction
  -- built for the summary address alone, over all that the address does not keep and the fees do not
  -- take.
  pub create_simple_summary_raw_transaction-Summarised :
      ((x : Decimal) → p.cmp x x ≡ Ordering.eq)
      → (w w' : World) (txs : List RawTransaction)
      → create_simple_summary_raw_transaction p bs wallet sum_raw_tx w ≡ (ok txs, w')
      → Summarised p bs wallet sum_raw_tx w w' txs
  create_simple_summary_raw_transaction-Summarised same w w' txs h =
      >>=-goes
        (wallet.get_address_list sum_raw_tx.address_start_index sum_raw_tx.address_limit
          ((codes "AccountID", sum_raw_tx.account_id) ∷ []))
        (collect_from p bs wallet sum_raw_tx least) w w' txs
        (sym (create_simple_summary_raw_transaction-collect_from p bs wallet same sum_raw_tx w) ∙ h)
        λ addresses w1 e h1. collect_from-Summarised w w1 w' addresses txs e h1
