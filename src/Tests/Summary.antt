-- ===== src/Tests/Summary.antt =====
-- Summaries, rescans and nil deposits on concrete values.
use Prim.Native.Nat.{Ordering, compare}
use mathlib.Core.Int
use mathlib.Core.Nat
use near_adapter.Prelude.{ℕ, ◌≡◌, refl, ◌⊎◌, true, false, [], ◌∷◌, Text, codes, none, some, arith}
use near_adapter.Prelude.Int.{pos}
use near_adapter.Go.{ok, panic}
use near_adapter.Exec.{◌>>=◌}
use near_adapter.Platform.{Platform}
use near_adapter.Wallet.{Balance}
use near_adapter.Transaction.{Transaction, serialize}
use near_adapter.Transaction.Outcomes.{has_nil, serialize_outcomes}
use near_adapter.Decoder.Keys.{SummaryRawTransaction}
use near_adapter.Decoder.Create.{decimal_of, is_less, retained_balance}
use near_adapter.Decoder.Summary.{
  is_not_greater, summary_amount, amount_to_collect, collect_from,
  create_simple_summary_raw_transaction,
}
use near_adapter.Decoder.Summary.Collect.{
  amount_to_collect_conserves, create_simple_summary_raw_transaction-collect_from,
}
use near_adapter.Tests.Demo.{started, lib, platform, scanner, wallet}

abbrev sign : Int.ℤ → Ordering
sign (Int.pos Nat.zero) = Ordering.eq
sign (Int.pos (Nat.suc n)) = Ordering.gt
sign (Int.negsuc n) = Ordering.lt

-- The platform with integers for decimals; a text stands for its length, and every float for 1.
abbrev size : Text → Nat.ℕ
size [] = Nat.zero
size (b ∷ s) = Nat.suc (size s)

abbrev exact : Platform
exact = record platform {
  Decimal = Int.ℤ;
  zero_decimal = Int.pos Nat.zero;
  new_decimal = λ n k. Int.pos Nat.zero;
  new_from_float32 = λ n k. Int.pos (Nat.suc Nat.zero);
  new_from_string = λ s. (Int.pos (size s), none);
  add = λ a b. Int.◌+ℤ◌ a b;
  sub = λ a b. Int.◌-ℤ◌ a b;
  mul = λ a b. a;
  div = λ a b. a;
  cmp = λ a b. sign (Int.◌-ℤ◌ a b);
  decimal_string = λ a. [];
  string_fixed = λ a k. [];
}

abbrev five : Balance
five = record {
  symbol = [];
  address = [];
  balance = codes "aaaaa";
  unconfirm_balance = [];
  confirm_balance = [];
}

abbrev one : Int.ℤ
one = Int.pos (Nat.suc Nat.zero)

abbrev two : Int.ℤ
two = Int.pos (Nat.suc (Nat.suc Nat.zero))

collects_two : amount_to_collect exact scanner wallet one one five ≡ some two
unfolding amount_to_collect summary_amount retained_balance
collects_two = refl

amount_to_collect_conserves_example :
    (Int.◌+ℤ◌ (Int.◌+ℤ◌ two one) (retained_balance exact scanner wallet)
      ≡ decimal_of exact scanner wallet five.balance)
    × (is_not_greater (exact.cmp two exact.zero_decimal) ≡ false)
    × (is_less (exact.cmp (decimal_of exact scanner wallet five.balance) one) ≡ false)
    × (is_not_greater (exact.cmp (decimal_of exact scanner wallet five.balance) exact.zero_decimal)
        ≡ false)
amount_to_collect_conserves_example =
    amount_to_collect_conserves exact scanner wallet Int.-ℤ-+ℤ_cancel one one two five collects_two

compare_self : (n : ℕ) → compare n n ≡ Ordering.eq
compare_self n = ground arith

abbrev summary : SummaryRawTransaction
summary = record {
  coin = record { symbol = codes "NEAR"; is_contract = false; contract_id = [] };
  account_id = codes "account";
  summary_address = codes "bob";
  address_start_index = pos 0;
  address_limit = pos 10;
}

create_simple_summary_raw_transaction-collect_from_example :
    create_simple_summary_raw_transaction platform scanner wallet summary started
    ≡ (wallet.get_address_list (pos 0) (pos 10) ((codes "AccountID", codes "account") ∷ [])
          >>= collect_from platform scanner wallet summary
              (decimal_of platform scanner wallet scanner.wm.config.address_retain_amount))
        started
create_simple_summary_raw_transaction-collect_from_example =
    create_simple_summary_raw_transaction-collect_from platform scanner wallet compare_self summary
      started

abbrev no_deposit : Transaction
no_deposit = record {
  signer_id = codes "alice";
  public_key = [];
  nonce = 1;
  receiver_id = codes "bob";
  block_hash = [];
  signature = [];
  actions = record { deposit = some (pos 1) } ∷ record { deposit = none } ∷ [];
  raw_tx_hex = [];
  raw_tx_byte = [];
}

serialize_outcomes_example :
    ((has_nil no_deposit.actions ≡ true) × (serialize lib no_deposit ≡ panic))
    ⊎ ((has_nil no_deposit.actions ≡ false)
        × ((r : (Text × Text) × Transaction) × (serialize lib no_deposit ≡ ok r)))
serialize_outcomes_example = serialize_outcomes lib no_deposit
