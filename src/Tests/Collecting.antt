-- ===== src/Tests/Collecting.antt =====
-- A summary of two addresses and a payment from them. One of the two has enough.
use Prim.Native.Nat.{compare, Ordering}
use mathlib.Core.List.Perm
use near_adapter.Prelude.{
  ℕ, ◌*◌, ◌^◌, ◌≡◌, refl, false, List, [], ◌∷◌, ◌++◌, replicate, Text, codes, ltb, length, some,
  none, inl, inr, arith, if◌then◌else◌,
}
use near_adapter.Prelude.Int.{pos, sub64}
use near_adapter.Go.{ok}
use near_adapter.Exec.{pure}
use near_adapter.Platform.{Platform}
use near_adapter.Wallet.{Balance}
use near_adapter.Config.{new_config}
use near_adapter.Bytes.Hex.{encode_to_string}
use near_adapter.Api.{call, checked_reply, is_error, get, format_int}
use near_adapter.Node.{
  get_block_by_height, with_transfers, get_current_block, get_status, get_latest_ref_block_hash,
  get_account_nonce, query_nonce, get_gas_price, get_balance_by_address, get_account_balance,
}
use near_adapter.Transaction.{Transaction}
use near_adapter.Transaction.Create.{made, new_transaction_lem}
use near_adapter.Transaction.Outcomes.{serialize_outcomes}
use near_adapter.Decoder.Keys.{Address, RawTransaction, SummaryRawTransaction, Wallet}
use near_adapter.Decoder.Create.{
  decimal_of, first_entry, checked_amount, account_total_sent, ref_block_hash, build_transaction,
  built, create_raw_transaction, estimate_fees, balance_at, retained_balance, new_addr_balance,
}
use near_adapter.Decoder.Create.{
  find_addr_balance, sufficient, total_amount, with_address, create_raw_simple_transaction,
}
use near_adapter.Decoder.Summary.{
  summary_amount, amount_to_collect, summary_transaction, collect_one, collect, collect_from,
  create_simple_summary_raw_transaction,
}
use near_adapter.Decoder.Summary.Collected.{Summarised}
use near_adapter.Decoder.Summary.Summarised.{create_simple_summary_raw_transaction-Summarised}
use near_adapter.Tests.Demo.{World, started, lib, platform, scanner, wallet}
use near_adapter.Decoder.Create.Simple.{Created, create_raw_simple_transaction-Created}
use near_adapter.Tests.Building.{raw}
use near_adapter.Tests.Wire.{signer, key, decode_signer}

-- Long names have the balance 376, of which 364 are kept, and short ones have none.
abbrev paying : Platform
paying = record platform {
  unmarshal_account = λ s. (
    record { amount = (if ltb 63 (length s) then codes "376" else []) ++ replicate 24 b'0' },
    none,
  );
}

abbrev address_of : List ℕ → Address
address_of s = record { address = s; public_key = []; hd_path = [] }

abbrev owner : Wallet World
owner = record wallet {
  get_address_list = λ offset limit cols. pure (address_of (codes "1") ∷ address_of signer ∷ []);
}

abbrev summary : SummaryRawTransaction
summary = record {
  coin = record { symbol = codes "NEAR"; is_contract = false; contract_id = [] };
  account_id = codes "account";
  summary_address = codes "bob";
  address_start_index = pos 0;
  address_limit = pos 10;
}

to_build :
    (amount : Text)
    → lib.string_num_to_big_int_with_exp amount 24 ≡ some (pos (2 * 10 ^ 24))
    → (r : (Text × Text) × Transaction) × (build_transaction paying scanner owner signer
          (codes "bob")
          (sub64 5 500 ∷ [])
          5
          amount
        ≡ ok (r.1, r.0.1))
unfolding build_transaction
to_build amount e =
    let made_ok =
      new_transaction_lem lib signer (codes "bob") (sub64 5 500 ∷ []) amount 5 (2 * 10 ^ 24) key
        (sub64 5 500 ∷ []) decode_signer refl e in
    elim (serialize_outcomes lib
      (made lib signer (codes "bob") key (sub64 5 500 ∷ []) (some (pos (2 * 10 ^ 24))) 5)) [
        | inl (h, e) ↦ cc
        | inr (h, (r, e)) ↦ (r, rw (made_ok, e) refl)
      ]

abbrev to_collect :
    (r : (Text × Text) × Transaction) × (build_transaction paying scanner owner signer
        (codes "bob")
        (sub64 5 500 ∷ [])
        5
        (codes "12")
      ≡ ok (r.1, r.0.1))
to_collect = to_build (codes "12") refl

abbrev collected : RawTransaction
collected =
    built paying scanner owner (summary_transaction paying scanner owner summary (codes "12"))
      (address_of signer) to_collect.0.0.1 to_collect.0.1.signer_id 12

creates :
    create_raw_transaction paying scanner owner
      (summary_transaction paying scanner owner summary (codes "12"))
      (record { address = signer; balance = codes "376"; token_balance = [] })
      started
    ≡ (ok collected, started)
unfolding create_raw_transaction first_entry account_total_sent ref_block_hash
    get_latest_ref_block_hash get_account_nonce query_nonce get_block_by_height with_transfers
    get_current_block get_status call checked_reply is_error get summary_transaction
creates = rw (decode_signer, to_collect.1) refl

abbrev balance_of : Text → Text → Balance
balance_of a b = record {
  symbol = codes "NEAR";
  address = a;
  balance = b;
  unconfirm_balance = codes "0";
  confirm_balance = b;
}

no_balance :
    balance_at paying scanner owner (codes "1") started
    ≡ (ok (some (balance_of (codes "1") (codes "0"))), started)
unfolding balance_at get_balance_by_address get_account_balance call checked_reply is_error
    new_config format_int
no_balance = refl

some_balance :
    balance_at paying scanner owner signer started
    ≡ (ok (some (balance_of signer (codes "376"))), started)
unfolding balance_at get_balance_by_address get_account_balance call checked_reply is_error
    new_config format_int encode_to_string
some_balance = refl

no_fees : estimate_fees paying scanner owner started ≡ (ok 0, started)
unfolding estimate_fees get_gas_price call checked_reply is_error
no_fees = refl

collects_nothing :
    collect_one paying scanner owner summary 0 0 (some (balance_of (codes "1") (codes "0"))) started
    ≡ (ok [], started)
unfolding collect_one amount_to_collect summary_amount retained_balance
collects_nothing = refl

collects_one :
    collect_one paying scanner owner summary 0 0 (some (balance_of signer (codes "376"))) started
    ≡ (ok (collected ∷ []), started)
unfolding collect_one amount_to_collect summary_amount retained_balance new_addr_balance format_int
collects_one = rw creates refl

summarises :
    create_simple_summary_raw_transaction paying scanner owner summary started
    ≡ (ok (collected ∷ []), started)
unfolding create_simple_summary_raw_transaction collect_from collect new_config built
summarises = rw (no_fees, no_balance, collects_nothing, some_balance, collects_one) refl

compare_self : (n : ℕ) → compare n n ≡ Ordering.eq
compare_self n = ground arith

create_simple_summary_raw_transaction-Summarised_example :
    Summarised paying scanner owner summary started started (collected ∷ [])
create_simple_summary_raw_transaction-Summarised_example =
    create_simple_summary_raw_transaction-Summarised paying scanner owner summary compare_self
      started started (collected ∷ []) summarises

-- Two destinations: 1 is checked, and 99 is built, which with the 364 to keep is more than the sender
-- has.
abbrev two_ways : RawTransaction
two_ways = record raw { to = (codes "bob", codes "99") ∷ (codes "eve", codes "1") ∷ [] }

abbrev other_order : List (Text × Text)
other_order = (codes "eve", codes "1") ∷ (codes "bob", codes "99") ∷ []

abbrev to_pay :
    (r : (Text × Text) × Transaction) × (build_transaction paying scanner owner signer
        (codes "bob")
        (sub64 5 500 ∷ [])
        5
        (codes "99")
      ≡ ok (r.1, r.0.1))
to_pay = to_build (codes "99") refl

abbrev paid : RawTransaction
paid = built paying scanner owner two_ways (address_of signer) to_pay.0.0.1 to_pay.0.1.signer_id 12

pays_from :
    create_raw_transaction paying scanner owner two_ways
      (record { address = signer; balance = codes "376"; token_balance = [] })
      started
    ≡ (ok paid, started)
unfolding create_raw_transaction first_entry account_total_sent ref_block_hash
    get_latest_ref_block_hash get_account_nonce query_nonce get_block_by_height with_transfers
    get_current_block get_status call checked_reply is_error get
pays_from = rw (decode_signer, to_pay.1) refl

finds_second :
    find_addr_balance paying scanner owner
      (total_amount paying scanner owner
        (decimal_of paying scanner owner (checked_amount other_order))
        0)
      (address_of (codes "1") ∷ address_of signer ∷ [])
      started
    ≡ (ok (some (record { address = signer; balance = codes "376"; token_balance = [] })), started)
unfolding find_addr_balance sufficient new_addr_balance total_amount retained_balance first_entry
    checked_amount
finds_second = rw (no_balance, some_balance) refl

pays :
    create_raw_simple_transaction paying scanner owner other_order two_ways started
    ≡ (ok paid, started)
unfolding create_raw_simple_transaction with_address
pays = rw (no_fees, finds_second, pays_from) refl

create_raw_simple_transaction-Created_example :
    Created paying scanner owner other_order two_ways started started paid
create_raw_simple_transaction-Created_example =
    create_raw_simple_transaction-Created paying scanner owner other_order two_ways started started
      paid (Perm.swap (codes "bob", codes "99") (codes "eve", codes "1") []) pays
