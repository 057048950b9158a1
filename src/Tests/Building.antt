-- ===== src/Tests/Building.antt =====
-- A raw transaction that is built on the small node.
use near_adapter.Prelude.{◌*◌, ◌^◌, ◌≡◌, refl, false, [], ◌∷◌, Text, codes, some, inl, inr}
use near_adapter.Prelude.Int.{pos, sub64}
use near_adapter.Go.{ok}
use near_adapter.Api.{call, checked_reply, is_error, get}
use near_adapter.Node.{
  get_block_by_height, with_transfers, get_current_block, get_status, get_latest_ref_block_hash,
  get_account_nonce, query_nonce,
}
use near_adapter.Transaction.{Transaction}
use near_adapter.Transaction.Create.{made, new_transaction_lem}
use near_adapter.Transaction.Outcomes.{serialize_outcomes}
use near_adapter.Decoder.Keys.{Address, RawTransaction}
use near_adapter.Decoder.Create.{
  AddrBalance, first_entry, account_total_sent, ref_block_hash, build_transaction, built,
  create_raw_transaction,
}
use near_adapter.Decoder.Create.Built.{BuiltFrom, create_raw_transaction-BuiltFrom}
use near_adapter.Tests.Demo.{started, lib, platform, scanner, wallet}
use near_adapter.Tests.Wire.{signer, key, decode_signer}

abbrev pub raw : RawTransaction
raw = record {
  coin = record { symbol = codes "NEAR"; is_contract = false; contract_id = [] };
  account_id = codes "account";
  to = (codes "bob", codes "12") ∷ [];
  required = 1;
  raw_hex = [];
  signatures = [];
  fee_rate = [];
  fees = [];
  is_built = false;
  is_submit = false;
  tx_id = [];
  tx_amount = [];
  tx_from = [];
  tx_to = [];
}

abbrev pub sender : AddrBalance
sender = record { address = signer; balance = codes "30"; token_balance = [] }

abbrev pub sender_address : Address
sender_address = record { address = signer; public_key = []; hd_path = [] }

abbrev pub ref : Text
ref = sub64 5 500 ∷ []

built_raw :
    (r : (Text × Text) × Transaction) × (build_transaction platform scanner wallet signer
        (codes "bob")
        ref
        5
        (codes "12")
      ≡ ok (r.1, r.0.1))
unfolding build_transaction
built_raw =
    let made_ok =
      new_transaction_lem lib signer (codes "bob") ref (codes "12") 5 (2 * 10 ^ 24) key ref
        decode_signer refl refl in
    elim (serialize_outcomes lib
      (made lib signer (codes "bob") key ref (some (pos (2 * 10 ^ 24))) 5)) [
        | inl (h, e) ↦ cc
        | inr (h, (r, e)) ↦ (r, rw (made_ok, e) refl)
      ]

abbrev result : RawTransaction
result = built platform scanner wallet raw sender_address built_raw.0.0.1 built_raw.0.1.signer_id 12

create_raw :
    create_raw_transaction platform scanner wallet raw sender started ≡ (ok result, started)
unfolding create_raw_transaction first_entry account_total_sent ref_block_hash
    get_latest_ref_block_hash get_account_nonce query_nonce get_block_by_height with_transfers
    get_current_block get_status call checked_reply is_error get
create_raw = rw (decode_signer, built_raw.1) refl

create_raw_transaction-BuiltFrom_example : BuiltFrom platform scanner wallet raw sender result
create_raw_transaction-BuiltFrom_example =
    create_raw_transaction-BuiltFrom platform scanner wallet raw sender started started result
      create_raw
