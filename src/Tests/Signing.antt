-- ===== src/Tests/Signing.antt =====
-- A transfer that is built, signed and read back.
use near_adapter.Prelude.{
  ℕ, ◌*◌, ◌^◌, ◌≡◌, refl, List, [], ◌∷◌, replicate, Text, codes, none, some, arith, true, false,
}
use near_adapter.Go.{ok, err, coded, verify_raw_transaction_failed}
use near_adapter.Bytes.Hex.{encode_to_string}
use near_adapter.Bytes.Hex.RoundTrip.{length-encode_to_string}
use near_adapter.Transaction.{Transaction}
use near_adapter.Transaction.Reader.{read_body}
use near_adapter.Transaction.Create.{new_transaction-read_body}
use near_adapter.Bytes.Base64.{encode_base64}
use near_adapter.Decoder.Keys.{KeySignature, RawTransaction, Wallet}
use near_adapter.Decoder.Create.{build_transaction}
use near_adapter.Decoder.Sign.{sign_one, verify_raw_transaction}
use near_adapter.Decoder.Sign.Verified.{Accepts, verify_raw_transaction-Accepts}
use near_adapter.Decoder.Sign.Signed.{sign_one-read_body}
use near_adapter.Tests.Demo.{started, World, lib, platform, scanner, wallet}
use near_adapter.Tests.Wire.{lib-PadsRight, signer, key, decode_signer}

abbrev hash : List ℕ
hash = replicate 32 9

-- The transaction as it is built for the wallet.
built_transaction :
    (r : (Text × Text) × Transaction) × (build_transaction platform scanner wallet signer
        (codes "bob")
        hash
        3
        (codes "12")
      ≡ ok (r.1, r.0.1))
unfolding build_transaction
built_transaction =
    let (t, r, is_made, written, again) =
      new_transaction-read_body lib lib-PadsRight signer (codes "bob") hash (codes "12") 3
        (2 * 10 ^ 24) key hash (length-encode_to_string key) decode_signer refl refl refl
        (omega arith) (omega arith) (omega arith) in
    (r, rw (is_made, written) refl)

abbrev signature : List ℕ
signature = replicate 64 5

-- The wallet whose JSON gives the transaction back, and whose key signs with one signature.
abbrev signing_wallet : Wallet World
signing_wallet = record wallet {
  unmarshal = λ s. (built_transaction.0.1, none);
  owcrypt_signature = λ k msg n ecc. (signature, 0);
}

abbrev to_sign : KeySignature
to_sign = record {
  ecc_type = 0;
  address = record { address = signer; public_key = []; hd_path = [] };
  message = built_transaction.0.0.1;
  signature = [];
}

is_built :
    build_transaction platform scanner signing_wallet signer (codes "bob") hash 3 (codes "12")
    ≡ ok (built_transaction.0.1, to_sign.message)
unfolding build_transaction
is_built = built_transaction.1

sign_one-read_body_example :
    (bytes : List ℕ) × (sign_one signing_wallet 7 to_sign (encode_to_string (1 ∷ 2 ∷ []))
      ≡ ok (encode_to_string signature, encode_to_string bytes))
    × (read_body bytes
        ≡ some (record {
          signer_id = signer;
          public_key = key;
          nonce = 3;
          receiver_id = codes "bob";
          block_hash = hash;
          deposits = 2 * 10 ^ 24 ∷ [];
          signature = signature;
        }))
sign_one-read_body_example =
    sign_one-read_body platform scanner signing_wallet lib-PadsRight signer (codes "bob") hash
      (codes "12") 3 (2 * 10 ^ 24) key hash (7 ∷ []) signature (1 ∷ 2 ∷ []) 7 to_sign
      built_transaction.0.1 (length-encode_to_string key) decode_signer refl refl refl (omega arith)
      (omega arith) (omega arith) is_built (λ s. (omega arith, tt)) refl (λ message e. refl) refl
      (omega arith, (omega arith, tt)) refl

-- Two signatures of one account, of which the first one counts.
abbrev signed : RawTransaction
signed = record {
  coin = record { symbol = codes "NEAR"; is_contract = false; contract_id = [] };
  account_id = codes "account";
  to = [];
  required = 1;
  raw_hex = encode_to_string (1 ∷ 2 ∷ []);
  signatures = (codes "account", to_sign ∷ to_sign ∷ []) ∷ [];
  fee_rate = [];
  fees = [];
  is_built = true;
  is_submit = false;
  tx_id = [];
  tx_amount = [];
  tx_from = [];
  tx_to = [];
}

verify_raw_transaction-Accepts_example :
    (Accepts wallet to_sign
      → verify_raw_transaction wallet (started, signed)
        ≡ (ok tt, (started, record signed { raw_hex = encode_base64 (1 ∷ 2 ∷ []) })))
    × (¬ Accepts wallet to_sign
        → verify_raw_transaction wallet (started, signed) ≡ (
          err (coded verify_raw_transaction_failed (codes "transaction verify failed")),
          (started, signed),
        ))
verify_raw_transaction-Accepts_example =
    verify_raw_transaction-Accepts wallet signed (codes "account") to_sign (to_sign ∷ [])
      (1 ∷ 2 ∷ []) started refl refl (omega arith, (omega arith, tt))
