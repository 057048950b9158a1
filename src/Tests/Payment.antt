-- ===== src/Tests/Payment.antt =====
-- A payment on the small node, from the built transaction to the text that is posted.
use near_adapter.Prelude.{
  ℕ, zero, suc, ◌*◌, ◌^◌, ◌≡◌, refl, List, [], ◌∷◌, replicate, Text, text_eq, codes, none, some,
  arith, true, All, IsByte, inl, inr,
}
use near_adapter.Prelude.Int.{pos}
use near_adapter.Prelude.Options
use near_adapter.Go.{ok}
use near_adapter.Exec.{◌>>◌}
use near_adapter.Api.{call, checked_reply, is_error, get}
use near_adapter.Node.{
  get_block_by_height, with_transfers, get_current_block, get_status, get_latest_ref_block_hash,
  get_account_nonce, query_nonce,
}
use near_adapter.Bytes.Hex.{encode_to_string}
use near_adapter.Bytes.Hex.RoundTrip.{
  length-encode_to_string, encode_to_string-IsHexDigit, IsHexDigit,
}
use near_adapter.Bytes.Base64.Reader.{read_base64}
use near_adapter.Transaction.{Libraries, Transaction}
use near_adapter.Transaction.Reader.{read_body}
use near_adapter.Transaction.Create.{made, new_transaction_lem}
use near_adapter.Transaction.Outcomes.{serialize_outcomes}
use near_adapter.Decoder.Keys.{KeySignature, RawTransaction, Wallet, put_signatures, signatures_of}
use near_adapter.Decoder.Create.{first_entry, build_transaction, built, ref_block_hash}
use near_adapter.Decoder.Create.Built.{BuiltFrom}
use near_adapter.Decoder.Sign.{sign_raw_transaction, verify_raw_transaction}
use near_adapter.Decoder.Submit.{sent, submit_raw_transaction}
use near_adapter.Decoder.Submit.Posted.{Submitted, submit_raw_transaction-Submitted}
use near_adapter.Decoder.Payment.{key_of, sign_raw_transaction-verify_raw_transaction}
use near_adapter.Tests.Demo.{started, World, lib, platform, scanner, wallet}
use near_adapter.Tests.Wire.{lib-PadsRight, signer, key, key-IsByte, decode_signer}
use near_adapter.Tests.Building.{raw, sender, sender_address, ref}

abbrev hash : List ℕ
hash = replicate 32 9

-- Block hashes decode to 32 bytes.
abbrev paying_lib : Libraries
paying_lib = record lib { base58_decode = λ s. (hash, none) }

abbrev paying_wallet : Wallet World
paying_wallet = record wallet { libraries = paying_lib; marshal = λ tx. ok (1 ∷ 2 ∷ []) }

abbrev signature : List ℕ
signature = replicate 64 5

to_pay :
    (r : (Text × Text) × Transaction) × (build_transaction platform scanner paying_wallet signer
        (codes "bob")
        ref
        5
        (codes "12")
      ≡ ok (r.1, r.0.1))
unfolding build_transaction
to_pay =
    let made_ok =
      new_transaction_lem paying_lib signer (codes "bob") ref (codes "12") 5 (2 * 10 ^ 24) key hash
        decode_signer refl refl in
    elim (serialize_outcomes paying_lib
      (made paying_lib signer (codes "bob") key hash (some (pos (2 * 10 ^ 24))) 5)) [
        | inl (h, e) ↦ cc
        | inr (h, (r, e)) ↦ (r, rw (made_ok, e) refl)
      ]

-- JSON gives the transaction back, and the key signs with one signature.
abbrev payer : Wallet World
payer = record paying_wallet {
  unmarshal = λ s. (to_pay.0.1, none);
  owcrypt_signature = λ k msg n ecc. (signature, 0);
}

abbrev paid : RawTransaction
paid = built platform scanner payer raw sender_address to_pay.0.0.1 (1 ∷ 2 ∷ []) 12

abbrev unsigned : KeySignature
unsigned = record {
  ecc_type = scanner.wm.config.curve_type;
  address = sender_address;
  message = to_pay.0.0.1;
  signature = [];
}

nonce_given : get_account_nonce platform scanner signer started ≡ (ok 4, started)
unfolding get_account_nonce query_nonce call checked_reply is_error
nonce_given = rw decode_signer refl

ref_given : ref_block_hash platform scanner payer started ≡ (ok ref, started)
unfolding ref_block_hash get_latest_ref_block_hash get_block_by_height with_transfers
    get_current_block get_status call checked_reply is_error get
ref_given = refl

is_to_pay :
    build_transaction platform scanner payer signer
      (first_entry raw.to).0
      ref
      5
      (first_entry raw.to).1
    ≡ ok (to_pay.0.1, to_pay.0.0.1)
unfolding build_transaction first_entry
is_to_pay = to_pay.1

-- What the call leaves in the transaction, field by field.
abbrev Left : Type 0
Left =
    (paid.raw_hex ≡ encode_to_string (1 ∷ 2 ∷ []))
    × (signatures_of raw.account_id paid.signatures ≡ some (unsigned ∷ []))
    × (paid.is_built ≡ true)
    × (paid.account_id ≡ raw.account_id)
    × (paid.to ≡ raw.to)
    × (paid.signatures ≡ put_signatures raw.account_id (unsigned ∷ []) raw.signatures)

left : Left
unfolding built signatures_of put_signatures text_eq
left = (refl, refl, refl, refl, refl, refl)

abbrev order : BuiltFrom platform scanner payer raw sender paid
order = record {
  addr = sender_address;
  nonce = 4;
  ref = ref;
  near_tx = to_pay.0.1;
  hash = to_pay.0.0.1;
  buf = 1 ∷ 2 ∷ [];
  at_nonce = started;
  after_nonce = started;
  after_ref = started;
  nonce_is = nonce_given;
  ref_is = ref_given;
  transaction_is = is_to_pay;
  json_is = refl;
  hex_is = left.0;
  to_sign = left.1;
  is_built = left.2;
  same_account = left.3;
  same_to = left.4;
  others_kept = left.5;
}

bytes_of_digits : (s : List ℕ) → All IsHexDigit s → All IsByte s
bytes_of_digits [] h = tt
bytes_of_digits (c ∷ s) (h, hs) = (byte c h, bytes_of_digits s hs)
  where
    byte : (c : ℕ) → IsHexDigit c → IsByte c
    byte c (inl h) = omega arith
    byte c (inr h) = omega arith

pub copies-IsByte : (n b : ℕ) → IsByte b → All IsByte (replicate n b)
copies-IsByte zero b h = tt
copies-IsByte (suc n) b h = (h, copies-IsByte n b h)

sign_raw_transaction-verify_raw_transaction_example :
    (text : Text) × ((sign_raw_transaction payer >> verify_raw_transaction payer) (started, paid)
      ≡ (
        ok tt,
        (
          started,
          record paid {
            raw_hex = text;
            signatures =
                (
                  paid.account_id,
                  key_of platform scanner payer order (encode_to_string signature) ∷ [],
                )
                ∷ [];
          },
        ),
      ))
    × (Options.◌>>=◌ (read_base64 text) read_body
        ≡ some (record {
          signer_id = signer;
          public_key = key;
          nonce = 5;
          receiver_id = codes "bob";
          block_hash = hash;
          deposits = 2 * 10 ^ 24 ∷ [];
          signature = signature;
        }))
unfolding first_entry
sign_raw_transaction-verify_raw_transaction_example =
    sign_raw_transaction-verify_raw_transaction platform scanner payer lib-PadsRight raw paid sender
      order (2 * 10 ^ 24) key hash (7 ∷ []) signature 7 started started refl
      (length-encode_to_string key) decode_signer
      (bytes_of_digits signer (encode_to_string-IsHexDigit key key-IsByte)) refl refl
      (copies-IsByte 32 9 (omega arith)) refl (omega arith) (omega arith)
      (omega arith, (omega arith, (omega arith, tt))) (λ s. (omega arith, tt))
      (omega arith, (omega arith, tt)) refl refl refl (λ message e. refl) refl
      (copies-IsByte 64 5 (omega arith)) refl

abbrev to_post : RawTransaction
to_post = record raw { raw_hex = codes "ab" }

-- The node answers with what it was sent.
abbrev posted : RawTransaction
posted = record to_post { tx_id = codes "ab"; is_submit = true }

post :
    submit_raw_transaction platform scanner wallet to_post started
    ≡ (ok (sent platform scanner wallet posted 0, posted), started)
unfolding submit_raw_transaction call checked_reply is_error text_eq
post = refl

submit_raw_transaction-Submitted_example :
    Submitted platform scanner wallet to_post started started
      (sent platform scanner wallet posted 0)
      posted
submit_raw_transaction-Submitted_example =
    submit_raw_transaction-Submitted platform scanner wallet to_post posted
      (sent platform scanner wallet posted 0) started started post
