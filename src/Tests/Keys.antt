-- ===== src/Tests/Keys.antt =====
-- Signing for an account with two keys.
use near_adapter.Prelude.{
  ◌≡◌, refl, List, ℕ, [], ◌∷◌, ◌++◌, length, replicate, All, All-append, IsByte, ◌==◌, codes, none,
  some, arith, if◌then◌else◌,
}
use near_adapter.Go.{ok, library}
use near_adapter.Bytes.Hex.{encode_to_string, decode_string}
use near_adapter.Transaction.{Transaction, serialize, actions_bytes, header_bytes, signature_bytes}
use near_adapter.Bytes.{put_uint, uint32_to_little_endian_bytes, uint64_to_little_endian_bytes}
use near_adapter.Decoder.Keys.{KeySignature, RawTransaction, Wallet, sign_transaction_hash}
use near_adapter.Decoder.Sign.{sign_one, sign_raw_transaction}
use near_adapter.Decoder.Sign.Keys.{sign_raw_transaction_refuses}
use near_adapter.Tests.Demo.{started, World, wallet}
use near_adapter.Tests.Building.{raw}
use near_adapter.Tests.Payment.{copies-IsByte}

abbrev empty_transaction : Transaction
empty_transaction = record {
  signer_id = [];
  public_key = [];
  nonce = 0;
  receiver_id = [];
  block_hash = [];
  signature = [];
  actions = [];
  raw_tx_hex = [];
  raw_tx_byte = [];
}

-- JSON takes texts of two bytes alone.
abbrev strict_wallet : Wallet World
strict_wallet = record wallet {
  unmarshal = λ s. (
    empty_transaction,
    if length s == 2 then none else some (library (codes "invalid character")),
  );
}

abbrev a_key : KeySignature
a_key = record {
  ecc_type = 0;
  address = record { address = []; public_key = []; hd_path = [] };
  message = [];
  signature = [];
}

abbrev two_keys : RawTransaction
two_keys = record raw {
  raw_hex = encode_to_string (1 ∷ 2 ∷ []);
  signatures = (codes "account", a_key ∷ a_key ∷ []) ∷ [];
}

-- The Borsh bytes of the empty transaction, signed.
abbrev written : List ℕ
written = replicate 22 0 ++ 7 ∷ []

written-IsByte : All IsByte written
written-IsByte =
    All-append IsByte (replicate 22 0) (7 ∷ []) (copies-IsByte 22 0 (omega arith)) (omega arith, tt)

first_signs :
    sign_one strict_wallet 7 a_key two_keys.raw_hex
    ≡ ok (encode_to_string (7 ∷ []), encode_to_string written)
unfolding sign_one sign_transaction_hash serialize actions_bytes header_bytes signature_bytes
    uint32_to_little_endian_bytes uint64_to_little_endian_bytes put_uint encode_to_string
    decode_string
first_signs = refl

sign_raw_transaction_refuses_example :
    ¬ ((sign_raw_transaction strict_wallet (started, two_keys)).0 ≡ ok tt)
sign_raw_transaction_refuses_example =
    sign_raw_transaction_refuses strict_wallet two_keys a_key a_key [] 7 (encode_to_string (7 ∷ []))
      written empty_transaction (library (codes "invalid character")) started started refl refl
      first_signs written-IsByte refl
