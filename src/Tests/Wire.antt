-- ===== src/Tests/Wire.antt =====
-- The serializer, the byte helpers and the addresses on concrete values.
use mathlib.Core.List.{reverse}
use near_adapter.Prelude.{
  ℕ, zero, suc, ◌*◌, ◌^◌, IsByte, All, ◌<◌, ◌≤◌, ◌≡◌, refl, ◌↔◌, inl, true, List, [], ◌∷◌, ◌++◌,
  length, replicate, Text, codes, none, some, arith,
}
use near_adapter.Prelude.Int.{pos, magnitude}
use near_adapter.Go.{ok}
use near_adapter.Bytes.{
  reverse_hex_to_bytes, reverse_bytes_to_hex, reverse_bytes, byte_array_compare,
  uint16_to_little_endian_bytes, little_endian_bytes_to_uint16, uint32_to_little_endian_bytes,
  little_endian_bytes_to_uint32, uint64_to_little_endian_bytes, little_endian_bytes_to_uint64,
}
use near_adapter.Bytes.Hex.{encode_to_string, decode_string}
use near_adapter.Bytes.Hex.RoundTrip.{decode_string-encode_to_string, length-encode_to_string}
use near_adapter.Bytes.Reversed.{reverse_hex_to_bytes-reverse_bytes_to_hex}
use near_adapter.Bytes.Reverse.{reverse_bytes-reverse, byte_array_compare_iff}
use near_adapter.Bytes.Endian.{uints_round_trip}
use near_adapter.Transaction.{Transaction, serialize, new_transaction, action_bytes}
use near_adapter.Transaction.Reader.{read_body}
use near_adapter.Transaction.Amount.{PadsRight, action_bytes-length_iff}
use near_adapter.Transaction.RoundTrip.{IsWellFormed, body, read_body-serialize}
use near_adapter.Transaction.Signing.{outcome, serialize_signed}
use near_adapter.Transaction.Create.{new_transaction-read_body}
use near_adapter.Address.{address_verify, address_encode}
use near_adapter.Address.Grammar.{AccountName}
use near_adapter.Address.Verify.{address_verify_iff, address_verify-address_encode}
use near_adapter.Tests.Demo.{lib}

pub lib-PadsRight : PadsRight lib
lib-PadsRight s n = refl

abbrev pub key : List ℕ
key = replicate 32 170

pub replicate-IsByte : (n : ℕ) → All IsByte (replicate n 170)
replicate-IsByte zero = tt
replicate-IsByte (suc n) = (omega arith, replicate-IsByte n)

pub key-IsByte : All IsByte key
key-IsByte = replicate-IsByte 32

abbrev pub signer : Text
signer = encode_to_string key

abbrev tx : Transaction
tx = record {
  signer_id = codes "alice";
  public_key = replicate 32 7;
  nonce = 258;
  receiver_id = codes "bob";
  block_hash = replicate 32 9;
  signature = [];
  actions = record { deposit = some (pos 1000) } ∷ record { deposit = some (pos 0) } ∷ [];
  raw_tx_hex = [];
  raw_tx_byte = [];
}

tx-IsWellFormed : IsWellFormed tx
tx-IsWellFormed = record {
  signer_fits = omega arith;
  receiver_fits = omega arith;
  actions_fit = omega arith;
  key_is_32_bytes = refl;
  hash_is_32_bytes = refl;
  nonce_is_u64 = omega arith;
  signature_is_64_bytes = inl refl;
  deposits_are_u128 = ((1000, refl, omega arith), ((0, refl, omega arith), tt));
}

read_body-serialize_example :
    (r : (Text × Text) × Transaction) × (serialize lib tx ≡ ok r)
    × (read_body r.1.raw_tx_byte ≡ some (body tx))
read_body-serialize_example = read_body-serialize lib lib-PadsRight tx tx-IsWellFormed

abbrev serialized : (Text × Text) × Transaction
serialized = (read_body-serialize lib lib-PadsRight tx tx-IsWellFormed).0

serialize_signed_example :
    (serialized.0.1 ≡ encode_to_string (lib.sha256_sum serialized.1.raw_tx_byte))
    × (serialize lib (record tx { signature = 5 ∷ 6 ∷ [] })
        ≡ ok (
            outcome lib
              (record tx { signature = 5 ∷ 6 ∷ [] })
              (serialized.1.raw_tx_byte ++ 0 ∷ 5 ∷ 6 ∷ [])))
serialize_signed_example =
    serialize_signed lib tx 5 (6 ∷ []) serialized refl
      (read_body-serialize lib lib-PadsRight tx tx-IsWellFormed).1

pub decode_signer : decode_string signer ≡ (key, none)
decode_signer = decode_string-encode_to_string key key-IsByte

new_transaction-read_body_example :
    (t : Transaction) × (r : (Text × Text) × Transaction) × (new_transaction lib signer
        (codes "bob")
        (replicate 32 9)
        (codes "12")
        3
      ≡ ok t)
    × (serialize lib t ≡ ok r)
    × (read_body r.1.raw_tx_byte
        ≡ some (record {
          signer_id = signer;
          public_key = key;
          nonce = 3;
          receiver_id = codes "bob";
          block_hash = replicate 32 9;
          deposits = 2 * 10 ^ 24 ∷ [];
          signature = [];
        }))
new_transaction-read_body_example =
    new_transaction-read_body lib lib-PadsRight signer (codes "bob") (replicate 32 9) (codes "12") 3
      (2 * 10 ^ 24) key (replicate 32 9) (length-encode_to_string key) decode_signer refl refl refl
      (omega arith) (omega arith) (omega arith)

-- An amount that a u128 does not hold.
action_bytes-length_iff_example :
    (bs : List ℕ) × (action_bytes lib (some (pos (2 ^ 128))) ≡ ok bs)
    × ((length bs ≡ 17) ↔ (magnitude (pos (2 ^ 128)) < 2 ^ 128))
    × (2 ^ 128 ≤ magnitude (pos (2 ^ 128)) → 17 < length bs)
action_bytes-length_iff_example = action_bytes-length_iff lib lib-PadsRight (pos (2 ^ 128))

address_verify_iff_example : (address_verify (codes "bob.near") ≡ true) ↔ (
    (2 ≤ length (codes "bob.near"))
    × (length (codes "bob.near") ≤ 64)
    × AccountName (codes "bob.near"))
address_verify_iff_example = address_verify_iff (codes "bob.near")

address_verify-address_encode_example : address_verify (address_encode (1 ∷ 255 ∷ [])) ≡ true
address_verify-address_encode_example =
    address_verify-address_encode (1 ∷ 255 ∷ []) (omega arith, (omega arith, tt)) (omega arith)
      (omega arith)

reverse_bytes-reverse_example : reverse_bytes (1 ∷ 2 ∷ 3 ∷ []) ≡ reverse (1 ∷ 2 ∷ 3 ∷ [])
reverse_bytes-reverse_example = reverse_bytes-reverse (1 ∷ 2 ∷ 3 ∷ [])

byte_array_compare_iff_example :
    (byte_array_compare (1 ∷ 2 ∷ []) (1 ∷ 2 ∷ []) ≡ true)
    ↔ (◌≡◌ {A = List ℕ} (1 ∷ 2 ∷ []) (1 ∷ 2 ∷ []))
byte_array_compare_iff_example = byte_array_compare_iff (1 ∷ 2 ∷ []) (1 ∷ 2 ∷ [])

uints_round_trip_example :
    (513 < 2 ^ 16
      → little_endian_bytes_to_uint16 (uint16_to_little_endian_bytes 513 ++ 9 ∷ []) ≡ ok 513)
    × (513 < 2 ^ 32
        → little_endian_bytes_to_uint32 (uint32_to_little_endian_bytes 513 ++ 9 ∷ []) ≡ ok 513)
    × (513 < 2 ^ 64
        → little_endian_bytes_to_uint64 (uint64_to_little_endian_bytes 513 ++ 9 ∷ []) ≡ ok 513)
uints_round_trip_example = uints_round_trip 513 (9 ∷ [])

reverse_hex_to_bytes-reverse_bytes_to_hex_example :
    reverse_hex_to_bytes (reverse_bytes_to_hex (1 ∷ 255 ∷ [])) ≡ ok (1 ∷ 255 ∷ [])
reverse_hex_to_bytes-reverse_bytes_to_hex_example =
    reverse_hex_to_bytes-reverse_bytes_to_hex (1 ∷ 255 ∷ []) (omega arith, (omega arith, tt))
