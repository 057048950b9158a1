-- ===== src/Transaction.antt =====
-- neartransaction/transaction.go: the transaction, its Borsh bytes and their digest.
pub mod Reader
pub mod Amount
pub mod Signing
pub mod RoundTrip
pub mod Create
pub mod Outcomes
pub mod Octets
use mathlib.Core.List.{reverse}
use near_adapter.Prelude.{
  ℕ, zero, suc, ◌/◌, ◌%◌, ◌^◌, true, false, List, [], ◌∷◌, ◌++◌, length, ◌==◌, Text, Option, none,
  some,
}
use near_adapter.Prelude.Int.{ℤ, magnitude}
use near_adapter.Go.{GoError, Result, ok, err, panic, checked, ◌>>=◌}
use near_adapter.Bytes.{reverse_bytes, uint32_to_little_endian_bytes, uint64_to_little_endian_bytes}
use near_adapter.Bytes.Hex.{encode_to_string, decode_string}

-- What the package calls: base58.Decode of mr-tron, two functions of openwallet/common, and
-- sha256.Sum256. `none` is a nil `*big.Int`.
pub record Libraries : Type 0 where
  pub base58_decode : Text → List ℕ × Option GoError
  pub string_num_to_big_int_with_exp : Text → ℕ → Option ℤ
  pub right_pad_bytes : List ℕ → ℕ → List ℕ
  pub sha256_sum : List ℕ → List ℕ

-- `Deposit` is a `*big.Int`, and nil after decoding a JSON text that lacks it.
pub record Transfer : Type 0 where
  pub deposit : Option ℤ

pub record Transaction : Type 0 where
  pub signer_id : Text
  pub public_key : List ℕ
  pub nonce : ℕ
  pub receiver_id : Text
  pub block_hash : List ℕ
  pub signature : List ℕ
  pub actions : List Transfer
  pub raw_tx_hex : Text
  pub raw_tx_byte : List ℕ

-- The digits of a number to the base 256, lowest first, on fuel.
pub low_digits : ℕ → ℕ → List ℕ
low_digits zero n = []
low_digits (suc fuel) n = elim (n == 0) [ true ↦ [] | false ↦ n % 256 ∷ low_digits fuel (n / 256) ]

-- `big.Int.Bytes`: the absolute value, highest byte first. A number is fuel enough for its digits.
pub big_int_bytes : ℤ → List ℕ
unfolding low_digits
big_int_bytes x = reverse (low_digits (magnitude x) (magnitude x))

unfoldable pub signature_bytes : List ℕ → List ℕ
signature_bytes [] = []
signature_bytes (b ∷ bs) = 0 ∷ b ∷ bs

-- The fields in front of the actions.
unfoldable pub header_bytes : Transaction → List ℕ
header_bytes tx =
    uint32_to_little_endian_bytes (length tx.signer_id % 2 ^ 32)
    ++ (tx.signer_id
        ++ (0 ∷ tx.public_key
            ++ (uint64_to_little_endian_bytes tx.nonce
                ++ (uint32_to_little_endian_bytes (length tx.receiver_id % 2 ^ 32)
                    ++ (tx.receiver_id
                        ++ (tx.block_hash
                            ++ uint32_to_little_endian_bytes (length tx.actions % 2 ^ 32)))))))

module _ (lib : Libraries) where
  -- One round of `for _, action := range tx.Actions`.
  pub action_bytes : Option ℤ → Result (List ℕ)
  action_bytes none = panic
  action_bytes (some d) = ok (3 ∷ lib.right_pad_bytes (reverse_bytes (big_int_bytes d)) 16)

  unfoldable pub actions_bytes : List Transfer → Result (List ℕ)
  actions_bytes [] = ok []
  actions_bytes (a ∷ rest) = do
    bytes ← action_bytes a.deposit
    more ← actions_bytes rest
    ok (bytes ++ more)

  -- Writing to a `bytes.Buffer` does not fail.
  pub digest : Transaction → Text
  digest tx = encode_to_string (lib.sha256_sum tx.raw_tx_byte)

  -- The two results beside the transaction that the call changes through its pointer.
  unfoldable pub serialize : Transaction → Result ((Text × Text) × Transaction)
  serialize tx = do
    actions ← actions_bytes tx.actions
    let bytes_data = header_bytes tx ++ (actions ++ signature_bytes tx.signature)
    let raw_tx_hex = encode_to_string bytes_data
    let tx' = record tx { raw_tx_hex = raw_tx_hex; raw_tx_byte = bytes_data }
    ok ((raw_tx_hex, digest tx'), tx')

  pub new_transaction : Text → Text → Text → Text → ℕ → Result Transaction
  new_transaction from to ref_block_hash transfer_amount nonce = do
    signer_pub_key ← checked (decode_string from).0 (decode_string from).1
    block_hash ← checked (lib.base58_decode ref_block_hash).0 (lib.base58_decode ref_block_hash).1
    let amount = lib.string_num_to_big_int_with_exp transfer_amount 24
    ok (record {
      signer_id = from;
      public_key = signer_pub_key;
      nonce = nonce;
      receiver_id = to;
      block_hash = block_hash;
      signature = [];
      actions = record { deposit = amount } ∷ [];
      raw_tx_hex = [];
      raw_tx_byte = [];
    })
