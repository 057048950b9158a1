-- ===== src/Transaction/Create.antt =====
-- `NewTransaction`, and the bytes of what it makes.
use near_adapter.Prelude.{
  ℕ, ◌^◌, ◌<◌, ◌≡◌, refl, inl, List, [], ◌∷◌, length, Option, none, some, Text, arith,
}
use near_adapter.Prelude.Int.{ℤ, pos}
use near_adapter.Go.{ok}
use near_adapter.Bytes.Hex.{decode_string}
use near_adapter.Bytes.Hex.RoundTrip.{length-decode_string}
use near_adapter.Transaction.{Libraries, Transaction, serialize, new_transaction}
use near_adapter.Transaction.Amount.{PadsRight}
use near_adapter.Transaction.Reader.{read_body}
use near_adapter.Transaction.RoundTrip.{IsWellFormed, read_body-serialize}

module _ (lib : Libraries) where
  -- The transaction made from decoded parts.
  abbrev pub made : Text → Text → List ℕ → List ℕ → Option ℤ → ℕ → Transaction
  made from to key hash amount nonce = record {
    signer_id = from;
    public_key = key;
    nonce = nonce;
    receiver_id = to;
    block_hash = hash;
    signature = [];
    actions = record { deposit = amount } ∷ [];
    raw_tx_hex = [];
    raw_tx_byte = [];
  }

  pub new_transaction_lem :
      (from to ref amount : Text) (nonce d : ℕ) (key hash : List ℕ)
      → decode_string from ≡ (key, none)
      → lib.base58_decode ref ≡ (hash, none)
      → lib.string_num_to_big_int_with_exp amount 24 ≡ some (pos d)
      → new_transaction lib from to ref amount nonce
        ≡ ok (made from to key hash (some (pos d)) nonce)
  unfolding new_transaction
  new_transaction_lem from to ref amount nonce d key hash hk hb ha = rw (hk, hb, ha) refl

module _ (lib : Libraries) (pads : PadsRight lib) where
  -- From the sender's 64 hexadecimal digits, a block hash of 32 bytes and an amount that fits a
  -- u128, `NewTransaction` and `Serialize` make bytes that the reader takes apart into exactly that
  -- sender, its 32 key bytes, the nonce, the receiver, the block hash and one deposit, unsigned.
  pub new_transaction-read_body :
      (from to ref amount : Text) (nonce d : ℕ) (key hash : List ℕ)
      → length from ≡ 64
      → decode_string from ≡ (key, none)
      → lib.base58_decode ref ≡ (hash, none)
      → length hash ≡ 32
      → lib.string_num_to_big_int_with_exp amount 24 ≡ some (pos d)
      → d < 2 ^ 128
      → nonce < 2 ^ 64
      → length to < 2 ^ 32
      → (tx : Transaction) × (r : (Text × Text) × Transaction) × (new_transaction lib from to ref
            amount nonce
          ≡ ok tx)
        × (serialize lib tx ≡ ok r)
        × (read_body r.1.raw_tx_byte
            ≡ some (record {
              signer_id = from;
              public_key = key;
              nonce = nonce;
              receiver_id = to;
              block_hash = hash;
              deposits = d ∷ [];
              signature = [];
            }))
  new_transaction-read_body from to ref amount nonce d key hash hl hk hb h32 ha hd hn ht =
      let tx = made lib from to key hash (some (pos d)) nonce in
      let (r, written, again) = read_body-serialize lib pads tx sizes in
      (tx, r, new_transaction_lem lib from to ref amount nonce d key hash hk hb ha, written, again)
    where
      key_size : length key ≡ 32
      key_size = omega (arith, length-decode_string from key hk)

      sizes : IsWellFormed (made lib from to key hash (some (pos d)) nonce)
      sizes = record {
        signer_fits = omega arith;
        receiver_fits = ht;
        actions_fit = omega arith;
        key_is_32_bytes = key_size;
        hash_is_32_bytes = h32;
        nonce_is_u64 = hn;
        signature_is_64_bytes = inl refl;
        deposits_are_u128 = ((d, refl, hd), tt);
      }
