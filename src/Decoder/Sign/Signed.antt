-- ===== src/Decoder/Sign/Signed.antt =====
-- From the transfer that was asked for to the signed bytes.
use near_adapter.Prelude.{
  ℕ, ◌^◌, ◌%◌, ◌<◌, ◌≡◌, refl, sym, ap, ◌∙◌, inr, List, [], ◌∷◌, length, All, IsByte, Text, none,
  some, ==_self, arith,
}
use near_adapter.Prelude.Int.{pos}
use near_adapter.Go
use near_adapter.Go.{Result, ok, err, panic, >>=-ok, ok-injective}
use near_adapter.Bytes.Hex.{encode_to_string, decode_string}
use near_adapter.Bytes.Hex.RoundTrip.{decode_string-encode_to_string, length-decode_string}
use near_adapter.Platform.{Platform}
use near_adapter.Config.{NearBlockScanner}
use near_adapter.Transaction.{Transaction, serialize}
use near_adapter.Transaction.Reader.{read_body}
use near_adapter.Transaction.Amount.{PadsRight}
use near_adapter.Transaction.RoundTrip.{IsWellFormed, read_body-serialize}
use near_adapter.Transaction.Signing.{output, serialize-eq-ok}
use near_adapter.Transaction.Create.{made, new_transaction_lem}
use near_adapter.Decoder.Keys.{KeySignature, Wallet, sign_transaction_hash}
use near_adapter.Decoder.Create.{build_transaction}
use near_adapter.Decoder.Sign.{sign_one}

module _ {W : Type 0} (wallet : Wallet W) where
  -- The key signs with this signature.
  abbrev pub Signs : List ℕ → KeySignature → List ℕ → Type 0
  Signs key_bytes ks sig =
      (message : List ℕ)
      → decode_string ks.message ≡ (message, none)
      → wallet.owcrypt_signature key_bytes message (length message % 2 ^ 16) ks.ecc_type
        ≡ (sig, wallet.signature_success)

  sign_one_lem :
      (key : wallet.Key) (ks : KeySignature) (buf hash key_bytes sig : List ℕ)
      (near_tx : Transaction) (r : (Text × Text) × Transaction)
      → wallet.get_private_key_bytes
          (wallet.derived_key_with_path key ks.address.hd_path ks.ecc_type)
        ≡ ok key_bytes
      → ks.message ≡ encode_to_string hash
      → All IsByte hash
      → Signs key_bytes ks sig
      → All IsByte buf
      → wallet.unmarshal buf ≡ (near_tx, none)
      → serialize wallet.libraries (record near_tx { signature = sig }) ≡ ok r
      → sign_one wallet key ks (encode_to_string buf)
        ≡ ok (encode_to_string sig, encode_to_string r.1.raw_tx_byte)
  unfolding sign_one sign_transaction_hash
  sign_one_lem key ks buf hash key_bytes sig near_tx r hk hm bytes signs buf_bytes hu hs =
      let decoded : decode_string ks.message ≡ (hash, none) =
        ap decode_string hm ∙ decode_string-encode_to_string hash bytes in
      rw
        (
          hk,
          decoded,
          signs hash decoded,
          ==_self wallet.signature_success,
          decode_string-encode_to_string buf buf_bytes,
          hu,
          hs,
        )
        refl

module _ (p : Platform) (bs : NearBlockScanner) (wallet : Wallet p.World) where
  abbrev with_hash : (Text × Text) × Transaction → Result (Transaction × Text)
  with_hash r = ok (r.1, r.0.1)

  build_transaction-eq-ok :
      (from to ref amount : Text) (nonce d : ℕ) (pub_key block_hash : List ℕ)
      {near_tx : Transaction} {message : Text}
      → decode_string from ≡ (pub_key, none)
      → wallet.libraries.base58_decode ref ≡ (block_hash, none)
      → wallet.libraries.string_num_to_big_int_with_exp amount 24 ≡ some (pos d)
      → build_transaction p bs wallet from to ref nonce amount ≡ ok (near_tx, message)
      → let tx = made wallet.libraries from to pub_key block_hash (some (pos d)) nonce in
        (actions : List ℕ) × (near_tx ≡ (output wallet.libraries tx actions).1)
        × (message ≡ (output wallet.libraries tx actions).0.1)
  unfolding build_transaction
  build_transaction-eq-ok from to ref amount nonce d pub_key block_hash hk hb ha h =
      let tx = made wallet.libraries from to pub_key block_hash (some (pos d)) nonce in
      let made_ok =
        new_transaction_lem wallet.libraries from to ref amount nonce d pub_key block_hash hk hb
          ha in
      let chain : Result Transaction → Result (Transaction × Text) =
        λ m. Go.◌>>=◌ m (λ t. Go.◌>>=◌ (serialize wallet.libraries t) with_hash) in
      let (u, done, written) =
        >>=-ok (serialize wallet.libraries tx) with_hash (sym (ap chain made_ok) ∙ h) in
      let (actions, e, is_output) = serialize-eq-ok wallet.libraries tx written in
      (
        actions,
        sym (ap (λ r. r.0) (ok-injective done)) ∙ ap (λ w. w.1) is_output,
        sym (ap (λ r. r.1) (ok-injective done)) ∙ ap (λ w. w.0.1) is_output,
      )

  -- The signed transfer as `Serialize` writes it: `r` holds the bytes.
  abbrev pub SignedAs :
      Text → Text → ℕ → ℕ → List ℕ → List ℕ → List ℕ → (Text × Text) × Transaction → Type 0
  SignedAs from to nonce d pub_key block_hash sig r =
      (actions : List ℕ) × (serialize wallet.libraries
          (record (output wallet.libraries
            (made wallet.libraries from to pub_key block_hash (some (pos d)) nonce) actions).1 {
              signature = sig;
            })
        ≡ ok r)

  pub sign_one-SignedAs :
      (pads : PadsRight wallet.libraries) (from to ref amount : Text) (nonce d : ℕ)
      (pub_key block_hash key_bytes sig buf : List ℕ) (key : wallet.Key) (ks : KeySignature)
      (near_tx : Transaction)
      → length from ≡ 64
      → decode_string from ≡ (pub_key, none)
      → wallet.libraries.base58_decode ref ≡ (block_hash, none)
      → length block_hash ≡ 32
      → wallet.libraries.string_num_to_big_int_with_exp amount 24 ≡ some (pos d)
      → d < 2 ^ 128
      → nonce < 2 ^ 64
      → length to < 2 ^ 32
      → build_transaction p bs wallet from to ref nonce amount ≡ ok (near_tx, ks.message)
      → ((s : List ℕ) → All IsByte (wallet.libraries.sha256_sum s))
      → wallet.get_private_key_bytes
          (wallet.derived_key_with_path key ks.address.hd_path ks.ecc_type)
        ≡ ok key_bytes
      → Signs wallet key_bytes ks sig
      → length sig ≡ 64
      → All IsByte buf
      → wallet.unmarshal buf ≡ (near_tx, none)
      → (r : (Text × Text) × Transaction) × SignedAs from to nonce d pub_key block_hash sig r
        × (sign_one wallet key ks (encode_to_string buf)
            ≡ ok (encode_to_string sig, encode_to_string r.1.raw_tx_byte))
        × (read_body r.1.raw_tx_byte
            ≡ some (record {
              signer_id = from;
              public_key = pub_key;
              nonce = nonce;
              receiver_id = to;
              block_hash = block_hash;
              deposits = d ∷ [];
              signature = sig;
            }))
  sign_one-SignedAs pads from to ref amount nonce d pub_key block_hash key_bytes sig buf key ks
        near_tx hl hk hb h32 ha hd hn ht hm sha hp signs h64 buf_bytes hu =
      let (actions, near, message) =
        build_transaction-eq-ok from to ref amount nonce d pub_key block_hash hk hb ha hm in
      let unsigned = (output wallet.libraries tx actions).1 in
      let (r, written, again) =
        read_body-serialize wallet.libraries pads (record unsigned { signature = sig })
          (sizes unsigned.raw_tx_hex unsigned.raw_tx_byte) in
      (
        r,
        (actions, written),
        sign_one_lem wallet key ks buf _ key_bytes sig unsigned r hp message (sha _) signs buf_bytes
            (hu ∙ ap (λ t. (t, none)) near) written,
        again,
      )
    where
      tx : Transaction
      tx = made wallet.libraries from to pub_key block_hash (some (pos d)) nonce

      key_size : length pub_key ≡ 32
      key_size = omega (arith, length-decode_string from pub_key hk)

      sizes :
          (text : Text) (bytes : List ℕ)
          → IsWellFormed (record tx { signature = sig; raw_tx_hex = text; raw_tx_byte = bytes })
      sizes text bytes = record {
        signer_fits = omega arith;
        receiver_fits = ht;
        actions_fit = omega arith;
        key_is_32_bytes = key_size;
        hash_is_32_bytes = h32;
        nonce_is_u64 = hn;
        signature_is_64_bytes = inr h64;
        deposits_are_u128 = ((d, refl, hd), tt);
      }

  -- A transfer that was built, and that JSON gives back as it was, is signed over the hash of its
  -- unsigned bytes. The new `RawHex` is the hexadecimal text of bytes that the independent reader
  -- takes apart into exactly the sender, its key, the nonce, the receiver, the block hash and the
  -- amount that were asked for, and the signature of 64 bytes that the key gave.
  pub sign_one-read_body :
      (pads : PadsRight wallet.libraries) (from to ref amount : Text) (nonce d : ℕ)
      (pub_key block_hash key_bytes sig buf : List ℕ) (key : wallet.Key) (ks : KeySignature)
      (near_tx : Transaction)
      → length from ≡ 64
      → decode_string from ≡ (pub_key, none)
      → wallet.libraries.base58_decode ref ≡ (block_hash, none)
      → length block_hash ≡ 32
      → wallet.libraries.string_num_to_big_int_with_exp amount 24 ≡ some (pos d)
      → d < 2 ^ 128
      → nonce < 2 ^ 64
      → length to < 2 ^ 32
      → build_transaction p bs wallet from to ref nonce amount ≡ ok (near_tx, ks.message)
      → ((s : List ℕ) → All IsByte (wallet.libraries.sha256_sum s))
      → wallet.get_private_key_bytes
          (wallet.derived_key_with_path key ks.address.hd_path ks.ecc_type)
        ≡ ok key_bytes
      → Signs wallet key_bytes ks sig
      → length sig ≡ 64
      → All IsByte buf
      → wallet.unmarshal buf ≡ (near_tx, none)
      → (bytes : List ℕ) × (sign_one wallet key ks (encode_to_string buf)
          ≡ ok (encode_to_string sig, encode_to_string bytes))
        × (read_body bytes
            ≡ some (record {
              signer_id = from;
              public_key = pub_key;
              nonce = nonce;
              receiver_id = to;
              block_hash = block_hash;
              deposits = d ∷ [];
              signature = sig;
            }))
  sign_one-read_body pads from to ref amount nonce d pub_key block_hash key_bytes sig buf key ks
        near_tx hl hk hb h32 ha hd hn ht hm sha hp signs h64 buf_bytes hu =
      let (r, written, signed, again) =
        sign_one-SignedAs pads from to ref amount nonce d pub_key block_hash key_bytes sig buf key
          ks near_tx hl hk hb h32 ha hd hn ht hm sha hp signs h64 buf_bytes hu in
      (r.1.raw_tx_byte, signed, again)
