-- ===== src/Decoder/Sign/Verified.antt =====
-- Which signatures `VerifyRawTransaction` looks at.
use near_adapter.Prelude.{
  ℕ, ◌%◌, ◌^◌, ◌≡◌, refl, List, [], ◌∷◌, length, ◌==◌, ==_iff, All, IsByte, Text, codes, Bool-cases,
  inl, inr,
}
use near_adapter.Go.{ok, err, coded, verify_raw_transaction_failed}
use near_adapter.Bytes.Hex.{encode_to_string, decode_string}
use near_adapter.Bytes.Hex.RoundTrip.{decode_string-encode_to_string}
use near_adapter.Bytes.Base64.{encode_base64}
use near_adapter.Decoder.Keys.{KeySignature, RawTransaction, Wallet}
use near_adapter.Decoder.Sign.{
  get_raw, put_raw, verify_one, verify_account, verify_accounts, verify_raw_transaction,
}

module _ {W : Type 0} (wallet : Wallet W) where
  -- owcrypt accepts the signature over the message under the public key.
  abbrev pub Accepts : KeySignature → Type 0
  Accepts ks =
      wallet.owcrypt_verify (decode_string ks.address.public_key).0 (decode_string ks.message).0
        (length (decode_string ks.message).0 % 2 ^ 16) (decode_string ks.signature).0 ks.ecc_type
      ≡ wallet.signature_success

  -- Of a transaction with the signatures of one account, the first signature alone decides,
  -- whatever stands behind it. If it is accepted, the call succeeds and `RawHex` becomes the base64
  -- text of the bytes. If not, the call fails and changes nothing.
  pub verify_raw_transaction-Accepts :
      (raw_tx : RawTransaction) (account_id : Text) (ks : KeySignature) (rest : List KeySignature)
      (bytes : List ℕ) (w : W)
      → raw_tx.signatures ≡ (account_id, ks ∷ rest) ∷ []
      → raw_tx.raw_hex ≡ encode_to_string bytes
      → All IsByte bytes
      → (Accepts ks
          → verify_raw_transaction wallet (w, raw_tx)
            ≡ (ok tt, (w, record raw_tx { raw_hex = encode_base64 bytes })))
        × (¬ Accepts ks
            → verify_raw_transaction wallet (w, raw_tx) ≡ (
              err (coded verify_raw_transaction_failed (codes "transaction verify failed")),
              (w, raw_tx),
            ))
  unfolding verify_raw_transaction verify_accounts verify_account verify_one get_raw put_raw
  verify_raw_transaction-Accepts raw_tx account_id ks rest bytes w hs hx hb =
      let code =
        wallet.owcrypt_verify (decode_string ks.address.public_key).0 (decode_string ks.message).0
          (length (decode_string ks.message).0 % 2 ^ 16) (decode_string ks.signature).0
          ks.ecc_type in
      (
        λ good. rw (hs, (==_iff _ _).1 good, hx, decode_string-encode_to_string bytes hb) refl,
        λ bad. elim (Bool-cases (code == wallet.signature_success)) [
          | inl same ↦ absurd (bad ((==_iff _ _).0 same))
          | inr other ↦ rw (hs, other) refl
        ],
      )
