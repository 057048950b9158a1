-- ===== src/Decoder/Sign.antt =====
-- `SignRawTransaction` and `VerifyRawTransaction`. Both change `rawTx` as they go, also where they
-- fail later on, so it is a part of the state.
pub mod Signed
pub mod Verified
pub mod Keys
use near_adapter.Prelude.{
  ◌%◌, ◌^◌, not, List, [], ◌∷◌, ◌++◌, length, ◌==◌, Text, codes, Option, none, some, if◌then◌else◌,
}
use near_adapter.Go
use near_adapter.Go.{
  ErrCode, GoError, Result, ok, err, panic, plain, checked, coded, create_raw_transaction_failed,
  verify_raw_transaction_failed,
}
use near_adapter.Exec.{Exec, pure, raise, lift, ◌>>=◌, ◌>>◌}
use near_adapter.Bytes.Hex.{encode_to_string, decode_string}
use near_adapter.Bytes.Base64.{encode_base64}
use near_adapter.Transaction.{serialize}
use near_adapter.Decoder.Keys.{
  KeySignature, RawTransaction, Wallet, signatures_of, put_signatures, sign_transaction_hash,
}

-- The messages of the wrapped errors without the text of the error that they wrap.
abbrev pub wrap : {A : Type 0} → ErrCode → Text → Result A → Result A
wrap code text (ok a) = ok a
wrap code text (err e) = err (coded code text)
wrap code text panic = panic

module _ {W : Type 0} (wallet : Wallet W) where
  abbrev pub State : Type 0
  State = W × RawTransaction

  get_raw : Exec State RawTransaction
  get_raw s = (ok s.1, s)

  put_raw : RawTransaction → Exec State (Unit {0})
  put_raw r s = (ok tt, (s.0, r))

  pub hd_key : Exec State wallet.Key
  hd_key s = ((wallet.hd_key s.0).0, ((wallet.hd_key s.0).1, s.1))

  -- The signature of one key over its message, and the new `RawHex`.
  unfoldable pub sign_one : wallet.Key → KeySignature → Text → Result (Text × Text)
  sign_one key ks raw_hex =
      Go.◌>>=◌
        (wallet.get_private_key_bytes
          (wallet.derived_key_with_path key ks.address.hd_path ks.ecc_type))
        λ key_bytes.
          Go.◌>>=◌
            (wrap create_raw_transaction_failed (codes "decoder transaction hash failed")
              (checked (decode_string ks.message).0 (decode_string ks.message).1))
            λ msg.
              Go.◌>>=◌
                (wrap create_raw_transaction_failed (codes "sign transaction hash failed")
                  (sign_transaction_hash wallet msg key_bytes ks.ecc_type))
                λ sig.
                  Go.◌>>=◌ (checked (decode_string raw_hex).0 (decode_string raw_hex).1) λ bytes.
                    Go.◌>>=◌
                      (wrap create_raw_transaction_failed (codes "sign transaction hash failed")
                        (checked (wallet.unmarshal bytes).0 (wallet.unmarshal bytes).1))
                      λ near_tx.
                        Go.◌>>=◌ (serialize wallet.libraries (record near_tx { signature = sig }))
                          λ r. ok (encode_to_string sig, encode_to_string r.1.raw_tx_byte)

  -- `for _, keySignature := range keySignatures`: `done` have been signed. The list holds pointers,
  -- so a signature shows in `rawTx` at once.
  pub sign_keys :
      wallet.Key → Text → List KeySignature → List KeySignature → Exec State (List KeySignature)
  unfolding get_raw put_raw
  sign_keys key account_id done [] = pure done
  sign_keys key account_id done (ks ∷ rest) = do
    raw_tx ← get_raw
    (sig, raw_hex) ← lift (sign_one key ks raw_tx.raw_hex)
    let signed = done ++ record ks { signature = sig } ∷ []
    put_raw (record raw_tx {
      raw_hex = raw_hex;
      signatures = put_signatures account_id (signed ++ rest) raw_tx.signatures;
    })
    sign_keys key account_id signed rest

  abbrev no_signature : {A : Type 0} → ErrCode → Exec State A
  no_signature code = raise (coded code (codes "transaction signature is empty"))

  sign_account : wallet.Key → Text → Option (List KeySignature) → Exec State (List KeySignature)
  sign_account key account_id none = pure []
  sign_account key account_id (some keys) = sign_keys key account_id [] keys

  pub sign_raw_transaction : Exec State (Unit {0})
  unfolding sign_account get_raw put_raw
  sign_raw_transaction = do
    raw_tx ← get_raw
    if length raw_tx.signatures == 0 then no_signature create_raw_transaction_failed else (do
      key ← hd_key
      keys ← sign_account key raw_tx.account_id (signatures_of raw_tx.account_id raw_tx.signatures)
      last ← get_raw
      put_raw (record last { signatures = put_signatures last.account_id keys last.signatures }))

  -- The check of one signature, and the new `RawHex`. Errors of the decoder are dropped.
  pub verify_one : KeySignature → Text → Result Text
  verify_one ks raw_hex =
      let message = (decode_string ks.message).0 in
      let signature = (decode_string ks.signature).0 in
      let public_key = (decode_string ks.address.public_key).0 in
      let code =
        wallet.owcrypt_verify public_key message (length message % 2 ^ 16) signature ks.ecc_type in
      if not (code == wallet.signature_success)
      then err (coded verify_raw_transaction_failed (codes "transaction verify failed"))
      else Go.◌>>=◌
          (wrap verify_raw_transaction_failed (codes "raw tx Unmarshal failed")
            (checked (decode_string raw_hex).0 (decode_string raw_hex).1))
          λ bytes. ok (encode_base64 bytes)

  -- `break` leaves the inner loop after its first round.
  pub verify_account : List KeySignature → Exec State (Unit {0})
  unfolding get_raw put_raw
  verify_account [] = pure tt
  verify_account (ks ∷ rest) = do
    raw_tx ← get_raw
    raw_hex ← lift (verify_one ks raw_tx.raw_hex)
    put_raw (record raw_tx { raw_hex = raw_hex })

  -- `for accountID, keySignatures := range rawTx.Signatures`, in the order of the list.
  pub verify_accounts : List (Text × List KeySignature) → Exec State (Unit {0})
  verify_accounts [] = pure tt
  verify_accounts ((account_id, keys) ∷ rest) = do verify_account keys; verify_accounts rest

  pub verify_raw_transaction : Exec State (Unit {0})
  unfolding get_raw put_raw
  verify_raw_transaction = do
    raw_tx ← get_raw
    if length raw_tx.signatures == 0
        then no_signature verify_raw_transaction_failed
        else verify_accounts raw_tx.signatures
