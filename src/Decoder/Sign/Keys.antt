-- ===== src/Decoder/Sign/Keys.antt =====
-- `SignRawTransaction` for an account with one key, and with more.
use near_adapter.Prelude.{
  ℕ, ◌≡◌, refl, List, [], ◌∷◌, All, IsByte, Text, text_eq, text_eq_iff, some, codes, true, ◌⊎◌, inl,
  inr,
}
use near_adapter.Go.{GoError, Result, checked, create_raw_transaction_failed, ok, err, panic, ◌>>=◌}
use near_adapter.Bytes.Hex.{encode_to_string, decode_string}
use near_adapter.Bytes.Hex.RoundTrip.{decode_string-encode_to_string}
use near_adapter.Transaction.{Transaction}
use near_adapter.Decoder.Keys.{
  KeySignature, RawTransaction, Wallet, signatures_of, put_signatures, sign_transaction_hash,
}
use near_adapter.Decoder.Sign.{
  wrap, get_raw, put_raw, hd_key, sign_one, sign_keys, sign_account, sign_raw_transaction,
}

Result-cases :
    {A : Type 0} (r : Result A)
    → ((a : A) × (r ≡ ok a)) ⊎ (((e : GoError) × (r ≡ err e)) ⊎ (r ≡ panic))
Result-cases (ok a) = inl (a, refl)
Result-cases (err e) = inr (inl (e, refl))
Result-cases panic = inr (inr refl)

-- A chain does not succeed whose rest does not.
never :
    {A B : Type 0} {b : B} (first : Result A) (rest : A → Result B)
    → ((a : A) → ¬ (rest a ≡ ok b))
    → ¬ ((first >>= rest) ≡ ok b)
never panic rest h e = cc
never (err x) rest h e = cc
never (ok a) rest h e = h a e

module _ {W : Type 0} (wallet : Wallet W) where
  -- The account has these signatures to make, and no other account has any.
  abbrev pub Signatures : RawTransaction → List KeySignature → Type 0
  Signatures raw_tx keys = raw_tx.signatures ≡ (raw_tx.account_id, keys) ∷ []

  same_account : (s : Text) → text_eq s s ≡ true
  same_account s = (text_eq_iff s s).1 refl

  -- Where the one key of the account signs, the signature is put down and `RawHex` is replaced.
  pub sign_raw_transaction-sign_one :
      (raw_tx : RawTransaction) (ks : KeySignature) (key : wallet.Key) (sig raw_hex : Text)
      (w w' : W)
      → Signatures raw_tx (ks ∷ [])
      → wallet.hd_key w ≡ (ok key, w')
      → sign_one wallet key ks raw_tx.raw_hex ≡ ok (sig, raw_hex)
      → sign_raw_transaction wallet (w, raw_tx) ≡ (
        ok tt,
        (
          w',
          record raw_tx {
            raw_hex = raw_hex;
            signatures = (raw_tx.account_id, record ks { signature = sig } ∷ []) ∷ [];
          },
        ),
      )
  unfolding sign_raw_transaction sign_account sign_keys get_raw put_raw hd_key signatures_of
      put_signatures
  sign_raw_transaction-sign_one raw_tx ks key sig raw_hex w w' only given signed =
      rw (only, given, same_account raw_tx.account_id, signed, same_account raw_tx.account_id)
        (rw (same_account raw_tx.account_id) refl)

  -- Bytes that JSON refuses are not signed.
  sign_one_refused :
      (key : wallet.Key) (ks : KeySignature) (bytes : List ℕ) (t : Transaction) (e : GoError)
      → All IsByte bytes
      → wallet.unmarshal bytes ≡ (t, some e)
      → (r : Text × Text) → ¬ (sign_one wallet key ks (encode_to_string bytes) ≡ ok r)
  unfolding sign_one
  sign_one_refused key ks bytes t e h refused r =
      rw (decode_string-encode_to_string bytes h, refused)
        (never
          (wallet.get_private_key_bytes
            (wallet.derived_key_with_path key ks.address.hd_path ks.ecc_type))
          _
          λ key_bytes.
            never
              (wrap create_raw_transaction_failed (codes "decoder transaction hash failed")
                (checked (decode_string ks.message).0 (decode_string ks.message).1))
              _
              λ msg.
                never
                  (wrap create_raw_transaction_failed (codes "sign transaction hash failed")
                    (sign_transaction_hash wallet msg key_bytes ks.ecc_type))
                  _ λ sig signed. cc)

  -- Once the first key of an account has signed, `RawHex` is Borsh bytes. Where JSON refuses them,
  -- signing for an account with a second key never succeeds, whatever that key is.
  pub sign_raw_transaction_refuses :
      (raw_tx : RawTransaction) (ks ks' : KeySignature) (rest : List KeySignature)
      (key : wallet.Key) (sig : Text) (bytes : List ℕ) (t : Transaction) (e : GoError) (w w' : W)
      → Signatures raw_tx (ks ∷ ks' ∷ rest)
      → wallet.hd_key w ≡ (ok key, w')
      → sign_one wallet key ks raw_tx.raw_hex ≡ ok (sig, encode_to_string bytes)
      → All IsByte bytes
      → wallet.unmarshal bytes ≡ (t, some e)
      → ¬ ((sign_raw_transaction wallet (w, raw_tx)).0 ≡ ok tt)
  unfolding sign_raw_transaction sign_account sign_keys get_raw put_raw hd_key signatures_of
      put_signatures
  sign_raw_transaction_refuses raw_tx ks ks' rest key sig bytes t e w w' only given signed h refused
        done =
      let second = rw (only, given, same_account raw_tx.account_id, signed) at done in
      elim (Result-cases (sign_one wallet key ks' (encode_to_string bytes))) [
        | inl (r, fine) ↦ sign_one_refused key ks' bytes t e h refused r fine
        | inr (inl (e', failed)) ↦ let no = rw failed at second in cc
        | inr (inr panics) ↦ let no = rw panics at second in cc
      ]
