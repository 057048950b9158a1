-- ===== src/Address/Verify.antt =====
-- What `AddressVerify` accepts.
use near_adapter.Prelude.{ℕ, ◌≤◌, ◌≡◌, ◌↔◌, true, List, [], ◌∷◌, length, All, IsByte, Text, arith}
use near_adapter.Bytes.Hex.{encode_to_string}
use near_adapter.Bytes.Hex.RoundTrip.{
  length-encode_to_string, IsHexDigit, encode_to_string-IsHexDigit,
}
use near_adapter.Regex.{match}
use near_adapter.Regex.Correct.{match_iff}
use near_adapter.Address.{address_verify, address_encode, account_regex, is_word_byte}
use near_adapter.Address.Grammar.{
  AccountName, last, next, account_regex_sound, account_regex_complete,
}

address_verify-match :
    (s : Text)
    → (address_verify s ≡ true)
      ↔ ((2 ≤ length s) × (length s ≤ 64) × (match account_regex s ≡ true))
unfolding address_verify
address_verify-match s = ground arith

-- An address is accepted exactly when it is 2 to 64 bytes long and is an account name: words of
-- small letters and digits, joined by single separators.
pub address_verify_iff :
    (s : Text) → (address_verify s ≡ true) ↔ ((2 ≤ length s) × (length s ≤ 64) × AccountName s)
address_verify_iff s = (
  λ h.
      let (lo, hi, m) = (address_verify-match s).0 h in
      (lo, hi, account_regex_sound s ((match_iff account_regex s).0 m)),
  λ (lo, hi, n).
      (address_verify-match s).1 (lo, hi, (match_iff account_regex s).1 (account_regex_complete n)),
)

digit-word : (c : ℕ) → IsHexDigit c → is_word_byte c ≡ true
unfolding is_word_byte
digit-word c h = ground arith

digits-AccountName : (c : ℕ) (s : Text) → All IsHexDigit (c ∷ s) → AccountName (c ∷ s)
digits-AccountName c [] (h, hs) = last c (digit-word c h)
digits-AccountName c (d ∷ s) (h, hs) = next c (digit-word c h) (digits-AccountName d s hs)

nonempty-AccountName : (s : Text) → 2 ≤ length s → All IsHexDigit s → AccountName s
nonempty-AccountName [] h hs = absurd (omega arith)
nonempty-AccountName (c ∷ s) h hs = digits-AccountName c s hs

-- The address that `AddressEncode` gives a public key of 1 to 32 bytes passes `AddressVerify`.
pub address_verify-address_encode :
    (key : List ℕ)
    → All IsByte key
    → 1 ≤ length key
    → length key ≤ 32
    → address_verify (address_encode key) ≡ true
unfolding address_encode
address_verify-address_encode key bytes lo hi = (address_verify_iff (encode_to_string key)).1 (
  omega (arith, length-encode_to_string key),
  omega (arith, length-encode_to_string key),
  nonempty-AccountName (encode_to_string key) (omega (arith, length-encode_to_string key))
      (encode_to_string-IsHexDigit key bytes),
)
