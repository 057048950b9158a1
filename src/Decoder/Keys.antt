-- ===== src/Decoder/Keys.antt =====
-- The structures of openwallet that the decoder handles, what it calls beside the scanner, and
-- txsigner/signer.go.
use near_adapter.Prelude.{
  ℕ, Bool, List, [], Text, codes, Option, none, some, ◌==◌, if◌then◌else◌, length, ◌%◌, ◌^◌, ◌∷◌,
  text_eq,
}
use near_adapter.Prelude.Int.{ℤ}
use near_adapter.Go.{GoError, Result, ok, err, plain}
use near_adapter.Exec.{Exec}
use near_adapter.Transaction.{Transaction, Libraries}
use near_adapter.Wallet.{Coin}

-- openwallet.Address
pub record Address : Type 0 where
  pub address : Text
  pub public_key : Text
  pub hd_path : Text

-- openwallet.KeySignature
pub record KeySignature : Type 0 where
  pub ecc_type : ℕ
  pub address : Address
  pub message : Text
  pub signature : Text

-- openwallet.RawTransaction. `account_id` is `Account.AccountID`; a map is a list with no key twice,
-- and a nil map is the empty one, since the program tells them apart nowhere.
pub record RawTransaction : Type 0 where
  pub coin : Coin
  pub account_id : Text
  pub to : List (Text × Text)
  pub required : ℕ
  pub raw_hex : Text
  pub signatures : List (Text × List KeySignature)
  pub fee_rate : Text
  pub fees : Text
  pub is_built : Bool
  pub is_submit : Bool
  pub tx_id : Text
  pub tx_amount : Text
  pub tx_from : List Text
  pub tx_to : List Text

-- openwallet.SummaryRawTransaction
pub record SummaryRawTransaction : Type 0 where
  pub coin : Coin
  pub account_id : Text
  pub summary_address : Text
  pub address_start_index : ℤ
  pub address_limit : ℤ

-- `m[key]` for a map of signatures.
unfoldable pub signatures_of : Text → List (Text × List KeySignature) → Option (List KeySignature)
signatures_of key [] = none
signatures_of key ((k, v) ∷ m) = if text_eq k key then some v else signatures_of key m

-- `m[key] = v`
unfoldable pub put_signatures :
    Text → List KeySignature → List (Text × List KeySignature) → List (Text × List KeySignature)
put_signatures key v [] = (key, v) ∷ []
put_signatures key v ((k, w) ∷ m) =
    if text_eq k key then (key, v) ∷ m else (k, w) ∷ put_signatures key v m

-- WalletDAI, its keys, owcrypt, the JSON text of a transaction, and the time.
pub record Wallet (W : Type 0) : Type 1 where
  pub Key : Type 0
  pub get_address_list : ℤ → ℤ → List (Text × Text) → Exec W (List Address)
  pub get_address : Text → Exec W Address
  pub hd_key : Exec W Key
  -- The child key is nil where it cannot be derived.
  pub derived_key_with_path : Key → Text → ℕ → Option Key
  pub get_private_key_bytes : Option Key → Result (List ℕ)
  -- owcrypt.Signature and owcrypt.Verify: a signature with a return code, and a return code.
  pub signature_success : ℕ
  pub owcrypt_signature : List ℕ → List ℕ → ℕ → ℕ → List ℕ × ℕ
  pub owcrypt_verify : List ℕ → List ℕ → ℕ → List ℕ → ℕ → ℕ
  pub marshal : Transaction → Result (List ℕ)
  pub unmarshal : List ℕ → Transaction × Option GoError
  pub now : W → ℕ
  pub libraries : Libraries

-- `SignTransactionHash`. The length of the message goes through a uint16.
unfoldable pub sign_transaction_hash :
    {W : Type 0} → Wallet W → List ℕ → List ℕ → ℕ → Result (List ℕ)
sign_transaction_hash lib msg private_key ecc_type =
    let (sig, code) = lib.owcrypt_signature private_key msg (length msg % 2 ^ 16) ecc_type in
    if code == lib.signature_success then ok sig else err (plain (codes "ECC sign hash failed"))
