-- ===== src/Go.antt =====
-- What Go itself gives: a call's outcome and the errors that the program makes or passes on.
use near_adapter.Prelude.{ℕ, ◌≡◌, refl, Text, Option, none, some}

-- The error codes of openwallet that the program uses.
pub data ErrCode : Type 0 where
  create_raw_transaction_failed : ErrCode
  verify_raw_transaction_failed : ErrCode
  insufficient_balance_of_account : ErrCode

-- An error value. `plain` is made by `errors.New` or `fmt.Errorf` with this message, `coded` by
-- `openwallet.Errorf`, the next two by encoding/hex, and `library` by any other library.
pub data GoError : Type 0 where
  plain : Text → GoError
  coded : ErrCode → Text → GoError
  hex_length : GoError
  hex_invalid_byte : ℕ → GoError
  library : Text → GoError

-- The pair (value, error) of a call whose value is not used beside an error, or a panic.
pub data Result {ℓ} (A : Type ℓ) : Type ℓ where
  panic : Result A
  ok : A → Result A
  err : GoError → Result A

module _ {ℓ κ} {A : Type ℓ} {B : Type κ} where
  infixl 5 ◌>>=◌
  abbrev pub ◌>>=◌ : Result A → (A → Result B) → Result B
  panic >>= rest = panic
  err failure >>= rest = err failure
  ok value >>= rest = rest value

-- `if err != nil { return err }` on a call that returns a value and an error side by side.
abbrev pub checked {ℓ} : {A : Type ℓ} → A → Option GoError → Result A
checked a none = ok a
checked a (some e) = err e

-- A chain that succeeds has a first call that does.
pub >>=-ok {ℓ κ} :
    {A : Type ℓ} {B : Type κ} {last : B} (first : Result A) (rest : A → Result B)
    → (first >>= rest) ≡ ok last
    → (value : A) × (rest value ≡ ok last) × (first ≡ ok value)
>>=-ok panic rest h = cc
>>=-ok (err failure) rest h = cc
>>=-ok (ok value) rest h = (value, h, refl)

pub ok-injective {ℓ} : {A : Type ℓ} {a b : A} → ok a ≡ ok b → a ≡ b
ok-injective h = cc
