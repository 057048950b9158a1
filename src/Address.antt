-- ===== src/Address.antt =====
-- near/address_decode.go: account names.
pub mod Grammar
pub mod Verify
use near_adapter.Prelude.{
  ℕ, ◌≡◌, Bool, true, false, not, ◌&&◌, ◌||◌, List, [], ◌∷◌, length, leb, ltb, ◌==◌, Text,
  if◌then◌else◌,
}
use near_adapter.Bytes.Hex.{encode_to_string}
use near_adapter.Regex.{Regex, class, seq, star, plus, match}

-- `[a-z\d]`
pub is_word_byte : ℕ → Bool
is_word_byte c = (leb b'a' c && leb c b'z') || (leb b'0' c && leb c b'9')

-- `[\-_]`
pub is_joiner : ℕ → Bool
is_joiner c = c == b'-' || c == b'_'

-- `\.`
pub is_dot : ℕ → Bool
is_dot c = c == b'.'

abbrev pub word : Regex
word = plus (class is_word_byte)

-- `([a-z\d]+[\-_])*[a-z\d]+`
abbrev pub part : Regex
part = seq (star (seq word (class is_joiner))) word

-- `^(([a-z\d]+[\-_])*[a-z\d]+\.)*([a-z\d]+[\-_])*[a-z\d]+$`
abbrev pub account_regex : Regex
account_regex = seq (star (seq part (class is_dot))) part

-- The expression compiles, so `regexp.Match` returns no error.
pub address_verify : Text → Bool
address_verify address =
    if ltb (length address) 2 || ltb 64 (length address)
    then false
    else if not (match account_regex address)
    then false
    else true

pub address_encode : List ℕ → Text
address_encode pub_key = encode_to_string pub_key
