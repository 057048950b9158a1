-- ===== src/Bytes/Hex.antt =====
-- encoding/hex: EncodeToString and DecodeString.
pub mod RoundTrip
use near_adapter.Prelude.{
  ℕ, ◌+◌, ◌-◌, ◌*◌, ◌/◌, ◌%◌, ◌&&◌, List, [], ◌∷◌, leb, ltb, if◌then◌else◌, Text, Option, none,
  some,
}
use near_adapter.Go.{GoError, hex_length, hex_invalid_byte}

-- The digits "0123456789abcdef".
hex_char : ℕ → ℕ
hex_char d = if ltb d 10 then b'0' + d else b'a' + (d - 10)

unfoldable pub encode_to_string : List ℕ → Text
unfolding hex_char
encode_to_string [] = []
encode_to_string (b ∷ bs) = hex_char (b / 16) ∷ hex_char (b % 16) ∷ encode_to_string bs

from_hex_char : ℕ → Option ℕ
from_hex_char c =
    if leb b'0' c && leb c b'9'
    then some (c - b'0')
    else if leb b'a' c && leb c b'f'
    then some (c - b'a' + 10)
    else if leb b'A' c && leb c b'F'
    then some (c - b'A' + 10)
    else none

odd_error : ℕ → Option ℕ → GoError
odd_error a none = hex_invalid_byte a
odd_error a (some d) = hex_length

-- The two digits of a byte, in front of what the rest gives.
with_digits : ℕ → ℕ → Option ℕ → Option ℕ → List ℕ × Option GoError → List ℕ × Option GoError
with_digits a b none y rest = ([], some (hex_invalid_byte a))
with_digits a b (some x) none rest = ([], some (hex_invalid_byte b))
with_digits a b (some x) (some y) rest = ((x * 16 + y) ∷ rest.0, rest.1)

-- The bytes in front of the first error come back with it.
unfoldable pub decode_string : Text → List ℕ × Option GoError
unfolding with_digits odd_error from_hex_char
decode_string [] = ([], none)
decode_string (a ∷ []) = ([], some (odd_error a (from_hex_char a)))
decode_string (a ∷ b ∷ rest) =
    with_digits a b (from_hex_char a) (from_hex_char b) (decode_string rest)
