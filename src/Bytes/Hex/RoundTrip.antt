-- ===== src/Bytes/Hex/RoundTrip.antt =====
-- Text to bytes and back.
use near_adapter.Prelude.{
  ℕ, ◌+◌, ◌*◌, ◌≤◌, ◌⊎◌, ◌/◌, ◌%◌, ◌<◌, ◌≡◌, refl, ap, ◌&&◌, List, [], ◌∷◌, length, map, length-map,
  All, IsByte, leb, if◌then◌else◌, Text, Option, none, some, arith,
}
use near_adapter.Go.{GoError}
use near_adapter.Bytes.Hex.{hex_char, from_hex_char, encode_to_string, decode_string, with_digits}

from_hex_char-hex_char : (d : ℕ) → d < 16 → from_hex_char (hex_char d) ≡ some d
unfolding from_hex_char hex_char
from_hex_char-hex_char d h = ground arith

-- Decoding an encoded byte slice gives the slice back, with no error.
pub decode_string-encode_to_string :
    (bs : List ℕ) → All IsByte bs → decode_string (encode_to_string bs) ≡ (bs, none)
unfolding encode_to_string decode_string with_digits
decode_string-encode_to_string [] h = refl
decode_string-encode_to_string (b ∷ bs) (hb, hbs) =
    rw
      (
        from_hex_char-hex_char (b / 16) (omega arith),
        from_hex_char-hex_char (b % 16) (omega arith),
        decode_string-encode_to_string bs hbs,
      )
      (ground arith)

-- The lower case of an ASCII letter.
abbrev pub to_lower : ℕ → ℕ
to_lower c = if leb b'A' c && leb c b'Z' then c + 32 else c

pub length-encode_to_string : (bs : List ℕ) → length (encode_to_string bs) ≡ 2 * length bs
unfolding encode_to_string
length-encode_to_string [] = refl
length-encode_to_string (b ∷ bs) = omega (arith, length-encode_to_string bs)

hex_char-from_hex_char : (c d : ℕ) → from_hex_char c ≡ some d → (d < 16) × (hex_char d ≡ to_lower c)
unfolding from_hex_char hex_char
hex_char-from_hex_char c d h = ground arith

-- One byte of a text that decodes: both digits are digits, and they are what the byte prints as.
decode_two :
    (a b : ℕ) (ma mb : Option ℕ) (rest : List ℕ × Option GoError) (bs : List ℕ) (text : Text)
    → from_hex_char a ≡ ma
    → from_hex_char b ≡ mb
    → (rest.1 ≡ none → (encode_to_string rest.0 ≡ text) × All IsByte rest.0)
    → with_digits a b ma mb rest ≡ (bs, none)
    → (encode_to_string bs ≡ to_lower a ∷ to_lower b ∷ text) × All IsByte bs
unfolding encode_to_string with_digits
decode_two a b none mb rest bs text ea eb ih h = ground arith
decode_two a b (some x) none rest bs text ea eb ih h = ground arith
decode_two a b (some x) (some y) rest bs text ea eb ih h =
    ground (arith, hex_char-from_hex_char a x, hex_char-from_hex_char b y)

-- A text that decodes with no error is, up to case, the encoding of what it decodes to.
pub encode_to_string-decode_string :
    (s : Text) (bs : List ℕ)
    → decode_string s ≡ (bs, none)
    → (encode_to_string bs ≡ map to_lower s) × All IsByte bs
unfolding decode_string encode_to_string
encode_to_string-decode_string [] bs h = ground arith
encode_to_string-decode_string (a ∷ []) bs h = ground arith
encode_to_string-decode_string (a ∷ b ∷ rest) bs h =
    decode_two a b (from_hex_char a) (from_hex_char b) (decode_string rest) bs (map to_lower rest)
      refl refl (λ e. encode_to_string-decode_string rest (decode_string rest).0 (ground arith)) h

pub length-decode_string :
    (s : Text) (bs : List ℕ) → decode_string s ≡ (bs, none) → 2 * length bs ≡ length s
length-decode_string s bs h = omega (
  arith,
  length-encode_to_string bs,
  ap length (encode_to_string-decode_string s bs h).0,
  length-map to_lower s,
)

-- A digit "0" to "9" or "a" to "f".
abbrev pub IsHexDigit : ℕ → Type 0
IsHexDigit c = ((b'0' ≤ c) × (c ≤ b'9')) ⊎ ((b'a' ≤ c) × (c ≤ b'f'))

hex_char-IsHexDigit : (d : ℕ) → d < 16 → IsHexDigit (hex_char d)
unfolding hex_char
hex_char-IsHexDigit d h = ground arith

pub encode_to_string-IsHexDigit :
    (bs : List ℕ) → All IsByte bs → All IsHexDigit (encode_to_string bs)
unfolding encode_to_string
encode_to_string-IsHexDigit [] h = tt
encode_to_string-IsHexDigit (b ∷ bs) (hb, h) = (
  hex_char-IsHexDigit (b / 16) (omega arith),
  (hex_char-IsHexDigit (b % 16) (omega arith), encode_to_string-IsHexDigit bs h),
)
