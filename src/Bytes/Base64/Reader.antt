-- ===== src/Bytes/Base64/Reader.antt =====
-- An independent reader of base64 text, and that it reads what the encoder writes.
use near_adapter.Prelude.{
  ℕ, ◌+◌, ◌-◌, ◌*◌, ◌/◌, ◌%◌, ◌<◌, ◌≡◌, refl, ap, false, List, [], ◌∷◌, ◌&&◌, leb, ◌==◌, Option,
  none, some, All, IsByte, Text, if◌then◌else◌, arith,
}
use near_adapter.Prelude.Options.{◌>>=◌}
use near_adapter.Bytes.Base64.{base64_char, encode_base64}

-- The value of a letter of the alphabet.
digit : ℕ → Option ℕ
digit c =
    if leb b'A' c && leb c b'Z'
    then some (c - b'A')
    else if leb b'a' c && leb c b'z'
    then some (c - b'a' + 26)
    else if leb b'0' c && leb c b'9'
    then some (c - b'0' + 52)
    else if c == b'+'
    then some 62
    else if c == b'/'
    then some 63
    else none

digit-base64_char : (d : ℕ) → d < 64 → digit (base64_char d) ≡ some d
unfolding digit base64_char
digit-base64_char d h = ground arith

char_is_no_pad : (d : ℕ) → d < 64 → (base64_char d == b'=') ≡ false
unfolding base64_char
char_is_no_pad d h = ground arith

-- A padded group is the last one.
closing : Text → List ℕ → Option (List ℕ)
closing [] bytes = some bytes
closing (c ∷ rest) bytes = none

-- Behind the letters `x` and `y` and the pair `c`, `d`: one byte, two, or three and `more`.
group : ℕ → ℕ → ℕ → ℕ → Text → Option (List ℕ) → Option (List ℕ)
group x y c d rest more =
    if c == b'=' then (if d == b'=' then closing rest ((x * 4 + y / 16) ∷ []) else none) else (do
      z ← digit c
      if d == b'=' then closing rest ((x * 4 + y / 16) ∷ (y % 16 * 16 + z / 4) ∷ []) else (do
        u ← digit d
        bytes ← more
        some ((x * 4 + y / 16) ∷ (y % 16 * 16 + z / 4) ∷ (z % 4 * 64 + u) ∷ bytes)))

-- Four letters for three bytes, where the last four may be padded.
pub read_base64 : Text → Option (List ℕ)
read_base64 [] = some []
read_base64 (a ∷ b ∷ c ∷ d ∷ rest) =
    let more = read_base64 rest in do x ← digit a; y ← digit b; group x y c d rest more
read_base64 (a ∷ rest) = none

first_byte : (a b : ℕ) → b < 16 → a / 4 * 4 + (a % 4 * 16 + b) / 16 ≡ a
first_byte a b h = omega arith

second_byte :
    (a b c : ℕ) → b < 256 → c < 4 → (a % 4 * 16 + b / 16) % 16 * 16 + (b % 16 * 4 + c) / 4 ≡ b
second_byte a b c hb hc = omega arith

third_byte : (b c : ℕ) → c < 256 → (b % 16 * 4 + c / 64) % 4 * 64 + c % 64 ≡ c
third_byte b c h = omega arith

-- The base64 text of bytes is read back as those bytes.
pub read_base64-encode_base64 : (s : List ℕ) → All IsByte s → read_base64 (encode_base64 s) ≡ some s
unfolding read_base64 group closing encode_base64
read_base64-encode_base64 [] h = refl
read_base64-encode_base64 (a ∷ []) (ha, _) =
    rw (digit-base64_char (a / 4) (omega arith), digit-base64_char (a % 4 * 16) (omega arith))
      (ap (λ x. some (x ∷ [])) (omega arith))
read_base64-encode_base64 (a ∷ b ∷ []) (ha, (hb, _)) =
    rw
      (
        digit-base64_char (a / 4) (omega arith),
        digit-base64_char (a % 4 * 16 + b / 16) (omega arith),
        char_is_no_pad (b % 16 * 4) (omega arith),
        digit-base64_char (b % 16 * 4) (omega arith),
        first_byte a (b / 16) (omega arith),
      )
      (ap (λ x. some (a ∷ x ∷ [])) (omega arith))
read_base64-encode_base64 (a ∷ b ∷ c ∷ s) (ha, (hb, (hc, hs))) =
    rw
      (
        digit-base64_char (a / 4) (omega arith),
        digit-base64_char (a % 4 * 16 + b / 16) (omega arith),
        char_is_no_pad (b % 16 * 4 + c / 64) (omega arith),
        digit-base64_char (b % 16 * 4 + c / 64) (omega arith),
        char_is_no_pad (c % 64) (omega arith),
        digit-base64_char (c % 64) (omega arith),
        read_base64-encode_base64 s hs,
        first_byte a (b / 16) (omega arith),
        second_byte a b (c / 64) hb (omega arith),
        third_byte b c hc,
      )
      refl
