-- ===== src/Bytes.antt =====
-- neartransaction/tx_utils.go, and encoding/binary as far as that file uses it.
-- A byte slice is a list of numbers below 256; a uintN is a number below 2 ^ N.
pub mod Hex
pub mod Base64
pub mod Endian
pub mod Reverse
pub mod Reversed
use near_adapter.Prelude.{
  ℕ, zero, suc, ◌+◌, ◌-◌, ◌*◌, ◌/◌, ◌%◌, Bool, true, false, not, List, [], ◌∷◌, length, get_or, set,
  ltb, ◌==◌, if◌then◌else◌, Text, Option, none, some,
}
use Hex.{encode_to_string, decode_string}
use near_adapter.Go.{Result, ok, err, panic, plain, checked, ◌>>=◌}
use near_adapter.Prelude.{codes}

-- `for index := 0; index < len(a); index++`, by the rounds that are left.
compare_loop : ℕ → ℕ → List ℕ → List ℕ → Bool
compare_loop zero index a b = true
compare_loop (suc left) index a b = elim (get_or a index 0 == get_or b index 0) [
  | true ↦ compare_loop left (suc index) a b
  | false ↦ false
]

pub byte_array_compare : List ℕ → List ℕ → Bool
unfolding compare_loop
byte_array_compare a b = if not (length a == length b) then false else compare_loop (length a) 0 a b

-- `s[i], s[j] = s[j], s[i]`
swap : List ℕ → ℕ → ℕ → List ℕ
swap s i j = set (set s i (get_or s j 0)) j (get_or s i 0)

-- `for i, j := 0, len(s)-1; i < j; i, j = i+1, j-1`, on fuel.
reverse_loop : ℕ → ℕ → ℕ → List ℕ → List ℕ
reverse_loop zero i j s = s
reverse_loop (suc fuel) i j s = elim (ltb i j) [
  | true ↦ reverse_loop fuel (suc i) (j - 1) (swap s i j)
  | false ↦ s
]

-- Each round moves `i` up, so as many rounds as bytes are enough.
pub reverse_bytes : List ℕ → List ℕ
unfolding reverse_loop swap
reverse_bytes s = reverse_loop (length s) 0 (length s - 1) s

pub reverse_hex_to_bytes : Text → Result (List ℕ)
reverse_hex_to_bytes hex_var =
    if length hex_var % 2 == 1 then err (plain (codes "Invalid TxHash!")) else (do
      ret ← checked (decode_string hex_var).0 (decode_string hex_var).1
      ok (reverse_bytes ret))

-- The text; the slice of the caller, which `reverseBytes` turns round, is not returned.
pub reverse_bytes_to_hex : List ℕ → Text
reverse_bytes_to_hex bytes_var = encode_to_string (reverse_bytes bytes_var)

-- `binary.LittleEndian.PutUintN`: the `n` low bytes of a word, lowest first.
unfoldable pub put_uint : ℕ → ℕ → List ℕ
put_uint zero v = []
put_uint (suc n) v = v % 256 ∷ put_uint n (v / 256)

-- `binary.LittleEndian.UintN`: reads the first `n` bytes, and panics on a shorter slice.
pub get_uint : ℕ → List ℕ → Result ℕ
get_uint zero bs = ok 0
get_uint (suc n) [] = panic
get_uint (suc n) (b ∷ bs) = do rest ← get_uint n bs; ok (b + 256 * rest)

pub uint16_to_little_endian_bytes : ℕ → List ℕ
uint16_to_little_endian_bytes = put_uint 2

pub little_endian_bytes_to_uint16 : List ℕ → Result ℕ
little_endian_bytes_to_uint16 = get_uint 2

unfoldable pub uint32_to_little_endian_bytes : ℕ → List ℕ
uint32_to_little_endian_bytes = put_uint 4

pub little_endian_bytes_to_uint32 : List ℕ → Result ℕ
little_endian_bytes_to_uint32 = get_uint 4

unfoldable pub uint64_to_little_endian_bytes : ℕ → List ℕ
uint64_to_little_endian_bytes = put_uint 8

pub little_endian_bytes_to_uint64 : List ℕ → Result ℕ
little_endian_bytes_to_uint64 = get_uint 8
