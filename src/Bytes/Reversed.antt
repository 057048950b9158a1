-- ===== src/Bytes/Reversed.antt =====
-- The two conversions between bytes and the hexadecimal text of their reverse.
use mathlib.Core.List.{reverse, reverse_aux, reverse-reverse}
use near_adapter.Prelude.{
  ℕ, ◌≡◌, ap, ◌∙◌, ◌*◌, ◌%◌, List, [], ◌∷◌, length, All, IsByte, ◌==◌, arith, false,
}
use near_adapter.Go.{ok}
use near_adapter.Bytes.{reverse_hex_to_bytes, reverse_bytes_to_hex}
use near_adapter.Bytes.Hex.RoundTrip.{decode_string-encode_to_string, length-encode_to_string}
use near_adapter.Bytes.Reverse.{reverse_bytes-reverse}

All-reverse_aux :
    (bs done : List ℕ) → All IsByte bs → All IsByte done → All IsByte (reverse_aux bs done)
All-reverse_aux [] done h hd = hd
All-reverse_aux (b ∷ bs) done (hb, h) hd = All-reverse_aux bs (b ∷ done) h (hb, hd)

All-reverse : (bs : List ℕ) → All IsByte bs → All IsByte (reverse bs)
All-reverse bs h = All-reverse_aux bs [] h tt

even_length : (n : ℕ) → (2 * n % 2 == 1) ≡ false
even_length n = ground arith

-- Bytes are got back from the hexadecimal text of their reverse.
pub reverse_hex_to_bytes-reverse_bytes_to_hex :
    (bs : List ℕ) → All IsByte bs → reverse_hex_to_bytes (reverse_bytes_to_hex bs) ≡ ok bs
unfolding reverse_hex_to_bytes reverse_bytes_to_hex
reverse_hex_to_bytes-reverse_bytes_to_hex bs h =
    rw
      (
        reverse_bytes-reverse bs,
        length-encode_to_string (reverse bs),
        even_length (length (reverse bs)),
        decode_string-encode_to_string (reverse bs) (All-reverse bs h),
      )
      (ap ok (reverse_bytes-reverse (reverse bs) ∙ reverse-reverse bs))
