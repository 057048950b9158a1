-- ===== src/Bytes/Endian.antt =====
-- Words as little-endian bytes and back.
use near_adapter.Prelude.{
  ℕ, zero, suc, ◌*◌, ◌/◌, ◌^◌, ◌<◌, ◌≡◌, refl, ap, List, ◌++◌, length, All, IsByte, arith,
}
use native.Mathlib.Nat.{pow-suc}
use near_adapter.Go.{ok}
use near_adapter.Bytes.{
  put_uint, get_uint, uint16_to_little_endian_bytes, little_endian_bytes_to_uint16,
  uint32_to_little_endian_bytes, little_endian_bytes_to_uint32, uint64_to_little_endian_bytes,
  little_endian_bytes_to_uint64,
}

pub length-put_uint : (n v : ℕ) → length (put_uint n v) ≡ n
unfolding put_uint
length-put_uint zero v = refl
length-put_uint (suc n) v = ap suc (length-put_uint n (v / 256))

pub put_uint-IsByte : (n v : ℕ) → All IsByte (put_uint n v)
unfolding put_uint
put_uint-IsByte zero v = tt
put_uint-IsByte (suc n) v = (omega arith, put_uint-IsByte n (v / 256))

pub pow256 : (n : ℕ) → 256 ^ suc n ≡ 256 * 256 ^ n
pow256 n = omega (arith, pow-suc 256 n)

-- Reading `n` bytes back leaves what follows them alone.
pub get_uint-put_uint :
    (n v : ℕ) (rest : List ℕ) → v < 256 ^ n → get_uint n (put_uint n v ++ rest) ≡ ok v
unfolding put_uint get_uint
get_uint-put_uint zero v rest h = ap ok (omega arith)
get_uint-put_uint (suc n) v rest h =
    rw (get_uint-put_uint n (v / 256) rest (omega (arith, pow256 n))) (ap ok (omega arith))

-- Each of the three widths is read back as it was written, whatever bytes follow.
pub uints_round_trip :
    (v : ℕ) (rest : List ℕ)
    → (v < 2 ^ 16 → little_endian_bytes_to_uint16 (uint16_to_little_endian_bytes v ++ rest) ≡ ok v)
      × (v < 2 ^ 32
          → little_endian_bytes_to_uint32 (uint32_to_little_endian_bytes v ++ rest) ≡ ok v)
      × (v < 2 ^ 64
          → little_endian_bytes_to_uint64 (uint64_to_little_endian_bytes v ++ rest) ≡ ok v)
unfolding uint16_to_little_endian_bytes little_endian_bytes_to_uint16 uint32_to_little_endian_bytes
    little_endian_bytes_to_uint32 uint64_to_little_endian_bytes little_endian_bytes_to_uint64
uints_round_trip v rest = (
  λ h. get_uint-put_uint 2 v rest h,
  λ h. get_uint-put_uint 4 v rest h,
  λ h. get_uint-put_uint 8 v rest h,
)
