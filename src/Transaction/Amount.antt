-- ===== src/Transaction/Amount.antt =====
-- The bytes of an amount: the digits of a number to the base 256, padded with zeros.
use mathlib.Core.List.{reverse-reverse, append-nil}
use near_adapter.Prelude.{
  ℕ, zero, suc, ◌+◌, ◌-◌, ◌/◌, ◌%◌, ◌^◌, ◌<◌, ◌≤◌, ◌≡◌, refl, ap, ◌∙◌, List, [], ◌∷◌, ◌++◌, length,
  replicate, some, arith, ◌↔◌, length-append, length-replicate,
}
use native.Mathlib.Decide.{dec_lt}
use near_adapter.Prelude.Int.{ℤ, magnitude}
use near_adapter.Go.{ok}
use near_adapter.Bytes.{put_uint, reverse_bytes}
use near_adapter.Bytes.Endian.{pow256, length-put_uint}
use near_adapter.Bytes.Reverse.{reverse_bytes-reverse}
use near_adapter.Transaction.{Libraries, low_digits, big_int_bytes, action_bytes}

-- What openwallet documents of `RightPadBytes`: zeros up to the length asked for.
abbrev pub PadsRight : Libraries → Type 0
PadsRight lib = (s : List ℕ) (n : ℕ) → lib.right_pad_bytes s n ≡ s ++ replicate (n - length s) 0

sub_suc_zero : (n : ℕ) → 0 - suc n ≡ 0
sub_suc_zero n = omega arith

sub-zero : (n : ℕ) → n - 0 ≡ n
sub-zero n = omega arith

sub_suc-suc : (n m : ℕ) → suc n - suc m ≡ n - m
sub_suc-suc n m = omega arith

pow256_pos : (n : ℕ) → 0 < 256 ^ n
pow256_pos zero = omega arith
pow256_pos (suc n) = omega (arith, pow256 n, pow256_pos n)

low_digits-zero : (fuel : ℕ) → low_digits fuel 0 ≡ []
unfolding low_digits
low_digits-zero zero = refl
low_digits-zero (suc fuel) = refl

put_uint-zero : (n : ℕ) → put_uint n 0 ≡ replicate n 0
unfolding put_uint
put_uint-zero zero = refl
put_uint-zero (suc n) = ap (◌∷◌ 0) (put_uint-zero n)

low_digits_step :
    (fuel n : ℕ) → 0 < n → low_digits (suc fuel) n ≡ n % 256 ∷ low_digits fuel (n / 256)
unfolding low_digits
low_digits_step fuel n h = ground arith

-- Zeros up to the length `n`, by recursion.
padded : ℕ → List ℕ → List ℕ
padded zero s = s
padded (suc n) [] = 0 ∷ padded n []
padded (suc n) (x ∷ s) = x ∷ padded n s

append-replicate : (n : ℕ) (s : List ℕ) → s ++ replicate (n - length s) 0 ≡ padded n s
unfolding padded
append-replicate zero [] = refl
append-replicate zero (x ∷ s) = simp (sub_suc_zero, append-nil)
append-replicate (suc n) [] = simp sub-zero (ap (◌∷◌ 0) (simp sub-zero at (append-replicate n [])))
append-replicate (suc n) (x ∷ s) = simp sub_suc-suc (ap (◌∷◌ x) (append-replicate n s))

padded-low_digits :
    (n fuel v : ℕ) → v ≤ fuel → v < 256 ^ n → padded n (low_digits fuel v) ≡ put_uint n v
unfolding padded put_uint low_digits
padded-low_digits zero fuel zero hf hv = low_digits-zero fuel
padded-low_digits zero fuel (suc v) hf hv = absurd (omega arith)
padded-low_digits (suc n) zero zero hf hv = ap (◌∷◌ 0) (padded-low_digits n 0 0 hf (pow256_pos n))
padded-low_digits (suc n) zero (suc v) hf hv = absurd (omega arith)
padded-low_digits (suc n) (suc fuel) zero hf hv =
    rw (low_digits-zero (suc fuel)) (
      ap (◌∷◌ 0) (rw (low_digits-zero 0) at (padded-low_digits n 0 0 (omega arith) (pow256_pos n))))
padded-low_digits (suc n) (suc fuel) (suc v) hf hv =
    rw (low_digits_step fuel (suc v) (omega arith)) (
      ap (◌∷◌ (suc v % 256))
        (padded-low_digits n fuel (suc v / 256) (omega arith) (omega (arith, pow256 n))))

-- Padded with zeros, the digits of a number that fits are its little-endian bytes.
pub low_digits-pad :
    (n fuel v : ℕ)
    → v ≤ fuel
    → v < 256 ^ n
    → low_digits fuel v ++ replicate (n - length (low_digits fuel v)) 0 ≡ put_uint n v
low_digits-pad n fuel v hf hv =
    append-replicate n (low_digits fuel v) ∙ padded-low_digits n fuel v hf hv

-- A number that does not fit has more than `n` digits.
pub length-low_digits : (n fuel v : ℕ) → v ≤ fuel → 256 ^ n ≤ v → n < length (low_digits fuel v)
length-low_digits n fuel zero hf hv = absurd (omega (arith, pow256_pos n))
length-low_digits n zero (suc v) hf hv = absurd (omega arith)
length-low_digits zero (suc fuel) (suc v) hf hv =
    rw (low_digits_step fuel (suc v) (omega arith)) (omega arith)
length-low_digits (suc n) (suc fuel) (suc v) hf hv =
    rw (low_digits_step fuel (suc v) (omega arith)) (
      omega (arith, length-low_digits n fuel (suc v / 256) (omega arith) (omega (arith, pow256 n))))

pub reverse_bytes-big_int_bytes :
    (x : ℤ) → reverse_bytes (big_int_bytes x) ≡ low_digits (magnitude x) (magnitude x)
unfolding big_int_bytes
reverse_bytes-big_int_bytes x =
    reverse_bytes-reverse (big_int_bytes x)
    ∙ reverse-reverse (low_digits (magnitude x) (magnitude x))

module _ (lib : Libraries) (pads : PadsRight lib) where
  amount_bytes :
      (x : ℤ)
      → lib.right_pad_bytes (reverse_bytes (big_int_bytes x)) 16
        ≡ low_digits (magnitude x) (magnitude x)
          ++ replicate (16 - length (low_digits (magnitude x) (magnitude x))) 0
  amount_bytes x = rw (reverse_bytes-big_int_bytes x) (pads _ 16)

  -- An amount whose absolute value fits a u128 is the tag 3 and that value's sixteen bytes.
  pub action_bytes_fits :
      (x : ℤ)
      → magnitude x < 2 ^ 128
      → action_bytes lib (some x) ≡ ok (3 ∷ put_uint 16 (magnitude x))
  unfolding action_bytes
  action_bytes_fits x h =
      ap (λ s. ok (3 ∷ s))
        (amount_bytes x ∙ low_digits-pad 16 (magnitude x) (magnitude x) (omega arith) (omega arith))

  -- An amount is always written. It takes seventeen bytes, as the format wants, exactly when its
  -- absolute value is below 2 ^ 128; from there on it takes more.
  pub action_bytes-length_iff :
      (x : ℤ)
      → (bs : List ℕ) × (action_bytes lib (some x) ≡ ok bs)
        × ((length bs ≡ 17) ↔ (magnitude x < 2 ^ 128))
        × (2 ^ 128 ≤ magnitude x → 17 < length bs)
  unfolding action_bytes
  action_bytes-length_iff x = (
    3 ∷ digits ++ replicate (16 - length digits) 0,
    ap (λ s. ok (3 ∷ s)) (amount_bytes x),
    elim (dec_lt (magnitude x) (2 ^ 128)) [
      | yes small ↦ (λ _. small, λ _. fitting small)
      | no large ↦
          (λ e. absurd (omega (arith, e, longer (omega arith))), λ small. absurd (large small))
    ],
    longer,
  )
    where
      digits : List ℕ
      digits = low_digits (magnitude x) (magnitude x)

      size :
          length (3 ∷ digits ++ replicate (16 - length digits) 0)
          ≡ suc (length digits + (16 - length digits))
      size = omega (
        arith,
        length-append digits (replicate (16 - length digits) 0),
        length-replicate {A = ℕ} (16 - length digits) 0,
      )

      fitting : magnitude x < 2 ^ 128 → length (3 ∷ digits ++ replicate (16 - length digits) 0) ≡ 17
      fitting small =
          ap (λ s. suc (length s))
            (low_digits-pad 16 (magnitude x) (magnitude x) (omega arith) (omega arith))
          ∙ ap suc (length-put_uint 16 (magnitude x))

      longer : 2 ^ 128 ≤ magnitude x → 17 < length (3 ∷ digits ++ replicate (16 - length digits) 0)
      longer large = omega (
        arith,
        size,
        length-low_digits 16 (magnitude x) (magnitude x) (omega arith) (omega arith),
      )
