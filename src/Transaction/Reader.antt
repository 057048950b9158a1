-- ===== src/Transaction/Reader.antt =====
-- The Borsh format of a NEAR transaction, described independently as a reader.
use near_adapter.Prelude.{
  ℕ, zero, suc, ◌+◌, ◌*◌, ◌≡◌, List, [], ◌∷◌, ◌++◌, length, take, drop, ◌==◌, leb, if◌then◌else◌,
  take-append, drop-append, length-append, Text, Option, none, some, arith, ◌^◌, ◌/◌, ◌<◌, ap,
}
use near_adapter.Prelude.Options.{◌>>=◌}
use near_adapter.Bytes.{put_uint}
use near_adapter.Bytes.Endian.{pow256}

-- What the bytes of a transaction tell. `signature` is empty in an unsigned one.
pub record Body : Type 0 where
  pub signer_id : Text
  pub public_key : List ℕ
  pub nonce : ℕ
  pub receiver_id : Text
  pub block_hash : List ℕ
  pub deposits : List ℕ
  pub signature : List ℕ

pub read_bytes : ℕ → List ℕ → Option (List ℕ × List ℕ)
read_bytes n s = if leb n (length s) then some (take n s, drop n s) else none

unfoldable pub read_uint : ℕ → List ℕ → Option (ℕ × List ℕ)
read_uint zero s = some (0, s)
read_uint (suc n) [] = none
read_uint (suc n) (b ∷ s) = do (v, rest) ← read_uint n s; some (b + 256 * v, rest)

unfoldable pub read_string : List ℕ → Option (Text × List ℕ)
read_string s = do (n, rest) ← read_uint 4 s; read_bytes n rest

-- The key type 0, ED25519, and 32 bytes.
unfoldable pub read_public_key : List ℕ → Option (List ℕ × List ℕ)
read_public_key s = do (tag, rest) ← read_uint 1 s; if tag == 0 then read_bytes 32 rest else none

-- The action 3, Transfer, and its deposit of 128 bits.
unfoldable pub read_action : List ℕ → Option (ℕ × List ℕ)
read_action s = do (tag, rest) ← read_uint 1 s; if tag == 3 then read_uint 16 rest else none

unfoldable pub read_actions : ℕ → List ℕ → Option (List ℕ × List ℕ)
read_actions zero s = some ([], s)
read_actions (suc n) s = do
  (d, rest) ← read_action s
  (ds, rest') ← read_actions n rest
  some (d ∷ ds, rest')

-- Nothing, or the key type 0 and the 64 bytes of the signature, with nothing behind them.
unfoldable pub read_signature : List ℕ → Option (List ℕ)
read_signature [] = some []
read_signature (tag ∷ s) = if tag == 0 then (if length s == 64 then some s else none) else none

unfoldable pub read_body : List ℕ → Option Body
read_body s = do
  (signer, s1) ← read_string s
  (key, s2) ← read_public_key s1
  (nonce, s3) ← read_uint 8 s2
  (receiver, s4) ← read_string s3
  (hash, s5) ← read_bytes 32 s4
  (count, s6) ← read_uint 4 s5
  (deposits, s7) ← read_actions count s6
  signature ← read_signature s7
  some (record {
    signer_id = signer;
    public_key = key;
    nonce = nonce;
    receiver_id = receiver;
    block_hash = hash;
    deposits = deposits;
    signature = signature;
  })

pub read_bytes-append :
    (n : ℕ) (xs ys : List ℕ) → n ≡ length xs → read_bytes n (xs ++ ys) ≡ some (xs, ys)
unfolding read_bytes
read_bytes-append n xs ys e =
    ground (arith, length-append xs ys, take-append xs ys, drop-append xs ys)

pub read_uint-put_uint :
    (n v : ℕ) (rest : List ℕ) → v < 256 ^ n → read_uint n (put_uint n v ++ rest) ≡ some (v, rest)
unfolding put_uint read_uint
read_uint-put_uint zero v rest h = ap (λ w. some (w, rest)) (omega arith)
read_uint-put_uint (suc n) v rest h =
    rw (read_uint-put_uint n (v / 256) rest (omega (arith, pow256 n)))
      (ap (λ w. some (w, rest)) (omega arith))
