-- ===== src/Transaction/RoundTrip.antt =====
-- The Borsh reader on what `Serialize` writes.
use mathlib.Core.List.{append_assoc}
use near_adapter.Prelude.{
  ℕ, suc, ◌%◌, ◌^◌, ◌<◌, ◌≡◌, refl, sym, List, [], ◌∷◌, ◌++◌, length, map, All, ◌⊎◌, Option, none,
  some, arith, Text,
}
use near_adapter.Prelude.Int.{ℤ, pos, magnitude}
use near_adapter.Go.{ok}
use near_adapter.Bytes.{put_uint, uint32_to_little_endian_bytes, uint64_to_little_endian_bytes}
use near_adapter.Transaction.{
  Libraries, Transfer, Transaction, actions_bytes, signature_bytes, header_bytes, serialize,
}
use near_adapter.Transaction.Amount.{PadsRight, action_bytes_fits}
use near_adapter.Transaction.Signing.{output, serialize_lem}
use near_adapter.Transaction.Reader.{
  Body, read_uint, read_string, read_public_key, read_action, read_actions, read_signature,
  read_body, read_bytes-append, read_uint-put_uint,
}

abbrev pub IsDeposit : Transfer → Type 0
IsDeposit t = (d : ℕ) × (t.deposit ≡ some (pos d)) × (d < 2 ^ 128)

abbrev pub amount_of : Option ℤ → ℕ
amount_of none = 0
amount_of (some x) = magnitude x

-- The sizes that the format can carry.
pub record IsWellFormed (tx : Transaction) : Type 0 where
  pub signer_fits : length tx.signer_id < 2 ^ 32
  pub receiver_fits : length tx.receiver_id < 2 ^ 32
  pub actions_fit : length tx.actions < 2 ^ 32
  pub key_is_32_bytes : length tx.public_key ≡ 32
  pub hash_is_32_bytes : length tx.block_hash ≡ 32
  pub nonce_is_u64 : tx.nonce < 2 ^ 64
  pub signature_is_64_bytes : (tx.signature ≡ []) ⊎ (length tx.signature ≡ 64)
  pub deposits_are_u128 : All IsDeposit tx.actions

abbrev pub body : Transaction → Body
body tx = record {
  signer_id = tx.signer_id;
  public_key = tx.public_key;
  nonce = tx.nonce;
  receiver_id = tx.receiver_id;
  block_hash = tx.block_hash;
  deposits = map (λ a. amount_of a.deposit) tx.actions;
  signature = tx.signature;
}

mod_small : (n : ℕ) → n < 2 ^ 32 → n % 2 ^ 32 ≡ n
mod_small n h = omega arith

-- A string behind its length.
read_string-put :
    (s rest : List ℕ)
    → length s < 2 ^ 32
    → read_string (put_uint 4 (length s % 2 ^ 32) ++ (s ++ rest)) ≡ some (s, rest)
unfolding read_string
read_string-put s rest h =
    rw (read_uint-put_uint 4 (length s % 2 ^ 32) (s ++ rest) (omega arith))
      (read_bytes-append (length s % 2 ^ 32) s rest (omega arith))

read_public_key-put :
    (key rest : List ℕ) → length key ≡ 32 → read_public_key (0 ∷ key ++ rest) ≡ some (key, rest)
unfolding read_public_key read_uint
read_public_key-put key rest h = read_bytes-append 32 key rest (sym h)

read_action-put :
    (d : ℕ) (rest : List ℕ) → d < 2 ^ 128 → read_action (3 ∷ put_uint 16 d ++ rest) ≡ some (d, rest)
unfolding read_action read_uint
read_action-put d rest h = read_uint-put_uint 16 d rest h

read_signature-put :
    (s : List ℕ) → (s ≡ []) ⊎ (length s ≡ 64) → read_signature (signature_bytes s) ≡ some s
unfolding read_signature signature_bytes
read_signature-put [] h = refl
read_signature-put (b ∷ s) h = ground arith

-- The fields in front of the actions are read back; `tail` is the actions and the signature.
read_body-header :
    (tx : Transaction) (tail rest : List ℕ) (ds sig : List ℕ)
    → IsWellFormed tx
    → read_actions (length tx.actions) tail ≡ some (ds, rest)
    → read_signature rest ≡ some sig
    → read_body (header_bytes tx ++ tail)
      ≡ some (record (body tx) { deposits = ds; signature = sig })
unfolding read_body header_bytes uint32_to_little_endian_bytes uint64_to_little_endian_bytes
read_body-header tx tail rest ds sig w acts sigs = simp append_assoc (
    rw
      (
        read_string-put tx.signer_id _ w.signer_fits,
        read_public_key-put tx.public_key _ w.key_is_32_bytes,
        read_uint-put_uint 8 tx.nonce _ w.nonce_is_u64,
        read_string-put tx.receiver_id _ w.receiver_fits,
        read_bytes-append 32 tx.block_hash _ (sym w.hash_is_32_bytes),
        read_uint-put_uint 4 (length tx.actions % 2 ^ 32) tail (omega arith),
        mod_small (length tx.actions) w.actions_fit,
        acts,
        sigs,
      )
      refl)

module _ (lib : Libraries) (pads : PadsRight lib) where
  action_then :
      (a : Transfer) (as' : List Transfer) (rest : List ℕ) (d : ℕ)
      → a.deposit ≡ some (pos d)
      → d < 2 ^ 128
      → ((bs : List ℕ) × (actions_bytes lib as' ≡ ok bs)
          × (read_actions (length as') (bs ++ rest)
              ≡ some (map (λ t. amount_of t.deposit) as', rest)))
      → (bs : List ℕ) × (actions_bytes lib (a ∷ as') ≡ ok bs)
        × (read_actions (suc (length as')) (bs ++ rest)
            ≡ some (amount_of a.deposit ∷ map (λ t. amount_of t.deposit) as', rest))
  unfolding actions_bytes read_actions
  action_then a as' rest d e fits (bs, written, again) = (
    3 ∷ put_uint 16 d ++ bs,
    rw (e, action_bytes_fits lib pads (pos d) fits, written) refl,
    rw (append_assoc (3 ∷ put_uint 16 d) bs rest, read_action-put d (bs ++ rest) fits, again, e)
        refl,
  )

  -- The actions are written without a panic, and read back.
  read_actions-put :
      (as' : List Transfer) (rest : List ℕ)
      → All IsDeposit as'
      → (bs : List ℕ) × (actions_bytes lib as' ≡ ok bs)
        × (read_actions (length as') (bs ++ rest) ≡ some (map (λ a. amount_of a.deposit) as', rest))
  read_actions-put [] rest h = ([], unfold actions_bytes in refl, unfold read_actions in refl)
  read_actions-put (a ∷ as') rest ((d, e, fits), h) =
      action_then a as' rest d e fits (read_actions-put as' rest h)

  -- What `Serialize` writes for a transaction within the sizes of the format, the reader takes
  -- apart into the fields of the transaction, with nothing left over.
  pub read_body-serialize :
      (tx : Transaction)
      → IsWellFormed tx
      → (r : (Text × Text) × Transaction) × (serialize lib tx ≡ ok r)
        × (read_body r.1.raw_tx_byte ≡ some (body tx))
  read_body-serialize tx w =
      let (bs, written, again) =
        read_actions-put tx.actions (signature_bytes tx.signature) w.deposits_are_u128 in
      (
        output lib tx bs,
        serialize_lem lib tx bs written,
        read_body-header tx (bs ++ signature_bytes tx.signature) _ _ _ w again
            (read_signature-put tx.signature w.signature_is_64_bytes),
      )
