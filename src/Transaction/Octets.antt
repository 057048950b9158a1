-- ===== src/Transaction/Octets.antt =====
-- What `Serialize` writes are bytes, where the fields of the transaction are.
use mathlib.Core.Path.{subst}
use mathlib.Core.List.{reverse, reverse-reverse}
use near_adapter.Prelude.{
  ℕ, zero, suc, ◌-◌, ◌/◌, ◌≡◌, sym, List, [], ◌∷◌, length, replicate, ◌==◌, All, All-append, IsByte,
  Option, none, some, Text, ◌∙◌, Bool-cases, inl, inr, arith,
}
use near_adapter.Prelude.Int.{ℤ, magnitude}
use near_adapter.Go.{ok, ok-injective, >>=-ok}
use near_adapter.Bytes.{
  put_uint, uint32_to_little_endian_bytes, uint64_to_little_endian_bytes, reverse_bytes,
}
use near_adapter.Bytes.Endian.{put_uint-IsByte}
use near_adapter.Bytes.Reverse.{reverse_bytes-reverse}
use near_adapter.Transaction.{
  Libraries, Transfer, Transaction, low_digits, big_int_bytes, signature_bytes, header_bytes,
  action_bytes, actions_bytes, serialize,
}
use near_adapter.Transaction.Amount.{PadsRight}
use near_adapter.Transaction.Signing.{serialize-eq-ok}

low_digits-IsByte : (fuel n : ℕ) → All IsByte (low_digits fuel n)
unfolding low_digits
low_digits-IsByte zero n = tt
low_digits-IsByte (suc fuel) n = elim (Bool-cases (n == 0)) [
  | inl over ↦ rw (All, over) tt
  | inr more ↦ rw (All, more) (omega arith, low_digits-IsByte fuel (n / 256))
]

zeros-IsByte : (n : ℕ) → All IsByte (replicate n 0)
zeros-IsByte zero = tt
zeros-IsByte (suc n) = (omega arith, zeros-IsByte n)

-- The fields of a transaction that are texts or byte slices hold bytes.
pub record HoldsBytes (tx : Transaction) : Type 0 where
  pub signer : All IsByte tx.signer_id
  pub key : All IsByte tx.public_key
  pub receiver : All IsByte tx.receiver_id
  pub hash : All IsByte tx.block_hash
  pub sig : All IsByte tx.signature

header_bytes-IsByte : (tx : Transaction) → HoldsBytes tx → All IsByte (header_bytes tx)
unfolding header_bytes uint32_to_little_endian_bytes uint64_to_little_endian_bytes
header_bytes-IsByte tx h = All-append IsByte (put_uint 4 _) _ (put_uint-IsByte 4 _) (
    All-append IsByte tx.signer_id _ h.signer (
      omega arith,
      All-append IsByte tx.public_key _ h.key (
          All-append IsByte (put_uint 8 _) _ (put_uint-IsByte 8 _) (
            All-append IsByte (put_uint 4 _) _ (put_uint-IsByte 4 _) (
              All-append IsByte tx.receiver_id _ h.receiver
                (All-append IsByte tx.block_hash _ h.hash (put_uint-IsByte 4 _))))),
    ))

signature_bytes-IsByte : (s : List ℕ) → All IsByte s → All IsByte (signature_bytes s)
unfolding signature_bytes
signature_bytes-IsByte [] h = tt
signature_bytes-IsByte (b ∷ s) h = (omega arith, h)

module _ (lib : Libraries) (pads : PadsRight lib) where
  padded-IsByte : (s : List ℕ) (n : ℕ) → All IsByte s → All IsByte (lib.right_pad_bytes s n)
  padded-IsByte s n h =
      subst (All IsByte) (sym (pads s n)) (All-append IsByte s _ h (zeros-IsByte (n - length s)))

  low_first : (d : ℤ) → All IsByte (reverse_bytes (big_int_bytes d))
  unfolding big_int_bytes
  low_first d =
      subst (All IsByte)
        (sym (
          reverse_bytes-reverse (reverse (low_digits (magnitude d) (magnitude d)))
          ∙ reverse-reverse (low_digits (magnitude d) (magnitude d))))
        (low_digits-IsByte (magnitude d) (magnitude d))

  action_bytes-IsByte :
      (d : Option ℤ) {bytes : List ℕ} → action_bytes lib d ≡ ok bytes → All IsByte bytes
  unfolding action_bytes
  action_bytes-IsByte none h = cc
  action_bytes-IsByte (some d) h =
      subst (All IsByte) (ok-injective h)
        (omega arith, padded-IsByte (reverse_bytes (big_int_bytes d)) 16 (low_first d))

  actions_bytes-IsByte :
      (as' : List Transfer) {bytes : List ℕ} → actions_bytes lib as' ≡ ok bytes → All IsByte bytes
  unfolding actions_bytes
  actions_bytes-IsByte [] h = subst (All IsByte) (ok-injective h) tt
  actions_bytes-IsByte (a ∷ as') h =
      let (first, h1, e1) = >>=-ok (action_bytes lib a.deposit) _ h in
      let (more, h2, e2) = >>=-ok (actions_bytes lib as') _ h1 in
      subst (All IsByte) (ok-injective h2) (
        All-append IsByte first more (action_bytes-IsByte a.deposit e1)
          (actions_bytes-IsByte as' e2))

  pub serialize-IsByte :
      (tx : Transaction) {u : (Text × Text) × Transaction}
      → HoldsBytes tx
      → serialize lib tx ≡ ok u
      → All IsByte u.1.raw_tx_byte
  serialize-IsByte tx h written =
      let (actions, done, same) = serialize-eq-ok lib tx written in
      subst (λ r. All IsByte r.1.raw_tx_byte) (sym same)
        (All-append IsByte (header_bytes tx) _ (header_bytes-IsByte tx h) (
          All-append IsByte actions _ (actions_bytes-IsByte tx.actions done)
            (signature_bytes-IsByte tx.signature h.sig)))
