-- ===== src/Transaction/Signing.antt =====
-- `Serialize` as a whole, before and after a signature is set.
use mathlib.Core.List.{append_assoc, append-nil}
use near_adapter.Prelude.{ℕ, ◌≡◌, refl, sym, ap, ◌∙◌, List, [], ◌∷◌, ◌++◌, Text}
use near_adapter.Go.{ok, >>=-ok, ok-injective}
use near_adapter.Bytes.Hex.{encode_to_string}
use near_adapter.Transaction.{
  Libraries, Transaction, actions_bytes, signature_bytes, header_bytes, serialize, digest,
}

module _ (lib : Libraries) where
  -- What `Serialize` returns and leaves behind when it writes `bytes`.
  abbrev pub outcome : Transaction → List ℕ → (Text × Text) × Transaction
  outcome tx bytes = (
    (encode_to_string bytes, encode_to_string (lib.sha256_sum bytes)),
    record tx { raw_tx_hex = encode_to_string bytes; raw_tx_byte = bytes },
  )

  abbrev pub output : Transaction → List ℕ → (Text × Text) × Transaction
  output tx actions = outcome tx (header_bytes tx ++ (actions ++ signature_bytes tx.signature))

  pub serialize_lem :
      (tx : Transaction) (actions : List ℕ)
      → actions_bytes lib tx.actions ≡ ok actions
      → serialize lib tx ≡ ok (output tx actions)
  unfolding serialize digest
  serialize_lem tx actions h = rw h refl

  pub serialize-eq-ok :
      (tx : Transaction) {u : (Text × Text) × Transaction}
      → serialize lib tx ≡ ok u
      → (actions : List ℕ) × (actions_bytes lib tx.actions ≡ ok actions) × (u ≡ output tx actions)
  unfolding serialize digest
  serialize-eq-ok tx h =
      let (actions, done, e) = >>=-ok (actions_bytes lib tx.actions) _ h in
      (actions, e, sym (ok-injective done))

  -- A signature comes behind the bytes that were hashed for signing, after the key type 0, and
  -- changes nothing in front of it. The hash that is signed is that of the unsigned bytes.
  pub serialize_signed :
      (tx : Transaction) (b : ℕ) (bs : List ℕ) (u : (Text × Text) × Transaction)
      → tx.signature ≡ []
      → serialize lib tx ≡ ok u
      → (u.0.1 ≡ encode_to_string (lib.sha256_sum u.1.raw_tx_byte))
        × (serialize lib (record tx { signature = b ∷ bs })
            ≡ ok (outcome (record tx { signature = b ∷ bs }) (u.1.raw_tx_byte ++ 0 ∷ b ∷ bs)))
  unfolding signature_bytes header_bytes
  serialize_signed tx b bs u e h =
      let (actions, written, eu) = serialize-eq-ok tx h in
      (
        ap (λ w. w.0.1) eu ∙ sym (ap (λ w. encode_to_string (lib.sha256_sum w.1.raw_tx_byte)) eu),
        serialize_lem (record tx { signature = b ∷ bs }) actions written
            ∙ ap (λ s. ok (outcome (record tx { signature = b ∷ bs }) s))
                (rw (eu, e) (simp (append_assoc, append-nil))),
      )
