-- ===== src/Transaction/Outcomes.antt =====
-- How a call of `Serialize` can end.
use near_adapter.Prelude.{
  ◌≡◌, refl, Bool, true, false, ◌⊎◌, inl, inr, List, [], ◌∷◌, ◌++◌, ℕ, Text, Option, none, some,
}
use near_adapter.Prelude.Int.{ℤ}
use near_adapter.Go.{ok, panic}
use near_adapter.Bytes.{reverse_bytes}
use near_adapter.Transaction.{
  Libraries, Transfer, Transaction, big_int_bytes, action_bytes, actions_bytes, serialize,
}
use near_adapter.Transaction.Signing.{output, serialize_lem}

-- Some action has a nil deposit.
abbrev pub has_nil : List Transfer → Bool
has_nil [] = false
has_nil (a ∷ rest) = elim a.deposit [ none ↦ true | some d ↦ has_nil rest ]

module _ (lib : Libraries) where
  actions_bytes-cases :
      (as' : List Transfer)
      → ((has_nil as' ≡ true) × (actions_bytes lib as' ≡ panic))
        ⊎ ((has_nil as' ≡ false) × ((bs : List ℕ) × (actions_bytes lib as' ≡ ok bs)))
  unfolding actions_bytes action_bytes
  actions_bytes-cases [] = inr (refl, ([], refl))
  actions_bytes-cases (a ∷ rest) = of_deposit a.deposit (actions_bytes-cases rest)
    where
      of_deposit :
          (d : Option ℤ)
          → ((has_nil rest ≡ true) × (actions_bytes lib rest ≡ panic))
            ⊎ ((has_nil rest ≡ false) × ((bs : List ℕ) × (actions_bytes lib rest ≡ ok bs)))
          → ((has_nil (record { deposit = d } ∷ rest) ≡ true)
              × (actions_bytes lib (record { deposit = d } ∷ rest) ≡ panic))
            ⊎ ((has_nil (record { deposit = d } ∷ rest) ≡ false)
                × ((bs : List ℕ) × (actions_bytes lib (record { deposit = d } ∷ rest) ≡ ok bs)))
      of_deposit none ih = inl (refl, refl)
      of_deposit (some d) (inl (h, e)) = inl (h, rw e refl)
      of_deposit (some d) (inr (h, (bs, e))) =
          inr (h, ((3 ∷ lib.right_pad_bytes (reverse_bytes (big_int_bytes d)) 16) ++ bs, rw e refl))

  -- `Serialize` panics exactly when some action has a nil deposit, and else it succeeds: it never
  -- returns an error.
  pub serialize_outcomes :
      (tx : Transaction)
      → ((has_nil tx.actions ≡ true) × (serialize lib tx ≡ panic))
        ⊎ ((has_nil tx.actions ≡ false)
            × ((r : (Text × Text) × Transaction) × (serialize lib tx ≡ ok r)))
  unfolding serialize
  serialize_outcomes tx = elim (actions_bytes-cases tx.actions) [
    | inl (h, e) ↦ inl (h, rw e refl)
    | inr (h, (bs, e)) ↦ inr (h, (output lib tx bs, serialize_lem lib tx bs e))
  ]
