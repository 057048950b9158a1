-- ===== src/Node/Actions.antt =====
-- The loop over `tx.Actions` in `GetBlockByHeight`.
use near_adapter.Prelude.{
  Bool, true, false, List, [], ◌∷◌, Text, text_eq, codes, Option, none, some, if◌then◌else◌,
}
use near_adapter.Go
use near_adapter.Go.{Result, ok, panic}
use near_adapter.Model.{Any, string, object, Members, end, member}

-- `v, exists := m[key]`
unfoldable pub find_member : Text → Members → Option Any
find_member key end = none
find_member key (member k v m) = if text_eq k key then some v else find_member key m

-- `transferMap["deposit"].(string)`, which panics if the entry is missing or no string.
unfoldable pub deposit_text : Option Any → Result Text
deposit_text (some (string s)) = ok s
deposit_text _ = panic

-- What an action says: it is a bare string, a transfer of an amount, or nothing that counts.
pub data Reading : Type 0 where
  bare : Reading
  transfer : Result Text → Reading
  skip : Reading

unfoldable pub read_transfer : Option Any → Reading
unfolding deposit_text find_member
read_transfer (some (object m)) = transfer (deposit_text (find_member (codes "deposit") m))
read_transfer _ = skip

-- The type switch.
unfoldable pub read_action : Any → Reading
unfolding read_transfer
read_action (string s) = bare
read_action (object m) = read_transfer (find_member (codes "Transfer") m)
read_action _ = skip

-- One round: `break` leaves the `switch` and not the loop, so the loop always goes on.
unfoldable pub after_action : Reading → Bool × Text → Result (Bool × Text)
after_action bare (has_trans, value) = ok (false, value)
after_action (transfer (ok v)) s = ok (true, v)
after_action (transfer _) s = panic
after_action skip s = ok s

unfoldable pub actions_loop : List Any → Bool → Text → Result (Bool × Text)
unfolding after_action read_action
actions_loop [] has_trans value = ok (has_trans, value)
actions_loop (a ∷ rest) has_trans value =
    Go.◌>>=◌ (after_action (read_action a) (has_trans, value)) λ s. actions_loop rest s.0 s.1
