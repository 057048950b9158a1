-- ===== src/Node/Deposit.antt =====
-- The transfer that the loop over the actions ends with.
use near_adapter.Prelude.{
  ◌≡◌, refl, ap, ◌∙◌, ◌⊎◌, inl, inr, Bool, true, false, List, [], ◌∷◌, ◌++◌, Text,
}
use near_adapter.Go
use near_adapter.Go.{GoError, Result, ok, err, panic, checked, ok-injective}
use near_adapter.Model.{Any}
use near_adapter.Node.Actions.{
  Reading, bare, transfer, skip, read_action, after_action, actions_loop,
}

-- One of the actions is a `Transfer` of this deposit.
pub record HasTransfer (actions : List Any) (deposit : Text) : Type 0 where
  pub front : List Any
  pub action : Any
  pub back : List Any
  pub splits : actions ≡ front ++ action ∷ back
  pub reads : read_action action ≡ transfer (ok deposit)

behind : {rest : List Any} {v : Text} (a : Any) → HasTransfer rest v → HasTransfer (a ∷ rest) v
behind a t = record {
  front = a ∷ t.front;
  action = t.action;
  back = t.back;
  splits = ap (λ l. a ∷ l) t.splits;
  reads = t.reads;
}

-- A transfer that the loop ends with was there before it or is one of the actions.
pub actions_loop-HasTransfer :
    (actions : List Any) (h : Bool) (v u : Text)
    → actions_loop actions h v ≡ ok (true, u)
    → ((h ≡ true) × (v ≡ u)) ⊎ HasTransfer actions u
unfolding actions_loop after_action
actions_loop-HasTransfer [] h v u e =
    inl (ap (λ s. s.0) (ok-injective e), ap (λ s. s.1) (ok-injective e))
actions_loop-HasTransfer (a ∷ rest) h v u e =
    by (read_action a) refl (λ h' v'. actions_loop-HasTransfer rest h' v' u) e
  where
    by :
        (r : Reading)
        → read_action a ≡ r
        → ((h' : Bool) (v' : Text)
            → actions_loop rest h' v' ≡ ok (true, u)
            → ((h' ≡ true) × (v' ≡ u)) ⊎ HasTransfer rest u)
        → Go.◌>>=◌ (after_action r (h, v)) (λ s. actions_loop rest s.0 s.1) ≡ ok (true, u)
        → ((h ≡ true) × (v ≡ u)) ⊎ HasTransfer (a ∷ rest) u
    by bare er ih e' = elim (ih false v e') [ inl (x, y) ↦ cc | inr t ↦ inr (behind a t) ]
    by (transfer (ok d)) er ih e' = elim (ih true d e') [
      | inl (x, y) ↦ inr (record {
        front = [];
        action = a;
        back = rest;
        splits = refl;
        reads = er ∙ ap (λ z. transfer (ok z)) y;
      })
      | inr t ↦ inr (behind a t)
    ]
    by (transfer (err x)) er ih e' = cc
    by (transfer panic) er ih e' = cc
    by skip er ih e' = elim (ih h v e') [ inl same ↦ inl same | inr t ↦ inr (behind a t) ]
