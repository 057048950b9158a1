-- ===== src/Node/Transfers.antt =====
-- Which transfer of a transaction is recorded.
use near_adapter.Prelude.{
  ◌≡◌, refl, ◌∙◌, Bool, true, false, List, [], ◌∷◌, ◌++◌, length, length-append, All, Text, text_eq,
  codes, arith, ltb, lt→ltb,
}
use near_adapter.Go.{ok, err, panic}
use near_adapter.Exec.{pure, ◌>>=◌}
use near_adapter.Platform.{Platform}
use near_adapter.Config.{NearBlockScanner}
use near_adapter.Model.{Any, Transaction}
use near_adapter.Node.Actions.{
  Reading, bare, transfer, skip, read_action, after_action, actions_loop,
}
use near_adapter.Node.{transaction_transfers, record_transfer, with_actions}

abbrev IsOk : Reading → Type 0
IsOk bare = Unit {0}
IsOk (transfer (ok v)) = Unit {0}
IsOk (transfer _) = ⊥
IsOk skip = Unit {0}

-- A `Transfer` whose deposit is there and is a text, or an action that is no transfer.
abbrev pub IsReadable : Any → Type 0
IsReadable a = IsOk (read_action a)

abbrev pub IsSkipped : Any → Type 0
IsSkipped a = read_action a ≡ skip

after_action_ok :
    (r : Reading) (h : Bool) (v : Text)
    → IsOk r
    → (s : Bool × Text) × (after_action r (h, v) ≡ ok s)
unfolding after_action
after_action_ok bare h v k = ((false, v), refl)
after_action_ok (transfer (ok u)) h v k = ((true, u), refl)
after_action_ok (transfer (err e)) h v k = absurd k
after_action_ok (transfer panic) h v k = absurd k
after_action_ok skip h v k = ((h, v), refl)

actions_loop_step :
    (a : Any) (rest : List Any) (h : Bool) (v : Text) (s : Bool × Text)
    → after_action (read_action a) (h, v) ≡ ok s
    → actions_loop (a ∷ rest) h v ≡ actions_loop rest s.0 s.1
unfolding actions_loop
actions_loop_step a rest h v s e = rw e refl

-- Readable actions are passed with some value of the two variables, whatever comes behind.
past :
    (front : List Any) (h : Bool) (v : Text)
    → All IsReadable front
    → (s : Bool × Text) × ((rest : List Any)
        → actions_loop (front ++ rest) h v ≡ actions_loop rest s.0 s.1)
past [] h v k = ((h, v), λ rest. refl)
past (a ∷ front) h v (ka, k) =
    let (s, e) = after_action_ok (read_action a) h v ka in
    let (s', go) = past front s.0 s.1 k in
    (s', λ rest. actions_loop_step a (front ++ rest) h v s e ∙ go rest)

skipped :
    (back : List Any) (h : Bool) (v : Text) → All IsSkipped back → actions_loop back h v ≡ ok (h, v)
skipped [] h v k = unfold actions_loop in refl
skipped (a ∷ back) h v (ka, k) =
    actions_loop_step a back h v (h, v) (rw ka (unfold after_action in refl)) ∙ skipped back h v k

-- The action that decides is the last one that is not skipped: with a transfer there, the loop
-- finds a transfer of its deposit; with a bare string there, it finds none, whatever transfers stand
-- in front.
actions_loop_last :
    (front back : List Any) (a : Any) (h : Bool) (w : Text)
    → All IsReadable front
    → All IsSkipped back
    → ((v : Text)
        → read_action a ≡ transfer (ok v)
        → actions_loop (front ++ a ∷ back) h w ≡ ok (true, v))
      × (read_action a ≡ bare → (v : Text) × (actions_loop (front ++ a ∷ back) h w ≡ ok (false, v)))
unfolding after_action
actions_loop_last front back a h w kf kb =
    let (s, go) = past front h w kf in
    (
      λ v e.
          go (a ∷ back)
          ∙ actions_loop_step a back s.0 s.1 (true, v) (rw e refl)
          ∙ skipped back true v kb,
      λ e. (
        s.1,
        go (a ∷ back)
            ∙ actions_loop_step a back s.0 s.1 (false, s.1) (rw e refl)
            ∙ skipped back false s.1 kb,
      ),
    )

with_actions-front : (front back : List Any) (a : Any) → ltb 0 (length (front ++ a ∷ back)) ≡ true
with_actions-front front back a =
    lt→ltb 0 (length (front ++ a ∷ back)) (omega (arith, length-append front (a ∷ back)))

module _ (p : Platform) (bs : NearBlockScanner) where
  -- Of a transaction one transfer at most is recorded, and the last action that is not skipped
  -- decides. If that is a `Transfer` of a deposit other than "0", its deposit is recorded, and the
  -- transfers in front of it are not. If it is a bare string, nothing is recorded and the node is
  -- not asked. The actions in front have to be readable.
  pub transaction_transfers_last :
      (tx : Transaction) (front back : List Any) (a : Any) (w : p.World)
      → tx.actions ≡ front ++ a ∷ back
      → All IsReadable front
      → All IsSkipped back
      → ((v : Text)
          → read_action a ≡ transfer (ok v)
          → text_eq v (codes "0") ≡ false
          → transaction_transfers p bs tx w ≡ (record_transfer p bs tx v >>= λ t. pure (t ∷ [])) w)
        × (read_action a ≡ bare → transaction_transfers p bs tx w ≡ (ok [], w))
  unfolding transaction_transfers with_actions
  transaction_transfers_last tx front back a w e kf kb =
      let (found, dropped) = actions_loop_last front back a false (codes "0") kf kb in
      (
        λ v ea nz. rw (e, with_actions-front front back a, found v ea, nz) refl,
        λ ea.
            let (v, none_left) = dropped ea in
            rw (e, with_actions-front front back a, none_left) refl,
      )
