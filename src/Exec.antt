-- ===== src/Exec.antt =====
-- Methods that change the world outside and may fail or panic. What was changed before a failure
-- stays changed, so the world comes back beside the error too.
pub mod Keeps
pub mod Success
pub mod Writes
use near_adapter.Prelude.{List, [], ◌∷◌, ◌≡◌}
use near_adapter.Go.{GoError, Result, ok, err, panic}

abbrev pub Exec : Type 0 → Type 0 → Type 0
Exec W A = W → Result A × W

-- The call `m` in the world `w` returns `a`, in a world of which `Q` holds.
abbrev pub Returns : {W A : Type 0} → Exec W A → W → A → (W → Type 0) → Type 0
Returns {W} m w a Q = (w' : W) × (m w ≡ (ok a, w')) × Q w'

module _ {W A B : Type 0} where
  -- The three ways a call can end: `on_err` handles `err != nil`, and a panic goes up.
  abbrev pub resume : (GoError → Exec W B) → (A → Exec W B) → Result A → Exec W B
  resume on_err on_ok (ok a) w = on_ok a w
  resume on_err on_ok (err e) w = on_err e w
  resume on_err on_ok panic w = (panic, w)

  abbrev pub handle : Exec W A → (GoError → Exec W B) → (A → Exec W B) → Exec W B
  handle m on_err on_ok w = resume on_err on_ok (m w).0 (m w).1

module _ {W A : Type 0} where
  abbrev pub pure : A → Exec W A
  pure a w = (ok a, w)

  abbrev pub raise : GoError → Exec W A
  raise e w = (err e, w)

  abbrev pub crash : Exec W A
  crash w = (panic, w)

  abbrev pub lift : Result A → Exec W A
  lift r w = (r, w)

module _ {W A B : Type 0} where
  infixl 5 ◌>>=◌ ◌>>◌
  abbrev pub ◌>>=◌ : Exec W A → (A → Exec W B) → Exec W B
  m >>= f = handle m raise f

  abbrev pub ◌>>◌ : Exec W A → Exec W B → Exec W B
  m >> n = m >>= λ _. n

module _ {W A : Type 0} where
  -- A call whose error is not looked at.
  abbrev pub ignore : Exec W A → Exec W (Unit {0})
  ignore m = handle m (λ e. pure tt) (λ a. pure tt)

module _ {W A : Type 0} where
  -- `for _, x := range xs`
  unfoldable pub for_each : List A → (A → Exec W (Unit {0})) → Exec W (Unit {0})
  for_each [] body = pure tt
  for_each (x ∷ xs) body = do body x; for_each xs body
