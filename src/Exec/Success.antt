-- ===== src/Exec/Success.antt =====
-- What a chain of calls that succeeds tells of its first call.
use near_adapter.Prelude.{◌≡◌, refl}
use near_adapter.Go.{Result, ok, err, panic}
use near_adapter.Exec.{Exec, raise, resume, ◌>>=◌}

module _ {W A B C : Type 0} where
  -- The first call returned a value, and the rest of the chain went on from there.
  pub >>=-goes :
      (m : Exec W A) (f : A → Exec W B) (w w' : W) (b : B)
      → (m >>= f) w ≡ (ok b, w')
      → ((a : A) (w1 : W) → m w ≡ (ok a, w1) → f a w1 ≡ (ok b, w') → C)
      → C
  >>=-goes m f w w' b h use_it = goes (m w).0 (m w).1 refl h
    where
      goes : (r : Result A) (w1 : W) → m w ≡ (r, w1) → resume raise f r w1 ≡ (ok b, w') → C
      goes (ok a) w1 e h' = use_it a w1 e h'
      goes (err x) w1 e h' = cc
      goes panic w1 e h' = cc
