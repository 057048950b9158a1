-- ===== src/Exec/Keeps.antt =====
-- Methods that keep a property of the world, and how they may end.
use mathlib.Core.Path.{subst}
use near_adapter.Prelude.{
  sym, Bool, true, false, List, [], ◌∷◌, ◌≡◌, refl, ap, Option, none, some, if◌then◌else◌,
}
use near_adapter.Go.{GoError, Result, ok, err, panic, checked}
use near_adapter.Exec.{Exec, Returns, pure, raise, lift, handle, resume, ignore, for_each, ◌>>=◌}

-- No panic, and an error only where `may_fail` says so.
abbrev pub EndsWell : {A : Type 0} → Bool → Result A → Type 0
EndsWell may_fail (ok a) = Unit {0}
EndsWell true (err e) = Unit {0}
EndsWell false (err e) = ⊥
EndsWell may_fail panic = ⊥

pub record Keeps {W A : Type 0} (may_fail : Bool) (P : W → Type 0) (m : Exec W A) : Type 0 where
  pub at : (w : W) → P w → P (m w).1 × EndsWell may_fail (m w).0

module _ {W A : Type 0} {P : W → Type 0} where
  pub Keeps-pure : {c : Bool} (a : A) → Keeps c P (pure a)
  Keeps-pure a = record { at = λ w h. (h, tt) }

  pub Keeps-if :
      {c : Bool} {m n : Exec W A} (b : Bool)
      → Keeps c P m
      → Keeps c P n
      → Keeps c P (if b then m else n)
  Keeps-if true km kn = km
  Keeps-if false km kn = kn

  -- A method that may not fail is one that may.
  pub Keeps-weaken : {m : Exec W A} → Keeps false P m → Keeps true P m
  Keeps-weaken {m} km = record {
    at = λ w h. let (h', good) = km.at w h in (h', weaker (m w).0 good);
  }
    where
      weaker : (r : Result A) → EndsWell false r → EndsWell true r
      weaker (ok a) good = tt
      weaker (err e) good = absurd good
      weaker panic good = absurd good

  pub Keeps-checked : (a : A) (e : Option GoError) → Keeps true P (lift (checked a e))
  Keeps-checked a none = Keeps-pure a
  Keeps-checked a (some e) = record { at = λ w h. (h, tt) }

  pub Keeps-raise : (e : GoError) → Keeps {A = A} true P (raise e)
  Keeps-raise e = record { at = λ w h. (h, tt) }

module _ {W A B : Type 0} {P : W → Type 0} where
  Keeps-resume :
      (c : Bool) (on_err : GoError → Exec W B) (on_ok : A → Exec W B) (r : Result A) (w : W)
      → ((e : GoError) → Keeps c P (on_err e))
      → ((a : A) → Keeps c P (on_ok a))
      → EndsWell true r
      → P w
      → P (resume on_err on_ok r w).1 × EndsWell c (resume on_err on_ok r w).0
  Keeps-resume c on_err on_ok (ok a) w ke ko good h = (ko a).at w h
  Keeps-resume c on_err on_ok (err e) w ke ko good h = (ke e).at w h
  Keeps-resume c on_err on_ok panic w ke ko good h = absurd good

  pub Keeps-handle :
      {c : Bool} {m : Exec W A} {on_err : GoError → Exec W B} {on_ok : A → Exec W B}
      → Keeps true P m
      → ((e : GoError) → Keeps c P (on_err e))
      → ((a : A) → Keeps c P (on_ok a))
      → Keeps c P (handle m on_err on_ok)
  Keeps-handle {c} {m} {on_err} {on_ok} km ke ko = record {
    at = λ w h.
        let (h', good) = km.at w h in Keeps-resume c on_err on_ok (m w).0 (m w).1 ke ko good h';
  }

  Keeps-continue :
      (c : Bool) (on_ok : A → Exec W B) (r : Result A) (w : W)
      → ((a : A) → Keeps c P (on_ok a))
      → EndsWell c r
      → P w
      → P (resume raise on_ok r w).1 × EndsWell c (resume raise on_ok r w).0
  Keeps-continue c on_ok (ok a) w ko good h = (ko a).at w h
  Keeps-continue true on_ok (err e) w ko good h = (h, tt)
  Keeps-continue false on_ok (err e) w ko good h = absurd good
  Keeps-continue c on_ok panic w ko good h = absurd good

  pub Keeps-bind :
      {c : Bool} {m : Exec W A} {f : A → Exec W B}
      → Keeps c P m
      → ((a : A) → Keeps c P (f a))
      → Keeps c P (m >>= f)
  Keeps-bind {c} {m} {f} km kf = record {
    at = λ w h. let (h', good) = km.at w h in Keeps-continue c f (m w).0 (m w).1 kf good h';
  }

module _ {W A : Type 0} {P : W → Type 0} where
  -- What follows an ignored call never sees an error.
  pub Keeps-ignore : {c : Bool} {m : Exec W A} → Keeps true P m → Keeps c P (ignore m)
  Keeps-ignore km = Keeps-handle km (λ e. Keeps-pure tt) (λ a. Keeps-pure tt)

  pub Keeps-for_each :
      {c : Bool} (xs : List A) (body : A → Exec W (Unit {0}))
      → ((x : A) → Keeps c P (body x))
      → Keeps c P (for_each xs body)
  unfolding for_each
  Keeps-for_each [] body kb = Keeps-pure tt
  Keeps-for_each (x ∷ xs) body kb = Keeps-bind (kb x) (λ _. Keeps-for_each xs body kb)

returned : (r : Result (Unit {0})) → EndsWell false r → r ≡ ok tt
returned (ok tt) h = refl
returned (err e) h = absurd h
returned panic h = absurd h

-- A method that may not fail returns.
pub Keeps-Returns :
    {W : Type 0} {P : W → Type 0} {m : Exec W (Unit {0})}
    → Keeps false P m
    → (w : W) → P w
    → Returns m w tt P
Keeps-Returns {m = m} k w h =
    let (h', good) = k.at w h in ((m w).1, ap (λ r. (r, (m w).1)) (returned (m w).0 good), h')

pub Returns-Keeps :
    {W : Type 0} {P : W → Type 0} {m : Exec W (Unit {0})}
    → ((w : W) → P w → Returns m w tt P)
    → Keeps false P m
Returns-Keeps {P = P} {m = m} r = record {
  at = λ w h.
      let (w', e, h') = r w h in
      (
        subst P (ap (λ x. x.1) (sym e)) h',
        subst (λ x. EndsWell false x) (ap (λ x. x.0) (sym e)) tt,
      );
}
