-- ===== src/Regex/Correct.antt =====
-- The matcher decides the meaning of every expression.
use near_adapter.Prelude.{
  ℕ, ◌≡◌, refl, sym, ap, ◌∙◌, ◌↔◌, Bool, true, false, inl, inr, [], ◌∷◌, Text, if◌then◌else◌,
  Bool-cases, arith,
}
use near_adapter.Regex.{
  Regex, never, empty, class, seq, alt, star, done, piece, Matches, nullable, derivative, match,
}

nullable_sound : (r : Regex) → nullable r ≡ true → Matches r []
unfolding nullable
nullable_sound never h = cc
nullable_sound empty h = refl
nullable_sound (class p) h = cc
nullable_sound (seq r q) h =
    ([], [], refl, nullable_sound r (ground arith), nullable_sound q (ground arith))
nullable_sound (alt r q) h = elim (Bool-cases (nullable r)) [
  | inl e ↦ inl (nullable_sound r e)
  | inr e ↦ inr (nullable_sound q (ground arith))
]
nullable_sound (star r) h = done refl

nullable_complete : (r : Regex) (s : Text) → s ≡ [] → Matches r s → nullable r ≡ true
unfolding nullable
nullable_complete never s e m = absurd m
nullable_complete empty s e m = refl
nullable_complete (class p) s e (c, e', h) = cc
nullable_complete (seq r q) s e ([], v, e', mr, mq) =
    rw (nullable_complete r [] refl mr) (nullable_complete q v (sym e' ∙ e) mq)
nullable_complete (seq r q) s e (c ∷ u, v, e', mr, mq) = cc
nullable_complete (alt r q) s e (inl m) = rw (nullable_complete r s e m) refl
nullable_complete (alt r q) s e (inr m) = let h = nullable_complete q s e m in ground arith
nullable_complete (star r) s e m = refl

from_guarded :
    (b : Bool) (r : Regex) (s : Text)
    → Matches (if b then r else never) s
    → (b ≡ true) × Matches r s
from_guarded true r s m = (refl, m)
from_guarded false r s m = absurd m

to_guarded :
    (b : Bool) (r : Regex) (s : Text) → b ≡ true → Matches r s → Matches (if b then r else never) s
to_guarded true r s h m = m
to_guarded false r s h m = cc

derivative_sound : (c : ℕ) (r : Regex) (s : Text) → Matches (derivative c r) s → Matches r (c ∷ s)
unfolding derivative
derivative_sound c never s m = absurd m
derivative_sound c empty s m = absurd m
derivative_sound c (class p) s m = let (h, e) = from_guarded (p c) empty s m in (c, ap (◌∷◌ c) e, h)
derivative_sound c (seq r q) s (inl (u, v, e, mr, mq)) =
    (c ∷ u, v, ap (◌∷◌ c) e, derivative_sound c r u mr, mq)
derivative_sound c (seq r q) s (inr m) =
    let (h, mq) = from_guarded (nullable r) (derivative c q) s m in
    ([], c ∷ s, refl, nullable_sound r h, derivative_sound c q s mq)
derivative_sound c (alt r q) s (inl m) = inl (derivative_sound c r s m)
derivative_sound c (alt r q) s (inr m) = inr (derivative_sound c q s m)
derivative_sound c (star r) s (u, v, e, mr, ms) =
    piece c u v (ap (◌∷◌ c) e) (derivative_sound c r u mr) ms

derivative_complete :
    (c : ℕ) (r : Regex) (t s : Text) → t ≡ c ∷ s → Matches r t → Matches (derivative c r) s
unfolding derivative
derivative_complete c never t s e m = absurd m
derivative_complete c empty t s e m = cc
derivative_complete c (class p) t s e (x, e', h) = to_guarded (p c) empty s (cc) (cc)
derivative_complete c (seq r q) t s e ([], v, e', mr, mq) = inr (
    to_guarded (nullable r) (derivative c q) s (nullable_complete r [] refl mr)
      (derivative_complete c q v s (sym e' ∙ e) mq))
derivative_complete c (seq r q) t s e (x ∷ u, v, e', mr, mq) =
    inl (u, v, cc, derivative_complete c r (x ∷ u) u (cc) mr, mq)
derivative_complete c (alt r q) t s e (inl m) = inl (derivative_complete c r t s e m)
derivative_complete c (alt r q) t s e (inr m) = inr (derivative_complete c q t s e m)
derivative_complete c (star r) t s e (done e') = cc
derivative_complete c (star r) t s e (piece x u v e' m ms) =
    (u, v, cc, derivative_complete c r (x ∷ u) u (cc) m, ms)

-- Over every text the matcher answers `true` exactly when the expression matches the whole of it.
pub match_iff : (r : Regex) (s : Text) → (match r s ≡ true) ↔ Matches r s
unfolding match
match_iff r [] = (nullable_sound r, nullable_complete r [] refl)
match_iff r (c ∷ s) =
    let (sound, complete) = match_iff (derivative c r) s in
    (
      λ h. derivative_sound c r s (sound h),
      λ m. complete (derivative_complete c r (c ∷ s) s refl m),
    )
