-- ===== src/Regex.antt =====
-- Package regexp, as far as the program uses it: a whole-text match (`^…$`) of an expression of
-- byte classes, sequences and repetitions, decided by derivatives.
pub mod Correct
use near_adapter.Prelude.{
  ℕ, ◌≡◌, Bool, true, false, ◌&&◌, ◌||◌, ◌⊎◌, List, [], ◌∷◌, ◌++◌, Text, if◌then◌else◌,
}

-- `never` matches nothing, and `empty` the empty text.
pub data Regex : Type 0 where
  never : Regex
  empty : Regex
  class : (ℕ → Bool) → Regex
  seq : Regex → Regex → Regex
  alt : Regex → Regex → Regex
  star : Regex → Regex

abbrev pub plus : Regex → Regex
plus r = seq r (star r)

-- A text cut into pieces, none of them empty, that all satisfy `P`.
pub data Pieces (P : Text → Type 0) : Text → Type 0 where
  done : {s : Text} → s ≡ [] → Pieces P s
  piece : {s : Text} (c : ℕ) (u v : Text) → s ≡ c ∷ u ++ v → P (c ∷ u) → Pieces P v → Pieces P s

-- The meaning of an expression.
abbrev pub Matches : Regex → Text → Type 0
Matches never s = ⊥
Matches empty s = s ≡ []
Matches (class p) s = (c : ℕ) × (s ≡ c ∷ []) × (p c ≡ true)
Matches (seq r q) s = (u v : Text) × (s ≡ u ++ v) × Matches r u × Matches q v
Matches (alt r q) s = Matches r s ⊎ Matches q s
Matches (star r) s = Pieces (Matches r) s

-- Whether the empty text matches.
pub nullable : Regex → Bool
nullable never = false
nullable empty = true
nullable (class p) = false
nullable (seq r q) = nullable r && nullable q
nullable (alt r q) = nullable r || nullable q
nullable (star r) = true

-- What is left to match behind the byte `c`.
pub derivative : ℕ → Regex → Regex
unfolding nullable
derivative c never = never
derivative c empty = never
derivative c (class p) = if p c then empty else never
derivative c (seq r q) = alt (seq (derivative c r) q) (if nullable r then derivative c q else never)
derivative c (alt r q) = alt (derivative c r) (derivative c q)
derivative c (star r) = seq (derivative c r) (star r)

unfoldable pub match : Regex → Text → Bool
unfolding nullable derivative
match r [] = nullable r
match r (c ∷ s) = match (derivative c r) s
