-- ===== src/Address/Grammar.antt =====
-- Account names as a grammar: words of small letters and digits, joined by single `-`, `_` or `.`.
use mathlib.Core.List.{append_assoc}
use near_adapter.Prelude.{ℕ, ◌≡◌, refl, ap, ◌∙◌, Bool, true, ◌⊎◌, inl, inr, [], ◌∷◌, ◌++◌, Text}
use near_adapter.Regex.{Regex, class, seq, star, Matches, Pieces, done, piece}
use near_adapter.Address.{is_word_byte, is_joiner, is_dot, word, part, account_regex}

abbrev pub IsSeparator : ℕ → Type 0
IsSeparator c = (is_joiner c ≡ true) ⊎ (is_dot c ≡ true)

pub data AccountName : Text → Type 0 where
  last : (c : ℕ) → is_word_byte c ≡ true → AccountName (c ∷ [])
  next : (c : ℕ) {s : Text} → is_word_byte c ≡ true → AccountName s → AccountName (c ∷ s)
  join :
      (c d : ℕ) {s : Text}
      → is_word_byte c ≡ true
      → IsSeparator d
      → AccountName s
      → AccountName (c ∷ d ∷ s)

abbrev Letters : Text → Type 0
Letters = Pieces (Matches (class is_word_byte))

rest_of_letters : {u a w : Text} {c x : ℕ} → u ≡ c ∷ a ++ w → c ∷ a ≡ x ∷ [] → u ≡ x ∷ w
rest_of_letters {w = w} e e' = e ∙ ap (λ t. t ++ w) e'

letters-name : (c : ℕ) {u : Text} → is_word_byte c ≡ true → Letters u → AccountName (c ∷ u)
letters-name c h (done e) = rw e (last c h)
letters-name c h (piece x a w e (y, e', hy) m) =
    rw (rest_of_letters e e') (next c h (letters-name y hy m))

letters-join :
    (c d : ℕ) {u s : Text}
    → is_word_byte c ≡ true
    → Letters u
    → IsSeparator d
    → AccountName s
    → AccountName (c ∷ u ++ d ∷ s)
letters-join c d h (done e) sep n = rw e (join c d h sep n)
letters-join c d h (piece x a w e (y, e', hy) m) sep n =
    rw (rest_of_letters e e') (next c h (letters-join y d hy m sep n))

-- `P` holds of texts that are names, also with a separator and a name behind them.
record IsNameLike (P : Text → Type 0) : Type 0 where
  alone : (w : Text) → P w → AccountName w
  before :
      (w : Text) (d : ℕ) (s : Text) → P w → IsSeparator d → AccountName s → AccountName (w ++ d ∷ s)

word-IsNameLike : IsNameLike (Matches word)
word-IsNameLike = record {
  alone = λ w m. word-alone w m;
  before = λ w d s m sep n. word-before w d s m sep n;
}
  where
    word-alone : (w : Text) → Matches word w → AccountName w
    word-alone w (a, b, e, (c, e', h), m) = rw (e ∙ ap (λ t. t ++ b) e') (letters-name c h m)

    word-before :
        (w : Text) (d : ℕ) (s : Text)
        → Matches word w
        → IsSeparator d
        → AccountName s
        → AccountName (w ++ d ∷ s)
    word-before w d s (a, b, e, (c, e', h), m) sep n =
        rw (e ∙ ap (λ t. t ++ b) e') (letters-join c d h m sep n)

-- Pieces that end in a separator, in front of a name.
pieces-name :
    (r : Regex) (p : ℕ → Bool)
    → IsNameLike (Matches r)
    → ((d : ℕ) → p d ≡ true → IsSeparator d)
    → {a s : Text} → Pieces (Matches (seq r (class p))) a
    → AccountName s
    → AccountName (a ++ s)
pieces-name r p like sep (done e) n = rw e n
pieces-name r p like sep {s = s} (piece c u w e (u1, u2, e1, m, (d, e2, hd)) more) n =
    rw (e ∙ ap (λ t. t ++ w) (e1 ∙ ap (λ t. u1 ++ t) e2))
      (simp append_assoc (like.before u1 d (w ++ s) m (sep d hd) (pieces-name r p like sep more n)))

star_seq-IsNameLike :
    (r q : Regex) (p : ℕ → Bool)
    → IsNameLike (Matches r)
    → IsNameLike (Matches q)
    → ((d : ℕ) → p d ≡ true → IsSeparator d)
    → IsNameLike (Matches (seq (star (seq r (class p))) q))
star_seq-IsNameLike r q p like last_like sep = record {
  alone = λ w (a, b, e, m, n). rw e (pieces-name r p like sep m (last_like.alone b n));
  before = λ w d s (a, b, e, m, n) hd name.
      rw e (simp append_assoc (pieces-name r p like sep m (last_like.before b d s n hd name)));
}

account_regex-IsNameLike : IsNameLike (Matches account_regex)
account_regex-IsNameLike =
    star_seq-IsNameLike part part is_dot part-IsNameLike part-IsNameLike (λ d h. inr h)
  where
    part-IsNameLike : IsNameLike (Matches part)
    part-IsNameLike =
        star_seq-IsNameLike word word is_joiner word-IsNameLike word-IsNameLike (λ d h. inl h)

pub account_regex_sound : (s : Text) → Matches account_regex s → AccountName s
account_regex_sound = account_regex-IsNameLike.alone

-- `P` goes on to hold when `c ∷ t` is put in front.
abbrev Extends : ℕ → Text → (Text → Type 0) → Type 0
Extends c t P = (w : Text) → P w → P (c ∷ t ++ w)

seq-Extends :
    (c : ℕ) (t : Text) (r q : Regex) → Extends c t (Matches r) → Extends c t (Matches (seq r q))
seq-Extends c t r q ext w (u, v, e, m, n) = (c ∷ t ++ u, v, rw e (simp append_assoc), ext u m, n)

star_seq-Extends :
    (c : ℕ) (t : Text) (r q : Regex)
    → Extends c t (Matches r)
    → Extends c t (Matches q)
    → Extends c t (Matches (seq (star r) q))
star_seq-Extends c t r q er eq w (u, v, e, done e', n) =
    ([], c ∷ t ++ v, rw (e, e'), done refl, eq v n)
star_seq-Extends c t r q er eq w (u, v, e, piece x a b e' m more, n) = (
  c ∷ t ++ u,
  v,
  rw e (simp append_assoc),
  piece c (t ++ x ∷ a) b (rw e' (simp append_assoc)) (er (x ∷ a) m) more,
  n,
)

module _ (c : ℕ) (h : is_word_byte c ≡ true) where
  word-one : Matches word (c ∷ [])
  word-one = (c ∷ [], [], refl, (c, refl, h), done refl)

  part-one : Matches part (c ∷ [])
  part-one = ([], c ∷ [], refl, done refl, word-one)

  word-Extends : Extends c [] (Matches word)
  word-Extends w (a, b, e, (x, e', hx), m) =
      (c ∷ [], w, refl, (c, refl, h), piece x [] b (e ∙ ap (λ t. t ++ b) e') (x, refl, hx) m)

  part-Extends : Extends c [] (Matches part)
  part-Extends =
      star_seq-Extends c [] (seq word (class is_joiner)) word
        (seq-Extends c [] word (class is_joiner) word-Extends) word-Extends

  account-Extends : Extends c [] (Matches account_regex)
  account-Extends =
      star_seq-Extends c [] (seq part (class is_dot)) part
        (seq-Extends c [] part (class is_dot) part-Extends) part-Extends

  part-joined : (d : ℕ) → is_joiner d ≡ true → Extends c (d ∷ []) (Matches part)
  part-joined d hd w (a, b, e, m, n) = (
    c ∷ d ∷ a,
    b,
    ap (λ t. c ∷ d ∷ t) e,
    piece c (d ∷ []) a refl (c ∷ [], d ∷ [], refl, word-one, (d, refl, hd)) m,
    n,
  )

  account-joined : (d : ℕ) → IsSeparator d → Extends c (d ∷ []) (Matches account_regex)
  account-joined d (inl hd) w m =
      star_seq-Extends c (d ∷ []) (seq part (class is_dot)) part
        (seq-Extends c (d ∷ []) part (class is_dot) (part-joined d hd)) (part-joined d hd) w m
  account-joined d (inr hd) w (a, b, e, m, n) = (
    c ∷ d ∷ a,
    b,
    ap (λ t. c ∷ d ∷ t) e,
    piece c (d ∷ []) a refl (c ∷ [], d ∷ [], refl, part-one, (d, refl, hd)) m,
    n,
  )

pub account_regex_complete : {s : Text} → AccountName s → Matches account_regex s
account_regex_complete (last c h) = ([], c ∷ [], refl, done refl, part-one c h)
account_regex_complete (next c {s} h n) = account-Extends c h s (account_regex_complete n)
account_regex_complete (join c d {s} h sep n) =
    account-joined c h d sep s (account_regex_complete n)
