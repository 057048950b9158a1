-- ===== src/Exec/Writes.antt =====
-- Methods that write behind a log: how a loop of them writes, whatever order it goes in.
use mathlib.Core.List.{flat_map, append_assoc, append-nil, perm_append_comm, Perm, Perm-prop, Permᴰ}
use mathlib.Core.List.Perm
use mathlib.Core.Logic.{∥∥₁_elim}
use near_adapter.Prelude.{◌≡◌, refl, sym, ap, ◌∙◌, List, [], ◌∷◌, ◌++◌}
use near_adapter.Exec.{Exec, Returns, for_each}

module _ {A D : Type 0} where
  -- The pieces of a list, one for each entry of `xs`, in order.
  pub data Pieces (Out : A → List D → Type 0) : List A → List D → Type 0 where
    no_piece : Pieces Out [] []
    piece :
        (x : A) {xs : List A} {out outs : List D}
        → Out x out
        → Pieces Out xs outs
        → Pieces Out (x ∷ xs) (out ++ outs)

  -- Pieces that are those of a function, up to their order.
  pub Pieces-flat_map :
      (f : A → List D) {xs : List A} {outs : List D}
      → Pieces (λ x out. Perm out (f x)) xs outs
      → Perm outs (flat_map f xs)
  unfolding flat_map
  Pieces-flat_map f no_piece = Perm.refl []
  Pieces-flat_map f (piece x out rest) = Perm.append out (Pieces-flat_map f rest)

  flat_map-Permᴰ :
      (f : A → List D) {xs ys : List A} → Permᴰ xs ys → Perm (flat_map f xs) (flat_map f ys)
  unfolding flat_map
  flat_map-Permᴰ f Permᴰ.nil = Perm.refl []
  flat_map-Permᴰ f (Permᴰ.cons {a = a} {l₁ = l₁} e q) =
      rw (← e) (Perm.append_left (f a) (flat_map-Permᴰ f q))
  flat_map-Permᴰ f (Permᴰ.swap {a = a} {b = b} {l = l} e e') =
      rw
        (
          ← e,
          ← e',
          ← append_assoc (f a) (f b) (flat_map f l),
          ← append_assoc (f b) (f a) (flat_map f l),
        )
        (Perm.append_right (flat_map f l) (perm_append_comm (f a) (f b)))
  flat_map-Permᴰ f (Permᴰ.trans q r) = Perm.trans (flat_map-Permᴰ f q) (flat_map-Permᴰ f r)

  pub flat_map-Perm :
      (f : A → List D) {xs ys : List A} → Perm xs ys → Perm (flat_map f xs) (flat_map f ys)
  flat_map-Perm f q = ∥∥₁_elim q Perm-prop (flat_map-Permᴰ f)

module _ {W D : Type 0} (P : W → Type 0) (log : W → List D) where
  -- `m` returns, keeps `P`, and writes something of which `Out` holds behind the log.
  abbrev pub Writes : Exec W (Unit {0}) → (List D → Type 0) → Type 0
  Writes m Out =
      (w : W)
      → P w
      → Returns m w tt (λ w'. P w' × ((out : List D) × (log w' ≡ log w ++ out) × Out out))

  pub for_each-Writes :
      {A : Type 0} {Out : A → List D → Type 0} (xs : List A) (body : A → Exec W (Unit {0}))
      → ((x : A) → Writes (body x) (Out x))
      → Writes (for_each xs body) (Pieces Out xs)
  unfolding for_each
  for_each-Writes [] body each w h = (w, refl, (h, ([], sym (append-nil (log w)), no_piece)))
  for_each-Writes (x ∷ xs) body each w h =
      let (w1, e1, (h1, (out, l1, o1))) = each x w h in
      let (w2, e2, (h2, (outs, l2, o2))) = for_each-Writes xs body each w1 h1 in
      (
        w2,
        rw (e1, e2) refl,
        (
          h2,
          (out ++ outs, l2 ∙ ap (λ l. l ++ outs) l1 ∙ append_assoc (log w) out outs, piece x o1 o2),
        ),
      )
