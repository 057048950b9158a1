-- ===== src/Bytes/Reverse.antt =====
-- The in-place loop of `reverseBytes` and the comparison loop, against list functions.
use mathlib.Core.List.{reverse, reverse-append, reverse-cons, append_assoc, append-nil}
use near_adapter.Prelude.{
  ℕ, zero, suc, ◌+◌, ◌-◌, ◌≤◌, ◌<◌, ◌≡◌, ◌↔◌, refl, sym, ap, ◌∙◌, true, false, ◌⊎◌, inl, inr, List,
  [], ◌∷◌, ◌++◌, length, length-append, get_or, get_or-append, set-append, ◌==◌, if◌then◌else◌,
  arith,
}
use near_adapter.Bytes.{swap, reverse_loop, reverse_bytes, compare_loop, byte_array_compare}

-- A list is empty, has one entry, or has a first and a last one.
ends-cases :
    (m : List ℕ)
    → (m ≡ []) ⊎ ((x : ℕ) × (m ≡ x ∷ [])) ⊎ ((x y : ℕ) × (k : List ℕ) × (m ≡ x ∷ k ++ y ∷ []))
ends-cases [] = inl refl
ends-cases (x ∷ m) = elim (ends-cases m) [
  | inl e ↦ inr (inl (x, ap (◌∷◌ x) e))
  | inr (inl (y, e)) ↦ inr (inr (x, y, [], ap (◌∷◌ x) e))
  | inr (inr (y, z, k, e)) ↦ inr (inr (x, z, y ∷ k, ap (◌∷◌ x) e))
]

swap_ends :
    (pre k post : List ℕ) (x y i j : ℕ)
    → i ≡ length pre
    → j ≡ i + suc (length k)
    → swap (pre ++ x ∷ (k ++ y ∷ post)) i j ≡ (pre ++ y ∷ []) ++ (k ++ x ∷ post)
unfolding swap
swap_ends pre k post x y i j hi hj =
    rw (second, first)
      (rw (hi, set-append pre x y (k ++ y ∷ post), ← append_assoc pre (y ∷ k) (y ∷ post), at_y)
        (rw (set-append (pre ++ y ∷ k) y x post) (simp append_assoc)))
  where
    first : get_or (pre ++ x ∷ (k ++ y ∷ post)) i 0 ≡ x
    first = rw (hi) (get_or-append pre x (k ++ y ∷ post) 0)

    at_x : j ≡ length (pre ++ x ∷ k)
    at_x = omega (arith, length-append pre (x ∷ k))

    second : get_or (pre ++ x ∷ (k ++ y ∷ post)) j 0 ≡ y
    second =
        rw (at_x, ← append_assoc pre (x ∷ k) (y ∷ post)) (get_or-append (pre ++ x ∷ k) y post 0)

    at_y : j ≡ length (pre ++ y ∷ k)
    at_y = omega (arith, length-append pre (y ∷ k))

reverse-ends : (x y : ℕ) (k : List ℕ) → reverse (x ∷ k ++ y ∷ []) ≡ y ∷ reverse k ++ x ∷ []
reverse-ends x y k = reverse-append (x ∷ k) (y ∷ []) ∙ ap (◌∷◌ y) (reverse-cons x k)

reverse_loop_stop : (fuel i j : ℕ) (s : List ℕ) → j ≤ i → reverse_loop fuel i j s ≡ s
unfolding reverse_loop
reverse_loop_stop zero i j s h = refl
reverse_loop_stop (suc fuel) i j s h = ground arith

reverse_loop_step :
    (fuel i j : ℕ) (s : List ℕ)
    → i < j
    → reverse_loop (suc fuel) i j s ≡ reverse_loop fuel (suc i) (j - 1) (swap s i j)
unfolding reverse_loop
reverse_loop_step fuel i j s h = ground arith

reverse_loop-reverse :
    (fuel : ℕ) (pre mid post : List ℕ) (i j : ℕ)
    → i ≡ length pre
    → j + 1 ≡ i + length mid
    → length mid ≤ fuel
    → reverse_loop fuel i j (pre ++ (mid ++ post)) ≡ pre ++ (reverse mid ++ post)
reverse_loop-reverse zero pre [] post i j hi hj hf = reverse_loop_stop zero i j _ (omega arith)
reverse_loop-reverse zero pre (x ∷ mid) post i j hi hj hf = absurd (omega arith)
reverse_loop-reverse (suc fuel) pre mid post i j hi hj hf = elim (ends-cases mid) [
  | inl e ↦ rw e (reverse_loop_stop (suc fuel) i j _ (omega (arith, ap length e)))
  | inr (inl (x, e)) ↦ rw e (reverse_loop_stop (suc fuel) i j _ (omega (arith, ap length e)))
  | inr (inr (x, y, k, e)) ↦
      let size : length mid ≡ suc (length k + 1) =
        ap length e ∙ ap suc (length-append k (y ∷ [])) in
      rw (e, reverse-ends x y k)
        (rw
          (
            reverse_loop_step fuel i j _ (omega arith),
            append_assoc (x ∷ k) (y ∷ []) post,
            swap_ends pre k post x y i j hi (omega arith),
          )
          (reverse_loop-reverse fuel (pre ++ y ∷ []) k (x ∷ post) (suc i) (j - 1)
              (omega (arith, length-append pre (y ∷ []))) (omega arith) (omega arith)
            ∙ simp append_assoc))
]

-- The in-place loop reverses the slice.
pub reverse_bytes-reverse : (s : List ℕ) → reverse_bytes s ≡ reverse s
unfolding reverse_bytes
reverse_bytes-reverse [] = refl
reverse_bytes-reverse (x ∷ s) =
    ap (λ j. reverse_loop (length (x ∷ s)) 0 j (x ∷ s)) (omega arith)
    ∙ ap (reverse_loop (length (x ∷ s)) 0 (length s)) (sym (append-nil (x ∷ s)))
    ∙ reverse_loop-reverse (length (x ∷ s)) [] (x ∷ s) [] 0 (length s) refl (omega arith)
        (omega arith)
    ∙ append-nil (reverse (x ∷ s))

compare_loop_step :
    (left i : ℕ) (a b : List ℕ)
    → compare_loop (suc left) i a b
      ≡ (if get_or a i 0 == get_or b i 0 then compare_loop left (suc i) a b else false)
unfolding compare_loop
compare_loop_step left i a b = ground arith

-- `pre` and `pre'` are what the loop has compared, `xs` and `ys` what it has not.
compare_loop-eq :
    (pre pre' xs ys a b : List ℕ) (i : ℕ)
    → a ≡ pre ++ xs
    → b ≡ pre' ++ ys
    → i ≡ length pre
    → i ≡ length pre'
    → length xs ≡ length ys
    → (compare_loop (length xs) i a b ≡ true) ↔ (xs ≡ ys)
compare_loop-eq pre pre' [] [] a b i ea eb hi hj hx = (λ _. refl, λ _. unfold compare_loop in refl)
compare_loop-eq pre pre' [] (y ∷ ys) a b i ea eb hi hj hx = absurd (omega arith)
compare_loop-eq pre pre' (x ∷ xs) [] a b i ea eb hi hj hx = absurd (omega arith)
compare_loop-eq pre pre' (x ∷ xs) (y ∷ ys) a b i ea eb hi hj hx = ground (
  arith,
  compare_loop_step (length xs) i a b,
  get_or-append pre x xs 0,
  get_or-append pre' y ys 0,
  compare_loop-eq (pre ++ x ∷ []) (pre' ++ y ∷ []) xs ys a b (suc i)
      (ea ∙ sym (append_assoc pre (x ∷ []) xs)) (eb ∙ sym (append_assoc pre' (y ∷ []) ys))
      (omega (arith, length-append pre (x ∷ []))) (omega (arith, length-append pre' (y ∷ [])))
      (omega arith),
)

-- The comparison loop decides equality of byte slices.
pub byte_array_compare_iff : (a b : List ℕ) → (byte_array_compare a b ≡ true) ↔ (a ≡ b)
unfolding byte_array_compare
byte_array_compare_iff a b = ground (arith, compare_loop-eq [] [] a b a b 0 refl refl refl refl)
