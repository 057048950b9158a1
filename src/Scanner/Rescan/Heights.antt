-- ===== src/Scanner/Rescan/Heights.antt =====
-- Which heights `RescanFailedRecord` scans again.
use near_adapter.Prelude.{
  ℕ, suc, ◌≤◌, ◌||◌, ltb, ◌≡◌, Bool, false, ◌&&◌, List, [], ◌∷◌, ◌==◌, if◌then◌else◌, arith,
}
use near_adapter.Wallet.{UnscanRecord}
use near_adapter.Scanner.Rescan.{insert_height, record_heights}

-- How often a height stands in a list.
abbrev pub count : ℕ → List ℕ → ℕ
count h [] = 0
count h (k ∷ ks) = if k == h then suc (count h ks) else count h ks

abbrev pub is_recorded : ℕ → List UnscanRecord → Bool
is_recorded h [] = false
is_recorded h (r ∷ rs) = r.block_height == h || is_recorded h rs

abbrev as_count : Bool → ℕ
as_count b = if b then 1 else 0

count-insert_height :
    (h k : ℕ) (ks : List ℕ)
    → count h (insert_height k ks) ≡ (if k == h && (count h ks == 0) then 1 else count h ks)
unfolding insert_height
count-insert_height h k [] = ground arith
count-insert_height h k (x ∷ ks) = ground (arith, count-insert_height h k ks)

insert_height-once : (h k : ℕ) (ks : List ℕ) → count h ks ≤ 1 → count h (insert_height k ks) ≤ 1
insert_height-once h k ks one = ground (arith, count-insert_height h k ks)

count-record_heights :
    (h : ℕ) (rs : List UnscanRecord) (ks : List ℕ)
    → count h ks ≤ 1
    → count h (record_heights rs ks) ≡ as_count (ltb 0 (count h ks) || is_recorded h rs)
unfolding record_heights
count-record_heights h [] ks one = ground arith
count-record_heights h (r ∷ rs) ks one = ground (
  arith,
  count-record_heights h rs (insert_height r.block_height ks)
      (insert_height-once h r.block_height ks one),
  count-insert_height h r.block_height ks,
)

-- Each height that some record names is a key once, and no other height is.
pub count-record_heights_once :
    (h : ℕ) (rs : List UnscanRecord)
    → count h (record_heights rs []) ≡ (if is_recorded h rs then 1 else 0)
count-record_heights_once h rs = count-record_heights h rs [] (omega arith)
