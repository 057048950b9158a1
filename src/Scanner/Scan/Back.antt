-- ===== src/Scanner/Scan/Back.antt =====
-- A round that meets a block which does not follow the last hash.
use mathlib.Core.Path.{subst}
use mathlib.Core.List.{append-nil}
use near_adapter.Prelude.{
  ℕ, suc, ◌+◌, ◌^◌, ◌<◌, ◌≤◌, ◌≡◌, refl, ◌∙◌, true, false, List, [], ◌∷◌, ◌++◌, Text, text_eq,
  text_eq_iff, leb, Option, none, some, ◌==◌, if◌then◌else◌, arith, Bool-cases, Option-cases, ◌⊎◌,
  inl, inr, sym, ==_of_lt, ==_self,
}
use near_adapter.Prelude.Int.{add64, sub64}
use near_adapter.Go.{GoError, err}
use near_adapter.Exec.{Returns}
use near_adapter.Platform.{Platform}
use near_adapter.Config.{NearBlockScanner}
use near_adapter.Model.{Block, BlockHeader, bare_header}
use near_adapter.Wallet.{HeadRecord}
use near_adapter.Db.{save_local_new_block, save_local_block, get_local_block, delete_unscan_record}
use near_adapter.Scanner.Notify.{new_block_notify}
use near_adapter.Scanner.Scan.{
  again, step_back, optional, fork_notify, resume_at, handle_fork, scan_height, scan_round,
}
use near_adapter.Scanner.Scan.View.{View, with_head, with_local, with_told, Serves, IsChain, stored}

module _ (p : Platform) (bs : NearBlockScanner) where
  open p use {World}

  -- What observers are told of a replaced block.
  abbrev pub fork_notice : HeadRecord → HeadRecord
  fork_notice r = record (stored p bs r.height r.hash r.previous_block_hash) { fork = true }

  -- The block that the database gives of a record.
  abbrev header_of : HeadRecord → BlockHeader
  header_of r = bare_header r.hash r.height r.previous_block_hash

  -- What observers are told of what the database has in place of a replaced block.
  abbrev pub fork_notices : Option HeadRecord → List HeadRecord
  fork_notices none = []
  fork_notices (some r) = fork_notice r ∷ []

  abbrev told_fork : Option HeadRecord → View → View
  told_fork none v = v
  told_fork (some r) v = with_told v (fork_notice r)

  abbrev found_header : Option HeadRecord → Option BlockHeader
  found_header none = none
  found_header (some r) = some (header_of r)

  -- The block at `k` that the scan goes back to: the database's, or the node's where it has none.
  abbrev pub IsBehind : (ℕ → Block) → View → ℕ → BlockHeader → Type 0
  IsBehind block_at v k header =
      ((r : HeadRecord) × (v.local k ≡ some r) × (header ≡ header_of r))
      ⊎ ((v.local k ≡ none) × (header ≡ (block_at k).header))

  -- The view after the scan starts again behind `header`, from a view with the replaced block `o`.
  abbrev pub resumed : Option HeadRecord → BlockHeader → View → View
  resumed o header v = told_fork o (
      with_local (with_head v (stored p bs header.height header.hash []))
        (stored p bs header.height header.hash header.prev_hash))

  pub resumed-told :
      (o : Option HeadRecord) (header : BlockHeader) (v : View)
      → (resumed o header v).told ≡ v.told ++ fork_notices o
  resumed-told none header v = sym (append-nil v.told)
  resumed-told (some r) header v = refl

  resumed-local :
      (o : Option HeadRecord) (header : BlockHeader) (v : View) (i : ℕ)
      → (resumed o header v).local i ≡ (
          if i == header.height
          then some (stored p bs header.height header.hash header.prev_hash)
          else v.local i)
  resumed-local none header v i = refl
  resumed-local (some r) header v i = refl

  pub resumed-below :
      (o : Option HeadRecord) (header : BlockHeader) (v : View) (i : ℕ)
      → i < header.height
      → (resumed o header v).local i ≡ v.local i
  resumed-below o header v i l = resumed-local o header v i ∙ rw (==_of_lt i header.height l) refl

  pub resumed-here :
      (o : Option HeadRecord) (header : BlockHeader) (v : View)
      → (resumed o header v).local header.height
        ≡ some (stored p bs header.height header.hash header.prev_hash)
  resumed-here o header v = resumed-local o header v header.height ∙ rw (==_self header.height) refl

  pub block_below : (k : ℕ) → k + 2 < 2 ^ 64 → sub64 (suc (suc k)) 1 ≡ suc k
  block_below k h = omega arith

  pub step_back-two : (k : ℕ) → 0 < k → k + 2 < 2 ^ 64 → step_back p bs (suc (suc k)) ≡ k
  step_back-two k h small = ground arith

  module _ {top : ℕ} {block_at : ℕ → Block} {Holds : View → World → Type 0}
      (serves : Serves p bs top block_at Holds) (chain : IsChain p bs block_at)
      (dai : bs.has_dai ≡ true) where
    pub scan_round-handle_fork :
        {v : View} (k : ℕ) (stale : Text) (w : World)
        → suc (suc k) ≤ top
        → top < 2 ^ 64
        → ¬ (stale ≡ (block_at (suc k)).header.hash)
        → Holds v w
        → (w' : World) × (scan_round p bs (record { height = suc k; hash = stale }) w
            ≡ handle_fork p bs (suc (suc k)) stale w')
          × Holds v w'
    unfolding scan_round scan_height
    scan_round-handle_fork k stale w h small other held =
        let (w1, e1, h1) = serves.current w held in
        let (w2, e2, h2) = serves.fetch w1 (suc (suc k)) h h1 in
        (
          w2,
          rw
              (
                serves.scans w held,
                e1,
                not_there top (suc k) h,
                next_height (suc k) top h small,
                e2,
                differs,
              )
              refl,
          h2,
        )
      where
        not_there : (top k : ℕ) → suc k ≤ top → leb top k ≡ false
        not_there top k h = ground arith

        next_height : (k top : ℕ) → suc k ≤ top → top < 2 ^ 64 → add64 k 1 ≡ suc k
        next_height k top h small = omega arith

        differs : text_eq stale (block_at (suc (suc k))).header.prev_hash ≡ false
        differs = elim (Bool-cases (text_eq stale (block_at (suc (suc k))).header.prev_hash)) [
          | inl same ↦ absurd (other ((text_eq_iff _ _).0 same ∙ chain.linked (suc k)))
          | inr distinct ↦ distinct
        ]

    local_block :
        {v : View} (h : ℕ) (r : HeadRecord) (w : World)
        → v.local h ≡ some r
        → Holds v w
        → Returns (get_local_block p bs h) w (header_of r) (Holds v)
    unfolding get_local_block
    local_block h r w here held =
        let (w1, e1, h1) = serves.gives_block w h r here held in (w1, rw (dai, e1) refl, h1)

    no_local_block :
        {v : View} (h : ℕ) (w : World)
        → v.local h ≡ none
        → Holds v w
        → (e : GoError) × (w' : World) × (get_local_block p bs h w ≡ (err e, w')) × Holds v w'
    unfolding get_local_block
    no_local_block h w missing held =
        let (e, w1, e1, h1) = serves.lacks_block w h missing held in (e, w1, rw (dai, e1) refl, h1)

    fork_block :
        {v : View} (h : ℕ) (w : World)
        → Holds v w
        → Returns (optional p bs (get_local_block p bs h)) w (found_header (v.local h)) (Holds v)
    unfolding optional
    fork_block {v} h w held = elim (Option-cases (v.local h)) [
      | inl missing ↦
          let (e, w1, e1, h1) = no_local_block h w missing held in (w1, rw (e1, missing) refl, h1)
      | inr (r, here) ↦
          let (w1, e1, h1) = local_block h r w here held in (w1, rw (e1, here) refl, h1)
    ]

    forgotten :
        {v : View} (h : ℕ) (w : World)
        → Holds v w
        → Returns (delete_unscan_record p bs h) w tt (Holds v)
    unfolding delete_unscan_record
    forgotten h w held = let (w1, e1, h1) = serves.forgets w h held in (w1, rw (dai, e1) refl, h1)

    resume_at-resumed :
        {v : View} (o : Option HeadRecord) (height : ℕ) (header : BlockHeader) (w : World)
        → Holds v w
        → Returns
            (resume_at p bs (found_header o) height header)
            w
            (again (record { height = height; hash = header.hash }))
            (Holds (resumed o header v))
    unfolding resume_at fork_notify save_local_new_block save_local_block new_block_notify
    resume_at-resumed {v} o height header w held =
        let (w1, e1, h1) = serves.saves_head w (stored p bs header.height header.hash []) held in
        let (w2, e2, h2) =
          serves.saves_block w1 (stored p bs header.height header.hash header.prev_hash) h1 in
        elim o
          as (λ o.
            Returns (resume_at p bs (found_header o) height header) w
              (again (record { height = height; hash = header.hash }))
              (Holds (resumed o header v))) [
                | none ↦ (w2, rw (dai, e1, e2) refl, h2)
                | some r ↦
                    let (w3, e3, h3) = serves.tells w2 (fork_notice r) h2 in
                    (w3, rw (dai, e1, e2, e3) refl, h3)
              ]

    abbrev Resumes : View → ℕ → Text → World → BlockHeader → Type 0
    Resumes v k stale w header =
        Returns (handle_fork p bs (suc (suc k)) stale) w
          (again (record { height = k; hash = header.hash }))
          (Holds (resumed (v.local (suc k)) header v))

    pub handle_fork-resumed :
        {v : View} (k : ℕ) (stale : Text) (header : BlockHeader) (w : World)
        → 0 < k
        → suc (suc k) ≤ top
        → top < 2 ^ 64
        → IsBehind block_at v k header
        → Holds v w
        → Resumes v k stale w header
    unfolding handle_fork
    handle_fork-resumed {v} k stale header w positive h small behind held =
        let two = step_back-two k positive (omega arith) in
        let below = block_below k (omega arith) in
        let (w1, e1, h1) = fork_block (suc k) w held in
        let (w2, e2, h2) = forgotten (suc k) w1 h1 in
        elim behind [
          | inl (r, here, same) ↦
              let (w3, e3, h3) = local_block k r w2 here h2 in
              let (w4, e4, h4) = resume_at-resumed (v.local (suc k)) k (header_of r) w3 h3 in
              subst (Resumes v k stale w) (sym same) (w4, rw (below, e1, e2, two, e3) e4, h4)
          | inr (missing, same) ↦
              let (e, w3, e3, h3) = no_local_block k w2 missing h2 in
              let (b, same', (w4, e4, h4)) = serves.fetch_bare w3 k k_le h3 in
              let (w5, e5, h5) = resume_at-resumed (v.local (suc k)) k b.header w4 h4 in
              subst (Resumes v k stale w) (same' ∙ sym same)
                (w5, rw (below, e1, e2, two, e3, e4) e5, h5)
        ]
      where
        k_le : k ≤ top
        k_le = omega arith
