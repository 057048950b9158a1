-- ===== src/Scanner/Scan/View.antt =====
-- What the scan loop may rely on: the node, the database and the observers, seen through a view.
use near_adapter.Prelude.{
  ℕ, zero, suc, ◌+◌, ◌<◌, ◌≤◌, ◌≡◌, true, false, List, [], ◌∷◌, ◌++◌, Text, Option, none, some,
  ◌==◌, if◌then◌else◌,
}
use near_adapter.Go.{GoError, err}
use near_adapter.Exec.{Returns}
use near_adapter.Platform.{Platform}
use near_adapter.Config.{NearBlockScanner}
use near_adapter.Model.{Block, BlockHeader}
use near_adapter.Wallet.{HeadRecord}
use near_adapter.Node.{get_current_block, get_block_by_height}
use near_adapter.Scanner.Notify.Batch.{BatchKeeps}
use near_adapter.Scanner.Scan.{Position}

-- The database's head, what observers were told, oldest first, and the blocks that the database
-- has.
pub record View : Type 0 where
  pub head : ℕ × Text
  pub told : List HeadRecord
  pub local : ℕ → Option HeadRecord

module _ (v : View) (r : HeadRecord) where
  abbrev pub with_head : View
  with_head = record v { head = (r.height, r.hash) }

  abbrev pub with_local : View
  with_local = record v { local = λ h. if h == r.height then some r else v.local h }

  abbrev pub with_told : View
  with_told = record v { told = v.told ++ r ∷ [] }

module _ (p : Platform) (bs : NearBlockScanner) where
  open p use {World}

  -- `Holds v w`: the world `w` looks like `v`. The node serves the blocks up to `top`, the database
  -- keeps what it is given and gives it back, and observers and database do not panic.
  pub record Serves (top : ℕ) (block_at : ℕ → Block) (Holds : View → World → Type 0) : Type 0 where
    pub scans : {v : View} (w : World) → Holds v w → p.scanning w ≡ true
    pub current :
        {v : View} (w : World) → Holds v w → Returns (get_current_block p bs) w top (Holds v)
    pub fetch :
        {v : View} (w : World) (h : ℕ)
        → h ≤ top
        → Holds v w
        → Returns (get_block_by_height p bs h true) w (block_at h) (Holds v)
    pub fetch_bare :
        {v : View} (w : World) (h : ℕ)
        → h ≤ top
        → Holds v w
        → (b : Block) × (b.header ≡ (block_at h).header)
          × Returns (get_block_by_height p bs h false) w b (Holds v)
    pub keeps_batch : (v : View) → BatchKeeps p bs (Holds v)
    pub saves_head :
        {v : View} (w : World) (r : HeadRecord)
        → Holds v w
        → Returns (p.save_current_block_head r) w tt (Holds (with_head v r))
    pub gives_head :
        {v : View} (w : World)
        → Holds v w
        → (r : HeadRecord) × ((r.height, r.hash) ≡ v.head)
          × Returns (p.get_current_block_head bs.wm.config.symbol) w r (Holds v)
    pub saves_block :
        {v : View} (w : World) (r : HeadRecord)
        → Holds v w
        → Returns (p.save_local_block_head r) w tt (Holds (with_local v r))
    pub gives_block :
        {v : View} (w : World) (h : ℕ) (r : HeadRecord)
        → v.local h ≡ some r
        → Holds v w
        → Returns (p.get_local_block_head_by_height h bs.wm.config.symbol) w r (Holds v)
    pub lacks_block :
        {v : View} (w : World) (h : ℕ)
        → v.local h ≡ none
        → Holds v w
        → (e : GoError) × (w' : World) × (p.get_local_block_head_by_height h bs.wm.config.symbol w
            ≡ (err e, w'))
          × Holds v w'
    pub forgets :
        {v : View} (w : World) (h : ℕ)
        → Holds v w
        → Returns (p.delete_unscan_record_by_height h bs.wm.config.symbol) w tt (Holds v)
    pub tells :
        {v : View} (w : World) (r : HeadRecord)
        → Holds v w
        → Returns (p.new_block_notify r) w tt (Holds (with_told v r))

  -- Block `h` says that its height is `h`, and names the hash of the block in front of it.
  pub record IsChain (block_at : ℕ → Block) : Type 0 where
    pub height_is : (h : ℕ) → (block_at h).header.height ≡ h
    pub linked : (h : ℕ) → (block_at (suc h)).header.prev_hash ≡ (block_at h).header.hash

  -- The record that the scanner stores of a block.
  abbrev pub stored : ℕ → Text → Text → HeadRecord
  stored height hash prev_hash = record {
    hash = hash;
    previous_block_hash = prev_hash;
    height = height;
    fork = false;
    time = 0;
    symbol = bs.wm.config.symbol;
  }

  -- What is stored of a block that is no fork, and what observers are told of it.
  abbrev pub notice : BlockHeader → HeadRecord
  notice header = stored header.height header.hash header.prev_hash

  -- What is told of the `n` blocks behind `k`.
  unfoldable pub notices : (ℕ → Block) → ℕ → ℕ → List HeadRecord
  notices block_at k zero = []
  notices block_at k (suc n) = notice (block_at (suc k)).header ∷ notices block_at (suc k) n

  abbrev pub place : (ℕ → Block) → ℕ → Position
  place block_at h = record { height = h; hash = (block_at h).header.hash }

  -- From the view `v` to the view `v'`, the `n` blocks behind `k` were scanned: each was told once,
  -- in order, and is stored, and the last one, if any, is the head.
  pub record Scanned (block_at : ℕ → Block) (k n : ℕ) (v v' : View) : Type 0 where
    pub told_is : v'.told ≡ v.told ++ notices block_at k n
    pub head_is : 0 < n → v'.head ≡ (k + n, (block_at (k + n)).header.hash)
    pub same_head : n ≡ 0 → v'.head ≡ v.head
    pub stored_is : (h : ℕ) → k < h → h ≤ k + n → v'.local h ≡ some (notice (block_at h).header)
    pub older_is : (h : ℕ) → h ≤ k → v'.local h ≡ v.local h
