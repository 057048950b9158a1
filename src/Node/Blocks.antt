-- ===== src/Node/Blocks.antt =====
-- The transfers of a whole block.
use near_adapter.Prelude.{
  ◌≡◌, refl, sym, ap, ◌∙◌, inl, inr, Bool, true, false, List, [], ◌∷◌, ◌++◌, Text, text_eq, codes,
  Option, none, some, length, ltb, if◌then◌else◌, ℕ,
}
use near_adapter.Go.{GoError, ok, checked, ok-injective}
use near_adapter.Exec.{pure, lift, ◌>>=◌}
use near_adapter.Exec.Success.{>>=-goes}
use near_adapter.Platform.{Platform, number, positional}
use near_adapter.Api.{call}
use near_adapter.Config.{NearBlockScanner}
use near_adapter.Model.{Block, ChunkHeader, ChunkResponse, Transaction, TxTransfer}
use near_adapter.Node.Actions.{actions_loop}
use near_adapter.Node.Deposit.{HasTransfer, actions_loop-HasTransfer}
use near_adapter.Node.{
  in_tokens, get_tx_by_chunk, get_tx_status, record_transfer, with_actions, transaction_transfers,
  transactions_transfers, chunks_transfers, with_transfers, get_block_by_height,
}

module _ (p : Platform) (bs : NearBlockScanner) where
  open p use {World}

  -- `t` is recorded of `tx`: it is from its signer to its receiver, under its hash, over the deposit
  -- of one of its actions, which is not 0, in tokens.
  pub record IsTransferOf (tx : Transaction) (t : TxTransfer) : Type 0 where
    pub from_is : t.from ≡ tx.signer_id
    pub to_is : t.to ≡ tx.receiver_id
    pub tx_is : t.tx_id ≡ tx.hash
    pub deposit : Text
    pub transfers : HasTransfer tx.actions deposit
    pub not_zero : text_eq deposit (codes "0") ≡ false
    pub value_is : t.value ≡ p.decimal_string (in_tokens p bs (p.new_from_string deposit).0)

  -- The transactions in order, with one transfer at most of each.
  pub data Recorded : List Transaction → List TxTransfer → Type 0 where
    no_more : Recorded [] []
    passed :
        (tx : Transaction) {rest : List Transaction} {ts : List TxTransfer}
        → Recorded rest ts
        → Recorded (tx ∷ rest) ts
    recorded :
        (tx : Transaction) (t : TxTransfer) {rest : List Transaction} {ts : List TxTransfer}
        → IsTransferOf tx t
        → Recorded rest ts
        → Recorded (tx ∷ rest) (t ∷ ts)

  -- The chunks in order, with what the node gave for each.
  pub data Chunks : List ChunkHeader → List TxTransfer → World → World → Type 0 where
    no_chunk : (w : World) → Chunks [] [] w w
    next_chunk :
        (chunk : ChunkHeader) (response : ChunkResponse) {rest : List ChunkHeader}
        {found more : List TxTransfer} {w w1 w2 w3 : World}
        → get_tx_by_chunk p bs chunk.chunk_hash w ≡ (ok response, w1)
        → transactions_transfers p bs response.transactions w1 ≡ (ok found, w2)
        → Recorded response.transactions found
        → Chunks rest more w2 w3
        → Chunks (chunk ∷ rest) (found ++ more) w w3

  -- The block that the node gave for the height, with the transfers of its chunks behind those that
  -- it came with.
  pub record Assembled (height : ℕ) (w w' : World) (block : Block) : Type 0 where
    pub reply : p.Reply
    pub asked : World
    pub served : Block
    pub found : List TxTransfer
    pub reply_is :
        call p bs.wm.client (codes "block") (positional (number height ∷ [])) w ≡ (ok reply, asked)
    pub served_is : p.unmarshal_block (p.raw reply) ≡ (served, none)
    pub block_is : block ≡ record served { tx_transfer = served.tx_transfer ++ found }
    pub chunks : Chunks served.chunks found asked w'

  -- What the chain of one transfer tells.
  record_transfer-IsTransferOf :
      (tx : Transaction) (deposit : Text) (t : TxTransfer) (w w' : World)
      → HasTransfer tx.actions deposit
      → text_eq deposit (codes "0") ≡ false
      → record_transfer p bs tx deposit w ≡ (ok t, w')
      → IsTransferOf tx t
  unfolding record_transfer
  record_transfer-IsTransferOf tx deposit t w w' has nz h =
      >>=-goes (lift (checked (p.new_from_string deposit).0 (p.new_from_string deposit).1)) _ w w' t
        h
        λ amount w1 e1 h1.
          >>=-goes (get_tx_status p bs tx.hash tx.signer_id) _ w1 w' t h1 λ s w2 e2 h2.
            let same = ok-injective (ap (λ r. r.0) h2) in
            record {
              from_is = ap (λ t. t.from) (sym same);
              to_is = ap (λ t. t.to) (sym same);
              tx_is = ap (λ t. t.tx_id) (sym same);
              deposit = deposit;
              transfers = has;
              not_zero = nz;
              value_is =
                  ap (λ t. t.value) (sym same)
                  ∙ ap (λ a. p.decimal_string (in_tokens p bs a))
                      (sym
                        (checked-value _ (p.new_from_string deposit).1 amount (ap (λ r. r.0) e1)));
            }
    where
      checked-value :
          (a : p.Decimal) (e : Option GoError) (b : p.Decimal) → checked a e ≡ ok b → a ≡ b
      checked-value a none b h = ok-injective h
      checked-value a (some e) b h = cc

  -- What one transaction adds in front of the others.
  abbrev Adds : Transaction → List TxTransfer → Type 0
  Adds tx found =
      (rest : List Transaction) (ts : List TxTransfer)
      → Recorded rest ts
      → Recorded (tx ∷ rest) (found ++ ts)

  nothing-Adds :
      (tx : Transaction) (found : List TxTransfer) (w w' : World)
      → pure [] w ≡ (ok found, w')
      → Adds tx found
  nothing-Adds tx found w w' h rest ts r = rw (sym (ok-injective (ap (λ x. x.0) h))) (passed tx r)

  with_actions-Adds :
      (tx : Transaction) (h : Bool) (v : Text) (found : List TxTransfer) (w w' : World)
      → (h ≡ true → HasTransfer tx.actions v)
      → with_actions p bs tx (h, v) w ≡ (ok found, w')
      → Adds tx found
  unfolding with_actions
  with_actions-Adds tx false v found w w' has e = nothing-Adds tx found w w' e
  with_actions-Adds tx true v found w w' has e = by (text_eq v (codes "0")) refl e
    where
      by :
          (z : Bool)
          → text_eq v (codes "0") ≡ z
          → (if z then pure [] else (record_transfer p bs tx v >>= λ t. pure (t ∷ []))) w
            ≡ (ok found, w')
          → Adds tx found
      by true ez e' = nothing-Adds tx found w w' e'
      by false ez e' = >>=-goes (record_transfer p bs tx v) _ w w' found e' λ t w1 e1 h1.
          λ rest ts r.
            rw (sym (ok-injective (ap (λ x. x.0) h1)))
              (recorded tx t (record_transfer-IsTransferOf tx v t w w1 (has refl) ez e1) r)

  transaction_transfers-Adds :
      (tx : Transaction) (found : List TxTransfer) (w w' : World)
      → transaction_transfers p bs tx w ≡ (ok found, w')
      → Adds tx found
  unfolding transaction_transfers
  transaction_transfers-Adds tx found w w' h = by (ltb 0 (length tx.actions)) h
    where
      has :
          (b : Bool) (v : Text)
          → actions_loop tx.actions false (codes "0") ≡ ok (b, v)
          → b ≡ true
          → HasTransfer tx.actions v
      has b v e bt =
          elim (actions_loop-HasTransfer tx.actions false (codes "0") v
            (e ∙ ap (λ x. ok (x, v)) bt)) [ inl (x, y) ↦ cc | inr t ↦ t ]

      by :
          (b : Bool)
          → (if b
                then (lift (actions_loop tx.actions false (codes "0")) >>= with_actions p bs tx)
                else pure [])
              w
            ≡ (ok found, w')
          → Adds tx found
      by true e =
          >>=-goes (lift (actions_loop tx.actions false (codes "0"))) (with_actions p bs tx) w w'
            found e
            λ s w1 e1 h1.
              with_actions-Adds tx s.0 s.1 found w1 w' (has s.0 s.1 (ap (λ x. x.0) e1)) h1
      by false e = nothing-Adds tx found w w' e

  transactions_transfers-Recorded :
      (txs : List Transaction) (found : List TxTransfer) (w w' : World)
      → transactions_transfers p bs txs w ≡ (ok found, w')
      → Recorded txs found
  unfolding transactions_transfers
  transactions_transfers-Recorded [] found w w' h =
      rw (sym (ok-injective (ap (λ x. x.0) h))) no_more
  transactions_transfers-Recorded (tx ∷ rest) found w w' h =
      >>=-goes (transaction_transfers p bs tx) _ w w' found h λ ts w1 e1 h1.
        >>=-goes (transactions_transfers p bs rest) _ w1 w' found h1 λ more w2 e2 h2.
          rw (sym (ok-injective (ap (λ x. x.0) h2))) (
            transaction_transfers-Adds tx ts w w1 e1 rest more
              (transactions_transfers-Recorded rest more w1 w2 e2))

  chunks_transfers-Chunks :
      (chunks : List ChunkHeader) (found : List TxTransfer) (w w' : World)
      → chunks_transfers p bs chunks w ≡ (ok found, w')
      → Chunks chunks found w w'
  unfolding chunks_transfers
  chunks_transfers-Chunks [] found w w' h =
      rw (sym (ok-injective (ap (λ x. x.0) h)), sym (ap (λ x. x.1) h)) (no_chunk w)
  chunks_transfers-Chunks (chunk ∷ rest) found w w' h =
      >>=-goes (get_tx_by_chunk p bs chunk.chunk_hash) _ w w' found h λ response w1 e1 h1.
        >>=-goes (transactions_transfers p bs response.transactions) _ w1 w' found h1 λ ts w2 e2 h2.
          >>=-goes (chunks_transfers p bs rest) _ w2 w' found h2 λ more w3 e3 h3.
            rw (sym (ok-injective (ap (λ x. x.0) h3)), sym (ap (λ x. x.1) h3))
              (next_chunk chunk response e1 e2
                (transactions_transfers-Recorded response.transactions ts w1 w2 e2)
                (chunks_transfers-Chunks rest more w2 w3 e3))

  -- Where GetBlockByHeight succeeds with the transfers asked for, the block is the node's, with
  -- transfers behind its own: of each transaction of each chunk, in order, one at most, which is from
  -- the signer to the receiver of that transaction, over the deposit of one of its Transfer actions,
  -- which is not 0, in tokens.
  pub get_block_by_height-Assembled :
      (height : ℕ) (w w' : World) (block : Block)
      → get_block_by_height p bs height true w ≡ (ok block, w')
      → Assembled height w w' block
  unfolding get_block_by_height with_transfers
  get_block_by_height-Assembled height w w' block h =
      >>=-goes (call p bs.wm.client (codes "block") (positional (number height ∷ []))) _ w w' block
        h
        λ reply w1 e1 h1.
          let r = p.unmarshal_block (p.raw reply) in
          >>=-goes (lift (checked r.0 r.1)) _ w1 w' block h1 λ served w2 e2 h2.
            >>=-goes (chunks_transfers p bs served.chunks) _ w2 w' block h2 λ found w3 e3 h3.
              record {
                reply = reply;
                asked = w1;
                served = served;
                found = found;
                reply_is = e1;
                served_is = checked-served r served (ap (λ x. x.0) e2);
                block_is = sym (ok-injective (ap (λ x. x.0) h3));
                chunks =
                    rw (ap (λ x. x.1) e2, sym (ap (λ x. x.1) h3))
                      (chunks_transfers-Chunks served.chunks found w2 w3 e3);
              }
    where
      checked-served :
          (r : Block × Option GoError) (b : Block) → checked r.0 r.1 ≡ ok b → r ≡ (b, none)
      checked-served (a, none) b e = ap (λ x. (x, none)) (ok-injective e)
      checked-served (a, some x) b e = cc
