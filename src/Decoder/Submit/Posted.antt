-- ===== src/Decoder/Submit/Posted.antt =====
-- What a transaction that was submitted tells.
use near_adapter.Prelude.{
  ◌≡◌, sym, ap, ◌∙◌, true, false, [], ◌∷◌, text_eq, text_eq_iff, codes, Bool-cases, inl, inr,
}
use near_adapter.Go.{ok, ok-injective}
use near_adapter.Exec.Success.{>>=-goes}
use near_adapter.Platform.{Platform, positional, text}
use near_adapter.Config.{NearBlockScanner}
use near_adapter.Api.{call}
use near_adapter.Wallet.{WalletTransaction}
use near_adapter.Decoder.Keys.{RawTransaction, Wallet}
use near_adapter.Decoder.Submit.{sent, submit_raw_transaction}

module _ (p : Platform) (bs : NearBlockScanner) (wallet : Wallet p.World) where
  open p use {World}

  -- The node was sent `RawHex` once and answered with the identifier of the transaction, which is not
  -- empty. `rawTx` changes in its identifier and its mark alone. The wallet's transaction has the
  -- identifier, sides, amount, fees, account and coin of `rawTx`, 24 decimals, the time at which the
  -- answer came, nothing on a block, and an identifier made from itself.
  pub record Submitted (raw_tx : RawTransaction) (w w' : World) (tx : WalletTransaction)
      (raw_tx' : RawTransaction) : Type 0 where
    pub reply : p.Reply
    pub posted :
        call p bs.wm.client (codes "broadcast_tx_commit") (positional (text raw_tx.raw_hex ∷ [])) w
        ≡ (ok reply, w')
    pub id_is : raw_tx'.tx_id ≡ p.to_string (p.get_path reply (codes "transaction.hash"))
    pub not_empty : ¬ (raw_tx'.tx_id ≡ [])
    pub changed : raw_tx' ≡ record raw_tx { tx_id = raw_tx'.tx_id; is_submit = true }
    pub same_id : tx.tx_id ≡ raw_tx'.tx_id
    pub same_sides : (tx.from ≡ raw_tx.tx_from) × (tx.to ≡ raw_tx.tx_to)
    pub same_sums : (tx.amount ≡ raw_tx.tx_amount) × (tx.fees ≡ raw_tx.fees)
    pub same_account : tx.account_id ≡ raw_tx.account_id
    pub same_coin : tx.coin ≡ raw_tx.coin
    pub decimal_is : tx.decimal ≡ 24
    pub time_is : tx.submit_time ≡ wallet.now w'
    pub no_block : (tx.block_hash ≡ []) × (tx.block_height ≡ 0) × (tx.confirm_time ≡ 0)
    pub no_more : (tx.is_memo ≡ false) × (tx.status ≡ []) × (tx.reason ≡ [])
    pub named : tx.wx_id ≡ p.gen_transaction_wx_id (record tx { wx_id = [] })

  -- Where `SubmitRawTransaction` succeeds, the node was sent `RawHex` once and answered with an
  -- identifier that is not empty; `rawTx` changes in its identifier and its mark alone. The wallet's
  -- transaction has the identifier, sides, amount, fees, account and coin of `rawTx`, 24 decimals, the
  -- time at which the answer came, nothing on a block, and an identifier made from itself.
  pub submit_raw_transaction-Submitted :
      (raw_tx raw_tx' : RawTransaction) (tx : WalletTransaction) (w w' : World)
      → submit_raw_transaction p bs wallet raw_tx w ≡ (ok (tx, raw_tx'), w')
      → Submitted raw_tx w w' tx raw_tx'
  unfolding submit_raw_transaction
  submit_raw_transaction-Submitted raw_tx raw_tx' tx w w' h =
      >>=-goes
        (call p bs.wm.client (codes "broadcast_tx_commit") (positional (text raw_tx.raw_hex ∷ [])))
        _ w w' (tx, raw_tx') h
        λ reply w1 e1 h1.
          elim (Bool-cases
            (text_eq (p.to_string (p.get_path reply (codes "transaction.hash"))) [])) [
              | inl empty ↦ let no = rw empty at h1 in cc
              | inr given ↦
                  let done = rw given at h1 in
                  finished raw_tx raw_tx' tx w w1 w' reply e1 given
                    (ap (λ x. x.0) (ok-injective (ap (λ x. x.0) done)))
                    (ap (λ x. x.1) (ok-injective (ap (λ x. x.0) done))) (ap (λ x. x.1) done)
            ]
    where
      finished :
          (raw_tx raw_tx' : RawTransaction) (tx : WalletTransaction) (w w1 w' : World)
          (reply : p.Reply)
          → call p bs.wm.client
              (codes "broadcast_tx_commit")
              (positional (text raw_tx.raw_hex ∷ []))
              w
            ≡ (ok reply, w1)
          → text_eq (p.to_string (p.get_path reply (codes "transaction.hash"))) [] ≡ false
          → sent p bs wallet
              (record raw_tx {
                tx_id = p.to_string (p.get_path reply (codes "transaction.hash"));
                is_submit = true;
              })
              (wallet.now w1)
            ≡ tx
          → record raw_tx {
            tx_id = p.to_string (p.get_path reply (codes "transaction.hash"));
            is_submit = true;
          }
            ≡ raw_tx'
          → w1 ≡ w'
          → Submitted raw_tx w w' tx raw_tx'
      finished raw_tx raw_tx' tx w w1 w' reply posted given same_tx same_raw same_world =
          let id = p.to_string (p.get_path reply (codes "transaction.hash")) in
          let same_id : id ≡ raw_tx'.tx_id = ap (λ r. r.tx_id) same_raw in
          record {
            reply = reply;
            posted = posted ∙ ap (λ v. (ok reply, v)) same_world;
            id_is = sym same_id;
            not_empty = λ none.
                let no : true ≡ false = sym ((text_eq_iff id []).1 (same_id ∙ none)) ∙ given in cc;
            changed =
                sym same_raw ∙ ap (λ i. record raw_tx { tx_id = i; is_submit = true }) same_id;
            same_id = ap (λ t. t.tx_id) (sym same_tx) ∙ same_id;
            same_sides = (ap (λ t. t.from) (sym same_tx), ap (λ t. t.to) (sym same_tx));
            same_sums = (ap (λ t. t.amount) (sym same_tx), ap (λ t. t.fees) (sym same_tx));
            same_account = ap (λ t. t.account_id) (sym same_tx);
            same_coin = ap (λ t. t.coin) (sym same_tx);
            decimal_is = ap (λ t. t.decimal) (sym same_tx);
            time_is = ap (λ t. t.submit_time) (sym same_tx) ∙ ap wallet.now same_world;
            no_block = (
              ap (λ t. t.block_hash) (sym same_tx),
              ap (λ t. t.block_height) (sym same_tx),
              ap (λ t. t.confirm_time) (sym same_tx),
            );
            no_more = (
              ap (λ t. t.is_memo) (sym same_tx),
              ap (λ t. t.status) (sym same_tx),
              ap (λ t. t.reason) (sym same_tx),
            );
            named =
                ap (λ t. t.wx_id) (sym same_tx)
                ∙ ap (λ t. p.gen_transaction_wx_id (record t { wx_id = [] })) same_tx;
          }
