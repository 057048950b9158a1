-- ===== src/Decoder/Submit.antt =====
-- `SubmitRawTransaction`.
pub mod Posted
use near_adapter.Prelude.{ℕ, true, false, [], ◌∷◌, text_eq, codes, if◌then◌else◌}
use near_adapter.Go.{plain}
use near_adapter.Exec.{Exec, pure, raise, ◌>>=◌}
use near_adapter.Platform.{Platform, positional, text}
use near_adapter.Config.{NearBlockScanner, decimals}
use near_adapter.Api.{call}
use near_adapter.Wallet.{WalletTransaction}
use near_adapter.Decoder.Keys.{RawTransaction, Wallet}

module _ (p : Platform) (bs : NearBlockScanner) (wallet : Wallet p.World) where
  open p use {World}

  unfoldable pub sent : RawTransaction → ℕ → WalletTransaction
  sent raw_tx time =
      let tx : WalletTransaction = record {
        wx_id = [];
        tx_id = raw_tx.tx_id;
        account_id = raw_tx.account_id;
        coin = raw_tx.coin;
        from = raw_tx.tx_from;
        to = raw_tx.tx_to;
        amount = raw_tx.tx_amount;
        decimal = decimals;
        fees = raw_tx.fees;
        is_memo = false;
        block_hash = [];
        block_height = 0;
        confirm_time = 0;
        submit_time = time;
        status = [];
        reason = [];
      } in
      record tx { wx_id = p.gen_transaction_wx_id tx }

  -- The transaction of the wallet, beside `rawTx` as the call leaves it.
  unfoldable pub submit_raw_transaction :
      RawTransaction → Exec World (WalletTransaction × RawTransaction)
  unfolding sent
  submit_raw_transaction raw_tx = do
    result ←
        call p bs.wm.client (codes "broadcast_tx_commit") (positional (text raw_tx.raw_hex ∷ []))
    let tx_id = p.to_string (p.get_path result (codes "transaction.hash"))
    if text_eq tx_id [] then raise (plain (codes "submit transaction fail")) else (λ w.
        let raw_tx' = record raw_tx { tx_id = tx_id; is_submit = true } in
        pure (sent raw_tx' (wallet.now w), raw_tx') w)
