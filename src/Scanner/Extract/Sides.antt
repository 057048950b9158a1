-- ===== src/Scanner/Extract/Sides.antt =====
-- Each side of a transfer is recorded once, under the account that owns the address.
use near_adapter.Prelude.{
  ℕ, ◌≡◌, refl, Bool, true, ◌&&◌, List, [], ◌∷◌, ◌++◌, length, Text, text_eq, text_eq_iff, ltb,
  if◌then◌else◌, arith,
}
use near_adapter.Platform.{Platform}
use near_adapter.Config.{NearBlockScanner}
use near_adapter.Model.{TxTransfer}
use near_adapter.Wallet.{Recharge, TxExtractData}
use near_adapter.Scanner.Extract.{
  ExtractData, append_at, extract_tx_input, extract_tx_output, extract_sides, extract_transaction,
  init_extract_result, inputs, outputs,
}

-- The entries of a key, as `extractData[key]` gives them.
pub entries_of : Text → ExtractData → List TxExtractData
entries_of key [] = []
entries_of key ((k, es) ∷ m) = if text_eq k key then es else entries_of key m

pub inputs_of : List TxExtractData → List Recharge
inputs_of [] = []
inputs_of (e ∷ es) = e.tx_inputs ++ inputs_of es

pub outputs_of : List TxExtractData → List Recharge
outputs_of [] = []
outputs_of (e ∷ es) = e.tx_outputs ++ outputs_of es

abbrev pub is_some_account : Text → Bool
is_some_account account = ltb 0 (length account)

module _ (p : Platform) (bs : NearBlockScanner) where
  pub extract_transaction-success :
      (height : ℕ) (hash : Text) (tx : TxTransfer)
      → (extract_transaction p bs height hash tx).success ≡ true
  unfolding extract_transaction
  extract_transaction-success height hash tx = refl

  sides :
      (height : ℕ) (hash : Text) (tx : TxTransfer) (key a b : Text)
      → let d =
          entries_of key
            (extract_sides p bs tx height hash (a, is_some_account a) (b, is_some_account b)) in
        (inputs_of d ≡ (
          if is_some_account a && text_eq a key
          then extract_tx_input p bs tx height hash ∷ []
          else []))
        × (outputs_of d ≡ (
            if is_some_account b && text_eq b key
            then extract_tx_output p bs tx height hash ∷ []
            else []))
  unfolding extract_sides init_extract_result inputs outputs append_at entries_of inputs_of
      outputs_of
  sides height hash tx key [] [] = ground arith
  sides height hash tx key [] (y ∷ b) = ground (arith, text_eq_iff (y ∷ b) key)
  sides height hash tx key (x ∷ a) [] = ground (arith, text_eq_iff (x ∷ a) key)
  sides height hash tx key (x ∷ a) (y ∷ b) =
      ground (arith, text_eq_iff (x ∷ a) (y ∷ b), text_eq_iff (x ∷ a) key, text_eq_iff (y ∷ b) key)

  found_sides :
      (height : ℕ) (hash : Text) (tx : TxTransfer) (key : Text) (s t : Text × Bool)
      → s.1 ≡ is_some_account s.0
      → t.1 ≡ is_some_account t.0
      → let d = entries_of key (extract_sides p bs tx height hash s t) in
        (inputs_of d
          ≡ (if s.1 && text_eq s.0 key then extract_tx_input p bs tx height hash ∷ [] else []))
        × (outputs_of d
            ≡ (if t.1 && text_eq t.0 key then extract_tx_output p bs tx height hash ∷ [] else []))
  found_sides height hash tx key (a, o) (b, q) h k = rw (h, k) (sides height hash tx key a b)

  -- Where the scan target function finds an account exactly when it names one, the data under a
  -- key holds the input of the transfer once if the key is the sender's account, and its output
  -- once if the key is the receiver's, and nothing else; so too where both are one account.
  pub extract_transaction_sides :
      (height : ℕ) (hash : Text) (tx : TxTransfer) (key : Text)
      → (p.scan_target tx.from).1 ≡ is_some_account (p.scan_target tx.from).0
      → (p.scan_target tx.to).1 ≡ is_some_account (p.scan_target tx.to).0
      → let d = entries_of key (extract_transaction p bs height hash tx).extract_data in
        (inputs_of d ≡ (
          if (p.scan_target tx.from).1 && text_eq (p.scan_target tx.from).0 key
          then extract_tx_input p bs tx height hash ∷ []
          else []))
        × (outputs_of d ≡ (
            if (p.scan_target tx.to).1 && text_eq (p.scan_target tx.to).0 key
            then extract_tx_output p bs tx height hash ∷ []
            else []))
  unfolding extract_transaction
  extract_transaction_sides height hash tx key h k =
      found_sides height hash tx key (p.scan_target tx.from) (p.scan_target tx.to) h k
