-- ===== src/Decoder/Create.antt =====
-- `CreateRawSimpleTransaction` and `createRawTransaction`.
pub mod Choice
pub mod Built
pub mod Simple
use Prim.Native.Nat.{Ordering}
use near_adapter.Prelude.{
  ℕ, ◌+◌, ◌*◌, Bool, true, false, List, [], ◌∷◌, ◌++◌, Text, codes, Option, none, some,
  if◌then◌else◌,
}
use near_adapter.Prelude.Int.{ℤ, pos, negsuc, add64}
use near_adapter.Go
use near_adapter.Go.{
  GoError, Result, ok, err, panic, checked, coded, create_raw_transaction_failed,
  insufficient_balance_of_account,
}
use near_adapter.Exec.{Exec, pure, raise, lift, handle, ◌>>=◌, ◌>>◌}
use near_adapter.Platform.{Platform}
use near_adapter.Config.{NearBlockScanner, decimals}
use near_adapter.Wallet.{Balance}
use near_adapter.Bytes.Hex.{encode_to_string}
use near_adapter.Transaction.{Transaction, new_transaction, serialize}
use near_adapter.Node.{
  get_gas_price, get_balance_by_address, get_account_nonce, get_latest_ref_block_hash,
}
use near_adapter.Decoder.Keys.{Address, KeySignature, RawTransaction, Wallet, put_signatures}

-- `AddrBalance`, and `NewAddrBalance`, both of model.go.
pub record AddrBalance : Type 0 where
  pub address : Text
  pub balance : Text
  pub token_balance : Text

unfoldable pub new_addr_balance : Balance → AddrBalance
new_addr_balance b = record { address = b.address; balance = b.balance; token_balance = [] }

-- The first entry that `range` meets, or two empty texts.
unfoldable pub first_entry : List (Text × Text) → Text × Text
first_entry [] = ([], [])
first_entry (e ∷ m) = e

-- `amountStr` of `CreateRawSimpleTransaction`.
unfoldable pub checked_amount : List (Text × Text) → Text
unfolding first_entry
checked_amount order = (first_entry order).1

abbrev pub is_less : Ordering → Bool
is_less Ordering.lt = true
is_less _ = false

module _ (p : Platform) (bs : NearBlockScanner) (wallet : Wallet p.World) where
  open p use {World, Decimal}

  -- What a decimal text stands for, errors dropped.
  abbrev pub decimal_of : Text → Decimal
  decimal_of s = (p.new_from_string s).0

  unfoldable pub estimate_fees : Exec World Decimal
  estimate_fees = do
    price_text ← get_gas_price p bs
    gas_price ← lift (checked (p.new_from_string price_text).0 (p.new_from_string price_text).1)
    pure (p.div (p.mul gas_price (p.new_decimal (424555062500 * 2) 1)) (p.new_decimal 1 decimals))

  -- `decimal.NewFromFloat32(0.0182).Add(decimal.NewFromFloat32(182 * 0.0001))`
  unfoldable pub retained_balance : Decimal
  retained_balance = p.add (p.new_from_float32 182 4) (p.new_from_float32 182 4)

  unfoldable pub total_amount : Decimal → Decimal → Decimal
  unfolding retained_balance
  total_amount amount_sent fees =
      p.add (p.add (p.add p.zero_decimal amount_sent) fees) retained_balance

  -- The balance of one address, if the scanner gives one: `resp[0]`.
  unfoldable pub balance_at : Text → Exec World (Option Balance)
  balance_at address =
      handle (get_balance_by_address p bs (address ∷ [])) (λ e. pure none)
        λ resp. elim resp [ [] ↦ pure none | b ∷ bs' ↦ pure (some b) ]

  -- `none` is `continue`.
  unfoldable pub sufficient : Decimal → Option Balance → Option AddrBalance
  unfolding new_addr_balance
  sufficient total none = none
  sufficient total (some b) =
      if is_less (p.cmp (decimal_of b.confirm_balance) total)
      then none
      else some (new_addr_balance b)

  -- `for _, addr := range addresses`, which stops at the first address that has enough.
  unfoldable pub find_addr_balance : Decimal → List Address → Exec World (Option AddrBalance)
  find_addr_balance total [] = pure none
  find_addr_balance total (a ∷ rest) = do
    b ← balance_at a.address
    elim (sufficient total b) [
      | some found ↦ pure (some found)
      | none ↦ find_addr_balance total rest
    ]

  -- `accountTotalSent`: nothing where the destination is the account's own.
  unfoldable pub account_total_sent : Text → Text → Text → Exec World Decimal
  account_total_sent account_id destination amount =
      handle
        (wallet.get_address_list (pos 0) (negsuc 0)
          ((codes "AccountID", account_id) ∷ (codes "Address", destination) ∷ []))
        (λ e. pure (p.add p.zero_decimal (decimal_of amount)))
        λ own. elim own [
          | [] ↦ pure (p.add p.zero_decimal (decimal_of amount))
          | a ∷ as' ↦ pure p.zero_decimal
        ]

  -- The error of `GetLatestRefBlockHash` is overwritten, and the hash is then "0".
  unfoldable pub ref_block_hash : Exec World Text
  ref_block_hash =
      handle (get_latest_ref_block_hash p bs) (λ e. pure (codes "0")) (λ hash. pure hash)

  -- The transaction and the hash to sign.
  unfoldable pub build_transaction : Text → Text → Text → ℕ → Text → Result (Transaction × Text)
  build_transaction from to ref nonce amount =
      Go.◌>>=◌ (new_transaction wallet.libraries from to ref amount nonce)
        λ near_tx. Go.◌>>=◌ (serialize wallet.libraries near_tx) λ r. ok (r.1, r.0.1)

  unfoldable pub built : RawTransaction → Address → Text → List ℕ → Decimal → RawTransaction
  built raw_tx addr hash buf sent = record raw_tx {
    raw_hex = encode_to_string buf;
    signatures =
        put_signatures raw_tx.account_id
          (record {
            ecc_type = bs.wm.config.curve_type;
            address = addr;
            message = hash;
            signature = [];
          }
            ∷ [])
          raw_tx.signatures;
    fee_rate = p.decimal_string (decimal_of (codes "0"));
    fees = p.decimal_string (decimal_of (codes "0"));
    is_built = true;
    tx_amount = p.string_fixed (p.sub p.zero_decimal sent) decimals;
    tx_from = [];
    tx_to = [];
  }

  -- `createRawTransaction`: `rawTx` is changed after the last call that can fail.
  unfoldable pub create_raw_transaction : RawTransaction → AddrBalance → Exec World RawTransaction
  unfolding built ref_block_hash account_total_sent
  create_raw_transaction raw_tx addr_balance = do
    let (destination, amount) = first_entry raw_tx.to
    sent ← account_total_sent raw_tx.account_id destination amount
    addr ← wallet.get_address addr_balance.address
    nonce ← get_account_nonce p bs addr_balance.address
    ref ← ref_block_hash
    (near_tx, hash) ←
        lift (build_transaction addr_balance.address destination ref (add64 nonce 1) amount)
    buf ← lift (wallet.marshal near_tx)
    pure (built raw_tx addr hash buf sent)

  unfoldable pub with_address : RawTransaction → Option AddrBalance → Exec World RawTransaction
  with_address raw_tx none = raise (
      coded insufficient_balance_of_account (
        codes
          "all address's balance of account is not enough, an address required to retain at least "
        ++ (p.decimal_string retained_balance ++ codes " algos")))
  with_address raw_tx (some found) = create_raw_transaction raw_tx found

  unfoldable pub no_addresses : {A : Type 0} → Text → Exec World A
  no_addresses account_id = raise (
      coded create_raw_transaction_failed
        (codes "[" ++ (account_id ++ codes "] have not addresses")))

  -- `CreateRawSimpleTransaction`, which `CreateRawTransaction` calls. It goes over the map `To` twice,
  -- and `range` may meet another entry first each time: `order` has the entries as the first loop
  -- meets them, `raw_tx.to` as the one of `createRawTransaction` does.
  unfoldable pub create_raw_simple_transaction :
      List (Text × Text) → RawTransaction → Exec World RawTransaction
  unfolding with_address no_addresses
  create_raw_simple_transaction order raw_tx = do
    addresses ←
        wallet.get_address_list (pos 0) (negsuc 0) ((codes "AccountID", raw_tx.account_id) ∷ [])
    elim addresses [
      | [] ↦ no_addresses raw_tx.account_id
      | a ∷ as' ↦ (do
        fees ← estimate_fees
        found ← find_addr_balance (total_amount (decimal_of (checked_amount order)) fees) (a ∷ as')
        with_address raw_tx found)
    ]
