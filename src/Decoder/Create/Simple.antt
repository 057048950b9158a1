-- ===== src/Decoder/Create/Simple.antt =====
-- What `CreateRawSimpleTransaction` makes.
use near_adapter.Prelude.{
  ◌≡◌, refl, ap, ◌≤◌, ◌<◌, List, [], ◌∷◌, length, drop, Text, codes, Option, none, some, arith,
}
use mathlib.Core.List.{Perm, Permᴰ, Mem, mem-cons_self, is_set}
use mathlib.Core.List.Perm
use mathlib.Core.Logic.{∥∥₁_elim}
use native.Mathlib.Nat.{ℕ_set}
use near_adapter.Prelude.Int.{pos, negsuc}
use near_adapter.Go.{Result, ok}
use near_adapter.Exec.{◌>>=◌}
use near_adapter.Exec.Success.{>>=-goes}
use near_adapter.Platform.{Platform}
use near_adapter.Config.{NearBlockScanner}
use near_adapter.Decoder.Keys.{Address, RawTransaction, Wallet}
use near_adapter.Decoder.Create.{
  AddrBalance, first_entry, checked_amount, decimal_of, estimate_fees, retained_balance,
  total_amount, find_addr_balance, with_address, no_addresses, create_raw_transaction,
  create_raw_simple_transaction,
}
use near_adapter.Decoder.Create.Choice.{Finds, Chosen, find_addr_balance-Finds}
use near_adapter.Decoder.Create.Built.{BuiltFrom, create_raw_transaction-BuiltFrom}

Permᴰ-nil : {order to : List (Text × Text)} → Permᴰ order to → to ≡ [] → order ≡ []
Permᴰ-nil Permᴰ.nil e = refl
Permᴰ-nil (Permᴰ.cons e q) e' = cc
Permᴰ-nil (Permᴰ.swap e e') e'' = cc
Permᴰ-nil (Permᴰ.trans q r) e = Permᴰ-nil q (Permᴰ-nil r e)

alone :
    {order to : List (Text × Text)} {x : Text × Text}
    → Permᴰ order to
    → to ≡ x ∷ []
    → order ≡ x ∷ []
alone Permᴰ.nil e = cc
alone (Permᴰ.cons e q) e' = let none_left = Permᴰ-nil q (ap (drop 1) e') in cc
alone (Permᴰ.swap e e') e'' = cc
alone (Permᴰ.trans q r) e = alone q (alone r e)

-- Of a map with one entry at most, each `range` meets the same first.
met_same :
    {order to : List (Text × Text)}
    → Perm order to
    → length to ≤ 1
    → (first_entry order).1 ≡ (first_entry to).1
unfolding first_entry
met_same {to = []} q few = rw (Perm.eq-nil q) refl
met_same {to = x ∷ []} q few =
    ∥∥₁_elim q (is_set ℕ_set _ _) (λ d. ap (λ l. (first_entry l).1) (alone d refl))
met_same {to = x ∷ y ∷ to} q few = absurd (omega arith)

-- What `range` meets first is an entry.
met_first :
    {order to : List (Text × Text)} → Perm order to → 0 < length to → Mem (first_entry order) to
unfolding first_entry
met_first {order = []} {to = []} q some_entry = absurd (omega arith)
met_first {order = []} {to = x ∷ to} q some_entry = let no = Perm.nil-eq q in cc
met_first {order = x ∷ order} q some_entry = (Perm.mem_iff q).0 mem-cons_self

module _ (p : Platform) (bs : NearBlockScanner) (wallet : Wallet p.World) where
  open p use {World, Decimal}

  -- What the sender has to have for an amount: it, the fees, and the part that every address keeps.
  abbrev pub needed : Text → Decimal → Decimal
  needed amount fees =
      p.add (p.add (p.add p.zero_decimal (decimal_of p bs wallet amount)) fees)
        (retained_balance p bs wallet)

  -- `out` is built for the first address of the account that has what is needed for the amount of
  -- the entry of `To` that was met first when it was checked. That is the amount of `out` where `To`
  -- has one entry at most.
  pub record Created (order : List (Text × Text)) (raw_tx : RawTransaction) (w w' : World)
      (out : RawTransaction) : Type 0 where
    pub addresses : List Address
    pub fees : Decimal
    pub sender : AddrBalance
    pub listed : World
    pub priced : World
    pub chosen : World
    pub addresses_are :
        wallet.get_address_list (pos 0) (negsuc 0) ((codes "AccountID", raw_tx.account_id) ∷ []) w
        ≡ (ok addresses, listed)
    pub fees_are : estimate_fees p bs wallet listed ≡ (ok fees, priced)
    pub checked_is : 0 < length raw_tx.to → Mem (first_entry order) raw_tx.to
    pub one_amount : length raw_tx.to ≤ 1 → (first_entry order).1 ≡ (first_entry raw_tx.to).1
    pub sender_is :
        Chosen p bs wallet (needed (first_entry order).1 fees) addresses sender priced chosen
    pub created : create_raw_transaction p bs wallet raw_tx sender chosen ≡ (ok out, w')
    pub built_from : BuiltFrom p bs wallet raw_tx sender out

  -- Where CreateRawSimpleTransaction succeeds, the addresses of the account were listed and the fees
  -- estimated; the sender is the first of these addresses whose balance was given and is not less
  -- than the checked amount, the fees and the part that an address keeps; and the transaction is built
  -- from what was asked for, for this sender. The checked amount is that of an entry of To, and with one
  -- destination at most it is the amount that is built; with more, each of the two loops over To may
  -- meet another entry first.
  pub create_raw_simple_transaction-Created :
      (order : List (Text × Text)) (raw_tx : RawTransaction) (w w' : World) (out : RawTransaction)
      → Perm order raw_tx.to
      → create_raw_simple_transaction p bs wallet order raw_tx w ≡ (ok out, w')
      → Created order raw_tx w w' out
  unfolding create_raw_simple_transaction with_address no_addresses total_amount checked_amount
  create_raw_simple_transaction-Created order raw_tx w w' out met h =
      >>=-goes
        (wallet.get_address_list (pos 0) (negsuc 0) ((codes "AccountID", raw_tx.account_id) ∷ [])) _
        w w' out h λ addresses w1 e1 h1. listed addresses w1 e1 h1
    where
      found :
          (addresses : List Address) (fees : Decimal) (sender : Option AddrBalance)
          (w1 w2 w3 : World)
          → wallet.get_address_list
              (pos 0)
              (negsuc 0)
              ((codes "AccountID", raw_tx.account_id) ∷ [])
              w
            ≡ (ok addresses, w1)
          → estimate_fees p bs wallet w1 ≡ (ok fees, w2)
          → Finds p bs wallet (needed (first_entry order).1 fees) addresses w2 (ok sender, w3)
          → with_address p bs wallet raw_tx sender w3 ≡ (ok out, w')
          → Created order raw_tx w w' out
      found addresses fees none w1 w2 w3 e1 e2 c h' = cc
      found addresses fees (some sender) w1 w2 w3 e1 e2 c h' = record {
        addresses = addresses;
        fees = fees;
        sender = sender;
        listed = w1;
        priced = w2;
        chosen = w3;
        addresses_are = e1;
        fees_are = e2;
        checked_is = met_first met;
        one_amount = met_same met;
        sender_is = c;
        created = h';
        built_from = create_raw_transaction-BuiltFrom p bs wallet raw_tx sender w3 w' out h';
      }

      listed :
          (addresses : List Address) (w1 : World)
          → wallet.get_address_list
              (pos 0)
              (negsuc 0)
              ((codes "AccountID", raw_tx.account_id) ∷ [])
              w
            ≡ (ok addresses, w1)
          → (elim addresses as (λ l. p.World → Result RawTransaction × p.World) [
            | [] ↦ no_addresses p bs wallet raw_tx.account_id
            | a ∷ as' ↦ (do
              fees ← estimate_fees p bs wallet
              sender ← find_addr_balance p bs wallet (needed (first_entry order).1 fees) (a ∷ as')
              with_address p bs wallet raw_tx sender)
          ])
              w1
            ≡ (ok out, w')
          → Created order raw_tx w w' out
      listed [] w1 e1 h1 = cc
      listed (a ∷ rest) w1 e1 h1 =
          >>=-goes (estimate_fees p bs wallet) _ w1 w' out h1 λ fees w2 e2 h2.
            >>=-goes (find_addr_balance p bs wallet (needed (first_entry order).1 fees) (a ∷ rest))
              _ w2 w' out h2
              λ sender w3 e3 h3.
                found (a ∷ rest) fees sender w1 w2 w3 e1 e2
                  (rw e3 at (
                    find_addr_balance-Finds p bs wallet (needed (first_entry order).1 fees)
                      (a ∷ rest) w2))
                  h3
