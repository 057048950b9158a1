-- ===== src/Decoder/Create/Choice.antt =====
-- Which address `CreateRawSimpleTransaction` takes the amount from.
use near_adapter.Prelude.{
  ◌≡◌, refl, ap, Bool, true, false, List, [], ◌∷◌, ◌++◌, Option, none, some, if◌then◌else◌,
}
use near_adapter.Go.{Result, ok, err, panic}
use near_adapter.Exec.{Exec, pure, raise, resume}
use near_adapter.Platform.{Platform}
use near_adapter.Config.{NearBlockScanner}
use near_adapter.Wallet.{Balance}
use near_adapter.Decoder.Keys.{Address, Wallet}
use near_adapter.Decoder.Create.{
  AddrBalance, new_addr_balance, decimal_of, is_less, balance_at, sufficient, find_addr_balance,
}

module _ (p : Platform) (bs : NearBlockScanner) (wallet : Wallet p.World) (total : p.Decimal) where
  open p use {World}

  -- The balance is there and not less than the total.
  abbrev pub IsEnough : Balance → Type 0
  IsEnough b = is_less (p.cmp (decimal_of p bs wallet b.confirm_balance) total) ≡ false

  -- The addresses were asked in this order, and none has enough.
  pub data Passed : List Address → World → World → Type 0 where
    nobody : (w : World) → Passed [] w w
    unknown :
        (a : Address) {rest : List Address} {w w1 w2 : World}
        → balance_at p bs wallet a.address w ≡ (ok none, w1)
        → Passed rest w1 w2
        → Passed (a ∷ rest) w w2
    too_poor :
        (a : Address) (b : Balance) {rest : List Address} {w w1 w2 : World}
        → balance_at p bs wallet a.address w ≡ (ok (some b), w1)
        → ¬ IsEnough b
        → Passed rest w1 w2
        → Passed (a ∷ rest) w w2

  -- The first address with enough, behind those that were passed.
  pub record Chosen (addresses : List Address) (found : AddrBalance) (w w' : World) : Type 0 where
    pub front : List Address
    pub address : Address
    pub back : List Address
    pub balance : Balance
    pub before : World
    pub splits : addresses ≡ front ++ address ∷ back
    pub passed : Passed front w before
    pub answer : balance_at p bs wallet address.address before ≡ (ok (some balance), w')
    pub enough : IsEnough balance
    pub is_found : found ≡ new_addr_balance balance

  -- What the loop can return: an address, or nothing.
  abbrev pub Finds : List Address → World → Result (Option AddrBalance) × World → Type 0
  Finds addresses w (ok (some found), w') = Chosen addresses found w w'
  Finds addresses w (ok none, w') = Passed addresses w w'
  Finds addresses w (err e, w') = Unit {0}
  Finds addresses w (panic, w') = Unit {0}

  -- The address that is found is the first one whose balance was given and is not less than the
  -- total; nothing is found exactly when every address was asked and none had enough.
  pub find_addr_balance-Finds :
      (addresses : List Address) (w : World)
      → Finds addresses w (find_addr_balance p bs wallet total addresses w)
  unfolding find_addr_balance sufficient
  find_addr_balance-Finds [] w = nobody w
  find_addr_balance-Finds (a ∷ rest) w =
      after (balance_at p bs wallet a.address w) refl (find_addr_balance-Finds rest)
    where
      behind :
          {w1 w' : World} {found : AddrBalance}
          → ((front : List Address) (w2 : World) → Passed front w1 w2 → Passed (a ∷ front) w w2)
          → Chosen rest found w1 w'
          → Chosen (a ∷ rest) found w w'
      behind add c = record {
        front = a ∷ c.front;
        address = c.address;
        back = c.back;
        balance = c.balance;
        before = c.before;
        splits = ap (λ l. a ∷ l) c.splits;
        passed = add c.front c.before c.passed;
        answer = c.answer;
        enough = c.enough;
        is_found = c.is_found;
      }

      further :
          (w1 : World) (r : Result (Option AddrBalance) × World)
          → ((front : List Address) (w2 : World) → Passed front w1 w2 → Passed (a ∷ front) w w2)
          → Finds rest w1 r
          → Finds (a ∷ rest) w r
      further w1 (ok (some found), w') add c = behind add c
      further w1 (ok none, w') add c = add rest w' c
      further w1 (err e, w') add c = tt
      further w1 (panic, w') add c = tt

      decided :
          (b : Balance) (w1 : World) (x : Bool)
          → balance_at p bs wallet a.address w ≡ (ok (some b), w1)
          → is_less (p.cmp (decimal_of p bs wallet b.confirm_balance) total) ≡ x
          → ((w1 : World) → Finds rest w1 (find_addr_balance p bs wallet total rest w1))
          → Finds (a ∷ rest) w (
              elim (if x then none else some (new_addr_balance b))
                  as (λ o. Exec World (Option AddrBalance)) [
                    | some found ↦ pure (some found)
                    | none ↦ find_addr_balance p bs wallet total rest
                  ]
                w1)
      decided b w1 true e poor ih =
          further w1 (find_addr_balance p bs wallet total rest w1)
            (λ front w2 ps. too_poor a b e (λ enough. cc) ps) (ih w1)
      decided b w1 false e rich ih = record {
        front = [];
        address = a;
        back = rest;
        balance = b;
        before = w;
        splits = refl;
        passed = nobody w;
        answer = e;
        enough = rich;
        is_found = refl;
      }

      after :
          (r : Result (Option Balance) × World)
          → balance_at p bs wallet a.address w ≡ r
          → ((w1 : World) → Finds rest w1 (find_addr_balance p bs wallet total rest w1))
          → Finds (a ∷ rest) w (
              resume raise
                (λ b. elim (sufficient p bs wallet total b) [
                  | some found ↦ pure (some found)
                  | none ↦ find_addr_balance p bs wallet total rest
                ])
                r.0
                r.1)
      after (ok none, w1) e ih =
          further w1 (find_addr_balance p bs wallet total rest w1) (λ front w2 ps. unknown a e ps)
            (ih w1)
      after (ok (some b), w1) e ih =
          decided b w1 (is_less (p.cmp (decimal_of p bs wallet b.confirm_balance) total)) e refl ih
      after (err x, w1) e ih = tt
      after (panic, w1) e ih = tt
