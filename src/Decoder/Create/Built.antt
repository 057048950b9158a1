-- ===== src/Decoder/Create/Built.antt =====
-- What `createRawTransaction` leaves in the transaction that it was given.
use near_adapter.Prelude.{
  ℕ, ◌≡◌, refl, sym, ap, ◌∙◌, true, List, [], ◌∷◌, Text, text_eq, text_eq_iff, some, Bool-cases,
  inl, inr,
}
use near_adapter.Prelude.Int.{add64}
use near_adapter.Go.{ok, ok-injective}
use near_adapter.Exec.{lift}
use near_adapter.Exec.Success.{>>=-goes}
use near_adapter.Platform.{Platform}
use near_adapter.Config.{NearBlockScanner}
use near_adapter.Bytes.Hex.{encode_to_string}
use near_adapter.Transaction.{Transaction}
use near_adapter.Node.{get_account_nonce}
use near_adapter.Decoder.Keys.{
  Address, KeySignature, RawTransaction, Wallet, signatures_of, put_signatures,
}
use near_adapter.Decoder.Create.{
  AddrBalance, first_entry, account_total_sent, ref_block_hash, build_transaction, built,
  create_raw_transaction,
}

text_eq_self : (s : Text) → text_eq s s ≡ true
text_eq_self s = (text_eq_iff s s).1 refl

signatures_of-put_signatures :
    (key : Text) (v : List KeySignature) (m : List (Text × List KeySignature))
    → signatures_of key (put_signatures key v m) ≡ some v
unfolding signatures_of put_signatures
signatures_of-put_signatures key v [] = rw (text_eq_self key) refl
signatures_of-put_signatures key v ((k, u) ∷ m) = elim (Bool-cases (text_eq k key)) [
  | inl same ↦ rw (same, text_eq_self key) refl
  | inr other ↦ rw (other, other) (signatures_of-put_signatures key v m)
]

module _ (p : Platform) (bs : NearBlockScanner) (wallet : Wallet p.World) where
  open p use {World}

  -- `out` is what `raw_tx` becomes when it is built for the address of `from`: a transaction for
  -- the first entry of `To`, with the nonce behind the one that the node gave and the block hash that
  -- it gave next, its JSON as `RawHex`,
  -- and one signature to make, of the key of that address, over the transaction's hash. The account,
  -- the destinations and the signatures of other accounts stay.
  pub record BuiltFrom (raw_tx : RawTransaction) (from : AddrBalance) (out : RawTransaction)
      : Type 0 where
    pub addr : Address
    pub nonce : ℕ
    pub ref : Text
    pub near_tx : Transaction
    pub hash : Text
    pub buf : List ℕ
    pub at_nonce : World
    pub after_nonce : World
    pub after_ref : World
    pub nonce_is : get_account_nonce p bs from.address at_nonce ≡ (ok nonce, after_nonce)
    pub ref_is : ref_block_hash p bs wallet after_nonce ≡ (ok ref, after_ref)
    pub transaction_is :
        build_transaction p bs wallet from.address
          (first_entry raw_tx.to).0
          ref
          (add64 nonce 1)
          (first_entry raw_tx.to).1
        ≡ ok (near_tx, hash)
    pub json_is : wallet.marshal near_tx ≡ ok buf
    pub hex_is : out.raw_hex ≡ encode_to_string buf
    pub to_sign :
        signatures_of raw_tx.account_id out.signatures
        ≡ some (
            record {
              ecc_type = bs.wm.config.curve_type;
              address = addr;
              message = hash;
              signature = [];
            }
            ∷ [])
    pub is_built : out.is_built ≡ true
    pub same_account : out.account_id ≡ raw_tx.account_id
    pub same_to : out.to ≡ raw_tx.to
    pub others_kept :
        out.signatures
        ≡ put_signatures raw_tx.account_id
            (record {
              ecc_type = bs.wm.config.curve_type;
              address = addr;
              message = hash;
              signature = [];
            }
              ∷ [])
            raw_tx.signatures

  -- Where `createRawTransaction` succeeds, the transaction is built from what was asked for.
  pub create_raw_transaction-BuiltFrom :
      (raw_tx : RawTransaction) (from : AddrBalance) (w w' : World) (out : RawTransaction)
      → create_raw_transaction p bs wallet raw_tx from w ≡ (ok out, w')
      → BuiltFrom raw_tx from out
  unfolding create_raw_transaction built
  create_raw_transaction-BuiltFrom raw_tx from w w' out h =
      let to = first_entry raw_tx.to in
      >>=-goes (account_total_sent p bs wallet raw_tx.account_id to.0 to.1) _ w w' out h
        λ sent w1 e1 h1. >>=-goes (wallet.get_address from.address) _ w1 w' out h1 λ addr w2 e2 h2.
          >>=-goes (get_account_nonce p bs from.address) _ w2 w' out h2 λ nonce w3 e3 h3.
            >>=-goes (ref_block_hash p bs wallet) _ w3 w' out h3 λ ref w4 e4 h4.
              >>=-goes
                (lift (build_transaction p bs wallet from.address to.0 ref (add64 nonce 1) to.1)) _
                w4 w' out h4
                λ tx w5 e5 h5. >>=-goes (lift (wallet.marshal tx.0)) _ w5 w' out h5 λ buf w6 e6 h6.
                  finished raw_tx from out addr nonce ref tx buf w2 w3 w4 sent e3 e4
                    (ap (λ r. r.0) e5) (ap (λ r. r.0) e6) (ok-injective (ap (λ r. r.0) h6))
    where
      finished :
          (raw_tx : RawTransaction) (from : AddrBalance) (out : RawTransaction) (addr : Address)
          (nonce : ℕ) (ref : Text) (tx : Transaction × Text) (buf : List ℕ) (w2 w3 w4 : World)
          (sent : p.Decimal)
          → get_account_nonce p bs from.address w2 ≡ (ok nonce, w3)
          → ref_block_hash p bs wallet w3 ≡ (ok ref, w4)
          → build_transaction p bs wallet from.address
              (first_entry raw_tx.to).0
              ref
              (add64 nonce 1)
              (first_entry raw_tx.to).1
            ≡ ok tx
          → wallet.marshal tx.0 ≡ ok buf
          → built p bs wallet raw_tx addr tx.1 buf sent ≡ out
          → BuiltFrom raw_tx from out
      finished raw_tx from out addr nonce ref tx buf w2 w3 w4 sent en er et eb eo = record {
        addr = addr;
        nonce = nonce;
        ref = ref;
        near_tx = tx.0;
        hash = tx.1;
        buf = buf;
        at_nonce = w2;
        after_nonce = w3;
        after_ref = w4;
        nonce_is = en;
        ref_is = er;
        transaction_is = et;
        json_is = eb;
        hex_is = ap (λ o. o.raw_hex) (sym eo);
        to_sign =
            ap (λ o. signatures_of raw_tx.account_id o.signatures) (sym eo)
            ∙ signatures_of-put_signatures raw_tx.account_id _ raw_tx.signatures;
        is_built = ap (λ o. o.is_built) (sym eo);
        same_account = ap (λ o. o.account_id) (sym eo);
        same_to = ap (λ o. o.to) (sym eo);
        others_kept = ap (λ o. o.signatures) (sym eo);
      }
