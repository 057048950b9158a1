-- ===== src/Decoder/Payment.antt =====
-- From the transaction that was built to what the node is sent: signing, verifying, and the text that
-- `SubmitRawTransaction` posts.
use near_adapter.Prelude.{
  ℕ, ◌^◌, ◌<◌, ◌≡◌, refl, sym, ap, ◌∙◌, List, [], ◌∷◌, length, All, IsByte, Text, none, some, arith,
}
use near_adapter.Prelude.Int.{pos, add64}
use near_adapter.Prelude.Options
use near_adapter.Go.{ok}
use near_adapter.Exec.{◌>>◌}
use near_adapter.Bytes.Hex.{encode_to_string, decode_string}
use near_adapter.Bytes.Hex.RoundTrip.{encode_to_string-decode_string}
use near_adapter.Bytes.Base64.{encode_base64}
use near_adapter.Bytes.Base64.Reader.{read_base64, read_base64-encode_base64}
use near_adapter.Platform.{Platform}
use near_adapter.Config.{NearBlockScanner}
use near_adapter.Transaction.{Transaction}
use near_adapter.Transaction.Reader.{read_body}
use near_adapter.Transaction.Amount.{PadsRight}
use near_adapter.Transaction.Octets.{serialize-IsByte}
use near_adapter.Decoder.Keys.{KeySignature, RawTransaction, Wallet, put_signatures}
use near_adapter.Decoder.Create.{AddrBalance, first_entry}
use near_adapter.Decoder.Create.Built.{BuiltFrom}
use near_adapter.Decoder.Sign.{sign_one, sign_raw_transaction, verify_raw_transaction}
use near_adapter.Decoder.Sign.Signed.{Signs, SignedAs, sign_one-SignedAs}
use near_adapter.Decoder.Sign.Verified.{Accepts, verify_raw_transaction-Accepts}
use near_adapter.Decoder.Sign.Keys.{sign_raw_transaction-sign_one}

module _ (p : Platform) (bs : NearBlockScanner) (wallet : Wallet p.World) where
  open p use {World}

  -- The key that the transaction is to be signed with.
  abbrev pub key_of :
      {raw_tx out : RawTransaction} {from : AddrBalance}
      → BuiltFrom p bs wallet raw_tx from out
      → Text
      → KeySignature
  key_of b sig = record {
    ecc_type = bs.wm.config.curve_type;
    address = b.addr;
    message = b.hash;
    signature = sig;
  }

  signed_bytes :
      (pads : PadsRight wallet.libraries) (from to : Text) (nonce d : ℕ)
      (pub_key block_hash sig : List ℕ) (r : (Text × Text) × Transaction)
      → decode_string from ≡ (pub_key, none)
      → All IsByte from
      → All IsByte to
      → All IsByte block_hash
      → All IsByte sig
      → SignedAs p bs wallet from to nonce d pub_key block_hash sig r
      → All IsByte r.1.raw_tx_byte
  signed_bytes pads from to nonce d pub_key block_hash sig r hk hf ht hb hs (actions, written) =
      serialize-IsByte wallet.libraries pads _
        (record {
          signer = hf;
          key = (encode_to_string-decode_string from pub_key hk).1;
          receiver = ht;
          hash = hb;
          sig = hs;
        })
        written

  only_one :
      (raw_tx : RawTransaction) (keys : List KeySignature) (account_id : Text)
      → raw_tx.signatures ≡ []
      → put_signatures account_id keys raw_tx.signatures ≡ (account_id, keys) ∷ []
  unfolding put_signatures
  only_one raw_tx keys account_id none_yet = rw none_yet refl

  signs_and_verifies :
      (out : RawTransaction) (ks : KeySignature) (key : wallet.Key) (sig : Text) (bytes : List ℕ)
      (w w' : World)
      → out.signatures ≡ (out.account_id, ks ∷ []) ∷ []
      → wallet.hd_key w ≡ (ok key, w')
      → sign_one wallet key ks out.raw_hex ≡ ok (sig, encode_to_string bytes)
      → All IsByte bytes
      → Accepts wallet (record ks { signature = sig })
      → (sign_raw_transaction wallet >> verify_raw_transaction wallet) (w, out) ≡ (
        ok tt,
        (
          w',
          record out {
            raw_hex = encode_base64 bytes;
            signatures = (out.account_id, record ks { signature = sig } ∷ []) ∷ [];
          },
        ),
      )
  signs_and_verifies out ks key sig bytes w w' only given signed h accepts =
      let ks' : KeySignature = record ks { signature = sig } in
      let out' : RawTransaction = record out {
        raw_hex = encode_to_string bytes;
        signatures = (out.account_id, ks' ∷ []) ∷ [];
      } in
      rw
        (sign_raw_transaction-sign_one wallet out ks key sig (encode_to_string bytes) w w' only
          given signed)
        ((verify_raw_transaction-Accepts wallet out' out.account_id ks' [] bytes w' refl refl h).0
          accepts)

  add64-lt : (a b : ℕ) → add64 a b < 2 ^ 64
  add64-lt a b = omega arith

  -- A transaction that `createRawTransaction` built where no signature was there before, that JSON
  -- gives back as it was, and whose key makes a signature of 64 bytes that owcrypt accepts. Then
  -- signing and verifying it succeed, and leave a `RawHex` that is read as base64 and then, by the
  -- independent reader, as exactly the transfer that was asked for: from the sender with its key, with
  -- the nonce behind the node's, to the first destination, on the block hash, of the amount, signed.
  pub sign_raw_transaction-verify_raw_transaction :
      (pads : PadsRight wallet.libraries) (raw_tx out : RawTransaction) (from : AddrBalance)
      (b : BuiltFrom p bs wallet raw_tx from out) (d : ℕ)
      (pub_key block_hash key_bytes sig : List ℕ) (key : wallet.Key) (w w' : World)
      → raw_tx.signatures ≡ []
      → length from.address ≡ 64
      → decode_string from.address ≡ (pub_key, none)
      → All IsByte from.address
      → wallet.libraries.base58_decode b.ref ≡ (block_hash, none)
      → length block_hash ≡ 32
      → All IsByte block_hash
      → wallet.libraries.string_num_to_big_int_with_exp (first_entry raw_tx.to).1 24 ≡ some (pos d)
      → d < 2 ^ 128
      → length (first_entry raw_tx.to).0 < 2 ^ 32
      → All IsByte (first_entry raw_tx.to).0
      → ((s : List ℕ) → All IsByte (wallet.libraries.sha256_sum s))
      → All IsByte b.buf
      → wallet.unmarshal b.buf ≡ (b.near_tx, none)
      → wallet.hd_key w ≡ (ok key, w')
      → wallet.get_private_key_bytes
          (wallet.derived_key_with_path key b.addr.hd_path bs.wm.config.curve_type)
        ≡ ok key_bytes
      → Signs wallet key_bytes (key_of b []) sig
      → length sig ≡ 64
      → All IsByte sig
      → Accepts wallet (key_of b (encode_to_string sig))
      → (text : Text) × ((sign_raw_transaction wallet >> verify_raw_transaction wallet) (w, out) ≡ (
        ok tt,
        (
          w',
          record out {
            raw_hex = text;
            signatures = (out.account_id, key_of b (encode_to_string sig) ∷ []) ∷ [];
          },
        ),
      ))
        × (Options.◌>>=◌ (read_base64 text) read_body
            ≡ some (record {
              signer_id = from.address;
              public_key = pub_key;
              nonce = add64 b.nonce 1;
              receiver_id = (first_entry raw_tx.to).0;
              block_hash = block_hash;
              deposits = d ∷ [];
              signature = sig;
            }))
  sign_raw_transaction-verify_raw_transaction pads raw_tx out from b d pub_key block_hash key_bytes
        sig key w w' unsigned h64 hk hf hb h32 hbb ha hd ht htb sha hbuf json given private signs
        s64 hs accepts =
      let (r, written, signed, again) =
        sign_one-SignedAs p bs wallet pads from.address (first_entry raw_tx.to).0 b.ref
          (first_entry raw_tx.to).1 (add64 b.nonce 1) d pub_key block_hash key_bytes sig b.buf key
          (key_of b []) b.near_tx h64 hk hb h32 ha hd (add64-lt b.nonce 1) ht b.transaction_is sha
          private signs s64 hbuf json in
      let bytes_are =
        signed_bytes pads from.address (first_entry raw_tx.to).0 (add64 b.nonce 1) d pub_key
          block_hash sig r hk hf htb hbb hs written in
      (
        encode_base64 r.1.raw_tx_byte,
        signs_and_verifies out (key_of b []) key (encode_to_string sig) r.1.raw_tx_byte w w' only
            given (ap (λ x. sign_one wallet key (key_of b []) x) b.hex_is ∙ signed) bytes_are
            accepts,
        rw (read_base64-encode_base64 r.1.raw_tx_byte bytes_are) again,
      )
    where
      only : out.signatures ≡ (out.account_id, key_of b [] ∷ []) ∷ []
      only =
          b.others_kept
          ∙ only_one raw_tx (key_of b [] ∷ []) raw_tx.account_id unsigned
          ∙ ap (λ a. (a, key_of b [] ∷ []) ∷ []) (sym b.same_account)
