-- ===== src/Tests/Demo.antt =====
-- A node, a database and observers to run the program on.
use Prim.Native.Nat.{compare}
use near_adapter.Prelude.{
  ℕ, zero, suc, ◌+◌, ◌-◌, ◌*◌, ◌/◌, ◌%◌, ◌^◌, Bool, true, false, List, [], ◌∷◌, ◌++◌, length,
  replicate, get_or, Text, codes, Option, none, some, ltb, leb, ◌==◌, if◌then◌else◌,
}
use near_adapter.Prelude.Int.{pos}
use near_adapter.Go.{Result, ok, err, library}
use near_adapter.Exec.{pure, raise}
use near_adapter.Platform.{Platform, Params, positional, named, number, text}
use near_adapter.Model.{
  Any, string, object, end, member, Status, Block, bare_header, ChunkHeader, Transaction,
  RootOutcome,
}
use near_adapter.Wallet.{HeadRecord, UnscanRecord}
use near_adapter.Config.{NearBlockScanner, new_config}
use near_adapter.Api.{format_int}
use near_adapter.Transaction.{Libraries}
use near_adapter.Decoder.Keys.{Wallet}

abbrev pub lib : Libraries
lib = record {
  base58_decode = λ s. (s, none);
  string_num_to_big_int_with_exp = λ s n. some (pos (length s * 10 ^ n));
  right_pad_bytes = λ s n. s ++ replicate (n - length s) 0;
  sha256_sum = λ s. length s % 256 ∷ [];
}

-- What the database and the observers remember, and the state of the node: whether the next request
-- is refused, and the branch of the chain that it is on.
pub record World : Type 0 where
  pub head : ℕ × Text
  pub notices : List HeadRecord
  pub unscan : List UnscanRecord
  pub local : ℕ → Option HeadRecord
  pub busy : Bool
  pub branch : ℕ

abbrev pub without_height : ℕ → List UnscanRecord → List UnscanRecord
without_height h [] = []
without_height h (r ∷ rs) =
    if r.block_height == h then without_height h rs else r ∷ without_height h rs

-- A transaction with a transfer of 7 and then a bare action.
abbrev pub demo_transaction : List Any → Transaction
demo_transaction actions = record {
  signer_id = codes "alice";
  public_key = [];
  nonce = pos 1;
  hash = codes "tx";
  receiver_id = codes "bob";
  block_hash = [];
  signature = [];
  actions = actions;
}

abbrev pub transfer_of : Text → Any
transfer_of v =
    object (member (codes "Transfer") (object (member (codes "deposit") (string v) end)) end)

abbrev demo_chunk : ChunkHeader
demo_chunk = record {
  balance_burnt = [];
  chunk_hash = [];
  encoded_length = pos 0;
  encoded_merkle_root = [];
  gas_limit = pos 0;
  gas_used = pos 0;
  height_created = pos 0;
  height_included = pos 0;
  outcome_root = [];
  outgoing_receipts_root = [];
  prev_block_hash = [];
  prev_state_root = [];
  rent_paid = [];
  shard_id = pos 0;
  signature = [];
  tx_root = [];
  validator_reward = [];
}

abbrev before : ℕ → ℕ
before zero = 0
before (suc h) = h

-- The hash of a block is its height, and behind block 2 the branch too, if it is not 0.
abbrev pub hash_on : ℕ → ℕ → Text
hash_on b h = if b == 0 then h ∷ [] else if leb h 2 then h ∷ [] else h ∷ b ∷ []

-- Each block has one chunk.
abbrev pub block_on : ℕ → ℕ → Block
block_on b h = record {
  author = [];
  chunks = demo_chunk ∷ [];
  header = bare_header (hash_on b h) h (hash_on b (before h));
  tx_transfer = [];
}

abbrev pub raw_block : ℕ → Block
raw_block = block_on 0

abbrev read_block : Text → Block
read_block (h ∷ b ∷ s) = block_on b h
read_block s = block_on 0 0

-- The node's current block. Branch 0 ends before the others.
abbrev pub top_on : ℕ → ℕ
top_on b = if b == 0 then 5 else 6

abbrev demo_status : ℕ → Status
demo_status b = record {
  chain_id = [];
  rpc_addr = [];
  sync_info = record {
    latest_block_hash = [];
    latest_block_height = pos (top_on b);
    latest_block_time = [];
    latest_state_root = [];
    syncing = false;
  };
  validators = [];
  version = record { build = []; version = [] };
}

abbrev demo_outcome : RootOutcome
demo_outcome = record {
  block_hash = [];
  id = [];
  outcome = record {
    gas_burnt = pos 0;
    tokens_burnt = codes "5";
    logs = [];
    receipt_ids = [];
    status = Any.null;
  };
  proof = [];
}

-- A call is answered with its first parameter, and behind a height with the branch.
abbrev reply : ℕ → Params → Text
reply b (positional (number h ∷ ps)) = h ∷ b ∷ []
reply b (positional (text s ∷ ps)) = s
reply b (named ((k, v) ∷ (k', v') ∷ (k'', account) ∷ ps)) = account
reply b _ = []

abbrev digit_value : Text → ℕ → ℕ
digit_value [] n = n
digit_value (c ∷ s) n = digit_value s (10 * n + (c - b'0'))

abbrev pub local_head : ℕ → Text → HeadRecord
local_head h hash = record {
  hash = hash;
  previous_block_hash = before h ∷ [];
  height = h;
  fork = false;
  time = 0;
  symbol = codes "NEAR";
}

-- The local blocks 2 and 3 are not the node's, and there are none behind.
abbrev pub first_blocks : ℕ → Option HeadRecord
first_blocks h =
    get_or
      (none
        ∷ some (local_head 1 (1 ∷ []))
        ∷ some (local_head 2 (8 ∷ []))
        ∷ some (local_head 3 (9 ∷ []))
        ∷ [])
      h none

abbrev pub started : World
started = record {
  head = (0, []);
  notices = [];
  unscan = [];
  local = first_blocks;
  busy = false;
  branch = 0;
}

abbrev found_head : Option HeadRecord → Result HeadRecord
found_head none = err (library (codes "not found"))
found_head (some r) = ok r

abbrev pub platform : Platform
platform = record {
  World = World;
  Reply = Text;
  req_get = λ url w. (ok (w.branch ∷ []), w);
  req_post = λ url body w.
      if w.busy
      then (err (library (codes "busy")), record w { busy = false })
      else (ok (reply w.branch body.params), w);
  parse_bytes = λ s. s;
  get_path = λ r path. r;
  is_object = λ r. false;
  exists = λ r. true;
  to_int = λ r. pos 0;
  to_string = λ r. r;
  raw = λ r. r;
  unmarshal_status = λ s. (demo_status (get_or s 0 0), none);
  unmarshal_block = λ s. (read_block s, none);
  unmarshal_chunk = λ s. (
    record {
      author = [];
      header = demo_chunk;
      transactions =
          demo_transaction (string (codes "CreateAccount") ∷ transfer_of (codes "7") ∷ []) ∷ [];
    },
    none,
  );
  unmarshal_tx_status = λ s. (
    record {
      receipts_outcome = demo_outcome ∷ [];
      transaction = demo_transaction [];
      status = (codes "SuccessValue", []) ∷ [];
      transaction_outcome = demo_outcome;
    },
    none,
  );
  unmarshal_account = λ s. (record { amount = s ++ replicate 24 b'0' }, none);
  unmarshal_access_key = λ s. (record { nonce = 4 }, none);
  Decimal = ℕ;
  zero_decimal = 0;
  new_decimal = λ n k. n * 10 ^ k;
  new_from_float32 = λ n k. n;
  new_from_string = λ s. (digit_value s 0, none);
  add = λ a b. a + b;
  sub = λ a b. a - b;
  mul = λ a b. a * b;
  div = λ a b. a / b;
  cmp = compare;
  decimal_string = λ n. format_int (pos n);
  string_fixed = λ n k. format_int (pos n);
  base58_encode = λ s. s;
  save_current_block_head = λ r w. (ok tt, record w { head = (r.height, r.hash) });
  get_current_block_head = λ s w. (
    ok (record {
      hash = w.head.1;
      previous_block_hash = [];
      height = w.head.0;
      fork = false;
      time = 0;
      symbol = s;
    }),
    w,
  );
  save_local_block_head =
      λ r w. (ok tt, record w { local = λ h. if h == r.height then some r else w.local h });
  get_local_block_head_by_height = λ h s w. (found_head (w.local h), w);
  save_unscan_record = λ r w. (ok tt, record w { unscan = r ∷ w.unscan });
  delete_unscan_record_by_height =
      λ h s w. (ok tt, record w { unscan = without_height h w.unscan });
  delete_unscan_record_by_id = λ i s. pure tt;
  get_unscan_records = λ s w. (ok (w.unscan, none), w);
  new_unscan_record = λ h tx reason s. record {
    id = [];
    block_height = h;
    tx_id = tx;
    reason = reason;
    symbol = s;
  };
  gen_transaction_wx_id = λ t. [];
  gen_tx_input_sid = λ a b c n. [];
  gen_tx_output_sid = λ a b c n. [];
  scanning = λ w. true;
  Observer = Bool;
  observers = λ w. true ∷ false ∷ [];
  block_extract_data_notify =
      λ o key entry. if o then pure tt else raise (library (codes "refused"));
  new_block_notify = λ r w. (ok tt, record w { notices = w.notices ++ r ∷ [] });
  scan_target = λ s. (s, ltb 0 (length s));
  map_order = λ w l. l;
  entry_order = λ w l. l;
  other_error_text = λ e. [];
  arrival = λ l. l;
}

abbrev pub scanner : NearBlockScanner
scanner = record {
  current_block_height = 0;
  rescan_last_block_count = 0;
  has_dai = true;
  wm = record {
    config = new_config 0 (codes "NEAR");
    client = record { base_url = []; debug = false };
  };
}

-- Keys are numbers, and a signature is the key in front of the message.
abbrev pub wallet : Wallet World
wallet = record {
  Key = ℕ;
  get_address_list = λ offset limit cols. pure [];
  get_address = λ a. pure (record { address = a; public_key = []; hd_path = [] });
  hd_key = pure 7;
  derived_key_with_path = λ key path ecc. some key;
  get_private_key_bytes = λ key. elim key [ some k ↦ ok (k ∷ []) | none ↦ Result.panic ];
  signature_success = 0;
  owcrypt_signature = λ key msg n ecc. (key ++ msg, 0);
  owcrypt_verify = λ public_key msg n sig ecc. 0;
  marshal = λ tx. ok (tx.signer_id);
  unmarshal = λ s. (
    record {
      signer_id = s;
      public_key = replicate 32 0;
      nonce = 1;
      receiver_id = [];
      block_hash = replicate 32 0;
      signature = [];
      actions = [];
      raw_tx_hex = [];
      raw_tx_byte = [];
    },
    none,
  );
  now = λ w. 0;
  libraries = lib;
}
