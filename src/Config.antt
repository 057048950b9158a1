-- ===== src/Config.antt =====
-- near/config.go, near/manager.go and near/near.go: the configuration, and the state that the
-- manager, its client and its scanner hold.
use near_adapter.Prelude.{ℕ, ◌+◌, Bool, false, ◌&&◌, [], ◌++◌, map, leb, Text, codes, if◌then◌else◌}

abbrev pub symbol : Text
symbol = codes "NEAR"

-- `Decimal`, the constant.
abbrev pub decimals : ℕ
decimals = 24

pub record WalletConfig : Type 0 where
  pub symbol : Text
  pub decimal : ℕ
  pub config_file_path : Text
  pub config_file_name : Text
  pub blockchain_file : Text
  pub db_path : Text
  pub server_api : Text
  pub default_config : Text
  pub curve_type : ℕ
  pub network : Text
  pub fix_fees : Text
  pub address_retain_amount : Text

-- `strings.ToLower` on ASCII.
to_lower : Text → Text
to_lower = map (λ c. if leb b'A' c && leb c b'Z' then c + 32 else c)

-- `curve` is `owcrypt.ECC_CURVE_ED25519`. The paths are those that `filepath.Join` gives for a
-- symbol that is one plain path element; making the directory is left out.
unfoldable pub new_config : ℕ → Text → WalletConfig
unfolding to_lower
new_config curve symbol = record {
  symbol = symbol;
  decimal = decimals;
  config_file_path = codes "conf";
  config_file_name = symbol ++ codes ".ini";
  blockchain_file = codes "blockchain.db";
  db_path = codes "data/" ++ (to_lower symbol ++ codes "/db");
  server_api = [];
  default_config = [];
  curve_type = curve;
  network = [];
  fix_fees = codes "0";
  address_retain_amount = [];
}

pub record Client : Type 0 where
  pub base_url : Text
  pub debug : Bool

-- What `wm` gives the scanner and the decoder.
pub record WalletManager : Type 0 where
  pub config : WalletConfig
  pub client : Client

-- `LoadAssetsConfig`; `c` reads a key of the configuration.
pub load_assets_config : (Text → Text) → WalletManager → WalletManager
load_assets_config c wm = record {
  config = record (wm.config) {
    server_api = c (codes "ServerAPI");
    fix_fees = c (codes "FixFees");
    network = c (codes "Network");
    address_retain_amount = c (codes "AddressRetainAmount");
  };
  client = record { base_url = c (codes "ServerAPI"); debug = false };
}

-- The scanner. `has_dai` is `bs.BlockchainDAI != nil`.
pub record NearBlockScanner : Type 0 where
  pub current_block_height : ℕ
  pub rescan_last_block_count : ℕ
  pub has_dai : Bool
  pub wm : WalletManager

-- `NewNearBlockScanner`
pub new_near_block_scanner : WalletManager → NearBlockScanner
new_near_block_scanner wm = record {
  current_block_height = 0;
  rescan_last_block_count = 0;
  has_dai = false;
  wm = wm;
}

-- `maxExtractingSize`: the capacity of `extractingCH`.
abbrev pub max_extracting_size : ℕ
max_extracting_size = 10
