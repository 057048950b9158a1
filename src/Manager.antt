-- ===== src/Manager.antt =====
-- near/manager.go, the getters of near/near.go, and the constructors of the decoders: what the
-- framework asks of the adapter before any request is made.
use near_adapter.Prelude.{ℕ, Bool, false, Text, codes, [], Option, none, some}
use near_adapter.Go.{Result}
use near_adapter.Config.{WalletConfig, Client, new_config, symbol, decimals, load_assets_config}

pub data BalanceModelType : Type 0 where
  address : BalanceModelType
  account : BalanceModelType

-- `AddressDecoderV2` also points at its manager, which no method reads.
pub record AddressDecoder : Type 0 where
  pub is_test_net : Bool

-- `NewAddressDecoder`
abbrev pub new_address_decoder : AddressDecoder
new_address_decoder = record { is_test_net = false }

-- `NewAddressDecoderV2`
abbrev pub new_address_decoder_v2 : AddressDecoder
new_address_decoder_v2 = record { is_test_net = false }

-- The manager as `NewWalletManager` makes it. `client` is nil until the configuration is loaded. The
-- scanner and the transaction decoder, which point back at the manager, are handed on as they are.
pub record Manager : Type 0 where
  pub config : WalletConfig
  pub decoder : AddressDecoder
  pub decoder_v2 : AddressDecoder
  pub has_contract_decoder : Bool
  pub client : Option Client

-- `NewWalletManager`; `curve` is `owcrypt.ECC_CURVE_ED25519`.
unfoldable pub new_wallet_manager : ℕ → Manager
new_wallet_manager curve = record {
  config = new_config curve symbol;
  decoder = new_address_decoder;
  decoder_v2 = new_address_decoder_v2;
  has_contract_decoder = false;
  client = none;
}

module _ (m : Manager) where
  pub curve_type : ℕ
  curve_type = m.config.curve_type

  pub full_name : Text
  full_name = codes "near"

  pub asset_symbol : Text
  asset_symbol = m.config.symbol

  pub decimal_places : ℕ
  decimal_places = decimals

  pub balance_model_type : BalanceModelType
  balance_model_type = address

  pub get_address_decoder_v2 : AddressDecoder
  get_address_decoder_v2 = m.decoder_v2

  pub get_address_decode : AddressDecoder
  get_address_decode = m.decoder

  -- `LoadAssetsConfig` on the manager.
  pub load_assets : (Text → Text) → Manager
  load_assets c =
      let wm =
        load_assets_config c
          (record { config = m.config; client = record { base_url = []; debug = false } }) in
      record m { config = wm.config; client = some wm.client }

  -- `InitAssetsConfig`; `parse` is `config.NewConfigData` for "ini".
  pub init_assets_config : {Configer : Type 0} → (Text → Result Configer) → Result Configer
  init_assets_config parse = parse m.config.default_config
