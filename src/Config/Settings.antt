-- ===== src/Config/Settings.antt =====
-- sparrow-broadcast-pool/src/config.rs: the settings, and their defaults as the environment changes
-- them. `env` is the environment of the process.
use umbrel_apps.Prelude.{
  ℕ, String, Option, none, some, Bool, true, false, ◌||◌, str_eq, is_empty, get_or, or_else,
  if◌then◌else◌, to_lowercase, trim, parse_u16,
}
use umbrel_apps.Prelude.Float.{F64, of_ℕ}
use umbrel_apps.Config.{BroadcastMode, immediate}

pub data NetworkType : Type 0 where
  mainnet testnet4 signet : NetworkType

abbrev pub default_port : NetworkType → ℕ
default_port mainnet = 8332
default_port testnet4 = 48332
default_port signet = 38332

abbrev pub data_dir_name : NetworkType → String
data_dir_name mainnet = "mainnet"
data_dir_name testnet4 = "testnet4"
data_dir_name signet = "signet"

abbrev pub genesis_hash : NetworkType → String
genesis_hash mainnet = "000000000019d6689c085ae165831e934ff763ae46a2a6c172b3f1b60a8ce26f"
genesis_hash testnet4 = "000000000933ea01ad0ee984209779baaec3ced90fa537f92f5ac0adcf472867"
genesis_hash signet = "00000008819873e925632181568121be59ecd5df7a9c348375d874564ae96f681"

abbrev pub display_name : NetworkType → String
display_name mainnet = "Mainnet"
display_name testnet4 = "Testnet 4"
display_name signet = "Signet"

pub record IndexerConfig : Type 0 where
  pub url : String
  pub manual_override : Bool

pub record BitcoinRpcConfig : Type 0 where
  pub url : String
  pub user : String
  pub password : String

pub record PoolConfig : Type 0 where
  pub max_size_kb : ℕ
  pub rebroadcast_interval_minutes : ℕ
  pub expiry_days : ℕ

pub record ScheduleConfig : Type 0 where
  pub broadcast_mode : BroadcastMode
  pub default_delay_hours : ℕ
  pub scheduled_datetime : Option String
  pub min_delay_hours : ℕ
  pub max_delay_hours : ℕ
  pub min_fee_rate : F64
  pub max_fee_rate : F64

pub record PrivacyConfig : Type 0 where
  pub use_tor : Bool
  pub tor_socks_port : ℕ
  pub rotate_identity_per_tx : Bool

pub record WebConfig : Type 0 where
  pub host : String
  pub port : ℕ

pub record ElectrumServerConfig : Type 0 where
  pub host : String
  pub port : ℕ
  pub liana_port : Option ℕ
  pub lan_connect_host : Option String

pub record Settings : Type 0 where
  pub network_type : NetworkType
  pub bitcoin_rpc : Option BitcoinRpcConfig
  pub indexer : Option IndexerConfig
  pub pool : PoolConfig
  pub schedule : ScheduleConfig
  pub privacy : PrivacyConfig
  pub web : WebConfig
  pub electrum_server : ElectrumServerConfig

abbrev pub Env : Type 0
Env = String → Option String

-- The names that the defaults know; any other is testnet4.
abbrev pub default_network : String → NetworkType
default_network name =
    let n = to_lowercase name in
    if str_eq n "mainnet" || str_eq n "main"
    then mainnet
    else if str_eq n "signet"
    then signet
    else testnet4

abbrev parsed : Option String → Option ℕ
parsed none = none
parsed (some s) = parse_u16 s

abbrev pub named : Option String → NetworkType
named none = testnet4
named (some name) = default_network name

abbrev default_indexer : Option String → Option IndexerConfig
default_indexer none = none
default_indexer (some url) = some (record { url = url; manual_override = false })

abbrev default_rpc : Env → Option String → Option BitcoinRpcConfig
default_rpc env none = none
default_rpc env (some url) = some (record {
  url = url;
  user = get_or (env "BROADCAST_POOL_RPC_USER") "";
  password = get_or (env "BROADCAST_POOL_RPC_PASS") "";
})

-- `filter(|s| !s.trim().is_empty())`.
abbrev pub not_blank : Option String → Option String
not_blank none = none
not_blank (some s) = if is_empty (trim s) then none else some s

unfoldable pub default_config : Env → Settings
default_config env = record {
  network_type = named (or_else (env "BROADCAST_POOL_NETWORK") (env "APP_BITCOIN_NETWORK"));
  bitcoin_rpc = default_rpc env (env "BROADCAST_POOL_RPC_URL");
  indexer = default_indexer (env "BROADCAST_POOL_INDEXER_URL");
  pool = record { max_size_kb = 300; rebroadcast_interval_minutes = 30; expiry_days = 14 };
  schedule = record {
    broadcast_mode = immediate;
    default_delay_hours = 24;
    scheduled_datetime = none;
    min_delay_hours = 2;
    max_delay_hours = 72;
    min_fee_rate = of_ℕ 1;
    max_fee_rate = of_ℕ 50;
  };
  privacy = record { use_tor = false; tor_socks_port = 9050; rotate_identity_per_tx = true };
  web = record {
    host = get_or (env "BROADCAST_POOL_WEB_HOST") "127.0.0.1";
    port = get_or (parse_u16 (get_or (env "BROADCAST_POOL_WEB_PORT") "8080")) 8080;
  };
  electrum_server = record {
    host = get_or (env "BROADCAST_POOL_ELECTRUM_HOST") "0.0.0.0";
    port = get_or (parse_u16 (get_or (env "BROADCAST_POOL_ELECTRUM_PORT") "50050")) 50050;
    liana_port = parsed (env "BROADCAST_POOL_LIANA_ELECTRUM_PORT");
    lan_connect_host = not_blank (env "BROADCAST_POOL_LAN_IP");
  };
}
