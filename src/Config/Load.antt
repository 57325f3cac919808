-- ===== src/Config/Load.antt =====
-- sparrow-broadcast-pool/src/config.rs: `Config::load`, the settings of the file with what the
-- environment overrides.
pub mod Network
use umbrel_apps.Prelude.{
  ℕ, String, Option, none, some, false, ◌||◌, ◌≡◌, refl, Result, ok, err, str_eq, is_empty, get_or,
  if◌then◌else◌, to_lowercase, trim, parse_u16, concat, [], ◌∷◌,
}
use umbrel_apps.Config.Settings.{
  Env, Settings, NetworkType, mainnet, testnet4, signet, BitcoinRpcConfig, default_config,
}

-- What is found at the path of the configuration; what `toml` reads is a parameter.
pub data ConfigFile : Type 0 where
  missing unreadable unparsed : ConfigFile
  parsed : Settings → ConfigFile

-- `if let Ok(v) = std::env::var(..)`.
abbrev pub with_var : (String → Settings → Settings) → Option String → Settings → Settings
with_var f none c = c
with_var f (some v) c = f v c

abbrev empty_rpc : BitcoinRpcConfig
empty_rpc = record { url = ""; user = ""; password = "" }

abbrev set_rpc_url : String → Settings → Settings
set_rpc_url url c = record c {
  bitcoin_rpc = some (record (get_or c.bitcoin_rpc empty_rpc) { url = url });
}

abbrev map_rpc : (BitcoinRpcConfig → BitcoinRpcConfig) → Settings → Settings
map_rpc f c = record c {
  bitcoin_rpc = elim c.bitcoin_rpc [ none ↦ none | some rpc ↦ some (f rpc) ];
}

abbrev set_indexer_url : String → Settings → Settings
set_indexer_url url c = record c { indexer = some (record { url = url; manual_override = false }) }

abbrev set_lan_ip : String → Settings → Settings
set_lan_ip ip c = if is_empty (trim ip) then c else record c {
  electrum_server = record c.electrum_server { lan_connect_host = some (trim ip) };
}

abbrev pub pool_network : String → NetworkType
pool_network name =
    let n = to_lowercase name in
    if str_eq n "mainnet" then mainnet else if str_eq n "signet" then signet else testnet4

-- A name that the node does not know keeps the network.
abbrev pub app_network : String → NetworkType → NetworkType
app_network name old =
    let n = to_lowercase name in
    if str_eq n "mainnet"
    then mainnet
    else if str_eq n "signet"
    then signet
    else if str_eq n "testnet" || str_eq n "testnet3" || str_eq n "testnet4"
    then testnet4
    else old

abbrev set_network : Option String → Option String → Settings → Settings
set_network (some name) app c = record c { network_type = pool_network name }
set_network none (some name) c = record c { network_type = app_network name c.network_type }
set_network none none c = c

abbrev with_port : (ℕ → Settings → Settings) → String → Settings → Settings
with_port f s c = elim (parse_u16 s) [ none ↦ c | some p ↦ f p c ]

-- The overrides from the environment, in the order of the code: up to the network, and behind it.
unfoldable pub before_network : Env → Settings → Settings
before_network env c0 =
    let c1 = with_var set_rpc_url (env "BROADCAST_POOL_RPC_URL") c0 in
    let c2 =
      with_var (λ v. map_rpc (λ rpc. record rpc { user = v })) (env "BROADCAST_POOL_RPC_USER") c1 in
    let c3 =
      with_var (λ v. map_rpc (λ rpc. record rpc { password = v })) (env "BROADCAST_POOL_RPC_PASS")
        c2 in
    let c4 = with_var set_indexer_url (env "BROADCAST_POOL_INDEXER_URL") c3 in
    with_var set_lan_ip (env "BROADCAST_POOL_LAN_IP") c4

abbrev set_web_host : String → Settings → Settings
set_web_host v c = record c { web = record c.web { host = v } }

abbrev set_web_port : ℕ → Settings → Settings
set_web_port p c = record c { web = record c.web { port = p } }

abbrev set_electrum_host : String → Settings → Settings
set_electrum_host v c = record c { electrum_server = record c.electrum_server { host = v } }

abbrev set_electrum_port : ℕ → Settings → Settings
set_electrum_port p c = record c { electrum_server = record c.electrum_server { port = p } }

abbrev set_liana_port : ℕ → Settings → Settings
set_liana_port p c = record c { electrum_server = record c.electrum_server { liana_port = some p } }

unfoldable pub after_network : Env → Settings → Settings
after_network env c6 =
    let c7 = with_var set_web_host (env "BROADCAST_POOL_WEB_HOST") c6 in
    let c8 = with_var (with_port set_web_port) (env "BROADCAST_POOL_WEB_PORT") c7 in
    let c9 = with_var set_electrum_host (env "BROADCAST_POOL_ELECTRUM_HOST") c8 in
    let c10 = with_var (with_port set_electrum_port) (env "BROADCAST_POOL_ELECTRUM_PORT") c9 in
    with_var (with_port set_liana_port) (env "BROADCAST_POOL_LIANA_ELECTRUM_PORT") c10

unfoldable pub apply_env : Env → Settings → Settings
unfolding before_network after_network
apply_env env c =
    after_network env (
      set_network (env "BROADCAST_POOL_NETWORK") (env "APP_BITCOIN_NETWORK") (before_network env c))

-- `path` is shown in the errors.
unfoldable pub load : Env → String → ConfigFile → Result Settings
unfolding apply_env default_config
load env path missing = ok (apply_env env (default_config env))
load env path unreadable = err (concat ("Failed to read config file: " ∷ path ∷ []))
load env path unparsed = err (concat ("Failed to parse config file: " ∷ path ∷ []))
load env path (parsed c) = ok (apply_env env c)
