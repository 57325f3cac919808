-- ===== src/Examples/Discoveries.antt =====
-- The theorems on the settings and on the discovery of an indexer, applied to concrete settings.
use umbrel_apps.Prelude.{
  none, some, true, ◌≡◌, refl, ok, str_eq, if◌then◌else◌, to_lowercase, [], trim, starts_with,
  rsplit_once, parse_number,
}
use umbrel_apps.Prelude.Json.{object, field, text, no_fields}
use umbrel_apps.Config.Settings.{Env, Settings, mainnet, testnet4, default_config}
use umbrel_apps.Config.Load.{missing, load, apply_env}
use umbrel_apps.Config.Load.Network.{load-main}
use umbrel_apps.Discovery.Urls.{is_umbrel_mode, strip_indexer_scheme}
use umbrel_apps.Discovery.Hosts.{Addresses, clear_mistaken_umbrel_lan_override}
use umbrel_apps.Discovery.Probe.{
  answers, genesis_block_hash_at_url, bitcoin_rpc_genesis_hash, expected_genesis_hash,
  genesis_matches_network_at_url, Net, resolve_working_indexer_url,
}
use umbrel_apps.Discovery.Apply.{with_indexer, apply_indexer_discovery}
use umbrel_apps.Discovery.Apply.Sound.{HasWorking, apply_indexer_discovery-HasWorking}

-- The environment names the network, and nothing else.
abbrev named_main : Env
named_main = λ key. if str_eq key "BROADCAST_POOL_NETWORK" then some "Main" else none

abbrev on_umbrel : Env
on_umbrel = λ key. if str_eq key "BROADCAST_POOL_UMBREL" then some "1" else none

abbrev settings : Settings
settings = with_indexer "tcp://10.0.0.7:50001" true (default_config named_main)

abbrev loaded : Settings
loaded = apply_env named_main (default_config named_main)

load_ok : load named_main "config.toml" missing ≡ ok loaded
unfolding load
load_ok = refl

name_main : to_lowercase "Main" ≡ "main"
unfolding to_lowercase
name_main = refl

load-main_example :
    ((default_config named_main).network_type ≡ mainnet) × (loaded.network_type ≡ testnet4)
load-main_example = load-main named_main "config.toml" "Main" missing loaded refl name_main load_ok

abbrev net : Net
net = record {
  tcp_port_open = λ host port. str_eq host "10.0.0.7";
  json_rpc = λ url method params. ok (
      object (
        field "genesis_hash"
          (text "000000000019d6689c085ae165831e934ff763ae46a2a6c172b3f1b60a8ce26f") no_fields));
  hex_decode = λ s. none;
  header_block_hash = λ raw. none;
  core_genesis_block_hash = λ url user pass. none;
}

abbrev addresses : Addresses
addresses = record { route = some "10.0.0.3"; local = [] }

working : (apply_indexer_discovery net named_main addresses settings).1 ≡ true
unfolding apply_indexer_discovery clear_mistaken_umbrel_lan_override is_umbrel_mode
    resolve_working_indexer_url trim starts_with rsplit_once strip_indexer_scheme parse_number
    bitcoin_rpc_genesis_hash expected_genesis_hash genesis_matches_network_at_url to_lowercase
    default_config answers genesis_block_hash_at_url
working = refl

apply_indexer_discovery-HasWorking_example :
    HasWorking net named_main addresses
      (apply_indexer_discovery net named_main addresses settings).0
apply_indexer_discovery-HasWorking_example =
    apply_indexer_discovery-HasWorking net named_main addresses settings refl working
