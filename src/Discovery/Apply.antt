-- ===== src/Discovery/Apply.antt =====
-- sparrow-broadcast-pool/src/discovery.rs: what discovery does to the settings.
pub mod Sound
use umbrel_apps.Prelude.{
  ℕ, ◌-◌, ◌*◌, String, Option, none, some, Bool, true, false, not, ◌&&◌, ◌||◌, List, [], ◌∷◌, ◌++◌,
  map, Result, ok, err, is_some, is_empty, get_or, ltb, if◌then◌else◌, trim, contains, concat,
  decimal,
}
use umbrel_apps.Db.Models.{nanos_per_sec}
use umbrel_apps.Config.Settings.{
  Env, Settings, IndexerConfig, NetworkType, mainnet, testnet4, signet, data_dir_name,
}
use umbrel_apps.Discovery.Urls.{is_umbrel_mode, display_indexer_url, network_from_bitcoin_chain}
use umbrel_apps.Discovery.Hosts.{
  Addresses, is_manual, clear_mistaken_umbrel_lan_override, sanitize_umbrel_indexer_config,
  umbrel_indexer_hosts, umbrel_indexer_ports,
}
use umbrel_apps.Discovery.Probe.{
  Net, HostProbe, HostProbeFailure, found, failed, refused, mismatch, try_host,
  resolve_working_indexer_url, discover_umbrel_node_indexer, discover_indexer_url,
}

abbrev pub with_indexer : String → Bool → Settings → Settings
with_indexer url manual c = record c {
  indexer = some (record { url = url; manual_override = manual });
}

-- Sync the network from Bitcoin Core, which may not answer; `none` is no RPC.
unfoldable pub apply_network_from_rpc : Option (Result String) → Settings → Settings
apply_network_from_rpc none c = c
apply_network_from_rpc (some (err e)) c = c
apply_network_from_rpc (some (ok chain)) c = record c {
  network_type = network_from_bitcoin_chain chain;
}

abbrev cooldown : ℕ
cooldown = 45 * nanos_per_sec

-- `last` is the instant of the last discovery, and `now` that of this call.
abbrev in_cooldown : Option ℕ → ℕ → Bool
in_cooldown none now = false
in_cooldown (some last) now = ltb (now - last) cooldown

discovered : Option String → Settings → Bool → Settings × Bool
discovered none c changed = (c, changed)
discovered (some url) c changed = (with_indexer url false c, true)

module _ (net : Net) (env : Env) where
  -- Discover Umbrel electrs when missing; `force` skips the cooldown. The instant that is kept, the
  -- settings, and whether they changed.
  unfoldable pub discover_umbrel_if_needed :
      Option ℕ → ℕ → Bool → Settings → Option ℕ × (Settings × Bool)
  unfolding discovered
  discover_umbrel_if_needed last now force c =
      let (c', changed) = sanitize_umbrel_indexer_config env c in
      if not (is_umbrel_mode env)
      then (last, (c, false))
      else if is_some c'.indexer
      then (last, (c', changed))
      else if not force && in_cooldown last now
      then (last, (c', changed))
      else (some now, discovered (discover_umbrel_node_indexer net env c'.network_type) c' changed)

  unfoldable pub heal_umbrel_indexer_config : Option ℕ → ℕ → Settings → Option ℕ × (Settings × Bool)
  heal_umbrel_indexer_config last now c = discover_umbrel_if_needed last now true c

  -- What a search found, or the next step.
  abbrev pub else_next : Option String → Bool → Settings → Settings × Bool → Settings × Bool
  else_next none manual c next = next
  else_next (some url) manual c next = (with_indexer url manual c, true)

  abbrev resolved : Settings → Option String
  resolved c = elim c.indexer [
    | none ↦ none
    | some i ↦ resolve_working_indexer_url net env c.network_type i.url
  ]

  module _ (a : Addresses) where
    abbrev searched : Settings → Option String
    searched c = discover_indexer_url net env a c.network_type c

    -- Of an indexer that was not found, the one that is set is tried, if it is not manual.
    existing : Settings → Settings × Bool
    existing c =
        if is_some c.indexer && not (is_manual c.indexer)
        then else_next (resolved c) false c (else_next (searched c) false c (c, false))
        else (c, false)

    automatic : Settings → Settings × Bool
    unfolding existing
    automatic c = else_next (searched c) false c (existing c)

    manual_first : Settings → Settings × Bool
    unfolding automatic
    manual_first c =
        if is_manual c.indexer then else_next (resolved c) true c (automatic c) else automatic c

    -- On Umbrel the node's own indexer comes first.
    umbrel_first : Settings → Bool → Settings × Bool
    unfolding manual_first
    umbrel_first c cleared =
        let rest = if cleared then (c, false) else manual_first c in
        if is_manual c.indexer
        then rest
        else else_next (discover_umbrel_node_indexer net env c.network_type) false c rest

    -- Discover the indexer unless the environment pins it; whether there is one that works.
    unfoldable pub apply_indexer_discovery : Settings → Settings × Bool
    unfolding umbrel_first
    apply_indexer_discovery c =
        let (c', cleared) = clear_mistaken_umbrel_lan_override env c in
        if is_some (env "BROADCAST_POOL_INDEXER_URL")
        then (c, is_some c.indexer)
        else if is_umbrel_mode env
        then umbrel_first c' cleared
        else manual_first c

-- Why no host could be used: a mismatch, if one was seen. `none` is a host that works.
abbrev worse : HostProbe → Option HostProbeFailure → Option HostProbeFailure
worse (found url) rest = none
worse (failed f) none = none
worse (failed mismatch) (some g) = some mismatch
worse (failed refused) (some g) = some g

unfoldable pub hosts_failure :
    Net → Env → NetworkType → List ℕ → List String → Option HostProbeFailure
hosts_failure net env network ports [] = some refused
hosts_failure net env network ports (host ∷ hosts) =
    worse (try_host net env network host ports) (hosts_failure net env network ports hosts)

-- There is always a host to look at.
unfoldable pub umbrel_electrs_probe_failure : Net → Env → NetworkType → Option HostProbeFailure
unfolding hosts_failure
umbrel_electrs_probe_failure net env network =
    hosts_failure net env network (umbrel_indexer_ports env) (umbrel_indexer_hosts env)

abbrev pub network_mismatch_hint : NetworkType → String
network_mismatch_hint signet =
    "Electrs responds but is not on signet — reinstall or reconfigure Electrs for signet (must match Bitcoin Core chain=signet)"
network_mismatch_hint mainnet =
    "Electrs responds but is not on mainnet — verify Electrs matches Bitcoin Core"
network_mismatch_hint testnet4 =
    "Electrs responds but is not on testnet — verify Electrs matches Bitcoin Core"

abbrev joined_ports : List ℕ → String
joined_ports [] = ""
joined_ports (p ∷ []) = decimal p
joined_ports (p ∷ q ∷ ps) = concat (decimal p ∷ "/" ∷ joined_ports (q ∷ ps) ∷ [])

abbrev port_list : List ℕ → String
port_list (p ∷ []) = concat (" " ∷ decimal p ∷ [])
port_list ps = concat ("s " ∷ joined_ports ps ∷ [])

abbrev hint_of :
    Env → NetworkType → String → Option IndexerConfig → Option HostProbeFailure → String
hint_of env network ip indexer (some mismatch) = network_mismatch_hint network
hint_of env network ip indexer (some refused) = concat (
    "Cannot reach electrs at "
    ∷ ip
    ∷ " (TCP refused on port"
    ∷ port_list (umbrel_indexer_ports env)
    ∷ ") — ensure the Electrs container is running and fully started"
    ∷ [])
hint_of env network ip (some i) none =
    concat
      ("Indexer " ∷ display_indexer_url i.url ∷ " not responding — check Electrs is running" ∷ [])
hint_of env network ip none none = concat (
    "Cannot reach electrs at " ∷ ip ∷ " (ports 50001/50002) — ensure Electrs is synced and running"
    ∷ [])

unfoldable pub umbrel_indexer_status_hint : Net → Env → Settings → Bool → String
unfolding umbrel_electrs_probe_failure
umbrel_indexer_status_hint net env c connected =
    let ip = trim (get_or (env "APP_ELECTRS_NODE_IP") "") in
    if not (is_umbrel_mode env)
    then ""
    else if connected
    then ""
    else if is_empty ip || contains ip "${"
    then "APP_ELECTRS_NODE_IP is not set — install Electrs and list it as a dependency"
    else hint_of env c.network_type ip c.indexer
        (umbrel_electrs_probe_failure net env c.network_type)
