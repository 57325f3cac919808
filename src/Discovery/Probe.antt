-- ===== src/Discovery/Probe.antt =====
-- sparrow-broadcast-pool/src/discovery.rs: probing the candidates, with what rpc/electrum.rs and
-- rpc/indexer_transport.rs ask of an indexer for it. What the network answers is a
-- parameter.
pub mod Found
use umbrel_apps.Prelude.{
  ℕ, zero, suc, ◌+◌, String, Option, none, some, Bool, true, false, ◌||◌, List, [], ◌∷◌, any,
  is_empty, or_else, if◌then◌else◌, to_lowercase, str_eq, get_or, Result, ok, err, is_ok, trim,
  rsplit_once, contains, concat, decimal,
}
use umbrel_apps.Prelude.Int.{pos}
use umbrel_apps.Prelude.Json.{Json, text, array, int, no_items, items_of, get, as_str}
use umbrel_apps.Config.Settings.{genesis_hash, Env, Settings, NetworkType}
use umbrel_apps.Discovery.Urls.{
  strip_indexer_scheme, host_port, has_scheme, candidate_urls_for_host, is_umbrel_mode,
  env_nonempty, umbrel_electrs_ssl_configured,
}
use umbrel_apps.Discovery.Hosts.{
  Addresses, umbrel_indexer_hosts, umbrel_indexer_ports, indexer_ports_to_try,
  indexer_host_candidates, lan_subnets_to_scan, push_unique,
}

-- Whether a TCP port of a host is open; what the indexer at a URL answers to a method with its
-- parameters; the crates' decoding of hex and the hash of a block's header; and the genesis hash that
-- Bitcoin Core tells, at a URL for a user with a password.
pub record Net : Type 0 where
  pub tcp_port_open : String → ℕ → Bool
  pub json_rpc : String → String → Json → Result Json
  pub hex_decode : String → Option (List ℕ)
  pub header_block_hash : List ℕ → Option String
  pub core_genesis_block_hash : String → String → String → Option String

pub data IndexerProbeOutcome : Type 0 where
  tcp_refused rpc_failed genesis_mismatch probe_ok : IndexerProbeOutcome

unfoldable pub tcp_reachable_from_url : Net → String → Bool
tcp_reachable_from_url net url = elim (host_port (trim (strip_indexer_scheme url))) [
  | none ↦ false
  | some (host, port) ↦ net.tcp_port_open host port
]

-- `probe_working_url(&[url]).is_some()`.
unfoldable pub answers : Net → String → Bool
answers net url =
    is_ok (
      net.json_rpc url "server.version"
        (array (items_of (text "broadcast-pool" ∷ text "1.4" ∷ []))))

-- The hash among the features of a server, if it tells one.
told_hash : Result Json → Option String
told_hash (err e) = none
told_hash (ok features) = elim (get "genesis_hash" features) [
  | none ↦ none
  | some v ↦ elim (as_str v) [
    | none ↦ none
    | some s ↦ (let hash = to_lowercase (trim s) in if is_empty hash then none else some hash)
  ]
]

-- The hash of the header that a server gives.
header_hash : Net → Result Json → Option String
header_hash net (err e) = none
header_hash net (ok v) = elim (as_str v) [
  | none ↦ none
  | some header_hex ↦ elim (net.hex_decode header_hex) [
    | none ↦ none
    | some raw ↦ elim (net.header_block_hash raw) [
      | none ↦ none
      | some hash ↦ some (to_lowercase hash)
    ]
  ]
]

-- Read genesis hash from electrs: from its features, or else from the header of block 0.
unfoldable pub genesis_block_hash_at_url : Net → String → Option String
unfolding told_hash header_hash
genesis_block_hash_at_url net url =
    or_else (told_hash (net.json_rpc url "server.features" (array no_items))) (
      header_hash net
        (net.json_rpc url "blockchain.block.header" (array (items_of (int (pos 0) ∷ [])))))

unfoldable pub bitcoin_rpc_genesis_hash : Net → Env → Option String
bitcoin_rpc_genesis_hash net env = elim (env "BROADCAST_POOL_RPC_URL") [
  | none ↦ none
  | some url ↦ elim (env "BROADCAST_POOL_RPC_USER") [
    | none ↦ none
    | some user ↦ elim (env "BROADCAST_POOL_RPC_PASS") [
      | none ↦ none
      | some pass ↦ net.core_genesis_block_hash url user pass
    ]
  ]
]

-- Expected genesis hash: from Bitcoin Core, else built-in.
unfoldable pub expected_genesis_hash : Net → Env → NetworkType → String
expected_genesis_hash net env network =
    get_or (bitcoin_rpc_genesis_hash net env) (to_lowercase (genesis_hash network))

unfoldable pub genesis_matches_network_at_url : Net → Env → NetworkType → String → Bool
genesis_matches_network_at_url net env network url = elim (genesis_block_hash_at_url net url) [
  | none ↦ false
  | some actual ↦ str_eq actual (expected_genesis_hash net env network)
]

unfoldable pub probe_indexer_url : Net → Env → NetworkType → String → IndexerProbeOutcome
unfolding tcp_reachable_from_url
probe_indexer_url net env network url =
    if tcp_reachable_from_url net url
    then (if answers net url
        then if genesis_matches_network_at_url net env network url
          then probe_ok
          else genesis_mismatch
        else rpc_failed)
    else tcp_refused

unfoldable pub indexer_matches_network : Net → Env → NetworkType → String → Bool
unfolding tcp_reachable_from_url
indexer_matches_network net env network url =
    if tcp_reachable_from_url net url
    then if answers net url then genesis_matches_network_at_url net env network url else false
    else false

pub data HostProbeFailure : Type 0 where
  refused mismatch : HostProbeFailure

pub data HostProbe : Type 0 where
  found : String → HostProbe
  failed : HostProbeFailure → HostProbe

abbrev failure : Bool → HostProbeFailure
failure true = mismatch
failure false = refused

-- What a probe leads to, with the rest of the loop for each value of `saw_genesis_mismatch`.
abbrev next_url : IndexerProbeOutcome → String → Bool → HostProbe → HostProbe → HostProbe
next_url probe_ok url saw rest seen = found url
next_url tcp_refused url saw rest seen = rest
next_url rpc_failed url saw rest seen = rest
next_url genesis_mismatch url saw rest seen = seen

-- The loop over the URLs of a host.
unfoldable pub try_urls : Net → Env → NetworkType → List String → Bool → HostProbe
try_urls net env network [] saw = failed (failure saw)
try_urls net env network (url ∷ urls) saw =
    let rest = try_urls net env network urls saw in
    let seen = try_urls net env network urls true in
    next_url (probe_indexer_url net env network url) url saw rest seen

unfoldable pub try_host : Net → Env → NetworkType → String → List ℕ → HostProbe
unfolding try_urls
try_host net env network host ports =
    try_urls net env network (candidate_urls_for_host env host ports) false

abbrev pub found_url : HostProbe → Option String
found_url (found url) = some url
found_url (failed f) = none

unfoldable pub try_hosts_ports : Net → Env → NetworkType → List String → List ℕ → Option String
unfolding try_host
try_hosts_ports net env network [] ports = none
try_hosts_ports net env network (host ∷ hosts) ports =
    or_else (found_url (try_host net env network host ports))
      (try_hosts_ports net env network hosts ports)

-- One host and port, by every scheme.
abbrev pub try_host_port : Net → Env → NetworkType → Option (String × ℕ) → Option String
try_host_port net env network none = none
try_host_port net env network (some (host, port)) =
    found_url (try_host net env network (trim host) (port ∷ []))

unfoldable pub resolve_working_indexer_url : Net → Env → NetworkType → String → Option String
unfolding indexer_matches_network
resolve_working_indexer_url net env network raw =
    let trimmed = trim raw in
    if is_empty trimmed
    then none
    else if has_scheme trimmed
    then (if indexer_matches_network net env network trimmed
        then some trimmed
        else try_host_port net env network (host_port (strip_indexer_scheme trimmed)))
    else try_host_port net env network (host_port trimmed)

-- The variables that may name the indexer of the node, in order.
abbrev pub env_keys : Env → List String
env_keys env =
    if umbrel_electrs_ssl_configured env
      || (elim (env_nonempty env "BROADCAST_POOL_UMBREL_ELECTRS_SSL") [
        | none ↦ false
        | some v ↦ true
      ])
    then "BROADCAST_POOL_UMBREL_ELECTRS_TCP" ∷ "BROADCAST_POOL_UMBREL_ELECTRS_SSL"
      ∷ "BROADCAST_POOL_INDEXER_URL" ∷ []
    else "BROADCAST_POOL_UMBREL_ELECTRS_TCP" ∷ "BROADCAST_POOL_INDEXER_URL" ∷ []

abbrev from_variable : Net → Env → NetworkType → Option String → Option String
from_variable net env network none = none
from_variable net env network (some raw) =
    if is_empty (trim raw) || contains (trim raw) "${"
    then none
    else resolve_working_indexer_url net env network (trim raw)

unfoldable pub from_variables : Net → Env → NetworkType → List String → Option String
from_variables net env network [] = none
from_variables net env network (key ∷ keys) =
    or_else (from_variable net env network (env key)) (from_variables net env network keys)

-- Connect only to the Umbrel electrs container.
unfoldable pub discover_umbrel_node_indexer : Net → Env → NetworkType → Option String
unfolding from_variables
discover_umbrel_node_indexer net env network =
    or_else (from_variables net env network (env_keys env))
      (try_hosts_ports net env network (umbrel_indexer_hosts env) (umbrel_indexer_ports env))

-- The hosts of a subnet with one of the ports open, `n` of them looked at.
unfoldable pub open_hosts : Net → String → List ℕ → ℕ → ℕ → List String
open_hosts net prefix ports from zero = []
open_hosts net prefix ports from (suc n) =
    let host = concat (prefix ∷ "." ∷ decimal from ∷ []) in
    let rest = open_hosts net prefix ports (from + 1) n in
    if any (net.tcp_port_open host) ports then host ∷ rest else rest

abbrev pub broader_ports : List ℕ
broader_ports =
    50000 ∷ 50001 ∷ 50002 ∷ 50003 ∷ 50004 ∷ 50005 ∷ 50006 ∷ 50007 ∷ 50008 ∷ 50009 ∷ 50010 ∷ []

-- The subnets in turn, each with the hosts that have one of the ports open.
unfoldable pub scan_subnets : Net → Env → NetworkType → List ℕ → List String → Option String
unfolding open_hosts
scan_subnets net env network ports [] = none
scan_subnets net env network ports (prefix ∷ prefixes) =
    or_else (try_hosts_ports net env network (open_hosts net prefix ports 1 254) ports)
      (scan_subnets net env network ports prefixes)

-- Known hosts, then each LAN subnet, then a broader range of ports.
unfoldable pub discover_indexer_url : Net → Env → Addresses → NetworkType → Settings → Option String
unfolding scan_subnets discover_umbrel_node_indexer
discover_indexer_url net env a network c =
    let ports = indexer_ports_to_try env in
    let subnets = lan_subnets_to_scan env a c in
    if is_umbrel_mode env
    then discover_umbrel_node_indexer net env network
    else or_else (try_hosts_ports net env network (indexer_host_candidates env a c) ports) (
        or_else (scan_subnets net env network ports subnets)
          (scan_subnets net env network broader_ports subnets))
