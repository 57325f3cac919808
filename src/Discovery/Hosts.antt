-- ===== src/Discovery/Hosts.antt =====
-- sparrow-broadcast-pool/src/discovery.rs: the hosts and the ports that are tried, and the mistaken
-- settings that are cleared on Umbrel.
use umbrel_apps.Prelude.{
  ℕ, zero, suc, ◌+◌, String, Option, none, some, Bool, true, false, not, ◌&&◌, ◌||◌, List, [], ◌∷◌,
  ◌++◌, str_eq, is_empty, is_some, get_or, leb, ◌==◌, any, if◌then◌else◌, trim, contains,
  strip_prefix, starts_with, split, parse_u16, parse_u8, concat, decimal, filter,
}
use umbrel_apps.Pool.Manager.{mentions}
use umbrel_apps.Config.Settings.{Env, Settings, IndexerConfig}
use umbrel_apps.Discovery.Urls.{is_umbrel_mode, extract_indexer_host, head_text}

abbrev pub indexer_ports : List ℕ
indexer_ports = 50001 ∷ 50002 ∷ []

unfoldable pub is_plausible_lan_ip : String → Bool
is_plausible_lan_ip ip = not (starts_with ip "127.") && not (starts_with ip "0.") && contains ip "."

unfoldable pub is_likely_docker_bridge : String → Bool
is_likely_docker_bridge ip =
    starts_with ip "10.21." || starts_with ip "172.17." || starts_with ip "172.18."

-- What the system says of its own addresses: the source of the route to 8.8.8.8, and the local
-- addresses of the sockets that could be connected, in the order of the targets.
pub record Addresses : Type 0 where
  pub route : Option String
  pub local : List String

first_lan : List String → Option String
first_lan [] = none
first_lan (ip ∷ ips) =
    let rest = first_lan ips in
    if is_plausible_lan_ip ip && not (is_likely_docker_bridge ip) then some ip else rest

abbrev routed : Addresses → Option String
routed a = elim a.route [
  | none ↦ first_lan a.local
  | some ip ↦ if is_plausible_lan_ip (trim ip) then some (trim ip) else first_lan a.local
]

unfoldable pub detect_lan_ip : Env → Addresses → Option String
unfolding first_lan
detect_lan_ip env a = elim (env "BROADCAST_POOL_LAN_IP") [
  | none ↦ routed a
  | some ip ↦
      if not (is_empty (trim ip)) && is_plausible_lan_ip (trim ip) then some (trim ip) else routed a
]

unfoldable pub resolve_lan_host : Env → Addresses → Settings → Option String
resolve_lan_host env a c = elim c.electrum_server.lan_connect_host [
  | none ↦ detect_lan_ip env a
  | some h ↦ if is_empty (trim h) then detect_lan_ip env a else some (trim h)
]

unfoldable pub wallet_connect_url : Env → Addresses → Settings → ℕ → String
wallet_connect_url env a c port =
    concat (get_or (resolve_lan_host env a c) "<LAN_IP>" ∷ ":" ∷ decimal port ∷ [])

abbrev with_lan_host : Option String → Settings → Settings
with_lan_host none c = c
with_lan_host (some ip) c = record c {
  electrum_server = record c.electrum_server { lan_connect_host = some ip };
}

unfoldable pub apply_lan_ip : Env → Addresses → Settings → Settings
apply_lan_ip env a c = elim c.electrum_server.lan_connect_host [
  | none ↦ with_lan_host (detect_lan_ip env a) c
  | some h ↦ if is_empty (trim h) then with_lan_host (detect_lan_ip env a) c else c
]

unfoldable pub push_unique : List String → String → List String
push_unique hosts host =
    if is_empty host || mentions hosts host then hosts else hosts ++ (host ∷ [])

abbrev pub push_some : List String → Option String → List String
push_some hosts none = hosts
push_some hosts (some h) = push_unique hosts h

abbrev trimmed : Option String → Option String
trimmed none = none
trimmed (some s) = some (trim s)

abbrev pub indexer_host : Settings → Option String
indexer_host c = elim c.indexer [ none ↦ none | some i ↦ extract_indexer_host i.url ]

unfoldable pub umbrel_indexer_hosts : Env → List String
umbrel_indexer_hosts env =
    push_unique (push_some [] (trimmed (env "APP_ELECTRS_NODE_IP"))) "electrs"

-- Known hosts in priority order.
unfoldable pub indexer_host_candidates : Env → Addresses → Settings → List String
unfolding umbrel_indexer_hosts
indexer_host_candidates env a c =
    if is_umbrel_mode env
    then umbrel_indexer_hosts env
    else push_some
        (push_unique
          (push_some (push_some [] (trimmed (env "APP_ELECTRS_NODE_IP"))) (indexer_host c))
          "127.0.0.1")
        (detect_lan_ip env a)

abbrev port_of : Option String → List ℕ
port_of none = []
port_of (some s) = elim (parse_u16 s) [ none ↦ [] | some p ↦ p ∷ [] ]

abbrev pub add_ports : List ℕ → List ℕ → List ℕ
add_ports ports [] = ports
add_ports ports (p ∷ ps) =
    add_ports (if any (λ q. q == p) ports then ports else ports ++ (p ∷ [])) ps

abbrev or_standard : List ℕ → List ℕ
or_standard [] = 50001 ∷ []
or_standard (p ∷ ps) = p ∷ ps

unfoldable pub umbrel_indexer_ports : Env → List ℕ
umbrel_indexer_ports env =
    let ports =
      or_standard
        (port_of (env "APP_ELECTRS_NODE_PORT") ++ port_of (env "APP_ELECTRS_NODE_SSL_PORT")) in
    if is_umbrel_mode env then ports else add_ports ports indexer_ports

unfoldable pub indexer_ports_to_try : Env → List ℕ
unfolding umbrel_indexer_ports
indexer_ports_to_try env =
    if is_umbrel_mode env
    then umbrel_indexer_ports env
    else add_ports (port_of (env "APP_ELECTRS_NODE_PORT")) indexer_ports

-- The octet behind `172.`.
abbrev in_172 : String → Bool
in_172 rest = elim (parse_u8 (head_text (split 46 rest))) [
  | none ↦ false
  | some octet ↦ leb 16 octet && leb octet 31
]

unfoldable pub is_private_lan_host : String → Bool
is_private_lan_host host =
    if starts_with host "192.168."
    then true
    else (elim (strip_prefix "172." host) [ none ↦ false | some rest ↦ in_172 rest ])

abbrev is_lan_ip : Option String → String → Bool
is_lan_ip none host = false
is_lan_ip (some lan) host = str_eq host (trim lan)

-- A wallet's LAN address, which cannot be reached from inside the container.
unfoldable pub is_mistaken_umbrel_lan_override : Env → String → Bool
unfolding is_private_lan_host
is_mistaken_umbrel_lan_override env raw =
    let host = trim raw in
    let node_ip = trim (get_or (env "APP_ELECTRS_NODE_IP") "") in
    if not (is_umbrel_mode env)
    then false
    else if is_empty host
    then false
    else if str_eq host "electrs" || str_eq host "localhost" || str_eq host "127.0.0.1"
    then false
    else if not (is_empty node_ip) && str_eq host node_ip
    then false
    else if starts_with host "10.21."
    then false
    else if is_lan_ip (env "BROADCAST_POOL_LAN_IP") host
    then true
    else is_private_lan_host host

abbrev pub is_mistaken : Env → Option String → Bool
is_mistaken env none = false
is_mistaken env (some host) = is_mistaken_umbrel_lan_override env host

abbrev pub without_indexer : Settings → Settings
without_indexer c = record c { indexer = none }

unfoldable pub clear_mistaken_umbrel_lan_override : Env → Settings → Settings × Bool
clear_mistaken_umbrel_lan_override env c =
    if is_mistaken env (indexer_host c) then (without_indexer c, true) else (c, false)

abbrev pub is_manual : Option IndexerConfig → Bool
is_manual none = false
is_manual (some i) = i.manual_override

-- Remove mistaken URLs of the wallet's LAN and manual overrides; whether anything changed.
unfoldable pub sanitize_umbrel_indexer_config : Env → Settings → Settings × Bool
unfolding clear_mistaken_umbrel_lan_override
sanitize_umbrel_indexer_config env c =
    let (c', cleared) = clear_mistaken_umbrel_lan_override env c in
    if not (is_umbrel_mode env)
    then (c, false)
    else if is_manual c'.indexer
    then (without_indexer c', true)
    else (c', cleared)

unfoldable pub lan_subnet_prefix : String → Option String
lan_subnet_prefix lan_ip = elim (split 46 lan_ip) [
  | a ∷ b ∷ c ∷ d ∷ [] ↦
      if is_some (parse_u8 a)
        && is_some (parse_u8 b)
        && is_some (parse_u8 c)
        && is_some (parse_u8 d)
      then some (concat (a ∷ "." ∷ b ∷ "." ∷ c ∷ []))
      else none
  | _ ↦ none
]

-- `n` hosts of a subnet, the first numbered `from`.
unfoldable pub subnet_hosts : String → ℕ → ℕ → List String
subnet_hosts prefix from zero = []
subnet_hosts prefix from (suc n) =
    concat (prefix ∷ "." ∷ decimal from ∷ []) ∷ subnet_hosts prefix (from + 1) n

unfoldable pub lan_subnet_hosts : String → List String
lan_subnet_hosts lan_ip = elim (lan_subnet_prefix lan_ip) [
  | none ↦ []
  | some prefix ↦ filter (λ h. not (str_eq h lan_ip)) (subnet_hosts prefix 1 254)
]

abbrev subnet_of : Option String → Option String
subnet_of none = none
subnet_of (some ip) = lan_subnet_prefix ip

abbrev no_bridge : Option String → Option String
no_bridge none = none
no_bridge (some ip) = if is_likely_docker_bridge ip then none else some ip

unfoldable pub lan_subnets_to_scan : Env → Addresses → Settings → List String
lan_subnets_to_scan env a c =
    push_some
      (push_some (push_some [] (subnet_of (trimmed (env "BROADCAST_POOL_LAN_IP"))))
        (subnet_of (indexer_host c)))
      (subnet_of (no_bridge (detect_lan_ip env a)))
