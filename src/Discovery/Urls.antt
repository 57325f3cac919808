-- ===== src/Discovery/Urls.antt =====
-- sparrow-broadcast-pool/src/discovery.rs: the URLs of indexers. Code 58 is `:`, and 46 is a dot.
use umbrel_apps.Prelude.{
  ℕ, String, Option, none, some, Bool, false, not, ◌&&◌, ◌||◌, List, [], ◌∷◌, str_eq, is_empty,
  is_some, get_or, or_else, ◌==◌, if◌then◌else◌, to_lowercase, trim, contains, strip_prefix,
  starts_with, rsplit_once, split, parse_u16, parse_number, concat, decimal, ◌≡◌, refl,
}
use umbrel_apps.Config.Settings.{Env, NetworkType, mainnet, testnet4, signet}

-- Bitcoin Core's name of the chain; one that is not known is testnet4.
unfoldable pub network_from_bitcoin_chain : String → NetworkType
network_from_bitcoin_chain chain =
    let c = to_lowercase chain in
    if str_eq c "main" then mainnet else if str_eq c "signet" then signet else testnet4

unfoldable pub strip_indexer_scheme : String → String
strip_indexer_scheme url =
    get_or (or_else (strip_prefix "tcp://" url) (strip_prefix "ssl://" url)) url

unfoldable pub default_scheme_for_port : ℕ → String
default_scheme_for_port port = if port == 50002 then "ssl" else "tcp"

-- On Umbrel, by either variable.
unfoldable pub is_umbrel_mode : Env → Bool
is_umbrel_mode env =
    (elim (env "BROADCAST_POOL_UMBREL") [
      | none ↦ false
      | some v ↦ str_eq v "1" || str_eq (to_lowercase v) "true"
    ])
    || (elim (env "APP_ELECTRS_NODE_IP") [ none ↦ false | some v ↦ not (is_empty (trim v)) ])

unfoldable pub indexer_url_uses_ssl : String → Bool
indexer_url_uses_ssl url = starts_with (trim url) "ssl://"

abbrev pub has_scheme : String → Bool
has_scheme url = starts_with url "tcp://" || starts_with url "ssl://"

-- Host and port, where the text behind the last colon is a port.
abbrev pub host_port : String → Option (String × ℕ)
host_port s = elim (rsplit_once 58 s) [
  | none ↦ none
  | some (host, port) ↦ elim (parse_u16 port) [ none ↦ none | some p ↦ some (host, p) ]
]

abbrev pub url_of : String → String → ℕ → String
url_of scheme host port = concat (scheme ∷ "://" ∷ host ∷ ":" ∷ decimal port ∷ [])

unfoldable pub normalize_indexer_url : String → String
normalize_indexer_url raw =
    let trimmed = trim raw in
    let plain = concat ("tcp://" ∷ trimmed ∷ []) in
    if is_empty trimmed
    then ""
    else if has_scheme trimmed
    then trimmed
    else (elim (host_port trimmed) [
      | none ↦ plain
      | some (host, port) ↦
          if is_empty (trim host)
          then plain
          else url_of (default_scheme_for_port port) (trim host) port
    ])

-- `use_ssl` overrides the scheme that the port implies.
unfoldable pub normalize_indexer_url_with_scheme : String → Option Bool → String
unfolding normalize_indexer_url
normalize_indexer_url_with_scheme raw use_ssl =
    let trimmed = trim raw in
    if is_empty trimmed then "" else if has_scheme trimmed then trimmed else (elim use_ssl [
      | none ↦ normalize_indexer_url trimmed
      | some ssl ↦ elim (host_port trimmed) [
        | none ↦ normalize_indexer_url trimmed
        | some (host, port) ↦
            if is_empty (trim host)
            then normalize_indexer_url trimmed
            else url_of (if ssl then "ssl" else "tcp") (trim host) port
      ]
    ])

unfoldable pub display_indexer_url : String → String
display_indexer_url url = trim (strip_indexer_scheme url)

-- A variable that is set, and not to a placeholder.
unfoldable pub env_nonempty : Env → String → Option String
env_nonempty env key = elim (env key) [
  | none ↦ none
  | some v ↦ if is_empty (trim v) || contains (trim v) "${" then none else some (trim v)
]

unfoldable pub umbrel_electrs_ssl_configured : Env → Bool
unfolding env_nonempty
umbrel_electrs_ssl_configured env = is_some (env_nonempty env "APP_ELECTRS_NODE_SSL_PORT")

unfoldable pub tcp_only : Env → Bool
unfolding is_umbrel_mode umbrel_electrs_ssl_configured
tcp_only env = is_umbrel_mode env && not (umbrel_electrs_ssl_configured env)

-- All TCP/SSL combinations of a host and ports.
unfoldable pub candidate_urls_for_host : Env → String → List ℕ → List String
candidate_urls_for_host env host [] = []
candidate_urls_for_host env host (p ∷ ps) =
    let rest = candidate_urls_for_host env host ps in
    url_of "tcp" host p ∷ (if tcp_only env then rest else url_of "ssl" host p ∷ rest)

unfoldable pub candidate_urls_for_host_port : Env → String → ℕ → List String
candidate_urls_for_host_port env host port =
    if tcp_only env
    then url_of "tcp" host port ∷ []
    else if port == 50002
    then url_of "ssl" host port ∷ url_of "tcp" host port ∷ []
    else url_of "tcp" host port ∷ url_of "ssl" host port ∷ []

unfoldable pub connection_url_candidates : Env → String → List String
connection_url_candidates env raw =
    let trimmed = trim raw in
    if is_empty trimmed then [] else (elim (host_port (trim (strip_indexer_scheme trimmed))) [
      | some (host, port) ↦ candidate_urls_for_host_port env (trim host) port
      | none ↦ if has_scheme trimmed then trimmed ∷ [] else concat ("tcp://" ∷ trimmed ∷ []) ∷ []
    ])

abbrev pub head_text : List String → String
head_text [] = ""
head_text (s ∷ ss) = s

unfoldable pub extract_indexer_host : String → Option String
extract_indexer_host url =
    let bare = trim (strip_indexer_scheme url) in
    let host = trim (head_text (split 58 bare)) in
    if is_empty bare then none else if is_empty host then none else some host

normalize_example : normalize_indexer_url "192.168.50.97:50002" ≡ "ssl://192.168.50.97:50002"
unfolding normalize_indexer_url strip_prefix trim starts_with rsplit_once decimal
    default_scheme_for_port parse_number
normalize_example = refl
