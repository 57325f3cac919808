-- ===== src/Discovery/Probe/Found.antt =====
-- What a search finds works.
use umbrel_apps.Prelude.{
  ◌⊎◌, inl, inr, sym, ap, ◌∙◌, to_lowercase, get_or, eq_iff, Option-cases, String, Option, none,
  some, Bool, true, false, List, [], ◌∷◌, ◌≡◌, refl, arith, ℕ, is_empty, or_else, if◌then◌else◌,
  trim,
}
use umbrel_apps.Config.Settings.{genesis_hash, Env, Settings, NetworkType}
use umbrel_apps.Discovery.Urls.{has_scheme, candidate_urls_for_host, is_umbrel_mode}
use umbrel_apps.Discovery.Hosts.{
  Addresses, umbrel_indexer_hosts, umbrel_indexer_ports, indexer_ports_to_try,
  indexer_host_candidates, lan_subnets_to_scan,
}
use umbrel_apps.Discovery.Probe.{
  answers, genesis_block_hash_at_url, bitcoin_rpc_genesis_hash, expected_genesis_hash,
  genesis_matches_network_at_url, tcp_reachable_from_url, Net, HostProbe, IndexerProbeOutcome,
  tcp_refused, rpc_failed, genesis_mismatch, probe_ok, probe_indexer_url, indexer_matches_network,
  next_url, try_urls, try_host, found_url, try_hosts_ports, try_host_port,
  resolve_working_indexer_url, env_keys, from_variable, from_variables,
  discover_umbrel_node_indexer, open_hosts, broader_ports, scan_subnets, discover_indexer_url,
}

module _ (net : Net) (network : NetworkType) (env : Env) where
  -- The genesis hash that Bitcoin Core tells, or that of the network where Core tells none.
  abbrev pub IsExpected : String → Type 0
  IsExpected hash =
      (bitcoin_rpc_genesis_hash net env ≡ some hash)
      ⊎ ((bitcoin_rpc_genesis_hash net env ≡ none) × (hash ≡ to_lowercase (genesis_hash network)))

  -- The port is reached, an indexer answers at the URL, and its genesis hash is the expected one.
  abbrev pub Works : String → Type 0
  Works url =
      (tcp_reachable_from_url net url ≡ true)
      × (answers net url ≡ true)
      × ((hash : String) × (genesis_block_hash_at_url net url ≡ some hash) × IsExpected hash)

  genesis-IsExpected :
      (hash : String) → hash ≡ expected_genesis_hash net env network → IsExpected hash
  unfolding expected_genesis_hash
  genesis-IsExpected hash h = elim (Option-cases (bitcoin_rpc_genesis_hash net env)) [
    | inl e ↦ inr (e, h ∙ ap (λ o. get_or o (to_lowercase (genesis_hash network))) e)
    | inr (g, e) ↦
        inl (e ∙ ap some (sym (h ∙ ap (λ o. get_or o (to_lowercase (genesis_hash network))) e)))
  ]

  matches-Works :
      (url : String)
      → tcp_reachable_from_url net url ≡ true
      → answers net url ≡ true
      → genesis_matches_network_at_url net env network url ≡ true
      → Works url
  unfolding genesis_matches_network_at_url
  matches-Works url reached replied matches =
      elim (Option-cases (genesis_block_hash_at_url net url)) [
        | inl e ↦ ground arith
        | inr (hash, e) ↦ (
          reached,
          replied,
          (hash, e, genesis-IsExpected hash ((eq_iff hash _).0 (ground arith))),
        )
      ]

  probe-Works : (url : String) → probe_indexer_url net env network url ≡ probe_ok → Works url
  unfolding probe_indexer_url
  probe-Works url h = matches-Works url (ground arith) (ground arith) (ground arith)

  -- A search finds nothing, or what works.
  abbrev pub Finds : Option String → Type 0
  Finds none = Unit
  Finds (some url) = Works url

  pub or_else-Finds : (o p : Option String) → Finds o → Finds p → Finds (or_else o p)
  or_else-Finds none p h k = k
  or_else-Finds (some url) p h k = h

  indexer_matches-Works :
      (url : String) → indexer_matches_network net env network url ≡ true → Works url
  unfolding indexer_matches_network
  indexer_matches-Works url h = matches-Works url (ground arith) (ground arith) (ground arith)

  next_url-Finds :
      (outcome : IndexerProbeOutcome) (url : String) (saw : Bool) (rest seen : HostProbe)
      → probe_indexer_url net env network url ≡ outcome
      → Finds (found_url rest)
      → Finds (found_url seen)
      → Finds (found_url (next_url outcome url saw rest seen))
  next_url-Finds tcp_refused url saw rest seen e h k = h
  next_url-Finds rpc_failed url saw rest seen e h k = h
  next_url-Finds genesis_mismatch url saw rest seen e h k = k
  next_url-Finds probe_ok url saw rest seen e h k = probe-Works url e

  try_urls-Finds :
      (urls : List String) (saw : Bool) → Finds (found_url (try_urls net env network urls saw))
  unfolding try_urls
  try_urls-Finds [] saw = tt
  try_urls-Finds (url ∷ urls) saw =
      next_url-Finds (probe_indexer_url net env network url) url saw _ _ refl
        (try_urls-Finds urls saw) (try_urls-Finds urls true)

  try_hosts_ports-Finds :
      (hosts : List String) (ports : List ℕ) → Finds (try_hosts_ports net env network hosts ports)
  unfolding try_hosts_ports
  try_hosts_ports-Finds [] ports = tt
  try_hosts_ports-Finds (host ∷ hosts) ports =
      or_else-Finds _ (try_hosts_ports net env network hosts ports)
        (try_urls-Finds (candidate_urls_for_host env host ports) false)
        (try_hosts_ports-Finds hosts ports)

  try_host_port-Finds : (hp : Option (String × ℕ)) → Finds (try_host_port net env network hp)
  unfolding try_host
  try_host_port-Finds none = tt
  try_host_port-Finds (some (host, port)) =
      try_urls-Finds (candidate_urls_for_host env (trim host) (port ∷ [])) false

  pub if-Finds : (b : Bool) (o p : Option String) → Finds o → Finds p → Finds (if b then o else p)
  if-Finds true o p h k = h
  if-Finds false o p h k = k

  if_matches-Finds :
      (b : Bool) (url : String) (p : Option String)
      → (b ≡ true → Works url)
      → Finds p
      → Finds (if b then some url else p)
  if_matches-Finds true url p h k = h refl
  if_matches-Finds false url p h k = k

  pub resolve_working_indexer_url-Finds :
      (raw : String) → Finds (resolve_working_indexer_url net env network raw)
  unfolding resolve_working_indexer_url
  resolve_working_indexer_url-Finds raw = if-Finds (is_empty (trim raw)) none _ tt (
      if-Finds (has_scheme (trim raw)) _ _
        (if_matches-Finds (indexer_matches_network net env network (trim raw)) (trim raw) _
          (indexer_matches-Works (trim raw)) (try_host_port-Finds _))
        (try_host_port-Finds _))

  from_variable-Finds : (v : Option String) → Finds (from_variable net env network v)
  from_variable-Finds none = tt
  from_variable-Finds (some raw) =
      if-Finds _ none (resolve_working_indexer_url net env network (trim raw)) tt
        (resolve_working_indexer_url-Finds (trim raw))

  from_variables-Finds : (keys : List String) → Finds (from_variables net env network keys)
  unfolding from_variables
  from_variables-Finds [] = tt
  from_variables-Finds (key ∷ keys) =
      or_else-Finds (from_variable net env network (env key)) _ (from_variable-Finds (env key))
        (from_variables-Finds keys)

  pub discover_umbrel_node_indexer-Finds : Finds (discover_umbrel_node_indexer net env network)
  unfolding discover_umbrel_node_indexer
  discover_umbrel_node_indexer-Finds =
      or_else-Finds (from_variables net env network (env_keys env)) _
        (from_variables-Finds (env_keys env))
        (try_hosts_ports-Finds (umbrel_indexer_hosts env) (umbrel_indexer_ports env))

  scan_subnets-Finds :
      (ports : List ℕ) (prefixes : List String)
      → Finds (scan_subnets net env network ports prefixes)
  unfolding scan_subnets
  scan_subnets-Finds ports [] = tt
  scan_subnets-Finds ports (prefix ∷ prefixes) =
      or_else-Finds (try_hosts_ports net env network (open_hosts net prefix ports 1 254) ports) _
        (try_hosts_ports-Finds _ ports) (scan_subnets-Finds ports prefixes)

  pub discover_indexer_url-Finds :
      (a : Addresses) (c : Settings) → Finds (discover_indexer_url net env a network c)
  unfolding discover_indexer_url
  discover_indexer_url-Finds a c =
      let ports = indexer_ports_to_try env in
      let subnets = lan_subnets_to_scan env a c in
      if-Finds (is_umbrel_mode env) (discover_umbrel_node_indexer net env network) _
        discover_umbrel_node_indexer-Finds
        (or_else-Finds (try_hosts_ports net env network (indexer_host_candidates env a c) ports) _
          (try_hosts_ports-Finds (indexer_host_candidates env a c) ports)
          (or_else-Finds (scan_subnets net env network ports subnets) _
            (scan_subnets-Finds ports subnets) (scan_subnets-Finds broader_ports subnets)))
