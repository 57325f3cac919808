-- ===== src/Discovery/Apply/Sound.antt =====
-- The indexer that discovery reports works; and the healing on Umbrel leaves nothing to heal.
use umbrel_apps.Prelude.{
  String, Option, none, some, Bool, true, false, not, ◌&&◌, ◌≡◌, refl, sym, ap, ◌∙◌, inl, inr,
  arith, is_some, if◌then◌else◌, Bool-cases,
}
use umbrel_apps.Config.Settings.{Env, Settings, IndexerConfig, NetworkType}
use umbrel_apps.Discovery.Urls.{is_umbrel_mode}
use umbrel_apps.Discovery.Hosts.{
  Addresses, is_manual, is_mistaken, indexer_host, without_indexer,
  clear_mistaken_umbrel_lan_override, sanitize_umbrel_indexer_config,
}
use umbrel_apps.Discovery.Probe.{Net, resolve_working_indexer_url, discover_umbrel_node_indexer}
use umbrel_apps.Discovery.Probe.Found.{
  Works, Finds, resolve_working_indexer_url-Finds, discover_umbrel_node_indexer-Finds,
  discover_indexer_url-Finds,
}
use umbrel_apps.Discovery.Apply.{
  else_next, resolved, searched, existing, automatic, manual_first, umbrel_first,
  apply_indexer_discovery,
}

module _ (net : Net) (env : Env) (a : Addresses) where
  -- The settings name an indexer that works, as what is expected on their network.
  abbrev pub HasWorking : Settings → Type 0
  HasWorking c = (i : IndexerConfig) × (c.indexer ≡ some i) × Works net c.network_type env i.url

  abbrev Honest : Settings × Bool → Type 0
  Honest (c, b) = b ≡ true → HasWorking c

  else_next-Honest :
      (o : Option String) (manual : Bool) (c : Settings) (next : Settings × Bool)
      → Finds net c.network_type env o
      → Honest next
      → Honest (else_next net env o manual c next)
  else_next-Honest none manual c next f h = h
  else_next-Honest (some url) manual c next f h =
      λ e. (record { url = url; manual_override = manual }, refl, f)

  if-Honest : (b : Bool) (x y : Settings × Bool) → Honest x → Honest y → Honest (if b then x else y)
  if-Honest true x y p q = p
  if-Honest false x y p q = q

  resolved-Finds : (c : Settings) → Finds net c.network_type env (resolved net env c)
  resolved-Finds c = of_indexer c.network_type c.indexer
    where
      of_indexer :
          (network : NetworkType) (o : Option IndexerConfig)
          → Finds net network env
              (elim o [ none ↦ none | some i ↦ resolve_working_indexer_url net env network i.url ])
      of_indexer network none = tt
      of_indexer network (some i) = resolve_working_indexer_url-Finds net network env i.url

  nothing : (c : Settings) → Honest (c, false)
  nothing c = λ e. absurd (ground arith)

  existing-Honest : (c : Settings) → Honest (existing net env a c)
  unfolding existing
  existing-Honest c =
      let search = discover_indexer_url-Finds net c.network_type env a c in
      if-Honest (is_some c.indexer && not (is_manual c.indexer)) _ (c, false)
        (else_next-Honest (resolved net env c) false c _ (resolved-Finds c)
          (else_next-Honest (searched net env a c) false c (c, false) search (nothing c)))
        (nothing c)

  automatic-Honest : (c : Settings) → Honest (automatic net env a c)
  unfolding automatic
  automatic-Honest c =
      else_next-Honest (searched net env a c) false c _
        (discover_indexer_url-Finds net c.network_type env a c) (existing-Honest c)

  manual_first-Honest : (c : Settings) → Honest (manual_first net env a c)
  unfolding manual_first
  manual_first-Honest c =
      if-Honest (is_manual c.indexer) _ (automatic net env a c)
        (else_next-Honest (resolved net env c) true c _ (resolved-Finds c) (automatic-Honest c))
        (automatic-Honest c)

  umbrel_first-Honest : (c : Settings) (cleared : Bool) → Honest (umbrel_first net env a c cleared)
  unfolding umbrel_first
  umbrel_first-Honest c cleared =
      let rest =
        if-Honest cleared (c, false) (manual_first net env a c) (nothing c)
          (manual_first-Honest c) in
      if-Honest (is_manual c.indexer) _ _ rest (
        else_next-Honest (discover_umbrel_node_indexer net env c.network_type) false c _
          (discover_umbrel_node_indexer-Finds net c.network_type env) rest)

  -- Where the environment does not pin the indexer, discovery reports success only with an indexer whose
  -- port is open, that answers, and whose genesis hash is the one that Bitcoin Core tells, or that of
  -- the network of the settings where Core is not set up or tells none.
  pub apply_indexer_discovery-HasWorking :
      (c : Settings)
      → env "BROADCAST_POOL_INDEXER_URL" ≡ none
      → (apply_indexer_discovery net env a c).1 ≡ true
      → HasWorking (apply_indexer_discovery net env a c).0
  unfolding apply_indexer_discovery
  apply_indexer_discovery-HasWorking c free =
      let (c', cleared) = clear_mistaken_umbrel_lan_override env c in
      ap-free _ _ _ free (
        if-Honest (is_umbrel_mode env) (umbrel_first net env a c' cleared)
          (manual_first net env a c) (umbrel_first-Honest c' cleared) (manual_first-Honest c))
    where
      ap-free :
          (o : Option String) (x y : Settings × Bool)
          → o ≡ none
          → Honest y
          → Honest (if is_some o then x else y)
      ap-free o x y e h = rw e h

abbrev sanitized : Bool → Bool → Bool → Settings → Settings × Bool
sanitized umbrel mistaken manual c =
    if not umbrel
    then (c, false)
    else if mistaken
    then (without_indexer c, true)
    else if manual
    then (without_indexer c, true)
    else (c, false)

sanitize-sanitized :
    (env : Env) (c : Settings)
    → sanitize_umbrel_indexer_config env c
      ≡ sanitized (is_umbrel_mode env) (is_mistaken env (indexer_host c)) (is_manual c.indexer) c
unfolding sanitize_umbrel_indexer_config
sanitize-sanitized env c = elim (Bool-cases (is_mistaken env (indexer_host c))) [
  | inl y ↦ rw y refl
  | inr n ↦ rw n refl
]

-- Healing the settings on Umbrel once is enough: a second time changes nothing and says so.
pub sanitize_umbrel_indexer_config_idem :
    (env : Env) (c : Settings)
    → sanitize_umbrel_indexer_config env (sanitize_umbrel_indexer_config env c).0
      ≡ ((sanitize_umbrel_indexer_config env c).0, false)
sanitize_umbrel_indexer_config_idem env c =
    let again = λ (r : Settings × Bool). sanitize_umbrel_indexer_config env r.0 in
    ap again (sanitize-sanitized env c)
    ∙ healed (is_umbrel_mode env) (is_mistaken env (indexer_host c)) (is_manual c.indexer) refl refl
        refl
    ∙ ap (λ (r : Settings × Bool). (r.0, false)) (sym (sanitize-sanitized env c))
  where
    either : (u : Bool) → sanitized u false false (without_indexer c) ≡ (without_indexer c, false)
    either true = refl
    either false = refl

    cleared : sanitize_umbrel_indexer_config env (without_indexer c) ≡ (without_indexer c, false)
    cleared = sanitize-sanitized env (without_indexer c) ∙ either (is_umbrel_mode env)

    healed :
        (u m k : Bool)
        → is_umbrel_mode env ≡ u
        → is_mistaken env (indexer_host c) ≡ m
        → is_manual c.indexer ≡ k
        → sanitize_umbrel_indexer_config env (sanitized u m k c).0 ≡ ((sanitized u m k c).0, false)
    healed false m k eu em ek =
        sanitize-sanitized env c
        ∙ ap (λ u. sanitized u (is_mistaken env (indexer_host c)) (is_manual c.indexer) c) eu
    healed true true k eu em ek = cleared
    healed true false true eu em ek = cleared
    healed true false false eu em ek =
        sanitize-sanitized env c
        ∙ ap (λ u. sanitized u (is_mistaken env (indexer_host c)) (is_manual c.indexer) c) eu
        ∙ ap (λ m. sanitized true m (is_manual c.indexer) c) em
        ∙ ap (λ k. sanitized true false k c) ek
