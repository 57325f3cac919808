-- ===== src/Config/Load/Network.antt =====
-- Which network the settings name once the environment has overridden them.
use umbrel_apps.Prelude.{
  ℕ, String, Option, none, some, ◌≡◌, refl, sym, ap, ◌∙◌, inl, inr, Result, ok, err, to_lowercase,
  parse_u16, or_else, Option-cases,
}
use umbrel_apps.Config.Settings.{
  Env, Settings, NetworkType, mainnet, testnet4, default_config, named,
}
use umbrel_apps.Config.Load.{
  ConfigFile, missing, unreadable, unparsed, parsed, with_var, with_port, set_network, pool_network,
  set_web_host, set_web_port, set_electrum_host, set_electrum_port, set_liana_port, after_network,
  before_network, apply_env, load,
}

with_var-network :
    (f : String → Settings → Settings) (o : Option String) (c : Settings)
    → ((v : String) → (f v c).network_type ≡ c.network_type)
    → (with_var f o c).network_type ≡ c.network_type
with_var-network f none c h = refl
with_var-network f (some v) c h = h v

with_port-network :
    (f : ℕ → Settings → Settings) (v : String) (c : Settings)
    → ((p : ℕ) → (f p c).network_type ≡ c.network_type)
    → (with_port f v c).network_type ≡ c.network_type
with_port-network f v c h = elim (Option-cases (parse_u16 v)) [
  | inl e ↦ rw (e, with_port) refl
  | inr (p, e) ↦ rw (e, with_port) (h p)
]

after_network-network :
    (env : Env) (c : Settings) → (after_network env c).network_type ≡ c.network_type
unfolding after_network
after_network-network env c =
    let c7 = with_var set_web_host (env "BROADCAST_POOL_WEB_HOST") c in
    let c8 = with_var (with_port set_web_port) (env "BROADCAST_POOL_WEB_PORT") c7 in
    let c9 = with_var set_electrum_host (env "BROADCAST_POOL_ELECTRUM_HOST") c8 in
    let c10 = with_var (with_port set_electrum_port) (env "BROADCAST_POOL_ELECTRUM_PORT") c9 in
    with_var-network (with_port set_liana_port) _ c10
      (λ v. with_port-network set_liana_port v c10 (λ p. refl))
    ∙ with_var-network (with_port set_electrum_port) _ c9
        (λ v. with_port-network set_electrum_port v c9 (λ p. refl))
    ∙ with_var-network set_electrum_host _ c8 (λ v. refl)
    ∙ with_var-network (with_port set_web_port) _ c7
        (λ v. with_port-network set_web_port v c7 (λ p. refl))
    ∙ with_var-network set_web_host _ c (λ v. refl)

apply_env-network :
    (env : Env) (name : String) (c : Settings)
    → env "BROADCAST_POOL_NETWORK" ≡ some name
    → (apply_env env c).network_type ≡ pool_network name
unfolding apply_env
apply_env-network env name c h =
    after_network-network env _
    ∙ ap (λ o. (set_network o (env "APP_BITCOIN_NETWORK") (before_network env c)).network_type) h

abbrev network_of : Result Settings → Option NetworkType
network_of (ok c) = some c.network_type
network_of (err e) = none

some_inv : {a b : NetworkType} → some a ≡ some b → a ≡ b
some_inv h = cc

-- Whatever the file says, the network that the pool's own variable names is the one in use.
pub load-network :
    (env : Env) (path name : String) (file : ConfigFile) (c : Settings)
    → env "BROADCAST_POOL_NETWORK" ≡ some name
    → load env path file ≡ ok c
    → c.network_type ≡ pool_network name
unfolding load
load-network env path name missing c h e =
    some_inv (sym (ap network_of e) ∙ ap some (apply_env-network env name (default_config env) h))
load-network env path name unreadable c h e = cc
load-network env path name unparsed c h e = cc
load-network env path name (parsed d) c h e =
    some_inv (sym (ap network_of e) ∙ ap some (apply_env-network env name d h))

-- Where the pool's own variable names the network `main`, the defaults read it as mainnet, but the
-- overrides that follow read it as testnet4: without a file, and with one, testnet4 is in use.
pub load-main :
    (env : Env) (path name : String) (file : ConfigFile) (c : Settings)
    → env "BROADCAST_POOL_NETWORK" ≡ some name
    → to_lowercase name ≡ "main"
    → load env path file ≡ ok c
    → ((default_config env).network_type ≡ mainnet) × (c.network_type ≡ testnet4)
unfolding default_config
load-main env path name file c h e l = (
  ap (λ o. named (or_else o (env "APP_BITCOIN_NETWORK"))) h ∙ rw e refl,
  load-network env path name file c h l ∙ rw e refl,
)
