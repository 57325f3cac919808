-- ===== src/Price.antt =====
-- sparrow-broadcast-pool/src/price/mod.rs: the feed of bitcoin prices, its cache and its last known
-- good snapshot. What a provider answered (the request and the reading of its body) is a parameter.
pub mod Feed
use umbrel_apps.Prelude.{
  ℕ, ◌*◌, ◌-◌, ◌/◌, String, Option, none, some, Bool, true, false, List, [], ◌∷◌, ◌++◌, Result, ok,
  err, concat, decimal, str_eq, ltb, leb, length, if◌then◌else◌,
}
use umbrel_apps.Prelude.Float.{F64, le_f64}
use umbrel_apps.Db.Models.{DateTime, nanos_per_sec}
use umbrel_apps.Pool.Backend.{Clock}

abbrev pub Prices : Type 0
Prices = List (String × F64)

pub record PriceSnapshot : Type 0 where
  pub prices : Prices
  pub source : String
  pub stale : Bool
  pub fetched_at : DateTime

pub record CachedEntry : Type 0 where
  pub snapshot : PriceSnapshot
  pub cached_at : ℕ

-- The fields under a mutex. The key of CoinMarketCap is with the providers.
pub record PriceFeed : Type 0 where
  pub cache : Option CachedEntry
  pub lkg : Option PriceSnapshot

-- What the `fetch_*` methods return during one call; the last one only with an API key.
pub record Providers : Type 0 where
  pub kraken : Result Prices
  pub coingecko : Result Prices
  pub bitstamp : Result Prices
  pub coinmarketcap : Option (Result Prices)

abbrev pub cache_ttl : ℕ
cache_ttl = 60 * nanos_per_sec

abbrev pub lkg_max_age_secs : ℕ
lkg_max_age_secs = 600

abbrev pub fresh_snapshot : Prices → String → Clock → PriceSnapshot
fresh_snapshot prices source now = record {
  prices = prices;
  source = source;
  stale = false;
  fetched_at = now.utc;
}

-- Whether an answer is used, and the message if it is not.
unfoldable pub accept : String → Result Prices → Result Prices
accept name (err e) = err (concat (name ∷ ": " ∷ e ∷ []))
accept name (ok prices) =
    if leb 2 (length prices) then ok prices else err (concat (name ∷ ": incomplete prices" ∷ []))

unfoldable pub join : String → List String → String
join sep [] = ""
join sep (s ∷ []) = s
join sep (s ∷ t ∷ ss) = concat (s ∷ sep ∷ join sep (t ∷ ss) ∷ [])

unfoldable pub try_coinmarketcap :
    Option (Result Prices) → Clock → List String → Result PriceSnapshot
try_coinmarketcap none now errors = err (join "; " errors)
try_coinmarketcap (some answer) now errors = elim (accept "coinmarketcap" answer) [
  | ok prices ↦ ok (fresh_snapshot prices "coinmarketcap" now)
  | err e ↦ err (join "; " (errors ++ (e ∷ [])))
]

unfoldable pub fetch_fresh : Providers → Clock → Result PriceSnapshot
fetch_fresh p now = elim (accept "kraken" p.kraken) [
  | ok prices ↦ ok (fresh_snapshot prices "kraken" now)
  | err e ↦ elim (accept "coingecko" p.coingecko) [
    | ok prices ↦ ok (fresh_snapshot prices "coingecko" now)
    | err f ↦ elim (accept "bitstamp" p.bitstamp) [
      | ok prices ↦ ok (fresh_snapshot prices "bitstamp" now)
      | err g ↦ try_coinmarketcap p.coinmarketcap now (e ∷ f ∷ g ∷ [])
    ]
  ]
]

abbrev pub age_secs : Clock → PriceSnapshot → ℕ
age_secs now s = (now.utc - s.fetched_at) / nanos_per_sec

unfoldable pub lkg_snapshot : Clock → PriceFeed → Result PriceSnapshot
lkg_snapshot now feed = elim feed.lkg [
  | none ↦ err "No cached BTC price available"
  | some s ↦
      if ltb lkg_max_age_secs (age_secs now s)
      then err (concat ("Cached BTC price too old (" ∷ decimal (age_secs now s) ∷ "s)" ∷ []))
      else ok (record s { stale = true })
]

abbrev pub fresh_entry : Clock → Option CachedEntry → Option PriceSnapshot
fresh_entry now none = none
fresh_entry now (some entry) =
    if ltb (now.instant - entry.cached_at) cache_ttl then some entry.snapshot else none

unfoldable pub fetch_snapshot : Providers → Clock → PriceFeed → PriceFeed × Result PriceSnapshot
fetch_snapshot p now feed = elim (fresh_entry now feed.cache) [
  | some snapshot ↦ (feed, ok snapshot)
  | none ↦ elim (fetch_fresh p now) [
    | ok snapshot ↦ (
      record feed {
        cache = some (record { snapshot = snapshot; cached_at = now.instant });
        lkg = some snapshot;
      },
      ok snapshot,
    )
    | err e ↦ (feed, lkg_snapshot now feed)
  ]
]

unfoldable pub cached_prices : PriceFeed → Option Prices
cached_prices feed = elim feed.cache [ none ↦ none | some entry ↦ some entry.snapshot.prices ]

unfoldable pub price_condition_met : F64 → F64 → String → Bool
price_condition_met current target condition =
    if str_eq condition "below" then le_f64 current target else le_f64 target current
