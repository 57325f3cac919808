-- ===== src/Scheduler/Prices.antt =====
-- What a pass of the price monitor does to the store: it goes by live prices only.
use umbrel_apps.Prelude.{
  if◌then◌else◌, String, Option, none, some, map, ◌≡◌, sym, ap, subst, ◌∙◌, inl, inr, Result, ok,
  err, arith, Option-cases, Bool-cases, refl, Result-cases,
}
use umbrel_apps.Db.Table.{Table}
use umbrel_apps.Db.Table.Update.{Distinct}
use umbrel_apps.Pool.Backend.{Clock}
use umbrel_apps.Pool.Manager.{PoolManager}
use umbrel_apps.Pool.Schedule.{check_price_triggers}
use umbrel_apps.Pool.Schedule.Trigger.{trigger_row, check_price_triggers-db}
use umbrel_apps.Price.{
  Prices, PriceSnapshot, PriceFeed, Providers, lkg_snapshot, fresh_entry, fetch_snapshot,
}
use umbrel_apps.Price.Feed.{
  answers, first_accepted, IsGoodFeed, fetch_fresh-first_accepted, fetch_fresh-IsGood,
  fetch_snapshot-IsGoodFeed,
}
use umbrel_apps.Scheduler.{price_pass}

-- The prices of now: those cached for less than a minute, or else the first accepted answer.
abbrev pub live_prices : Providers → Clock → PriceFeed → Option Prices
live_prices p now feed = elim (fresh_entry now feed.cache) [
  | some snapshot ↦ some snapshot.prices
  | none ↦ elim (first_accepted (answers p)) [ none ↦ none | some (name, prices) ↦ some prices ]
]

abbrev pub at_prices : Option Prices → Clock → String → Table → Table
at_prices none now network t = t
at_prices (some prices) now network t = map (trigger_row prices now.utc network) t

-- What the snapshot makes of the live prices: none if it is stale or missing.
abbrev pub live_of : Result PriceSnapshot → Option Prices
live_of (err e) = none
live_of (ok s) = if s.stale then none else some s.prices

fetch_snapshot-live_of :
    (p : Providers) (now : Clock) (feed : PriceFeed)
    → IsGoodFeed feed
    → live_of (fetch_snapshot p now feed).1 ≡ live_prices p now feed
unfolding fetch_snapshot lkg_snapshot
fetch_snapshot-live_of p now feed g = elim (Option-cases (fresh_entry now feed.cache)) [
  | inr (s, e) ↦ ground arith
  | inl e ↦ ground (arith, fetch_fresh-first_accepted p now, fetch_fresh-IsGood p now)
]

pub price_pass-live_of :
    (p : Providers) (now : Clock) (m : PoolManager)
    → Distinct m.db
    → (price_pass p now m).0.db
      ≡ at_prices (live_of (fetch_snapshot p now m.price_feed).1) now m.config.network m.db
unfolding price_pass
price_pass-live_of p now m d = elim (Result-cases (fetch_snapshot p now m.price_feed).1) [
  | inr (e, f) ↦ rw (f, price_pass) refl
  | inl (s, f) ↦ elim (Bool-cases s.stale) [
    | inl y ↦ rw (f, price_pass) (rw y refl)
    | inr n ↦
        let fetched = record m { price_feed = (fetch_snapshot p now m.price_feed).0 } in
        rw (f, price_pass) (rw n (check_price_triggers-db s.prices now fetched d).0)
  ]
]

price_pass-feed :
    (p : Providers) (now : Clock) (m : PoolManager)
    → (price_pass p now m).0.price_feed ≡ (fetch_snapshot p now m.price_feed).0
unfolding price_pass check_price_triggers
price_pass-feed p now m = ground arith

-- Only live prices fire triggers. On distinct ids and a feed that keeps good snapshots only, a pass
-- of the price monitor makes those transactions due whose price is met by the prices cached for less
-- than a minute, or else by the first provider with two prices or more; with neither it changes no
-- row, whatever the last good snapshot says. The feed stays good.
pub price_pass-db :
    (p : Providers) (now : Clock) (m : PoolManager)
    → IsGoodFeed m.price_feed
    → Distinct m.db
    → ((price_pass p now m).0.db
        ≡ at_prices (live_prices p now m.price_feed) now m.config.network m.db)
      × IsGoodFeed (price_pass p now m).0.price_feed
price_pass-db p now m g d = (
  price_pass-live_of p now m d
      ∙ ap (λ o. at_prices o now m.config.network m.db)
          (fetch_snapshot-live_of p now m.price_feed g),
  subst IsGoodFeed (sym (price_pass-feed p now m)) (fetch_snapshot-IsGoodFeed p now m.price_feed g),
)
