-- ===== src/Examples/Passes.antt =====
-- The theorems on the passes of the scheduler's loops, applied to a small pool.
use umbrel_apps.Prelude.{none, some, [], ◌∷◌, length, ◌≡◌, refl, ok, err, arith, is_ok, true, false}
use umbrel_apps.Prelude.Float.{of_ℕ}
use umbrel_apps.Db.Models.{nanos_per_sec, pending, confirmed, Row}
use umbrel_apps.Db.Table.{get_broadcast_tx_by_id}
use umbrel_apps.Db.Table.Update.{Distinct}
use umbrel_apps.Pool.Manager.{PoolManager}
use umbrel_apps.Price.{
  PriceSnapshot, Prices, Providers, fetch_snapshot, fetch_fresh, accept, try_coinmarketcap,
  lkg_snapshot,
}
use umbrel_apps.Price.Feed.{IsGoodFeed}
use umbrel_apps.Scheduler.{Pass, broadcast_pass, confirmation_pass, price_pass}
use umbrel_apps.Scheduler.Prices.{at_prices, live_prices, price_pass-db}
use umbrel_apps.Scheduler.Final.{
  LoopSteps, done, next, by_broadcast, by_confirmation, by_price, LoopSteps-confirmed,
}
use umbrel_apps.Examples.{now, node, ripe, sent_out, manager}

abbrev settled : Row
settled = record sent_out {
  id = "tx-5";
  status = confirmed;
  confirmed_at = some 7;
  block_height = some 800_000;
}

-- Waits for a price of 90000 dollars or more.
abbrev priced : Row
priced = record ripe {
  id = "tx-6";
  status = pending;
  schedule_trigger = some "price";
  target_price = some (of_ℕ 90_000);
  price_currency = some "usd";
  price_condition = some "above";
}

abbrev prices : Prices
prices = ("eur", of_ℕ 85_000) ∷ ("usd", of_ℕ 95_000) ∷ []

abbrev providers : Providers
providers = record {
  kraken = ok prices;
  coingecko = err "timeout";
  bitstamp = err "timeout";
  coinmarketcap = none;
}

abbrev silent : Providers
silent = record providers { kraken = err "timeout" }

abbrev last_good : PriceSnapshot
last_good = record { prices = prices; source = "kraken"; stale = false; fetched_at = now.utc }

abbrev store : PoolManager
store = record manager {
  db = ripe ∷ sent_out ∷ settled ∷ priced ∷ [];
  price_feed = record { cache = none; lkg = some last_good };
}

store-Distinct : Distinct store.db
store-Distinct = (refl, (refl, (refl, (refl, tt))))

store-IsGoodFeed : IsGoodFeed store.price_feed
store-IsGoodFeed = (tt, (refl, omega arith))

price_pass-db_example :
    ((price_pass providers now store).0.db
      ≡ at_prices (live_prices providers now store.price_feed) now "mainnet" store.db)
    × IsGoodFeed (price_pass providers now store).0.price_feed
price_pass-db_example = price_pass-db providers now store store-IsGoodFeed store-Distinct

-- With no provider the last good snapshot is handed out, and fires nothing.
stale_answer : is_ok (fetch_snapshot silent now store.price_feed).1 ≡ true
unfolding fetch_snapshot fetch_fresh accept try_coinmarketcap lkg_snapshot
stale_answer = refl

stale_fires_nothing : (price_pass silent now store).0.db ≡ store.db
unfolding accept
stale_fires_nothing = (price_pass-db silent now store store-IsGoodFeed store-Distinct).0

abbrev pass : Pass
pass = record { backend = node; clock = now; took = 7 }

abbrev ticked : PoolManager
ticked = (broadcast_pass pass nanos_per_sec store).0

abbrev checked : PoolManager
checked = (confirmation_pass node now ticked).0

abbrev triggered : PoolManager
triggered = (price_pass providers now checked).0

passes : LoopSteps store triggered
passes =
    next (by_broadcast pass nanos_per_sec)
      (next (by_confirmation node now) (next (by_price providers now) done))

settled_found : get_broadcast_tx_by_id "tx-5" store.db ≡ ok settled
unfolding get_broadcast_tx_by_id
settled_found = refl

LoopSteps-confirmed_example :
    (s : Row) × (get_broadcast_tx_by_id "tx-5" triggered.db ≡ ok s)
    × (settled.status ≡ confirmed → s ≡ settled)
    × Distinct triggered.db
    × (length triggered.db ≡ 4)
LoopSteps-confirmed_example =
    LoopSteps-confirmed store triggered "tx-5" settled passes store-Distinct (omega arith)
      settled_found
