-- ===== src/Examples/Prices.antt =====
-- The theorems on the price feed, applied to a few answers.
use umbrel_apps.Prelude.{none, false, [], ◌∷◌, ◌≡◌, ◌≢◌, refl, ok, err, arith}
use umbrel_apps.Prelude.Float.{of_ℕ}
use umbrel_apps.Price.{
  Prices, PriceSnapshot, PriceFeed, Providers, accept, fetch_fresh, fetch_snapshot,
}
use umbrel_apps.Price.Feed.{
  IsOutcome, fetch_fresh-IsOutcome, first_accepted, answers, Source, fetch_snapshot-Source,
}
use umbrel_apps.Examples.{now}

abbrev prices : Prices
prices = ("eur", of_ℕ 95_000) ∷ ("usd", of_ℕ 105_000) ∷ []

abbrev providers : Providers
providers = record {
  kraken = err "timeout";
  coingecko = ok (("eur", of_ℕ 95_000) ∷ []);
  bitstamp = ok prices;
  coinmarketcap = none;
}

abbrev feed : PriceFeed
feed = record { cache = none; lkg = none }

abbrev fetched : PriceSnapshot
fetched = record { prices = prices; source = "bitstamp"; stale = false; fetched_at = now.utc }

got : (fetch_snapshot providers now feed).1 ≡ ok fetched
unfolding fetch_snapshot fetch_fresh accept
got = refl

fetch_snapshot-Source_example : Source providers now feed fetched
fetch_snapshot-Source_example = fetch_snapshot-Source providers now feed fetched got

answered : first_accepted (answers providers) ≢ none
unfolding accept
answered e = ground arith

fetch_fresh-IsOutcome_example : IsOutcome providers now (fetch_fresh providers now)
fetch_fresh-IsOutcome_example = fetch_fresh-IsOutcome providers now
