-- ===== src/Pool/Enrich.antt =====
-- sparrow-broadcast-pool/src/pool/manager.rs: what a transaction that is shown is told about its
-- locktime and its schedule.
pub mod Shown
use umbrel_apps.Prelude.{
  ℕ, ◌-◌, String, Option, none, some, Bool, true, false, not, ◌&&◌, ◌||◌, List, [], ◌∷◌, Result, ok,
  err, opt_is, is_some, ltb, leb, if◌then◌else◌, get_or,
}
use umbrel_apps.Prelude.Int.{ℤ, pos, sub_ℕ}
use umbrel_apps.Prelude.Float.{F64}
use umbrel_apps.Prelude.Maps.{lookup}
use umbrel_apps.Db.Models.{
  TxStatus, pending, scheduled, broadcast, confirmed, is_status, Row, BroadcastTx,
  map_broadcast_row,
}
use umbrel_apps.Db.Table
use umbrel_apps.Pool.Backend.{
  Backend, Clock, MtpCache, get_median_time_past_cached, locktime_threshold,
}
use umbrel_apps.Pool.Manager.{PoolManager}
use umbrel_apps.Price.{Prices, PriceFeed, cached_prices}

unfoldable pub tx_has_broadcast_schedule : Row → Bool
tx_has_broadcast_schedule tx =
    opt_is tx.broadcast_mode "scheduled"
    || opt_is tx.broadcast_mode "manual"
    || is_some tx.scheduled_time
    || is_some tx.defer_until
    || is_some tx.broadcast_missed_at
    || opt_is tx.schedule_trigger "price"

-- `matches!(tx.status, TxStatus::Pending | TxStatus::Scheduled)`.
abbrev pub is_open : TxStatus → Bool
is_open s = is_status s pending || is_status s scheduled

abbrev pub is_emitted : TxStatus → Bool
is_emitted s = is_status s broadcast || is_status s confirmed

unfoldable pub tx_can_reschedule : Row → Bool
unfolding tx_has_broadcast_schedule
tx_can_reschedule tx = is_open tx.status && tx_has_broadcast_schedule tx

abbrev price_in : Option String → Option Prices → Option F64
price_in none prices = none
price_in (some currency) none = none
price_in (some currency) (some prices) = lookup currency prices

unfoldable pub current_price : PriceFeed → Row → Option F64
current_price feed tx =
    if opt_is tx.schedule_trigger "price"
    then price_in tx.price_currency (cached_prices feed)
    else none

-- The fields set before the locktime is looked at.
unfoldable pub enrich_base : PriceFeed → Row → BroadcastTx
unfolding current_price tx_can_reschedule
enrich_base feed tx = record (map_broadcast_row tx) {
  locktime_deferred = some (is_some tx.broadcast_missed_at && not (is_emitted tx.status));
  can_reschedule = some (not (is_emitted tx.status) && tx_can_reschedule tx);
  current_btc_price = current_price feed tx;
}

-- The fields set once the median time past is known.
unfoldable pub enrich_mtp : ℕ → ℕ → BroadcastTx → BroadcastTx
enrich_mtp nlock mtp tx = record tx {
  chain_mtp = some mtp;
  locktime_satisfied = some (leb nlock mtp);
  locktime_remaining_secs = some (if leb nlock mtp then pos 0 else sub_ℕ nlock mtp);
  locktime_waiting = some (not (is_emitted tx.status) && is_open tx.status && not (leb nlock mtp));
}

unfoldable pub enrich_tx_locktime : Backend → Clock → PoolManager → Row → MtpCache × BroadcastTx
unfolding enrich_base enrich_mtp
enrich_tx_locktime b now m tx =
    let base = enrich_base m.price_feed tx in
    let nlock = get_or tx.nlocktime 0 in
    if ltb locktime_threshold nlock
    then (let targeted = record base { locktime_target = some nlock } in
        let read = get_median_time_past_cached b now m.mtp_cache in
        elim read.1 [
          | ok mtp ↦ (read.0, enrich_mtp nlock mtp targeted)
          | err e ↦ (read.0, targeted)
        ])
    else (m.mtp_cache, record base { locktime_waiting = some false })

-- Read a row, and enrich it.
unfoldable pub show_transaction :
    Backend → Clock → String → PoolManager → PoolManager × Result BroadcastTx
show_transaction b now id m = elim (Table.get_broadcast_tx_by_id id m.db) [
  | err e ↦ (m, err e)
  | ok tx ↦
      (let (cache, shown) = enrich_tx_locktime b now m tx in
        (record m { mtp_cache = cache }, ok shown))
]

unfoldable pub get_transaction :
    Backend → Clock → String → PoolManager → PoolManager × Result BroadcastTx
unfolding show_transaction
get_transaction b now id m = show_transaction b now id m

unfoldable pub enrich_all :
    Backend → Clock → List Row → PoolManager → PoolManager × List BroadcastTx
enrich_all b now [] m = (m, [])
enrich_all b now (tx ∷ txs) m =
    let (cache, shown) = enrich_tx_locktime b now m tx in
    let (m', rest) = enrich_all b now txs (record m { mtp_cache = cache }) in (m', shown ∷ rest)

unfoldable pub list_transactions :
    Backend → Clock → Option String → ℕ → PoolManager → PoolManager × List BroadcastTx
unfolding enrich_all
list_transactions b now status_filter limit m =
    enrich_all b now (Table.list_broadcast_txs status_filter m.config.network limit m.db) m
