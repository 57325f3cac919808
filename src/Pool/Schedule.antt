-- ===== src/Pool/Schedule.antt =====
-- sparrow-broadcast-pool/src/pool/manager.rs: how a user sets when a transaction is sent.
pub mod Rules
pub mod Accepted
pub mod Price
pub mod Trigger
pub mod Delay
use umbrel_apps.Prelude.{
  ℕ, ◌+◌, ◌*◌, ◌/◌, max, String, Option, none, some, Bool, true, false, not, ◌&&◌, ◌||◌, List, [],
  ◌∷◌, ◌++◌, Result, ok, err, get_or, is_some, opt_is, str_eq, concat, decimal, to_lowercase, ltb,
  leb, if◌then◌else◌,
}
use umbrel_apps.Prelude.Float.{F64, of_ℕ, le_f64}
use umbrel_apps.Prelude.Maps.{lookup}
use umbrel_apps.Db.Models.{
  DateTime, nanos_per_sec, TxStatus, scheduled, failed, as_str, is_status, Row, BroadcastTx,
  map_broadcast_row,
}
use umbrel_apps.Db.Table
use umbrel_apps.Db.Table.{Table, update_where, get_broadcast_tx_by_id}
use umbrel_apps.Pool.Backend.{Backend, Clock, MtpCache, locktime_threshold}
use umbrel_apps.Pool.Manager.{PoolManager}
use umbrel_apps.Pool.Enrich.{show_transaction, is_open}
use umbrel_apps.Price.{Prices, price_condition_met}

-- A transaction that had any schedule before is being rescheduled.
unfoldable pub is_reschedule : Row → Bool
is_reschedule tx =
    is_some tx.broadcast_missed_at
    || is_some tx.defer_until
    || is_some tx.scheduled_time
    || opt_is tx.schedule_trigger "price"
    || opt_is tx.broadcast_mode "scheduled"
    || opt_is tx.broadcast_mode "manual"

-- Before a locktime that is a time, nothing can be scheduled.
unfoldable pub is_before_locktime : DateTime → Row → Bool
is_before_locktime scheduled_time tx =
    let n = get_or tx.nlocktime 0 in
    ltb locktime_threshold n && ltb (scheduled_time / nanos_per_sec) n

unfoldable pub reschedule : String → DateTime → F64 → DateTime → Row → Table → Table
unfolding is_reschedule
reschedule id scheduled_time fee_rate now tx t =
    Table.update_reschedule id scheduled_time
      (if is_reschedule tx then some scheduled_time else none) fee_rate now t

unfoldable pub schedule_at :
    Backend → Clock → String → DateTime → F64 → PoolManager → PoolManager × Result BroadcastTx
unfolding is_before_locktime reschedule
schedule_at b now id scheduled_time fee_rate m = elim (get_broadcast_tx_by_id id m.db) [
  | err e ↦ (m, err e)
  | ok tx ↦
      if leb scheduled_time now.utc
      then (m, err "Scheduled time must be in the future")
      else if is_before_locktime scheduled_time tx
      then (
        m,
        err (
            concat (
              "Scheduled time cannot be before nLockTime (unix "
              ∷ decimal (get_or tx.nlocktime 0)
              ∷ "). The network will only accept this transaction when chain MTP reaches the signed nLockTime."
              ∷ [])),
      )
      else show_transaction b now id
          (record m { db = reschedule id scheduled_time fee_rate now.utc tx m.db })
]

-- The texts of one of two names, in lower case.
abbrev pub one_of : String → String → String → Option String
one_of a b s =
    let lower = to_lowercase s in if str_eq lower a || str_eq lower b then some lower else none

abbrev price_refusal : Row → Option String
price_refusal tx =
    if not (is_open tx.status)
    then some
        (concat ("Cannot set price trigger on transaction in status " ∷ as_str tx.status ∷ []))
    else if not (opt_is tx.broadcast_mode "manual")
    then some "Price trigger scheduling is only available for manual (pending) transactions"
    else if ltb 0 (get_or tx.nlocktime 0)
    then some "Price trigger scheduling is only available when nLockTime is disabled (0)"
    else none

set_price_trigger :
    Backend
    → Clock
    → String
    → F64
    → String
    → String
    → F64
    → PoolManager
    → PoolManager × Result BroadcastTx
set_price_trigger b now id target_price currency condition fee_rate m =
    elim (get_broadcast_tx_by_id id m.db) [
      | err e ↦ (m, err e)
      | ok tx ↦ elim (price_refusal tx) [
        | some e ↦ (m, err e)
        | none ↦ show_transaction b now id (record m {
          db = Table.update_price_schedule id target_price currency condition fee_rate now.utc m.db;
        })
      ]
    ]

unfoldable pub schedule_by_price :
    Backend
    → Clock
    → String
    → F64
    → String
    → String
    → F64
    → PoolManager
    → PoolManager × Result BroadcastTx
unfolding set_price_trigger
schedule_by_price b now id target_price price_currency price_condition fee_rate m =
    if le_f64 target_price (of_ℕ 0)
    then (m, err "Target price must be positive")
    else elim (one_of "eur" "usd" price_currency) [
      | none ↦ (m, err "price_currency must be eur or usd")
      | some currency ↦ elim (one_of "above" "below" price_condition) [
        | none ↦ (m, err "price_condition must be above or below")
        | some condition ↦ set_price_trigger b now id target_price currency condition fee_rate m
      ]
    ]

-- The present price that a waiting transaction is compared with, and its target.
abbrev pub trigger_prices : Prices → Row → Option (F64 × F64)
trigger_prices prices tx = elim tx.target_price [
  | none ↦ none
  | some target ↦ elim (lookup (get_or tx.price_currency "usd") prices) [
    | none ↦ none
    | some current ↦ some (current, target)
  ]
]

unfoldable pub is_triggered : Prices → Row → Bool
is_triggered prices tx = elim (trigger_prices prices tx) [
  | none ↦ false
  | some (current, target) ↦ price_condition_met current target (get_or tx.price_condition "above")
]

-- The loop, with the number of transactions that were triggered.
unfoldable pub trigger_loop : Prices → DateTime → List Row → ℕ → Table → Table × ℕ
trigger_loop prices now [] triggered t = (t, triggered)
trigger_loop prices now (tx ∷ txs) triggered t =
    if is_triggered prices tx
    then trigger_loop prices now txs (triggered + 1) (Table.mark_due_from_price_trigger tx.id now t)
    else trigger_loop prices now txs triggered t

unfoldable pub check_price_triggers : Prices → Clock → PoolManager → PoolManager × ℕ
unfolding trigger_loop
check_price_triggers prices now m =
    let waiting = Table.get_price_triggered_pending m.config.network m.db in
    let (db', triggered) = trigger_loop prices now.utc waiting 0 m.db in
    (record m { db = db' }, triggered)

unfoldable pub retry_failed_transaction :
    Backend → Clock → String → PoolManager → PoolManager × Result BroadcastTx
retry_failed_transaction b now id m = elim (get_broadcast_tx_by_id id m.db) [
  | err e ↦ (m, err e)
  | ok tx ↦
      if not (is_status tx.status failed)
      then (m, err (concat ("Transaction " ∷ id ∷ " is not in failed state" ∷ [])))
      else (elim (Table.reset_failed_to_scheduled id now.utc m.db) [
        | err e ↦ (m, err e)
        | ok db' ↦ show_transaction b now id (record m { db = db' })
      ])
]
