-- ===== src/Pool/Due.antt =====
-- sparrow-broadcast-pool/src/pool/manager.rs: which transactions are due, and the scheduler's tick.
pub mod Loop
pub mod Tick
pub mod Safety
pub mod Progress
pub mod Moves
pub mod Pending
use umbrel_apps.Prelude.{
  ℕ, ◌+◌, String, Option, none, some, Bool, true, false, not, ◌&&◌, ◌||◌, List, [], ◌∷◌, ◌++◌, map,
  Result, ok, err, ok_or, get_or, opt_is, contains, to_lowercase, ltb, leb, ◌==◌, if◌then◌else◌,
  is_some, filter,
}
use umbrel_apps.Prelude.Float.{F64, of_ℕ}
use umbrel_apps.Db.Models.{DateTime, TxStatus, pending, scheduled, failed, as_str, is_status, Row}
use umbrel_apps.Db.Table
use umbrel_apps.Db.Table.{Table, time_reached}
use umbrel_apps.Pool.Backend.{
  Backend, Clock, MtpCache, indexer_healthy, broadcast_transaction, get_median_time_past_cached,
  is_locktime_satisfied, locktime_threshold,
}
use umbrel_apps.Pool.Manager.{PoolManager, mark_broadcast}

-- Errors after which the broadcast is tried again.
unfoldable pub is_retriable_broadcast_error : String → Bool
is_retriable_broadcast_error msg =
    let m = to_lowercase msg in
    contains m "non-final"
    || contains m "non final"
    || contains m "not final"
    || contains m "locktime"
    || contains m "too-long-mempool-chain"

-- Waiting for a fiat price, which the price monitor marks due.
abbrev pub waits_for_price : Row → Bool
waits_for_price tx = opt_is tx.schedule_trigger "price" && is_status tx.status pending

-- Whether the time of the next attempt has come: the deferral's, if there is one.
abbrev pub attempt_reached : DateTime → Row → Bool
attempt_reached now tx = elim tx.defer_until [
  | some defer_until ↦ leb defer_until now
  | none ↦ time_reached now tx.scheduled_time
]

-- The answer, once the locktime's is there.
abbrev due_after : Bool → Result Bool → Result Bool
due_after reached (err e) = err e
due_after reached (ok locktime_ok) = ok (reached && locktime_ok)

unfoldable pub is_tx_due_for_broadcast : Backend → Clock → MtpCache → Row → MtpCache × Result Bool
is_tx_due_for_broadcast b now cache tx =
    if waits_for_price tx
    then (cache, ok false)
    else (let (cache', locktime_ok) = is_locktime_satisfied b now cache tx.nlocktime in
        (cache', due_after (attempt_reached now.utc tx) locktime_ok))

-- `filter(|tx| is_tx_due_for_broadcast(tx).unwrap_or(false))`, with the cache handed on.
unfoldable pub filter_due : Backend → Clock → MtpCache → List Row → MtpCache × List Row
filter_due b now cache [] = (cache, [])
filter_due b now cache (tx ∷ txs) =
    let (cache', due) = is_tx_due_for_broadcast b now cache tx in
    let (cache'', rest) = filter_due b now cache' txs in
    (cache'', (if ok_or due false then tx ∷ rest else rest))

-- A due tx whose locktime is not satisfied any more: the first miss of a time is recorded.
unfoldable pub miss_locktime : Backend → Clock → Row → PoolManager → PoolManager
miss_locktime b now tx m =
    if ltb locktime_threshold (get_or tx.nlocktime 0)
    then (let db' =
          if is_some tx.broadcast_missed_at
          then m.db
          else Table.record_broadcast_miss tx.id now.utc tx.scheduled_time now.utc m.db in
        record m { db = db'; mtp_cache = (get_median_time_past_cached b now m.mtp_cache).0 })
    else m

-- One due tx is broadcast; `none` where the loop goes on with no result for it.
unfoldable pub broadcast_due_one :
    Backend → Clock → Row → PoolManager → PoolManager × Option (Result String)
broadcast_due_one b now tx m = elim (broadcast_transaction b tx.tx_hex) [
  | ok txid ↦
      (mark_broadcast tx.id txid (get_or tx.target_fee_rate (of_ℕ 0)) now.utc m, some (ok txid))
  | err msg ↦ if is_retriable_broadcast_error msg then (m, some (err msg)) else (
    record m { db = Table.update_tx_status tx.id failed (some msg) now.utc m.db },
    some (err msg),
  )
]

-- The body of the loop, from the locktime's second test on.
unfoldable pub broadcast_step :
    Backend → Clock → Row → PoolManager → PoolManager × Result (Option (Result String))
broadcast_step b now tx m =
    let (cache, satisfied) = is_locktime_satisfied b now m.mtp_cache tx.nlocktime in
    let m' = record m { mtp_cache = cache } in
    elim satisfied [
      | err e ↦ (m', err e)
      | ok false ↦ (miss_locktime b now tx m', ok none)
      | ok true ↦ (let (m'', result) = broadcast_due_one b now tx m' in (m'', ok result))
    ]

abbrev pub push_result :
    String → Option (Result String) → List (String × Result String) → List (String × Result String)
push_result id none rest = rest
push_result id (some r) rest = (id, r) ∷ rest

-- The loop; `?` ends it at the first error.
unfoldable pub broadcast_loop :
    Backend → Clock → List Row → PoolManager → PoolManager × Result (List (String × Result String))
broadcast_loop b now [] m = (m, ok [])
broadcast_loop b now (tx ∷ txs) m =
    let (m', step) = broadcast_step b now tx m in
    let next = broadcast_loop b now txs m' in
    elim step [
      | err e ↦ (m', err e)
      | ok result ↦ elim next.1 [
        | err e ↦ (next.0, err e)
        | ok rest ↦ (next.0, ok (push_result tx.id result rest))
      ]
    ]

unfoldable pub broadcast_due_transactions :
    Backend → Clock → PoolManager → PoolManager × Result (List (String × Result String))
broadcast_due_transactions b now m =
    let (cache, due) =
      filter_due b now m.mtp_cache (Table.get_due_transactions m.config.network m.db) in
    broadcast_loop b now due (record m { mtp_cache = cache })

-- A failed tx that is requeued: its error is retriable, or it has a locktime and was refused.
abbrev pub is_requeued : Row → Bool
is_requeued tx =
    let e = get_or tx.error_message "" in
    is_retriable_broadcast_error e
    || (ltb 0 (get_or tx.nlocktime 0) && contains e "Failed to broadcast")

-- The store as far as the loop came, and the number of requeued transactions or the error.
unfoldable pub requeue_loop : DateTime → List Row → ℕ → Table → Table × Result ℕ
requeue_loop now [] count t = (t, ok count)
requeue_loop now (tx ∷ txs) count t =
    let next = λ (n : ℕ) (u : Table). requeue_loop now txs n u in
    if is_requeued tx
    then (elim (Table.reset_failed_to_scheduled tx.id now t) [
      | err e ↦ (t, err e)
      | ok t' ↦ next (count + 1) t'
    ])
    else next count t

unfoldable pub requeue_retriable_failures : Clock → PoolManager → PoolManager × Result ℕ
unfolding requeue_loop
requeue_retriable_failures now m =
    let failed_txs = Table.list_broadcast_txs (some "failed") m.config.network 1000 m.db in
    let (db', count) = requeue_loop now.utc failed_txs 0 m.db in (record m { db = db' }, count)

-- The first loop of a tick: a pending tx whose time has come is due, unless it waits for a price.
abbrev pub is_marked_due : Row → Bool
is_marked_due tx =
    (opt_is tx.broadcast_mode "scheduled" || opt_is tx.broadcast_mode "manual")
    && not (opt_is tx.schedule_trigger "price")

unfoldable pub mark_due_loop : DateTime → List Row → Table → Table
mark_due_loop now [] t = t
mark_due_loop now (tx ∷ txs) t =
    mark_due_loop now txs (if is_marked_due tx then Table.mark_due tx.id now t else t)

-- One scheduler tick: mark pending due, requeue failures, broadcast scheduled txs.
unfoldable pub run_scheduler_tick :
    Backend → Clock → PoolManager → PoolManager × Result (List (String × Result String))
run_scheduler_tick b now m =
    if indexer_healthy b
    then (let ripe = Table.get_pending_by_scheduled_time now.utc m.config.network m.db in
        let marked = record m { db = mark_due_loop now.utc ripe m.db } in
        broadcast_due_transactions b now (requeue_retriable_failures now marked).0)
    else (m, err "indexer unavailable")
