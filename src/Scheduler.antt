-- ===== src/Scheduler.antt =====
-- sparrow-broadcast-pool/src/pool/scheduler.rs: the loops that run beside the server.
pub mod Loops
pub mod Prices
pub mod Final
use umbrel_apps.Prelude.{
  ℕ, ◌+◌, ◌-◌, ◌*◌, min, String, Option, none, some, Bool, true, false, ◌&&◌, List, [], ◌∷◌, ◌++◌,
  Result, ok, err, contains, opt_is, ltb, leb, if◌then◌else◌,
}
use umbrel_apps.Db.Models.{DateTime, nanos_per_sec, Row}
use umbrel_apps.Db.Table
use umbrel_apps.Db.Table.{Table}
use umbrel_apps.Pool.Backend.{Backend, Clock, indexer_healthy, check_block_height}
use umbrel_apps.Pool.Manager.{PoolManager}
use umbrel_apps.Pool.Due.{run_scheduler_tick}
use umbrel_apps.Pool.Confirm.{rebroadcast_pending, check_confirmations}
use umbrel_apps.Pool.Schedule.{check_price_triggers}
use umbrel_apps.Price.{Providers, fetch_snapshot}

-- What one pass of the broadcast loop reads: the backend and the clock for its tick, and how long
-- the tick took.
pub record Pass : Type 0 where
  pub backend : Backend
  pub clock : Clock
  pub took : ℕ

abbrev pub check_interval : ℕ
check_interval = 15 * nanos_per_sec

abbrev pub max_backoff : ℕ
max_backoff = 60 * nanos_per_sec

-- The next back-off, and how long the loop sleeps at once.
unfoldable pub react : Result (List (String × Result String)) → ℕ → ℕ × ℕ
react (ok results) backoff = (nanos_per_sec, 0)
react (err e) backoff =
    if contains e "indexer unavailable"
    then (min (backoff * 2) max_backoff, backoff)
    else (backoff, 0)

-- One pass: the tick, the reaction to it, and the sleep until the interval is over. The result is
-- the manager, the next back-off and the time that the pass took.
unfoldable pub broadcast_pass : Pass → ℕ → PoolManager → PoolManager × ℕ × ℕ
unfolding react
broadcast_pass p backoff m =
    let (m', result) = run_scheduler_tick p.backend p.clock m in
    let (backoff', slept) = react result backoff in
    let elapsed = p.took + slept in
    (m', backoff', elapsed + (if ltb elapsed check_interval then check_interval - elapsed else 0))

-- Some passes; the times that they took, in order.
unfoldable pub run_broadcast_loop : List Pass → ℕ → PoolManager → PoolManager × ℕ × List ℕ
unfolding broadcast_pass
run_broadcast_loop [] backoff m = (m, backoff, [])
run_broadcast_loop (p ∷ ps) backoff m =
    let (m', backoff', time) = broadcast_pass p backoff m in
    let (m'', backoff'', times) = run_broadcast_loop ps backoff' m' in
    (m'', backoff'', time ∷ times)

abbrev reaches : ℕ → Option ℕ → Bool
reaches height none = false
reaches height (some nlocktime) =
    ltb 0 nlocktime && ltb nlocktime 500_000_000 && leb nlocktime height

-- A transaction whose block has come.
abbrev pub block_has_come : ℕ → Row → Bool
block_has_come height tx = opt_is tx.broadcast_mode "by_block" && reaches height tx.nlocktime

unfoldable pub block_loop : ℕ → DateTime → List Row → Table → Table
block_loop height now [] t = t
block_loop height now (tx ∷ txs) t =
    block_loop height now txs (if block_has_come height tx then Table.mark_due tx.id now t else t)

-- One pass of the block height monitor.
unfoldable pub block_height_pass : Backend → Clock → PoolManager → PoolManager
unfolding block_loop
block_height_pass b now m =
    if indexer_healthy b
    then (elim (check_block_height b) [
      | none ↦ m
      | some height ↦ record m {
        db =
            block_loop height now.utc (Table.get_pending_by_block_height m.config.network m.db)
              m.db;
      }
    ])
    else m

-- One pass of the rebroadcast loop, and its answers.
unfoldable pub rebroadcast_pass :
    Backend → Clock → PoolManager → PoolManager × List (String × Result String)
rebroadcast_pass b now m = if indexer_healthy b then rebroadcast_pending b now m else (m, [])

-- One pass of the confirmation checker, and what it found.
unfoldable pub confirmation_pass :
    Backend → Clock → PoolManager → PoolManager × List (String × Bool × Option ℕ)
confirmation_pass b now m = if indexer_healthy b then check_confirmations b now m else (m, [])

-- One pass of the price monitor, and how many transactions it made due.
unfoldable pub price_pass : Providers → Clock → PoolManager → PoolManager × Result ℕ
price_pass p now m =
    let (feed, answer) = fetch_snapshot p now m.price_feed in
    let fetched = record m { price_feed = feed } in
    elim answer [
      | err e ↦ (fetched, err e)
      | ok snapshot ↦
          if snapshot.stale
          then (fetched, ok 0)
          else (let (m', triggered) = check_price_triggers snapshot.prices now fetched in
              (m', ok triggered))
    ]
