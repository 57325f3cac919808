-- ===== src/Examples/Tick.antt =====
-- The theorems on a scheduler tick, applied to a small pool.
use umbrel_apps.Prelude.{
  none, some, ◌≡◌, ◌≢◌, ◌↔◌, true, ◌∙◌, ap, map, refl, inl, inr, ok, length, filter, arith, ◌≤◌,
  map,
}
use umbrel_apps.Prelude.Float.{of_ℕ}
use umbrel_apps.Db.Models.{scheduled, broadcast, Row}
use umbrel_apps.Db.Table.{get_broadcast_tx_by_id, matches_filter, set_broadcast}
use umbrel_apps.Db.Table.Update.{Distinct}
use umbrel_apps.Pool.Backend.{
  indexer_healthy, broadcast_transaction, get_median_time_past, get_median_time_past_cached,
  check_block_height, is_locktime_satisfied,
}
use umbrel_apps.Pool.Backend.Mtp.{locktime_of, mtp_of, IsMet, locktime_iff}
use umbrel_apps.Pool.Due.{is_tx_due_for_broadcast, run_scheduler_tick}
use umbrel_apps.Pool.Due.Loop.{attempt_of, attempt, broadcast_row}
use umbrel_apps.Pool.Due.Tick.{mark_row, requeue_row, tick_row, run_scheduler_tick-db}
use umbrel_apps.Pool.Due.Progress.{sent, run_scheduler_tick-live, run_scheduler_tick-untouched}
use umbrel_apps.Pool.Due.Moves.{TickMoves, run_scheduler_tick-moves}
use umbrel_apps.Pool.Due.Safety.{MaySend, run_scheduler_tick-safe, run_scheduler_tick-get}
use umbrel_apps.Examples.{now, node, ripe, sent_out, pool, manager}

pub pool-Distinct : Distinct pool
pool-Distinct = (refl, (refl, (refl, (refl, tt))))

few_failed : length (filter (matches_filter (some "failed") "mainnet") pool) ≤ 1000
few_failed = omega arith

scheduled_not_broadcast : scheduled ≢ broadcast
scheduled_not_broadcast e = ground arith

healthy : indexer_healthy node ≡ true
unfolding indexer_healthy
healthy = refl

abbrev out : Row
out = record ripe {
  status = broadcast;
  txid = some "t1";
  actual_fee_rate = some (of_ℕ 2);
  broadcast_at = some now.utc;
  updated_at = now.utc;
}

ripe_found : get_broadcast_tx_by_id "tx-1" pool ≡ ok ripe
unfolding get_broadcast_tx_by_id
ripe_found = refl

ripe_goes_out : tick_row node now none "mainnet" ripe ≡ out
unfolding broadcast_row requeue_row mark_row attempt attempt_of set_broadcast broadcast_transaction
    is_tx_due_for_broadcast is_locktime_satisfied get_median_time_past_cached get_median_time_past
ripe_goes_out = refl

ripe_sent : get_broadcast_tx_by_id "tx-1" (run_scheduler_tick node now manager).0.db ≡ ok out
ripe_sent =
    run_scheduler_tick-get node now manager ripe healthy pool-Distinct few_failed ripe_found
    ∙ ap ok ripe_goes_out

ripe_may : MaySend node now none "mainnet" ripe
unfolding broadcast_transaction get_median_time_past_cached get_median_time_past
ripe_may =
    (refl, refl, inr (inl (omega arith, (1_749_990_000, refl, omega arith))), refl, ("t1", refl))

run_scheduler_tick-safe_example : MaySend node now none "mainnet" ripe
run_scheduler_tick-safe_example =
    run_scheduler_tick-safe node now manager ripe out pool-Distinct few_failed ripe_found
      scheduled_not_broadcast ripe_sent refl

run_scheduler_tick-live_example :
    get_broadcast_tx_by_id "tx-1" (run_scheduler_tick node now manager).0.db
    ≡ ok (sent now "t1" ripe)
unfolding ripe_may
run_scheduler_tick-live_example =
    run_scheduler_tick-live node now manager ripe healthy pool-Distinct few_failed ripe_found refl
      ripe_may

run_scheduler_tick-db_example :
    (run_scheduler_tick node now manager).0.db ≡ map (tick_row node now none "mainnet") pool
run_scheduler_tick-db_example =
    run_scheduler_tick-db node now manager healthy pool-Distinct few_failed

sent_out_found : get_broadcast_tx_by_id "tx-3" pool ≡ ok sent_out
unfolding get_broadcast_tx_by_id
sent_out_found = refl

run_scheduler_tick-untouched_example :
    get_broadcast_tx_by_id "tx-3" (run_scheduler_tick node now manager).0.db ≡ ok sent_out
run_scheduler_tick-untouched_example =
    run_scheduler_tick-untouched node now manager sent_out pool-Distinct few_failed sent_out_found
      (inr (inr (inl refl)))

run_scheduler_tick-moves_example :
    (s : Row) × (get_broadcast_tx_by_id "tx-1" (run_scheduler_tick node now manager).0.db ≡ ok s)
    × TickMoves scheduled s.status
    × (ripe.broadcast_missed_at ≡ none → s.broadcast_missed_at ≡ none)
run_scheduler_tick-moves_example =
    run_scheduler_tick-moves node now manager ripe healthy pool-Distinct few_failed ripe_found

locktime_iff_example :
    (locktime_of node now none (some 900_000) ≡ ok true)
    ↔ IsMet (mtp_of node now none) (check_block_height node) 900_000
locktime_iff_example = locktime_iff node now none (some 900_000)

height_known : check_block_height node ≡ some 900_000
unfolding check_block_height
height_known = refl
