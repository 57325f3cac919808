-- ===== src/Examples/Server.antt =====
-- The theorems on the Electrum server's intake and on the loops, applied to a small pool.
use umbrel_apps.Db.Table.Update.{Distinct}
use umbrel_apps.ElectrumServer.Ingest.Retained.{IsRetained, handle_broadcast-IsRetained}
use umbrel_apps.ElectrumServer.Ingest.Plan.{run_scheduler_tick-held_back}
use umbrel_apps.Prelude.{
  ◌⊎◌, length, filter, ◌*◌, ◌+◌, ◌≤◌, none, some, true, false, [], ◌∷◌, All, ◌≡◌, refl, inl, inr,
  ok, is_ok, arith, trim, str_eq, if◌then◌else◌,
}
use umbrel_apps.Db.Models.{scheduled, nanos_per_sec, pending, Row}
use umbrel_apps.Db.Table.{
  matches_filter, new_row, get_broadcast_tx_by_id, insert_broadcast_tx, set_due,
}
use umbrel_apps.Pool.Backend.{
  indexer_healthy, check_block_height, broadcast_transaction, get_median_time_past_cached,
  get_median_time_past,
}
use umbrel_apps.Pool.Manager.{store_pending_tx, PoolManager, get_pending_tx_hex}
use umbrel_apps.Pool.Due.{run_scheduler_tick}
use umbrel_apps.Pool.Due.Safety.{MaySend}
use umbrel_apps.Pool.Due.Progress.{sent}
use umbrel_apps.Pool.Due.Pending.{run_scheduler_tick-ripe}
use umbrel_apps.ElectrumServer.Ingest.{
  resolve_ingest_plan, compute_txid, Bitcoin, Dates, Transaction, BroadcastHandleResult,
  decode_submitted, handle_broadcast,
}
use umbrel_apps.Scheduler.{Pass, run_broadcast_loop, block_height_pass, check_interval}
use umbrel_apps.Scheduler.Loops.{
  WaitsUpTo, block_height_pass-due, IsBackoff, run_broadcast_loop-IsBackoff,
}
use umbrel_apps.Examples.{now, node, ripe, manager}

-- A transaction with a locktime that lies ahead.
abbrev decoded : Transaction
decoded = record {
  txid = "t9";
  lock_time = 1_760_000_000;
  input =
      record { previous_txid = "t1"; vout = 0 } ∷ record { previous_txid = "t7"; vout = 1 } ∷ [];
  output = record { value = 5_000; script_pubkey = "s" } ∷ [];
}

abbrev pub bitcoin : Bitcoin
bitcoin = record {
  hex_decode = λ s. if str_eq s "zz" then none else some [];
  consensus_decode = λ raw. some decoded;
  compute_scripthash = λ script. "sh";
}

abbrev dates : Dates
dates = record {
  parse_from_rfc3339 = λ s. none;
  parse_minutes = λ s. none;
  add_hours = λ t h. some (t + h * 3_600 * nanos_per_sec);
  gen_range = λ a b. a;
}

abbrev handled : BroadcastHandleResult
handled = record { txid = "t9"; tx_hex = "ee"; retained = true; affected_scripthashes = "sh" ∷ [] }

taken_in : (handle_broadcast bitcoin dates now "tx-9" " ee" "sparrow" manager).1 ≡ ok handled
unfolding handle_broadcast insert_broadcast_tx trim
taken_in = refl

no_hex : is_ok (handle_broadcast bitcoin dates now "tx-9" "zz" "sparrow" manager).1 ≡ false
unfolding handle_broadcast trim
no_hex = refl

abbrev pass : Pass
pass = record { backend = node; clock = now; took = 7 }

run_broadcast_loop-IsBackoff_example :
    IsBackoff (run_broadcast_loop (pass ∷ pass ∷ []) nanos_per_sec manager).1
    × All
        (λ time. check_interval ≤ time)
        (run_broadcast_loop (pass ∷ pass ∷ []) nanos_per_sec manager).2
run_broadcast_loop-IsBackoff_example =
    run_broadcast_loop-IsBackoff (pass ∷ pass ∷ []) nanos_per_sec manager (omega arith, omega arith)

healthy : indexer_healthy node ≡ true
unfolding indexer_healthy
healthy = refl

height_known : check_block_height node ≡ some 900_000
unfolding check_block_height
height_known = refl

abbrev waiting : Row
waiting = record ripe { status = pending }

abbrev waiting_pool : PoolManager
waiting_pool = record manager { db = waiting ∷ [] }

waiting_found : get_broadcast_tx_by_id "tx-1" waiting_pool.db ≡ ok waiting
unfolding get_broadcast_tx_by_id
waiting_found = refl

waiting_may : MaySend node now none "mainnet" (set_due now.utc waiting)
unfolding broadcast_transaction get_median_time_past_cached get_median_time_past set_due
waiting_may =
    (refl, refl, inr (inl (omega arith, (1_749_990_000, refl, omega arith))), refl, ("t1", refl))

run_scheduler_tick-ripe_example :
    get_broadcast_tx_by_id "tx-1" (run_scheduler_tick node now waiting_pool).0.db
    ≡ ok (sent now "t1" (set_due now.utc waiting))
unfolding waiting_may
run_scheduler_tick-ripe_example =
    run_scheduler_tick-ripe node now waiting_pool waiting healthy (refl, tt) (omega arith)
      waiting_found refl refl waiting_may

-- A transaction that waits for block 890000.
abbrev at_block : Row
at_block = record ripe {
  status = pending;
  nlocktime = some 890_000;
  broadcast_mode = some "by_block";
}

abbrev block_pool : PoolManager
block_pool = record manager { db = at_block ∷ [] }

at_block_found : get_broadcast_tx_by_id "tx-1" block_pool.db ≡ ok at_block
unfolding get_broadcast_tx_by_id
at_block_found = refl

block_height_pass-due_example :
    (WaitsUpTo 900_000 "mainnet" at_block
      × (get_broadcast_tx_by_id "tx-1" (block_height_pass node now block_pool).db
          ≡ ok (record at_block {
            status = scheduled;
            scheduled_time = some now.utc;
            updated_at = now.utc;
          })))
    ⊎ ((¬ WaitsUpTo 900_000 "mainnet" at_block)
        × (get_broadcast_tx_by_id "tx-1" (block_height_pass node now block_pool).db ≡ ok at_block))
block_height_pass-due_example =
    block_height_pass-due node now block_pool 900_000 "tx-1" at_block healthy height_known
      (refl, tt) at_block_found

handle_broadcast-IsRetained_example :
    (tx : Transaction) × (r : Row) × (decode_submitted bitcoin (trim " ee") ≡ ok (tx, "t9"))
    × (get_broadcast_tx_by_id "tx-9"
          (handle_broadcast bitcoin dates now "tx-9" " ee" "sparrow" manager).0.db
        ≡ ok r)
    × IsRetained now
        (trim " ee")
        "mainnet"
        "sparrow"
        tx
        (resolve_ingest_plan dates now "sparrow" tx.lock_time manager.config)
        r
    × (get_pending_tx_hex "t9" (handle_broadcast bitcoin dates now "tx-9" " ee" "sparrow" manager).0
        ≡ some (trim " ee"))
handle_broadcast-IsRetained_example =
    handle_broadcast-IsRetained bitcoin dates now "tx-9" " ee" "sparrow" manager handled taken_in

read_back : decode_submitted bitcoin (trim " ee") ≡ ok (decoded, "t9")
unfolding decode_submitted compute_txid trim
read_back = refl

abbrev taken : PoolManager
taken = (handle_broadcast bitcoin dates now "tx-9" " ee" "sparrow" manager).0

taken-Distinct : Distinct taken.db
unfolding handle_broadcast insert_broadcast_tx trim resolve_ingest_plan store_pending_tx new_row
taken-Distinct = (refl, (refl, (refl, (refl, (refl, tt)))))

few_failed : length (filter (matches_filter (some "failed") taken.config.network) taken.db) ≤ 1000
unfolding handle_broadcast insert_broadcast_tx trim resolve_ingest_plan store_pending_tx new_row
few_failed = omega arith

run_scheduler_tick-held_back_example :
    get_broadcast_tx_by_id "tx-9" (run_scheduler_tick node now taken).0.db
    ≡ get_broadcast_tx_by_id "tx-9" taken.db
run_scheduler_tick-held_back_example =
    run_scheduler_tick-held_back node bitcoin now now dates "tx-9" " ee" "sparrow" decoded manager
      taken handled taken_in read_back (inr (inr (inr (omega arith, omega arith)))) refl
      taken-Distinct few_failed
