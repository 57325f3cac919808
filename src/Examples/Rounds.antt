-- ===== src/Examples/Rounds.antt =====
-- The theorems on rebroadcasts, confirmations and listings, applied to a small pool.
use umbrel_apps.Pool.Confirm.Resent.{IsOverdue, rebroadcast_pending-resent}
use umbrel_apps.Pool.Confirm.InBlock.{IsInBlock, check_confirmations-confirmed}
use umbrel_apps.Db.Models.{DateTime, confirmed, nanos_per_sec}
use umbrel_apps.Prelude.{
  ◌-◌, ◌*◌, ◌⊎◌, is_ok, str_eq, if◌then◌else◌, String, Result, err, true, ◌≤◌, none, some, false,
  ◌≡◌, refl, ok, length, filter, arith, get_or,
}
use umbrel_apps.Prelude.Int.{pos}
use umbrel_apps.Db.Table.{get_broadcast_tx_by_id, matches_filter}
use umbrel_apps.Pool.Backend.{
  broadcast_transaction, get_median_time_past_cached, get_median_time_past,
}
use umbrel_apps.Pool.Backend.Mtp.{mtp_of, locktime_of}
use umbrel_apps.Pool.Enrich.{enrich_tx_locktime}
use umbrel_apps.Pool.Enrich.Shown.{enrich_tx_locktime-agrees}
use umbrel_apps.Pool.Confirm.{rebroadcast_pending, check_confirmations, remove_transaction}
use umbrel_apps.Pool.Confirm.Removal.{remove_transaction-removes}
use umbrel_apps.Pool.Manager.{get_pending_tx_hex}
use umbrel_apps.Examples.{sent_out, now, node, rpc, ripe, pool, manager}
use umbrel_apps.Examples.Tick.{pool-Distinct}

few_out : length (filter (matches_filter (some "broadcast") "mainnet") pool) ≤ 1000
few_out = omega arith

mtp_known : mtp_of node now none ≡ ok 1_749_990_000
unfolding get_median_time_past_cached get_median_time_past
mtp_known = refl

enrich_tx_locktime-agrees_example :
    (locktime_of node now none (some 1_700_000_000)
      ≡ ok (get_or (enrich_tx_locktime node now manager ripe).1.locktime_satisfied false))
    × ((enrich_tx_locktime node now manager ripe).1.locktime_waiting ≡ some false)
    × ((enrich_tx_locktime node now manager ripe).1.locktime_remaining_secs ≡ some (pos 0))
enrich_tx_locktime-agrees_example =
    enrich_tx_locktime-agrees node now manager ripe 1_749_990_000 (omega arith) mtp_known

sent_out_found : get_broadcast_tx_by_id "tx-3" pool ≡ ok sent_out
unfolding get_broadcast_tx_by_id
sent_out_found = refl

no_txid : String → Result String
no_txid tx_hex = err "Failed to decode transaction"

remove_transaction-removes_example :
    (is_ok (remove_transaction no_txid "tx-3" manager).1 ≡ true)
    × ((j : String)
        → get_broadcast_tx_by_id j (remove_transaction no_txid "tx-3" manager).0.db ≡ (
            if str_eq "tx-3" j
            then err "Failed to get broadcast tx"
            else get_broadcast_tx_by_id j pool))
    × ((txid : String)
        → (sent_out.txid ≡ some txid)
          ⊎ ((sent_out.txid ≡ none) × (no_txid sent_out.tx_hex ≡ ok txid))
        → get_pending_tx_hex txid (remove_transaction no_txid "tx-3" manager).0 ≡ none)
remove_transaction-removes_example =
    remove_transaction-removes no_txid "tx-3" manager sent_out sent_out_found refl

check_confirmations-confirmed_example :
    (IsInBlock rpc "mainnet" sent_out
      × (get_broadcast_tx_by_id "tx-3" (check_confirmations node now manager).0.db
          ≡ ok (record sent_out {
            status = confirmed;
            block_height = some 900_000;
            confirmed_at = some now.utc;
            updated_at = now.utc;
          })))
    ⊎ ((¬ IsInBlock rpc "mainnet" sent_out)
        × (get_broadcast_tx_by_id "tx-3" (check_confirmations node now manager).0.db ≡ ok sent_out))
check_confirmations-confirmed_example =
    check_confirmations-confirmed node now manager rpc 900_000 "tx-3" sent_out refl refl refl
      pool-Distinct few_out sent_out_found

abbrev since : DateTime
since = now.utc - 30 * 60 * nanos_per_sec

rebroadcast_pending-resent_example :
    (IsOverdue since "mainnet" sent_out
      × ((txid : String) × (broadcast_transaction node sent_out.tx_hex ≡ ok txid))
      × (get_broadcast_tx_by_id "tx-3" (rebroadcast_pending node now manager).0.db
          ≡ ok (record sent_out { broadcast_at = some now.utc; updated_at = now.utc })))
    ⊎ ((¬ (
          IsOverdue since "mainnet" sent_out
          × ((txid : String) × (broadcast_transaction node sent_out.tx_hex ≡ ok txid))))
        × (get_broadcast_tx_by_id "tx-3" (rebroadcast_pending node now manager).0.db ≡ ok sent_out))
rebroadcast_pending-resent_example =
    rebroadcast_pending-resent node now manager since "tx-3" sent_out pool-Distinct (omega arith)
      refl sent_out_found
