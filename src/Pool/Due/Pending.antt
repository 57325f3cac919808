-- ===== src/Pool/Due/Pending.antt =====
-- What a scheduler tick does to a transaction that is pending.
use umbrel_apps.Prelude.{
  String, some, true, false, ◌≡◌, refl, sym, ap, ◌∙◌, ok, length, filter, ◌≤◌,
}
use umbrel_apps.Db.Models.{pending, scheduled, failed, is_status, Row}
use umbrel_apps.Db.Table.{get_broadcast_tx_by_id, matches_filter, waits_on_time, set_due}
use umbrel_apps.Db.Table.Update.{Distinct}
use umbrel_apps.Pool.Backend.{Backend, Clock, MtpCache, indexer_healthy}
use umbrel_apps.Pool.Manager.{PoolManager}
use umbrel_apps.Pool.Due.{is_marked_due, run_scheduler_tick}
use umbrel_apps.Pool.Due.Loop.{broadcast_row}
use umbrel_apps.Pool.Due.Tick.{mark_row, requeue_row, tick_row}
use umbrel_apps.Pool.Due.Safety.{MaySend, run_scheduler_tick-get}
use umbrel_apps.Pool.Due.Progress.{sent, tick_row-live, requeue_row-keeps, mark_row-keeps}

broadcast_row-pending :
    (b : Backend) (now : Clock) (c : MtpCache) (network : String) (r : Row)
    → r.status ≡ pending
    → broadcast_row b now c network r ≡ r
unfolding broadcast_row
broadcast_row-pending b now c network r h = rw (ap (λ s. is_status s scheduled) h) refl

-- A pending transaction whose time has not come, or that has none, stays as it is.
pub tick_row-pending :
    (b : Backend) (now : Clock) (c : MtpCache) (network : String) (r : Row)
    → r.status ≡ pending
    → waits_on_time now.utc network r ≡ false
    → tick_row b now c network r ≡ r
unfolding mark_row
tick_row-pending b now c network r st early =
    let requeued = requeue_row-keeps now.utc network r (ap (λ s. is_status s failed) st) in
    rw early (rw requeued (broadcast_row-pending b now c network r st))

-- One whose time has come is marked due and sent in the same tick.
pub tick_row-ripe :
    (b : Backend) (now : Clock) (c : MtpCache) (network : String) (r : Row)
    → waits_on_time now.utc network r ≡ true
    → is_marked_due r ≡ true
    → (may : MaySend b now c network (set_due now.utc r))
    → tick_row b now c network r ≡ sent now may.4.0 (set_due now.utc r)
unfolding mark_row set_due
tick_row-ripe b now c network r waits marked may =
    let due = set_due now.utc r in
    let again = mark_row-keeps now.utc network due refl in
    rw (waits, marked)
      (ap (λ s. broadcast_row b now c network (requeue_row now.utc network s)) (sym again)
        ∙ tick_row-live b now c network due refl may)

module _ (b : Backend) (now : Clock) (m : PoolManager) (r : Row) where
  -- A tick of a healthy backend sends a pending transaction as soon as its time has come, if it may
  -- be sent once it is marked due: it need not wait for the next tick. Ids are distinct, and at most
  -- 1000 transactions of the network have failed.
  pub run_scheduler_tick-ripe :
      indexer_healthy b ≡ true
      → Distinct m.db
      → length (filter (matches_filter (some "failed") m.config.network) m.db) ≤ 1000
      → get_broadcast_tx_by_id r.id m.db ≡ ok r
      → waits_on_time now.utc m.config.network r ≡ true
      → is_marked_due r ≡ true
      → (may : MaySend b now m.mtp_cache m.config.network (set_due now.utc r))
      → get_broadcast_tx_by_id r.id (run_scheduler_tick b now m).0.db
        ≡ ok (sent now may.4.0 (set_due now.utc r))
  run_scheduler_tick-ripe healthy d few found waits marked may =
      run_scheduler_tick-get b now m r healthy d few found
      ∙ ap ok (tick_row-ripe b now m.mtp_cache m.config.network r waits marked may)
