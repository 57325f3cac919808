-- ===== src/Pool/Due/Progress.antt =====
-- What a scheduler tick does for the transactions that are ripe, and which it leaves alone.
use umbrel_apps.Prelude.{
  ◌≤◌, String, some, true, false, ◌≡◌, ◌≢◌, refl, ap, ◌∙◌, inl, inr, ◌⊎◌, ok, filter, length, arith,
  eq_iff, Bool-cases, get_or,
}
use umbrel_apps.Prelude.Float.{of_ℕ}
use umbrel_apps.Db.Models.{
  DateTime, pending, scheduled, broadcast, confirmed, expired, failed, is_status, status_eq, Row,
}
use umbrel_apps.Db.Table.{get_broadcast_tx_by_id, matches_filter, set_retry, set_broadcast}
use umbrel_apps.Db.Table.Update.{Distinct}
use umbrel_apps.Pool.Backend.{Backend, Clock, MtpCache, indexer_healthy}
use umbrel_apps.Pool.Backend.Mtp.{locktime_of, locktime_iff}
use umbrel_apps.Pool.Manager.{PoolManager}
use umbrel_apps.Pool.Due.{
  attempt_reached, waits_for_price, is_tx_due_for_broadcast, run_scheduler_tick,
}
use umbrel_apps.Pool.Due.Loop.{attempt, attempt_of, broadcast_row, is_due}
use umbrel_apps.Pool.Due.Safety.{MaySend, run_scheduler_tick-get}
use umbrel_apps.Pool.Due.Tick.{mark_row, requeue_row, tick_row}

set_retry-keeps :
    (now : DateTime) (r : Row) → is_status r.status failed ≡ false → set_retry now r ≡ r
unfolding set_retry
set_retry-keeps now r h = rw h refl

-- Only failed rows are requeued, and only pending rows are marked.
pub requeue_row-keeps :
    (now : DateTime) (network : String) (r : Row)
    → is_status r.status failed ≡ false
    → requeue_row now network r ≡ r
unfolding requeue_row
requeue_row-keeps now network r h = ground (arith, set_retry-keeps now r h)

pub mark_row-keeps :
    (now : DateTime) (network : String) (r : Row)
    → is_status r.status pending ≡ false
    → mark_row now network r ≡ r
unfolding mark_row
mark_row-keeps now network r h = ground arith

is_due-ripe :
    (b : Backend) (now : Clock) (c : MtpCache) (r : Row)
    → waits_for_price r ≡ false
    → attempt_reached now.utc r ≡ true
    → locktime_of b now c r.nlocktime ≡ ok true
    → is_due b now c r ≡ true
unfolding is_tx_due_for_broadcast
is_due-ripe b now c r price reached locked = rw (price, reached, locked) refl

abbrev pub sent : Clock → String → Row → Row
sent now txid r = set_broadcast txid (get_or r.target_fee_rate (of_ℕ 0)) now.utc r

pub tick_row-live :
    (b : Backend) (now : Clock) (c : MtpCache) (network : String) (r : Row)
    → r.status ≡ scheduled
    → (may : MaySend b now c network r) → tick_row b now c network r ≡ sent now may.4.0 r
unfolding broadcast_row attempt attempt_of
tick_row-live b now c network r st (on, reached, met, price, (txid, taken)) =
    let marked = mark_row-keeps now.utc network r (ap (λ s. is_status s pending) st) in
    let requeued = requeue_row-keeps now.utc network r (ap (λ s. is_status s failed) st) in
    let due = is_due-ripe b now c r price reached ((locktime_iff b now c r.nlocktime).1 met) in
    let selected = ap (λ s. is_status s scheduled) st in
    rw (marked, requeued) (rw ((eq_iff r.network network).1 on, selected, due) (rw taken refl))

module _ (b : Backend) (now : Clock) (m : PoolManager) (r : Row) where
  -- A tick of a healthy backend sends every scheduled transaction that it may send: the store then
  -- has it as broadcast, with the txid and the time. Ids are distinct, and at most 1000 transactions
  -- of the network have failed.
  pub run_scheduler_tick-live :
      indexer_healthy b ≡ true
      → Distinct m.db
      → length (filter (matches_filter (some "failed") m.config.network) m.db) ≤ 1000
      → get_broadcast_tx_by_id r.id m.db ≡ ok r
      → r.status ≡ scheduled
      → (may : MaySend b now m.mtp_cache m.config.network r)
      → get_broadcast_tx_by_id r.id (run_scheduler_tick b now m).0.db ≡ ok (sent now may.4.0 r)
  run_scheduler_tick-live healthy d few found st may =
      run_scheduler_tick-get b now m r healthy d few found
      ∙ ap ok (tick_row-live b now m.mtp_cache m.config.network r st may)

-- What no tick changes: another network's transactions, those that are out or settled, and those
-- that wait for a price.
abbrev pub IsUntouchable : String → Row → Type 0
IsUntouchable network r =
    (r.network ≢ network)
    ⊎ (waits_for_price r ≡ true)
    ⊎ (r.status ≡ broadcast)
    ⊎ (r.status ≡ confirmed)
    ⊎ (r.status ≡ expired)

mark_row-untouched :
    (now : DateTime) (network : String) (r : Row)
    → IsUntouchable network r
    → mark_row now network r ≡ r
unfolding mark_row
mark_row-untouched now network r u =
    ground (arith, eq_iff r.network network, status_eq r.status pending)

requeue_row-untouched :
    (now : DateTime) (network : String) (r : Row)
    → IsUntouchable network r
    → requeue_row now network r ≡ r
unfolding requeue_row
requeue_row-untouched now network r u =
    ground (arith, eq_iff r.network network, status_eq r.status pending, status_eq r.status failed)

broadcast_row-untouched :
    (b : Backend) (now : Clock) (c : MtpCache) (network : String) (r : Row)
    → IsUntouchable network r
    → broadcast_row b now c network r ≡ r
unfolding broadcast_row
broadcast_row-untouched b now c network r u =
    ground
      (arith, eq_iff r.network network, status_eq r.status pending, status_eq r.status scheduled)

tick_row-untouched :
    (b : Backend) (now : Clock) (c : MtpCache) (network : String) (r : Row)
    → IsUntouchable network r
    → tick_row b now c network r ≡ r
tick_row-untouched b now c network r u =
    rw (mark_row-untouched now.utc network r u, requeue_row-untouched now.utc network r u)
      (broadcast_row-untouched b now c network r u)

module _ (b : Backend) (now : Clock) (m : PoolManager) (r : Row) where
  -- A tick leaves a transaction of another network, one that is broadcast, confirmed or expired, and
  -- one that waits for a price as it is, whether the backend is healthy or not. Ids are distinct,
  -- and at most 1000 transactions of the network have failed.
  pub run_scheduler_tick-untouched :
      Distinct m.db
      → length (filter (matches_filter (some "failed") m.config.network) m.db) ≤ 1000
      → get_broadcast_tx_by_id r.id m.db ≡ ok r
      → IsUntouchable m.config.network r
      → get_broadcast_tx_by_id r.id (run_scheduler_tick b now m).0.db ≡ ok r
  unfolding run_scheduler_tick
  run_scheduler_tick-untouched d few found u = elim (Bool-cases (indexer_healthy b)) [
    | inl y ↦
        run_scheduler_tick-get b now m r y d few found
        ∙ ap ok (tick_row-untouched b now m.mtp_cache m.config.network r u)
    | inr n ↦ rw n found
  ]
