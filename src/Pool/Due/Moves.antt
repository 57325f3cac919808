-- ===== src/Pool/Due/Moves.antt =====
-- How a scheduler tick can change a transaction's status, and that it records no miss.
use umbrel_apps.Prelude.{
  ◌≤◌, String, none, some, true, ◌&&◌, ◌≡◌, refl, sym, subst, ◌∙◌, inl, inr, Result, ok, err,
  filter, length, arith, Bool-cases, &&-eq-true,
}
use umbrel_apps.Db.Models.{
  DateTime, TxStatus, pending, scheduled, broadcast, failed, is_status, status_eq, Row,
}
use umbrel_apps.Db.Table.{
  get_broadcast_tx_by_id, matches_filter, is_scheduled_on, waits_on_time, set_due, set_retry,
  set_broadcast, set_status,
}
use umbrel_apps.Db.Table.Update.{Distinct}
use umbrel_apps.Pool.Backend.{Backend, Clock, MtpCache, indexer_healthy, broadcast_transaction}
use umbrel_apps.Pool.Manager.{PoolManager}
use umbrel_apps.Pool.Due.{
  is_requeued, is_marked_due, run_scheduler_tick, is_retriable_broadcast_error,
}
use umbrel_apps.Pool.Due.Loop.{attempt, attempt_of, broadcast_row, is_due}
use umbrel_apps.Pool.Due.Safety.{run_scheduler_tick-get, mark_row-SameTx, requeue_row-SameTx}
use umbrel_apps.Pool.Due.Tick.{mark_row, requeue_row, tick_row}

-- The moves of a transaction's status that one pass of a tick can make.
pub data TickMove : TxStatus → TxStatus → Type 0 where
  stay : {s : TxStatus} → TickMove s s
  mark : TickMove pending scheduled
  retry : TickMove failed scheduled
  send : TickMove scheduled broadcast
  give_up : TickMove scheduled failed

mark_move : (s : TxStatus) → is_status s pending ≡ true → TickMove s scheduled
mark_move s h = subst (λ u. TickMove u scheduled) (sym (status_eq s pending h)) mark

retry_move : (s : TxStatus) → is_status s failed ≡ true → TickMove s scheduled
retry_move s h = subst (λ u. TickMove u scheduled) (sym (status_eq s failed h)) retry

marked_pending :
    (now : DateTime) (network : String) (r : Row)
    → (waits_on_time now network r && is_marked_due r) ≡ true
    → is_status r.status pending ≡ true
marked_pending now network r y = ground arith

mark_row-TickMove :
    (now : DateTime) (network : String) (r : Row)
    → TickMove r.status (mark_row now network r).status
unfolding mark_row set_due
mark_row-TickMove now network r =
    elim (Bool-cases (waits_on_time now network r && is_marked_due r)) [
      | inl y ↦ rw y (mark_move r.status (marked_pending now network r y))
      | inr n ↦ rw n stay
    ]

set_retry-TickMove : (now : DateTime) (r : Row) → TickMove r.status (set_retry now r).status
unfolding set_retry
set_retry-TickMove now r = elim (Bool-cases (is_status r.status failed)) [
  | inl y ↦ rw y (retry_move r.status y)
  | inr n ↦ rw n stay
]

requeue_row-TickMove :
    (now : DateTime) (network : String) (r : Row)
    → TickMove r.status (requeue_row now network r).status
unfolding requeue_row
requeue_row-TickMove now network r =
    elim (Bool-cases (matches_filter (some "failed") network r && is_requeued r)) [
      | inl y ↦ rw y (set_retry-TickMove now r)
      | inr n ↦ rw n stay
    ]

attempt_of-TickMove :
    (a : Result String) (now : Clock) (r : Row)
    → r.status ≡ scheduled
    → TickMove r.status (attempt_of a now r r).status
unfolding attempt_of set_broadcast set_status
attempt_of-TickMove (ok txid) now r h = subst (λ u. TickMove u broadcast) (sym h) send
attempt_of-TickMove (err msg) now r h = elim (Bool-cases (is_retriable_broadcast_error msg)) [
  | inl y ↦ rw y stay
  | inr n ↦ rw n (subst (λ u. TickMove u failed) (sym h) give_up)
]

broadcast_row-TickMove :
    (b : Backend) (now : Clock) (c : MtpCache) (network : String) (r : Row)
    → TickMove r.status (broadcast_row b now c network r).status
unfolding broadcast_row attempt
broadcast_row-TickMove b now c network r =
    elim (Bool-cases (is_scheduled_on network r && is_due b now c r)) [
      | inl y ↦
          (let on = (&&-eq-true (is_scheduled_on network r) _ y).0 in
            let st = (&&-eq-true (is_status r.status scheduled) _ on).0 in
            rw y (
              attempt_of-TickMove (broadcast_transaction b r.tx_hex) now r
                (status_eq r.status scheduled st)))
      | inr n ↦ rw n stay
    ]

attempt_of-miss :
    (a : Result String) (now : Clock) (r : Row)
    → r.broadcast_missed_at ≡ none
    → (attempt_of a now r r).broadcast_missed_at ≡ none
unfolding attempt_of set_broadcast set_status
attempt_of-miss (ok txid) now r h = refl
attempt_of-miss (err msg) now r h = ground arith

broadcast_row-miss :
    (b : Backend) (now : Clock) (c : MtpCache) (network : String) (r : Row)
    → r.broadcast_missed_at ≡ none
    → (broadcast_row b now c network r).broadcast_missed_at ≡ none
unfolding broadcast_row attempt
broadcast_row-miss b now c network r h =
    ground (arith, attempt_of-miss (broadcast_transaction b r.tx_hex) now r h)

-- At most one move in each of the three passes: marking, requeueing, broadcasting.
abbrev pub TickMoves : TxStatus → TxStatus → Type 0
TickMoves s v = (t u : TxStatus) × TickMove s t × TickMove t u × TickMove u v

module _ (b : Backend) (now : Clock) (m : PoolManager) (r : Row) where
  -- A tick of a healthy backend finds each transaction again, moved by at most one step of each of
  -- its three passes, and with no miss recorded where none was. Ids are distinct, and at most 1000
  -- transactions of the network have failed.
  pub run_scheduler_tick-moves :
      indexer_healthy b ≡ true
      → Distinct m.db
      → length (filter (matches_filter (some "failed") m.config.network) m.db) ≤ 1000
      → get_broadcast_tx_by_id r.id m.db ≡ ok r
      → (s : Row) × (get_broadcast_tx_by_id r.id (run_scheduler_tick b now m).0.db ≡ ok s)
        × TickMoves r.status s.status
        × (r.broadcast_missed_at ≡ none → s.broadcast_missed_at ≡ none)
  run_scheduler_tick-moves healthy d few found =
      let network = m.config.network in
      let marked = mark_row now.utc network r in
      let requeued = requeue_row now.utc network marked in
      (
        tick_row b now m.mtp_cache network r,
        run_scheduler_tick-get b now m r healthy d few found,
        (
          marked.status,
          requeued.status,
          mark_row-TickMove now.utc network r,
          requeue_row-TickMove now.utc network marked,
          broadcast_row-TickMove b now m.mtp_cache network requeued,
        ),
        (λ h. broadcast_row-miss b now m.mtp_cache network requeued (
            (requeue_row-SameTx now.utc network marked).3
            ∙ (mark_row-SameTx now.utc network r).3
            ∙ h)),
      )
