-- ===== src/Pool/Schedule/Rules.antt =====
-- When a schedule is set, and what an attempt then waits for.
use umbrel_apps.Prelude.{
  ◌<◌, String, none, some, true, false, ◌&&◌, [], ◌∷◌, ◌≡◌, ◌≢◌, refl, ap, ◌∙◌, inl, inr, Result,
  ok, err, is_ok, arith, eq_refl, leb, if◌then◌else◌, lt→leb, leb-false→lt, any, not_both,
  Bool-cases, Result-cases,
}
use umbrel_apps.Prelude.Float.{F64}
use umbrel_apps.Db.Models.{DateTime, scheduled, failed, is_status, status_eq, Row, BroadcastTx}
use umbrel_apps.Db.Table
use umbrel_apps.Db.Table.{
  Table, has_id, get_broadcast_tx_by_id, update_where, set_reschedule, set_price, set_retry,
}
use umbrel_apps.Db.Table.Update.{KeepsId, get-update_where, map_ok}
use umbrel_apps.Pool.Backend.{Backend, Clock}
use umbrel_apps.Pool.Manager.{PoolManager}
use umbrel_apps.Pool.Due.{attempt_reached, waits_for_price}
use umbrel_apps.Pool.Enrich.Shown.{show_transaction-row, row_of}
use umbrel_apps.Pool.Schedule.{
  is_reschedule, is_before_locktime, reschedule, schedule_at, retry_failed_transaction,
}

pub get-changed :
    (id : String) (set : Row → Row) (t : Table) (r : Row)
    → KeepsId set
    → get_broadcast_tx_by_id id t ≡ ok r
    → get_broadcast_tx_by_id id (update_where id set t) ≡ ok (set r)
get-changed id set t r k found =
    get-update_where id id set t k ∙ rw (eq_refl id) (ap (map_ok set) found)

-- The row that `schedule_at` makes of `r`.
abbrev pub rescheduled : DateTime → F64 → DateTime → Row → Row
rescheduled time fee now r =
    set_reschedule time (if is_reschedule r then some time else none) fee now r

pub schedule_at-ok :
    (b : Backend) (now : Clock) (id : String) (time : DateTime) (fee : F64) (m : PoolManager)
    (r : Row)
    → get_broadcast_tx_by_id id m.db ≡ ok r
    → now.utc < time
    → is_before_locktime time r ≡ false
    → (row_of (schedule_at b now id time fee m).1 ≡ ok (rescheduled time fee now.utc r))
      × ((schedule_at b now id time fee m).0.db
          ≡ update_where id
              (set_reschedule time (if is_reschedule r then some time else none) fee now.utc)
              m.db)
unfolding schedule_at reschedule Table.update_reschedule set_reschedule
schedule_at-ok b now id time fee m r found later free =
    let set = set_reschedule time (if is_reschedule r then some time else none) fee now.utc in
    let shown = show_transaction-row b now id (record m { db = update_where id set m.db }) in
    rw (found, schedule_at)
      (rw (lt→leb now.utc time later, free)
        (shown.1 ∙ get-changed id set m.db r (λ s. refl) found, shown.0))

pub shown_ok : {r : Row} (a : Result BroadcastTx) → row_of a ≡ ok r → is_ok a ≡ false → ⊥
shown_ok (ok tx) e h = ground arith
shown_ok (err msg) e h = ground arith

-- A call that is refused leaves the store as it was.
pub schedule_at-err :
    (b : Backend) (now : Clock) (id : String) (time : DateTime) (fee : F64) (m : PoolManager)
    → is_ok (schedule_at b now id time fee m).1 ≡ false
    → (schedule_at b now id time fee m).0.db ≡ m.db
unfolding schedule_at
schedule_at-err b now id time fee m h = elim (Result-cases (get_broadcast_tx_by_id id m.db)) [
  | inr (msg, e) ↦ rw (e, schedule_at) refl
  | inl (r, e) ↦
      rw (e, schedule_at)
        (elim (Bool-cases (leb time now.utc)) [
          | inl y ↦ rw y refl
          | inr n ↦ rw n (elim (Bool-cases (is_before_locktime time r)) [
            | inl y' ↦ rw y' refl
            | inr n' ↦
                elim (shown_ok _
                  (schedule_at-ok b now id time fee m r e (leb-false→lt time now.utc n) n').0 h) [ ]
          ])
        ])
]

-- The row waits for its new time and for nothing else but the locktime.
pub rescheduled-attempt_reached :
    (time : DateTime) (fee : F64) (now later : DateTime) (r : Row)
    → (attempt_reached later (rescheduled time fee now r) ≡ leb time later)
      × (waits_for_price (rescheduled time fee now r) ≡ false)
unfolding set_reschedule
rescheduled-attempt_reached time fee now later r = ground arith

set_retry-KeepsId : (now : DateTime) → KeepsId (set_retry now)
unfolding set_retry
set_retry-KeepsId now r = ground arith

any-failed :
    (id : String) (t : Table) (r : Row)
    → get_broadcast_tx_by_id id t ≡ ok r
    → is_status r.status failed ≡ true
    → any (λ s. has_id id s && is_status s.status failed) t ≡ true
unfolding get_broadcast_tx_by_id
any-failed id [] r found st = ground arith
any-failed id (s ∷ t) r found st = ground (arith, any-failed id t r)

retried :
    (now : DateTime) (r : Row)
    → is_status r.status failed ≡ true
    → set_retry now r ≡ record r { status = scheduled; error_message = none; updated_at = now }
unfolding set_retry
retried now r y = rw y refl

-- A retry succeeds exactly on a failed transaction, which is then scheduled again without its error,
-- and else leaves the store as it was.
pub retry_failed_transaction_iff :
    (b : Backend) (now : Clock) (id : String) (m : PoolManager) (r : Row)
    → get_broadcast_tx_by_id id m.db ≡ ok r
    → (r.status ≡ failed
        → row_of (retry_failed_transaction b now id m).1
          ≡ ok (record r { status = scheduled; error_message = none; updated_at = now.utc }))
      × (r.status ≢ failed
          → ((retry_failed_transaction b now id m).0.db ≡ m.db)
            × (is_ok (retry_failed_transaction b now id m).1 ≡ false))
unfolding retry_failed_transaction Table.reset_failed_to_scheduled
retry_failed_transaction_iff b now id m r found = elim (Bool-cases (is_status r.status failed)) [
  | inr n ↦ (
    λ e. elim (not_both (ap (λ s. is_status s failed) e) n) [ ],
    λ e. rw (found, retry_failed_transaction) (rw n (refl, refl)),
  )
  | inl y ↦ (
    λ e.
        (let shown =
            show_transaction-row b now id
              (record m { db = update_where id (set_retry now.utc) m.db }) in
          rw (found, retry_failed_transaction)
            (rw (y, any-failed id m.db r found y)
              (shown.1
                ∙ get-changed id (set_retry now.utc) m.db r (set_retry-KeepsId now.utc) found
                ∙ ap ok (retried now.utc r y)))),
    λ e. elim (e (status_eq r.status failed y)) [ ],
  )
]
