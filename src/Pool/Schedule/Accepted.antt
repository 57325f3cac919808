-- ===== src/Pool/Schedule/Accepted.antt =====
-- Which times `schedule_at` accepts, and what the store then holds.
use umbrel_apps.Prelude.{
  ℕ, ◌<◌, ◌≤◌, ◌*◌, String, none, some, true, false, ◌≡◌, ◌≢◌, refl, ap, ◌∙◌, ◌⊎◌, inl, inr, ok,
  is_ok, arith, leb, leb-false→lt, Bool-cases, Option-cases, not_both, opt_is→some, if◌then◌else◌,
}
use umbrel_apps.Prelude.Float.{F64}
use umbrel_apps.Db.Models.{DateTime, nanos_per_sec, scheduled, Row}
use umbrel_apps.Db.Table.{get_broadcast_tx_by_id, set_reschedule}
use umbrel_apps.Pool.Backend.{Backend, Clock}
use umbrel_apps.Pool.Manager.{PoolManager}
use umbrel_apps.Pool.Schedule.{is_reschedule, is_before_locktime, schedule_at}
use umbrel_apps.Pool.Schedule.Rules.{schedule_at-ok, rescheduled, get-changed}

-- A time ahead, which does not lie before a locktime that is a time.
abbrev pub IsAllowed : DateTime → DateTime → Row → Type 0
IsAllowed now time r =
    (now < time)
    × ((r.nlocktime ≡ none)
        ⊎ ((n : ℕ) × (r.nlocktime ≡ some n) × ((n ≤ 500_000_000) ⊎ (n * nanos_per_sec ≤ time))))

-- The transaction had a schedule of some kind.
abbrev pub HadSchedule : Row → Type 0
HadSchedule r =
    (r.broadcast_missed_at ≢ none)
    ⊎ (r.defer_until ≢ none)
    ⊎ (r.scheduled_time ≢ none)
    ⊎ (r.schedule_trigger ≡ some "price")
    ⊎ (r.broadcast_mode ≡ some "scheduled")
    ⊎ (r.broadcast_mode ≡ some "manual")

-- Scheduled for that time at that fee rate, deferred until then if it had a schedule, with no error and
-- no price to wait for, and else as it was.
abbrev pub IsScheduledFor : DateTime → F64 → Row → Row → Type 0
IsScheduledFor time fee r s =
    (s.status ≡ scheduled)
    × (s.scheduled_time ≡ some time)
    × (s.target_fee_rate ≡ some fee)
    × ((HadSchedule r × (s.defer_until ≡ some time)) ⊎ ((¬ HadSchedule r) × (s.defer_until ≡ none)))
    × (s.error_message ≡ none)
    × (s.schedule_trigger ≡ some "datetime")
    × (s.target_price ≡ none)
    × (s.tx_hex ≡ r.tx_hex)
    × (s.nlocktime ≡ r.nlocktime)
    × (s.network ≡ r.network)

allowed-test :
    (time : DateTime) (r : Row)
    → (r.nlocktime ≡ none)
      ⊎ ((n : ℕ) × (r.nlocktime ≡ some n) × ((n ≤ 500_000_000) ⊎ (n * nanos_per_sec ≤ time)))
    → is_before_locktime time r ≡ false
unfolding is_before_locktime
allowed-test time r (inl e) = rw e refl
allowed-test time r (inr (n, e, inl low)) = rw e (ground arith)
allowed-test time r (inr (n, e, inr late)) = rw e (ground arith)

test-allowed :
    (time : DateTime) (r : Row)
    → is_before_locktime time r ≡ false
    → (r.nlocktime ≡ none)
      ⊎ ((n : ℕ) × (r.nlocktime ≡ some n) × ((n ≤ 500_000_000) ⊎ (n * nanos_per_sec ≤ time)))
unfolding is_before_locktime
test-allowed time r h = elim (Option-cases r.nlocktime) [
  | inl e ↦ inl e
  | inr (n, e) ↦ inr (
    n,
    e,
    elim (Bool-cases (leb n 500_000_000)) [
      | inl y ↦ inl (ground arith)
      | inr k ↦ inr (ground arith)
    ],
  )
]

HadSchedule-test : (r : Row) → HadSchedule r → is_reschedule r ≡ true
unfolding is_reschedule
HadSchedule-test r h = ground arith

test-HadSchedule : (r : Row) → is_reschedule r ≡ true → HadSchedule r
unfolding is_reschedule
test-HadSchedule r h = ground (
  arith,
  opt_is→some r.schedule_trigger "price",
  opt_is→some r.broadcast_mode "scheduled",
  opt_is→some r.broadcast_mode "manual",
)

rescheduled-IsScheduledFor :
    (time : DateTime) (fee : F64) (now : DateTime) (r : Row)
    → IsScheduledFor time fee r (rescheduled time fee now r)
unfolding set_reschedule
rescheduled-IsScheduledFor time fee now r =
    (refl, refl, refl, deferred, refl, refl, refl, refl, refl, refl)
  where
    deferred :
        (HadSchedule r × ((if is_reschedule r then some time else none) ≡ some time))
        ⊎ ((¬ HadSchedule r) × ((if is_reschedule r then some time else none) ≡ none))
    deferred = elim (Bool-cases (is_reschedule r)) [
      | inl y ↦ inl (test-HadSchedule r y, rw y refl)
      | inr n ↦ inr ((λ had. not_both (HadSchedule-test r had) n), rw n refl)
    ]

-- `schedule_at` on a known transaction, in whatever status, accepts a time exactly if it lies ahead and
-- is not before a locktime that is a time (above 500000000). Then the store holds the transaction as
-- scheduled for it, and deferred to it if it had a schedule before, so that the old one is void; else
-- the call fails and the store stays as it was.
pub schedule_at-IsAllowed :
    (b : Backend) (now : Clock) (id : String) (time : DateTime) (fee : F64) (m : PoolManager)
    (r : Row)
    → get_broadcast_tx_by_id id m.db ≡ ok r
    → (IsAllowed now.utc time r
        × ((s : Row) × (get_broadcast_tx_by_id id (schedule_at b now id time fee m).0.db ≡ ok s)
            × IsScheduledFor time fee r s))
      ⊎ ((¬ IsAllowed now.utc time r)
          × (is_ok (schedule_at b now id time fee m).1 ≡ false)
          × ((schedule_at b now id time fee m).0.db ≡ m.db))
unfolding schedule_at set_reschedule
schedule_at-IsAllowed b now id time fee m r found = elim (Bool-cases (leb time now.utc)) [
  | inl y ↦ inr (
    (λ a. (let (ahead, locktime) = a in late ahead y)),
    rw (found, schedule_at) (rw y refl),
    rw (found, schedule_at) (rw y refl),
  )
  | inr n ↦ elim (Bool-cases (is_before_locktime time r)) [
    | inl y ↦ inr (
      (λ a. (let (ahead, locktime) = a in not_both y (allowed-test time r locktime))),
      rw (found, schedule_at) (rw (n, y) refl),
      rw (found, schedule_at) (rw (n, y) refl),
    )
    | inr k ↦
        let ahead = leb-false→lt time now.utc n in
        inl (
          (ahead, test-allowed time r k),
          (
            rescheduled time fee now.utc r,
            ap (get_broadcast_tx_by_id id) (schedule_at-ok b now id time fee m r found ahead k).1
                ∙ get-changed id _ m.db r (λ s. refl) found,
            rescheduled-IsScheduledFor time fee now.utc r,
          ),
        )
  ]
]
  where
    late : now.utc < time → leb time now.utc ≡ true → ⊥
    late a y = ground arith
