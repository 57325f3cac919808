-- ===== src/Pool/Schedule/Delay.antt =====
-- sparrow-broadcast-pool/src/pool/manager.rs: schedules with a random delay. The random draws and the
-- addition of hours to a time are parameters.
use umbrel_apps.Prelude.{
  ℕ, ◌+◌, ◌-◌, ◌*◌, ◌^◌, ◌≤◌, max, ltb, String, Option, none, some, List, [], ◌∷◌, ◌≡◌, Result, ok,
  err, get_or, if◌then◌else◌,
}
use umbrel_apps.Prelude.Int.{ℤ, pos, negsuc}
use umbrel_apps.Prelude.Float.{F64, le_f64, is_nan}
use umbrel_apps.Db.Models.{DateTime, nanos_per_sec, scheduled, Row, BroadcastTx, map_broadcast_row}
use umbrel_apps.Db.Table
use umbrel_apps.Db.Table.{Table, update_where, get_broadcast_tx_by_id}
use umbrel_apps.Pool.Backend.{Clock, map_result}
use umbrel_apps.Pool.Manager.{PoolManager, Config}

-- The crates `rand` and `chrono`: two draws from a range, and `checked_add_signed` of some hours, an
-- i64. Hours out of the range of `Duration::hours`, on which it panics, are left out.
pub record Draws : Type 0 where
  pub gen_hours : ℕ → ℕ → ℕ
  pub gen_rate : F64 → F64 → F64
  pub add_hours : DateTime → ℤ → Option DateTime

-- `f64::max`, which leaves NaN out.
abbrev pub max_f64 : F64 → F64 → F64
max_f64 a c = if is_nan a then c else if is_nan c then a else if le_f64 a c then c else a

-- What the caller asks for; what is missing comes from the configuration.
pub record Wish : Type 0 where
  pub min_delay_hours : Option ℕ
  pub max_delay_hours : Option ℕ
  pub min_fee_rate : Option F64
  pub max_fee_rate : Option F64
  pub fixed_fee_rate : Option F64

abbrev pub least_hours : Config → Wish → ℕ
least_hours config w = get_or w.min_delay_hours config.min_delay_hours

abbrev pub most_hours : Config → Wish → ℕ
most_hours config w = max (get_or w.max_delay_hours config.max_delay_hours) (least_hours config w)

abbrev pub delay_hours : Draws → Config → Wish → ℕ
delay_hours d config w = d.gen_hours (least_hours config w) (most_hours config w)

-- `as i64` of a u64.
abbrev pub as_i64 : ℕ → ℤ
as_i64 n = if ltb n (2 ^ 63) then pos n else negsuc (2 ^ 64 - 1 - n)

abbrev pub fee_rate : Draws → Config → Wish → F64
fee_rate d config w = elim w.fixed_fee_rate [
  | some fixed ↦ fixed
  | none ↦
      (let lowest = get_or w.min_fee_rate config.min_fee_rate in
        d.gen_rate lowest (max_f64 (get_or w.max_fee_rate config.max_fee_rate) lowest))
]

-- `UPDATE broadcast_pool SET status = 'scheduled', scheduled_time = ?1, target_fee_rate = ?2, …`.
unfoldable pub set_delayed : DateTime → F64 → DateTime → Row → Row
set_delayed time fee now r = record r {
  status = scheduled;
  scheduled_time = some time;
  target_fee_rate = some fee;
  updated_at = now;
}

unfoldable pub schedule_transaction :
    Draws → Clock → String → Wish → PoolManager → PoolManager × Result BroadcastTx
schedule_transaction d now id w m = elim (d.add_hours now.utc (as_i64 (delay_hours d m.config w))) [
  | none ↦ (m, err "Failed to calculate scheduled time")
  | some time ↦
      (let db' = update_where id (set_delayed time (fee_rate d m.config w) now.utc) m.db in
        (record m { db = db' }, map_result map_broadcast_row (get_broadcast_tx_by_id id db')))
]

abbrev no_wish : Wish
no_wish = record {
  min_delay_hours = none;
  max_delay_hours = none;
  min_fee_rate = none;
  max_fee_rate = none;
  fixed_fee_rate = none;
}

-- The loop draws anew for each transaction; `?` ends it at the first error.
unfoldable pub schedule_loop :
    (String → Draws) → Clock → List Row → PoolManager → PoolManager × Result (List BroadcastTx)
schedule_loop draws now [] m = (m, ok [])
schedule_loop draws now (tx ∷ txs) m =
    let (m', first) = schedule_transaction (draws tx.id) now tx.id no_wish m in
    let next = schedule_loop draws now txs m' in
    elim first [
      | err e ↦ (m', err e)
      | ok shown ↦ elim next.1 [ err e ↦ (next.0, err e) | ok rest ↦ (next.0, ok (shown ∷ rest)) ]
    ]

unfoldable pub schedule_all_pending :
    (String → Draws) → Clock → String → PoolManager → PoolManager × Result (List BroadcastTx)
unfolding schedule_loop
schedule_all_pending draws now network m =
    schedule_loop draws now (Table.list_broadcast_txs (some "pending") network 1000 m.db) m

abbrev pub hour : ℕ
hour = 3_600 * nanos_per_sec

-- What the crates promise: a draw lies in its range, and hours ahead that can be added are added.
abbrev pub KeepsRange : Draws → Type 0
KeepsRange d =
    (lowest highest : ℕ)
    → lowest ≤ highest
    → (lowest ≤ d.gen_hours lowest highest) × (d.gen_hours lowest highest ≤ highest)

abbrev pub AddsHours : Draws → Type 0
AddsHours d = (t h u : ℕ) → d.add_hours t (pos h) ≡ some u → u ≡ t + h * hour
