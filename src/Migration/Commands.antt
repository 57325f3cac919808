-- ===== src/Migration/Commands.antt =====
-- sparrow-broadcast-pool/src/main.rs: the commands on migration plans, on the plans, their utxos and
-- the pool. The ids, the random draws and the addition of hours are parameters.
pub mod Imported
pub mod Scheduled
use umbrel_apps.Prelude.{
  ℕ, ◌+◌, ◌-◌, ◌^◌, max, suc, String, Option, none, some, List, [], ◌∷◌, length, Result, ok, err,
  ◌>>=◌, get_or, any, opt_is, ◌&&◌, if◌then◌else◌,
}
use umbrel_apps.Prelude.Float.{F64}
use umbrel_apps.Prelude.Int.{ℤ, pos, negsuc}
use umbrel_apps.Db.Models.{DateTime, NewBroadcastTx, Row}
use umbrel_apps.Db.Table
use umbrel_apps.Db.Table.{Table, has_id, insert_broadcast_tx}
use umbrel_apps.Pool.Schedule.Delay.{as_i64, Draws, max_f64}
use umbrel_apps.Migration.Plans.{
  PlanStatus, active, paused, wrap_i32, MigrationPlan, NewMigrationPlan, MigrationUtxo,
  NewMigrationUtxo, get_migration_plan_by_id, insert_migration_plan, update_plan_status,
  update_plan_total, insert_migration_utxo, list_migration_utxos, link_utxo_to_pool,
}

pub record Store : Type 0 where
  pub pool : Table
  pub plans : List MigrationPlan
  pub utxos : List MigrationUtxo

-- A sum of `i32` and a count, which wraps.
abbrev pub add_i32 : ℤ → ℕ → ℤ
add_i32 (pos a) n = wrap_i32 (a + n)
add_i32 (negsuc a) n = wrap_i32 (2 ^ 32 - 1 - a + n)

-- `x as u64` of an `i32`.
abbrev pub as_u64 : ℤ → ℕ
as_u64 (pos n) = n
as_u64 (negsuc n) = 2 ^ 64 - 1 - n

-- `migrate create`.
unfoldable pub create :
    String → DateTime → String → Option String → Option String → String → Store → Result Store
create id now name source destination network s =
    insert_migration_plan id now
      (record {
        name = name;
        source_wallet = source;
        destination_wallet = destination;
        network = network;
        min_delay_hours = none;
        max_delay_hours = none;
        min_fee_rate = none;
        max_fee_rate = none;
      })
      s.plans
    >>= λ made. ok (record s { plans = made.0 })

-- The loop over the utxos, each with the id that is drawn for it. What was inserted before an error
-- stays.
unfoldable pub insert_all :
    DateTime → String → List (String × NewMigrationUtxo) → Store → Store × Result ℕ
insert_all now plan [] s = (s, ok 0)
insert_all now plan ((id, u) ∷ us) s = elim (insert_migration_utxo id now plan u s.plans s.utxos) [
  | err e ↦ (s, err e)
  | ok (utxos, row) ↦
      (let (s', imported) = insert_all now plan us (record s { utxos = utxos }) in
        elim imported [ err e ↦ (s', err e) | ok n ↦ (s', ok (suc n)) ])
]

abbrev counted : DateTime → String → Store × Result ℕ → Store × Result ℕ
counted now plan (s, err e) = (s, err e)
counted now plan (s, ok imported) = elim (get_migration_plan_by_id plan s.plans) [
  | err e ↦ (s, err e)
  | ok p ↦ (
    record s { plans = update_plan_total plan (add_i32 p.total_transactions imported) now s.plans },
    ok imported,
  )
]

-- `migrate import-utxos`, with what the importer read.
unfoldable pub import_utxos :
    DateTime → String → Result (List (String × NewMigrationUtxo)) → Store → Store × Result ℕ
unfolding insert_all
import_utxos now plan read s = elim (get_migration_plan_by_id plan s.plans) [
  | err e ↦ (s, err e)
  | ok p ↦ elim read [ err e ↦ (s, err e) | ok us ↦ counted now plan (insert_all now plan us s) ]
]

-- What the command line asks for.
pub record Range : Type 0 where
  pub min_delay : Option ℕ
  pub max_delay : Option ℕ
  pub min_fee : Option F64
  pub max_fee : Option F64

abbrev pub delay_of : Draws → Range → MigrationPlan → ℕ
delay_of d r p =
    let lowest = get_or r.min_delay (as_u64 p.min_delay_hours) in
    d.gen_hours lowest (max (get_or r.max_delay (as_u64 p.max_delay_hours)) lowest)

abbrev pub fee_of : Draws → Range → MigrationPlan → F64
fee_of d r p =
    let lowest = get_or r.min_fee p.min_fee_rate in
    d.gen_rate lowest (max_f64 (get_or r.max_fee p.max_fee_rate) lowest)

-- The transaction of a utxo has no hex yet.
abbrev pub placeholder : Draws → DateTime → Range → MigrationPlan → MigrationUtxo → NewBroadcastTx
placeholder d now r p u = record {
  tx_hex = "";
  network = p.network;
  nlocktime = none;
  broadcast_mode = none;
  scheduled_time = d.add_hours now (as_i64 (delay_of d r p));
  target_fee_rate = some (fee_of d r p);
  source_label = u.source_label;
  destination_address = u.address;
  utxo_count = some 1;
  total_value_btc = some u.value_btc;
  replacement_of = none;
}

-- `draws` and `ids` are what is drawn for each utxo, by its id.
module _ (draws : String → Draws) (ids : String → String) (now : DateTime) (r : Range) where
  -- The loop over the utxos of the plan; `?` ends it at the first error.
  unfoldable pub schedule_utxos : MigrationPlan → List MigrationUtxo → Store → Store × Result ℕ
  schedule_utxos p [] s = (s, ok 0)
  schedule_utxos p (u ∷ us) s =
      elim (insert_broadcast_tx (ids u.id) now (placeholder (draws u.id) now r p u) s.pool) [
        | err e ↦ (s, err e)
        | ok (pool, tx) ↦ elim (link_utxo_to_pool u.id tx.id pool s.utxos) [
          | err e ↦ (record s { pool = pool }, err e)
          | ok utxos ↦
              (let (s', rest) = schedule_utxos p us (record s { pool = pool; utxos = utxos }) in
                elim rest [ err e ↦ (s', err e) | ok n ↦ (s', ok (suc n)) ])
        ]
      ]

  -- `migrate schedule`.
  unfoldable pub schedule : String → Store → Store × Result ℕ
  unfolding schedule_utxos
  schedule plan s = elim (get_migration_plan_by_id plan s.plans) [
    | err e ↦ (s, err e)
    | ok p ↦ schedule_utxos p (list_migration_utxos plan s.utxos) s
  ]

-- `migrate activate` and `migrate pause`.
unfoldable pub activate : DateTime → String → Store → Store
activate now id s = record s { plans = update_plan_status id active now s.plans }

unfoldable pub pause : DateTime → String → Store → Store
pause now id s = record s { plans = update_plan_status id paused now s.plans }

-- `DELETE FROM broadcast_pool WHERE id = ?1`, which a utxo that refers to the row forbids.
unfoldable pub remove_from_pool : String → Store → Result Store
remove_from_pool id s =
    Table.remove_broadcast_tx
      (λ i. any (λ (u : MigrationUtxo). opt_is u.broadcast_pool_id i) s.utxos) id s.pool
    >>= λ removed. ok (record s { pool = removed.0 })
