-- ===== src/Examples/Migrations.antt =====
-- The theorems on migration plans, applied to a plan with one utxo.
use umbrel_apps.Prelude.{
  All, ◌*◌, ◌+◌, none, some, List, [], ◌∷◌, ◌++◌, map, ◌≡◌, refl, ok, length, arith, concat,
}
use umbrel_apps.Prelude.Float.{of_ℕ}
use umbrel_apps.Prelude.Int.{pos, pos_part}
use umbrel_apps.Db.Models.{nanos_per_sec, pending}
use umbrel_apps.Pool.Schedule.Delay.{Draws}
use umbrel_apps.Migration.Plans.{
  draft, MigrationPlan, MigrationUtxo, NewMigrationUtxo, get_migration_plan_by_id,
  list_migration_utxos, new_utxo,
}
use umbrel_apps.Migration.Commands.{Store, Range, import_utxos, schedule}
use umbrel_apps.Migration.Commands.Imported.{Drawn, import_utxos-total}
use umbrel_apps.Migration.Commands.Scheduled.{pool_row, link_all, schedule-rows}
use umbrel_apps.Examples.{now, pool}

abbrev coin : NewMigrationUtxo
coin = record {
  txid = "t5";
  vout = pos 1;
  value_btc = of_ℕ 1;
  address = none;
  label = some "savings";
  source_label = some "savings";
}

abbrev plan : MigrationPlan
plan = record {
  id = "plan-1";
  name = "move";
  source_wallet = none;
  destination_wallet = none;
  network = "mainnet";
  status = draft;
  min_delay_hours = pos 2;
  max_delay_hours = pos 72;
  min_fee_rate = of_ℕ 1;
  max_fee_rate = of_ℕ 50;
  total_transactions = pos 1;
  completed_transactions = pos 0;
  total_value_migrated_btc = of_ℕ 0;
  created_at = 1;
  updated_at = 1;
}

abbrev store : Store
store = record { pool = pool; plans = plan ∷ []; utxos = new_utxo "utxo-1" 3 "plan-1" coin ∷ [] }

abbrev drawn : List Drawn
drawn = ("utxo-2", coin) ∷ ("utxo-3", coin) ∷ []

plan_found : get_migration_plan_by_id "plan-1" store.plans ≡ ok plan
unfolding get_migration_plan_by_id
plan_found = refl

import_utxos-total_example :
    ((import_utxos now.utc "plan-1" (ok drawn) store).1 ≡ ok 2)
    × (length
          (list_migration_utxos "plan-1" (import_utxos now.utc "plan-1" (ok drawn) store).0.utxos)
        ≡ length (list_migration_utxos "plan-1" store.utxos) + 2)
    × (get_migration_plan_by_id "plan-1" (import_utxos now.utc "plan-1" (ok drawn) store).0.plans
        ≡ ok (record plan { total_transactions = pos 3; updated_at = now.utc }))
import_utxos-total_example =
    import_utxos-total now.utc "plan-1" drawn store plan 1 plan_found refl (omega arith)
      (refl, refl, (refl, refl, tt))

abbrev draws : Draws
draws = record {
  gen_hours = λ a b. a;
  gen_rate = λ a b. a;
  add_hours = λ t h. some (t + pos_part h * 3_600 * nanos_per_sec);
}

abbrev range : Range
range = record { min_delay = none; max_delay = some 5; min_fee = none; max_fee = none }

abbrev one : List MigrationUtxo
one = list_migration_utxos "plan-1" store.utxos

schedule-rows_example :
    ((schedule (λ id. draws) (λ id. concat ("pool-" ∷ id ∷ [])) now.utc range "plan-1" store).1
      ≡ ok (length one))
    × ((schedule
          (λ id. draws)
          (λ id. concat ("pool-" ∷ id ∷ []))
          now.utc
          range
          "plan-1"
          store).0.pool
        ≡ pool
          ++ map (pool_row (λ id. draws) (λ id. concat ("pool-" ∷ id ∷ [])) now.utc range plan) one)
    × ((schedule
          (λ id. draws)
          (λ id. concat ("pool-" ∷ id ∷ []))
          now.utc
          range
          "plan-1"
          store).0.utxos
        ≡ link_all
            (λ id. draws)
            (λ id. concat ("pool-" ∷ id ∷ []))
            now.utc
            range
            plan
            one
            store.utxos)
    × All
        (λ x. (x.tx_hex ≡ "") × (x.status ≡ pending))
        (map (pool_row (λ id. draws) (λ id. concat ("pool-" ∷ id ∷ [])) now.utc range plan) one)
unfolding list_migration_utxos
schedule-rows_example =
    schedule-rows (λ id. draws) (λ id. concat ("pool-" ∷ id ∷ [])) now.utc range "plan-1" store plan
      plan_found (refl, refl, tt)
