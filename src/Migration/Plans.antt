-- ===== src/Migration/Plans.antt =====
-- sparrow-broadcast-pool/src/db/models.rs and db/mod.rs: the tables migration_plans and
-- migration_utxos, as the lists of their rows in the order of insertion. Foreign keys are enforced.
use umbrel_apps.Prelude.{
  ℕ, ◌-◌, ◌%◌, ◌^◌, String, Option, none, some, Bool, not, ◌&&◌, ◌||◌, List, [], ◌∷◌, ◌++◌, Result,
  ok, err, ◌>>=◌, str_eq, get_or, leb, ltb, any, filter, if◌then◌else◌,
}
use umbrel_apps.Prelude.Float.{F64, of_ℕ}
use umbrel_apps.Prelude.Int.{ℤ, pos, negsuc}
use umbrel_apps.Db.Models.{DateTime}
use umbrel_apps.Db.Table.{Table, has_id}

pub data PlanStatus : Type 0 where
  draft active paused completed : PlanStatus

abbrev pub plan_as_str : PlanStatus → String
plan_as_str draft = "draft"
plan_as_str active = "active"
plan_as_str paused = "paused"
plan_as_str completed = "completed"

-- A text that is no status reads as `draft`.
abbrev pub plan_from_str : String → PlanStatus
plan_from_str s =
    if str_eq s "active"
    then active
    else if str_eq s "paused"
    then paused
    else if str_eq s "completed"
    then completed
    else draft

-- The `i32` of a whole number, which wraps.
abbrev pub wrap_i32 : ℕ → ℤ
wrap_i32 n = let m = n % 2 ^ 32 in if ltb m (2 ^ 31) then pos m else negsuc (2 ^ 32 - m - 1)

pub record MigrationPlan : Type 0 where
  pub id : String
  pub name : String
  pub source_wallet : Option String
  pub destination_wallet : Option String
  pub network : String
  pub status : PlanStatus
  pub min_delay_hours : ℤ
  pub max_delay_hours : ℤ
  pub min_fee_rate : F64
  pub max_fee_rate : F64
  pub total_transactions : ℤ
  pub completed_transactions : ℤ
  pub total_value_migrated_btc : F64
  pub created_at : DateTime
  pub updated_at : DateTime

pub record NewMigrationPlan : Type 0 where
  pub name : String
  pub source_wallet : Option String
  pub destination_wallet : Option String
  pub network : String
  pub min_delay_hours : Option ℤ
  pub max_delay_hours : Option ℤ
  pub min_fee_rate : Option F64
  pub max_fee_rate : Option F64

pub record MigrationUtxo : Type 0 where
  pub id : String
  pub plan_id : String
  pub txid : String
  pub vout : ℤ
  pub value_btc : F64
  pub address : Option String
  pub label : Option String
  pub source_label : Option String
  pub broadcast_pool_id : Option String
  pub created_at : DateTime

pub record NewMigrationUtxo : Type 0 where
  pub txid : String
  pub vout : ℤ
  pub value_btc : F64
  pub address : Option String
  pub label : Option String
  pub source_label : Option String

abbrev pub has_plan_id : String → MigrationPlan → Bool
has_plan_id id p = str_eq p.id id

abbrev pub has_utxo_id : String → MigrationUtxo → Bool
has_utxo_id id u = str_eq u.id id

unfoldable pub get_migration_plan_by_id : String → List MigrationPlan → Result MigrationPlan
get_migration_plan_by_id id [] = err "Failed to get migration plan"
get_migration_plan_by_id id (p ∷ ps) =
    let rest = get_migration_plan_by_id id ps in if str_eq p.id id then ok p else rest

abbrev pub new_plan : String → DateTime → NewMigrationPlan → MigrationPlan
new_plan id now plan = record {
  id = id;
  name = plan.name;
  source_wallet = plan.source_wallet;
  destination_wallet = plan.destination_wallet;
  network = plan.network;
  status = draft;
  min_delay_hours = get_or plan.min_delay_hours (pos 2);
  max_delay_hours = get_or plan.max_delay_hours (pos 72);
  min_fee_rate = get_or plan.min_fee_rate (of_ℕ 1);
  max_fee_rate = get_or plan.max_fee_rate (of_ℕ 50);
  total_transactions = pos 0;
  completed_transactions = pos 0;
  total_value_migrated_btc = of_ℕ 0;
  created_at = now;
  updated_at = now;
}

-- `id` is what `Uuid::new_v4` returned.
unfoldable pub insert_migration_plan :
    String
    → DateTime
    → NewMigrationPlan
    → List MigrationPlan
    → Result (List MigrationPlan × MigrationPlan)
insert_migration_plan id now plan plans =
    let plans' = plans ++ (new_plan id now plan ∷ []) in
    if any (has_plan_id id) plans
    then err "Failed to insert migration plan"
    else get_migration_plan_by_id id plans' >>= λ p. ok (plans', p)

-- ORDER BY created_at DESC.
unfoldable pub insert_plan_desc : MigrationPlan → List MigrationPlan → List MigrationPlan
insert_plan_desc p [] = p ∷ []
insert_plan_desc p (q ∷ qs) =
    let rest = insert_plan_desc p qs in
    if leb q.created_at p.created_at then p ∷ q ∷ qs else q ∷ rest

unfoldable pub order_plans_desc : List MigrationPlan → List MigrationPlan
unfolding insert_plan_desc
order_plans_desc [] = []
order_plans_desc (p ∷ ps) = insert_plan_desc p (order_plans_desc ps)

unfoldable pub list_migration_plans : String → List MigrationPlan → List MigrationPlan
unfolding order_plans_desc
list_migration_plans network plans = order_plans_desc (filter (λ p. str_eq p.network network) plans)

-- UPDATE migration_plans SET … WHERE id = ?.
unfoldable pub update_plan :
    String → (MigrationPlan → MigrationPlan) → List MigrationPlan → List MigrationPlan
update_plan id set [] = []
update_plan id set (p ∷ ps) = (if str_eq p.id id then set p else p) ∷ update_plan id set ps

unfoldable pub update_plan_status :
    String → PlanStatus → DateTime → List MigrationPlan → List MigrationPlan
unfolding update_plan
update_plan_status id status now =
    update_plan id (λ p. record p { status = status; updated_at = now })

unfoldable pub update_plan_total : String → ℤ → DateTime → List MigrationPlan → List MigrationPlan
unfolding update_plan
update_plan_total id total now =
    update_plan id (λ p. record p { total_transactions = total; updated_at = now })

unfoldable pub get_migration_utxo_by_id : String → List MigrationUtxo → Result MigrationUtxo
get_migration_utxo_by_id id [] = err "Failed to get migration utxo"
get_migration_utxo_by_id id (u ∷ us) =
    let rest = get_migration_utxo_by_id id us in if str_eq u.id id then ok u else rest

abbrev pub new_utxo : String → DateTime → String → NewMigrationUtxo → MigrationUtxo
new_utxo id now plan_id utxo = record {
  id = id;
  plan_id = plan_id;
  txid = utxo.txid;
  vout = utxo.vout;
  value_btc = utxo.value_btc;
  address = utxo.address;
  label = utxo.label;
  source_label = utxo.source_label;
  broadcast_pool_id = none;
  created_at = now;
}

-- The plan must be there.
unfoldable pub insert_migration_utxo :
    String
    → DateTime
    → String
    → NewMigrationUtxo
    → List MigrationPlan
    → List MigrationUtxo
    → Result (List MigrationUtxo × MigrationUtxo)
insert_migration_utxo id now plan_id utxo plans utxos =
    let utxos' = utxos ++ (new_utxo id now plan_id utxo ∷ []) in
    if any (has_utxo_id id) utxos || not (any (has_plan_id plan_id) plans)
    then err "Failed to insert migration utxo"
    else get_migration_utxo_by_id id utxos' >>= λ u. ok (utxos', u)

-- ORDER BY created_at ASC.
unfoldable pub insert_utxo_asc : MigrationUtxo → List MigrationUtxo → List MigrationUtxo
insert_utxo_asc u [] = u ∷ []
insert_utxo_asc u (v ∷ vs) =
    let rest = insert_utxo_asc u vs in
    if leb u.created_at v.created_at then u ∷ v ∷ vs else v ∷ rest

unfoldable pub order_utxos_asc : List MigrationUtxo → List MigrationUtxo
unfolding insert_utxo_asc
order_utxos_asc [] = []
order_utxos_asc (u ∷ us) = insert_utxo_asc u (order_utxos_asc us)

abbrev pub is_of_plan : String → MigrationUtxo → Bool
is_of_plan plan_id u = str_eq u.plan_id plan_id

unfoldable pub list_migration_utxos : String → List MigrationUtxo → List MigrationUtxo
unfolding order_utxos_asc
list_migration_utxos plan_id utxos = order_utxos_asc (filter (is_of_plan plan_id) utxos)

unfoldable pub set_pool_id : String → String → List MigrationUtxo → List MigrationUtxo
set_pool_id utxo_id pool_id [] = []
set_pool_id utxo_id pool_id (u ∷ us) =
    (if str_eq u.id utxo_id then record u { broadcast_pool_id = some pool_id } else u)
    ∷ set_pool_id utxo_id pool_id us

-- The row of the pool must be there.
unfoldable pub link_utxo_to_pool :
    String → String → Table → List MigrationUtxo → Result (List MigrationUtxo)
unfolding set_pool_id
link_utxo_to_pool utxo_id pool_id t utxos =
    if any (has_utxo_id utxo_id) utxos && not (any (has_id pool_id) t)
    then err "Failed to link utxo to pool"
    else ok (set_pool_id utxo_id pool_id utxos)
