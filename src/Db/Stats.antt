-- ===== src/Db/Stats.antt =====
-- sparrow-broadcast-pool/src/db/mod.rs: the statistics of the pool.
pub mod Counts
use umbrel_apps.Prelude.{
  ℕ, ◌+◌, ◌≤◌, String, Option, none, some, Bool, true, false, ◌&&◌, ◌||◌, List, [], ◌∷◌, ◌≡◌, refl,
  sym, ap, ◌∙◌, inl, inr, Bool-cases, not_both, str_eq, eq_iff, filter, length, arith,
  if◌then◌else◌,
}
use umbrel_apps.Prelude.Float.{F64, of_ℕ}
use umbrel_apps.Db.Models.{
  TxStatus, pending, scheduled, broadcast, confirmed, expired, failed, as_str, is_status, status_eq,
  Row, PoolStats,
}
use umbrel_apps.Db.Table.{Table}

-- A group of the query: its status, the number of its rows and the sum of their values.
abbrev pub Group : Type 0
Group = TxStatus × ℕ × F64

-- A row counted in its group; a new status begins a group. `add` is the addition of doubles.
unfoldable pub count_row : (F64 → F64 → F64) → Row → List Group → List Group
count_row add r [] = (r.status, 1, add (of_ℕ 0) r.total_value_btc) ∷ []
count_row add r ((status, count, value) ∷ groups) =
    if is_status status r.status
    then (status, count + 1, add value r.total_value_btc) ∷ groups
    else (status, count, value) ∷ count_row add r groups

unfoldable pub group_rows : (F64 → F64 → F64) → String → Table → List Group
group_rows add network [] = []
group_rows add network (r ∷ t) =
    let rest = group_rows add network t in
    if str_eq r.network network then count_row add r rest else rest

abbrev pub no_stats : PoolStats
no_stats = record {
  total_transactions = 0;
  pending = 0;
  scheduled = 0;
  broadcast = 0;
  confirmed = 0;
  failed = 0;
  total_value_btc = of_ℕ 0;
}

-- The count of a group goes to its status; an expired one only to the total.
unfoldable pub set_count : TxStatus → ℕ → PoolStats → PoolStats
set_count pending n s = record s { pending = n }
set_count scheduled n s = record s { scheduled = n }
set_count broadcast n s = record s { broadcast = n }
set_count confirmed n s = record s { confirmed = n }
set_count failed n s = record s { failed = n }
set_count _ n s = s

unfoldable pub add_group : (F64 → F64 → F64) → Group → PoolStats → PoolStats
unfolding set_count
add_group add (status, count, value) s = set_count status count (record s {
  total_transactions = s.total_transactions + count;
  total_value_btc = add s.total_value_btc value;
})

unfoldable pub stats_loop : (F64 → F64 → F64) → List Group → PoolStats → PoolStats
stats_loop add [] s = s
stats_loop add (g ∷ gs) s = stats_loop add gs (add_group add g s)

unfoldable pub get_pool_stats : (F64 → F64 → F64) → String → Table → PoolStats
unfolding group_rows stats_loop
get_pool_stats add network t = stats_loop add (group_rows add network t) no_stats
