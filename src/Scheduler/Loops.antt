-- ===== src/Scheduler/Loops.antt =====
-- The pace of the broadcast loop, and what the block height monitor does to the store.
use mathlib.Core.Path.{fun_ext}
use umbrel_apps.Prelude.{
  ℕ, ◌+◌, ◌-◌, ◌≤◌, ◌<◌, ◌⊎◌, opt_is→some, Option-cases, eq_iff, eq_refl, String, some, true, ◌&&◌,
  List, [], ◌∷◌, map, All, ◌≡◌, refl, ap, ◌∙◌, inl, inr, Result, ok, err, ltb, filter, arith,
  if◌then◌else◌, Bool-cases, not_both,
}
use umbrel_apps.Db.Models.{DateTime, nanos_per_sec, Row, pending, scheduled, status_eq}
use umbrel_apps.Db.Table
use umbrel_apps.Db.Table.{Table, get_broadcast_tx_by_id, update_where, set_due, waits_on_block}
use umbrel_apps.Db.Table.Update.{
  KeepsId, Distinct, get-map, map_ok, update_each, update_each-filter, update_where-id,
}
use umbrel_apps.Pool.Backend.{Backend, Clock, indexer_healthy, check_block_height}
use umbrel_apps.Pool.Manager.{PoolManager}
use umbrel_apps.Pool.Due.{run_scheduler_tick}
use umbrel_apps.Scheduler.{
  Pass, check_interval, max_backoff, react, broadcast_pass, run_broadcast_loop, block_has_come,
  block_loop, block_height_pass,
}

abbrev pub IsBackoff : ℕ → Type 0
IsBackoff backoff = (nanos_per_sec ≤ backoff) × (backoff ≤ max_backoff)

react-IsBackoff :
    (a : Result (List (String × Result String))) (backoff : ℕ)
    → IsBackoff backoff
    → IsBackoff (react a backoff).0 × ((react a backoff).1 ≤ max_backoff)
unfolding react
react-IsBackoff (ok rs) backoff h = (omega arith, omega arith)
react-IsBackoff (err e) backoff h = ground arith

padded :
    (elapsed interval : ℕ)
    → interval ≤ elapsed + (if ltb elapsed interval then interval - elapsed else 0)
padded elapsed interval = ground arith

-- However long the broadcast loop runs, its back-off stays between a second and a minute if it began
-- there, and every pass takes fifteen seconds at least.
pub run_broadcast_loop-IsBackoff :
    (ps : List Pass) (backoff : ℕ) (m : PoolManager)
    → IsBackoff backoff
    → IsBackoff (run_broadcast_loop ps backoff m).1
      × All (λ time. check_interval ≤ time) (run_broadcast_loop ps backoff m).2
unfolding run_broadcast_loop
run_broadcast_loop-IsBackoff [] backoff m h = (h, tt)
run_broadcast_loop-IsBackoff (p ∷ ps) backoff m h =
    let pass = broadcast_pass p backoff m in
    let kept = (react-IsBackoff (run_scheduler_tick p.backend p.clock m).1 backoff h).0 in
    let rest = run_broadcast_loop-IsBackoff ps pass.1 pass.0 kept in
    (rest.0, (padded _ check_interval, rest.1))

block_change : ℕ → DateTime → Row → Row → Row
block_change height now x = if block_has_come height x then set_due now else (λ r. r)

block_change-KeepsId : (height : ℕ) (now : DateTime) (x : Row) → KeepsId (block_change height now x)
unfolding block_change set_due
block_change-KeepsId height now x r = ground arith

block_loop-each :
    (height : ℕ) (now : DateTime) (xs : List Row) (t : Table)
    → block_loop height now xs t ≡ update_each (block_change height now) t xs
unfolding block_loop block_change Table.mark_due
block_loop-each height now [] t = refl
block_loop-each height now (x ∷ xs) t = elim (Bool-cases (block_has_come height x)) [
  | inl y ↦ rw y (block_loop-each height now xs (update_where x.id (set_due now) t))
  | inr n ↦ rw n (rw (update_where-id x.id t) (block_loop-each height now xs t))
]

-- What a pass of the monitor makes of each row.
unfoldable pub block_row : ℕ → DateTime → String → Row → Row
block_row height now network r =
    if waits_on_block network r && block_has_come height r then set_due now r else r

block_row_eq :
    (height : ℕ) (now : DateTime) (network : String) (r : Row)
    → (if waits_on_block network r then block_change height now r r else r)
      ≡ block_row height now network r
unfolding block_change block_row
block_row_eq height now network r = ground arith

-- On distinct ids a pass of the block height monitor, with a healthy backend that knows the height,
-- makes each pending transaction of the network due that waits for a block up to that height, and
-- changes no other.
pub block_height_pass-db :
    (b : Backend) (now : Clock) (m : PoolManager) (height : ℕ)
    → indexer_healthy b ≡ true
    → check_block_height b ≡ some height
    → Distinct m.db
    → (block_height_pass b now m).db ≡ map (block_row height now.utc m.config.network) m.db
unfolding block_height_pass Table.get_pending_by_block_height
block_height_pass-db b now m height healthy known d =
    let network = m.config.network in
    rw healthy (
      rw (known, block_height_pass)
        (block_loop-each height now.utc (filter (waits_on_block network) m.db) m.db
          ∙ update_each-filter (block_change height now.utc) (waits_on_block network) m.db
              (block_change-KeepsId height now.utc) d
          ∙ ap (λ f. map f m.db) (fun_ext (block_row_eq height now.utc network))))

-- A pending transaction of the network that waits for a block of at most some height.
abbrev pub WaitsUpTo : ℕ → String → Row → Type 0
WaitsUpTo height network r =
    (r.status ≡ pending)
    × (r.network ≡ network)
    × (r.broadcast_mode ≡ some "by_block")
    × ((n : ℕ) × (r.nlocktime ≡ some n) × (0 < n) × (n < 500_000_000) × (n ≤ height))

WaitsUpTo-test :
    (height : ℕ) (network : String) (r : Row)
    → WaitsUpTo height network r
    → (waits_on_block network r && block_has_come height r) ≡ true
WaitsUpTo-test height network r (p, q, w, (n, e, a, c, l)) =
    rw (p, q, w, e) (ground (arith, eq_refl network))

test-WaitsUpTo :
    (height : ℕ) (network : String) (r : Row)
    → (waits_on_block network r && block_has_come height r) ≡ true
    → WaitsUpTo height network r
test-WaitsUpTo height network r h = elim (Option-cases r.nlocktime) [
  | inl e ↦ ground arith
  | inr (n, e) ↦ (
    status_eq r.status pending (ground arith),
    (eq_iff r.network network).0 (ground arith),
    opt_is→some r.broadcast_mode "by_block" (ground arith),
    (n, e, ground arith, ground arith, ground arith),
  )
]

block_row-KeepsId :
    (height : ℕ) (now : DateTime) (network : String) → KeepsId (block_row height now network)
unfolding block_row set_due
block_row-KeepsId height now network r = ground arith

-- On distinct ids a pass of the block height monitor, with a healthy backend that knows the height,
-- takes a transaction that is pending on the node's network in the mode `by_block`, with a locktime
-- above 0 and below 500000000 of at most that height, to `scheduled` for now; any other stays as it is.
pub block_height_pass-due :
    (b : Backend) (now : Clock) (m : PoolManager) (height : ℕ) (id : String) (r : Row)
    → indexer_healthy b ≡ true
    → check_block_height b ≡ some height
    → Distinct m.db
    → get_broadcast_tx_by_id id m.db ≡ ok r
    → (WaitsUpTo height m.config.network r
        × (get_broadcast_tx_by_id id (block_height_pass b now m).db
            ≡ ok (record r {
              status = scheduled;
              scheduled_time = some now.utc;
              updated_at = now.utc;
            })))
      ⊎ ((¬ WaitsUpTo height m.config.network r)
          × (get_broadcast_tx_by_id id (block_height_pass b now m).db ≡ ok r))
unfolding block_row set_due
block_height_pass-due b now m height id r healthy known d found =
    let network = m.config.network in
    let row = block_row height now.utc network in
    let after : get_broadcast_tx_by_id id (block_height_pass b now m).db ≡ ok (row r) =
      ap (get_broadcast_tx_by_id id) (block_height_pass-db b now m height healthy known d)
      ∙ get-map id row m.db (block_row-KeepsId height now.utc network)
      ∙ ap (map_ok row) found in
    elim (Bool-cases (waits_on_block network r && block_has_come height r)) [
      | inl y ↦ inl (test-WaitsUpTo height network r y, after ∙ ap ok (rw y refl))
      | inr n ↦ inr (λ w. not_both (WaitsUpTo-test height network r w) n, after ∙ ap ok (rw n refl))
    ]
