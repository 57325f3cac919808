-- ===== src/Pool/Due/Tick.antt =====
-- The scheduler's tick changes the store row by row.
use mathlib.Core.Path.{fun_ext}
use umbrel_apps.Prelude.{
  ℕ, ◌+◌, ◌≤◌, String, some, Bool, true, false, ◌&&◌, List, [], ◌∷◌, map, ◌≡◌, refl, sym, ap, subst,
  ◌∙◌, inl, inr, str_eq, if◌then◌else◌, filter, any, length, All, arith, eq_iff, eq_refl,
  Bool-cases, ||-eq-false,
}
use umbrel_apps.Db.Models.{DateTime, TxStatus, pending, failed, is_status, status_eq, Row}
use umbrel_apps.Db.Table
use umbrel_apps.Db.Table.{
  Table, has_id, update_where, matches_filter, waits_on_time, order_desc, set_due, set_retry,
}
use umbrel_apps.Db.Table.Update.{
  KeepsId, Distinct, update_where-id, update_each, update_each-filter, map-Distinct,
  length-filter-map, map-map,
}
use umbrel_apps.Db.Table.Select.{
  order_desc-Distinct, filter-Distinct, update_each-order_desc, All-order_desc, take_all,
  length-order_desc,
}
use umbrel_apps.Pool.Backend.{Backend, Clock, MtpCache, indexer_healthy}
use umbrel_apps.Pool.Manager.{PoolManager}
use umbrel_apps.Pool.Due.{
  is_requeued, requeue_loop, requeue_retriable_failures, is_marked_due, mark_due_loop,
  run_scheduler_tick,
}
use umbrel_apps.Pool.Due.Loop.{broadcast_row, broadcast_row-KeepsId, broadcast_due-db}

-- The first loop: pending rows whose time has come.
mark_change : DateTime → Row → Row → Row
mark_change now x = if is_marked_due x then set_due now else (λ r. r)

mark_change-KeepsId : (now : DateTime) (x : Row) → KeepsId (mark_change now x)
unfolding mark_change set_due
mark_change-KeepsId now x r = ground arith

mark_due_loop-each :
    (now : DateTime) (xs : List Row) (t : Table)
    → mark_due_loop now xs t ≡ update_each (mark_change now) t xs
unfolding mark_due_loop mark_change Table.mark_due
mark_due_loop-each now [] t = refl
mark_due_loop-each now (x ∷ xs) t = elim (Bool-cases (is_marked_due x)) [
  | inl y ↦ rw y (mark_due_loop-each now xs (update_where x.id (set_due now) t))
  | inr n ↦ rw n (rw (update_where-id x.id t) (mark_due_loop-each now xs t))
]

unfoldable pub mark_row : DateTime → String → Row → Row
mark_row now network r = if waits_on_time now network r && is_marked_due r then set_due now r else r

mark_row_eq :
    (now : DateTime) (network : String) (r : Row)
    → (if waits_on_time now network r then mark_change now r r else r) ≡ mark_row now network r
unfolding mark_change mark_row
mark_row_eq now network r = ground arith

mark_due-db :
    (now : DateTime) (network : String) (t : Table)
    → Distinct t
    → mark_due_loop now (Table.get_pending_by_scheduled_time now network t) t
      ≡ map (mark_row now network) t
unfolding Table.get_pending_by_scheduled_time
mark_due-db now network t d =
    mark_due_loop-each now _ t
    ∙ update_each-filter (mark_change now) (waits_on_time now network) t (mark_change-KeepsId now) d
    ∙ ap (λ f. map f t) (fun_ext (mark_row_eq now network))

-- The second loop: failed rows that are requeued.
requeue_change : DateTime → Row → Row → Row
requeue_change now x = if is_requeued x then set_retry now else (λ r. r)

requeue_change-KeepsId : (now : DateTime) (x : Row) → KeepsId (requeue_change now x)
unfolding requeue_change set_retry
requeue_change-KeepsId now x r = ground arith

abbrev is_failed_at : String → Row → Bool
is_failed_at id r = has_id id r && is_status r.status failed

-- A row of another id stays failed.
any-failed-update :
    (id j : String) (now : DateTime) (t : Table)
    → str_eq j id ≡ false
    → any (is_failed_at j) (update_where id (set_retry now) t) ≡ any (is_failed_at j) t
unfolding update_where set_retry
any-failed-update id j now [] h = refl
any-failed-update id j now (r ∷ t) h =
    ground (arith, any-failed-update id j now t h, eq_iff r.id id, eq_iff r.id j, eq_iff j id)

abbrev Failing : Table → List Row → Type 0
Failing t = All (λ x. any (is_failed_at x.id) t ≡ true)

Failing-update :
    (x : Row) (now : DateTime) (t : Table) (xs : List Row)
    → any (has_id x.id) xs ≡ false
    → Failing t xs
    → Failing (update_where x.id (set_retry now) t) xs
Failing-update x now t [] h f = tt
Failing-update x now t (y ∷ xs) h f =
    let miss = ||-eq-false (has_id x.id y) (any (has_id x.id) xs) h in
    (any-failed-update x.id y.id now t miss.0 ∙ f.0, Failing-update x now t xs miss.1 f.1)

requeue_loop-each :
    (now : DateTime) (xs : List Row) (n : ℕ) (t : Table)
    → Distinct xs
    → Failing t xs
    → (requeue_loop now xs n t).0 ≡ update_each (requeue_change now) t xs
unfolding requeue_loop requeue_change Table.reset_failed_to_scheduled
requeue_loop-each now [] n t d f = refl
requeue_loop-each now (x ∷ xs) n t d f = elim (Bool-cases (is_requeued x)) [
  | inl y ↦ rw y (
      rw (f.0, requeue_loop)
        (requeue_loop-each now xs (n + 1) (update_where x.id (set_retry now) t) d.1
          (Failing-update x now t xs d.0 f.1)))
  | inr keep ↦ rw keep (rw (update_where-id x.id t) (requeue_loop-each now xs n t d.1 f.1))
]

unfoldable pub requeue_row : DateTime → String → Row → Row
requeue_row now network r =
    if matches_filter (some "failed") network r && is_requeued r then set_retry now r else r

requeue_row_eq :
    (now : DateTime) (network : String) (r : Row)
    → (if matches_filter (some "failed") network r then requeue_change now r r else r)
      ≡ requeue_row now network r
unfolding requeue_change requeue_row
requeue_row_eq now network r = ground arith

any-here : (p : Row → Bool) (r : Row) (t : Table) → p r ≡ true → any p (r ∷ t) ≡ true
any-here p r t h = rw h refl

any-there : (p : Row → Bool) (r : Row) (t : Table) → any p t ≡ true → any p (r ∷ t) ≡ true
any-there p r t h = ground arith

failed_here :
    (network : String) (r : Row)
    → matches_filter (some "failed") network r ≡ true
    → is_failed_at r.id r ≡ true
failed_here network r h = ground (arith, eq_refl r.id)

-- What a test for failed rows selects from a table is found failed in it.
Failing-filter :
    (network : String) (t u : Table)
    → ((j : String) → any (is_failed_at j) t ≡ true → any (is_failed_at j) u ≡ true)
    → Failing u (filter (matches_filter (some "failed") network) t)
Failing-filter network [] u k = tt
Failing-filter network (r ∷ t) u k = elim (Bool-cases (matches_filter (some "failed") network r)) [
  | inl y ↦ rw y (
    k r.id (any-here (is_failed_at r.id) r t (failed_here network r y)),
    Failing-filter network t u (λ j h. k j (any-there (is_failed_at j) r t h)),
  )
  | inr n ↦ rw n (Failing-filter network t u (λ j h. k j (any-there (is_failed_at j) r t h)))
]

requeue-db :
    (now : DateTime) (network : String) (t : Table)
    → Distinct t
    → length (filter (matches_filter (some "failed") network) t) ≤ 1000
    → (requeue_loop now (Table.list_broadcast_txs (some "failed") network 1000 t) 0 t).0
      ≡ map (requeue_row now network) t
unfolding Table.list_broadcast_txs
requeue-db now network t d h =
    let p = matches_filter (some "failed") network in
    let failed_txs = filter p t in
    let listed = order_desc failed_txs in
    let all = take_all 1000 listed (subst (λ n. n ≤ 1000) (sym (length-order_desc failed_txs)) h) in
    let distinct = filter-Distinct p t d in
    rw all (
      requeue_loop-each now listed 0 t (order_desc-Distinct failed_txs distinct)
        (All-order_desc _ failed_txs (Failing-filter network t t (λ j e. e)))
      ∙ update_each-order_desc (requeue_change now) (requeue_change-KeepsId now) t failed_txs
          distinct
      ∙ update_each-filter (requeue_change now) p t (requeue_change-KeepsId now) d
      ∙ ap (λ f. map f t) (fun_ext (requeue_row_eq now network)))

mark_row-KeepsId : (now : DateTime) (network : String) → KeepsId (mark_row now network)
unfolding mark_row set_due
mark_row-KeepsId now network r = ground arith

requeue_row-KeepsId : (now : DateTime) (network : String) → KeepsId (requeue_row now network)
unfolding requeue_row set_retry
requeue_row-KeepsId now network r = ground arith

pending_not_failed : (s : TxStatus) → is_status s pending ≡ true → is_status s failed ≡ false
pending_not_failed s h = rw (status_eq s pending h) refl

mark_row-failed :
    (now : DateTime) (network : String) (r : Row)
    → matches_filter (some "failed") network (mark_row now network r)
      ≡ matches_filter (some "failed") network r
unfolding mark_row set_due
mark_row-failed now network r = elim (Bool-cases (waits_on_time now network r && is_marked_due r)) [
  | inl y ↦ rw y (ground (arith, pending_not_failed r.status))
  | inr n ↦ rw n refl
]

-- What a tick makes of each row: the two loops, then the broadcast round.
abbrev pub tick_row : Backend → Clock → MtpCache → String → Row → Row
tick_row b now c network r =
    broadcast_row b now c network (requeue_row now.utc network (mark_row now.utc network r))

pub tick_row-KeepsId :
    (b : Backend) (now : Clock) (c : MtpCache) (network : String)
    → KeepsId (tick_row b now c network)
tick_row-KeepsId b now c network r =
    broadcast_row-KeepsId b now c network _
    ∙ requeue_row-KeepsId now.utc network _
    ∙ mark_row-KeepsId now.utc network r

-- A tick of a healthy backend changes the store row by row: on distinct ids, and with at most 1000
-- failed transactions of the network, the store after it is that of before with each row marked due,
-- requeued and broadcast as its own columns and the backend's answers say.
pub run_scheduler_tick-db :
    (b : Backend) (now : Clock) (m : PoolManager)
    → indexer_healthy b ≡ true
    → Distinct m.db
    → length (filter (matches_filter (some "failed") m.config.network) m.db) ≤ 1000
    → (run_scheduler_tick b now m).0.db ≡ map (tick_row b now m.mtp_cache m.config.network) m.db
unfolding run_scheduler_tick requeue_retriable_failures
run_scheduler_tick-db b now m healthy d few =
    let network = m.config.network in
    let mark = mark_row now.utc network in
    let requeue = requeue_row now.utc network in
    let d' = map-Distinct mark m.db (mark_row-KeepsId now.utc network) d in
    let few' =
      subst (λ n. n ≤ 1000)
        (sym (
          length-filter-map (matches_filter (some "failed") network) mark m.db
            (mark_row-failed now.utc network)))
        few in
    let d'' = map-Distinct requeue (map mark m.db) (requeue_row-KeepsId now.utc network) d' in
    let send = broadcast_row b now m.mtp_cache network in
    let marked = mark_due-db now.utc network m.db d in
    let requeued = requeue-db now.utc network (map mark m.db) d' few' in
    rw (healthy, marked, requeued)
      ((broadcast_due-db b now (record m { db = map requeue (map mark m.db) }) d'').0
        ∙ ap (map send) (map-map mark requeue m.db)
        ∙ map-map (λ r. requeue (mark r)) send m.db)
