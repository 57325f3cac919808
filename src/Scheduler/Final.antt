-- ===== src/Scheduler/Final.antt =====
-- The passes of the scheduler's loops in any order, and the transactions that they leave alone.
use umbrel_apps.Prelude.{
  ℕ, ◌≤◌, String, Option, none, some, Bool, false, [], ◌∷◌, map, ◌≡◌, refl, sym, ap, subst, ◌∙◌,
  inl, inr, ok, ok_or, arith, filter, length, Bool-cases, Option-cases,
}
use umbrel_apps.Db.Models.{
  DateTime, TxStatus, pending, scheduled, broadcast, failed, confirmed, is_status, Row,
}
use umbrel_apps.Db.Table.{Table, get_broadcast_tx_by_id, set_due, cutoff}
use umbrel_apps.Db.Table.Update.{KeepsId, Distinct, map-Distinct, get-map, map_ok}
use umbrel_apps.Pool.Backend.{Backend, Clock, Rpc, MtpCache, indexer_healthy, check_block_height}
use umbrel_apps.Pool.Manager.{PoolManager}
use umbrel_apps.Pool.Confirm.{set_sent_again, check_confirmations}
use umbrel_apps.Pool.Confirm.Rounds.{
  resend_row, confirm_row, at_height-KeepsId, rebroadcast_pending-db, check_confirmations-db,
}
use umbrel_apps.Pool.Schedule.Trigger.{trigger_row, trigger_row-KeepsId}
use umbrel_apps.Pool.Due.{run_scheduler_tick}
use umbrel_apps.Pool.Due.Loop.{broadcast_row}
use umbrel_apps.Pool.Due.Tick.{
  mark_row, requeue_row, tick_row, tick_row-KeepsId, run_scheduler_tick-db,
}
use umbrel_apps.Price.{Prices, Providers, fetch_snapshot}
use umbrel_apps.Scheduler.{
  Pass, broadcast_pass, block_height_pass, rebroadcast_pass, confirmation_pass, price_pass,
}
use umbrel_apps.Scheduler.Loops.{block_row, block_height_pass-db}
use umbrel_apps.Scheduler.Prices.{live_of, at_prices, price_pass-live_of}

-- One pass of one of the five loops that `start_all_loops` spawns.
pub data LoopStep : PoolManager → PoolManager → Type 0 where
  by_broadcast :
      {m : PoolManager} (p : Pass) (backoff : ℕ) → LoopStep m (broadcast_pass p backoff m).0
  by_block_height :
      {m : PoolManager} (b : Backend) (now : Clock) → LoopStep m (block_height_pass b now m)
  by_rebroadcast :
      {m : PoolManager} (b : Backend) (now : Clock) → LoopStep m (rebroadcast_pass b now m).0
  by_confirmation :
      {m : PoolManager} (b : Backend) (now : Clock) → LoopStep m (confirmation_pass b now m).0
  by_price : {m : PoolManager} (p : Providers) (now : Clock) → LoopStep m (price_pass p now m).0

-- Passes one after the other, in whatever order the loops come to run.
pub data LoopSteps : PoolManager → PoolManager → Type 0 where
  done : {m : PoolManager} → LoopSteps m m
  next : {m n o : PoolManager} → LoopStep m n → LoopSteps n o → LoopSteps m o

-- A change of a row that leaves its id alone, and all of it once it is confirmed.
abbrev IsFinal : (Row → Row) → Type 0
IsFinal f = (r : Row) → r.status ≡ confirmed → f r ≡ r

-- The store after is the store before, each row under such a change.
abbrev RowByRow : Table → Table → Type 0
RowByRow t u = (f : Row → Row) × KeepsId f × IsFinal f × (u ≡ map f t)

map_same : (t : Table) → map (λ r. r) t ≡ t
map_same [] = refl
map_same (r ∷ t) = ap (λ u. r ∷ u) (map_same t)

RowByRow-same : (t : Table) → RowByRow t t
RowByRow-same t = ((λ r. r), (λ r. refl), (λ r h. refl), sym (map_same t))

no_other :
    (s : TxStatus)
    → s ≡ confirmed
    → (is_status s pending ≡ false)
      × (is_status s scheduled ≡ false)
      × (is_status s broadcast ≡ false)
      × (is_status s failed ≡ false)
no_other s h = rw h (refl, refl, refl, refl)

mark_row-IsFinal : (now : DateTime) (network : String) → IsFinal (mark_row now network)
unfolding mark_row
mark_row-IsFinal now network r h = ground (arith, no_other r.status h)

requeue_row-IsFinal : (now : DateTime) (network : String) → IsFinal (requeue_row now network)
unfolding requeue_row
requeue_row-IsFinal now network r h = ground (arith, no_other r.status h)

broadcast_row-IsFinal :
    (b : Backend) (now : Clock) (c : MtpCache) (network : String)
    → IsFinal (broadcast_row b now c network)
unfolding broadcast_row
broadcast_row-IsFinal b now c network r h = ground (arith, no_other r.status h)

tick_row-IsFinal :
    (b : Backend) (now : Clock) (c : MtpCache) (network : String)
    → IsFinal (tick_row b now c network)
tick_row-IsFinal b now c network r h =
    rw (mark_row-IsFinal now.utc network r h)
      (rw (requeue_row-IsFinal now.utc network r h) (broadcast_row-IsFinal b now c network r h))

block_row-IsFinal :
    (height : ℕ) (now : DateTime) (network : String) → IsFinal (block_row height now network)
unfolding block_row
block_row-IsFinal height now network r h = ground (arith, no_other r.status h)

block_row-KeepsId :
    (height : ℕ) (now : DateTime) (network : String) → KeepsId (block_row height now network)
unfolding block_row set_due
block_row-KeepsId height now network r = ground arith

resend_row-IsFinal :
    (b : Backend) (limit now : DateTime) (network : String)
    → IsFinal (resend_row b limit now network)
unfolding resend_row
resend_row-IsFinal b limit now network r h = ground (arith, no_other r.status h)

resend_row-KeepsId :
    (b : Backend) (limit now : DateTime) (network : String)
    → KeepsId (resend_row b limit now network)
unfolding resend_row set_sent_again
resend_row-KeepsId b limit now network r = ground arith

confirm_row-IsFinal :
    (rpc : Rpc) (now : DateTime) (network : String) → IsFinal (confirm_row rpc now network)
unfolding confirm_row
confirm_row-IsFinal rpc now network r h = ground (arith, no_other r.status h)

confirm_row-KeepsId :
    (rpc : Rpc) (now : DateTime) (network : String) → KeepsId (confirm_row rpc now network)
unfolding confirm_row
confirm_row-KeepsId rpc now network r = ground (arith, at_height-KeepsId rpc.get_block_count now r)

trigger_row-IsFinal :
    (prices : Prices) (now : DateTime) (network : String) → IsFinal (trigger_row prices now network)
unfolding trigger_row
trigger_row-IsFinal prices now network r h = ground (arith, no_other r.status h)

length-filter_le : (p : Row → Bool) (t : Table) → length (filter p t) ≤ length t
length-filter_le p [] = omega arith
length-filter_le p (r ∷ t) = ground (arith, length-filter_le p t)

few_match : (p : Row → Bool) (t : Table) → length t ≤ 1000 → length (filter p t) ≤ 1000
few_match p t h = ground (arith, length-filter_le p t)

by_prices :
    (o : Option Prices) (now : Clock) (network : String) (t : Table)
    → RowByRow t (at_prices o now network t)
by_prices none now network t = RowByRow-same t
by_prices (some prices) now network t = (
  trigger_row prices now.utc network,
  trigger_row-KeepsId prices now.utc network,
  trigger_row-IsFinal prices now.utc network,
  refl,
)

module _ (m : PoolManager) (d : Distinct m.db) (few : length m.db ≤ 1000) where
  broadcast_pass-RowByRow :
      (p : Pass) (backoff : ℕ) → RowByRow m.db (broadcast_pass p backoff m).0.db
  unfolding broadcast_pass run_scheduler_tick
  broadcast_pass-RowByRow p backoff = elim (Bool-cases (indexer_healthy p.backend)) [
    | inl y ↦ (
      tick_row p.backend p.clock m.mtp_cache m.config.network,
      tick_row-KeepsId p.backend p.clock m.mtp_cache m.config.network,
      tick_row-IsFinal p.backend p.clock m.mtp_cache m.config.network,
      run_scheduler_tick-db p.backend p.clock m y d (few_match _ m.db few),
    )
    | inr n ↦ rw n (RowByRow-same m.db)
  ]

  block_height_pass-RowByRow :
      (b : Backend) (now : Clock) → RowByRow m.db (block_height_pass b now m).db
  unfolding block_height_pass
  block_height_pass-RowByRow b now = elim (Bool-cases (indexer_healthy b)) [
    | inl y ↦ elim (Option-cases (check_block_height b)) [
      | inl e ↦ rw (y, e, block_height_pass) (RowByRow-same m.db)
      | inr (height, e) ↦ (
        block_row height now.utc m.config.network,
        block_row-KeepsId height now.utc m.config.network,
        block_row-IsFinal height now.utc m.config.network,
        block_height_pass-db b now m height y e d,
      )
    ]
    | inr n ↦ rw n (RowByRow-same m.db)
  ]

  rebroadcast_pass-RowByRow :
      (b : Backend) (now : Clock) → RowByRow m.db (rebroadcast_pass b now m).0.db
  unfolding rebroadcast_pass
  rebroadcast_pass-RowByRow b now = elim (Bool-cases (indexer_healthy b)) [
    | inl y ↦
        let limit = cutoff m.config.rebroadcast_interval_minutes now.utc in
        rw y (
          resend_row b limit now.utc m.config.network,
          resend_row-KeepsId b limit now.utc m.config.network,
          resend_row-IsFinal b limit now.utc m.config.network,
          (rebroadcast_pending-db b now m d).0,
        )
    | inr n ↦ rw n (RowByRow-same m.db)
  ]

  check_confirmations-RowByRow :
      (b : Backend) (now : Clock) → RowByRow m.db (check_confirmations b now m).0.db
  unfolding check_confirmations
  check_confirmations-RowByRow b now = elim (Option-cases b.rpc) [
    | inl e ↦ rw (e, check_confirmations) (RowByRow-same m.db)
    | inr (rpc, e) ↦ elim (Bool-cases (ok_or rpc.test_connection false)) [
      | inl y ↦ (
        confirm_row rpc now.utc m.config.network,
        confirm_row-KeepsId rpc now.utc m.config.network,
        confirm_row-IsFinal rpc now.utc m.config.network,
        check_confirmations-db b now m rpc e y d (few_match _ m.db few),
      )
      | inr n ↦ rw (e, check_confirmations) (rw n (RowByRow-same m.db))
    ]
  ]

  confirmation_pass-RowByRow :
      (b : Backend) (now : Clock) → RowByRow m.db (confirmation_pass b now m).0.db
  unfolding confirmation_pass
  confirmation_pass-RowByRow b now = elim (Bool-cases (indexer_healthy b)) [
    | inl y ↦ rw y (check_confirmations-RowByRow b now)
    | inr n ↦ rw n (RowByRow-same m.db)
  ]

  price_pass-RowByRow : (p : Providers) (now : Clock) → RowByRow m.db (price_pass p now m).0.db
  price_pass-RowByRow p now =
      subst (RowByRow m.db) (sym (price_pass-live_of p now m d))
        (by_prices (live_of (fetch_snapshot p now m.price_feed).1) now m.config.network m.db)

LoopStep-RowByRow :
    (m n : PoolManager) → LoopStep m n → Distinct m.db → length m.db ≤ 1000 → RowByRow m.db n.db
LoopStep-RowByRow m _ (by_broadcast p backoff) d few = broadcast_pass-RowByRow m d few p backoff
LoopStep-RowByRow m _ (by_block_height b now) d few = block_height_pass-RowByRow m d few b now
LoopStep-RowByRow m _ (by_rebroadcast b now) d few = rebroadcast_pass-RowByRow m d few b now
LoopStep-RowByRow m _ (by_confirmation b now) d few = confirmation_pass-RowByRow m d few b now
LoopStep-RowByRow m _ (by_price p now) d few = price_pass-RowByRow m d few p now

length-map : (f : Row → Row) (t : Table) → length (map f t) ≡ length t
length-map f [] = refl
length-map f (r ∷ t) = ground (arith, length-map f t)

-- A row is found again under the same id, and is the same if it was confirmed.
abbrev Kept : Table → Table → Type 0
Kept t u =
    (id : String) (r : Row)
    → get_broadcast_tx_by_id id t ≡ ok r
    → (s : Row) × (get_broadcast_tx_by_id id u ≡ ok s) × (r.status ≡ confirmed → s ≡ r)

RowByRow-Kept : (t u : Table) → RowByRow t u → Kept t u
RowByRow-Kept t u (f, k, final, e) id r found =
    (f r, rw e (get-map id f t k ∙ ap (map_ok f) found), final r)

RowByRow-Distinct : (t u : Table) → RowByRow t u → Distinct t → Distinct u
RowByRow-Distinct t u (f, k, final, e) d = subst Distinct (sym e) (map-Distinct f t k d)

RowByRow-length : (t u : Table) → RowByRow t u → length u ≡ length t
RowByRow-length t u (f, k, final, e) = ap length e ∙ length-map f t

Kept-trans : (t u v : Table) → Kept t u → Kept u v → Kept t v
Kept-trans t u v p q id r found =
    let (s, again, same) = p id r found in
    let (w, later, fixed) = q id s again in
    (w, later, λ h. fixed (subst (λ x. x.status ≡ confirmed) (sym (same h)) h) ∙ same h)

LoopSteps-Kept :
    (m n : PoolManager)
    → LoopSteps m n
    → Distinct m.db
    → length m.db ≤ 1000
    → Kept m.db n.db × Distinct n.db × (length n.db ≡ length m.db)
LoopSteps-Kept m _ done d few = ((λ id r found. (r, found, λ h. refl)), d, refl)
LoopSteps-Kept m o (next {n = n} step steps) d few =
    let rows = LoopStep-RowByRow m n step d few in
    let same = RowByRow-length m.db n.db rows in
    let (kept, distinct, number) =
      LoopSteps-Kept n o steps (RowByRow-Distinct m.db n.db rows d)
        (subst (λ k. k ≤ 1000) (sym same) few) in
    (Kept-trans m.db n.db o.db (RowByRow-Kept m.db n.db rows) kept, distinct, number ∙ same)

-- However the passes of the scheduler's five loops are interleaved, whatever the backend, the price
-- providers and the clock say to each, a transaction of the store is found again, the same if it was
-- confirmed; ids stay distinct, and the number of transactions stays. The store has distinct ids and
-- at most 1000 transactions to begin with.
pub LoopSteps-confirmed :
    (m n : PoolManager) (id : String) (r : Row)
    → LoopSteps m n
    → Distinct m.db
    → length m.db ≤ 1000
    → get_broadcast_tx_by_id id m.db ≡ ok r
    → (s : Row) × (get_broadcast_tx_by_id id n.db ≡ ok s)
      × (r.status ≡ confirmed → s ≡ r)
      × Distinct n.db
      × (length n.db ≡ length m.db)
LoopSteps-confirmed m n id r steps d few found =
    let (kept, distinct, number) = LoopSteps-Kept m n steps d few in
    let (s, again, same) = kept id r found in (s, again, same, distinct, number)
