-- ===== src/Pool/Due/Safety.antt =====
-- What a scheduler tick can and cannot do to a transaction.
use umbrel_apps.Prelude.{
  ◌≤◌, String, some, Bool, true, false, ◌&&◌, ◌≡◌, ◌≢◌, refl, sym, ap, subst, ◌∙◌, inl, inr, Result,
  ok, err, str_eq, if◌then◌else◌, filter, length, arith, eq_iff, Bool-cases, get_or, &&-eq-true,
}
use umbrel_apps.Db.Models.{
  DateTime, TxStatus, pending, scheduled, broadcast, failed, is_status, status_eq, Row,
}
use umbrel_apps.Db.Table.{
  get_broadcast_tx_by_id, matches_filter, is_scheduled_on, waits_on_time, set_due, set_retry,
  set_status,
}
use umbrel_apps.Db.Table.Update.{Distinct, get-map, map_ok}
use umbrel_apps.Pool.Backend.{
  Backend, Clock, MtpCache, indexer_healthy, broadcast_transaction, check_block_height,
}
use umbrel_apps.Pool.Backend.Mtp.{mtp_of, IsMet, locktime_of, locktime_iff}
use umbrel_apps.Pool.Manager.{PoolManager}
use umbrel_apps.Pool.Due.{
  is_requeued, is_marked_due, attempt_reached, waits_for_price, run_scheduler_tick,
}
use umbrel_apps.Pool.Due.Loop.{attempt, attempt_of, broadcast_row, is_due, is_due→satisfied}
use umbrel_apps.Pool.Due.Tick.{
  mark_row, requeue_row, tick_row, run_scheduler_tick-db, tick_row-KeepsId,
}

-- What the two loops before the broadcasts leave of a row.
abbrev pub SameTx : Row → Row → Type 0
SameTx r s =
    (s.network ≡ r.network)
    × (s.tx_hex ≡ r.tx_hex)
    × (s.nlocktime ≡ r.nlocktime)
    × (s.broadcast_missed_at ≡ r.broadcast_missed_at)

pub mark_row-SameTx :
    (now : DateTime) (network : String) (r : Row) → SameTx r (mark_row now network r)
unfolding mark_row set_due
mark_row-SameTx now network r = elim (Bool-cases (waits_on_time now network r && is_marked_due r)) [
  | inl y ↦ rw y (refl, refl, refl, refl)
  | inr n ↦ rw n (refl, refl, refl, refl)
]

set_retry-SameTx : (now : DateTime) (r : Row) → SameTx r (set_retry now r)
unfolding set_retry
set_retry-SameTx now r = elim (Bool-cases (is_status r.status failed)) [
  | inl y ↦ rw y (refl, refl, refl, refl)
  | inr n ↦ rw n (refl, refl, refl, refl)
]

pub requeue_row-SameTx :
    (now : DateTime) (network : String) (r : Row) → SameTx r (requeue_row now network r)
unfolding requeue_row set_retry
requeue_row-SameTx now network r =
    elim (Bool-cases (matches_filter (some "failed") network r && is_requeued r)) [
      | inl y ↦ rw y (set_retry-SameTx now r)
      | inr n ↦ rw n (refl, refl, refl, refl)
    ]

attempt_of-sent :
    (a : Result String) (now : Clock) (r : Row)
    → (attempt_of a now r r).status ≡ broadcast
    → r.status ≢ broadcast
    → (txid : String) × (a ≡ ok txid)
unfolding attempt_of set_status
attempt_of-sent (ok txid) now r sent new = (txid, refl)
attempt_of-sent (err msg) now r sent new = ground arith

-- What a broadcast round sends was due, and the backend took it.
broadcast_row-sent :
    (b : Backend) (now : Clock) (c : MtpCache) (network : String) (r : Row)
    → (broadcast_row b now c network r).status ≡ broadcast
    → r.status ≢ broadcast
    → (is_due b now c r ≡ true)
      × (r.network ≡ network)
      × ((txid : String) × (broadcast_transaction b r.tx_hex ≡ ok txid))
unfolding broadcast_row attempt
broadcast_row-sent b now c network r sent new =
    let status_if = λ (z : Bool). (if z then attempt b now r r else r).status in
    elim (Bool-cases (is_scheduled_on network r && is_due b now c r)) [
      | inl y ↦
          (let (on, due) = &&-eq-true (is_scheduled_on network r) (is_due b now c r) y in
            let same =
              (&&-eq-true (is_status r.status scheduled) (str_eq r.network network) on).1 in
            (
              due,
              (eq_iff r.network network).0 same,
              attempt_of-sent (broadcast_transaction b r.tx_hex) now r (sym (ap status_if y) ∙ sent)
                  new,
            ))
      | inr n ↦ elim (new (sym (ap status_if n) ∙ sent)) [ ]
    ]

-- The loops before the broadcasts send nothing, and make nothing ripe.
mark_row-ripe :
    (now : DateTime) (network : String) (r : Row)
    → ((mark_row now network r).status ≡ broadcast → r.status ≡ broadcast)
      × (attempt_reached now (mark_row now network r) ≡ true → attempt_reached now r ≡ true)
      × (waits_for_price r ≡ true → mark_row now network r ≡ r)
unfolding mark_row set_due
mark_row-ripe now network r = ground arith

requeue_row-ripe :
    (now : DateTime) (network : String) (r : Row)
    → ((requeue_row now network r).status ≡ broadcast → r.status ≡ broadcast)
      × (attempt_reached now (requeue_row now network r) ≡ true → attempt_reached now r ≡ true)
      × (waits_for_price r ≡ true → requeue_row now network r ≡ r)
unfolding requeue_row set_retry
requeue_row-ripe now network r =
    ground (arith, status_eq r.status pending, status_eq r.status failed)

no_price :
    (now : DateTime) (network : String) (r : Row)
    → waits_for_price (requeue_row now network (mark_row now network r)) ≡ false
    → waits_for_price r ≡ false
no_price now network r h = elim (Bool-cases (waits_for_price r)) [
  | inr n ↦ n
  | inl y ↦
      (let e = (mark_row-ripe now network r).2 y in
        let f = (requeue_row-ripe now network r).2 y in
        sym (ap (λ s. waits_for_price (requeue_row now network s)) e ∙ ap waits_for_price f) ∙ h)
]

-- What a transaction has to be for a tick to send it: on the node's network, its attempt's time
-- come, its locktime met by the chain, not waiting for a price, and taken by the backend.
abbrev pub MaySend : Backend → Clock → MtpCache → String → Row → Type 0
MaySend b now c network r =
    (r.network ≡ network)
    × (attempt_reached now.utc r ≡ true)
    × IsMet (mtp_of b now c) (check_block_height b) (get_or r.nlocktime 0)
    × (waits_for_price r ≡ false)
    × ((txid : String) × (broadcast_transaction b r.tx_hex ≡ ok txid))

tick_row-safe :
    (b : Backend) (now : Clock) (c : MtpCache) (network : String) (r : Row)
    → r.status ≢ broadcast
    → (tick_row b now c network r).status ≡ broadcast
    → MaySend b now c network r
tick_row-safe b now c network r new sent =
    let s = mark_row now.utc network r in
    let t = requeue_row now.utc network s in
    let (back_s, ripe_s, price_s) = mark_row-ripe now.utc network r in
    let (back_t, ripe_t, price_t) = requeue_row-ripe now.utc network s in
    let (net_s, hex_s, lock_s, _) = mark_row-SameTx now.utc network r in
    let (net_t, hex_t, lock_t, _) = requeue_row-SameTx now.utc network s in
    let (due, on, (txid, taken)) =
      broadcast_row-sent b now c network t sent (λ e. new (back_s (back_t e))) in
    let (locked, reached, priceless) = is_due→satisfied b now c t due in
    let hex = hex_t ∙ hex_s in
    (
      sym (net_t ∙ net_s) ∙ on,
      ripe_s (ripe_t reached),
      (locktime_iff b now c r.nlocktime).0
          (subst (λ n. locktime_of b now c n ≡ ok true) (lock_t ∙ lock_s) locked),
      no_price now.utc network r priceless,
      (txid, subst (λ h. broadcast_transaction b h ≡ ok txid) hex taken),
    )

pub run_scheduler_tick-get :
    (b : Backend) (now : Clock) (m : PoolManager) (r : Row)
    → indexer_healthy b ≡ true
    → Distinct m.db
    → length (filter (matches_filter (some "failed") m.config.network) m.db) ≤ 1000
    → get_broadcast_tx_by_id r.id m.db ≡ ok r
    → get_broadcast_tx_by_id r.id (run_scheduler_tick b now m).0.db
      ≡ ok (tick_row b now m.mtp_cache m.config.network r)
run_scheduler_tick-get b now m r healthy d few found =
    let network = m.config.network in
    ap (get_broadcast_tx_by_id r.id) (run_scheduler_tick-db b now m healthy d few)
    ∙ get-map r.id (tick_row b now m.mtp_cache network) m.db
        (tick_row-KeepsId b now m.mtp_cache network)
    ∙ ap (map_ok (tick_row b now m.mtp_cache network)) found

module _ (b : Backend) (now : Clock) (m : PoolManager) (r s : Row) where
  -- A tick sends only what it may: if a transaction is broadcast after the tick and was not before,
  -- it is on the node's network, its attempt's time has come, the chain has met its locktime, it does
  -- not wait for a price, and the backend accepted it. Ids are distinct, and at most 1000
  -- transactions of the network have failed.
  pub run_scheduler_tick-safe :
      Distinct m.db
      → length (filter (matches_filter (some "failed") m.config.network) m.db) ≤ 1000
      → get_broadcast_tx_by_id r.id m.db ≡ ok r
      → r.status ≢ broadcast
      → get_broadcast_tx_by_id r.id (run_scheduler_tick b now m).0.db ≡ ok s
      → s.status ≡ broadcast
      → MaySend b now m.mtp_cache m.config.network r
  unfolding run_scheduler_tick
  run_scheduler_tick-safe d few found new found' sent = elim (Bool-cases (indexer_healthy b)) [
    | inl y ↦
        tick_row-safe b now m.mtp_cache m.config.network r new
          (ap status_of (sym (run_scheduler_tick-get b now m r y d few found) ∙ found') ∙ sent)
    | inr n ↦ elim (new (ap status_of (sym found ∙ sym (unhealthy n) ∙ found') ∙ sent)) [ ]
  ]
    where
      status_of : Result Row → TxStatus
      status_of (ok t) = t.status
      status_of (err e) = pending

      unhealthy :
          indexer_healthy b ≡ false
          → get_broadcast_tx_by_id r.id (run_scheduler_tick b now m).0.db
            ≡ get_broadcast_tx_by_id r.id m.db
      unhealthy n = rw n refl
