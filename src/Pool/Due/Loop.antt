-- ===== src/Pool/Due/Loop.antt =====
-- The broadcast loop changes the store row by row.
use umbrel_apps.Prelude.{
  String, some, Bool, true, false, ◌&&◌, List, [], ◌∷◌, map, ◌≡◌, refl, sym, ap, subst, ◌∙◌, inl,
  inr, Result, ok, err, ok_or, get_or, if◌then◌else◌, filter, All, arith, Bool-cases, Result-cases,
}
use umbrel_apps.Prelude.Float.{of_ℕ}
use umbrel_apps.Db.Models.{failed, Row}
use umbrel_apps.Db.Table
use umbrel_apps.Db.Table.{Table, update_where, set_broadcast, set_status, is_scheduled_on}
use umbrel_apps.Db.Table.Update.{
  update_where-id, KeepsId, Distinct, update_each, update_each-filter,
}
use umbrel_apps.Pool.Backend.{
  Backend, Clock, MtpCache, broadcast_transaction, is_locktime_satisfied,
}
use umbrel_apps.Pool.Backend.Mtp.{mtp_of, locktime_of, mtp_of-locktime, locktime_of-eq}
use umbrel_apps.Pool.Manager.{PoolManager, mark_broadcast, remove_pending_tx}
use umbrel_apps.Pool.Due.{
  is_retriable_broadcast_error, attempt_reached, waits_for_price, is_tx_due_for_broadcast,
  filter_due, broadcast_due_transactions, broadcast_due_one, broadcast_step, broadcast_loop,
}

unfoldable pub attempt_of : Result String → Clock → Row → Row → Row
attempt_of (ok txid) now x = set_broadcast txid (get_or x.target_fee_rate (of_ℕ 0)) now.utc
attempt_of (err msg) now x =
    if is_retriable_broadcast_error msg then (λ r. r) else set_status failed (some msg) now.utc

-- What a broadcast of `x` makes of the row with its id.
unfoldable pub attempt : Backend → Clock → Row → Row → Row
unfolding attempt_of
attempt b now x = attempt_of (broadcast_transaction b x.tx_hex) now x

attempt_of-KeepsId : (a : Result String) (now : Clock) (x : Row) → KeepsId (attempt_of a now x)
unfolding attempt_of set_broadcast set_status
attempt_of-KeepsId (ok txid) now x r = refl
attempt_of-KeepsId (err msg) now x r = ground arith

pub attempt-KeepsId : (b : Backend) (now : Clock) (x : Row) → KeepsId (attempt b now x)
unfolding attempt
attempt-KeepsId b now x = attempt_of-KeepsId (broadcast_transaction b x.tx_hex) now x

pub remove_pending_tx-db :
    (txid : String) (m : PoolManager)
    → ((remove_pending_tx txid m).0.db ≡ m.db)
      × ((remove_pending_tx txid m).0.mtp_cache ≡ m.mtp_cache)
unfolding remove_pending_tx
remove_pending_tx-db txid m = ground arith

-- One broadcast changes the store by `attempt` at the row's id, and not the cache.
broadcast_due_one-db :
    (b : Backend) (now : Clock) (x : Row) (m : PoolManager)
    → ((broadcast_due_one b now x m).0.db ≡ update_where x.id (attempt b now x) m.db)
      × ((broadcast_due_one b now x m).0.mtp_cache ≡ m.mtp_cache)
      × ((broadcast_due_one b now x m).1 ≡ some (broadcast_transaction b x.tx_hex))
unfolding broadcast_due_one attempt mark_broadcast Table.mark_broadcast Table.update_tx_status
broadcast_due_one-db b now x m = elim (Result-cases (broadcast_transaction b x.tx_hex)) [
  | inl (txid, e) ↦
      rw (e, broadcast_due_one, attempt)
        ((remove_pending_tx-db txid _).0, (remove_pending_tx-db txid _).1, refl)
  | inr (msg, e) ↦ elim (Bool-cases (is_retriable_broadcast_error msg)) [
    | inl y ↦
        rw (e, broadcast_due_one, attempt) (rw y (sym (update_where-id x.id m.db), refl, refl))
    | inr n ↦ rw (e, broadcast_due_one, attempt) (rw n (refl, refl, refl))
  ]
]

-- The body of the loop at a tx whose locktime is satisfied.
broadcast_step-satisfied :
    (b : Backend) (now : Clock) (x : Row) (m : PoolManager)
    → locktime_of b now m.mtp_cache x.nlocktime ≡ ok true
    → ((broadcast_step b now x m).0.db ≡ update_where x.id (attempt b now x) m.db)
      × ((broadcast_step b now x m).0.mtp_cache
          ≡ (is_locktime_satisfied b now m.mtp_cache x.nlocktime).0)
      × ((broadcast_step b now x m).1 ≡ ok (some (broadcast_transaction b x.tx_hex)))
unfolding broadcast_step
broadcast_step-satisfied b now x m e =
    let cache = (is_locktime_satisfied b now m.mtp_cache x.nlocktime).0 in
    let (p, q, r) = broadcast_due_one-db b now x (record m { mtp_cache = cache }) in
    rw (e, broadcast_step) (p, q, ap ok r)

abbrev pub result_of : Backend → Row → String × Result String
result_of b x = (x.id, broadcast_transaction b x.tx_hex)

abbrev IsSatisfied : Backend → Clock → MtpCache → Row → Type 0
IsSatisfied b now c x = locktime_of b now c x.nlocktime ≡ ok true

-- With every locktime satisfied the loop runs to its end.
broadcast_loop-satisfied :
    (b : Backend) (now : Clock) (c : MtpCache) (xs : List Row) (m : PoolManager)
    → mtp_of b now m.mtp_cache ≡ mtp_of b now c
    → All (IsSatisfied b now c) xs
    → ((broadcast_loop b now xs m).0.db ≡ update_each (attempt b now) m.db xs)
      × ((broadcast_loop b now xs m).1 ≡ ok (map (result_of b) xs))
unfolding broadcast_loop
broadcast_loop-satisfied b now c [] m h a = (refl, refl)
broadcast_loop-satisfied b now c (x ∷ xs) m h a =
    let s =
      broadcast_step-satisfied b now x m (locktime_of-eq b now m.mtp_cache c x.nlocktime h ∙ a.0) in
    let m' = (broadcast_step b now x m).0 in
    let same = ap (mtp_of b now) s.1 ∙ mtp_of-locktime b now m.mtp_cache x.nlocktime ∙ h in
    let (p, q) = broadcast_loop-satisfied b now c xs m' same a.1 in
    rw (s.2, broadcast_loop)
      (rw (q, broadcast_loop) (p ∙ ap (λ t. update_each (attempt b now) t xs) s.0, refl))

-- The due test, with the cache that the call began with.
abbrev pub is_due : Backend → Clock → MtpCache → Row → Bool
is_due b now c x = ok_or (is_tx_due_for_broadcast b now c x).1 false

is_due-stable :
    (b : Backend) (now : Clock) (c d : MtpCache) (x : Row)
    → mtp_of b now c ≡ mtp_of b now d
    → (is_due b now c x ≡ is_due b now d x)
      × (mtp_of b now (is_tx_due_for_broadcast b now c x).0 ≡ mtp_of b now d)
unfolding is_tx_due_for_broadcast
is_due-stable b now c d x h =
    ground (arith, locktime_of-eq b now c d x.nlocktime h, mtp_of-locktime b now c x.nlocktime)

filter_due-filter :
    (b : Backend) (now : Clock) (c d : MtpCache) (xs : List Row)
    → mtp_of b now c ≡ mtp_of b now d
    → ((filter_due b now c xs).1 ≡ filter (is_due b now d) xs)
      × (mtp_of b now (filter_due b now c xs).0 ≡ mtp_of b now d)
unfolding filter_due
filter_due-filter b now c d [] h = (refl, h)
filter_due-filter b now c d (x ∷ xs) h =
    let (p, q) = is_due-stable b now c d x h in
    let (r, s) = filter_due-filter b now (is_tx_due_for_broadcast b now c x).0 d xs q in
    (rw (p, r) refl, s)

-- What is due has its locktime satisfied.
pub is_due→satisfied :
    (b : Backend) (now : Clock) (c : MtpCache) (x : Row)
    → is_due b now c x ≡ true
    → (locktime_of b now c x.nlocktime ≡ ok true)
      × (attempt_reached now.utc x ≡ true)
      × (waits_for_price x ≡ false)
unfolding is_tx_due_for_broadcast
is_due→satisfied b now c x h = ground arith

filter-IsSatisfied :
    (b : Backend) (now : Clock) (c : MtpCache) (xs : List Row)
    → All (IsSatisfied b now c) (filter (is_due b now c) xs)
filter-IsSatisfied b now c [] = tt
filter-IsSatisfied b now c (x ∷ xs) = elim (Bool-cases (is_due b now c x)) [
  | inl y ↦ rw y ((is_due→satisfied b now c x y).0, filter-IsSatisfied b now c xs)
  | inr n ↦ rw n (filter-IsSatisfied b now c xs)
]

-- What a broadcast round makes of each row.
unfoldable pub broadcast_row : Backend → Clock → MtpCache → String → Row → Row
broadcast_row b now c network r =
    if is_scheduled_on network r && is_due b now c r then attempt b now r r else r

pub broadcast_row-KeepsId :
    (b : Backend) (now : Clock) (c : MtpCache) (network : String)
    → KeepsId (broadcast_row b now c network)
unfolding broadcast_row
broadcast_row-KeepsId b now c network r = ground (arith, attempt-KeepsId b now r r)

filter-filter :
    (p q : Row → Bool) (xs : List Row) → filter q (filter p xs) ≡ filter (λ r. p r && q r) xs
filter-filter p q [] = refl
filter-filter p q (x ∷ xs) = ground (arith, filter-filter p q xs)

-- A broadcast round on distinct ids changes each scheduled row of the network that is due by its own
-- attempt and no other row, runs to its end, and reports the backend's answer for each of them.
pub broadcast_due-db :
    (b : Backend) (now : Clock) (m : PoolManager)
    → Distinct m.db
    → ((broadcast_due_transactions b now m).0.db
        ≡ map (broadcast_row b now m.mtp_cache m.config.network) m.db)
      × ((broadcast_due_transactions b now m).1
          ≡ ok (
              map (result_of b) (
                filter
                  (λ r. is_scheduled_on m.config.network r && is_due b now m.mtp_cache r)
                  m.db)))
unfolding broadcast_due_transactions broadcast_row Table.get_due_transactions
broadcast_due-db b now m d =
    let c = m.mtp_cache in
    let scheduled_txs = Table.get_due_transactions m.config.network m.db in
    let f = filter_due-filter b now c c scheduled_txs refl in
    let due = (filter_due b now c scheduled_txs).1 in
    let all =
      subst (All (IsSatisfied b now c)) (sym f.0) (filter-IsSatisfied b now c scheduled_txs) in
    let selected = f.0 ∙ filter-filter (is_scheduled_on m.config.network) (is_due b now c) m.db in
    let (p, q) =
      broadcast_loop-satisfied b now c due
        (record m { mtp_cache = (filter_due b now c scheduled_txs).0 }) f.1 all in
    (
      p
          ∙ ap (update_each (attempt b now) m.db) selected
          ∙ update_each-filter (attempt b now) _ m.db (attempt-KeepsId b now) d,
      q ∙ ap (λ xs. ok (map (result_of b) xs)) selected,
    )
