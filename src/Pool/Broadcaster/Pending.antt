-- ===== src/Pool/Broadcaster/Pending.antt =====
-- What a broadcast of all pending transactions does to the store.
use umbrel_apps.Prelude.{
  ◌≤◌, String, some, Bool, false, List, [], ◌∷◌, map, ◌≡◌, refl, sym, ap, subst, ◌∙◌, inl, inr,
  Result, ok, err, get_or, str_eq, eq_refl, ||-eq-false, any, filter, length, All, if◌then◌else◌,
  Bool-cases,
}
use umbrel_apps.Prelude.Float.{of_ℕ}
use umbrel_apps.Db.Models.{DateTime, Row, confirmed, is_status}
use umbrel_apps.Db.Table
use umbrel_apps.Db.Table.{
  Table, has_id, get_broadcast_tx_by_id, update_where, set_broadcast, matches_filter, order_desc,
  list_broadcast_txs,
}
use umbrel_apps.Db.Table.Update.{
  KeepsId, Distinct, update_each, update_each-filter, update_where-id, get-update_where, str_eq-sym,
}
use umbrel_apps.Db.Table.Select.{
  update_each-order_desc, take_all, length-order_desc, filter-Distinct, order_desc-Distinct,
  All-order_desc,
}
use umbrel_apps.Pool.Backend.{Backend}
use umbrel_apps.Pool.Broadcaster.{
  broadcast_raw, marked, send, broadcast_single, single_loop, broadcast_all_pending,
}

-- The change of a row by what was answered.
abbrev set_sent : DateTime → Row → Result String → Row → Row
set_sent now x (ok txid) = set_broadcast txid (get_or x.target_fee_rate (of_ℕ 0)) now
set_sent now x (err e) = λ r. r

abbrev pub send_change : Backend → DateTime → Row → Row → Row
send_change b now x =
    if is_status x.status confirmed then (λ r. r) else set_sent now x (broadcast_raw b x.tx_hex)

pub send_change-KeepsId : (b : Backend) (now : DateTime) (x : Row) → KeepsId (send_change b now x)
unfolding set_broadcast
send_change-KeepsId b now x r = elim (Bool-cases (is_status x.status confirmed)) [
  | inl y ↦ rw y refl
  | inr n ↦ rw n (by_answer (broadcast_raw b x.tx_hex))
]
  where
    by_answer : (a : Result String) → (set_sent now x a r).id ≡ r.id
    by_answer (ok txid) = refl
    by_answer (err e) = refl

send-update :
    (b : Backend) (now : DateTime) (x : Row) (t : Table)
    → (send b now x t).0 ≡ update_where x.id (send_change b now x) t
unfolding Table.mark_broadcast
send-update b now x t = elim (Bool-cases (is_status x.status confirmed)) [
  | inl y ↦ rw y (sym (update_where-id x.id t))
  | inr n ↦ rw n (by_answer (broadcast_raw b x.tx_hex))
]
  where
    by_answer : (a : Result String) → (marked now x t a).0 ≡ update_where x.id (set_sent now x a) t
    by_answer (ok txid) = refl
    by_answer (err e) = sym (update_where-id x.id t)

-- Each row is in the table.
abbrev AllStored : Table → List Row → Type 0
AllStored t xs = All (λ x. get_broadcast_tx_by_id x.id t ≡ ok x) xs

single-send :
    (b : Backend) (now : DateTime) (x : Row) (t : Table)
    → get_broadcast_tx_by_id x.id t ≡ ok x
    → broadcast_single b now x.id t ≡ send b now x t
unfolding broadcast_single
single-send b now x t e = rw (e, broadcast_single) refl

-- An update of another row leaves them stored.
still_stored :
    (x : Row) (set : Row → Row) (xs : List Row) (t : Table)
    → KeepsId set
    → any (has_id x.id) xs ≡ false
    → AllStored t xs
    → AllStored (update_where x.id set t) xs
still_stored x set [] t k h a = tt
still_stored x set (y ∷ ys) t k h a =
    let miss = ||-eq-false (has_id x.id y) (any (has_id x.id) ys) h in
    let other : str_eq x.id y.id ≡ false = str_eq-sym x.id y.id ∙ miss.0 in
    (get-update_where x.id y.id set t k ∙ rw other a.0, still_stored x set ys t k miss.1 a.1)

single_loop-each :
    (b : Backend) (now : DateTime) (xs : List Row) (t : Table)
    → Distinct xs
    → AllStored t xs
    → (single_loop b now xs t).0 ≡ update_each (send_change b now) t xs
unfolding single_loop
single_loop-each b now [] t d a = refl
single_loop-each b now (x ∷ xs) t d a =
    let sent : (broadcast_single b now x.id t).0 ≡ update_where x.id (send_change b now x) t =
      ap (λ r. r.0) (single-send b now x t a.0) ∙ send-update b now x t in
    ap (λ u. (single_loop b now xs u).0) sent
    ∙ single_loop-each b now xs _ d.1
        (still_stored x (send_change b now x) xs t (send_change-KeepsId b now x) d.0 a.1)

-- The rows of a table with distinct ids are stored in it, and so are those behind one more.
behind :
    (r : Row) (xs : List Row) (t : Table)
    → any (has_id r.id) xs ≡ false
    → AllStored t xs
    → AllStored (r ∷ t) xs
unfolding get_broadcast_tx_by_id
behind r [] t h a = tt
behind r (y ∷ ys) t h a =
    let miss = ||-eq-false (has_id r.id y) (any (has_id r.id) ys) h in
    let other : str_eq r.id y.id ≡ false = str_eq-sym r.id y.id ∙ miss.0 in
    (rw other a.0, behind r ys t miss.1 a.1)

all_stored : (t : Table) → Distinct t → AllStored t t
unfolding get_broadcast_tx_by_id
all_stored [] d = tt
all_stored (r ∷ t) d = (rw (eq_refl r.id) refl, behind r t t d.0 (all_stored t d.1))

All-filter : (P : Row → Type 0) (p : Row → Bool) (xs : List Row) → All P xs → All P (filter p xs)
All-filter P p [] a = tt
All-filter P p (x ∷ xs) a = elim (Bool-cases (p x)) [
  | inl y ↦ rw y (a.0, All-filter P p xs a.1)
  | inr n ↦ rw n (All-filter P p xs a.1)
]

-- What the command makes of each row.
unfoldable pub sent_row : Backend → DateTime → String → Row → Row
sent_row b now network r =
    if matches_filter (some "pending") network r then send_change b now r r else r

-- On distinct ids and at most 1000 pending transactions of the network, the store changes row by row.
pub broadcast_all_pending-db :
    (b : Backend) (now : DateTime) (network : String) (t : Table)
    → Distinct t
    → length (filter (matches_filter (some "pending") network) t) ≤ 1000
    → (broadcast_all_pending b now network t).0 ≡ map (sent_row b now network) t
unfolding broadcast_all_pending list_broadcast_txs sent_row
broadcast_all_pending-db b now network t d few =
    let p = matches_filter (some "pending") network in
    let found = filter p t in
    let change = send_change b now in
    let keeps = send_change-KeepsId b now in
    let distinct = filter-Distinct p t d in
    let stored = All-order_desc _ found (All-filter _ p t (all_stored t d)) in
    let all =
      take_all 1000 (order_desc found)
        (subst (λ n. n ≤ 1000) (sym (length-order_desc found)) few) in
    rw all (
      single_loop-each b now (order_desc found) t (order_desc-Distinct found distinct) stored
      ∙ update_each-order_desc change keeps t found distinct
      ∙ update_each-filter change p t keeps d)
