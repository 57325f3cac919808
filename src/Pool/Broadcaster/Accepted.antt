-- ===== src/Pool/Broadcaster/Accepted.antt =====
-- Which transactions a broadcast of all pending ones sends, and how.
use umbrel_apps.Prelude.{
  ◌≤◌, String, Option, none, some, true, false, ◌≡◌, refl, sym, ap, ◌∙◌, ◌⊎◌, inl, inr, Result, ok,
  err, get_or, str_eq, arith, eq_iff, eq_refl, &&-eq-true, filter, length, Bool-cases, Result-cases,
  not_both,
}
use umbrel_apps.Prelude.Float.{of_ℕ}
use umbrel_apps.Db.Models.{DateTime, pending, broadcast, confirmed, is_status, status_eq, Row}
use umbrel_apps.Db.Table.{Table, get_broadcast_tx_by_id, matches_filter, set_broadcast}
use umbrel_apps.Db.Table.Update.{KeepsId, Distinct, get-map, map_ok}
use umbrel_apps.Pool.Backend.{Backend, Indexer, Rpc}
use umbrel_apps.Pool.Broadcaster.{raw_rpc, raw_indexer, broadcast_raw, broadcast_all_pending}
use umbrel_apps.Pool.Broadcaster.Pending.{send_change-KeepsId, sent_row, broadcast_all_pending-db}

abbrev IndexerTakes : Option Indexer → String → String → Type 0
IndexerTakes o tx_hex txid =
    (i : Indexer) × (o ≡ some i) × (i.broadcast_transaction tx_hex ≡ ok txid)

abbrev IndexerFails : Option Indexer → String → Type 0
IndexerFails o tx_hex =
    (o ≡ none)
    ⊎ ((i : Indexer) × ((e : String) × (o ≡ some i) × (i.broadcast_transaction tx_hex ≡ err e)))

abbrev CoreTakes : Option Rpc → String → String → Type 0
CoreTakes p tx_hex txid = (r : Rpc) × (p ≡ some r) × (r.broadcast_transaction tx_hex ≡ ok txid)

-- The indexer takes it; or there is none or it does not, and Bitcoin Core takes it.
abbrev pub IsAccepted : Backend → String → String → Type 0
IsAccepted b tx_hex txid =
    IndexerTakes b.indexer tx_hex txid
    ⊎ (IndexerFails b.indexer tx_hex × CoreTakes b.rpc tx_hex txid)

IsAccepted-raw :
    (b : Backend) (tx_hex txid : String)
    → IsAccepted b tx_hex txid
    → broadcast_raw b tx_hex ≡ ok txid
unfolding broadcast_raw raw_indexer raw_rpc
IsAccepted-raw b tx_hex txid (inl (i, e, f)) = rw (e, broadcast_raw) (rw f refl)
IsAccepted-raw b tx_hex txid (inr (inl e, (r, p, q))) = rw (e, broadcast_raw) (rw p q)
IsAccepted-raw b tx_hex txid (inr (inr (i, (msg, e, f)), (r, p, q))) =
    rw (e, broadcast_raw) (rw f (rw p q))

raw_rpc-CoreTakes :
    (p : Option Rpc) (tx_hex txid : String) → raw_rpc p tx_hex ≡ ok txid → CoreTakes p tx_hex txid
unfolding raw_rpc
raw_rpc-CoreTakes none tx_hex txid h = ground arith
raw_rpc-CoreTakes (some r) tx_hex txid h = (r, refl, h)

raw_indexer-takes :
    (o : Option Indexer) (p : Option Rpc) (tx_hex txid : String)
    → raw_indexer o p tx_hex ≡ ok txid
    → IndexerTakes o tx_hex txid ⊎ (IndexerFails o tx_hex × CoreTakes p tx_hex txid)
unfolding raw_indexer
raw_indexer-takes none p tx_hex txid h = inr (inl refl, raw_rpc-CoreTakes p tx_hex txid h)
raw_indexer-takes (some i) p tx_hex txid h = by_answer (i.broadcast_transaction tx_hex) refl h
  where
    by_answer :
        (a : Result String)
        → i.broadcast_transaction tx_hex ≡ a
        → (elim a [ ok t ↦ ok t | err e ↦ raw_rpc p tx_hex ]) ≡ ok txid
        → IndexerTakes (some i) tx_hex txid
          ⊎ (IndexerFails (some i) tx_hex × CoreTakes p tx_hex txid)
    by_answer (ok t) e k = inl (i, refl, e ∙ k)
    by_answer (err m) e k = inr (inr (i, (m, refl, e)), raw_rpc-CoreTakes p tx_hex txid k)

raw-IsAccepted :
    (b : Backend) (tx_hex txid : String)
    → broadcast_raw b tx_hex ≡ ok txid
    → IsAccepted b tx_hex txid
unfolding broadcast_raw
raw-IsAccepted b tx_hex txid h = raw_indexer-takes b.indexer b.rpc tx_hex txid h

-- A pending transaction of the network that is accepted, under some txid.
abbrev pub IsSent : Backend → String → Row → String → Type 0
IsSent b network r txid = (r.status ≡ pending) × (r.network ≡ network) × IsAccepted b r.tx_hex txid

matches-pending :
    (network : String) (r : Row)
    → matches_filter (some "pending") network r ≡ true
    → (r.status ≡ pending) × (r.network ≡ network)
matches-pending network r h =
    let (near, waits) = &&-eq-true (str_eq r.network network) _ h in
    (status_eq r.status pending waits, (eq_iff r.network network).0 near)

pending-matches :
    (network : String) (r : Row)
    → r.status ≡ pending
    → r.network ≡ network
    → matches_filter (some "pending") network r ≡ true
pending-matches network r p q = rw (p, q) (ground (arith, eq_refl network))

sent_row-KeepsId :
    (b : Backend) (now : DateTime) (network : String) → KeepsId (sent_row b now network)
unfolding sent_row
sent_row-KeepsId b now network r = elim (Bool-cases (matches_filter (some "pending") network r)) [
  | inl y ↦ rw y (send_change-KeepsId b now r r)
  | inr n ↦ rw n refl
]

-- The row as sent under a txid.
sent_now : DateTime → String → Row → Row
sent_now now txid r = record r {
  status = broadcast;
  txid = some txid;
  actual_fee_rate = some (get_or r.target_fee_rate (of_ℕ 0));
  broadcast_at = some now;
  updated_at = now;
  broadcast_missed_at = none;
  defer_until = none;
}

sent_row-accepted :
    (b : Backend) (now : DateTime) (network : String) (r : Row) (txid : String)
    → r.status ≡ pending
    → matches_filter (some "pending") network r ≡ true
    → broadcast_raw b r.tx_hex ≡ ok txid
    → sent_row b now network r ≡ sent_now now txid r
unfolding sent_row sent_now set_broadcast
sent_row-accepted b now network r txid p y e =
    let not_yet : is_status r.status confirmed ≡ false = rw p refl in rw (y, not_yet) (rw e refl)

sent_row-refused :
    (b : Backend) (now : DateTime) (network : String) (r : Row) (msg : String)
    → broadcast_raw b r.tx_hex ≡ err msg
    → sent_row b now network r ≡ r
unfolding sent_row
sent_row-refused b now network r msg e =
    elim (Bool-cases (matches_filter (some "pending") network r)) [
      | inr n ↦ rw n refl
      | inl y ↦ elim (Bool-cases (is_status r.status confirmed)) [
        | inl c ↦ rw (y, c) refl
        | inr c ↦ rw (y, c) (rw e refl)
      ]
    ]

sent_row-elsewhere :
    (b : Backend) (now : DateTime) (network : String) (r : Row)
    → matches_filter (some "pending") network r ≡ false
    → sent_row b now network r ≡ r
unfolding sent_row
sent_row-elsewhere b now network r n = rw n refl

ok_not_err : {txid msg : String} → ¬ Path (Result String) (ok txid) (err msg)
ok_not_err e = ground arith

-- On distinct ids and at most 1000 pending transactions of the network, a broadcast of all pending
-- ones marks one as broadcast now, under its txid and at its fee rate, if it is pending on the network
-- and the indexer accepts it under that txid, or Bitcoin Core does where the indexer is missing or
-- refuses it; any other stays as it is.
pub broadcast_all_pending-IsSent :
    (b : Backend) (now : DateTime) (network : String) (t : Table) (id : String) (r : Row)
    → Distinct t
    → length (filter (matches_filter (some "pending") network) t) ≤ 1000
    → get_broadcast_tx_by_id id t ≡ ok r
    → ((txid : String) × IsSent b network r txid
        × (get_broadcast_tx_by_id id (broadcast_all_pending b now network t).0
            ≡ ok (record r {
              status = broadcast;
              txid = some txid;
              actual_fee_rate = some (get_or r.target_fee_rate (of_ℕ 0));
              broadcast_at = some now;
              updated_at = now;
              broadcast_missed_at = none;
              defer_until = none;
            })))
      ⊎ ((¬ ((txid : String) × IsSent b network r txid))
          × (get_broadcast_tx_by_id id (broadcast_all_pending b now network t).0 ≡ ok r))
unfolding sent_now
broadcast_all_pending-IsSent b now network t id r d few found =
    let row = sent_row b now network in
    let after : get_broadcast_tx_by_id id (broadcast_all_pending b now network t).0 ≡ ok (row r) =
      ap (get_broadcast_tx_by_id id) (broadcast_all_pending-db b now network t d few)
      ∙ get-map id row t (sent_row-KeepsId b now network)
      ∙ ap (map_ok row) found in
    elim (Result-cases (broadcast_raw b r.tx_hex)) [
      | inr (msg, e) ↦ inr (
        λ w. (let (t, (p, q, a)) = w in ok_not_err (sym (IsAccepted-raw b r.tx_hex t a) ∙ e)),
        after ∙ ap ok (sent_row-refused b now network r msg e),
      )
      | inl (txid, e) ↦ elim (Bool-cases (matches_filter (some "pending") network r)) [
        | inl y ↦
            (let (p, q) = matches-pending network r y in
              inl (
                txid,
                (p, q, raw-IsAccepted b r.tx_hex txid e),
                after ∙ ap ok (sent_row-accepted b now network r txid p y e),
              ))
        | inr n ↦ inr (
          λ w. (let (t, (p, q, a)) = w in not_both (pending-matches network r p q) n),
          after ∙ ap ok (sent_row-elsewhere b now network r n),
        )
      ]
    ]
