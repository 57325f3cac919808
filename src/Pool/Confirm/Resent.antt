-- ===== src/Pool/Confirm/Resent.antt =====
-- Which transactions a round of rebroadcasts sends again.
use umbrel_apps.Prelude.{
  ◌-◌, ◌*◌, ◌^◌, ◌<◌, String, none, some, true, false, ◌≡◌, refl, ap, ◌∙◌, ◌⊎◌, inl, inr, ok, err,
  is_ok, arith, eq_iff, eq_refl, Bool-cases, Option-cases, Result-cases, not_both,
}
use umbrel_apps.Db.Models.{DateTime, nanos_per_sec, broadcast, status_eq, Row}
use umbrel_apps.Db.Table.{get_broadcast_tx_by_id, wants_rebroadcast, cutoff}
use umbrel_apps.Db.Table.Update.{KeepsId, Distinct, get-map, map_ok}
use umbrel_apps.Pool.Backend.{Backend, Clock, broadcast_transaction}
use umbrel_apps.Pool.Manager.{PoolManager}
use umbrel_apps.Pool.Confirm.{set_sent_again, rebroadcast_pending}
use umbrel_apps.Pool.Confirm.Rounds.{resend_row, rebroadcast_pending-db}

-- A transaction of the network that is out and not confirmed, and was not sent since a time.
abbrev pub IsOverdue : DateTime → String → Row → Type 0
IsOverdue since network r =
    (r.status ≡ broadcast)
    × (r.network ≡ network)
    × (r.confirmed_at ≡ none)
    × ((r.broadcast_at ≡ none) ⊎ ((t : DateTime) × (r.broadcast_at ≡ some t) × (t < since)))

IsOverdue-test :
    (since : DateTime) (network : String) (r : Row)
    → IsOverdue since network r
    → wants_rebroadcast since network r ≡ true
IsOverdue-test since network r (p, q, c, inl e) = rw (p, q, c, e) (ground (arith, eq_refl network))
IsOverdue-test since network r (p, q, c, inr (t, e, early)) =
    rw (p, q, c, e) (ground (arith, eq_refl network))

test-IsOverdue :
    (since : DateTime) (network : String) (r : Row)
    → wants_rebroadcast since network r ≡ true
    → IsOverdue since network r
test-IsOverdue since network r h = (
  status_eq r.status broadcast (ground arith),
  (eq_iff r.network network).0 (ground arith),
  ground arith,
  (elim (Option-cases r.broadcast_at) [ inl e ↦ inl e | inr (t, e) ↦ inr (t, e, ground arith) ]),
)

resend_row-KeepsId :
    (b : Backend) (since now : DateTime) (network : String)
    → KeepsId (resend_row b since now network)
unfolding resend_row set_sent_again
resend_row-KeepsId b since now network r = ground arith

resend_row-sent :
    (b : Backend) (since now : DateTime) (network txid : String) (r : Row)
    → wants_rebroadcast since network r ≡ true
    → broadcast_transaction b r.tx_hex ≡ ok txid
    → resend_row b since now network r ≡ record r { broadcast_at = some now; updated_at = now }
unfolding resend_row set_sent_again
resend_row-sent b since now network txid r y e = rw (y, e) refl

resend_row-refused :
    (b : Backend) (since now : DateTime) (network msg : String) (r : Row)
    → broadcast_transaction b r.tx_hex ≡ err msg
    → resend_row b since now network r ≡ r
unfolding resend_row
resend_row-refused b since now network msg r e = ground arith

resend_row-kept :
    (b : Backend) (since now : DateTime) (network : String) (r : Row)
    → wants_rebroadcast since network r ≡ false
    → resend_row b since now network r ≡ r
unfolding resend_row
resend_row-kept b since now network r n = rw n refl

-- On distinct ids, and with an interval below 2 ^ 31 minutes, a rebroadcast round sends a transaction
-- again and notes the time, if it is out on the node's network, has no confirmation, was not sent
-- within the interval, and the backend accepts it; any other stays as it is.
pub rebroadcast_pending-resent :
    (b : Backend) (now : Clock) (m : PoolManager) (since : DateTime) (id : String) (r : Row)
    → Distinct m.db
    → m.config.rebroadcast_interval_minutes < 2 ^ 31
    → since ≡ now.utc - m.config.rebroadcast_interval_minutes * 60 * nanos_per_sec
    → get_broadcast_tx_by_id id m.db ≡ ok r
    → (IsOverdue since m.config.network r
        × ((txid : String) × (broadcast_transaction b r.tx_hex ≡ ok txid))
        × (get_broadcast_tx_by_id id (rebroadcast_pending b now m).0.db
            ≡ ok (record r { broadcast_at = some now.utc; updated_at = now.utc })))
      ⊎ ((¬ (
            IsOverdue since m.config.network r
            × ((txid : String) × (broadcast_transaction b r.tx_hex ≡ ok txid))))
          × (get_broadcast_tx_by_id id (rebroadcast_pending b now m).0.db ≡ ok r))
rebroadcast_pending-resent b now m since id r d small from found =
    let network = m.config.network in
    let interval = m.config.rebroadcast_interval_minutes in
    let limit = cutoff interval now.utc in
    let same : limit ≡ since = ground (arith, from, small) in
    let row = resend_row b since now.utc network in
    let after : get_broadcast_tx_by_id id (rebroadcast_pending b now m).0.db ≡ ok (row r) =
      ap (get_broadcast_tx_by_id id) (rebroadcast_pending-db b now m d).0
      ∙ get-map id (resend_row b limit now.utc network) m.db
          (resend_row-KeepsId b limit now.utc network)
      ∙ ap (map_ok (resend_row b limit now.utc network)) found
      ∙ ap (λ l. ok (resend_row b l now.utc network r)) same in
    elim (Result-cases (broadcast_transaction b r.tx_hex)) [
      | inr (msg, e) ↦ inr (
        λ w. (let (due, (txid, sent)) = w in not_both (ap is_ok sent) (ap is_ok e)),
        after ∙ ap ok (resend_row-refused b since now.utc network msg r e),
      )
      | inl (txid, e) ↦ elim (Bool-cases (wants_rebroadcast since network r)) [
        | inl y ↦ inl (
          test-IsOverdue since network r y,
          (txid, e),
          after ∙ ap ok (resend_row-sent b since now.utc network txid r y e),
        )
        | inr n ↦ inr (
          λ w. (let (due, sent) = w in not_both (IsOverdue-test since network r due) n),
          after ∙ ap ok (resend_row-kept b since now.utc network r n),
        )
      ]
    ]
