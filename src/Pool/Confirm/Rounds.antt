-- ===== src/Pool/Confirm/Rounds.antt =====
-- What a round of rebroadcasts, a round of confirmations and a removal do to the store.
use mathlib.Core.Path.{fun_ext}
use umbrel_apps.Prelude.{
  ℕ, ◌≤◌, String, some, true, false, ◌&&◌, List, [], ◌∷◌, map, ◌≡◌, refl, sym, ap, subst, ◌∙◌, inl,
  inr, Result, ok, err, is_ok, ok_or, arith, filter, length, if◌then◌else◌, Bool-cases,
  Result-cases,
}
use umbrel_apps.Db.Models.{DateTime, Row}
use umbrel_apps.Db.Table
use umbrel_apps.Db.Table.{
  Table, has_id, get_broadcast_tx_by_id, update_where, order_desc, matches_filter,
  wants_rebroadcast, cutoff, set_confirmed,
}
use umbrel_apps.Db.Table.Update.{
  KeepsId, Distinct, update_each, update_each-filter, update_where-id,
}
use umbrel_apps.Db.Table.Select.{
  update_each-order_desc, take_all, length-order_desc, filter-Distinct,
}
use umbrel_apps.Pool.Backend.{Backend, Clock, Rpc, broadcast_transaction}
use umbrel_apps.Pool.Manager.{PoolManager}
use umbrel_apps.Pool.Confirm.{
  set_sent_again, rebroadcast_loop, rebroadcast_pending, in_block, confirm_loop,
  check_confirmations,
}

resend_change : Backend → DateTime → Row → Row → Row
resend_change b now x =
    if is_ok (broadcast_transaction b x.tx_hex) then set_sent_again now else (λ r. r)

resend_change-KeepsId : (b : Backend) (now : DateTime) (x : Row) → KeepsId (resend_change b now x)
unfolding resend_change set_sent_again
resend_change-KeepsId b now x r = ground arith

rebroadcast_loop-each :
    (b : Backend) (now : DateTime) (xs : List Row) (t : Table)
    → ((rebroadcast_loop b now xs t).0 ≡ update_each (resend_change b now) t xs)
      × ((rebroadcast_loop b now xs t).1 ≡ map (λ x. (x.id, broadcast_transaction b x.tx_hex)) xs)
unfolding rebroadcast_loop resend_change
rebroadcast_loop-each b now [] t = (refl, refl)
rebroadcast_loop-each b now (x ∷ xs) t = elim (Result-cases (broadcast_transaction b x.tx_hex)) [
  | inl (txid, e) ↦
      (let (p, q) = rebroadcast_loop-each b now xs (update_where x.id (set_sent_again now) t) in
        rw (e, rebroadcast_loop) (p, ap (λ u. (x.id, ok txid) ∷ u) q))
  | inr (msg, e) ↦
      (let (p, q) = rebroadcast_loop-each b now xs t in
        rw (e, rebroadcast_loop) (rw (update_where-id x.id t) p, ap (λ u. (x.id, err msg) ∷ u) q))
]

-- What a rebroadcast round makes of each row.
unfoldable pub resend_row : Backend → DateTime → DateTime → String → Row → Row
resend_row b cutoff now network r =
    if wants_rebroadcast cutoff network r && is_ok (broadcast_transaction b r.tx_hex)
    then set_sent_again now r
    else r

resend_row_eq :
    (b : Backend) (cutoff now : DateTime) (network : String) (r : Row)
    → (if wants_rebroadcast cutoff network r then resend_change b now r r else r)
      ≡ resend_row b cutoff now network r
unfolding resend_change resend_row
resend_row_eq b cutoff now network r = ground arith

unfoldable pub at_height : Result ℕ → DateTime → Row → Row
at_height (err e) now r = r
at_height (ok height) now r = set_confirmed height now r

confirm_change : Rpc → DateTime → Row → Row → Row
confirm_change rpc now x = if in_block rpc x then at_height rpc.get_block_count now else (λ r. r)

pub at_height-KeepsId : (h : Result ℕ) (now : DateTime) → KeepsId (at_height h now)
unfolding at_height set_confirmed
at_height-KeepsId (err e) now r = refl
at_height-KeepsId (ok height) now r = refl

confirm_change-KeepsId : (rpc : Rpc) (now : DateTime) (x : Row) → KeepsId (confirm_change rpc now x)
unfolding confirm_change
confirm_change-KeepsId rpc now x r = ground (arith, at_height-KeepsId rpc.get_block_count now r)

confirm_loop-each :
    (rpc : Rpc) (now : DateTime) (xs : List Row) (t : Table)
    → (confirm_loop rpc now xs t).0 ≡ update_each (confirm_change rpc now) t xs
unfolding confirm_loop confirm_change at_height Table.mark_confirmed
confirm_loop-each rpc now [] t = refl
confirm_loop-each rpc now (x ∷ xs) t = elim (Bool-cases (in_block rpc x)) [
  | inr n ↦ rw n (rw (update_where-id x.id t) (confirm_loop-each rpc now xs t))
  | inl y ↦ rw y (elim (Result-cases rpc.get_block_count) [
    | inl (height, e) ↦ rw (e, confirm_loop) (confirm_loop-each rpc now xs _)
    | inr (msg, e) ↦
        rw (e, confirm_loop) (rw (update_where-id x.id t) (confirm_loop-each rpc now xs t))
  ])
]

-- What a confirmation round makes of each row.
unfoldable pub confirm_row : Rpc → DateTime → String → Row → Row
confirm_row rpc now network r =
    if matches_filter (some "broadcast") network r && in_block rpc r
    then at_height rpc.get_block_count now r
    else r

confirm_row_eq :
    (rpc : Rpc) (now : DateTime) (network : String) (r : Row)
    → (if matches_filter (some "broadcast") network r then confirm_change rpc now r r else r)
      ≡ confirm_row rpc now network r
unfolding confirm_change confirm_row
confirm_row_eq rpc now network r = ground arith

-- On distinct ids a rebroadcast round sends again each transaction of the network that is out, has
-- no confirmation and was sent before the interval began (the configured minutes, read as an i32),
-- notes the time where it was accepted, changes nothing else, and reports each answer.
pub rebroadcast_pending-db :
    (b : Backend) (now : Clock) (m : PoolManager)
    → Distinct m.db
    → ((rebroadcast_pending b now m).0.db
        ≡ map
            (resend_row b
              (cutoff m.config.rebroadcast_interval_minutes now.utc)
              now.utc
              m.config.network)
            m.db)
      × ((rebroadcast_pending b now m).1
          ≡ map
              (λ x. (x.id, broadcast_transaction b x.tx_hex))
              (filter
                (wants_rebroadcast
                  (cutoff m.config.rebroadcast_interval_minutes now.utc)
                  m.config.network)
                m.db))
unfolding rebroadcast_pending Table.get_pending_rebroadcast
rebroadcast_pending-db b now m d =
    let network = m.config.network in
    let limit = cutoff m.config.rebroadcast_interval_minutes now.utc in
    let (p, q) =
      rebroadcast_loop-each b now.utc (filter (wants_rebroadcast limit network) m.db) m.db in
    (
      p
          ∙ update_each-filter (resend_change b now.utc) (wants_rebroadcast limit network) m.db
              (resend_change-KeepsId b now.utc) d
          ∙ ap (λ f. map f m.db) (fun_ext (resend_row_eq b limit now.utc network)),
      q,
    )

-- Where Bitcoin Core answers, at most 1000 transactions of the network are out and ids are distinct,
-- a confirmation round confirms each that is in a block, if the height is known, and no other.
pub check_confirmations-db :
    (b : Backend) (now : Clock) (m : PoolManager) (rpc : Rpc)
    → b.rpc ≡ some rpc
    → ok_or rpc.test_connection false ≡ true
    → Distinct m.db
    → length (filter (matches_filter (some "broadcast") m.config.network) m.db) ≤ 1000
    → (check_confirmations b now m).0.db ≡ map (confirm_row rpc now.utc m.config.network) m.db
unfolding check_confirmations Table.list_broadcast_txs
check_confirmations-db b now m rpc core alive d few =
    let network = m.config.network in
    let p = matches_filter (some "broadcast") network in
    let out = filter p m.db in
    let change = confirm_change rpc now.utc in
    let keeps = confirm_change-KeepsId rpc now.utc in
    let all =
      take_all 1000 (order_desc out) (subst (λ n. n ≤ 1000) (sym (length-order_desc out)) few) in
    rw (core, check_confirmations)
      (rw (alive, all)
        (confirm_loop-each rpc now.utc (order_desc out) m.db
          ∙ update_each-order_desc change keeps m.db out (filter-Distinct p m.db d)
          ∙ update_each-filter change p m.db keeps d
          ∙ ap (λ f. map f m.db) (fun_ext (confirm_row_eq rpc now.utc network))))
