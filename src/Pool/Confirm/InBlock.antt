-- ===== src/Pool/Confirm/InBlock.antt =====
-- Which transactions a round of confirmations confirms, and how.
use umbrel_apps.Prelude.{
  Bool, &&-eq-true, str_eq, subst, ℕ, ◌≤◌, String, Option, none, some, true, false, ◌&&◌, ◌≡◌, refl,
  ap, ◌∙◌, ◌⊎◌, inl, inr, Result, ok, err, ok_or, arith, eq_iff, eq_refl, filter, length,
  Bool-cases, Option-cases, not_both,
}
use umbrel_apps.Db.Models.{DateTime, broadcast, confirmed, status_eq, Row}
use umbrel_apps.Db.Table.{get_broadcast_tx_by_id, matches_filter, set_confirmed}
use umbrel_apps.Db.Table.Update.{KeepsId, Distinct, get-map, map_ok}
use umbrel_apps.Pool.Backend.{Backend, Clock, Rpc}
use umbrel_apps.Pool.Manager.{PoolManager}
use umbrel_apps.Pool.Confirm.{in_block, check_confirmations}
use umbrel_apps.Pool.Confirm.Rounds.{
  confirm_row, at_height, at_height-KeepsId, check_confirmations-db,
}

-- A transaction of the network that is out, and that Bitcoin Core has in a block.
abbrev pub IsInBlock : Rpc → String → Row → Type 0
IsInBlock rpc network r =
    (r.status ≡ broadcast)
    × (r.network ≡ network)
    × ((txid blockhash : String) × (r.txid ≡ some txid)
        × (rpc.get_transaction txid ≡ ok (some blockhash)))

IsInBlock-test :
    (rpc : Rpc) (network : String) (r : Row)
    → IsInBlock rpc network r
    → (matches_filter (some "broadcast") network r && in_block rpc r) ≡ true
IsInBlock-test rpc network r (p, q, (txid, blockhash, e, f)) =
    rw (p, q, e) (rw f (ground (arith, eq_refl network)))

found_there :
    (a : Result (Option String))
    → (elim a as (λ x. Bool) [ err e ↦ false | ok none ↦ false | ok (some h) ↦ true ]) ≡ true
    → (blockhash : String) × (a ≡ ok (some blockhash))
found_there (err e) h = ground arith
found_there (ok none) h = ground arith
found_there (ok (some b)) h = (b, refl)

test-IsInBlock :
    (rpc : Rpc) (network : String) (r : Row)
    → (matches_filter (some "broadcast") network r && in_block rpc r) ≡ true
    → IsInBlock rpc network r
test-IsInBlock rpc network r h =
    let (out, there) =
      &&-eq-true (matches_filter (some "broadcast") network r) (in_block rpc r) h in
    let (near, sent) = &&-eq-true (str_eq r.network network) _ out in
    (
      status_eq r.status broadcast sent,
      (eq_iff r.network network).0 near,
      (elim (Option-cases r.txid) [
        | inl e ↦ ground arith
        | inr (txid, e) ↦
            (let (blockhash, f) =
                found_there (rpc.get_transaction txid)
                  (subst (λ o. in_block rpc (record r { txid = o }) ≡ true) e there) in
              (txid, blockhash, e, f))
      ]),
    )

confirm_row-KeepsId :
    (rpc : Rpc) (now : DateTime) (network : String) → KeepsId (confirm_row rpc now network)
unfolding confirm_row
confirm_row-KeepsId rpc now network r = ground (arith, at_height-KeepsId rpc.get_block_count now r)

-- Where Bitcoin Core answers and knows the height, at most 1000 transactions of the network are out and
-- ids are distinct, a confirmation round makes a transaction confirmed, now and at that height, if it
-- is out on the node's network and Bitcoin Core has it in a block by its txid; any other stays as it is.
pub check_confirmations-confirmed :
    (b : Backend) (now : Clock) (m : PoolManager) (rpc : Rpc) (height : ℕ) (id : String) (r : Row)
    → b.rpc ≡ some rpc
    → ok_or rpc.test_connection false ≡ true
    → rpc.get_block_count ≡ ok height
    → Distinct m.db
    → length (filter (matches_filter (some "broadcast") m.config.network) m.db) ≤ 1000
    → get_broadcast_tx_by_id id m.db ≡ ok r
    → (IsInBlock rpc m.config.network r
        × (get_broadcast_tx_by_id id (check_confirmations b now m).0.db
            ≡ ok (record r {
              status = confirmed;
              block_height = some height;
              confirmed_at = some now.utc;
              updated_at = now.utc;
            })))
      ⊎ ((¬ IsInBlock rpc m.config.network r)
          × (get_broadcast_tx_by_id id (check_confirmations b now m).0.db ≡ ok r))
unfolding confirm_row at_height set_confirmed
check_confirmations-confirmed b now m rpc height id r core alive known d few found =
    let network = m.config.network in
    let row = confirm_row rpc now.utc network in
    let after : get_broadcast_tx_by_id id (check_confirmations b now m).0.db ≡ ok (row r) =
      ap (get_broadcast_tx_by_id id) (check_confirmations-db b now m rpc core alive d few)
      ∙ get-map id row m.db (confirm_row-KeepsId rpc now.utc network)
      ∙ ap (map_ok row) found in
    elim (Bool-cases (matches_filter (some "broadcast") network r && in_block rpc r)) [
      | inl y ↦ inl (test-IsInBlock rpc network r y, after ∙ ap ok (rw (y, known) refl))
      | inr n ↦ inr (λ w. not_both (IsInBlock-test rpc network r w) n, after ∙ ap ok (rw n refl))
    ]
