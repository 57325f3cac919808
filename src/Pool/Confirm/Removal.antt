-- ===== src/Pool/Confirm/Removal.antt =====
-- What the removal of a transaction takes out.
use umbrel_apps.Prelude.{
  ◌⊎◌, ◌&&◌, Bool, List, any, or_else, String, Option, none, some, true, false, not, ◌==◌, [], ◌∷◌,
  ◌≡◌, refl, ap, ◌∙◌, Result, ok, err, is_ok, str_eq, filter, length, arith, eq_iff, if◌then◌else◌,
}
use umbrel_apps.Db.Models.{Row}
use umbrel_apps.Db.Table
use umbrel_apps.Db.Table.{Table, has_id, get_broadcast_tx_by_id}
use umbrel_apps.Pool.Manager.{PoolManager, mentions, get_pending_tx_hex}
use umbrel_apps.Pool.Manager.Mempool.{get_pending_tx_hex-remove_pending_tx, if_self}
use umbrel_apps.Pool.Due.Loop.{remove_pending_tx-db}
use umbrel_apps.Pool.Confirm.{forget_pending, remove_transaction}

get-removed :
    (id j : String) (t : Table)
    → get_broadcast_tx_by_id j (filter (λ r. not (has_id id r)) t)
      ≡ (if str_eq id j then err "Failed to get broadcast tx" else get_broadcast_tx_by_id j t)
unfolding get_broadcast_tx_by_id
get-removed id j [] = ground arith
get-removed id j (r ∷ t) =
    ground (arith, get-removed id j t, eq_iff r.id id, eq_iff r.id j, eq_iff id j)

some_removed :
    (id : String) (t : Table) (r : Row)
    → get_broadcast_tx_by_id id t ≡ ok r
    → (length (filter (has_id id) t) == 0) ≡ false
unfolding get_broadcast_tx_by_id
some_removed id [] r h = ground arith
some_removed id (s ∷ t) r h = ground (arith, some_removed id t r)

forget_pending-db : (o : Option String) (m : PoolManager) → (forget_pending o m).db ≡ m.db
forget_pending-db none m = refl
forget_pending-db (some t) m = (remove_pending_tx-db t m).0

allowed :
    (id : String) (links : List String) (t : Table)
    → mentions links id ≡ false
    → (any (has_id id) t && mentions links id) ≡ false
allowed id links t h = rw h (and_false (any (has_id id) t))
  where
    and_false : (b : Bool) → (b && false) ≡ false
    and_false true = refl
    and_false false = refl

-- The txid of a row, from its column or its hex.
abbrev txid_of : (String → Result String) → Row → Option String
txid_of compute_txid r =
    or_else r.txid (elim (compute_txid r.tx_hex) [ ok t ↦ some t | err e ↦ none ])

its_txid :
    (compute_txid : String → Result String) (r : Row) (txid : String)
    → (r.txid ≡ some txid) ⊎ ((r.txid ≡ none) × (compute_txid r.tx_hex ≡ ok txid))
    → txid_of compute_txid r ≡ some txid
its_txid compute_txid r txid h = ground arith

module _ (compute_txid : String → Result String) (id : String) (m : PoolManager) (r : Row) where
  -- The removal of a known transaction to which no migration utxo refers succeeds: its id is found no
  -- more, every other id as before, and if it has a txid, or its hex decodes to one where it has none,
  -- the virtual mempool no longer holds that.
  pub remove_transaction-removes :
      get_broadcast_tx_by_id id m.db ≡ ok r
      → mentions m.utxo_links id ≡ false
      → (is_ok (remove_transaction compute_txid id m).1 ≡ true)
        × ((j : String)
            → get_broadcast_tx_by_id j (remove_transaction compute_txid id m).0.db ≡ (
                if str_eq id j
                then err "Failed to get broadcast tx"
                else get_broadcast_tx_by_id j m.db))
        × ((txid : String)
            → (r.txid ≡ some txid) ⊎ ((r.txid ≡ none) × (compute_txid r.tx_hex ≡ ok txid))
            → get_pending_tx_hex txid (remove_transaction compute_txid id m).0 ≡ none)
  unfolding remove_transaction Table.remove_broadcast_tx
  remove_transaction-removes found free =
      let kept = filter (λ s. not (has_id id s)) m.db in
      rw (found, remove_transaction)
        (rw (allowed id m.utxo_links m.db free) (
          rw (some_removed id m.db r found) (
            refl,
            λ j. ap (get_broadcast_tx_by_id j) (forget_pending-db _ _) ∙ get-removed id j m.db,
            λ txid known.
                rw (its_txid compute_txid r txid known)
                  ((get_pending_tx_hex-remove_pending_tx txid txid _).0 ∙ if_self txid none _),
          )))
