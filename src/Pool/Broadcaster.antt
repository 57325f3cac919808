-- ===== src/Pool/Broadcaster.antt =====
-- sparrow-broadcast-pool/src/pool/broadcaster.rs: the broadcasts that the command line asks for, on
-- the store alone.
pub mod Pending
pub mod Accepted
use umbrel_apps.Prelude.{
  String, Option, none, some, Bool, true, List, [], ◌∷◌, Result, ok, err, ◌>>=◌, get_or, concat,
  if◌then◌else◌,
}
use umbrel_apps.Prelude.Float.{of_ℕ}
use umbrel_apps.Db.Models.{DateTime, Row, confirmed, is_status}
use umbrel_apps.Db.Table
use umbrel_apps.Db.Table.{Table, get_broadcast_tx_by_id, list_broadcast_txs}
use umbrel_apps.Pool.Backend.{Backend, Indexer, Rpc, indexer_test_connection}

raw_rpc : Option Rpc → String → Result String
raw_rpc none tx_hex = err "No broadcast backend available"
raw_rpc (some r) tx_hex = r.broadcast_transaction tx_hex

raw_indexer : Option Indexer → Option Rpc → String → Result String
unfolding raw_rpc
raw_indexer none r tx_hex = raw_rpc r tx_hex
raw_indexer (some i) r tx_hex = elim (i.broadcast_transaction tx_hex) [
  | ok txid ↦ ok txid
  | err e ↦ raw_rpc r tx_hex
]

-- Try the indexer first, then RPC.
unfoldable pub broadcast_raw : Backend → String → Result String
unfolding raw_indexer
broadcast_raw b tx_hex = raw_indexer b.indexer b.rpc tx_hex

abbrev pub marked : DateTime → Row → Table → Result String → Table × Result String
marked now tx t (err e) = (t, err (concat ("Failed to broadcast transaction " ∷ tx.id ∷ [])))
marked now tx t (ok txid) =
    (Table.mark_broadcast tx.id txid (get_or tx.target_fee_rate (of_ℕ 0)) now t, ok txid)

abbrev pub send : Backend → DateTime → Row → Table → Table × Result String
send b now tx t =
    if is_status tx.status confirmed
    then (t, err (concat ("Transaction " ∷ tx.id ∷ " is already confirmed" ∷ [])))
    else marked now tx t (broadcast_raw b tx.tx_hex)

unfoldable pub broadcast_single : Backend → DateTime → String → Table → Table × Result String
broadcast_single b now id t = elim (get_broadcast_tx_by_id id t) [
  | err e ↦ (t, err e)
  | ok tx ↦ send b now tx t
]

unfoldable pub single_loop :
    Backend → DateTime → List Row → Table → Table × List (String × Result String)
unfolding broadcast_single
single_loop b now [] t = (t, [])
single_loop b now (tx ∷ txs) t =
    let (t', result) = broadcast_single b now tx.id t in
    let (t'', results) = single_loop b now txs t' in (t'', (tx.id, result) ∷ results)

unfoldable pub broadcast_all_pending :
    Backend → DateTime → String → Table → Table × List (String × Result String)
unfolding single_loop
broadcast_all_pending b now network t =
    single_loop b now (list_broadcast_txs (some "pending") network 1000 t) t

unfoldable pub test_connection : Backend → Result Bool
test_connection b = elim b.indexer [
  | some i ↦ indexer_test_connection i >>= λ _. ok true
  | none ↦ elim b.rpc [
    | some r ↦ r.test_connection >>= λ _. ok true
    | none ↦ err "No backend configured"
  ]
]
