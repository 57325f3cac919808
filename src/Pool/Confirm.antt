-- ===== src/Pool/Confirm.antt =====
-- sparrow-broadcast-pool/src/pool/manager.rs: what becomes of transactions that are out, and the
-- removal of a transaction.
pub mod Rounds
pub mod Removal
pub mod InBlock
pub mod Resent
use umbrel_apps.Prelude.{
  ℕ, String, Option, none, some, Bool, true, false, List, [], ◌∷◌, Result, ok, err, ok_or, or_else,
  ◌==◌, if◌then◌else◌,
}
use umbrel_apps.Db.Models.{DateTime, Row}
use umbrel_apps.Db.Table
use umbrel_apps.Db.Table.{Table, update_where, get_broadcast_tx_by_id}
use umbrel_apps.Pool.Backend.{
  Backend, Clock, Indexer, Rpc, indexer_test_connection, broadcast_transaction,
}
use umbrel_apps.Pool.Manager.{PoolManager, mentions, remove_pending_tx}

-- `UPDATE broadcast_pool SET broadcast_at = ?1, updated_at = ?1 WHERE id = ?2`.
unfoldable pub set_sent_again : DateTime → Row → Row
set_sent_again now r = record r { broadcast_at = some now; updated_at = now }

unfoldable pub rebroadcast_loop :
    Backend → DateTime → List Row → Table → Table × List (String × Result String)
rebroadcast_loop b now [] t = (t, [])
rebroadcast_loop b now (tx ∷ txs) t = elim (broadcast_transaction b tx.tx_hex) [
  | ok txid ↦
      (let (t', rest) = rebroadcast_loop b now txs (update_where tx.id (set_sent_again now) t) in
        (t', (tx.id, ok txid) ∷ rest))
  | err e ↦ (let (t', rest) = rebroadcast_loop b now txs t in (t', (tx.id, err e) ∷ rest))
]

unfoldable pub rebroadcast_pending :
    Backend → Clock → PoolManager → PoolManager × List (String × Result String)
unfolding rebroadcast_loop
rebroadcast_pending b now m =
    let out =
      Table.get_pending_rebroadcast m.config.rebroadcast_interval_minutes m.config.network now.utc
        m.db in
    let (db', results) = rebroadcast_loop b now.utc out m.db in (record m { db = db' }, results)

-- Whether a tx is in a block, as Bitcoin Core says; one without a txid or unknown there is not.
abbrev pub in_block : Rpc → Row → Bool
in_block rpc tx = elim tx.txid [
  | none ↦ false
  | some txid ↦ elim (rpc.get_transaction txid) [
    | err e ↦ false
    | ok none ↦ false
    | ok (some blockhash) ↦ true
  ]
]

-- The loop over what is out: each that is in a block is confirmed, at the height the chain has now.
unfoldable pub confirm_loop :
    Rpc → DateTime → List Row → Table → Table × List (String × Bool × Option ℕ)
confirm_loop rpc now [] t = (t, [])
confirm_loop rpc now (tx ∷ txs) t =
    let skip = confirm_loop rpc now txs t in
    if in_block rpc tx
    then (elim rpc.get_block_count [
      | err e ↦ (skip.0, (tx.id, true, none) ∷ skip.1)
      | ok height ↦
          (let (t', rest) = confirm_loop rpc now txs (Table.mark_confirmed tx.id height now t) in
            (t', (tx.id, true, some height) ∷ rest))
    ])
    else (skip.0, (tx.id, false, none) ∷ skip.1)

unconfirmed : List Row → List (String × Bool × Option ℕ)
unconfirmed [] = []
unconfirmed (tx ∷ txs) = (tx.id, false, none) ∷ unconfirmed txs

-- Without Bitcoin Core, the indexer answers for none of them.
by_indexer : Option Indexer → List Row → List (String × Bool × Option ℕ)
unfolding unconfirmed
by_indexer none txs = []
by_indexer (some i) txs = if ok_or (indexer_test_connection i) false then unconfirmed txs else []

unfoldable pub check_confirmations :
    Backend → Clock → PoolManager → PoolManager × List (String × Bool × Option ℕ)
unfolding confirm_loop by_indexer
check_confirmations b now m =
    let out = Table.list_broadcast_txs (some "broadcast") m.config.network 1000 m.db in
    elim b.rpc [
      | none ↦ (m, by_indexer b.indexer out)
      | some rpc ↦
          if ok_or rpc.test_connection false
          then (let (db', results) = confirm_loop rpc now.utc out m.db in
              (record m { db = db' }, results))
          else (m, by_indexer b.indexer out)
    ]

abbrev pub forget_pending : Option String → PoolManager → PoolManager
forget_pending none m = m
forget_pending (some t) m = (remove_pending_tx t m).0

-- `compute_txid` is `virtual_mempool::compute_txid`.
unfoldable pub remove_transaction :
    (String → Result String) → String → PoolManager → PoolManager × Result {0} Unit
remove_transaction compute_txid id m = elim (get_broadcast_tx_by_id id m.db) [
  | err e ↦ (m, err e)
  | ok tx ↦
      (let txid =
          or_else tx.txid (elim (compute_txid tx.tx_hex) [ ok t ↦ some t | err e ↦ none ]) in
        elim (Table.remove_broadcast_tx (mentions m.utxo_links) id m.db) [
          | err e ↦ (m, err e)
          | ok (db', removed) ↦
              (let m' = record m { db = db' } in
                if removed == 0
                then (m', err "Transaction not found")
                else (forget_pending txid m', ok tt))
        ])
]
