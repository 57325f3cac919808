-- ===== src/Pool/Restart.antt =====
-- sparrow-broadcast-pool/src/pool/manager.rs and electrum_server/mod.rs: the virtual mempool after a
-- restart, and the inputs' scripthashes of a transaction that was acknowledged.
pub mod Shown
pub mod Inputs
use umbrel_apps.Prelude.{ℕ, ◌+◌, String, Option, none, some, List, [], ◌∷◌, ◌++◌, Result, ok, err}
use umbrel_apps.Db.Models.{Row}
use umbrel_apps.Db.Table.{list_broadcast_txs}
use umbrel_apps.VirtualMempool.Txid.{Hex}
use umbrel_apps.VirtualMempool.Inputs.{
  Chain, strip_indexer_host, extract_affected_scripthashes, enrich_input_scripthashes,
}
use umbrel_apps.Pool.Manager.{
  PoolManager, store_pending_tx, merge_pending_scripthashes, lookup_tx_hex,
}
use umbrel_apps.ElectrumServer.Ingest.{Bitcoin, compute_txid, extract_outputs}

-- What was found, if anything was.
abbrev pub merged : String → Result (List String) → PoolManager → PoolManager
merged txid (ok (sh ∷ shs)) m = merge_pending_scripthashes txid (sh ∷ shs) m
merged txid _ m = m

module _ (n : Chain) where
  -- The txid of the row, or that of its transaction.
  abbrev pub row_txid : Row → Result String
  row_txid tx = elim tx.txid [ some id ↦ ok id | none ↦ compute_txid n.bitcoin tx.tx_hex ]

  -- A row without a txid, or whose scripthashes are not found, is skipped; whether it was stored.
  abbrev pub stored : Row → Result String → Result (List String) → PoolManager → PoolManager × ℕ
  stored tx (ok txid) (ok shs) m =
      (store_pending_tx txid tx.tx_hex shs (extract_outputs n.bitcoin tx.tx_hex) m, 1)
  stored tx _ _ m = (m, 0)

  unfoldable pub rehydrate : String → Row → PoolManager → PoolManager × ℕ
  unfolding extract_affected_scripthashes
  rehydrate addr tx m = stored tx (row_txid tx) (extract_affected_scripthashes n tx.tx_hex addr) m

  unfoldable pub rehydrate_all : String → List Row → PoolManager → ℕ → PoolManager × ℕ
  unfolding rehydrate
  rehydrate_all addr [] m count = (m, count)
  rehydrate_all addr (tx ∷ txs) m count =
      let (m', stored) = rehydrate addr tx m in rehydrate_all addr txs m' (count + stored)

  -- Rehydrate the virtual mempool from the store; `indexer_url` is that of the settings.
  unfoldable pub load_pending_from_db : Option String → PoolManager → PoolManager × Result ℕ
  unfolding rehydrate_all
  load_pending_from_db none m = (m, err "No indexer configured for pending tx rehydration")
  load_pending_from_db (some url) m =
      let network = m.config.network in
      let waiting =
        list_broadcast_txs (some "pending") network 10_000 m.db
        ++ list_broadcast_txs (some "scheduled") network 10_000 m.db in
      let (m', count) = rehydrate_all (strip_indexer_host url) waiting m 0 in (m', ok count)

  unfoldable pub enrich_pending_input_scripthashes :
      Hex → String → String → String → ℕ → PoolManager → PoolManager
  unfolding enrich_input_scripthashes
  enrich_pending_input_scripthashes hex txid tx_hex indexer_url budget m =
      merged txid
        (enrich_input_scripthashes n hex (λ id. lookup_tx_hex hex id m) tx_hex
          (strip_indexer_host indexer_url) budget)
        m
