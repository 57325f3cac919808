-- ===== src/ElectrumServer/Loop.antt =====
-- sparrow-broadcast-pool/src/electrum_server/mod.rs: the loop of a connection, as the events that it
-- selects, and the tasks that it leaves to run in the background.
pub mod Handled
use umbrel_apps.Prelude.{
  ℕ, zero, suc, String, Option, none, some, Bool, true, false, not, ◌&&◌, List, [], ◌∷◌, ◌++◌,
  Result, ok, err, get_or, if◌then◌else◌, length,
}
use umbrel_apps.Prelude.Json.{Json, text, object, array, no_fields, field, items_of}
use umbrel_apps.VirtualMempool.Status.{compute_modified_status_hash}
use umbrel_apps.Config.Settings.{NetworkType}
use umbrel_apps.Pool.Backend.{Clock}
use umbrel_apps.Pool.Manager.{PoolManager, mentions, has_pending_tx}
use umbrel_apps.VirtualMempool.Inputs.{Chain}
use umbrel_apps.Pool.Restart.{enrich_pending_input_scripthashes}
use umbrel_apps.ElectrumServer.Ingest.{Bitcoin, BroadcastHandleResult, Dates, handle_broadcast}
use umbrel_apps.ElectrumServer.Lines.{Bytes, pop_client_line}
use umbrel_apps.ElectrumServer.Session.{SessionState, pending_txids_with_session}
use umbrel_apps.ElectrumServer.Answers.{
  Outside, Connection, Task, refresh_tip, ingest, with_session, refresh_chain_tip_cache,
}
use umbrel_apps.ElectrumServer.Client.{write}
use umbrel_apps.ElectrumServer.Process.{process_client_line}

-- What `select!` takes up: bytes that were read (none at the end), or a scripthash that changed.
pub data Event : Type 0 where
  read : Bytes → Event
  changed : String → Event

-- A tx that is no longer pending is no longer that of the session.
unless_stale : Option String → Connection → Connection
unless_stale none c = c
unless_stale (some txid) c =
    if has_pending_tx txid c.pool
    then c
    else with_session c (record c.session { recent_broadcast_txid = none })

unfoldable pub clear_stale : Connection → Connection
unfolding unless_stale
clear_stale c = unless_stale c.session.recent_broadcast_txid c

abbrev pub scripthash_changed : String → String → Json
scripthash_changed scripthash status = object (
    field "jsonrpc" (text "2.0") (
      field "method" (text "blockchain.scripthash.subscribe")
        (field "params" (array (items_of (text scripthash ∷ text status ∷ []))) no_fields)))

module _ (o : Outside) where
  -- The status that is told: empty where nothing is pending.
  abbrev pub status_of : List String → String
  status_of [] = ""
  status_of (p ∷ ps) = get_or (compute_modified_status_hash o.sha256_hex [] (p ∷ ps)) ""

  unfoldable pub notify : String → Connection → Connection
  unfolding clear_stale
  notify scripthash c0 =
      let c = clear_stale c0 in
      if mentions c.session.subscribed_scripthashes scripthash
      then write
          (scripthash_changed scripthash
            (status_of (pending_txids_with_session c.pool scripthash (some c.session))))
          c
      else c

  -- `indexer_url` is what `resolve_live_indexer_url` gives.
  module _ (bt : Bitcoin) (network : NetworkType) (source_label indexer_url : String) where
    -- A line, if the task of the connection has not panicked.
    abbrev pub alive_line : String → Connection → Connection
    alive_line line c =
        if c.panicked then c else process_client_line o bt network source_label indexer_url line c

    -- `while let Some(..) = pop_client_line(..)`, with `fuel` rounds at most.
    unfoldable pub process_lines : ℕ → Bytes → Connection → Connection × Bytes
    process_lines zero buf c = (c, buf)
    process_lines (suc fuel) buf c = elim (pop_client_line o.serde buf) [
      | none ↦ (c, buf)
      | some ((bytes, line), rest) ↦ process_lines fuel rest (alive_line line c)
    ]

    -- Whether the loop goes on, with the buffer. A buffer has no more lines than bytes.
    unfoldable pub handle_event : Event → Connection → Bytes → Bool × (Connection × Bytes)
    unfolding process_lines notify
    handle_event (read []) c buf = (false, (c, buf))
    handle_event (read (b ∷ bs)) c buf =
        let all = buf ++ (b ∷ bs) in (true, process_lines (length all) all c)
    handle_event (changed scripthash) c buf = (true, (notify scripthash c, buf))

    -- A panic ends the task of the connection.
    unfoldable pub handle_connection : List Event → Connection → Bytes → Connection × Bytes
    handle_connection [] c buf = (c, buf)
    handle_connection (e ∷ es) c buf =
        let (goes_on, (c', buf')) = handle_event e c buf in
        let rest = handle_connection es c' buf' in
        if goes_on && not c'.panicked then rest else (c', buf')

  -- What follows an ingest: the scripthashes of the inputs, `budget` of them looked at in time.
  abbrev ingested : Chain → String → ℕ → PoolManager × Result BroadcastHandleResult → PoolManager
  ingested n indexer_url budget (m, ok handled) =
      enrich_pending_input_scripthashes n o.hex handled.txid handled.tx_hex indexer_url budget m
  ingested n indexer_url budget (m, err e) = m

  -- A task of the background, with the id that an insertion draws and the URL of the pool's indexer
  -- (empty where there is none). An ingest that ends late is not modelled.
  unfoldable pub run_task :
      Chain → Dates → Clock → String → String → ℕ → Task → PoolManager → PoolManager
  run_task n d now id url budget (refresh_tip indexer_url) m =
      refresh_chain_tip_cache o indexer_url m
  run_task n d now id url budget (ingest tx_hex source_label) m =
      ingested n url budget (handle_broadcast n.bitcoin d now id tx_hex source_label m)
