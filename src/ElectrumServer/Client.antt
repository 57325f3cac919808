-- ===== src/ElectrumServer/Client.antt =====
-- sparrow-broadcast-pool/src/electrum_server/mod.rs: what a line of a client does.
pub mod Calm
pub mod Poll
use umbrel_apps.Prelude.{
  ℕ, suc, ◌+◌, ◌%◌, ◌^◌, String, Option, none, some, Bool, true, false, not, ◌&&◌, ◌||◌, List, [],
  ◌∷◌, ◌++◌, Result, ok, err, context, ◌>>=◌, str_eq, is_empty, is_some, get_or, if◌then◌else◌,
  trim, any, concat, is_char_boundary,
}
use umbrel_apps.Prelude.Json.{
  Json, text, object, array, no_fields, field, as_str, as_bool, as_array, items_of,
}
use umbrel_apps.VirtualMempool.Status.{compute_modified_status_hash}
use umbrel_apps.Config.Settings.{NetworkType}
use umbrel_apps.Pool.Manager.{
  PoolManager, mentions, store_pending_tx, has_pending_tx, lookup_tx_hex,
}
use umbrel_apps.ElectrumServer.Ingest.{
  Bitcoin, compute_txid, extract_outputs, extract_output_scripthashes,
}
use umbrel_apps.ElectrumServer.Requests.{
  JsonRpcRequest, first, is_broadcast_method, is_local_handshake_method, scripthash_from_params,
  ◌>>?◌, parse_subrequests, line_is_batch, extract_broadcast_hex, line_looks_like_broadcast,
  line_json_rpc_id, params_first_string,
}
use umbrel_apps.ElectrumServer.Session.{
  SessionState, track_scripthash_interest, pending_txids_with_session,
}
use umbrel_apps.ElectrumServer.Answers.{
  Outside, TaskEnd, in_time, late, crashed, Connection, Task, ingest, rpc_result, rpc_error,
  unavailable, local_electrum_response, local_fast_response, build_scripthash_mempool_result, spawn,
  spawn_chain_tip_refresh, tip_result, handle_headers_subscribe, forward_subrequest_sync,
  with_session,
}

abbrev pub write : Json → Connection → Connection
write v c = record c { written = c.written ++ (v ∷ []) }

abbrev pub second : List Json → Option Json
second (v ∷ w ∷ ws) = some w
second _ = none

-- Where only the raw transaction is asked for, its txid.
abbrev raw_txid : Option Json → Option String
raw_txid params = params >>? as_array >>? λ ps.
    first ps >>? as_str >>? λ txid. if get_or (second ps >>? as_bool) false then none else some txid

module _ (o : Outside) (network : NetworkType) (indexer_url : String) where
  known_tx : JsonRpcRequest → Connection → Option String
  known_tx r c =
      if str_eq r.method "blockchain.transaction.get"
      then (raw_txid r.params >>? λ txid. lookup_tx_hex o.hex txid c.pool)
      else none

  -- What no pending transaction answers: from the pool, or from the indexer.
  known_or_indexer : Option String → JsonRpcRequest → Connection → Connection × Result Json
  known_or_indexer (some hex) r c = (c, ok (rpc_result (text hex) r.id))
  known_or_indexer none r c =
      if str_eq r.method "blockchain.headers.subscribe"
      then handle_headers_subscribe o indexer_url r c
      else if not (is_empty indexer_url)
      then forward_subrequest_sync o indexer_url r c
      else (c, ok (unavailable r.id))

  answer_rest : JsonRpcRequest → Connection → Connection × Result Json
  unfolding known_or_indexer known_tx
  answer_rest r c = known_or_indexer (known_tx r c) r c

  -- The session with the wallet's scripthash, and the transactions that are pending for it.
  abbrev pub interested : String → Connection → Connection
  interested sh c = with_session c (track_scripthash_interest sh c.session)

  abbrev pub pending_for : String → Connection → List String
  pending_for sh c = pending_txids_with_session c.pool sh (some c.session)

  -- The log of an answer shows 16 bytes of the scripthash, and panics inside a character.
  unless_cut : String → Connection × Result Json → Connection × Result Json
  unless_cut sh answer =
      if is_char_boundary 16 sh then answer else (record answer.0 { panicked = true }, err "")

  shown_or_rest : String → List String → JsonRpcRequest → Connection → Connection × Result Json
  unfolding answer_rest unless_cut
  shown_or_rest sh [] r c = answer_rest r c
  shown_or_rest sh (p ∷ ps) r c =
      unless_cut sh (c, ok (rpc_result (build_scripthash_mempool_result r.method (p ∷ ps)) r.id))

  hash_or_rest : Option String → JsonRpcRequest → Connection → Connection × Result Json
  unfolding answer_rest
  hash_or_rest none r c = answer_rest r c
  hash_or_rest (some hash) r c = (c, ok (rpc_result (text hash) r.id))

  status_or_rest : String → List String → JsonRpcRequest → Connection → Connection × Result Json
  unfolding hash_or_rest unless_cut
  status_or_rest sh [] r c = answer_rest r c
  status_or_rest sh (p ∷ ps) r c =
      unless_cut sh (hash_or_rest (compute_modified_status_hash o.sha256_hex [] (p ∷ ps)) r c)

  answer_history : Option String → JsonRpcRequest → Connection → Connection × Result Json
  unfolding shown_or_rest
  answer_history none r c = answer_rest r c
  answer_history (some sh) r c =
      let c' = interested sh c in shown_or_rest sh (pending_for sh c') r c'

  answer_subscribe : Option String → JsonRpcRequest → Connection → Connection × Result Json
  unfolding status_or_rest
  answer_subscribe none r c = answer_rest r c
  answer_subscribe (some sh) r c =
      let c' = interested sh c in status_or_rest sh (pending_for sh c') r c'

  -- The first that applies to the method.
  answer_by_method : JsonRpcRequest → Connection → Connection × Result Json
  unfolding answer_history answer_subscribe
  answer_by_method r c =
      if str_eq r.method "blockchain.scripthash.get_history"
        || str_eq r.method "blockchain.scripthash.get_mempool"
      then answer_history (scripthash_from_params r.params) r c
      else if str_eq r.method "blockchain.scripthash.subscribe"
      then answer_subscribe (scripthash_from_params r.params) r c
      else answer_rest r c

  abbrev local_or_error : Option Json → JsonRpcRequest → Result Json
  local_or_error none r = err (concat ("no local response for " ∷ r.method ∷ []))
  local_or_error (some v) r = ok v

  fast_or_method : Option Json → JsonRpcRequest → Connection → Connection × Result Json
  unfolding answer_by_method
  fast_or_method (some v) r c = (c, ok v)
  fast_or_method none r c =
      if is_broadcast_method r.method
      then (c, ok (rpc_error 32602 (concat (r.method ∷ " must use intercept path" ∷ [])) r.id))
      else answer_by_method r c

  unfoldable pub handle_one_subrequest : JsonRpcRequest → Connection → Connection × Result Json
  unfolding fast_or_method
  handle_one_subrequest r c =
      if is_local_handshake_method r.method
      then (c, local_or_error (local_electrum_response o.version network r) r)
      else fast_or_method (local_fast_response r) r c

  abbrev response_of : JsonRpcRequest → Result Json → Json
  response_of r (ok v) = v
  response_of r (err e) = rpc_error 32602 e r.id

  -- The loop over the requests of a line; a panic ends it.
  unfoldable pub answer_all : List JsonRpcRequest → Connection → Connection × List Json
  answer_all [] c = (c, [])
  answer_all (r ∷ rs) c =
      let rest : Connection × List Json =
        (let (c', v) = handle_one_subrequest r c in
          let (c'', vs) = answer_all rs c' in (c'', response_of r v ∷ vs)) in
      if c.panicked then (c, []) else rest

-- One line for all responses; without a batch the first, whose lack is a panic.
unfoldable pub write_client_responses : List Json → Bool → Connection → Connection
write_client_responses responses true c = write (array (items_of responses)) c
write_client_responses [] false c = record c { panicked = true }
write_client_responses (v ∷ vs) false c = write v c

unfoldable pub flush_deferred_indexer_out : Connection → Connection
flush_deferred_indexer_out c = record c {
  session = record c.session { client_busy = false; deferred_indexer_out = [] };
  written = c.written ++ c.session.deferred_indexer_out;
}
