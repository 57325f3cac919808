-- ===== src/ElectrumServer/Process.antt =====
-- sparrow-broadcast-pool/src/electrum_server/mod.rs: a broadcast that is intercepted, the handling of
-- a line, and the loop of a connection.
pub mod Answered
pub mod Visible
use umbrel_apps.Prelude.{
  ℕ, zero, suc, ◌+◌, ◌%◌, ◌^◌, String, Option, none, some, Bool, true, false, not, ◌&&◌, ◌||◌, List,
  [], ◌∷◌, ◌++◌, Result, ok, err, context, ◌>>=◌, str_eq, is_empty, is_some, get_or, if◌then◌else◌,
  trim, any, length, contains, to_lowercase, is_char_boundary,
}
use umbrel_apps.Prelude.Json.{Json, text, object, array, no_fields, field, items_of}
use umbrel_apps.VirtualMempool.Status.{compute_modified_status_hash}
use umbrel_apps.Config.Settings.{NetworkType}
use umbrel_apps.Pool.Backend.{Clock}
use umbrel_apps.Pool.Manager.{PoolManager, mentions, store_pending_tx, has_pending_tx}
use umbrel_apps.ElectrumServer.Ingest.{
  Bitcoin, Dates, compute_txid, extract_outputs, extract_output_scripthashes, handle_broadcast,
}
use umbrel_apps.ElectrumServer.Requests.{
  JsonRpcRequest, is_broadcast_method, is_local_handshake_method, ◌>>?◌, parse_subrequests,
  line_is_batch, extract_broadcast_hex, line_looks_like_broadcast, line_json_rpc_id,
  params_first_string,
}
use umbrel_apps.ElectrumServer.Lines.{Bytes, pop_client_line}
use umbrel_apps.ElectrumServer.Session.{SessionState, pending_txids_with_session}
use umbrel_apps.ElectrumServer.Answers.{
  Outside, TaskEnd, in_time, late, crashed, Connection, Task, refresh_tip, ingest, rpc_result,
  rpc_error, local_electrum_response, spawn, spawn_chain_tip_refresh, tip_result, with_session,
  refresh_chain_tip_cache,
}
use umbrel_apps.ElectrumServer.Client.{
  write, answer_all, write_client_responses, flush_deferred_indexer_out,
}

-- Prefer the pool's indexer over that of the configuration.
unfoldable pub resolve_live_indexer_url : Option String → Option String → String
resolve_live_indexer_url (some url) configured = if is_empty url then get_or configured "" else url
resolve_live_indexer_url none configured = get_or configured ""

unfoldable pub quick_broadcast_preview : Bitcoin → String → Result String
quick_broadcast_preview bt tx_hex =
    context (bt.hex_decode (trim tx_hex)) "Invalid transaction hex" >>= λ raw.
    compute_txid bt (trim tx_hex)

-- The txid, or what is told of the error.
abbrev pub preview : Outside → Bitcoin → String → Result String
preview o bt tx_hex = elim (o.preview_task tx_hex) [
  | in_time ↦ quick_broadcast_preview bt tx_hex
  | crashed e ↦ err e
  | late ↦ err "Invalid transaction hex"
]

-- The tx is visible in the virtual mempool before the answer is written.
unfoldable pub pre_ack : Bitcoin → String → String → Connection → Connection
pre_ack bt txid tx_hex c = record c {
  pool =
      store_pending_tx txid tx_hex (extract_output_scripthashes bt tx_hex)
        (extract_outputs bt tx_hex) c.pool;
  session = record c.session { recent_broadcast_txid = some txid };
}

acknowledged : Bitcoin → String → Json → String → Result String → Connection → Connection
unfolding pre_ack
acknowledged bt source_label id tx_hex (err e) c = write (rpc_error 24 e id) c
acknowledged bt source_label id tx_hex (ok txid) c =
    spawn (ingest tx_hex source_label)
      (write (rpc_result (text txid) id) (pre_ack bt txid tx_hex c))

unfoldable pub intercept_and_handle_broadcast :
    Outside → Bitcoin → String → Json → String → Connection → Connection
unfolding acknowledged quick_broadcast_preview
intercept_and_handle_broadcast o bt source_label id tx_hex c =
    acknowledged bt source_label id tx_hex (preview o bt tx_hex)
      (with_session c (record c.session { broadcast_intercepted = true }))

unfoldable pub line_mentions_tx_rpc : String → Bool
line_mentions_tx_rpc line =
    let lower = to_lowercase line in contains lower "broadcast" || contains lower "transaction"

abbrev all_local : List JsonRpcRequest → Bool
all_local [] = true
all_local (r ∷ rs) = is_local_handshake_method r.method && all_local rs

-- All of the responses, or none where one is missing.
unfoldable pub local_responses : String → NetworkType → List JsonRpcRequest → Option (List Json)
local_responses version network [] = some []
local_responses version network (r ∷ rs) = local_electrum_response version network r >>? λ v.
    local_responses version network rs >>? λ vs. some (v ∷ vs)

unfoldable pub first_broadcast_request : List JsonRpcRequest → Option JsonRpcRequest
first_broadcast_request [] = none
first_broadcast_request (r ∷ rs) =
    let later = first_broadcast_request rs in if is_broadcast_method r.method then some r else later

module _ (o : Outside) (bt : Bitcoin) (network : NetworkType) (source_label : String) where
  -- The handshake, if the line is one.
  handshake : Result (List JsonRpcRequest) → Option (List Json)
  unfolding local_responses
  handshake (ok (r ∷ rs)) =
      if all_local (r ∷ rs) then local_responses o.version network (r ∷ rs) else none
  handshake _ = none

  -- A single request for the tip, where it is cached.
  cached_tip : Result (List JsonRpcRequest) → Connection → Option (Json × (ℕ × String))
  cached_tip (ok (r ∷ [])) c =
      if str_eq r.method "blockchain.headers.subscribe"
      then (c.pool.cached_chain_tip >>? λ tip. some (r.id, tip))
      else none
  cached_tip _ c = none

  abbrev invalid_params : Json → Connection → Connection
  invalid_params id c = write (rpc_error 32601 "Invalid broadcast params" id) c

  broadcast_request : Option String → JsonRpcRequest → Connection → Connection
  broadcast_request (some hex) r c = intercept_and_handle_broadcast o bt source_label r.id hex c
  broadcast_request none r c = invalid_params r.id c

  module _ (indexer_url : String) where
    -- The requests of a line with no broadcast in it.
    unfoldable pub answer_requests : Bool → List JsonRpcRequest → Connection → Connection
    answer_requests batch rs c =
        let busy = with_session c (record c.session { client_busy = true }) in
        let (c', responses) = answer_all o network indexer_url rs busy in
        if c'.panicked
        then c'
        else flush_deferred_indexer_out (write_client_responses responses batch c')

    broadcast_or_answer :
        Option JsonRpcRequest → Bool → List JsonRpcRequest → Connection → Connection
    unfolding answer_requests broadcast_request
    broadcast_or_answer (some r) batch rs c =
        broadcast_request (r.params >>? params_first_string) r c
    broadcast_or_answer none batch rs c = answer_requests batch rs c

    parsed_line : Result (List JsonRpcRequest) → String → Connection → Connection
    unfolding broadcast_or_answer first_broadcast_request
    parsed_line (err e) line c =
        write (rpc_error 32699 "Parse error" (line_json_rpc_id o.serde line)) c
    parsed_line (ok rs) line c =
        broadcast_or_answer (first_broadcast_request rs) (line_is_batch line) rs c

    -- An error log shows 240 bytes of the line, and panics inside a character.
    unparsed_broadcast : String → Connection → Connection
    unparsed_broadcast line c =
        if is_char_boundary 240 line
        then invalid_params (line_json_rpc_id o.serde line) c
        else record c { panicked = true }

    broadcast_or_parsed : Option (Json × String) → String → Connection → Connection
    unfolding parsed_line unparsed_broadcast
    broadcast_or_parsed (some (id, hex)) line c =
        intercept_and_handle_broadcast o bt source_label id hex c
    broadcast_or_parsed none line c =
        if line_looks_like_broadcast line
        then unparsed_broadcast line c
        else parsed_line (parse_subrequests o.serde line) line c

    -- A line that is neither a handshake nor answered from the cache. The log of a line that mentions
    -- a transaction shows 200 bytes of it, and panics inside a character.
    unfoldable pub other_line : String → Connection → Connection
    unfolding broadcast_or_parsed
    other_line line c =
        if line_mentions_tx_rpc line && not (is_char_boundary 200 line)
        then record c { panicked = true }
        else broadcast_or_parsed (extract_broadcast_hex o.serde line) line c

    tip_or_other : Option (Json × (ℕ × String)) → String → Connection → Connection
    unfolding other_line
    tip_or_other (some (id, (height, hex))) line c =
        write (rpc_result (tip_result height hex) id) (spawn_chain_tip_refresh indexer_url c)
    tip_or_other none line c = other_line line c

    handshake_or_other : Option (List Json) → String → Connection → Connection
    unfolding tip_or_other cached_tip
    handshake_or_other (some responses) line c =
        write_client_responses responses (line_is_batch line) c
    handshake_or_other none line c =
        tip_or_other (cached_tip (parse_subrequests o.serde line) c) line c

    abbrev counted : Connection → Connection
    counted c =
        with_session c
          (record c.session { rpc_lines_handled = (c.session.rpc_lines_handled + 1) % 2 ^ 32 })

    unfoldable pub process_client_line : String → Connection → Connection
    unfolding handshake handshake_or_other
    process_client_line line c =
        if is_empty (trim line)
        then c
        else handshake_or_other (handshake (parse_subrequests o.serde line)) line (counted c)
