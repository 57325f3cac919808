-- ===== src/ElectrumServer/Answers.antt =====
-- sparrow-broadcast-pool/src/electrum_server/mod.rs: how one request is answered, from the pool, the
-- cache or the indexer.
pub mod Calm
use umbrel_apps.Prelude.{
  ℕ, ◌*◌, ◌^◌, String, Option, none, some, Bool, true, false, ◌&&◌, ◌||◌, List, [], ◌∷◌, ◌++◌, map,
  Result, ok, err, str_eq, is_empty, ◌==◌, get_or, if◌then◌else◌, concat, trim, starts_with,
}
use umbrel_apps.Prelude.Float.{F64, fin}
use umbrel_apps.Prelude.Int.{pos, negsuc}
use umbrel_apps.Prelude.Json.{
  Json, null, bool, int, float, text, object, array, no_fields, field, get, as_str, as_u64, as_bool,
  as_array, items_of,
}
use umbrel_apps.VirtualMempool.Txid.{Hex}
use umbrel_apps.VirtualMempool.Inject.{pending_entry}
use umbrel_apps.VirtualMempool.Status.{compute_modified_status_hash, inject_get_mempool}
use umbrel_apps.Config.Settings.{NetworkType, genesis_hash}
use umbrel_apps.Pool.Manager.{PoolManager, cache_chain_tip, lookup_tx_hex}
use umbrel_apps.ElectrumServer.Requests.{
  SerdeJson, JsonRpcRequest, first, is_broadcast_method, is_local_handshake_method,
  scripthash_from_params, ◌>>?◌,
}
use umbrel_apps.ElectrumServer.Session.{
  SessionState, remove_id, track_request, track_scripthash_interest, pending_txids_with_session,
  modify_upstream_response,
}

-- What came of a request to the indexer: its reply (none where it was not reached), no reply in
-- time, or a task that failed.
pub data Forwarded : Type 0 where
  reply : Option String → Forwarded
  timed_out : Forwarded
  task_failed : String → Forwarded

-- How a blocking task with a time limit ended, if it ended in time.
pub data TaskEnd : Type 0 where
  in_time late : TaskEnd
  crashed : String → TaskEnd

-- Code outside the repository, and the indexer; `version` is that of the package.
pub record Outside : Type 0 where
  pub serde : SerdeJson
  pub sha256_hex : String → String
  pub hex : Hex
  pub version : String
  pub preview_task : String → TaskEnd
  pub forward_to_indexer_sync : String → JsonRpcRequest → Forwarded

-- What runs in the background.
pub data Task : Type 0 where
  refresh_tip : String → Task
  ingest : String → String → Task

-- A connection with the pool behind it. `forwarded` lists what was sent to the indexer, and
-- `written` what was written to the client, a line each.
pub record Connection : Type 0 where
  pub session : SessionState
  pub pool : PoolManager
  pub forwarded : List JsonRpcRequest
  pub spawned : List Task
  pub written : List Json
  pub panicked : Bool

abbrev pub rpc_result : Json → Json → Json
rpc_result result id =
    object (field "jsonrpc" (text "2.0") (field "result" result (field "id" id no_fields)))

-- The code is negative.
abbrev pub rpc_error : ℕ → String → Json → Json
rpc_error code message id = object (
    field "jsonrpc" (text "2.0") (
      field "error"
        (object (field "code" (int (negsuc code)) (field "message" (text message) no_fields)))
        (field "id" id no_fields)))

abbrev pub unavailable : Json → Json
unavailable = rpc_error 31999 "Indexer temporarily unavailable"

-- Answer the handshake locally.
unfoldable pub local_electrum_response : String → NetworkType → JsonRpcRequest → Option Json
local_electrum_response version network r =
    if str_eq r.method "server.version"
    then some
        (rpc_result (array (items_of (text "broadcast-pool Electrum" ∷ text "1.4" ∷ []))) r.id)
    else if str_eq r.method "server.banner"
    then some (
        rpc_result
          (text (
            concat (
              "broadcast-pool " ∷ version
              ∷ " - disable Sparrow Tor proxy so broadcasts reach this pool" ∷ [])))
          r.id)
    else if str_eq r.method "server.ping"
    then some (rpc_result (bool true) r.id)
    else if str_eq r.method "server.features"
    then some (rpc_result features r.id)
    else none
  where
    features : Json
    features = object (
        field "genesis_hash" (text (genesis_hash network)) (
          field "protocol_max" (text "1.4") (
            field "protocol_min" (text "1.0") (
              field "protocol_version" (text "1.4") (
                field "server_version" (text (concat ("broadcast-pool " ∷ version ∷ []))) (
                  field "hash_function" (text "sha256") (
                    field "broadcast_pool" (bool true) (
                      field "sparrow_tor_warning"
                        (text
                          "Disable Sparrow Settings→Network proxy/Tor or broadcasts bypass this pool")
                        no_fields))))))))

-- The double 0.00001.
abbrev pub low_fee : Json
low_fee = float (fin (pos (5_902_958_103_587_057 * 2 ^ 1005)))

abbrev first_height : Option Json → ℕ
first_height params = get_or (params >>? as_array >>? first >>? as_u64) 0

unfoldable pub local_fast_response : JsonRpcRequest → Option Json
local_fast_response r =
    if str_eq r.method "blockchain.estimatefee"
    then some (rpc_result low_fee r.id)
    else if str_eq r.method "blockchain.relayfee"
    then some (rpc_result low_fee r.id)
    else if str_eq r.method "mempool.get_fee_histogram"
    then some (rpc_result (array (items_of [])) r.id)
    else if str_eq r.method "blockchain.block.stats"
    then some (
        rpc_result
          (object (
            field "height" (int (pos (first_height r.params)))
              (field "time" (int (pos 0)) (field "median_fee" low_fee no_fields))))
          r.id)
    else none

unfoldable pub parse_headers_subscribe_result : Json → Option (ℕ × String)
parse_headers_subscribe_result msg = get "result" msg >>? λ result.
    get "height" result >>? as_u64 >>? λ height. get "hex" result >>? as_str >>? λ hex.
    if height == 0 || is_empty hex then none else some (height, hex)

abbrev pub tip_result : ℕ → String → Json
tip_result height hex =
    object (field "height" (int (pos height)) (field "hex" (text hex) no_fields))

abbrev pub spawn : Task → Connection → Connection
spawn task c = record c { spawned = c.spawned ++ (task ∷ []) }

abbrev pub with_session : Connection → SessionState → Connection
with_session c s = record c { session = s }

abbrev pub log_forwarded : JsonRpcRequest → Connection → Connection
log_forwarded r c = record c { forwarded = c.forwarded ++ (r ∷ []) }

unfoldable pub spawn_chain_tip_refresh : String → Connection → Connection
spawn_chain_tip_refresh indexer_url c =
    if is_empty indexer_url then c else spawn (refresh_tip indexer_url) c

unfoldable pub build_scripthash_mempool_result : String → List String → Json
build_scripthash_mempool_result method pending =
    if str_eq method "blockchain.scripthash.get_mempool"
    then inject_get_mempool (array (items_of (int (pos 0) ∷ array (items_of []) ∷ []))) pending
    else array (items_of (map pending_entry pending))

-- The answer without the indexer.
abbrev pub tip_or_error :
    Option (ℕ × String) → JsonRpcRequest → Connection → Connection × Result Json
tip_or_error (some (height, hex)) r c = (c, ok (rpc_result (tip_result height hex) r.id))
tip_or_error none r c =
    (c, ok (rpc_error 31999 "Indexer temporarily unavailable — retry in a few seconds" r.id))

module _ (o : Outside) where
  -- The tip in a reply of the indexer.
  abbrev read_tip : Forwarded → Option (Json × (ℕ × String))
  read_tip (reply (some resp)) = o.serde.from_str (trim resp) >>? λ msg.
      parse_headers_subscribe_result msg >>? λ tip. some (msg, tip)
  read_tip _ = none

  abbrev pub tip_request : JsonRpcRequest
  tip_request = record {
    jsonrpc = some "2.0";
    method = "blockchain.headers.subscribe";
    params = some (array (items_of []));
    id = int (pos 0);
  }

  unfoldable pub refresh_chain_tip_cache : String → PoolManager → PoolManager
  refresh_chain_tip_cache indexer_url m =
      if is_empty indexer_url
      then m
      else (elim (read_tip (o.forward_to_indexer_sync indexer_url tip_request)) [
        | none ↦ m
        | some (msg, (height, hex)) ↦ cache_chain_tip height hex m
      ])

  ask_tip : String → JsonRpcRequest → Connection → Connection × Result Json
  ask_tip indexer_url r c =
      let asked = log_forwarded r c in
      elim (read_tip (o.forward_to_indexer_sync indexer_url r)) [
        | none ↦ tip_or_error asked.pool.cached_chain_tip r asked
        | some (msg, (height, hex)) ↦
            (record asked { pool = cache_chain_tip height hex asked.pool }, ok msg)
      ]

  -- Cache-first.
  tip_first : String → Option (ℕ × String) → JsonRpcRequest → Connection → Connection × Result Json
  unfolding ask_tip
  tip_first indexer_url (some (height, hex)) r c =
      (spawn_chain_tip_refresh indexer_url c, ok (rpc_result (tip_result height hex) r.id))
  tip_first indexer_url none r c =
      if is_empty indexer_url then tip_or_error none r c else ask_tip indexer_url r c

  unfoldable pub handle_headers_subscribe :
      String → JsonRpcRequest → Connection → Connection × Result Json
  unfolding tip_first
  handle_headers_subscribe indexer_url r c = tip_first indexer_url c.pool.cached_chain_tip r c

  changed_answer : Option Json → Connection → Connection × Result Json
  changed_answer none c = (record c { panicked = true }, err "")
  changed_answer (some msg) c = (c, ok msg)

  -- The indexer's answer, changed as its request asks.
  answer_to : Option (String × String) → Json → Connection → Connection × Result Json
  unfolding changed_answer
  answer_to none msg c = (c, ok msg)
  answer_to (some (method, scripthash)) msg c =
      changed_answer
        (modify_upstream_response o.sha256_hex method scripthash c.pool (some c.session) msg) c

  answer_of : Json → Json → Connection → Connection × Result Json
  unfolding answer_to
  answer_of id msg c =
      let (left, found) = remove_id id c.session.pending_methods in
      answer_to found msg (with_session c (record c.session { pending_methods = left }))

  forwarded_answer : Forwarded → JsonRpcRequest → Connection → Connection × Result Json
  unfolding answer_of
  forwarded_answer (task_failed e) r c = (c, err e)
  forwarded_answer timed_out r c = (c, ok (unavailable r.id))
  forwarded_answer (reply none) r c = (c, ok (unavailable r.id))
  forwarded_answer (reply (some resp)) r c = elim (o.serde.from_str (trim resp)) [
    | none ↦ (c, err (o.serde.error_text (trim resp)))
    | some msg ↦ answer_of r.id msg c
  ]

  unfoldable pub forward_subrequest_sync :
      String → JsonRpcRequest → Connection → Connection × Result Json
  unfolding forwarded_answer
  forward_subrequest_sync indexer_url r c =
      if is_broadcast_method r.method
      then (c, err "broadcast must not be forwarded to upstream electrs")
      else forwarded_answer (o.forward_to_indexer_sync indexer_url r) r
          (log_forwarded r (with_session c (track_request r c.session)))
