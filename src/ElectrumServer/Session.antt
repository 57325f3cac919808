-- ===== src/ElectrumServer/Session.antt =====
-- sparrow-broadcast-pool/src/electrum_server/mod.rs: the state of a wallet's session, and the answers
-- of the indexer with the pending transactions in them.
use umbrel_apps.Prelude.{
  ℕ, String, Option, none, some, Bool, false, List, [], ◌∷◌, ◌++◌, str_eq, is_empty, get_or,
  if◌then◌else◌, not, ◌&&◌, is_some, is_char_boundary,
}
use umbrel_apps.Prelude.Json.{
  Json, null, text, object, array, no_fields, field, get, as_array, items_of, set_field, json_eq,
}
use umbrel_apps.Pool.Manager.{
  PoolManager, mentions, has_pending_tx, get_pending_txids_for_scripthash,
  get_pending_unconfirmed_value, get_pending_utxos_for_scripthash,
}
use umbrel_apps.VirtualMempool.Inject.{
  inject_in_history, inject_balance_unconfirmed, inject_listunspent,
}
use umbrel_apps.VirtualMempool.Status.{compute_modified_status_hash, inject_get_mempool}
use umbrel_apps.ElectrumServer.Requests.{JsonRpcRequest, scripthash_from_params}

-- The set of the subscribed scripthashes lists each once. `pending_methods` maps the id of a request
-- to its method and scripthash.
pub record SessionState : Type 0 where
  pub subscribed_scripthashes : List String
  pub pending_methods : List (Json × (String × String))
  pub client_busy : Bool
  pub deferred_indexer_out : List Json  -- a line each
  pub broadcast_intercepted : Bool
  pub recent_broadcast_txid : Option String
  pub rpc_lines_handled : ℕ

abbrev pub new_session : SessionState
new_session = record {
  subscribed_scripthashes = [];
  pending_methods = [];
  client_busy = false;
  deferred_indexer_out = [];
  broadcast_intercepted = false;
  recent_broadcast_txid = none;
  rpc_lines_handled = 0;
}

-- A `HashMap` under ids: `insert` and `remove`.
module _ {ℓ} {V : Type ℓ} where
  unfoldable pub insert_id : Json → V → List (Json × V) → List (Json × V)
  insert_id id new [] = (id, new) ∷ []
  insert_id id new ((other, old) ∷ rest) =
      let later = insert_id id new rest in
      if json_eq other id then (other, new) ∷ rest else (other, old) ∷ later

  unfoldable pub remove_id : Json → List (Json × V) → List (Json × V) × Option V
  remove_id id [] = ([], none)
  remove_id id ((other, old) ∷ rest) =
      let (left, found) = remove_id id rest in
      if json_eq other id then (rest, some old) else ((other, old) ∷ left, found)

-- `HashSet::insert`.
abbrev pub add_to_set : String → List String → List String
add_to_set s set = if mentions set s then set else set ++ (s ∷ [])

abbrev pub is_tracked : String → Bool
is_tracked method =
    mentions
      ("blockchain.scripthash.subscribe" ∷ "blockchain.scripthash.get_history"
        ∷ "blockchain.scripthash.get_balance" ∷ "blockchain.scripthash.listunspent"
        ∷ "blockchain.scripthash.get_mempool" ∷ [])
      method

unfoldable pub track_request : JsonRpcRequest → SessionState → SessionState
unfolding insert_id
track_request r s =
    let scripthash = get_or (scripthash_from_params r.params) "" in
    let subscribed =
      if str_eq r.method "blockchain.scripthash.subscribe"
      then record s { subscribed_scripthashes = add_to_set scripthash s.subscribed_scripthashes }
      else s in
    if is_tracked r.method
    then record subscribed {
      pending_methods = insert_id r.id (r.method, scripthash) subscribed.pending_methods;
    }
    else s

-- Track wallet scripthashes Sparrow cares about.
unfoldable pub track_scripthash_interest : String → SessionState → SessionState
track_scripthash_interest scripthash s =
    if is_empty scripthash
    then s
    else record s { subscribed_scripthashes = add_to_set scripthash s.subscribed_scripthashes }

-- The pending txids that are not the given one.
unfoldable pub push_others : List String → List String → List String
push_others pending [] = pending
push_others pending (t ∷ ts) =
    push_others (if mentions pending t then pending else pending ++ (t ∷ [])) ts

-- The session's own tx first, while it is pending.
unfoldable pub own_first : Option String → PoolManager → List String → List String
unfolding push_others
own_first none m stored = stored
own_first (some txid) m stored =
    if has_pending_tx txid m then push_others (txid ∷ []) stored else stored

unfoldable pub pending_txids_with_session : PoolManager → String → Option SessionState → List String
unfolding own_first
pending_txids_with_session m scripthash none = get_pending_txids_for_scripthash scripthash m
pending_txids_with_session m scripthash (some s) =
    own_first s.recent_broadcast_txid m (get_pending_txids_for_scripthash scripthash m)

-- Whether the log of a poll after a broadcast panics on the scripthash, of which it shows 16 bytes.
unfoldable pub poll_panics : PoolManager → String → Option SessionState → Bool
poll_panics m scripthash none = false
poll_panics m scripthash (some s) = elim s.recent_broadcast_txid [
  | none ↦ false
  | some txid ↦ has_pending_tx txid m && not (is_char_boundary 16 scripthash)
]

-- `msg.get_mut("result")`, changed by `f`.
abbrev pub map_result : (Json → Json) → Json → Json
map_result f (object fields) = elim (get "result" (object fields)) [
  | none ↦ object fields
  | some v ↦ object (set_field "result" (f v) fields)
]
map_result f v = v

-- The same where the result is an array, and else nothing.
abbrev pub map_result_array : (List Json → List Json) → Json → Json
map_result_array f msg =
    map_result (λ v. elim (as_array v) [ none ↦ v | some vs ↦ array (items_of (f vs)) ]) msg

abbrev result_array : Json → Option (List Json)
result_array msg = elim (get "result" msg) [ none ↦ none | some v ↦ as_array v ]

-- `msg["result"] = v`; `none` is the panic on what is neither an object nor null.
abbrev pub index_result : Json → Json → Option Json
index_result v (object fields) = some (object (set_field "result" v fields))
index_result v null = some (object (field "result" v no_fields))
index_result v _ = none

module _ (sha256_hex : String → String) where
  abbrev pub with_status : List String → Json → Option Json
  with_status pending msg = elim (compute_modified_status_hash sha256_hex [] pending) [
    | none ↦ some msg
    | some hash ↦ index_result (text hash) msg
  ]

  -- The answer of the indexer to a request of the given method. `none` is a panic.
  unfoldable pub modify_upstream_response :
      String → String → PoolManager → Option SessionState → Json → Option Json
  modify_upstream_response method scripthash m session msg =
      let pending = pending_txids_with_session m scripthash session in
      let panics = poll_panics m scripthash session in
      if str_eq method "blockchain.scripthash.get_history"
      then (if panics && is_some (result_array msg)
          then none
          else some (map_result_array (λ history. inject_in_history history pending) msg))
      else if str_eq method "blockchain.scripthash.subscribe"
      then (if panics
          then none
          else elim pending [ [] ↦ some msg | p ∷ ps ↦ with_status (p ∷ ps) msg ])
      else if str_eq method "blockchain.scripthash.get_balance"
      then some (
          map_result
            (λ v. inject_balance_unconfirmed v (get_pending_unconfirmed_value scripthash m)) msg)
      else if str_eq method "blockchain.scripthash.listunspent"
      then some (
          map_result_array
            (λ us. inject_listunspent us (get_pending_utxos_for_scripthash scripthash m)) msg)
      else if str_eq method "blockchain.scripthash.get_mempool"
      then (if panics && is_some (get "result" msg)
          then none
          else some (map_result (λ v. inject_get_mempool v pending) msg))
      else some msg
