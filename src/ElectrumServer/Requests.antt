-- ===== src/ElectrumServer/Requests.antt =====
-- sparrow-broadcast-pool/src/electrum_server/mod.rs: the requests of a wallet, and the broadcasts
-- among them. `from_str` is serde_json's parser, and `error_text` what it
-- says of a text that it does not read; one that it reads as an array begins with `[`.
use umbrel_apps.Prelude.{
  String, Option, none, some, Bool, true, not, List, [], ◌∷◌, ◌≡◌, Result, ok, context, ◌>>=◌,
  str_eq, or_else, get_or, if◌then◌else◌, any, contains, trim, trim_start, starts_with,
}
use umbrel_apps.Prelude.Json.{Json, null, text, array, object, get, as_str, as_array}

pub record SerdeJson : Type 0 where
  pub from_str : String → Option Json
  pub error_text : String → String
  pub array_starts :
      (line : String) (v : Json) (vs : List Json)
      → from_str (trim line) ≡ some v
      → as_array v ≡ some vs
      → starts_with (trim_start line) "[" ≡ true

pub record JsonRpcRequest : Type 0 where
  pub jsonrpc : Option String
  pub method : String
  pub params : Option Json
  pub id : Json

abbrev pub broadcast_methods : List String
broadcast_methods =
    "blockchain.transaction.broadcast" ∷ "blockchain.transaction.broadcast_package" ∷ []

abbrev pub is_broadcast_method : String → Bool
is_broadcast_method method = any (λ m. str_eq m method) broadcast_methods

-- `and_then`.
infixl 5 ◌>>?◌
abbrev pub ◌>>?◌ {ℓ κ} : {A : Type ℓ} {B : Type κ} → Option A → (A → Option B) → Option B
none >>? f = none
some a >>? f = f a

abbrev pub first : List Json → Option Json
first [] = none
first (v ∷ vs) = some v

abbrev text_of : Option Json → Option String
text_of (some (text s)) = some s
text_of _ = none

-- The hex among the params: `[hex]`, `"hex"`, or a field of an object.
unfoldable pub params_first_string : Json → Option String
params_first_string (array items) = as_array (array items) >>? first >>? as_str
params_first_string (text s) = some s
params_first_string (object map) = or_else (text_of (get "raw_tx" (object map))) (
    or_else (text_of (get "tx" (object map)))
      (or_else (text_of (get "transaction" (object map))) (text_of (get "hex" (object map)))))
params_first_string _ = none

abbrev pub json_rpc_id : Json → Json
json_rpc_id v = get_or (get "id" v) null

abbrev pub method_of : Json → Option String
method_of v = get "method" v >>? as_str

broadcast_param : String → Json → Option String
broadcast_param method params =
    if str_eq method "blockchain.transaction.broadcast_package"
    then as_array params >>? first >>? as_array >>? first >>? as_str
    else params_first_string params

unfoldable pub extract_broadcast_from_value : Json → Option (Json × String)
unfolding broadcast_param params_first_string
extract_broadcast_from_value v = method_of v >>? λ method.
    if not (is_broadcast_method method)
    then none
    else (get "params" v >>? λ params.
        broadcast_param method params >>? λ hex. some (json_rpc_id v, hex))

unfoldable pub first_broadcast : List Json → Option (Json × String)
first_broadcast [] = none
first_broadcast (v ∷ vs) = or_else (extract_broadcast_from_value v) (first_broadcast vs)

module _ (serde : SerdeJson) where
  unfoldable pub extract_broadcast_hex : String → Option (Json × String)
  unfolding first_broadcast
  extract_broadcast_hex line = serde.from_str (trim line) >>? λ v. elim (as_array v) [
    | some items ↦ first_broadcast items
    | none ↦ extract_broadcast_from_value v
  ]

unfoldable pub line_looks_like_broadcast : String → Bool
line_looks_like_broadcast line = any (contains line) broadcast_methods

-- The first item that is a broadcast.
unfoldable pub first_broadcast_id : List Json → Option Json
first_broadcast_id [] = none
first_broadcast_id (v ∷ vs) =
    let rest = first_broadcast_id vs in
    elim (method_of v) [
      | none ↦ rest
      | some method ↦ if is_broadcast_method method then some (json_rpc_id v) else rest
    ]

module _ (serde : SerdeJson) where
  unfoldable pub line_json_rpc_id : String → Json
  unfolding first_broadcast_id
  line_json_rpc_id line = elim (serde.from_str (trim line)) [
    | none ↦ null
    | some v ↦ elim (as_array v) [
      | none ↦ json_rpc_id v
      | some items ↦ get_or (first_broadcast_id items) (json_rpc_id v)
    ]
  ]

-- An optional text of a struct: left out and `null` are `None`.
abbrev optional_text : Option Json → Option (Option String)
optional_text none = some none
optional_text (some null) = some none
optional_text (some (text s)) = some (some s)
optional_text (some _) = none

abbrev optional_value : Option Json → Option Json
optional_value (some null) = none
optional_value o = o

request_of : Option Json → Option Json → Option Json → Option Json → Option JsonRpcRequest
request_of version method params id = optional_text version >>? λ jsonrpc.
    method >>? as_str >>? λ name. id >>? λ i.
    some (record { jsonrpc = jsonrpc; method = name; params = optional_value params; id = i })

-- `serde_json::from_value`: a struct is read from an object, or from an array of its fields.
unfoldable pub from_value : Json → Option JsonRpcRequest
unfolding request_of
from_value (object fs) =
    let v = object fs in request_of (get "jsonrpc" v) (get "method" v) (get "params" v) (get "id" v)
from_value (array items) = elim (as_array (array items)) [
  | some (a ∷ b ∷ c ∷ d ∷ []) ↦ request_of (some a) (some b) (some c) (some d)
  | _ ↦ none
]
from_value _ = none

unfoldable pub read_items : List Json → Result (List JsonRpcRequest)
read_items [] = ok []
read_items (v ∷ vs) =
    context (from_value v) "invalid batch item" >>= λ r. read_items vs >>= λ rs. ok (r ∷ rs)

module _ (serde : SerdeJson) where
  unfoldable pub parse_subrequests : String → Result (List JsonRpcRequest)
  unfolding read_items
  parse_subrequests line = context (serde.from_str (trim line)) "invalid JSON" >>= λ v.
      elim (as_array v) [
        | some items ↦ read_items items
        | none ↦ context (from_value v) "invalid request" >>= λ r. ok (r ∷ [])
      ]

unfoldable pub line_is_batch : String → Bool
line_is_batch line = starts_with (trim_start line) "["

abbrev pub local_electrum_methods : List String
local_electrum_methods = "server.version" ∷ "server.banner" ∷ "server.ping" ∷ "server.features" ∷ []

abbrev pub is_local_handshake_method : String → Bool
is_local_handshake_method method = any (λ m. str_eq m method) local_electrum_methods

unfoldable pub scripthash_from_params : Option Json → Option String
scripthash_from_params params = params >>? as_array >>? first >>? as_str
