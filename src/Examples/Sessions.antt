-- ===== src/Examples/Sessions.antt =====
-- The theorems on the sessions of the Electrum server, applied to a wallet that broadcasts and polls.
use Prim.Native.Char.{Char}
use Prim.Native.String
use umbrel_apps.Prelude.{
  is_char_boundary, String, Option, none, some, Bool, true, false, List, [], ◌∷◌, ◌++◌, ◌≡◌, refl,
  ok, str_eq, trim, arith, is_empty, starts_with, trim_start,
}
use umbrel_apps.Prelude.Int.{pos}
use umbrel_apps.Prelude.Json.{Json, int, text, array, object, no_fields, field, items_of, as_array}
use umbrel_apps.Config.Settings.{mainnet}
use umbrel_apps.VirtualMempool.Inject.{has_tx, pending_entry}
use umbrel_apps.VirtualMempool.Status.{compute_status_hash}
use umbrel_apps.VirtualMempool.Status.Sorted.{swapped, compute_status_hash-Reordered}
use umbrel_apps.ElectrumServer.Ingest.{compute_txid}
use umbrel_apps.ElectrumServer.Requests.{SerdeJson, scripthash_from_params}
use umbrel_apps.ElectrumServer.Lines.{Bytes, is_broadcast_line}
use umbrel_apps.ElectrumServer.Lines.Popped.{complete_lines, incomplete_line}
use umbrel_apps.ElectrumServer.Lines.Order.{in_order}
use umbrel_apps.ElectrumServer.Session.{new_session}
use umbrel_apps.ElectrumServer.Answers.{Outside, Connection, in_time, reply, rpc_result}
use umbrel_apps.ElectrumServer.Client.{interested, handle_one_subrequest}
use umbrel_apps.ElectrumServer.Client.Poll.{history_poll}
use umbrel_apps.ElectrumServer.Process.{
  quick_broadcast_preview, preview, intercept_and_handle_broadcast, process_client_line,
}
use umbrel_apps.ElectrumServer.Process.Answered.{MayPanic, Answered, process_client_line-Answered}
use umbrel_apps.ElectrumServer.Process.Visible.{intercept_and_handle_broadcast-shown}
use umbrel_apps.ElectrumServer.Loop.{Event, read, changed, handle_event, handle_connection}
use umbrel_apps.ElectrumServer.Loop.Handled.{
  IsLocal, handle_connection-IsLocal, handle_lines, handle_event-in_order,
}
use umbrel_apps.Examples.{manager}
use umbrel_apps.Examples.Server.{bitcoin}

abbrev pub request : String → String → Json
request method param = object (
    field "method" (text method)
      (field "params" (array (items_of (text param ∷ []))) (field "id" (int (pos 1)) no_fields)))

-- Two lines are read, and nothing else.
abbrev pub parse : Bool → Bool → Option Json
parse true polls = some (request "blockchain.transaction.broadcast" "ee")
parse false true = some (request "blockchain.scripthash.get_history" "sh")
parse false false = none

pub parse-array_starts :
    (sends polls : Bool) (line : String) (v : Json) (vs : List Json)
    → parse sends polls ≡ some v
    → as_array v ≡ some vs
    → starts_with (trim_start line) "[" ≡ true
parse-array_starts true polls line v vs h e = ground arith
parse-array_starts false true line v vs h e = ground arith
parse-array_starts false false line v vs h e = ground arith

abbrev pub serde : SerdeJson
serde = record {
  from_str = λ s. parse (str_eq s "send") (str_eq s "poll");
  error_text = λ s. "expected value";
  array_starts =
      λ line. parse-array_starts (str_eq (trim line) "send") (str_eq (trim line) "poll") line;
}

abbrev outside : Outside
outside = record {
  serde = serde;
  sha256_hex = λ s. s;
  hex = record { decode = λ s. none; encode = λ bytes. "" };
  version = "0.1.0";
  preview_task = λ tx_hex. in_time;
  forward_to_indexer_sync = λ url r. reply none;
}

abbrev url : String
url = "tcp://127.0.0.1:50001"

abbrev fresh : Connection
fresh = record {
  session = new_session;
  pool = manager;
  forwarded = [];
  spawned = [];
  written = [];
  panicked = false;
}

abbrev bytes_of : String → Bytes
bytes_of String.[] = []
bytes_of (String.◌∷◌ c s) = c ∷ bytes_of s

-- A poll, and a broadcast in two pieces.
abbrev first_bytes : Bytes
first_bytes = bytes_of "poll\nse"

abbrev events : List Event
events = read first_bytes ∷ read (bytes_of "nd\n") ∷ changed "sh" ∷ read [] ∷ []

handle_connection-IsLocal_example :
    IsLocal (handle_connection outside bitcoin mainnet "sparrow" url events fresh []).0
handle_connection-IsLocal_example =
    handle_connection-IsLocal outside bitcoin mainnet "sparrow" url events fresh []
      (record { deferred = refl; forwarded = tt })

abbrev letter : Char
letter = Prim.Native.String.char_at "p" 0

handle_event-in_order_example :
    handle_event outside bitcoin mainnet "sparrow" url
      (read (letter ∷ bytes_of "oll\nsend\np"))
      fresh
      (bytes_of "poll\n")
    ≡ (
      true,
      (
        handle_lines outside bitcoin mainnet "sparrow" url
            (in_order
              (is_broadcast_line serde)
              (complete_lines (bytes_of "poll\n" ++ (letter ∷ bytes_of "oll\nsend\np"))))
            fresh,
        incomplete_line (bytes_of "poll\n" ++ (letter ∷ bytes_of "oll\nsend\np")),
      ),
    )
handle_event-in_order_example =
    handle_event-in_order outside bitcoin mainnet "sparrow" url letter (bytes_of "oll\nsend\np")
      (bytes_of "poll\n") fresh

not_blank : is_empty (trim "poll") ≡ false
unfolding trim
not_blank = refl

process_client_line-Answered_example :
    Answered
      (MayPanic outside bitcoin mainnet "sparrow" url "poll")
      fresh
      (process_client_line outside bitcoin mainnet "sparrow" url "poll" fresh)
process_client_line-Answered_example =
    process_client_line-Answered outside bitcoin mainnet "sparrow" url "poll" fresh refl not_blank

previewed : preview outside bitcoin "ee" ≡ ok "t9"
unfolding quick_broadcast_preview compute_txid trim
previewed = refl

abbrev params : Option Json
params = some (array (items_of (text "sh" ∷ [])))

params_sh : scripthash_from_params params ≡ some "sh"
unfolding scripthash_from_params
params_sh = refl

abbrev sent : Connection
sent = intercept_and_handle_broadcast outside bitcoin "sparrow" (int (pos 1)) "ee" fresh

sh_whole : is_char_boundary 16 "sh" ≡ true
unfolding is_char_boundary
sh_whole = refl

intercept_and_handle_broadcast-shown_example :
    (sent.written ≡ rpc_result (text "t9") (int (pos 1)) ∷ [])
    × (history : List Json) × (handle_one_subrequest outside mainnet url
          (history_poll none params (int (pos 2)))
          sent
        ≡ (
          interested outside mainnet url "sh" sent,
          ok (rpc_result (array (items_of history)) (int (pos 2))),
        ))
    × (has_tx history "t9" ≡ true)
intercept_and_handle_broadcast-shown_example =
    intercept_and_handle_broadcast-shown outside bitcoin mainnet "sparrow" url (int (pos 1))
      (int (pos 2)) "ee" "t9" "sh" none params fresh previewed params_sh sh_whole

compute_status_hash-Reordered_example :
    compute_status_hash (λ s. s) (pending_entry "t2" ∷ pending_entry "t1" ∷ [])
    ≡ compute_status_hash (λ s. s) (pending_entry "t1" ∷ pending_entry "t2" ∷ [])
compute_status_hash-Reordered_example =
    compute_status_hash-Reordered (λ s. s) (swapped (pending_entry "t2") (pending_entry "t1") [])
