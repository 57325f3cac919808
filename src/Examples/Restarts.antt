-- ===== src/Examples/Restarts.antt =====
-- The theorems on restarts, on the inputs of a transaction and on the command line's broadcasts,
-- applied to a small pool.
use umbrel_apps.Pool.Broadcaster.Accepted.{IsSent, broadcast_all_pending-IsSent}
use umbrel_apps.Prelude.Float.{of_ℕ}
use umbrel_apps.Prelude.{
  ◌⊎◌, get_or, String, none, some, true, [], ◌∷◌, ◌≡◌, refl, inr, arith, ok, err, is_ok, str_eq,
  trim, to_lowercase, if◌then◌else◌,
}
use umbrel_apps.Prelude.Maps.{lookup, insert}
use umbrel_apps.Db.Models.{broadcast, Row, pending}
use umbrel_apps.Db.Table.{Table, get_broadcast_tx_by_id}
use umbrel_apps.VirtualMempool.Txid.{Hex}
use umbrel_apps.VirtualMempool.Inputs.{Chain}
use umbrel_apps.Pool.Manager.{
  PoolManager, mentions, store_pending_tx, has_pending_tx, get_pending_txids_for_scripthash,
  lookup_tx_hex,
}
use umbrel_apps.Pool.Restart.{row_txid, load_pending_from_db, enrich_pending_input_scripthashes}
use umbrel_apps.Pool.Restart.Shown.{load_pending_from_db-has_pending_tx}
use umbrel_apps.Pool.Restart.Inputs.{enrich_pending_input_scripthashes-lists}
use umbrel_apps.Pool.Broadcaster.{broadcast_all_pending}
use umbrel_apps.ElectrumServer.Ingest.{Bitcoin, Transaction, TxIn, TxOut, decode_tx, compute_txid}
use umbrel_apps.Examples.{now, node, ripe, manager}
use umbrel_apps.Examples.Sessions.{serde}

abbrev paid : TxOut
paid = record { value = 7_000; script_pubkey = "p" }

abbrev parent : Transaction
parent = record { txid = "t1"; lock_time = 0; input = []; output = paid ∷ [] }

abbrev spend : TxIn
spend = record { previous_txid = "t1"; vout = 0 }

abbrev child : Transaction
child = record {
  txid = "t2";
  lock_time = 0;
  input = spend ∷ [];
  output = record { value = 6_000; script_pubkey = "q" } ∷ [];
}

-- The hex "aa" is the parent, and any other the child.
abbrev decoder : Bitcoin
decoder = record {
  hex_decode = λ s. if str_eq s "aa" then some [] else some (1 ∷ []);
  consensus_decode = λ raw. elim raw [ [] ↦ some parent | b ∷ bs ↦ some child ];
  compute_scripthash = λ script. script;
}

abbrev chain : Chain
chain = record { bitcoin = decoder; serde = serde; ask = λ addr txid. err "not reachable" }

abbrev waiting : PoolManager
waiting = record manager { db = ripe ∷ [] }

found : get_broadcast_tx_by_id ripe.id waiting.db ≡ ok ripe
unfolding get_broadcast_tx_by_id
found = refl

load_pending_from_db-has_pending_tx_example :
    has_pending_tx "t1" (load_pending_from_db chain (some "tcp://127.0.0.1:50001") waiting).0 ≡ true
unfolding compute_txid trim
load_pending_from_db-has_pending_tx_example =
    load_pending_from_db-has_pending_tx chain "tcp://127.0.0.1:50001" waiting ripe "t1"
      (omega arith) (omega arith) found (inr refl) named readable
  where
    named : row_txid chain ripe ≡ ok "t1"
    named = refl

    readable : is_ok (decode_tx decoder "aa") ≡ true
    readable = refl

abbrev no_hex : Hex
no_hex = record { decode = λ s. none; encode = λ bytes. "" }

abbrev holding : PoolManager
holding =
    store_pending_tx "t2" "bb" ("q" ∷ []) [] (store_pending_tx "t1" "aa" ("p" ∷ []) [] waiting)

enrich_pending_input_scripthashes-lists_example :
    mentions
      (get_pending_txids_for_scripthash "p"
        (enrich_pending_input_scripthashes chain no_hex "t2" "bb" "" 1 holding))
      "t2"
    ≡ true
unfolding has_pending_tx decode_tx lookup_tx_hex store_pending_tx lookup insert trim to_lowercase
enrich_pending_input_scripthashes-lists_example =
    enrich_pending_input_scripthashes-lists chain no_hex "t2" "bb" "aa" "" 1 0 holding child parent
      spend paid refl refl refl refl refl refl refl

abbrev unsent : Table
unsent = record ripe { status = pending } ∷ record ripe { id = "tx-8"; tx_hex = "zz" } ∷ []

abbrev unsent_row : Row
unsent_row = record ripe { status = pending }

unsent_found : get_broadcast_tx_by_id "tx-1" unsent ≡ ok unsent_row
unfolding get_broadcast_tx_by_id
unsent_found = refl

broadcast_all_pending-IsSent_example :
    ((txid : String) × IsSent node "mainnet" unsent_row txid
      × (get_broadcast_tx_by_id "tx-1" (broadcast_all_pending node now.utc "mainnet" unsent).0
          ≡ ok (record unsent_row {
            status = broadcast;
            txid = some txid;
            actual_fee_rate = some (get_or unsent_row.target_fee_rate (of_ℕ 0));
            broadcast_at = some now.utc;
            updated_at = now.utc;
            broadcast_missed_at = none;
            defer_until = none;
          })))
    ⊎ ((¬ ((txid : String) × IsSent node "mainnet" unsent_row txid))
        × (get_broadcast_tx_by_id "tx-1" (broadcast_all_pending node now.utc "mainnet" unsent).0
            ≡ ok unsent_row))
broadcast_all_pending-IsSent_example =
    broadcast_all_pending-IsSent node now.utc "mainnet" unsent "tx-1" unsent_row (refl, (refl, tt))
      (omega arith) unsent_found
