-- ===== src/ElectrumServer/Ingest.antt =====
-- sparrow-broadcast-pool/src/electrum_server/mod.rs: how a transaction that a wallet broadcasts is
-- taken into the pool. The decoding of transactions, dates and the random delay are parameters.
pub mod Plan
pub mod Retained
use umbrel_apps.Prelude.{
  ℕ, ◌+◌, ◌*◌, max, String, Option, none, some, Bool, true, false, ◌&&◌, List, [], ◌∷◌, ◌++◌, map,
  Result, ok, err, context, ◌>>=◌, or_else, str_eq, ltb, ◌==◌, if◌then◌else◌, trim, length,
}
use umbrel_apps.Db.Models.{DateTime, nanos_per_sec, NewBroadcastTx, Row}
use umbrel_apps.Db.Table
use umbrel_apps.Config.{BroadcastMode, immediate, scheduled, by_block, manual, to_string}
use umbrel_apps.Pool.Backend.{Clock, map_result}
use umbrel_apps.Pool.Manager.{
  PoolManager, PendingTxOutput, Config, mentions, merge_scripthashes, store_pending_tx,
}

pub record TxOut : Type 0 where
  pub value : ℕ
  pub script_pubkey : String

-- An input, by the output that it spends; the txid is in the byte order of Electrum.
pub record TxIn : Type 0 where
  pub previous_txid : String
  pub vout : ℕ  -- u32

-- What the crate `bitcoin` tells of a transaction; `txid` is in the byte order of Electrum.
pub record Transaction : Type 0 where
  pub txid : String
  pub lock_time : ℕ  -- u32
  pub input : List TxIn
  pub output : List TxOut

-- The crates `hex`, `bitcoin` and `sha2`.
pub record Bitcoin : Type 0 where
  pub hex_decode : String → Option (List ℕ)
  pub consensus_decode : List ℕ → Option Transaction
  pub compute_scripthash : String → String

-- The crates `chrono` and `rand`. `add_hours` is `checked_add_signed`.
pub record Dates : Type 0 where
  pub parse_from_rfc3339 : String → Option DateTime
  pub parse_minutes : String → Option DateTime
  pub add_hours : DateTime → ℕ → Option DateTime
  pub gen_range : ℕ → ℕ → ℕ

abbrev pub Plan : Type 0
Plan = BroadcastMode × Option DateTime

-- The date that the configuration names, in either format.
abbrev pub configured_date : Dates → Option String → Option DateTime
configured_date d none = none
configured_date d (some text) = or_else (d.parse_from_rfc3339 text) (d.parse_minutes text)

random_delay : Dates → Clock → Config → Option DateTime
random_delay d now config =
    let lowest = config.min_delay_hours in
    d.add_hours now.utc (d.gen_range lowest (max config.max_delay_hours lowest))

unfoldable pub resolve_broadcast_plan : Dates → Clock → ℕ → Config → Plan
unfolding random_delay
resolve_broadcast_plan d now nlocktime config = elim config.broadcast_mode [
  | immediate ↦ (immediate, some now.utc)
  | scheduled ↦ elim (configured_date d config.scheduled_datetime) [
    | some date ↦ (scheduled, some date)
    | none ↦ (scheduled, random_delay d now config)
  ]
  | by_block ↦ (by_block, none)
  | manual ↦ (manual, none)
]

unfoldable pub resolve_ingest_plan : Dates → Clock → String → ℕ → Config → Plan
unfolding resolve_broadcast_plan
resolve_ingest_plan d now source_label nlocktime config =
    if str_eq source_label "liana"
    then (manual, none)
    else if str_eq source_label "sparrow" && nlocktime == 0
    then (manual, none)
    else if ltb 500_000_000 nlocktime
    then (scheduled, some (nlocktime * nanos_per_sec))
    else if ltb 0 nlocktime && ltb nlocktime 500_000_000
    then (by_block, none)
    else resolve_broadcast_plan d now nlocktime config

unfoldable pub decode_tx : Bitcoin → String → Result Transaction
decode_tx bt tx_hex = context (bt.hex_decode (trim tx_hex)) "Invalid tx hex" >>= λ raw.
    context (bt.consensus_decode raw) "Failed to decode transaction"

unfoldable pub compute_txid : Bitcoin → String → Result String
unfolding decode_tx
compute_txid bt tx_hex = map_result Transaction.txid (decode_tx bt tx_hex)

unfoldable pub number_outputs : Bitcoin → ℕ → List TxOut → List PendingTxOutput
number_outputs bt i [] = []
number_outputs bt i (o ∷ os) =
    record { output_index = i; value = o.value; scripthash = bt.compute_scripthash o.script_pubkey }
    ∷ number_outputs bt (i + 1) os

-- `extract_outputs(tx_hex).unwrap_or_default()`.
unfoldable pub extract_outputs : Bitcoin → String → List PendingTxOutput
unfolding decode_tx number_outputs
extract_outputs bt tx_hex = elim (decode_tx bt tx_hex) [
  | err e ↦ []
  | ok tx ↦ number_outputs bt 0 tx.output
]

-- The scripthashes of the outputs, each once; the order stands for that of the set.
unfoldable pub extract_output_scripthashes : Bitcoin → String → List String
unfolding decode_tx merge_scripthashes
extract_output_scripthashes bt tx_hex = elim (decode_tx bt tx_hex) [
  | err e ↦ []
  | ok tx ↦
      merge_scripthashes [] (map (λ (o : TxOut). bt.compute_scripthash o.script_pubkey) tx.output)
]

pub record BroadcastHandleResult : Type 0 where
  pub txid : String
  pub tx_hex : String
  pub retained : Bool
  pub affected_scripthashes : List String

unfoldable pub new_broadcast_tx : String → String → Transaction → String → Plan → NewBroadcastTx
new_broadcast_tx tx_hex network tx source_label (mode, scheduled_time) = record {
  tx_hex = tx_hex;
  network = network;
  nlocktime = if ltb 0 tx.lock_time then some tx.lock_time else none;
  broadcast_mode = some (to_string mode);
  scheduled_time = scheduled_time;
  target_fee_rate = none;
  source_label = some source_label;
  destination_address = none;
  utxo_count = some (length tx.input);
  total_value_btc = none;
  replacement_of = none;
}

-- The virtual mempool gets the tx, with what its outputs pay to.
unfoldable pub store_pending_outputs : Bitcoin → String → String → PoolManager → PoolManager
unfolding extract_outputs extract_output_scripthashes
store_pending_outputs bt txid tx_hex m =
    store_pending_tx txid tx_hex (extract_output_scripthashes bt tx_hex) (extract_outputs bt tx_hex)
      m

abbrev pub mark_if_immediate : BroadcastMode → String → DateTime → PoolManager → PoolManager
mark_if_immediate immediate id now m = record m { db = Table.mark_due id now m.db }
mark_if_immediate _ id now m = m

-- Both decodings of the text, as the code does them.
unfoldable pub decode_submitted : Bitcoin → String → Result (Transaction × String)
unfolding compute_txid
decode_submitted bt tx_hex = context (bt.hex_decode tx_hex) "Invalid transaction hex" >>= λ raw.
    context (bt.consensus_decode raw) "Failed to decode transaction" >>= λ tx.
    compute_txid bt tx_hex >>= λ txid. ok (tx, txid)

-- `id` is the uuid that the insertion draws.
unfoldable pub handle_broadcast :
    Bitcoin
    → Dates
    → Clock
    → String
    → String
    → String
    → PoolManager
    → PoolManager × Result BroadcastHandleResult
unfolding decode_submitted new_broadcast_tx store_pending_outputs
handle_broadcast bt d now id tx_hex source_label m =
    let clean = trim tx_hex in
    elim (decode_submitted bt clean) [
      | err e ↦ (m, err e)
      | ok (tx, txid) ↦
          (let plan = resolve_ingest_plan d now source_label tx.lock_time m.config in
            elim (Table.insert_broadcast_tx id now.utc
              (new_broadcast_tx clean m.config.network tx source_label plan) m.db) [
                | err e ↦ (m, err e)
                | ok (db', imported) ↦ (
                  mark_if_immediate plan.0 imported.id now.utc
                      (store_pending_outputs bt txid clean (record m { db = db' })),
                  ok (record {
                    txid = txid;
                    tx_hex = clean;
                    retained = true;
                    affected_scripthashes = extract_output_scripthashes bt clean;
                  }),
                )
              ])
    ]
