-- ===== src/Migration/Importer.antt =====
-- sparrow-broadcast-pool/src/migration/importer.rs: what is taken over from Sparrow's exports. The
-- reading of a file and serde_json's result on it are parameters.
use umbrel_apps.Prelude.{
  ℕ, String, Option, none, some, List, [], ◌∷◌, map, Result, ok, err, context, ◌>>=◌, concat,
}
use umbrel_apps.Prelude.Float.{F64, of_ℕ}
use umbrel_apps.Db.Models.{NewBroadcastTx}
use umbrel_apps.Migration.Plans.{NewMigrationUtxo, wrap_i32}

pub record SparrowUtxoExport : Type 0 where
  pub txid : String
  pub vout : ℕ  -- u32
  pub value : Option F64
  pub value_sat : Option ℕ
  pub address : Option String
  pub label : Option String
  pub path : Option String
  pub confirmations : Option ℕ
  pub output : Option String

pub record SparrowTransactionExport : Type 0 where
  pub txid : String
  pub hex : Option String
  pub fee : Option F64
  pub height : Option ℕ
  pub label : Option String

-- The text of a file, and what serde_json makes of it under each type.
pub record File : Type 0 where
  pub path : String
  pub content : Option String
  pub as_utxos : String → Option (List SparrowUtxoExport)
  pub as_txs : String → Option (List SparrowTransactionExport)
  pub as_tx : String → Option SparrowTransactionExport

abbrev pub read_to_string : File → Result String
read_to_string f = context f.content (concat ("Failed to read file: " ∷ f.path ∷ []))

-- `vs as f64 / 100_000_000.0` is a parameter.
abbrev value_btc : (ℕ → F64) → Option F64 → Option ℕ → F64
value_btc sat_to_btc (some v) sat = v
value_btc sat_to_btc none (some sat) = sat_to_btc sat
value_btc sat_to_btc none none = of_ℕ 0

abbrev pub new_utxo_of : (ℕ → F64) → SparrowUtxoExport → NewMigrationUtxo
new_utxo_of sat_to_btc u = record {
  txid = u.txid;
  vout = wrap_i32 u.vout;
  value_btc = value_btc sat_to_btc u.value u.value_sat;
  address = u.address;
  label = u.label;
  source_label = u.label;
}

unfoldable pub import_utxos_from_json : (ℕ → F64) → File → Result (List NewMigrationUtxo)
import_utxos_from_json sat_to_btc f = read_to_string f >>= λ content.
    context (f.as_utxos content) (concat ("Failed to parse JSON: " ∷ f.path ∷ [])) >>= λ utxos.
    ok (map (new_utxo_of sat_to_btc) utxos)

abbrev pub new_tx : String → String → Option String → Option F64 → NewBroadcastTx
new_tx hex network label fee = record {
  tx_hex = hex;
  network = network;
  nlocktime = none;
  broadcast_mode = none;
  scheduled_time = none;
  target_fee_rate = none;
  source_label = label;
  destination_address = none;
  utxo_count = some 1;
  total_value_btc = fee;
  replacement_of = none;
}

-- Those with a hex.
unfoldable pub with_hex : List SparrowTransactionExport → List NewBroadcastTx
with_hex [] = []
with_hex (tx ∷ txs) = elim tx.hex [
  | none ↦ with_hex txs
  | some hex ↦ new_tx hex "signet" tx.label tx.fee ∷ with_hex txs
]

abbrev single : SparrowTransactionExport → Result (List NewBroadcastTx)
single tx = elim tx.hex [
  | none ↦ err "Transaction JSON does not contain hex data"
  | some hex ↦ ok (new_tx hex "signet" tx.label tx.fee ∷ [])
]

-- An array of transactions first, then a single one.
unfoldable pub import_signed_tx_from_json : File → Result (List NewBroadcastTx)
unfolding with_hex
import_signed_tx_from_json f = read_to_string f >>= λ content. elim (f.as_txs content) [
  | some txs ↦ ok (with_hex txs)
  | none ↦
      context (f.as_tx content) (concat ("Failed to parse transaction JSON: " ∷ f.path ∷ []))
      >>= single
]

unfoldable pub import_raw_tx_hex :
    (String → Option (List ℕ)) → String → String → Option String → Result NewBroadcastTx
import_raw_tx_hex hex_decode hex network label =
    context (hex_decode hex) "Invalid hex data" >>= λ raw. ok (new_tx hex network label none)
