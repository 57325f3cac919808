-- ===== src/Examples.antt =====
-- A small pool, and the theorems of the library applied to it.
pub mod Tick
pub mod Schedule
pub mod Rounds
pub mod Wallets
pub mod Prices
pub mod Store
pub mod Server
pub mod Sessions
pub mod Discoveries
pub mod Restarts
pub mod Migrations
pub mod Passes
use umbrel_apps.Prelude.{
  ℕ, ◌*◌, true, String, Option, none, some, List, [], ◌∷◌, Result, ok, err, str_eq, if◌then◌else◌,
}
use umbrel_apps.Prelude.Float.{F64, of_ℕ}
use umbrel_apps.Db.Models.{
  DateTime, nanos_per_sec, TxStatus, pending, scheduled, broadcast, failed, Row,
}
use umbrel_apps.Db.Table.{Table}
use umbrel_apps.Pool.Backend.{Backend, Clock, Indexer, Rpc}
use umbrel_apps.Pool.Manager.{PoolManager, Config}
use umbrel_apps.Price.{PriceFeed}
use umbrel_apps.Config.{immediate}

abbrev pub now : Clock
now = record { utc = 1_750_000_000 * nanos_per_sec; instant = 5 * nanos_per_sec }

-- A node at height 900000 that accepts the hex "aa".
abbrev pub indexer : Indexer
indexer = record {
  broadcast_transaction = λ hex. if str_eq hex "aa" then ok "t1" else err "bad-txns";
  get_block_height = ok 900_000;
  get_median_time_past = ok 1_749_990_000;
}

abbrev pub rpc : Rpc
rpc = record {
  broadcast_transaction = λ hex. err "not reachable";
  get_block_count = ok 900_000;
  get_median_time = ok 1_749_990_000;
  get_transaction = λ txid. if str_eq txid "t3" then ok (some "blockhash") else ok none;
  test_connection = ok true;
}

abbrev pub node : Backend
node = record { indexer = some indexer; rpc = some rpc }

-- A transaction that waits for nothing but a locktime that is met.
abbrev pub ripe : Row
ripe = record {
  id = "tx-1";
  tx_hex = "aa";
  txid = none;
  status = scheduled;
  network = "mainnet";
  nlocktime = some 1_700_000_000;
  broadcast_mode = some "scheduled";
  scheduled_time = some (1_740_000_000 * nanos_per_sec);
  broadcast_at = none;
  confirmed_at = none;
  block_height = none;
  target_fee_rate = some (of_ℕ 2);
  actual_fee_rate = none;
  source_label = none;
  destination_address = none;
  utxo_count = 1;
  total_value_btc = of_ℕ 1;
  replacement_of = none;
  error_message = none;
  retry_count = 0;
  broadcast_missed_at = none;
  original_scheduled_time = none;
  defer_until = none;
  schedule_trigger = some "datetime";
  target_price = none;
  price_currency = none;
  price_condition = none;
  created_at = 1;
  updated_at = 1;
}

abbrev pub manual : Row
manual = record ripe {
  id = "tx-2";
  tx_hex = "bb";
  status = pending;
  nlocktime = some 0;
  broadcast_mode = some "manual";
  scheduled_time = none;
  created_at = 2;
}

abbrev pub sent_out : Row
sent_out = record ripe {
  id = "tx-3";
  txid = some "t3";
  status = broadcast;
  broadcast_at = some (1_741_000_000 * nanos_per_sec);
  created_at = 3;
}

abbrev pub refused : Row
refused = record ripe {
  id = "tx-4";
  tx_hex = "dd";
  status = failed;
  nlocktime = some 0;
  error_message = some "bad-txns-inputs-missingorspent";
  created_at = 4;
}

abbrev pub pool : Table
pool = ripe ∷ manual ∷ sent_out ∷ refused ∷ []

abbrev pub config : Config
config = record {
  network = "mainnet";
  rebroadcast_interval_minutes = 30;
  broadcast_mode = immediate;
  scheduled_datetime = none;
  min_delay_hours = 1;
  max_delay_hours = 24;
  min_fee_rate = of_ℕ 1;
  max_fee_rate = of_ℕ 10;
}

abbrev pub manager : PoolManager
manager = record {
  db = pool;
  config = config;
  pending_txs = [];
  mtp_cache = none;
  cached_chain_tip = none;
  price_feed = record { cache = none; lkg = none };
  scripthash_notifications = [];
  utxo_links = [];
}
