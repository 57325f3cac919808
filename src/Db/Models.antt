-- ===== src/Db/Models.antt =====
-- sparrow-broadcast-pool/src/db/models.rs: the records of the store, and the text of a status.
use umbrel_apps.Prelude.{
  ℕ, String, Option, none, Bool, true, ◌≡◌, refl, sym, ap, ◌∙◌, eq_iff, str_eq, if◌then◌else◌,
}
use umbrel_apps.Prelude.Int.{ℤ}
use umbrel_apps.Prelude.Float.{F64}

-- Nanoseconds since the epoch. Text columns hold RFC 3339 in UTC, which sorts as the times do.
abbrev pub DateTime : Type 0
DateTime = ℕ

abbrev pub nanos_per_sec : ℕ
nanos_per_sec = 1_000_000_000

pub data TxStatus : Type 0 where
  pending scheduled broadcast confirmed expired failed : TxStatus

abbrev pub as_str : TxStatus → String
as_str pending = "pending"
as_str scheduled = "scheduled"
as_str broadcast = "broadcast"
as_str confirmed = "confirmed"
as_str expired = "expired"
as_str failed = "failed"

-- A text that is no status reads as `pending`.
pub from_str : String → TxStatus
from_str s =
    if str_eq s "pending"
    then pending
    else if str_eq s "scheduled"
    then scheduled
    else if str_eq s "broadcast"
    then broadcast
    else if str_eq s "confirmed"
    then confirmed
    else if str_eq s "expired"
    then expired
    else if str_eq s "failed"
    then failed
    else pending

-- A row of the table broadcast_pool. `status` is the value of the text in the column.
pub record Row : Type 0 where
  pub id : String
  pub tx_hex : String
  pub txid : Option String
  pub status : TxStatus
  pub network : String
  pub nlocktime : Option ℕ
  pub broadcast_mode : Option String
  pub scheduled_time : Option DateTime
  pub broadcast_at : Option DateTime
  pub confirmed_at : Option DateTime
  pub block_height : Option ℕ
  pub target_fee_rate : Option F64
  pub actual_fee_rate : Option F64
  pub source_label : Option String
  pub destination_address : Option String
  pub utxo_count : ℕ
  pub total_value_btc : F64
  pub replacement_of : Option String
  pub error_message : Option String
  pub retry_count : ℕ
  pub broadcast_missed_at : Option DateTime
  pub original_scheduled_time : Option DateTime
  pub defer_until : Option DateTime
  pub schedule_trigger : Option String
  pub target_price : Option F64
  pub price_currency : Option String
  pub price_condition : Option String
  pub created_at : DateTime
  pub updated_at : DateTime

-- A row as it is handed to the user: the columns, and what `enrich_tx_locktime` adds.
pub record BroadcastTx : Type 0 where
  pub row : Row
  pub open row use *
  pub locktime_waiting : Option Bool
  pub locktime_deferred : Option Bool
  pub can_reschedule : Option Bool
  pub chain_mtp : Option ℕ
  pub locktime_target : Option ℕ
  pub locktime_remaining_secs : Option ℤ
  pub locktime_satisfied : Option Bool
  pub current_btc_price : Option F64

abbrev pub map_broadcast_row : Row → BroadcastTx
map_broadcast_row r = record {
  row = r;
  locktime_waiting = none;
  locktime_deferred = none;
  can_reschedule = none;
  chain_mtp = none;
  locktime_target = none;
  locktime_remaining_secs = none;
  locktime_satisfied = none;
  current_btc_price = none;
}

pub record NewBroadcastTx : Type 0 where
  pub tx_hex : String
  pub network : String
  pub nlocktime : Option ℕ
  pub broadcast_mode : Option String
  pub scheduled_time : Option DateTime
  pub target_fee_rate : Option F64
  pub source_label : Option String
  pub destination_address : Option String
  pub utxo_count : Option ℕ
  pub total_value_btc : Option F64
  pub replacement_of : Option String

pub record PoolStats : Type 0 where
  pub total_transactions : ℕ
  pub pending : ℕ
  pub scheduled : ℕ
  pub broadcast : ℕ
  pub confirmed : ℕ
  pub failed : ℕ
  pub total_value_btc : F64

-- The text of a status is read back as that status, so a test on the text is a test on the status.
pub from_str-as_str : (s : TxStatus) → from_str (as_str s) ≡ s
unfolding from_str
from_str-as_str pending = refl
from_str-as_str scheduled = refl
from_str-as_str broadcast = refl
from_str-as_str confirmed = refl
from_str-as_str expired = refl
from_str-as_str failed = refl

-- Equality of statuses, as the texts compare.
abbrev pub is_status : TxStatus → TxStatus → Bool
is_status a b = str_eq (as_str a) (as_str b)

pub status_eq : (s t : TxStatus) → is_status s t ≡ true → s ≡ t
status_eq s t h =
    sym (from_str-as_str s) ∙ ap from_str ((eq_iff (as_str s) (as_str t)).0 h) ∙ from_str-as_str t
