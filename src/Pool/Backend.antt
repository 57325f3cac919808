-- ===== src/Pool/Backend.antt =====
-- What pool/manager.rs reads from the indexer and from Bitcoin Core, and its cache of the median
-- time past. A `Backend` holds the answers that the two give during one call of the manager.
pub mod Mtp
use umbrel_apps.Prelude.{
  ℕ, ◌-◌, ◌*◌, ◌<◌, String, Option, none, some, Bool, true, false, Result, ok, err, ◌>>=◌, ok_or,
  get_or, ltb, leb, ◌==◌, if◌then◌else◌,
}
use umbrel_apps.Db.Models.{nanos_per_sec}

-- The methods of rpc/electrum.rs's ElectrumClient that the manager calls.
pub record Indexer : Type 0 where
  pub broadcast_transaction : String → Result String
  pub get_block_height : Result ℕ
  pub get_median_time_past : Result ℕ

-- The methods of rpc/client.rs's BitcoinRpc; `get_transaction` answers with the block's hash.
pub record Rpc : Type 0 where
  pub broadcast_transaction : String → Result String
  pub get_block_count : Result ℕ
  pub get_median_time : Result ℕ
  pub get_transaction : String → Result (Option String)
  pub test_connection : Result Bool

pub record Backend : Type 0 where
  pub indexer : Option Indexer
  pub rpc : Option Rpc

-- The wall clock and the monotonic one, in nanoseconds, as one call of the manager reads them.
pub record Clock : Type 0 where
  pub utc : ℕ
  pub instant : ℕ

-- `test_connection` of the indexer: it has a block height.
abbrev pub indexer_test_connection : Indexer → Result Bool
indexer_test_connection i = i.get_block_height >>= λ _. ok true

unfoldable pub indexer_healthy : Backend → Bool
indexer_healthy b = elim b.indexer [
  | some i ↦ ok_or (indexer_test_connection i) false
  | none ↦ elim b.rpc [ some r ↦ ok_or r.test_connection false | none ↦ false ]
]

-- The answer of Bitcoin Core, asked after an indexer that failed with `e` or is missing.
rpc_broadcast : Option Rpc → String → String → Result String
rpc_broadcast none tx_hex e = err e
rpc_broadcast (some r) tx_hex e = r.broadcast_transaction tx_hex

indexer_broadcast : Option Indexer → Option Rpc → String → Result String
unfolding rpc_broadcast
indexer_broadcast none r tx_hex =
    rpc_broadcast r tx_hex "No broadcast backend available (neither Indexer nor RPC)"
indexer_broadcast (some i) r tx_hex = elim (i.broadcast_transaction tx_hex) [
  | ok txid ↦ ok txid
  | err e ↦ rpc_broadcast r tx_hex e
]

-- The indexer first, then Bitcoin Core.
unfoldable pub broadcast_transaction : Backend → String → Result String
unfolding indexer_broadcast
broadcast_transaction b tx_hex = indexer_broadcast b.indexer b.rpc tx_hex

rpc_height : Option Rpc → Option ℕ
rpc_height none = none
rpc_height (some r) = elim r.get_block_count [ ok h ↦ some h | err e ↦ none ]

unfoldable pub check_block_height : Backend → Option ℕ
unfolding rpc_height
check_block_height b = elim b.indexer [
  | none ↦ rpc_height b.rpc
  | some i ↦ elim i.get_block_height [ ok h ↦ some h | err e ↦ rpc_height b.rpc ]
]

indexer_mtp : Option Indexer → Result ℕ
indexer_mtp none = err "No backend available to read median time past"
indexer_mtp (some i) = i.get_median_time_past

-- Bitcoin Core where it answers, else the indexer.
unfoldable pub get_median_time_past : Backend → Result ℕ
unfolding indexer_mtp
get_median_time_past b = elim b.rpc [
  | none ↦ indexer_mtp b.indexer
  | some r ↦ if ok_or r.test_connection false then r.get_median_time else indexer_mtp b.indexer
]

-- When the median time past was fetched, and its value.
abbrev pub MtpCache : Type 0
MtpCache = Option (ℕ × ℕ)

abbrev pub mtp_ttl : ℕ
mtp_ttl = 10 * nanos_per_sec

abbrev pub fresh_mtp : Clock → MtpCache → Option ℕ
fresh_mtp now none = none
fresh_mtp now (some (fetched_at, mtp)) =
    if ltb (now.instant - fetched_at) mtp_ttl then some mtp else none

unfoldable pub get_median_time_past_cached : Backend → Clock → MtpCache → MtpCache × Result ℕ
get_median_time_past_cached b now cache = elim (fresh_mtp now cache) [
  | some mtp ↦ (cache, ok mtp)
  | none ↦ elim (get_median_time_past b) [
    | ok mtp ↦ (some (now.instant, mtp), ok mtp)
    | err e ↦ (cache, err e)
  ]
]

-- nLockTime values above this one are times, the others heights.
abbrev pub locktime_threshold : ℕ
locktime_threshold = 500_000_000

height_satisfied : Option ℕ → ℕ → Bool
height_satisfied none n = false
height_satisfied (some height) n = leb n height

abbrev pub map_result {ℓ κ} : {A : Type ℓ} {B : Type κ} → (A → B) → Result A → Result B
map_result f (ok a) = ok (f a)
map_result f (err e) = err e

unfoldable pub is_locktime_satisfied :
    Backend → Clock → MtpCache → Option ℕ → MtpCache × Result Bool
unfolding height_satisfied
is_locktime_satisfied b now cache nlocktime =
    let n = get_or nlocktime 0 in
    if n == 0
    then (cache, ok true)
    else if ltb locktime_threshold n
    then (let (cache', mtp) = get_median_time_past_cached b now cache in
        (cache', map_result (leb n) mtp))
    else (cache, ok (height_satisfied (check_block_height b) n))
