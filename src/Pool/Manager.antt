-- ===== src/Pool/Manager.antt =====
-- sparrow-broadcast-pool/src/pool/manager.rs: the manager's state and its virtual mempool, the
-- transactions that wallets see as pending. Mutexes are never poisoned here, and one call runs alone.
pub mod Mempool
use umbrel_apps.Prelude.{
  ℕ, ◌+◌, ◌%◌, ◌^◌, String, Option, none, some, Bool, true, false, not, ◌||◌, List, [], ◌∷◌, ◌++◌,
  map, str_eq, is_empty, ◌==◌, if◌then◌else◌, is_some, filter, any, to_lowercase, trim,
}
use umbrel_apps.VirtualMempool.Txid.{Hex, alternate_txid_format}
use umbrel_apps.Prelude.Maps.{lookup, insert, remove}
use umbrel_apps.Prelude.Float.{F64}
use umbrel_apps.Db.Models.{DateTime}
use umbrel_apps.Db.Table
use umbrel_apps.Db.Table.{Table}
use umbrel_apps.Pool.Backend.{MtpCache}
use umbrel_apps.Price.{PriceFeed}
use umbrel_apps.Config.{BroadcastMode}

pub record PendingTxOutput : Type 0 where
  pub output_index : ℕ
  pub value : ℕ  -- u64, satoshis
  pub scripthash : String

pub record PendingTxInfo : Type 0 where
  pub tx_hex : String
  pub scripthashes : List String
  pub outputs : List PendingTxOutput

-- The part of config.rs's Config that the manager reads.
pub record Config : Type 0 where
  pub network : String  -- network_type.data_dir_name()
  pub rebroadcast_interval_minutes : ℕ
  pub broadcast_mode : BroadcastMode
  pub scheduled_datetime : Option String
  pub min_delay_hours : ℕ
  pub max_delay_hours : ℕ
  pub min_fee_rate : F64
  pub max_fee_rate : F64

-- `scripthash_notifications` lists what was sent on the channel, the oldest first. `utxo_links` has
-- the column broadcast_pool_id of the table migration_utxos, which the manager never writes.
pub record PoolManager : Type 0 where
  pub db : Table
  pub config : Config
  pub pending_txs : List (String × PendingTxInfo)
  pub mtp_cache : MtpCache
  pub cached_chain_tip : Option (ℕ × String)
  pub price_feed : PriceFeed
  pub scripthash_notifications : List String
  pub utxo_links : List String

-- A tip of height 0 or with no header is not kept.
unfoldable pub cache_chain_tip : ℕ → String → PoolManager → PoolManager
cache_chain_tip height hex m =
    if height == 0 || is_empty hex then m else record m { cached_chain_tip = some (height, hex) }

unfoldable pub store_pending_tx :
    String → String → List String → List PendingTxOutput → PoolManager → PoolManager
store_pending_tx txid tx_hex scripthashes outputs m = record m {
  pending_txs = insert txid info m.pending_txs;
  scripthash_notifications = m.scripthash_notifications ++ scripthashes;
}
  where
    info : PendingTxInfo
    info = record { tx_hex = tx_hex; scripthashes = scripthashes; outputs = outputs }

abbrev pub mentions : List String → String → Bool
mentions xs s = any (λ x. str_eq x s) xs

-- The scripthashes of `extra` that are not yet there, in order.
unfoldable pub merge_scripthashes : List String → List String → List String
merge_scripthashes have [] = have
merge_scripthashes have (sh ∷ extra) =
    merge_scripthashes (if mentions have sh then have else have ++ (sh ∷ [])) extra

unfoldable pub merge_info : List String → PendingTxInfo → PendingTxInfo
merge_info extra info = record info { scripthashes = merge_scripthashes info.scripthashes extra }

unfoldable pub merge_pending_scripthashes : String → List String → PoolManager → PoolManager
unfolding merge_info
merge_pending_scripthashes txid extra m = elim (lookup txid m.pending_txs) [
  | none ↦ m
  | some info ↦ record m { pending_txs = insert txid (merge_info extra info) m.pending_txs }
]

unfoldable pub get_pending_tx_hex : String → PoolManager → Option String
get_pending_tx_hex txid m = elim (lookup txid m.pending_txs) [
  | none ↦ none
  | some info ↦ some info.tx_hex
]

unfoldable pub has_pending_tx : String → PoolManager → Bool
unfolding get_pending_tx_hex
has_pending_tx txid m = is_some (get_pending_tx_hex txid m)

abbrev pub has_scripthash : String → String × PendingTxInfo → Bool
has_scripthash sh (txid, info) = mentions info.scripthashes sh

abbrev pub txid_of : String × PendingTxInfo → String
txid_of (txid, info) = txid

unfoldable pub get_pending_txids_for_scripthash : String → PoolManager → List String
get_pending_txids_for_scripthash sh m = map txid_of (filter (has_scripthash sh) m.pending_txs)

unfoldable pub has_pending_for_scripthash : String → PoolManager → Bool
unfolding get_pending_txids_for_scripthash
has_pending_for_scripthash sh m = elim (get_pending_txids_for_scripthash sh m) [
  | [] ↦ false
  | _ ∷ _ ↦ true
]

-- The outputs of one tx that pay to a scripthash, as (txid, index, value).
unfoldable pub utxos_of_outputs : String → String → List PendingTxOutput → List (String × ℕ × ℕ)
utxos_of_outputs sh txid [] = []
utxos_of_outputs sh txid (o ∷ os) =
    let rest = utxos_of_outputs sh txid os in
    if str_eq o.scripthash sh then (txid, o.output_index, o.value) ∷ rest else rest

unfoldable pub utxos_of_pending : String → List (String × PendingTxInfo) → List (String × ℕ × ℕ)
utxos_of_pending sh [] = []
utxos_of_pending sh ((txid, info) ∷ ps) =
    utxos_of_outputs sh txid info.outputs ++ utxos_of_pending sh ps

unfoldable pub get_pending_utxos_for_scripthash : String → PoolManager → List (String × ℕ × ℕ)
get_pending_utxos_for_scripthash sh m = utxos_of_pending sh m.pending_txs

-- `total += output.value` on u64, which wraps in a release build.
abbrev pub u64_mod : ℕ
u64_mod = 2 ^ 64

unfoldable pub add_outputs : String → ℕ → List PendingTxOutput → ℕ
add_outputs sh total [] = total
add_outputs sh total (o ∷ os) =
    add_outputs sh (if str_eq o.scripthash sh then (total + o.value) % u64_mod else total) os

unfoldable pub add_pending : String → ℕ → List (String × PendingTxInfo) → ℕ
add_pending sh total [] = total
add_pending sh total ((txid, info) ∷ ps) = add_pending sh (add_outputs sh total info.outputs) ps

unfoldable pub get_pending_unconfirmed_value : String → PoolManager → ℕ
get_pending_unconfirmed_value sh m = add_pending sh 0 m.pending_txs

-- The scripthashes of the removed tx are returned, and each is notified.
unfoldable pub remove_pending_tx : String → PoolManager → PoolManager × List String
remove_pending_tx txid m = elim (lookup txid m.pending_txs) [
  | none ↦ (m, [])
  | some info ↦ (
    record m {
      pending_txs = remove txid m.pending_txs;
      scripthash_notifications = m.scripthash_notifications ++ info.scripthashes;
    },
    info.scripthashes,
  )
]

unfoldable pub mark_broadcast : String → String → F64 → DateTime → PoolManager → PoolManager
mark_broadcast id txid fee_rate now m =
    (remove_pending_tx txid (record m { db = Table.mark_broadcast id txid fee_rate now m.db })).0

unfoldable pub first_some : List (Option String) → Option String
first_some [] = none
first_some (none ∷ os) = first_some os
first_some (some s ∷ os) = some s

abbrev try_alternate : (String → Option String) → Option String → Option String
try_alternate find none = none
try_alternate find (some alt) = find alt

-- The hex of a tx: from the virtual mempool, then from the store, each under both byte orders of
-- its txid.
unfoldable pub lookup_tx_hex : Hex → String → PoolManager → Option String
unfolding first_some
lookup_tx_hex hex txid m =
    let normalized = to_lowercase (trim txid) in
    let pending = λ (id : String). get_pending_tx_hex id m in
    let stored = λ (id : String). Table.get_tx_hex_by_txid id m.db in
    first_some (
      pending normalized
      ∷ try_alternate pending (alternate_txid_format hex normalized)
      ∷ stored normalized
      ∷ try_alternate stored (alternate_txid_format hex normalized)
      ∷ [])
