-- ===== src/Db/Table.antt =====
-- sparrow-broadcast-pool/src/db/mod.rs: the statements on the table broadcast_pool.
-- A table is its rows in the order of insertion. A statement that fails in the code for no reason
-- of its own (a poisoned lock, a full disk) succeeds here.
pub mod Update
pub mod Select
pub mod Listing
use umbrel_apps.Prelude.{
  ℕ, ◌+◌, ◌*◌, ◌-◌, ◌%◌, ◌^◌, String, Option, none, some, Bool, true, false, not, ◌&&◌, ◌||◌, List,
  [], ◌∷◌, ◌++◌, Result, ok, err, context, get_or, or_else, is_some, str_eq, opt_is, concat, ltb,
  leb, ◌==◌, if◌then◌else◌, filter, any, take, length,
}
use umbrel_apps.Prelude.Float.{F64, of_ℕ}
use umbrel_apps.Db.Models.{
  DateTime, nanos_per_sec, TxStatus, pending, scheduled, broadcast, confirmed, failed, as_str,
  is_status, Row, NewBroadcastTx,
}

abbrev pub Table : Type 0
Table = List Row

-- SELECT … WHERE id = ?1, the first row.
unfoldable pub get_broadcast_tx_by_id : String → Table → Result Row
get_broadcast_tx_by_id id [] = err "Failed to get broadcast tx"
get_broadcast_tx_by_id id (r ∷ t) = if str_eq r.id id then ok r else get_broadcast_tx_by_id id t

-- UPDATE broadcast_pool SET … WHERE id = ?.
unfoldable pub update_where : String → (Row → Row) → Table → Table
update_where id set [] = []
update_where id set (r ∷ t) = (if str_eq r.id id then set r else r) ∷ update_where id set t

unfoldable pub new_row : String → DateTime → NewBroadcastTx → Row
new_row id now tx = record {
  id = id;
  tx_hex = tx.tx_hex;
  txid = none;
  status = pending;
  network = tx.network;
  nlocktime = some (get_or tx.nlocktime 0);
  broadcast_mode = some (get_or tx.broadcast_mode "immediate");
  scheduled_time = tx.scheduled_time;
  broadcast_at = none;
  confirmed_at = none;
  block_height = none;
  target_fee_rate = tx.target_fee_rate;
  actual_fee_rate = none;
  source_label = tx.source_label;
  destination_address = tx.destination_address;
  utxo_count = get_or tx.utxo_count 1;
  total_value_btc = get_or tx.total_value_btc (of_ℕ 0);
  replacement_of = tx.replacement_of;
  error_message = none;
  retry_count = 0;
  broadcast_missed_at = none;
  original_scheduled_time = none;
  defer_until = none;
  schedule_trigger = some "datetime";
  target_price = none;
  price_currency = none;
  price_condition = none;
  created_at = now;
  updated_at = now;
}

abbrev pub has_id : String → Row → Bool
has_id id r = str_eq r.id id

-- `id` is what `Uuid::new_v4` returned; the primary key refuses one that is taken.
unfoldable pub insert_broadcast_tx :
    String → DateTime → NewBroadcastTx → Table → Result (Table × Row)
insert_broadcast_tx id now tx t =
    if any (has_id id) t
    then err "Failed to insert broadcast tx"
    else ok (t ++ (new_row id now tx ∷ []), new_row id now tx)

-- ORDER BY created_at DESC.
unfoldable pub insert_desc : Row → Table → Table
insert_desc r [] = r ∷ []
insert_desc r (s ∷ t) =
    let rest = insert_desc r t in if leb s.created_at r.created_at then r ∷ s ∷ t else s ∷ rest

unfoldable pub order_desc : Table → Table
order_desc [] = []
order_desc (r ∷ t) = insert_desc r (order_desc t)

abbrev pub matches_filter : Option String → String → Row → Bool
matches_filter none network r = str_eq r.network network
matches_filter (some status) network r = str_eq r.network network && str_eq (as_str r.status) status

unfoldable pub list_broadcast_txs : Option String → String → ℕ → Table → Table
list_broadcast_txs status network limit t =
    take limit (order_desc (filter (matches_filter status network) t))

unfoldable pub set_status : TxStatus → Option String → DateTime → Row → Row
set_status status error now r = record r {
  status = status;
  error_message = error;
  updated_at = now;
}

unfoldable pub update_tx_status : String → TxStatus → Option String → DateTime → Table → Table
unfolding set_status
update_tx_status id status error now = update_where id (set_status status error now)

-- Move a failed tx back to scheduled so the scheduler can retry broadcast.
unfoldable pub set_retry : DateTime → Row → Row
set_retry now r =
    if is_status r.status failed
    then record r { status = scheduled; error_message = none; updated_at = now }
    else r

unfoldable pub reset_failed_to_scheduled : String → DateTime → Table → Result Table
unfolding set_retry
reset_failed_to_scheduled id now t =
    if any (λ r. has_id id r && is_status r.status failed) t
    then ok (update_where id (set_retry now) t)
    else err (concat ("Transaction " ∷ id ∷ " is not in failed state" ∷ []))

unfoldable pub set_broadcast : String → F64 → DateTime → Row → Row
set_broadcast txid fee_rate now r = record r {
  status = broadcast;
  txid = some txid;
  actual_fee_rate = some fee_rate;
  broadcast_at = some now;
  updated_at = now;
  broadcast_missed_at = none;
  defer_until = none;
}

unfoldable pub mark_broadcast : String → String → F64 → DateTime → Table → Table
unfolding set_broadcast
mark_broadcast id txid fee_rate now = update_where id (set_broadcast txid fee_rate now)

-- The hex of a tx by its txid, while it is pending or scheduled.
unfoldable pub get_tx_hex_by_txid : String → Table → Option String
get_tx_hex_by_txid txid [] = none
get_tx_hex_by_txid txid (r ∷ t) =
    if opt_is r.txid txid && (is_status r.status pending || is_status r.status scheduled)
    then some r.tx_hex
    else get_tx_hex_by_txid txid t

unfoldable pub set_confirmed : ℕ → DateTime → Row → Row
set_confirmed height now r = record r {
  status = confirmed;
  block_height = some height;
  confirmed_at = some now;
  updated_at = now;
}

unfoldable pub mark_confirmed : String → ℕ → DateTime → Table → Table
unfolding set_confirmed
mark_confirmed id height now = update_where id (set_confirmed height now)

abbrev pub is_scheduled_on : String → Row → Bool
is_scheduled_on network r = is_status r.status scheduled && str_eq r.network network

unfoldable pub get_due_transactions : String → Table → Table
get_due_transactions network = filter (is_scheduled_on network)

-- The first miss is kept: a row that has one does not change.
unfoldable pub set_miss : DateTime → Option DateTime → DateTime → Row → Row
set_miss missed_at original now r = if is_some r.broadcast_missed_at then r else record r {
  broadcast_missed_at = some missed_at;
  original_scheduled_time = or_else r.original_scheduled_time original;
  updated_at = now;
}

unfoldable pub record_broadcast_miss :
    String → DateTime → Option DateTime → DateTime → Table → Table
unfolding set_miss
record_broadcast_miss id missed_at original now = update_where id (set_miss missed_at original now)

unfoldable pub set_reschedule : DateTime → Option DateTime → F64 → DateTime → Row → Row
set_reschedule time defer fee_rate now r = record r {
  status = scheduled;
  scheduled_time = some time;
  defer_until = defer;
  target_fee_rate = some fee_rate;
  error_message = none;
  schedule_trigger = some "datetime";
  target_price = none;
  price_currency = none;
  price_condition = none;
  updated_at = now;
}

unfoldable pub update_reschedule :
    String → DateTime → Option DateTime → F64 → DateTime → Table → Table
unfolding set_reschedule
update_reschedule id time defer fee_rate now =
    update_where id (set_reschedule time defer fee_rate now)

unfoldable pub set_price : F64 → String → String → F64 → DateTime → Row → Row
set_price target currency condition fee_rate now r = record r {
  status = pending;
  scheduled_time = none;
  defer_until = none;
  target_fee_rate = some fee_rate;
  error_message = none;
  schedule_trigger = some "price";
  target_price = some target;
  price_currency = some currency;
  price_condition = some condition;
  updated_at = now;
}

unfoldable pub update_price_schedule :
    String → F64 → String → String → F64 → DateTime → Table → Table
unfolding set_price
update_price_schedule id target currency condition fee_rate now =
    update_where id (set_price target currency condition fee_rate now)

abbrev pub waits_on_price : String → Row → Bool
waits_on_price network r =
    (is_status r.status pending || is_status r.status scheduled)
    && opt_is r.schedule_trigger "price"
    && is_some r.target_price
    && str_eq r.network network

unfoldable pub get_price_triggered_pending : String → Table → Table
get_price_triggered_pending network = filter (waits_on_price network)

-- SQL's `nlocktime > 0 AND nlocktime < 500000000`; NULL fails both.
abbrev pub is_block_height : Option ℕ → Bool
is_block_height none = false
is_block_height (some n) = ltb 0 n && ltb n 500_000_000

abbrev pub waits_on_block : String → Row → Bool
waits_on_block network r =
    is_status r.status pending
    && opt_is r.broadcast_mode "by_block"
    && is_block_height r.nlocktime
    && str_eq r.network network

unfoldable pub get_pending_by_block_height : String → Table → Table
get_pending_by_block_height network = filter (waits_on_block network)

-- `t.is_some_and(|t| *t <= now)`.
abbrev pub time_reached : DateTime → Option DateTime → Bool
time_reached now none = false
time_reached now (some t) = leb t now

abbrev pub waits_on_time : DateTime → String → Row → Bool
waits_on_time now network r =
    is_status r.status pending
    && (opt_is r.broadcast_mode "scheduled" || opt_is r.broadcast_mode "manual")
    && is_some r.scheduled_time
    && str_eq r.network network
    && time_reached now r.scheduled_time

unfoldable pub get_pending_by_scheduled_time : DateTime → String → Table → Table
get_pending_by_scheduled_time now network = filter (waits_on_time now network)

-- `broadcast_at IS NULL OR broadcast_at < cutoff`.
abbrev pub sent_before : DateTime → Option DateTime → Bool
sent_before cutoff none = true
sent_before cutoff (some t) = ltb t cutoff

abbrev pub wants_rebroadcast : DateTime → String → Row → Bool
wants_rebroadcast cutoff network r =
    is_status r.status broadcast
    && not (is_some r.confirmed_at)
    && sent_before cutoff r.broadcast_at
    && str_eq r.network network

-- The interval before now, and not before the epoch. The minutes are a u64 that is read as an i32:
-- from 2 ^ 31 on they may be negative, and the time lies ahead.
abbrev pub cutoff : ℕ → DateTime → DateTime
cutoff interval_minutes now =
    let low = interval_minutes % 2 ^ 32 in
    if ltb low (2 ^ 31)
    then now - low * 60 * nanos_per_sec
    else now + (2 ^ 32 - low) * 60 * nanos_per_sec

unfoldable pub get_pending_rebroadcast : ℕ → String → DateTime → Table → Table
get_pending_rebroadcast interval_minutes network now =
    filter (wants_rebroadcast (cutoff interval_minutes now) network)

unfoldable pub set_due : DateTime → Row → Row
set_due now r = record r { status = scheduled; scheduled_time = some now; updated_at = now }

unfoldable pub mark_due : String → DateTime → Table → Table
unfolding set_due
mark_due id now = update_where id (set_due now)

-- Price trigger fired: ready for the broadcast loop.
unfoldable pub set_triggered : DateTime → Row → Row
set_triggered now r = record r {
  status = scheduled;
  scheduled_time = some now;
  schedule_trigger = some "datetime";
  updated_at = now;
}

unfoldable pub mark_due_from_price_trigger : String → DateTime → Table → Table
unfolding set_triggered
mark_due_from_price_trigger id now = update_where id (set_triggered now)

unfoldable pub mark_due_with_schedule : String → DateTime → DateTime → Table → Table
mark_due_with_schedule id time now =
    update_where id
      (λ r. record r { status = scheduled; scheduled_time = some time; updated_at = now })

-- DELETE, with the number of rows removed. It fails for a row to which a migration utxo refers:
-- `linked` says for which ids there is one.
unfoldable pub remove_broadcast_tx : (String → Bool) → String → Table → Result (Table × ℕ)
remove_broadcast_tx linked id t =
    if any (has_id id) t && linked id
    then err "Failed to remove broadcast tx"
    else ok (filter (λ r. not (has_id id r)) t, length (filter (has_id id) t))
