-- ===== src/VirtualMempool/Inject.antt =====
-- sparrow-broadcast-pool/src/pool/virtual_mempool.rs: pending transactions in the answers of the
-- indexer. A set is the list of what was put into it.
pub mod Shown
pub mod Outputs
use umbrel_apps.Prelude.{
  ℕ, ◌+◌, ◌%◌, ◌^◌, String, Option, none, some, Bool, true, false, not, ◌&&◌, List, [], ◌∷◌, ◌++◌,
  str_eq, opt_is, any, get_or, ◌==◌, if◌then◌else◌,
}
use umbrel_apps.Prelude.Int.{ℤ, pos, ◌+ℤ◌}
use umbrel_apps.Prelude.Json.{
  Json, int, text, object, no_fields, field, get, as_str, as_i64, as_u64, wrap_i64, wrap_ℤ,
}

abbrev pub tx_hash_of : Json → Option String
tx_hash_of entry = elim (get "tx_hash" entry) [ none ↦ none | some v ↦ as_str v ]

-- Whether a history has a tx.
abbrev pub has_tx : List Json → String → Bool
has_tx history txid = any (λ entry. opt_is (tx_hash_of entry) txid) history

abbrev pub pending_entry : String → Json
pending_entry txid = object (field "tx_hash" (text txid) (field "height" (int (pos 0)) no_fields))

-- The loop over the pending txids; `existing` is the history as it came.
unfoldable pub push_pending : List Json → List String → List Json → List Json
push_pending existing [] result = result
push_pending existing (txid ∷ txids) result =
    push_pending existing txids
      (if has_tx existing txid then result else result ++ (pending_entry txid ∷ []))

-- Inject pending txids into a get_history response (height 0 = mempool).
unfoldable pub inject_in_history : List Json → List String → List Json
unfolding push_pending
inject_in_history history pending_txids = push_pending history pending_txids history

abbrev pub number_at : String → Json → ℤ
number_at key balance = elim (get key balance) [ none ↦ pos 0 | some v ↦ get_or (as_i64 v) (pos 0) ]

-- Add pending output value to the unconfirmed field of a balance.
unfoldable pub inject_balance_unconfirmed : Json → ℕ → Json
inject_balance_unconfirmed balance extra_sat =
    if extra_sat == 0
    then balance
    else object (
        field "confirmed" (int (number_at "confirmed" balance)) (
          field "unconfirmed" (int (wrap_ℤ (number_at "unconfirmed" balance +ℤ wrap_i64 extra_sat)))
            no_fields))

-- The output that an entry of listunspent names: its tx and its position, as `u32`.
abbrev pub tx_pos_of : Json → Option ℕ
tx_pos_of entry = elim (get "tx_pos" entry) [
  | none ↦ none
  | some v ↦ elim (as_u64 v) [ none ↦ none | some n ↦ some (n % 2 ^ 32) ]
]

abbrev pub is_output : Option String → Option ℕ → String → ℕ → Bool
is_output none o txid n = false
is_output (some t) none txid n = false
is_output (some t) (some k) txid n = str_eq t txid && k == n

abbrev pub has_output : List Json → String → ℕ → Bool
has_output utxos txid tx_pos = any (λ u. is_output (tx_hash_of u) (tx_pos_of u) txid tx_pos) utxos

abbrev pub utxo_entry : String → ℕ → ℕ → Json
utxo_entry txid tx_pos value = object (
    field "tx_hash" (text txid) (
      field "tx_pos" (int (pos tx_pos))
        (field "height" (int (pos 0)) (field "value" (int (pos value)) no_fields))))

unfoldable pub push_utxos : List Json → List (String × ℕ × ℕ) → List Json → List Json
push_utxos existing [] result = result
push_utxos existing ((txid, tx_pos, value) ∷ pending) result = push_utxos existing pending (
    if has_output existing txid tx_pos
    then result
    else result ++ (utxo_entry txid tx_pos value ∷ []))

-- Inject pending UTXOs into listunspent (height 0 = mempool).
unfoldable pub inject_listunspent : List Json → List (String × ℕ × ℕ) → List Json
unfolding push_utxos
inject_listunspent utxos pending = push_utxos utxos pending utxos
