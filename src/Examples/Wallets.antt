-- ===== src/Examples/Wallets.antt =====
-- The theorems on the virtual mempool, applied to a small pool.
use umbrel_apps.Prelude.{List, ◌%◌, true, [], ◌∷◌, ◌≡◌, refl}
use umbrel_apps.Pool.Manager.Mempool.{sum_values, get_pending_unconfirmed_value-sum}
use umbrel_apps.Prelude.Json.{Json}
use umbrel_apps.Pool.Manager.{
  PoolManager, PendingTxOutput, store_pending_tx, get_pending_unconfirmed_value,
  get_pending_utxos_for_scripthash, u64_mod, get_pending_txids_for_scripthash,
}
use umbrel_apps.VirtualMempool.Inject.{has_tx, inject_in_history, pending_entry, utxo_entry}
use umbrel_apps.VirtualMempool.Inject.Shown.{inject_in_history-store_pending_tx}
use umbrel_apps.Examples.{manager}

abbrev output : PendingTxOutput
output = record { output_index = 0; value = 5_000; scripthash = "s1" }

holding : PoolManager
holding = store_pending_tx "t1" "aa" ("s1" ∷ []) (output ∷ []) manager

get_pending_unconfirmed_value-sum_example :
    get_pending_unconfirmed_value "s1" holding
    ≡ sum_values (get_pending_utxos_for_scripthash "s1" holding) % u64_mod
get_pending_unconfirmed_value-sum_example = get_pending_unconfirmed_value-sum "s1" holding

abbrev history : List Json
history = pending_entry "t0" ∷ []

inject_in_history-store_pending_tx_example :
    has_tx
      (inject_in_history history (
        get_pending_txids_for_scripthash "s1"
          (store_pending_tx "t1" "aa" ("s1" ∷ []) (output ∷ []) manager)))
      "t1"
    ≡ true
inject_in_history-store_pending_tx_example =
    inject_in_history-store_pending_tx history "t1" "aa" "s1" ("s1" ∷ []) (output ∷ []) manager refl

abbrev utxos : List Json
utxos = utxo_entry "t0" 1 7_000 ∷ []
