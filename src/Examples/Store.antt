-- ===== src/Examples/Store.antt =====
-- The theorems on the store, applied to a small pool.
use umbrel_apps.Prelude.{◌&&◌, false, ◌≡◌, length, filter, str_eq}
use umbrel_apps.Prelude.Float.{F64}
use umbrel_apps.Db.Models.{TxStatus, expired, is_status}
use umbrel_apps.Db.Stats.{get_pool_stats}
use umbrel_apps.Db.Stats.Counts.{number_of, get_pool_stats-counts}
use umbrel_apps.Examples.{pool}

abbrev keep_first : F64 → F64 → F64
keep_first a b = a

get_pool_stats-counts_example :
    ((get_pool_stats keep_first "mainnet" pool).total_transactions
      ≡ length (filter (λ r. str_eq r.network "mainnet") pool))
    × ((st : TxStatus)
        → is_status st expired ≡ false
        → number_of st (get_pool_stats keep_first "mainnet" pool)
          ≡ length (filter (λ r. str_eq r.network "mainnet" && is_status r.status st) pool))
get_pool_stats-counts_example = get_pool_stats-counts keep_first "mainnet" pool
