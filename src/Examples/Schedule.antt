-- ===== src/Examples/Schedule.antt =====
-- The theorems on schedules, applied to a small pool.
use umbrel_apps.Pool.Schedule.Accepted.{IsAllowed, IsScheduledFor, schedule_at-IsAllowed}
use umbrel_apps.Prelude.{
  ◌⊎◌, ℕ, ◌+◌, ◌*◌, none, some, true, false, [], ◌∷◌, ◌≡◌, refl, ok, is_ok, to_lowercase,
}
use umbrel_apps.Prelude.Int.{pos_part}
use umbrel_apps.Prelude.Float.{of_ℕ, le_f64}
use umbrel_apps.Db.Models.{Row, nanos_per_sec}
use umbrel_apps.Db.Table.{get_broadcast_tx_by_id, update_where, update_price_schedule}
use umbrel_apps.Pool.Enrich.{show_transaction}
use umbrel_apps.Pool.Schedule.{is_before_locktime, schedule_at, schedule_by_price}
use umbrel_apps.Pool.Schedule.Price.{schedule_by_price-ok, IsOneOf, MayWait, priced}
use umbrel_apps.Pool.Schedule.Delay.{Draws, Wish, hour}
use umbrel_apps.Pool.Due.{waits_for_price}
use umbrel_apps.Price.{Prices}
use umbrel_apps.Examples.{now, node, manual, sent_out, refused, pool, manager}

abbrev tomorrow : ℕ
tomorrow = 1_750_086_400 * nanos_per_sec

-- A transaction that is out already is taken back to `scheduled`.
sent_out_found : get_broadcast_tx_by_id "tx-3" pool ≡ ok sent_out
unfolding get_broadcast_tx_by_id
sent_out_found = refl

late_enough : is_before_locktime tomorrow sent_out ≡ false
unfolding is_before_locktime
late_enough = refl

too_early : is_ok (schedule_at node now "tx-3" 7 (of_ℕ 5) manager).1 ≡ false
unfolding schedule_at get_broadcast_tx_by_id
too_early = refl

manual_found : get_broadcast_tx_by_id "tx-2" pool ≡ ok manual
unfolding get_broadcast_tx_by_id
manual_found = refl

price_ok :
    is_ok (schedule_by_price node now "tx-2" (of_ℕ 90_000) "EUR" "Above" (of_ℕ 5) manager).1 ≡ true
unfolding schedule_by_price show_transaction get_broadcast_tx_by_id to_lowercase update_where of_ℕ
    update_price_schedule
price_ok = refl

schedule_by_price-ok_example :
    (le_f64 (of_ℕ 90_000) (of_ℕ 0) ≡ false)
    × IsOneOf "eur" "usd" "EUR"
    × IsOneOf "above" "below" "Above"
    × MayWait manual
    × (get_broadcast_tx_by_id "tx-2"
          (schedule_by_price node now "tx-2" (of_ℕ 90_000) "EUR" "Above" (of_ℕ 5) manager).0.db
        ≡ ok (priced (of_ℕ 90_000) "EUR" "Above" (of_ℕ 5) now.utc manual))
    × (waits_for_price (priced (of_ℕ 90_000) "EUR" "Above" (of_ℕ 5) now.utc manual) ≡ true)
schedule_by_price-ok_example =
    schedule_by_price-ok node now "tx-2" (of_ℕ 90_000) "EUR" "Above" (of_ℕ 5) manager manual
      manual_found price_ok

abbrev prices : Prices
prices = ("eur", of_ℕ 95_000) ∷ ("usd", of_ℕ 105_000) ∷ []

refused_found : get_broadcast_tx_by_id "tx-4" pool ≡ ok refused
unfolding get_broadcast_tx_by_id
refused_found = refl

-- A coin that always shows the least.
abbrev draws : Draws
draws = record {
  gen_hours = λ lowest highest. lowest;
  gen_rate = λ lowest highest. lowest;
  add_hours = λ t h. some (t + pos_part h * hour);
}

abbrev two_hours : Wish
two_hours = record {
  min_delay_hours = some 2;
  max_delay_hours = none;
  min_fee_rate = none;
  max_fee_rate = none;
  fixed_fee_rate = some (of_ℕ 3);
}

schedule_at-IsAllowed_example :
    (IsAllowed now.utc tomorrow sent_out
      × ((s : Row) × (get_broadcast_tx_by_id "tx-3"
              (schedule_at node now "tx-3" tomorrow (of_ℕ 5) manager).0.db
            ≡ ok s)
          × IsScheduledFor tomorrow (of_ℕ 5) sent_out s))
    ⊎ ((¬ IsAllowed now.utc tomorrow sent_out)
        × (is_ok (schedule_at node now "tx-3" tomorrow (of_ℕ 5) manager).1 ≡ false)
        × ((schedule_at node now "tx-3" tomorrow (of_ℕ 5) manager).0.db ≡ pool))
schedule_at-IsAllowed_example =
    schedule_at-IsAllowed node now "tx-3" tomorrow (of_ℕ 5) manager sent_out sent_out_found
