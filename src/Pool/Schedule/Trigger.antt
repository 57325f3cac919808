-- ===== src/Pool/Schedule/Trigger.antt =====
-- The rounds of the price monitor, and what fires a transaction that waits for a price.
use mathlib.Core.Path.{fun_ext}
use umbrel_apps.Prelude.{
  ℕ, ◌+◌, length, filter, map, String, none, some, Bool, false, ◌&&◌, List, [], ◌∷◌, ◌≡◌, refl, ap,
  ◌∙◌, inl, inr, arith, if◌then◌else◌, Bool-cases,
}
use umbrel_apps.Prelude.Maps.{lookup}
use umbrel_apps.Prelude.Float.{F64}
use umbrel_apps.Db.Models.{DateTime, Row}
use umbrel_apps.Db.Table
use umbrel_apps.Db.Table.{
  Table, update_where, set_reschedule, set_retry, waits_on_price, set_triggered,
}
use umbrel_apps.Db.Table.Update.{
  Distinct, update_each, update_each-filter, update_where-id, KeepsId,
}
use umbrel_apps.Pool.Backend.{Backend, Clock}
use umbrel_apps.Pool.Manager.{PoolManager}
use umbrel_apps.Price.{Prices, price_condition_met}
use umbrel_apps.Pool.Schedule.{is_triggered, trigger_loop, check_price_triggers}

-- The loop of the price monitor.
trigger_change : Prices → DateTime → Row → Row → Row
trigger_change prices now x = if is_triggered prices x then set_triggered now else (λ r. r)

trigger_loop-each :
    (prices : Prices) (now : DateTime) (xs : List Row) (n : ℕ) (t : Table)
    → ((trigger_loop prices now xs n t).0 ≡ update_each (trigger_change prices now) t xs)
      × ((trigger_loop prices now xs n t).1 ≡ n + length (filter (is_triggered prices) xs))
unfolding trigger_loop trigger_change Table.mark_due_from_price_trigger
trigger_loop-each prices now [] n t = (refl, omega arith)
trigger_loop-each prices now (x ∷ xs) n t = elim (Bool-cases (is_triggered prices x)) [
  | inl y ↦
      (let (p, q) =
          trigger_loop-each prices now xs (n + 1) (update_where x.id (set_triggered now) t) in
        rw y (p, q ∙ omega arith))
  | inr k ↦
      (let (p, q) = trigger_loop-each prices now xs n t in rw k (rw (update_where-id x.id t) p, q))
]

-- What a round of the price monitor makes of each row.
unfoldable pub trigger_row : Prices → DateTime → String → Row → Row
trigger_row prices now network r =
    if waits_on_price network r && is_triggered prices r then set_triggered now r else r

trigger_row_eq :
    (prices : Prices) (now : DateTime) (network : String) (r : Row)
    → (if waits_on_price network r then trigger_change prices now r r else r)
      ≡ trigger_row prices now network r
unfolding trigger_change trigger_row
trigger_row_eq prices now network r = ground arith

trigger_change-KeepsId :
    (prices : Prices) (now : DateTime) (x : Row) → KeepsId (trigger_change prices now x)
unfolding trigger_change set_triggered
trigger_change-KeepsId prices now x r = ground arith

-- On distinct ids a round of the price monitor makes each transaction due that waits for a price on
-- the node's network and whose price is met, changes no other, and counts them.
pub check_price_triggers-db :
    (prices : Prices) (now : Clock) (m : PoolManager)
    → Distinct m.db
    → ((check_price_triggers prices now m).0.db
        ≡ map (trigger_row prices now.utc m.config.network) m.db)
      × ((check_price_triggers prices now m).1
          ≡ length (filter (is_triggered prices) (filter (waits_on_price m.config.network) m.db)))
unfolding check_price_triggers Table.get_price_triggered_pending
check_price_triggers-db prices now m d =
    let network = m.config.network in
    let (p, q) = trigger_loop-each prices now.utc (filter (waits_on_price network) m.db) 0 m.db in
    (
      p
          ∙ update_each-filter (trigger_change prices now.utc) (waits_on_price network) m.db
              (trigger_change-KeepsId prices now.utc) d
          ∙ ap (λ f. map f m.db) (fun_ext (trigger_row_eq prices now.utc network)),
      q ∙ omega arith,
    )

pub trigger_row-KeepsId :
    (prices : Prices) (now : DateTime) (network : String) → KeepsId (trigger_row prices now network)
unfolding trigger_row set_triggered
trigger_row-KeepsId prices now network r = ground arith

-- Whether a price feed has a price at which the wish is met.
abbrev pub is_met : Prices → String → F64 → String → Bool
is_met prices currency target condition = elim (lookup currency prices) [
  | none ↦ false
  | some current ↦ price_condition_met current target condition
]
