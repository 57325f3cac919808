-- ===== src/Pool/Schedule/Price.antt =====
-- How a transaction comes to wait for a price.
use umbrel_apps.Prelude.{
  String, none, some, true, false, ◌≡◌, refl, sym, ap, ◌∙◌, inl, inr, ok, is_ok, arith,
  to_lowercase, Option-cases, get_or, Bool-cases, opt_is→some, not_both,
}
use umbrel_apps.Prelude.Float.{F64, of_ℕ, le_f64}
use umbrel_apps.Db.Models.{DateTime, Row}
use umbrel_apps.Db.Table
use umbrel_apps.Db.Table.{
  Table, get_broadcast_tx_by_id, update_where, set_reschedule, set_price, set_retry, waits_on_price,
  set_triggered,
}
use umbrel_apps.Pool.Backend.{Backend, Clock}
use umbrel_apps.Pool.Manager.{PoolManager}
use umbrel_apps.Pool.Due.{waits_for_price}
use umbrel_apps.Pool.Enrich.{is_open}
use umbrel_apps.Pool.Enrich.Shown.{show_transaction-row}
use umbrel_apps.Pool.Schedule.Rules.{get-changed}
use umbrel_apps.Pool.Schedule.{schedule_by_price, one_of, price_refusal, set_price_trigger}

-- Whether the row is let wait for a price, as the three refusals say.
abbrev pub MayWait : Row → Type 0
MayWait r =
    (is_open r.status ≡ true) × (r.broadcast_mode ≡ some "manual") × (get_or r.nlocktime 0 ≡ 0)

price_refusal-none : (r : Row) → price_refusal r ≡ none → MayWait r
price_refusal-none r h = ground (arith, opt_is→some r.broadcast_mode "manual")

set_price_trigger-ok :
    (b : Backend) (now : Clock) (id : String) (target : F64) (currency condition : String)
    (fee : F64) (m : PoolManager) (r : Row)
    → get_broadcast_tx_by_id id m.db ≡ ok r
    → is_ok (set_price_trigger b now id target currency condition fee m).1 ≡ true
    → MayWait r
      × ((set_price_trigger b now id target currency condition fee m).0.db
          ≡ update_where id (set_price target currency condition fee now.utc) m.db)
      × ((set_price_trigger b now id target currency condition fee m).0.config ≡ m.config)
unfolding set_price_trigger Table.update_price_schedule
set_price_trigger-ok b now id target currency condition fee m r found h =
    elim (Option-cases (price_refusal r)) [
      | inl e ↦
          (let set = set_price target currency condition fee now.utc in
            let shown =
              show_transaction-row b now id (record m { db = update_where id set m.db }) in
            (
              price_refusal-none r e,
              rw (found, set_price_trigger) (rw e (shown.0)),
              rw (found, set_price_trigger) (rw e (shown.2)),
            ))
      | inr (msg, e) ↦ elim (not_both h (rw (found, set_price_trigger) (rw e refl))) [ ]
    ]

one_of-lower : (a c s t : String) → one_of a c s ≡ some t → t ≡ to_lowercase s
one_of-lower a c s t h = ground arith

abbrev pub IsOneOf : String → String → String → Type 0
IsOneOf a c s = one_of a c s ≡ some (to_lowercase s)

schedule_by_price-set :
    (b : Backend) (now : Clock) (id : String) (target : F64) (currency condition : String)
    (fee : F64) (m : PoolManager)
    → is_ok (schedule_by_price b now id target currency condition fee m).1 ≡ true
    → (le_f64 target (of_ℕ 0) ≡ false)
      × IsOneOf "eur" "usd" currency
      × IsOneOf "above" "below" condition
      × (schedule_by_price b now id target currency condition fee m
          ≡ set_price_trigger b now id target
              (to_lowercase currency)
              (to_lowercase condition)
              fee
              m)
unfolding schedule_by_price
schedule_by_price-set b now id target currency condition fee m h =
    elim (Bool-cases (le_f64 target (of_ℕ 0))) [
      | inl y ↦ elim (not_both h (rw y refl)) [ ]
      | inr n ↦ elim (Option-cases (one_of "eur" "usd" currency)) [
        | inl e ↦ elim (not_both h (rw n (rw (e, schedule_by_price) refl))) [ ]
        | inr (cu, e) ↦ elim (Option-cases (one_of "above" "below" condition)) [
          | inl f ↦ elim (not_both h (rw n (rw e (rw f refl)))) [ ]
          | inr (co, f) ↦
              (let e' = e ∙ ap some (one_of-lower "eur" "usd" currency cu e) in
                let f' = f ∙ ap some (one_of-lower "above" "below" condition co f) in
                (n, e', f', rw n (rw e' (rw f' refl))))
        ]
      ]
    ]

pub schedule_by_price-db :
    (b : Backend) (now : Clock) (id : String) (target : F64) (currency condition : String)
    (fee : F64) (m : PoolManager) (r : Row)
    → get_broadcast_tx_by_id id m.db ≡ ok r
    → is_ok (schedule_by_price b now id target currency condition fee m).1 ≡ true
    → ((schedule_by_price b now id target currency condition fee m).0.db
        ≡ update_where id
            (set_price target (to_lowercase currency) (to_lowercase condition) fee now.utc)
            m.db)
      × ((schedule_by_price b now id target currency condition fee m).0.config ≡ m.config)
schedule_by_price-db b now id target currency condition fee m r found h =
    let (_, _, _, same) = schedule_by_price-set b now id target currency condition fee m h in
    let (_, db, config) =
      set_price_trigger-ok b now id target (to_lowercase currency) (to_lowercase condition) fee m r
        found (sym (ap (λ x. is_ok x.1) same) ∙ h) in
    (ap (λ x. x.0.db) same ∙ db, ap (λ x. x.0.config) same ∙ config)

-- The row of a transaction that waits for a price.
abbrev pub priced : F64 → String → String → F64 → DateTime → Row → Row
priced target currency condition fee now r =
    set_price target (to_lowercase currency) (to_lowercase condition) fee now r

module _ (b : Backend) (now : Clock) (id : String) (target : F64) (currency condition : String)
    (fee : F64) (m : PoolManager) (r : Row) where
  -- A price schedule is set only where it may be: the target is positive (or no number), the
  -- currency and the condition are known, the transaction is open, manual and without a locktime.
  -- It then waits for the price, so that no tick sends it.
  pub schedule_by_price-ok :
      get_broadcast_tx_by_id id m.db ≡ ok r
      → is_ok (schedule_by_price b now id target currency condition fee m).1 ≡ true
      → (le_f64 target (of_ℕ 0) ≡ false)
        × IsOneOf "eur" "usd" currency
        × IsOneOf "above" "below" condition
        × MayWait r
        × (get_broadcast_tx_by_id id
              (schedule_by_price b now id target currency condition fee m).0.db
            ≡ ok (priced target currency condition fee now.utc r))
        × (waits_for_price (priced target currency condition fee now.utc r) ≡ true)
  unfolding set_price
  schedule_by_price-ok found h =
      let (positive, cu, co, same) =
        schedule_by_price-set b now id target currency condition fee m h in
      let (may, db, _) =
        set_price_trigger-ok b now id target (to_lowercase currency) (to_lowercase condition) fee m
          r found (sym (ap (λ x. is_ok x.1) same) ∙ h) in
      let set = set_price target (to_lowercase currency) (to_lowercase condition) fee now.utc in
      (
        positive,
        cu,
        co,
        may,
        ap (λ x. get_broadcast_tx_by_id id x.0.db) same
            ∙ ap (get_broadcast_tx_by_id id) db
            ∙ get-changed id set m.db r (λ s. refl) found,
        refl,
      )
