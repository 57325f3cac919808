-- ===== src/ElectrumServer/Ingest/Plan.antt =====
-- When a transaction that a wallet broadcasts is sent, as its plan says.
use umbrel_apps.Prelude.{
  Result, ok, err, ap, ◌∙◌, ◌≤◌, length, filter, Bool-cases, ℕ, ◌*◌, ◌<◌, String, none, some, false,
  ◌≡◌, refl, sym, subst, ◌⊎◌, inl, inr, arith, eq_iff, trim,
}
use umbrel_apps.Db.Models.{DateTime, nanos_per_sec, Row}
use umbrel_apps.Db.Table.{get_broadcast_tx_by_id, matches_filter, waits_on_time, new_row}
use umbrel_apps.Config.{scheduled as by_date, by_block, manual}
use umbrel_apps.Pool.Backend.{Backend, Clock, MtpCache, indexer_healthy}
use umbrel_apps.Pool.Manager.{PoolManager}
use umbrel_apps.Pool.Due.Tick.{tick_row, tick_row-KeepsId, run_scheduler_tick-db}
use umbrel_apps.Pool.Due.{run_scheduler_tick}
use umbrel_apps.Db.Table.Update.{Distinct, get-map, map_ok}
use umbrel_apps.Pool.Due.Pending.{tick_row-pending}
use umbrel_apps.ElectrumServer.Ingest.{
  Bitcoin, Dates, Transaction, Plan, resolve_ingest_plan, new_broadcast_tx, decode_submitted,
  BroadcastHandleResult, handle_broadcast,
}
use umbrel_apps.ElectrumServer.Ingest.Retained.{expected_row, ingested_row, handle_broadcast-ok}

-- When a transaction is held back: the user is to schedule it by hand, its locktime is a block, or
-- its locktime is a time that lies ahead.
abbrev pub IsHeldBack : DateTime → String → ℕ → Type 0
IsHeldBack later source nlocktime =
    (source ≡ "liana")
    ⊎ ((source ≡ "sparrow") × (nlocktime ≡ 0))
    ⊎ ((0 < nlocktime) × (nlocktime < 500_000_000))
    ⊎ ((500_000_000 < nlocktime) × (later < nlocktime * nanos_per_sec))

plan_held_back :
    (d : Dates) (now : Clock) (later : DateTime) (source : String) (n : ℕ) (m : PoolManager)
    → IsHeldBack later source n
    → (resolve_ingest_plan d now source n m.config ≡ (manual, none))
      ⊎ (resolve_ingest_plan d now source n m.config ≡ (by_block, none))
      ⊎ ((resolve_ingest_plan d now source n m.config ≡ (by_date, some (n * nanos_per_sec)))
          × (later < n * nanos_per_sec))
unfolding resolve_ingest_plan
plan_held_back d now later source n m h =
    ground (arith, eq_iff source "liana", eq_iff source "sparrow")

early_waits :
    (now : DateTime) (network : String) (r : Row) (time : DateTime)
    → r.scheduled_time ≡ some time
    → now < time
    → waits_on_time now network r ≡ false
early_waits now network r time e early = ground arith

tx_of : Transaction → Result (Transaction × String) → Transaction
tx_of t (ok (tx, txid)) = tx
tx_of t (err e) = t

module _ (b : Backend) (bt : Bitcoin) (later : Clock) (c : MtpCache) (network : String) (d : Dates)
    (now : Clock) (id tx_hex source : String) (tx : Transaction) (m : PoolManager) where
  row_of_plan : Plan → Row
  row_of_plan plan =
      ingested_row now id (new_broadcast_tx (trim tx_hex) m.config.network tx source plan) plan.0

  Stays : Plan → Type 0
  Stays plan = tick_row b later c network (row_of_plan plan) ≡ row_of_plan plan

  by_date-Stays : (time : DateTime) → later.utc < time → Stays (by_date, some time)
  unfolding row_of_plan Stays new_broadcast_tx new_row
  by_date-Stays time early =
      tick_row-pending b later c network (row_of_plan (by_date, some time)) refl
        (early_waits later.utc network (row_of_plan (by_date, some time)) time refl early)

  manual-Stays : Stays (manual, none)
  unfolding row_of_plan Stays new_broadcast_tx new_row
  manual-Stays = tick_row-pending b later c network _ refl refl

  by_block-Stays : Stays (by_block, none)
  unfolding row_of_plan Stays new_broadcast_tx new_row
  by_block-Stays = tick_row-pending b later c network _ refl refl

  tick_row-held_back :
      IsHeldBack later.utc source tx.lock_time
      → tick_row b later c network (expected_row bt d now id tx_hex source m tx)
        ≡ expected_row bt d now id tx_hex source m tx
  unfolding row_of_plan Stays
  tick_row-held_back h = elim (plan_held_back d now later.utc source tx.lock_time m h) [
    | inl e ↦ subst Stays (sym e) manual-Stays
    | inr (inl e) ↦ subst Stays (sym e) by_block-Stays
    | inr (inr (e, early)) ↦ subst Stays (sym e) (by_date-Stays _ early)
  ]

-- A transaction that is held back stays as it was taken in, in every tick: one from Liana or one from
-- Sparrow without a locktime until the user schedules it, one with a block for a locktime until the
-- block height monitor finds that block, and one with a time until that time has come. The tick finds
-- the row that the intake stored, ids are distinct, and at most 1000 transactions of the network have
-- failed.
pub run_scheduler_tick-held_back :
    (b : Backend) (bt : Bitcoin) (later now : Clock) (d : Dates) (id tx_hex source : String)
    (tx : Transaction) (m n : PoolManager) (h : BroadcastHandleResult)
    → (handle_broadcast bt d now id tx_hex source m).1 ≡ ok h
    → decode_submitted bt (trim tx_hex) ≡ ok (tx, h.txid)
    → IsHeldBack later.utc source tx.lock_time
    → get_broadcast_tx_by_id id n.db
      ≡ get_broadcast_tx_by_id id (handle_broadcast bt d now id tx_hex source m).0.db
    → Distinct n.db
    → length (filter (matches_filter (some "failed") n.config.network) n.db) ≤ 1000
    → get_broadcast_tx_by_id id (run_scheduler_tick b later n).0.db
      ≡ get_broadcast_tx_by_id id (handle_broadcast bt d now id tx_hex source m).0.db
unfolding run_scheduler_tick tx_of
run_scheduler_tick-held_back b bt later now d id tx_hex source tx m n h taken decoded held kept
      distinct few =
    elim (Bool-cases (indexer_healthy b)) [
      | inr down ↦ rw down kept
      | inl up ↦
          (let (tx', decoded', row, hex) =
              handle_broadcast-ok bt d now id tx_hex source m h taken in
            let network = n.config.network in
            let f = tick_row b later n.mtp_cache network in
            let same : tx' ≡ tx = ap (tx_of tx) (sym decoded' ∙ decoded) in
            let held' =
              subst (λ t. IsHeldBack later.utc source (Transaction.lock_time t)) (sym same) held in
            ap (get_broadcast_tx_by_id id) (run_scheduler_tick-db b later n up distinct few)
            ∙ get-map id f n.db (tick_row-KeepsId b later n.mtp_cache network)
            ∙ ap (map_ok f) (kept ∙ row)
            ∙ ap ok (
                tick_row-held_back b bt later n.mtp_cache network d now id tx_hex source tx' m
                  held')
            ∙ sym row)
    ]
