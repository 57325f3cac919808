-- ===== src/ElectrumServer/Ingest/Retained.antt =====
-- What the pool and the virtual mempool hold of a transaction after a wallet broadcast it.
use umbrel_apps.Prelude.{
  ℕ, get_or, ◌⊎◌, ◌≢◌, none, ltb, if◌then◌else◌, String, some, false, [], ◌∷◌, ◌++◌, ◌≡◌, refl, sym,
  ap, subst, ◌∙◌, inl, inr, Result, ok, err, is_ok, any, arith, eq_iff, trim, Bool-cases,
  Result-cases, not_both,
}
use umbrel_apps.Prelude.Maps.{lookup}
use umbrel_apps.Db.Models.{NewBroadcastTx, Row, pending, scheduled as scheduled_now}
use umbrel_apps.Db.Table
use umbrel_apps.Db.Table.{
  Table, has_id, get_broadcast_tx_by_id, insert_broadcast_tx, new_row, update_where, set_due,
}
use umbrel_apps.Config.{to_string, BroadcastMode, immediate, scheduled, by_block, manual}
use umbrel_apps.Pool.Backend.{Clock}
use umbrel_apps.Pool.Manager.{PoolManager, store_pending_tx, get_pending_tx_hex}
use umbrel_apps.Pool.Manager.Mempool.{get_pending_tx_hex-store_pending_tx, hex_of, if_self}
use umbrel_apps.Pool.Schedule.Rules.{get-changed}
use umbrel_apps.ElectrumServer.Ingest.{
  Plan, Bitcoin, Dates, Transaction, resolve_ingest_plan, decode_submitted, new_broadcast_tx,
  store_pending_outputs, mark_if_immediate, BroadcastHandleResult, handle_broadcast,
}

-- A call that fails, for a text that is no transaction or an id that is taken, changes nothing.
pub handle_broadcast-err :
    (bt : Bitcoin) (d : Dates) (now : Clock) (id tx_hex source : String) (m : PoolManager)
    → is_ok (handle_broadcast bt d now id tx_hex source m).1 ≡ false
    → (handle_broadcast bt d now id tx_hex source m).0 ≡ m
unfolding handle_broadcast insert_broadcast_tx
handle_broadcast-err bt d now id tx_hex source m h =
    elim (Result-cases (decode_submitted bt (trim tx_hex))) [
      | inr (msg, e) ↦ rw (e, handle_broadcast) refl
      | inl ((tx, txid), e) ↦ elim (Bool-cases (any (has_id id) m.db)) [
        | inl taken ↦ rw (e, handle_broadcast) (rw taken refl)
        | inr free ↦ elim (not_both (rw (e, handle_broadcast) (rw free refl)) h) [ ]
      ]
    ]

-- The row that a plan makes.
abbrev pub ingested_row : Clock → String → NewBroadcastTx → BroadcastMode → Row
ingested_row now id tx immediate = set_due now.utc (new_row id now.utc tx)
ingested_row now id tx _ = new_row id now.utc tx

get-appended :
    (id : String) (t : Table) (r : Row)
    → r.id ≡ id
    → any (has_id id) t ≡ false
    → get_broadcast_tx_by_id id (t ++ (r ∷ [])) ≡ ok r
unfolding get_broadcast_tx_by_id
get-appended id [] r e h = ground (arith, eq_iff r.id id)
get-appended id (s ∷ t) r e h = ground (arith, get-appended id t r e)

module _ (bt : Bitcoin) (d : Dates) (now : Clock) (id tx_hex source : String)
    (m : PoolManager) where
  -- The row that is expected of a decoded transaction.
  abbrev pub expected_row : Transaction → Row
  expected_row tx =
      let plan = resolve_ingest_plan d now source tx.lock_time m.config in
      ingested_row now id (new_broadcast_tx (trim tx_hex) m.config.network tx source plan) plan.0

  stored_found :
      (tx : NewBroadcastTx) (t : Table)
      → t ≡ m.db ++ (new_row id now.utc tx ∷ [])
      → any (has_id id) m.db ≡ false
      → get_broadcast_tx_by_id id t ≡ ok (new_row id now.utc tx)
  unfolding new_row
  stored_found tx t e free =
      ap (get_broadcast_tx_by_id id) e ∙ get-appended id m.db (new_row id now.utc tx) refl free

  stored_row :
      (tx : NewBroadcastTx) (mode : BroadcastMode) (u : PoolManager)
      → u.db ≡ m.db ++ (new_row id now.utc tx ∷ [])
      → any (has_id id) m.db ≡ false
      → (get_broadcast_tx_by_id id (mark_if_immediate mode id now.utc u).db
          ≡ ok (ingested_row now id tx mode))
        × ((mark_if_immediate mode id now.utc u).pending_txs ≡ u.pending_txs)
  unfolding Table.mark_due set_due
  stored_row tx immediate u e free =
      (get-changed id (set_due now.utc) u.db _ (λ r. refl) (stored_found tx u.db e free), refl)
  stored_row tx scheduled u e free = (stored_found tx u.db e free, refl)
  stored_row tx by_block u e free = (stored_found tx u.db e free, refl)
  stored_row tx manual u e free = (stored_found tx u.db e free, refl)

  stored_pending :
      (txid : String) (u v : PoolManager)
      → u.pending_txs ≡ (store_pending_outputs bt txid (trim tx_hex) v).pending_txs
      → get_pending_tx_hex txid u ≡ some (trim tx_hex)
  unfolding get_pending_tx_hex store_pending_outputs
  stored_pending txid u v e =
      ap (λ p. hex_of (lookup txid p)) e
      ∙ get_pending_tx_hex-store_pending_tx txid txid (trim tx_hex) _ _ v
      ∙ if_self txid _ _

  abbrev txid_of : Result BroadcastHandleResult → String
  txid_of (ok h) = h.txid
  txid_of (err e) = ""

  handle_success :
      (tx : Transaction) (txid : String)
      → decode_submitted bt (trim tx_hex) ≡ ok (tx, txid)
      → any (has_id id) m.db ≡ false
      → (get_broadcast_tx_by_id id (handle_broadcast bt d now id tx_hex source m).0.db
          ≡ ok (expected_row tx))
        × (get_pending_tx_hex txid (handle_broadcast bt d now id tx_hex source m).0
            ≡ some (trim tx_hex))
        × (txid_of (handle_broadcast bt d now id tx_hex source m).1 ≡ txid)
  unfolding handle_broadcast insert_broadcast_tx store_pending_outputs store_pending_tx new_row
  handle_success tx txid decoded free =
      let plan = resolve_ingest_plan d now source tx.lock_time m.config in
      let new_tx = new_broadcast_tx (trim tx_hex) m.config.network tx source plan in
      let v = record m { db = m.db ++ (new_row id now.utc new_tx ∷ []) } in
      let u = store_pending_outputs bt txid (trim tx_hex) v in
      let (row, same) = stored_row new_tx plan.0 u refl free in
      rw (decoded, handle_broadcast) (rw free (row, stored_pending txid _ v same, refl))

  pub handle_broadcast-ok :
      (h : BroadcastHandleResult)
      → (handle_broadcast bt d now id tx_hex source m).1 ≡ ok h
      → (tx : Transaction) × (decode_submitted bt (trim tx_hex) ≡ ok (tx, h.txid))
        × (get_broadcast_tx_by_id id (handle_broadcast bt d now id tx_hex source m).0.db
            ≡ ok (expected_row tx))
        × (get_pending_tx_hex h.txid (handle_broadcast bt d now id tx_hex source m).0
            ≡ some (trim tx_hex))
  unfolding handle_broadcast insert_broadcast_tx
  handle_broadcast-ok h e = elim (Result-cases (decode_submitted bt (trim tx_hex))) [
    | inr (msg, f) ↦ elim (not_both (ap is_ok e) (rw (f, handle_broadcast) refl)) [ ]
    | inl ((tx, txid), f) ↦ elim (Bool-cases (any (has_id id) m.db)) [
      | inl taken ↦ elim (not_both (ap is_ok e) (rw (f, handle_broadcast) (rw taken refl))) [ ]
      | inr free ↦
          (let (row, hex, same) = handle_success tx txid f free in
            let txid_same = sym same ∙ ap txid_of e in
            (
              tx,
              f ∙ ap (λ t. ok (tx, t)) txid_same,
              row,
              subst
                  (λ t.
                    get_pending_tx_hex t (handle_broadcast bt d now id tx_hex source m).0
                    ≡ some (trim tx_hex))
                  txid_same hex,
            ))
    ]
  ]

-- A transaction that is to go out at once is scheduled for now, any other is pending.
abbrev pub IsPlanned : Clock → Plan → Row → Type 0
IsPlanned now (mode, time) r =
    ((mode ≡ immediate) × (r.status ≡ scheduled_now) × (r.scheduled_time ≡ some now.utc))
    ⊎ ((mode ≢ immediate) × (r.status ≡ pending) × (r.scheduled_time ≡ time))

-- The row holds the transaction as it came in, with its plan, not yet sent and without an error.
abbrev pub IsRetained : Clock → String → String → String → Transaction → Plan → Row → Type 0
IsRetained now tx_hex network source tx plan r =
    (r.tx_hex ≡ tx_hex)
    × (r.network ≡ network)
    × (r.source_label ≡ some source)
    × (r.nlocktime ≡ some tx.lock_time)
    × (r.broadcast_mode ≡ some (to_string plan.0))
    × IsPlanned now plan r
    × (r.txid ≡ none)
    × (r.broadcast_at ≡ none)
    × (r.error_message ≡ none)

locktime_kept : (n : ℕ) → some (get_or (if ltb 0 n then some n else none) 0) ≡ some n
locktime_kept n = ground arith

row-IsRetained :
    (now : Clock) (id tx_hex network source : String) (tx : Transaction) (plan : Plan)
    → IsRetained now tx_hex network source tx plan
        (ingested_row now id (new_broadcast_tx tx_hex network tx source plan) plan.0)
unfolding new_broadcast_tx new_row set_due
row-IsRetained now id tx_hex network source tx (immediate, time) =
    (refl, refl, refl, locktime_kept tx.lock_time, refl, inl (refl, refl, refl), refl, refl, refl)
row-IsRetained now id tx_hex network source tx (scheduled, time) = (
  refl,
  refl,
  refl,
  locktime_kept tx.lock_time,
  refl,
  inr ((λ e. ground arith), refl, refl),
  refl,
  refl,
  refl,
)
row-IsRetained now id tx_hex network source tx (by_block, time) = (
  refl,
  refl,
  refl,
  locktime_kept tx.lock_time,
  refl,
  inr ((λ e. ground arith), refl, refl),
  refl,
  refl,
  refl,
)
row-IsRetained now id tx_hex network source tx (manual, time) = (
  refl,
  refl,
  refl,
  locktime_kept tx.lock_time,
  refl,
  inr ((λ e. ground arith), refl, refl),
  refl,
  refl,
  refl,
)

-- A call that succeeds has decoded the text. The store then holds under the new id a row with that text,
-- the node's network, the wallet's name, the transaction's locktime and the mode of its
-- plan: scheduled for now where the plan is to send at once, and else pending with the plan's time. The
-- virtual mempool holds the text under the txid.
pub handle_broadcast-IsRetained :
    (bt : Bitcoin) (d : Dates) (now : Clock) (id tx_hex source : String) (m : PoolManager)
    (h : BroadcastHandleResult)
    → (handle_broadcast bt d now id tx_hex source m).1 ≡ ok h
    → (tx : Transaction) × (r : Row) × (decode_submitted bt (trim tx_hex) ≡ ok (tx, h.txid))
      × (get_broadcast_tx_by_id id (handle_broadcast bt d now id tx_hex source m).0.db ≡ ok r)
      × IsRetained now
          (trim tx_hex)
          m.config.network
          source
          tx
          (resolve_ingest_plan d now source tx.lock_time m.config)
          r
      × (get_pending_tx_hex h.txid (handle_broadcast bt d now id tx_hex source m).0
          ≡ some (trim tx_hex))
handle_broadcast-IsRetained bt d now id tx_hex source m h e =
    let (tx, decoded, row, hex) = handle_broadcast-ok bt d now id tx_hex source m h e in
    (
      tx,
      expected_row bt d now id tx_hex source m tx,
      decoded,
      row,
      row-IsRetained now id (trim tx_hex) m.config.network source tx
          (resolve_ingest_plan d now source tx.lock_time m.config),
      hex,
    )
