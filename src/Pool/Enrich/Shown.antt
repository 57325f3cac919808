-- ===== src/Pool/Enrich/Shown.antt =====
-- What is shown of a transaction: its row, and what the chain says about its locktime.
use umbrel_apps.Prelude.{
  ℕ, ◌-◌, ◌<◌, String, Option, some, Bool, false, not, ◌&&◌, ◌≡◌, refl, ap, inl, inr, Result, ok,
  err, arith, get_or, ltb, leb, if◌then◌else◌, lt→ltb, Bool-cases, Result-cases,
}
use umbrel_apps.Prelude.Int.{pos, sub_ℕ}
use umbrel_apps.Db.Models.{
  Row, BroadcastTx, TxStatus, pending, scheduled, broadcast, confirmed, expired, failed,
}
use umbrel_apps.Db.Table.{get_broadcast_tx_by_id}
use umbrel_apps.Pool.Backend.{
  Backend, Clock, MtpCache, get_median_time_past_cached, locktime_threshold, is_locktime_satisfied,
}
use umbrel_apps.Pool.Backend.Mtp.{mtp_of, locktime_of}
use umbrel_apps.Pool.Manager.{PoolManager}
use umbrel_apps.Pool.Enrich.{
  enrich_base, enrich_mtp, enrich_tx_locktime, show_transaction, is_open, is_emitted,
}

pub enrich_tx_locktime-row :
    (b : Backend) (now : Clock) (m : PoolManager) (tx : Row)
    → (enrich_tx_locktime b now m tx).1.row ≡ tx
unfolding enrich_tx_locktime enrich_base enrich_mtp
enrich_tx_locktime-row b now m tx =
    elim (Bool-cases (ltb locktime_threshold (get_or tx.nlocktime 0))) [
      | inr n ↦ rw n refl
      | inl y ↦ rw y (elim (Result-cases (get_median_time_past_cached b now m.mtp_cache).1) [
        | inl (mtp, e) ↦ rw (e, enrich_tx_locktime) refl
        | inr (msg, e) ↦ rw (e, enrich_tx_locktime) refl
      ])
    ]

-- The row under what is shown.
abbrev pub row_of : Result BroadcastTx → Result Row
row_of (ok tx) = ok tx.row
row_of (err e) = err e

pub show_transaction-row :
    (b : Backend) (now : Clock) (id : String) (m : PoolManager)
    → ((show_transaction b now id m).0.db ≡ m.db)
      × (row_of (show_transaction b now id m).1 ≡ get_broadcast_tx_by_id id m.db)
      × ((show_transaction b now id m).0.config ≡ m.config)
unfolding show_transaction
show_transaction-row b now id m = elim (Result-cases (get_broadcast_tx_by_id id m.db)) [
  | inl (tx, e) ↦ rw (e, show_transaction) (refl, ap ok (enrich_tx_locktime-row b now m tx), refl)
  | inr (msg, e) ↦ rw (e, show_transaction) (refl, refl, refl)
]

locktime_of-late :
    (b : Backend) (now : Clock) (cache : MtpCache) (nlocktime : Option ℕ) (mtp : ℕ)
    → locktime_threshold < get_or nlocktime 0
    → mtp_of b now cache ≡ ok mtp
    → locktime_of b now cache nlocktime ≡ ok (leb (get_or nlocktime 0) mtp)
unfolding is_locktime_satisfied
locktime_of-late b now cache nlocktime mtp late e = ground arith

remaining : (n mtp : ℕ) → (if leb n mtp then pos 0 else sub_ℕ n mtp) ≡ pos (n - mtp)
remaining n mtp = ground arith

waiting : (s : TxStatus) (c : Bool) → (not (is_emitted s) && is_open s && c) ≡ (is_open s && c)
waiting pending c = refl
waiting scheduled c = refl
waiting broadcast c = refl
waiting confirmed c = refl
waiting expired c = refl
waiting failed c = refl

-- Where the median time past is known, the locktime that is shown is the one that the scheduler tests:
-- for a time, a transaction is shown
-- as satisfied exactly when the test succeeds, as waiting exactly when it is open and the test fails,
-- and the seconds shown are what the median time past has yet to go.
pub enrich_tx_locktime-agrees :
    (b : Backend) (now : Clock) (m : PoolManager) (tx : Row) (mtp : ℕ)
    → locktime_threshold < get_or tx.nlocktime 0
    → mtp_of b now m.mtp_cache ≡ ok mtp
    → (locktime_of b now m.mtp_cache tx.nlocktime
        ≡ ok (get_or (enrich_tx_locktime b now m tx).1.locktime_satisfied false))
      × ((enrich_tx_locktime b now m tx).1.locktime_waiting
          ≡ some (is_open tx.status && not (leb (get_or tx.nlocktime 0) mtp)))
      × ((enrich_tx_locktime b now m tx).1.locktime_remaining_secs
          ≡ some (pos (get_or tx.nlocktime 0 - mtp)))
unfolding enrich_tx_locktime enrich_base enrich_mtp
enrich_tx_locktime-agrees b now m tx mtp late e =
    let n = get_or tx.nlocktime 0 in
    rw (locktime_of-late b now m.mtp_cache tx.nlocktime mtp late e) (
      rw (lt→ltb locktime_threshold n late) (
        rw (e, enrich_tx_locktime)
          (refl, ap some (waiting tx.status (not (leb n mtp))), ap some (remaining n mtp))))
