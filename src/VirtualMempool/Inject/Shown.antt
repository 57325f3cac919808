-- ===== src/VirtualMempool/Inject/Shown.antt =====
-- What wallets see once pending transactions are injected.
use umbrel_apps.Prelude.{
  String, Bool, true, ◌||◌, List, [], ◌∷◌, ◌++◌, map, ◌≡◌, refl, sym, ap, ◌∙◌, inl, inr, str_eq,
  filter, arith, eq_iff, eq_refl, Bool-cases,
}
use umbrel_apps.Prelude.Maps.{insert}
use umbrel_apps.Prelude.Json.{Json}
use umbrel_apps.Pool.Manager.{
  PoolManager, PendingTxInfo, PendingTxOutput, mentions, store_pending_tx, has_scripthash, txid_of,
  get_pending_txids_for_scripthash,
}
use umbrel_apps.Pool.Manager.Mempool.{or_known, or_new}
use umbrel_apps.VirtualMempool.Inject.{has_tx, pending_entry, push_pending, inject_in_history}

has_tx-append :
    (xs ys : List Json) (t : String) → has_tx (xs ++ ys) t ≡ (has_tx xs t || has_tx ys t)
has_tx-append [] ys t = refl
has_tx-append (x ∷ xs) ys t = ground (arith, has_tx-append xs ys t)

push_pending-has_tx :
    (existing : List Json) (txids : List String) (result : List Json) (t : String)
    → (has_tx existing t ≡ true → has_tx result t ≡ true)
    → has_tx (push_pending existing txids result) t ≡ (has_tx result t || mentions txids t)
unfolding push_pending
push_pending-has_tx existing [] result t h = ground arith
push_pending-has_tx existing (x ∷ xs) result t h = elim (Bool-cases (has_tx existing x)) [
  | inl y ↦ rw y (
      push_pending-has_tx existing xs result t h
      ∙ or_known (has_tx result t) (str_eq x t) (mentions xs t)
          (λ e. h (sym (ap (has_tx existing) ((eq_iff x t).0 e)) ∙ y)))
  | inr n ↦ rw n (
      push_pending-has_tx existing xs (result ++ (pending_entry x ∷ [])) t
        (λ e. has_tx-append result (pending_entry x ∷ []) t ∙ ground (arith, h e))
      ∙ or_new (has_tx result t) (str_eq x t) (mentions xs t) _
          (has_tx-append result (pending_entry x ∷ []) t))
]

-- A history that was injected has exactly what the indexer's history had and the pending
-- transactions.
pub inject_in_history-has_tx :
    (history : List Json) (pending_txids : List String) (t : String)
    → has_tx (inject_in_history history pending_txids) t
      ≡ (has_tx history t || mentions pending_txids t)
unfolding inject_in_history
inject_in_history-has_tx history pending_txids t =
    push_pending-has_tx history pending_txids history t (λ e. e)

or_true : (a b : Bool) → b ≡ true → (a || b) ≡ true
or_true a b h = ground arith

pub stored_listed :
    (sh txid : String) (info : PendingTxInfo) (ps : List (String × PendingTxInfo))
    → mentions info.scripthashes sh ≡ true
    → mentions (map txid_of (filter (has_scripthash sh) (insert txid info ps))) txid ≡ true
unfolding insert
stored_listed sh txid info [] h = rw h (rw (eq_refl txid) refl)
stored_listed sh txid info ((name, old) ∷ ps) h =
    ground (arith, stored_listed sh txid info ps h, eq_iff name txid)

-- Once a transaction is stored in the virtual mempool, the history of each of its scripthashes shows
-- it, whatever the indexer's history is.
pub inject_in_history-store_pending_tx :
    (history : List Json) (txid tx_hex sh : String) (shs : List String) (os : List PendingTxOutput)
    (m : PoolManager)
    → mentions shs sh ≡ true
    → has_tx
        (inject_in_history history
          (get_pending_txids_for_scripthash sh (store_pending_tx txid tx_hex shs os m)))
        txid
      ≡ true
unfolding get_pending_txids_for_scripthash store_pending_tx
inject_in_history-store_pending_tx history txid tx_hex sh shs os m h =
    let info : PendingTxInfo = record { tx_hex = tx_hex; scripthashes = shs; outputs = os } in
    inject_in_history-has_tx history _ txid
    ∙ or_true (has_tx history txid) _ (stored_listed sh txid info m.pending_txs h)
