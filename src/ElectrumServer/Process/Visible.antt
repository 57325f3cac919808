-- ===== src/ElectrumServer/Process/Visible.antt =====
-- A transaction is visible to its wallet as soon as its broadcast is acknowledged.
use umbrel_apps.Prelude.{
  is_char_boundary, String, Option, some, true, List, [], ◌∷◌, ◌++◌, map, ◌≡◌, refl, ap, ◌∙◌, inl,
  inr, ok, is_empty, eq_refl, is_some, Bool-cases,
}
use umbrel_apps.Prelude.Json.{Json, text, array, items_of}
use umbrel_apps.VirtualMempool.Inject.{has_tx, pending_entry}
use umbrel_apps.Config.Settings.{NetworkType}
use umbrel_apps.Pool.Manager.{
  PoolManager, PendingTxOutput, mentions, store_pending_tx, has_pending_tx,
  get_pending_txids_for_scripthash,
}
use umbrel_apps.Pool.Manager.Mempool.{get_pending_tx_hex-store_pending_tx}
use umbrel_apps.ElectrumServer.Ingest.{Bitcoin, extract_outputs, extract_output_scripthashes}
use umbrel_apps.ElectrumServer.Requests.{scripthash_from_params}
use umbrel_apps.ElectrumServer.Session.{
  SessionState, push_others, own_first, track_scripthash_interest, pending_txids_with_session,
}
use umbrel_apps.ElectrumServer.Answers.{Outside, Connection, with_session, rpc_result}
use umbrel_apps.ElectrumServer.Client.{interested, handle_one_subrequest}
use umbrel_apps.ElectrumServer.Client.Poll.{history_poll, handle_one_subrequest-history}
use umbrel_apps.ElectrumServer.Process.{preview, acknowledged, intercept_and_handle_broadcast}

push_others-head :
    (p : String) (ps ts : List String) → (rest : List String) × (push_others (p ∷ ps) ts ≡ p ∷ rest)
unfolding push_others
push_others-head p ps [] = (ps, refl)
push_others-head p ps (t ∷ ts) = elim (Bool-cases (mentions (p ∷ ps) t)) [
  | inl y ↦ (let (rest, e) = push_others-head p ps ts in (rest, rw y e))
  | inr n ↦ (let (rest, e) = push_others-head p (ps ++ (t ∷ [])) ts in (rest, rw n e))
]

-- The session's own transaction comes first, while it is pending.
session_first :
    (m : PoolManager) (sh txid : String) (s : SessionState)
    → s.recent_broadcast_txid ≡ some txid
    → has_pending_tx txid m ≡ true
    → (rest : List String) × (pending_txids_with_session m sh (some s) ≡ txid ∷ rest)
unfolding pending_txids_with_session
session_first m sh txid s e h =
    let (rest, k) = push_others-head txid [] (get_pending_txids_for_scripthash sh m) in
    (
      rest,
      ap (λ t. own_first t m (get_pending_txids_for_scripthash sh m)) e
          ∙ unfold own_first in rw h k,
    )

stored_has :
    (txid hex : String) (shs : List String) (os : List PendingTxOutput) (m : PoolManager)
    → has_pending_tx txid (store_pending_tx txid hex shs os m) ≡ true
unfolding has_pending_tx
stored_has txid hex shs os m =
    ap is_some (get_pending_tx_hex-store_pending_tx txid txid hex shs os m) ∙ rw (eq_refl txid) refl

interest-recent :
    (sh : String) (s : SessionState)
    → (track_scripthash_interest sh s).recent_broadcast_txid ≡ s.recent_broadcast_txid
unfolding track_scripthash_interest
interest-recent sh s = elim (Bool-cases (is_empty sh)) [ inl y ↦ rw y refl | inr n ↦ rw n refl ]

module _ (o : Outside) (bt : Bitcoin) (network : NetworkType) (source_label url : String) where
  -- The connection after a broadcast.
  abbrev pub after : Json → String → Connection → Connection
  after id tx_hex c = intercept_and_handle_broadcast o bt source_label id tx_hex c

  polled :
      (txid sh : String) (version : Option String) (params : Option Json) (id : Json)
      (c : Connection)
      → scripthash_from_params params ≡ some sh
      → is_char_boundary 16 sh ≡ true
      → c.session.recent_broadcast_txid ≡ some txid
      → has_pending_tx txid c.pool ≡ true
      → (history : List Json) × (handle_one_subrequest o network url
            (history_poll version params id)
            c
          ≡ (interested o network url sh c, ok (rpc_result (array (items_of history)) id)))
        × (has_tx history txid ≡ true)
  polled txid sh version params id c e whole s h =
      let (rest, k) =
        session_first c.pool sh txid (track_scripthash_interest sh c.session)
          (interest-recent sh c.session ∙ s) h in
      (
        map pending_entry (txid ∷ rest),
        handle_one_subrequest-history o network url version params id c sh txid rest e whole k,
        rw (eq_refl txid) refl,
      )

  -- A broadcast with a good transaction is acknowledged with its txid, and from then on the session shows
  -- it: the next poll of a history, of whichever scripthash whose first 16 bytes end with a character, is answered at once with the transaction in
  -- it, and the indexer is not asked.
  pub intercept_and_handle_broadcast-shown :
      (id id' : Json) (tx_hex txid sh : String) (version : Option String) (params : Option Json)
      (c : Connection)
      → preview o bt tx_hex ≡ ok txid
      → scripthash_from_params params ≡ some sh
      → is_char_boundary 16 sh ≡ true
      → ((after id tx_hex c).written ≡ c.written ++ (rpc_result (text txid) id ∷ []))
        × (history : List Json) × (handle_one_subrequest o network url
              (history_poll version params id')
              (after id tx_hex c)
            ≡ (
              interested o network url sh (after id tx_hex c),
              ok (rpc_result (array (items_of history)) id'),
            ))
        × (has_tx history txid ≡ true)
  unfolding intercept_and_handle_broadcast
  intercept_and_handle_broadcast-shown id id' tx_hex txid sh version params c good e whole =
      let acked =
        acknowledged bt source_label id tx_hex (ok txid)
          (with_session c (record c.session { broadcast_intercepted = true })) in
      let (history, answer, has) = polled txid sh version params id' acked e whole refl (
        stored_has txid tx_hex (extract_output_scripthashes bt tx_hex) (extract_outputs bt tx_hex)
          c.pool) in
      rw good (refl, history, answer, has)
