-- ===== src/ElectrumServer/Answers/Calm.antt =====
-- An answer writes nothing by itself, and no broadcast goes to the indexer.
use umbrel_apps.Prelude.{
  ℕ, String, Option, none, some, false, List, [], ◌∷◌, ◌++◌, ◌≡◌, refl, ◌∙◌, inl, inr, arith,
  is_empty, trim, All, Bool-cases, Option-cases,
}
use umbrel_apps.Prelude.Json.{Json}
use umbrel_apps.ElectrumServer.Requests.{JsonRpcRequest, is_broadcast_method}
use umbrel_apps.ElectrumServer.Session.{SessionState, remove_id, track_request}
use umbrel_apps.ElectrumServer.Answers.{
  Outside, Forwarded, reply, timed_out, task_failed, Connection, log_forwarded, with_session,
  spawn_chain_tip_refresh, tip_or_error, read_tip, ask_tip, tip_first, changed_answer, answer_to,
  forwarded_answer, handle_headers_subscribe, answer_of, forward_subrequest_sync,
}

abbrev pub NotBroadcast : JsonRpcRequest → Type 0
NotBroadcast r = is_broadcast_method r.method ≡ false

-- What an answer leaves as it is.
pub record Calm (c c' : Connection) : Type 0 where
  pub written : c'.written ≡ c.written
  pub deferred : c'.session.deferred_indexer_out ≡ c.session.deferred_indexer_out
  pub local : All NotBroadcast c.forwarded → All NotBroadcast c'.forwarded

All-concat :
    (rs : List JsonRpcRequest) (r : JsonRpcRequest)
    → NotBroadcast r
    → All NotBroadcast rs
    → All NotBroadcast (rs ++ (r ∷ []))
All-concat [] r h all = (h, tt)
All-concat (x ∷ xs) r h all = (all.0, All-concat xs r h all.1)

pub Calm-self : (c : Connection) → Calm c c
Calm-self c = record { written = refl; deferred = refl; local = λ all. all }

pub Calm-then : {c d e : Connection} → Calm c d → Calm d e → Calm c e
Calm-then p q = record {
  written = q.written ∙ p.written;
  deferred = q.deferred ∙ p.deferred;
  local = λ all. q.local (p.local all);
}

log_forwarded-Calm :
    (r : JsonRpcRequest) (c : Connection) → NotBroadcast r → Calm c (log_forwarded r c)
log_forwarded-Calm r c h = record {
  written = refl;
  deferred = refl;
  local = λ all. All-concat c.forwarded r h all;
}

pub spawn_chain_tip_refresh-Calm :
    (url : String) (c : Connection) → Calm c (spawn_chain_tip_refresh url c)
unfolding spawn_chain_tip_refresh
spawn_chain_tip_refresh-Calm url c = elim (Bool-cases (is_empty url)) [
  | inl y ↦ rw y (Calm-self c)
  | inr n ↦ rw n (record { written = refl; deferred = refl; local = λ all. all })
]

track_request-deferred :
    (r : JsonRpcRequest) (s : SessionState)
    → (track_request r s).deferred_indexer_out ≡ s.deferred_indexer_out
unfolding track_request
track_request-deferred r s = ground arith

tip_or_error-Calm :
    (tip : Option (ℕ × String)) (r : JsonRpcRequest) (c : Connection)
    → Calm c (tip_or_error tip r c).0
tip_or_error-Calm none r c = Calm-self c
tip_or_error-Calm (some tip) r c = Calm-self c

module _ (o : Outside) where
  ask_tip-Calm :
      (url : String) (r : JsonRpcRequest) (c : Connection)
      → NotBroadcast r
      → Calm c (ask_tip o url r c).0
  unfolding ask_tip
  ask_tip-Calm url r c h = elim (Option-cases (read_tip o (o.forward_to_indexer_sync url r))) [
    | inl e ↦
        rw (e, ask_tip)
          (Calm-then (log_forwarded-Calm r c h)
            (tip_or_error-Calm c.pool.cached_chain_tip r (log_forwarded r c)))
    | inr ((msg, tip), e) ↦
        rw (e, ask_tip)
          (Calm-then (log_forwarded-Calm r c h)
            (record { written = refl; deferred = refl; local = λ all. all }))
  ]

  tip_first-Calm :
      (url : String) (tip : Option (ℕ × String)) (r : JsonRpcRequest) (c : Connection)
      → NotBroadcast r
      → Calm c (tip_first o url tip r c).0
  unfolding tip_first
  tip_first-Calm url (some tip) r c h = spawn_chain_tip_refresh-Calm url c
  tip_first-Calm url none r c h = elim (Bool-cases (is_empty url)) [
    | inl y ↦ rw y (Calm-self c)
    | inr n ↦ rw n (ask_tip-Calm url r c h)
  ]

  pub handle_headers_subscribe-Calm :
      (url : String) (r : JsonRpcRequest) (c : Connection)
      → NotBroadcast r
      → Calm c (handle_headers_subscribe o url r c).0
  unfolding handle_headers_subscribe
  handle_headers_subscribe-Calm url r c h = tip_first-Calm url c.pool.cached_chain_tip r c h

  changed_answer-Calm : (msg : Option Json) (c : Connection) → Calm c (changed_answer o msg c).0
  unfolding changed_answer
  changed_answer-Calm none c = record { written = refl; deferred = refl; local = λ all. all }
  changed_answer-Calm (some msg) c = Calm-self c

  answer_to-Calm :
      (found : Option (String × String)) (msg : Json) (c : Connection)
      → Calm c (answer_to o found msg c).0
  unfolding answer_to
  answer_to-Calm none msg c = Calm-self c
  answer_to-Calm (some found) msg c = changed_answer-Calm _ c

  answer_of-Calm : (id msg : Json) (c : Connection) → Calm c (answer_of o id msg c).0
  unfolding answer_of
  answer_of-Calm id msg c =
      let (left, found) = remove_id id c.session.pending_methods in
      let c' = with_session c (record c.session { pending_methods = left }) in
      Calm-then {d = c'} (record { written = refl; deferred = refl; local = λ all. all })
        (answer_to-Calm found msg c')

  forwarded_answer-Calm :
      (f : Forwarded) (r : JsonRpcRequest) (c : Connection) → Calm c (forwarded_answer o f r c).0
  unfolding forwarded_answer
  forwarded_answer-Calm (task_failed e) r c = Calm-self c
  forwarded_answer-Calm timed_out r c = Calm-self c
  forwarded_answer-Calm (reply none) r c = Calm-self c
  forwarded_answer-Calm (reply (some resp)) r c =
      elim (Option-cases (o.serde.from_str (trim resp))) [
        | inl e ↦ rw (e, forwarded_answer) (Calm-self c)
        | inr (msg, e) ↦ rw (e, forwarded_answer) (answer_of-Calm r.id msg c)
      ]

  pub forward_subrequest_sync-Calm :
      (url : String) (r : JsonRpcRequest) (c : Connection)
      → Calm c (forward_subrequest_sync o url r c).0
  unfolding forward_subrequest_sync
  forward_subrequest_sync-Calm url r c = elim (Bool-cases (is_broadcast_method r.method)) [
    | inl y ↦ rw y (Calm-self c)
    | inr n ↦ rw n (
        Calm-then
          (Calm-then {d = with_session c (track_request r c.session)}
            (record {
              written = refl;
              deferred = track_request-deferred r c.session;
              local = λ all. all;
            })
            (log_forwarded-Calm r _ n))
          (forwarded_answer-Calm (o.forward_to_indexer_sync url r) r _))
  ]
