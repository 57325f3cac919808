-- ===== src/ElectrumServer/Process/Answered.antt =====
-- What a line of a client leads to: an answer, and no broadcast at the indexer.
use umbrel_apps.Prelude.{
  Option-cases, is_char_boundary, not, ◌&&◌, arith, ℕ, String, Option, none, some, Bool, true,
  false, List, [], ◌∷◌, ◌++◌, ◌≡◌, refl, sym, ap, ◌∙◌, ◌⊎◌, inl, inr, Result, ok, err, is_empty,
  if◌then◌else◌, trim, All,
}
use umbrel_apps.Prelude.Json.{Json, items_of, array}
use umbrel_apps.Config.Settings.{NetworkType}
use umbrel_apps.ElectrumServer.Ingest.{Bitcoin}
use umbrel_apps.ElectrumServer.Requests.{
  JsonRpcRequest, extract_broadcast_hex, parse_subrequests, line_looks_like_broadcast,
}
use umbrel_apps.ElectrumServer.Answers.{local_electrum_response, Outside, Connection, with_session}
use umbrel_apps.ElectrumServer.Answers.Calm.{
  NotBroadcast, Calm, Calm-then, spawn_chain_tip_refresh-Calm,
}
use umbrel_apps.ElectrumServer.Client.{
  write, answer_all, write_client_responses, flush_deferred_indexer_out,
}
use umbrel_apps.ElectrumServer.Client.Calm.{answer_all-Calm}
use umbrel_apps.ElectrumServer.Process.{
  preview, pre_ack, acknowledged, intercept_and_handle_broadcast, broadcast_request,
  answer_requests, broadcast_or_answer, parsed_line, unparsed_broadcast, handshake, local_responses,
  first_broadcast_request, line_mentions_tx_rpc, broadcast_or_parsed, other_line, tip_or_other,
  handshake_or_other, counted, process_client_line,
}

-- One line more is written, or the task panicked with an excuse; and no broadcast went to the indexer.
pub record Answered (E : Type 0) (c c' : Connection) : Type 0 where
  pub answer : ((c'.panicked ≡ true) × E) ⊎ ((v : Json) × (c'.written ≡ c.written ++ (v ∷ [])))
  pub deferred : c'.session.deferred_indexer_out ≡ c.session.deferred_indexer_out
  pub local : All NotBroadcast c.forwarded → All NotBroadcast c'.forwarded

panicked-Answered : {E : Type 0} (c : Connection) → E → Answered E c (record c { panicked = true })
panicked-Answered c e = record { answer = inl (refl, e); deferred = refl; local = λ all. all }

Answered-write : {E : Type 0} (v : Json) (c : Connection) → Answered E c (write v c)
Answered-write v c = record { answer = inr (v, refl); deferred = refl; local = λ all. all }

-- After what writes nothing.
Answered-after : {E : Type 0} {c d e : Connection} → Calm c d → Answered E d e → Answered E c e
Answered-after {E} {c} {d} {e} p q = record {
  answer = elim q.answer [
    | inl h ↦ inl h
    | inr (v, h) ↦ inr (v, h ∙ ap (λ w. w ++ (v ∷ [])) p.written)
  ];
  deferred = q.deferred ∙ p.deferred;
  local = λ all. q.local (p.local all);
}

write_client_responses-Answered :
    {E : Type 0} (vs : List Json) (batch : Bool) (c : Connection)
    → (vs ≡ [] → E)
    → Answered E c (write_client_responses vs batch c)
unfolding write_client_responses
write_client_responses-Answered vs true c missing = Answered-write (array (items_of vs)) c
write_client_responses-Answered [] false c missing = panicked-Answered c (missing refl)
write_client_responses-Answered (v ∷ vs) false c missing = Answered-write v c

append-nil : (xs ys : List Json) → ys ≡ [] → xs ++ ys ≡ xs
append-nil [] ys h = h
append-nil (x ∷ xs) ys h = ap (λ l. x ∷ l) (append-nil xs ys h)

flushed :
    {E : Type 0} {c d : Connection}
    → c.session.deferred_indexer_out ≡ []
    → Answered E c d
    → Answered E c (flush_deferred_indexer_out d)
unfolding flush_deferred_indexer_out
flushed {E} {c} {d} empty p = record {
  answer = elim p.answer [
    | inl h ↦ inl h
    | inr (v, h) ↦
        inr (v, append-nil d.written d.session.deferred_indexer_out (p.deferred ∙ empty) ∙ h)
  ];
  deferred = sym empty;
  local = p.local;
}

module _ (bt : Bitcoin) (source_label : String) (id : Json) (tx_hex : String) where
  acknowledged-Answered :
      {E : Type 0} (txid : Result String) (c : Connection)
      → Answered E c (acknowledged bt source_label id tx_hex txid c)
  unfolding acknowledged pre_ack
  acknowledged-Answered (err e) c = Answered-write _ c
  acknowledged-Answered (ok txid) c = record {
    answer = inr (_, refl);
    deferred = refl;
    local = λ all. all;
  }

  intercept-Answered :
      {E : Type 0} (o : Outside) (c : Connection)
      → Answered E c (intercept_and_handle_broadcast o bt source_label id tx_hex c)
  unfolding intercept_and_handle_broadcast
  intercept-Answered o c =
      let d = with_session c (record c.session { broadcast_intercepted = true }) in
      Answered-after {d = d} (record { written = refl; deferred = refl; local = λ all. all })
        (acknowledged-Answered (preview o bt tx_hex) d)

if-Answered :
    {E : Type 0} (b : Bool) {c : Connection} (x y : Connection)
    → (b ≡ true → Answered E c x)
    → (b ≡ false → Answered E c y)
    → Answered E c (if b then x else y)
if-Answered true x y p q = p refl
if-Answered false x y p q = q refl

if_panicked :
    {E : Type 0} (b : Bool) (c d e : Connection)
    → d.panicked ≡ b
    → E
    → Calm c d
    → Answered E c e
    → Answered E c (if b then d else e)
if_panicked true c d e h x p q = record {
  answer = inl (h, x);
  deferred = p.deferred;
  local = p.local;
}
if_panicked false c d e h x p q = q

module _ (o : Outside) (bt : Bitcoin) (network : NetworkType) (source_label url : String) where
  -- The requests of the line are answered from the pool and by the indexer: none is a broadcast.
  abbrev pub IsOrdinary : String → Type 0
  IsOrdinary line =
      (extract_broadcast_hex o.serde line ≡ none)
      × ((rs : List JsonRpcRequest) × (parse_subrequests o.serde line ≡ ok rs)
          × (first_broadcast_request rs ≡ none))

  -- When the task may panic: where a preview in the log ends inside a character, or on an ordinary line.
  abbrev pub MayPanic : String → Type 0
  MayPanic line =
      ((line_mentions_tx_rpc line ≡ true) × (is_char_boundary 200 line ≡ false))
      ⊎ ((line_looks_like_broadcast line ≡ true) × (is_char_boundary 240 line ≡ false))
      ⊎ IsOrdinary line

  answer_requests-Answered :
      {E : Type 0} (batch : Bool) (rs : List JsonRpcRequest) (c : Connection)
      → c.session.deferred_indexer_out ≡ []
      → E
      → Answered E c (answer_requests o bt network source_label url batch rs c)
  unfolding answer_requests
  answer_requests-Answered batch rs c h x =
      let busy = with_session c (record c.session { client_busy = true }) in
      let (d, vs) = answer_all o network url rs busy in
      let calm : Calm c d =
        Calm-then {d = busy} (record { written = refl; deferred = refl; local = λ all. all })
          (answer_all-Calm o network url rs busy) in
      if_panicked d.panicked c d _ refl x calm
        (flushed h (Answered-after calm (write_client_responses-Answered vs batch d (λ e. x))))

  broadcast_request-Answered :
      {E : Type 0} (hex : Option String) (r : JsonRpcRequest) (c : Connection)
      → Answered E c (broadcast_request o bt network source_label hex r c)
  unfolding broadcast_request
  broadcast_request-Answered (some hex) r c = intercept-Answered bt source_label r.id hex o c
  broadcast_request-Answered none r c = Answered-write _ c

  broadcast_or_answer-Answered :
      {E : Type 0} (b : Option JsonRpcRequest) (batch : Bool) (rs : List JsonRpcRequest)
      (c : Connection)
      → c.session.deferred_indexer_out ≡ []
      → (b ≡ none → E)
      → Answered E c (broadcast_or_answer o bt network source_label url b batch rs c)
  unfolding broadcast_or_answer
  broadcast_or_answer-Answered (some r) batch rs c h x = broadcast_request-Answered _ r c
  broadcast_or_answer-Answered none batch rs c h x = answer_requests-Answered batch rs c h (x refl)

  parsed_line-Answered :
      (line : String) (rs : Result (List JsonRpcRequest)) (c : Connection)
      → extract_broadcast_hex o.serde line ≡ none
      → parse_subrequests o.serde line ≡ rs
      → c.session.deferred_indexer_out ≡ []
      → Answered (MayPanic line) c (parsed_line o bt network source_label url rs line c)
  unfolding parsed_line
  parsed_line-Answered line (err e) c plain parsed h = Answered-write _ c
  parsed_line-Answered line (ok rs) c plain parsed h =
      broadcast_or_answer-Answered (first_broadcast_request rs) _ rs c h
        (λ e. inr (inr (plain, (rs, parsed, e))))

  unparsed_broadcast-Answered :
      (line : String) (c : Connection)
      → line_looks_like_broadcast line ≡ true
      → Answered (MayPanic line) c (unparsed_broadcast o bt network source_label url line c)
  unfolding unparsed_broadcast
  unparsed_broadcast-Answered line c looks =
      if-Answered (is_char_boundary 240 line) _ _ (λ y. Answered-write _ c)
        (λ n. panicked-Answered c (inr (inl (looks, n))))

  broadcast_or_parsed-Answered :
      (line : String) (b : Option (Json × String)) (c : Connection)
      → extract_broadcast_hex o.serde line ≡ b
      → c.session.deferred_indexer_out ≡ []
      → Answered (MayPanic line) c (broadcast_or_parsed o bt network source_label url b line c)
  unfolding broadcast_or_parsed
  broadcast_or_parsed-Answered line (some (id, hex)) c e h =
      intercept-Answered bt source_label id hex o c
  broadcast_or_parsed-Answered line none c e h =
      if-Answered (line_looks_like_broadcast line) _ _ (unparsed_broadcast-Answered line c)
        (λ n. parsed_line-Answered line (parse_subrequests o.serde line) c e refl h)

  other_line-Answered :
      (line : String) (c : Connection)
      → c.session.deferred_indexer_out ≡ []
      → Answered (MayPanic line) c (other_line o bt network source_label url line c)
  unfolding other_line
  other_line-Answered line c h =
      if-Answered (line_mentions_tx_rpc line && not (is_char_boundary 200 line)) _ _
        (λ y. panicked-Answered c (inl (ground arith, ground arith)))
        (λ n. broadcast_or_parsed-Answered line (extract_broadcast_hex o.serde line) c refl h)

  tip_or_other-Answered :
      (tip : Option (Json × (ℕ × String))) (line : String) (c : Connection)
      → c.session.deferred_indexer_out ≡ []
      → Answered (MayPanic line) c (tip_or_other o bt network source_label url tip line c)
  unfolding tip_or_other
  tip_or_other-Answered (some (id, tip)) line c h =
      Answered-after (spawn_chain_tip_refresh-Calm url c) (Answered-write _ _)
  tip_or_other-Answered none line c h = other_line-Answered line c h

  local_responses-full :
      (r : JsonRpcRequest) (rs : List JsonRpcRequest)
      → ¬ (local_responses o.version network (r ∷ rs) ≡ some [])
  unfolding local_responses
  local_responses-full r rs h = elim (Option-cases (local_electrum_response o.version network r)) [
    | inl e ↦ ground arith
    | inr (v, e) ↦ elim (Option-cases (local_responses o.version network rs)) [
      | inl f ↦ ground arith
      | inr (vs, f) ↦ ground arith
    ]
  ]

  -- A handshake has a request, and so an answer.
  handshake-full :
      (rs : Result (List JsonRpcRequest)) → ¬ (handshake o bt network source_label rs ≡ some [])
  unfolding handshake
  handshake-full (ok (r ∷ rs)) h = ground (arith, local_responses-full r rs)
  handshake-full (ok []) h = ground arith
  handshake-full (err e) h = ground arith

  handshake_or_other-Answered :
      (vs : Option (List Json)) (line : String) (c : Connection)
      → ¬ (vs ≡ some [])
      → c.session.deferred_indexer_out ≡ []
      → Answered (MayPanic line) c (handshake_or_other o bt network source_label url vs line c)
  unfolding handshake_or_other
  handshake_or_other-Answered (some vs) line c full h =
      write_client_responses-Answered vs _ c (λ e. absurd (full (ap some e)))
  handshake_or_other-Answered none line c full h = tip_or_other-Answered _ line c h

  -- A line that is not blank is answered by exactly one line, whatever it holds and whatever the indexer
  -- does, unless the task panics. It may panic only where a preview in the log, of 200 bytes of a line
  -- that mentions a transaction or 240 of one that looks like a broadcast, ends inside a character,
  -- or where the line is a list of requests with no broadcast among them. So a broadcast whose
  -- previews end with a character is always answered. And if no request that went to the indexer was
  -- a broadcast, none is after the line.
  pub process_client_line-Answered :
      (line : String) (c : Connection)
      → c.session.deferred_indexer_out ≡ []
      → is_empty (trim line) ≡ false
      → Answered (MayPanic line) c (process_client_line o bt network source_label url line c)
  unfolding process_client_line
  process_client_line-Answered line c h full = rw full (
      Answered-after {d = counted o bt network source_label url c}
        (record { written = refl; deferred = refl; local = λ all. all })
        (handshake_or_other-Answered
          (handshake o bt network source_label (parse_subrequests o.serde line)) line
          (counted o bt network source_label url c)
          (handshake-full (parse_subrequests o.serde line)) h))
