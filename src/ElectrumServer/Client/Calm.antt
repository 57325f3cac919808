-- ===== src/ElectrumServer/Client/Calm.antt =====
-- The requests of a line write nothing by themselves, and none of them goes to the indexer as a
-- broadcast.
use umbrel_apps.Prelude.{
  ℕ, Result, is_char_boundary, String, Option, none, some, Bool, true, false, ◌||◌, List, [], ◌∷◌,
  ◌≡◌, refl, inl, inr, str_eq, is_empty, Bool-cases, length, suc, ap, not_both, if◌then◌else◌,
}
use umbrel_apps.Prelude.Json.{Json}
use umbrel_apps.Config.Settings.{NetworkType}
use umbrel_apps.ElectrumServer.Requests.{
  JsonRpcRequest, is_broadcast_method, is_local_handshake_method,
}
use umbrel_apps.ElectrumServer.Session.{SessionState, track_scripthash_interest}
use umbrel_apps.ElectrumServer.Answers.{Outside, Connection}
use umbrel_apps.ElectrumServer.Answers.Calm.{
  NotBroadcast, Calm, Calm-self, Calm-then, handle_headers_subscribe-Calm,
  forward_subrequest_sync-Calm,
}
use umbrel_apps.ElectrumServer.Client.{
  known_tx, known_or_indexer, answer_rest, interested, unless_cut, shown_or_rest, hash_or_rest,
  status_or_rest, answer_history, answer_subscribe, answer_by_method, fast_or_method,
  handle_one_subrequest, answer_all,
}

interest-deferred :
    (sh : String) (s : SessionState)
    → (track_scripthash_interest sh s).deferred_indexer_out ≡ s.deferred_indexer_out
unfolding track_scripthash_interest
interest-deferred sh s = elim (Bool-cases (is_empty sh)) [ inl y ↦ rw y refl | inr n ↦ rw n refl ]

module _ (o : Outside) (network : NetworkType) (url : String) (r : JsonRpcRequest)
    (plain : NotBroadcast r) where
  known_or_indexer-Calm :
      (known : Option String) (c : Connection) → Calm c (known_or_indexer o network url known r c).0
  unfolding known_or_indexer
  known_or_indexer-Calm (some hex) c = Calm-self c
  known_or_indexer-Calm none c =
      elim (Bool-cases (str_eq r.method "blockchain.headers.subscribe")) [
        | inl y ↦ rw y (handle_headers_subscribe-Calm o url r c plain)
        | inr n ↦ elim (Bool-cases (is_empty url)) [
          | inl e ↦ rw (n, e) (Calm-self c)
          | inr e ↦ rw (n, e) (forward_subrequest_sync-Calm o url r c)
        ]
      ]

  answer_rest-Calm : (c : Connection) → Calm c (answer_rest o network url r c).0
  unfolding answer_rest
  answer_rest-Calm c = known_or_indexer-Calm (known_tx o network url r c) c

  interested-Calm : (sh : String) (c : Connection) → Calm c (interested o network url sh c)
  interested-Calm sh c = record {
    written = refl;
    deferred = interest-deferred sh c.session;
    local = λ all. all;
  }

  unless_cut-Calm :
      (sh : String) (c : Connection) (answer : Connection × Result Json)
      → Calm c answer.0
      → Calm c (unless_cut o network url sh answer).0
  unfolding unless_cut
  unless_cut-Calm sh c answer p = elim (Bool-cases (is_char_boundary 16 sh)) [
    | inl y ↦ rw y p
    | inr n ↦ rw n (Calm-then p (record { written = refl; deferred = refl; local = λ all. all }))
  ]

  shown_or_rest-Calm :
      (sh : String) (ps : List String) (c : Connection)
      → Calm c (shown_or_rest o network url sh ps r c).0
  unfolding shown_or_rest
  shown_or_rest-Calm sh [] c = answer_rest-Calm c
  shown_or_rest-Calm sh (p ∷ ps) c = unless_cut-Calm sh c _ (Calm-self c)

  hash_or_rest-Calm :
      (h : Option String) (c : Connection) → Calm c (hash_or_rest o network url h r c).0
  unfolding hash_or_rest
  hash_or_rest-Calm none c = answer_rest-Calm c
  hash_or_rest-Calm (some h) c = Calm-self c

  status_or_rest-Calm :
      (sh : String) (ps : List String) (c : Connection)
      → Calm c (status_or_rest o network url sh ps r c).0
  unfolding status_or_rest
  status_or_rest-Calm sh [] c = answer_rest-Calm c
  status_or_rest-Calm sh (p ∷ ps) c = unless_cut-Calm sh c _ (hash_or_rest-Calm _ c)

  answer_history-Calm :
      (sh : Option String) (c : Connection) → Calm c (answer_history o network url sh r c).0
  unfolding answer_history
  answer_history-Calm none c = answer_rest-Calm c
  answer_history-Calm (some sh) c =
      Calm-then (interested-Calm sh c) (shown_or_rest-Calm sh _ (interested o network url sh c))

  answer_subscribe-Calm :
      (sh : Option String) (c : Connection) → Calm c (answer_subscribe o network url sh r c).0
  unfolding answer_subscribe
  answer_subscribe-Calm none c = answer_rest-Calm c
  answer_subscribe-Calm (some sh) c =
      Calm-then (interested-Calm sh c) (status_or_rest-Calm sh _ (interested o network url sh c))

  answer_by_method-Calm : (c : Connection) → Calm c (answer_by_method o network url r c).0
  unfolding answer_by_method
  answer_by_method-Calm c =
      elim (Bool-cases (
        str_eq r.method "blockchain.scripthash.get_history"
        || str_eq r.method "blockchain.scripthash.get_mempool")) [
          | inl y ↦ rw y (answer_history-Calm _ c)
          | inr n ↦ elim (Bool-cases (str_eq r.method "blockchain.scripthash.subscribe")) [
            | inl y ↦ rw (n, y) (answer_subscribe-Calm _ c)
            | inr m ↦ rw (n, m) (answer_rest-Calm c)
          ]
        ]

if-Calm :
    (b : Bool) {c : Connection} (x y : Connection × List Json)
    → Calm c x.0
    → Calm c y.0
    → Calm c (if b then x else y).0
if-Calm true x y p q = p
if-Calm false x y p q = q

if-length :
    (b : Bool) (c : Connection) (y : Connection × List Json) (n : ℕ)
    → c.panicked ≡ b
    → (if b then (c, []) else y).0.panicked ≡ false
    → (y.0.panicked ≡ false → length y.1 ≡ n)
    → length (if b then (c, []) else y).1 ≡ n
if-length true c y n e h k = elim (not_both e h) [ ]
if-length false c y n e h k = k h

module _ (o : Outside) (network : NetworkType) (url : String) where
  fast_or_method-Calm :
      (v : Option Json) (r : JsonRpcRequest) (c : Connection)
      → Calm c (fast_or_method o network url v r c).0
  unfolding fast_or_method
  fast_or_method-Calm (some v) r c = Calm-self c
  fast_or_method-Calm none r c = elim (Bool-cases (is_broadcast_method r.method)) [
    | inl y ↦ rw y (Calm-self c)
    | inr n ↦ rw n (answer_by_method-Calm o network url r n c)
  ]

  pub handle_one_subrequest-Calm :
      (r : JsonRpcRequest) (c : Connection) → Calm c (handle_one_subrequest o network url r c).0
  unfolding handle_one_subrequest
  handle_one_subrequest-Calm r c = elim (Bool-cases (is_local_handshake_method r.method)) [
    | inl y ↦ rw y (Calm-self c)
    | inr n ↦ rw n (fast_or_method-Calm _ r c)
  ]

  pub answer_all-Calm :
      (rs : List JsonRpcRequest) (c : Connection) → Calm c (answer_all o network url rs c).0
  unfolding answer_all
  answer_all-Calm [] c = Calm-self c
  answer_all-Calm (r ∷ rs) c = if-Calm c.panicked _ _ (Calm-self c) (
      Calm-then (handle_one_subrequest-Calm r c)
        (answer_all-Calm rs (handle_one_subrequest o network url r c).0))

  -- A line whose task has not panicked has a response to each request.
  pub answer_all-length :
      (rs : List JsonRpcRequest) (c : Connection)
      → (answer_all o network url rs c).0.panicked ≡ false
      → length (answer_all o network url rs c).1 ≡ length rs
  unfolding answer_all
  answer_all-length [] c h = refl
  answer_all-length (r ∷ rs) c h =
      if-length c.panicked c _ _ refl h
        (λ k. ap suc (answer_all-length rs (handle_one_subrequest o network url r c).0 k))
