-- ===== src/Pool/Restart/Shown.antt =====
-- After a restart the transactions that wait are in the virtual mempool again.
use umbrel_apps.Prelude.{
  ℕ, ◌≤◌, String, some, Bool, true, false, ◌||◌, List, [], ◌∷◌, ◌++◌, ◌≡◌, refl, ap, subst, ◌∙◌,
  inl, inr, ◌⊎◌, Result, ok, err, is_ok, is_some, str_eq, eq_refl, if◌then◌else◌, arith, leb,
  filter, length, All, Bool-cases, Result-cases,
}
use umbrel_apps.Db.Models.{Row}
use umbrel_apps.Db.Table.{
  Table, get_broadcast_tx_by_id, matches_filter, insert_desc, order_desc, list_broadcast_txs,
}
use umbrel_apps.Db.Table.Select.{length-order_desc, take_all}
use umbrel_apps.VirtualMempool.Inputs.{
  Chain, strip_indexer_host, output_scripthashes, add_fetched, extract_affected_scripthashes,
}
use umbrel_apps.Pool.Manager.{
  PoolManager, PendingTxOutput, merge_scripthashes, store_pending_tx, has_pending_tx,
  get_pending_tx_hex,
}
use umbrel_apps.Pool.Manager.Mempool.{get_pending_tx_hex-store_pending_tx}
use umbrel_apps.ElectrumServer.Ingest.{decode_tx}
use umbrel_apps.Pool.Restart.{row_txid, stored, rehydrate, rehydrate_all, load_pending_from_db}

has_pending_tx-store_pending_tx :
    (k j hex : String) (shs : List String) (os : List PendingTxOutput) (m : PoolManager)
    → has_pending_tx j (store_pending_tx k hex shs os m) ≡ (str_eq k j || has_pending_tx j m)
unfolding has_pending_tx
has_pending_tx-store_pending_tx k j hex shs os m =
    ap is_some (get_pending_tx_hex-store_pending_tx k j hex shs os m) ∙ split (str_eq k j)
  where
    split :
        (b : Bool)
        → is_some (if b then some hex else get_pending_tx_hex j m)
          ≡ (b || is_some (get_pending_tx_hex j m))
    split true = refl
    split false = refl

module _ (n : Chain) (addr : String) where
  -- The row has a txid and a transaction that is readable, and the txid is pending.
  IsBack : PoolManager → Row → Type 0
  IsBack m tx =
      (txid : String)
      → row_txid n tx ≡ ok txid
      → is_ok (decode_tx n.bitcoin tx.tx_hex) ≡ true
      → has_pending_tx txid m ≡ true

  stored-keeps :
      (tx : Row) (id : Result String) (shs : Result (List String)) (j : String) (m : PoolManager)
      → has_pending_tx j m ≡ true
      → has_pending_tx j (stored n tx id shs m).0 ≡ true
  stored-keeps tx (ok id) (ok shs) j m h =
      has_pending_tx-store_pending_tx id j tx.tx_hex shs _ m ∙ ground (arith, h)
  stored-keeps tx (ok id) (err e) j m h = h
  stored-keeps tx (err e) shs j m h = h

  rehydrate_all-keeps :
      (txs : List Row) (m : PoolManager) (count : ℕ) (j : String)
      → has_pending_tx j m ≡ true
      → has_pending_tx j (rehydrate_all n addr txs m count).0 ≡ true
  unfolding rehydrate_all rehydrate
  rehydrate_all-keeps [] m count j h = h
  rehydrate_all-keeps (tx ∷ txs) m count j h =
      rehydrate_all-keeps txs _ _ j (stored-keeps tx (row_txid n tx) _ j m h)

  readable-affected :
      (tx_hex : String)
      → is_ok (decode_tx n.bitcoin tx_hex) ≡ true
      → (shs : List String) × (extract_affected_scripthashes n tx_hex addr ≡ ok shs)
  unfolding extract_affected_scripthashes
  readable-affected tx_hex h = elim (Result-cases (decode_tx n.bitcoin tx_hex)) [
    | inl (tx, e) ↦ (
      add_fetched n addr tx.input (merge_scripthashes [] (output_scripthashes n.bitcoin tx)),
      unfold extract_affected_scripthashes in rw e refl,
    )
    | inr (msg, e) ↦ absurd (ground (arith, h, e))
  ]

  rehydrate-shows :
      (tx : Row) (m : PoolManager) (txid : String)
      → row_txid n tx ≡ ok txid
      → is_ok (decode_tx n.bitcoin tx.tx_hex) ≡ true
      → has_pending_tx txid (rehydrate n addr tx m).0 ≡ true
  unfolding rehydrate
  rehydrate-shows tx m txid named readable =
      let (shs, e) = readable-affected tx.tx_hex readable in
      ap
        (λ id.
          has_pending_tx txid (stored n tx id (extract_affected_scripthashes n tx.tx_hex addr) m).0)
        named
      ∙ ap (λ s. has_pending_tx txid (stored n tx (ok txid) s m).0) e
      ∙ has_pending_tx-store_pending_tx txid txid tx.tx_hex shs _ m
      ∙ rw (eq_refl txid) refl

  rehydrate_all-IsBack :
      (txs : List Row) (m : PoolManager) (count : ℕ)
      → All (IsBack (rehydrate_all n addr txs m count).0) txs
  unfolding rehydrate_all IsBack
  rehydrate_all-IsBack [] m count = tt
  rehydrate_all-IsBack (tx ∷ txs) m count = (
    λ txid named readable.
        rehydrate_all-keeps txs _ _ txid (rehydrate-shows tx m txid named readable),
    rehydrate_all-IsBack txs _ _,
  )

All-of_insert : (P : Row → Type 0) (r : Row) (t : Table) → All P (insert_desc r t) → P r × All P t
unfolding insert_desc
All-of_insert P r [] a = (a.0, tt)
All-of_insert P r (s ∷ t) a = elim (Bool-cases (leb s.created_at r.created_at)) [
  | inl y ↦ (let b = rw (y, insert_desc) at a in b)
  | inr k ↦
      (let b = rw (k, insert_desc) at a in
        let (h, rest) = All-of_insert P r t b.1 in (h, (b.0, rest)))
]

All-of_order : (P : Row → Type 0) (t : Table) → All P (order_desc t) → All P t
unfolding order_desc
All-of_order P [] a = tt
All-of_order P (r ∷ t) a =
    let (h, rest) = All-of_insert P r (order_desc t) a in (h, All-of_order P t rest)

All-of_append : (P : Row → Type 0) (xs ys : List Row) → All P (xs ++ ys) → All P xs × All P ys
All-of_append P [] ys a = (tt, a)
All-of_append P (x ∷ xs) ys a = let (p, q) = All-of_append P xs ys a.1 in ((a.0, p), q)

-- A row of the table that the filter lets through.
of_filter :
    (P : Row → Type 0) (p : Row → Bool) (t : Table) (r : Row)
    → All P (filter p t)
    → get_broadcast_tx_by_id r.id t ≡ ok r
    → p r ≡ true
    → P r
unfolding get_broadcast_tx_by_id
of_filter P p [] r a e h = cc
of_filter P p (s ∷ t) r a e h = elim (Bool-cases (str_eq s.id r.id)) [
  | inl y ↦
      (let same : s ≡ r = found (rw (y, get_broadcast_tx_by_id) at e) in
        subst P same (rw (ap p same ∙ h) at a).0)
  | inr k ↦ of_filter P p t r (behind (p s) a) (rw (k, get_broadcast_tx_by_id) at e) h
]
  where
    found : {a b : Row} → ok a ≡ ok b → a ≡ b
    found h = cc

    behind : (b : Bool) → All P (if b then s ∷ filter p t else filter p t) → All P (filter p t)
    behind true a = a.1
    behind false a = a

listed :
    (P : Row → Type 0) (status network : String) (t : Table) (r : Row)
    → All P (list_broadcast_txs (some status) network 10_000 t)
    → length (filter (matches_filter (some status) network) t) ≤ 10_000
    → get_broadcast_tx_by_id r.id t ≡ ok r
    → matches_filter (some status) network r ≡ true
    → P r
unfolding list_broadcast_txs
listed P status network t r a few stored h =
    let p = matches_filter (some status) network in
    let found = filter p t in
    let all = take_all 10_000 (order_desc found) (omega (arith, few, length-order_desc found)) in
    of_filter P p t r (All-of_order P found (subst (All P) all a)) stored h

-- After a restart a transaction that waits, pending or scheduled on the pool's network, is in the
-- virtual mempool again, if it can be decoded, an indexer is configured, and no more than 10,000 wait
-- in either status.
pub load_pending_from_db-has_pending_tx :
    (n : Chain) (url : String) (m : PoolManager) (r : Row) (txid : String)
    → length (filter (matches_filter (some "pending") m.config.network) m.db) ≤ 10_000
    → length (filter (matches_filter (some "scheduled") m.config.network) m.db) ≤ 10_000
    → get_broadcast_tx_by_id r.id m.db ≡ ok r
    → (matches_filter (some "pending") m.config.network r ≡ true)
      ⊎ (matches_filter (some "scheduled") m.config.network r ≡ true)
    → row_txid n r ≡ ok txid
    → is_ok (decode_tx n.bitcoin r.tx_hex) ≡ true
    → has_pending_tx txid (load_pending_from_db n (some url) m).0 ≡ true
unfolding load_pending_from_db IsBack
load_pending_from_db-has_pending_tx n url m r txid few few' here waits named readable =
    let network = m.config.network in
    let addr = strip_indexer_host url in
    let waiting = list_broadcast_txs (some "pending") network 10_000 m.db in
    let scheduled = list_broadcast_txs (some "scheduled") network 10_000 m.db in
    let P = IsBack n addr (rehydrate_all n addr (waiting ++ scheduled) m 0).0 in
    let (a, b) =
      All-of_append P waiting scheduled (rehydrate_all-IsBack n addr (waiting ++ scheduled) m 0) in
    elim waits [
      | inl w ↦ listed P "pending" network m.db r a few here w txid named readable
      | inr w ↦ listed P "scheduled" network m.db r b few' here w txid named readable
    ]
