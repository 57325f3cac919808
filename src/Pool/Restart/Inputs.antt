-- ===== src/Pool/Restart/Inputs.antt =====
-- A wallet that polls what an input spent from sees the transaction.
use umbrel_apps.Prelude.{
  ℕ, zero, suc, String, Option, none, some, Bool, true, false, ◌||◌, List, [], ◌∷◌, ◌++◌, ◌≡◌, refl,
  sym, ap, ◌∙◌, inl, inr, ok, str_eq, eq_refl, eq_iff, if◌then◌else◌, arith, take, Bool-cases,
  Option-cases,
}
use umbrel_apps.Prelude.Maps.{lookup}
use umbrel_apps.VirtualMempool.Txid.{Hex}
use umbrel_apps.VirtualMempool.Inputs.{
  Chain, strip_indexer_host, output_scripthashes, spent_scripthash, lookup_prev_tx_hex,
  resolve_prev_tx, resolved_scripthash, push_new, push_inputs, enrich_input_scripthashes,
}
use umbrel_apps.VirtualMempool.Inject.Shown.{stored_listed}
use umbrel_apps.Pool.Manager.{
  PoolManager, mentions, merge_scripthashes, merge_info, merge_pending_scripthashes,
  get_pending_tx_hex, has_pending_tx, get_pending_txids_for_scripthash, lookup_tx_hex,
}
use umbrel_apps.Pool.Manager.Mempool.{mentions-append}
use umbrel_apps.ElectrumServer.Lines.{at}
use umbrel_apps.ElectrumServer.Ingest.{Transaction, TxIn, TxOut, decode_tx}
use umbrel_apps.Pool.Restart.{merged, enrich_pending_input_scripthashes}

-- What the next merge starts from.
next-has :
    (have : List String) (x s : String) (rest b : Bool)
    → mentions have x ≡ b
    → (mentions have s || (str_eq x s || rest)) ≡ true
    → (mentions (if b then have else have ++ (x ∷ [])) s || rest) ≡ true
next-has have x s rest true e h = elim (Bool-cases (str_eq x s)) [
  | inl y ↦
      (let there : mentions have s ≡ true = sym (ap (mentions have) ((eq_iff x s).0 y)) ∙ e in
        rw there refl)
  | inr k ↦ ground (arith, h, k)
]
next-has have x s rest false e h = ground (arith, h, mentions-append have (x ∷ []) s)

merge_scripthashes-has :
    (have extra : List String) (s : String)
    → (mentions have s || mentions extra s) ≡ true
    → mentions (merge_scripthashes have extra) s ≡ true
unfolding merge_scripthashes
merge_scripthashes-has have [] s h = ground (arith, h)
merge_scripthashes-has have (x ∷ extra) s h =
    merge_scripthashes-has (if mentions have x then have else have ++ (x ∷ [])) extra s
      (next-has have x s (mentions extra s) (mentions have x) refl h)

module _ (n : Chain) (hex : Hex) (find : String → Option String) (addr : String) where
  push_new-keeps :
      (outs : List String) (o : Option String) (acc : List String) (s : String)
      → mentions acc s ≡ true
      → mentions (push_new n hex find outs o acc) s ≡ true
  push_new-keeps outs none acc s h = h
  push_new-keeps outs (some sh) acc s h = ground (arith, h, mentions-append acc (sh ∷ []) s)

  push_new-has :
      (outs acc : List String) (s : String)
      → mentions outs s ≡ false
      → mentions (push_new n hex find outs (some s) acc) s ≡ true
  push_new-has outs acc s h = ground (arith, h, eq_refl s, mentions-append acc (s ∷ []) s)

  push_inputs-keeps :
      (outs : List String) (is : List TxIn) (acc : List String) (s : String)
      → mentions acc s ≡ true
      → mentions (push_inputs n hex find addr outs is acc) s ≡ true
  unfolding push_inputs
  push_inputs-keeps outs [] acc s h = h
  push_inputs-keeps outs (i ∷ is) acc s h =
      push_inputs-keeps outs is _ s
        (push_new-keeps outs (resolved_scripthash n hex find addr i) acc s h)

  push_inputs-has :
      (outs : List String) (is : List TxIn) (acc : List String) (k : ℕ) (i : TxIn) (s : String)
      → at k is ≡ some i
      → resolved_scripthash n hex find addr i ≡ some s
      → mentions outs s ≡ false
      → mentions (push_inputs n hex find addr outs is acc) s ≡ true
  unfolding push_inputs
  push_inputs-has outs [] acc k i s e r new = cc
  push_inputs-has outs (j ∷ is) acc zero i s e r new = push_inputs-keeps outs is _ s (
      ap (λ o. mentions (push_new n hex find outs o acc) s) (at_head ∙ r)
      ∙ push_new-has outs acc s new)
    where
      some_inv : {a b : TxIn} → some a ≡ some b → a ≡ b
      some_inv h = cc

      at_head : resolved_scripthash n hex find addr j ≡ resolved_scripthash n hex find addr i
      at_head = ap (resolved_scripthash n hex find addr) (some_inv e)
  push_inputs-has outs (j ∷ is) acc (suc k) i s e r new = push_inputs-has outs is _ k i s e r new

merged-has :
    (txid : String) (extra : List String) (sh : String) (m : PoolManager)
    → mentions extra sh ≡ true
    → has_pending_tx txid m ≡ true
    → mentions (get_pending_txids_for_scripthash sh (merged txid (ok extra) m)) txid ≡ true
unfolding has_pending_tx get_pending_tx_hex merge_pending_scripthashes
merged-has txid [] sh m h pending = absurd (ground (arith, h))
merged-has txid (x ∷ extra) sh m h pending = elim (Option-cases (lookup txid m.pending_txs)) [
  | inl e ↦ absurd (absent e pending)
  | inr (info, e) ↦
      unfold get_pending_txids_for_scripthash in
      rw (e, merge_pending_scripthashes)
        (stored_listed sh txid (merge_info (x ∷ extra) info) m.pending_txs (
          unfold merge_info in
          merge_scripthashes-has info.scripthashes (x ∷ extra) sh (ground (arith, h))))
]
  where
    absent : lookup txid m.pending_txs ≡ none → has_pending_tx txid m ≡ true → ⊥
    absent e h = cc

-- While a transaction is pending, the background task makes it visible at what its inputs spent from:
-- where an input that the task looks at in time spends an output of a transaction that the pool knows,
-- and no output pays to the same scripthash, a poll of that scripthash lists the transaction.
pub enrich_pending_input_scripthashes-lists :
    (n : Chain) (hex : Hex) (txid tx_hex prev_hex url : String) (budget k : ℕ) (m : PoolManager)
    (tx prev_tx : Transaction) (i : TxIn) (out : TxOut)
    → has_pending_tx txid m ≡ true
    → decode_tx n.bitcoin tx_hex ≡ ok tx
    → at k (take budget tx.input) ≡ some i
    → lookup_tx_hex hex i.previous_txid m ≡ some prev_hex
    → decode_tx n.bitcoin prev_hex ≡ ok prev_tx
    → at i.vout prev_tx.output ≡ some out
    → mentions (output_scripthashes n.bitcoin tx) (n.bitcoin.compute_scripthash out.script_pubkey)
      ≡ false
    → mentions
        (get_pending_txids_for_scripthash
          (n.bitcoin.compute_scripthash out.script_pubkey)
          (enrich_pending_input_scripthashes n hex txid tx_hex url budget m))
        txid
      ≡ true
unfolding enrich_pending_input_scripthashes enrich_input_scripthashes
enrich_pending_input_scripthashes-lists n hex txid tx_hex prev_hex url budget k m tx prev_tx i out
      pending decoded here known prev_decoded spent new =
    let find : String → Option String = λ id. lookup_tx_hex hex id m in
    let addr = strip_indexer_host url in
    let sh = n.bitcoin.compute_scripthash out.script_pubkey in
    let outs = output_scripthashes n.bitcoin tx in
    let resolved : resolved_scripthash n hex find addr i ≡ some sh =
      unfold resolve_prev_tx in
      unfold lookup_prev_tx_hex in rw known (rw prev_decoded (rw (spent, spent_scripthash) refl)) in
    rw decoded (
      merged-has txid (push_inputs n hex find addr outs (take budget tx.input) []) sh m
        (push_inputs-has n hex find addr outs (take budget tx.input) [] k i sh here resolved new)
        pending)
