-- ===== src/Pool/Manager/Mempool.antt =====
-- The virtual mempool: what wallets are told about transactions that are not in Bitcoin's mempool.
use native.Mathlib.Nat.{mod-add-mod}
use umbrel_apps.Prelude.{
  ℕ, ◌+◌, ◌%◌, String, Option, none, some, Bool, true, false, ◌||◌, List, [], ◌∷◌, ◌++◌, ◌≡◌, refl,
  sym, ap, ◌∙◌, inl, inr, str_eq, arith, eq_iff, eq_refl, append-nil, if◌then◌else◌, ap-if, is_some,
  Bool-cases, Option-cases,
}
use umbrel_apps.Prelude.Maps.{lookup, remove, lookup-insert, lookup-remove}
use umbrel_apps.Prelude.Float.{F64}
use umbrel_apps.Db.Models.{DateTime}
use umbrel_apps.Pool.Manager.{
  PoolManager, PendingTxInfo, PendingTxOutput, store_pending_tx, merge_scripthashes, mentions,
  get_pending_tx_hex, has_pending_tx, utxos_of_outputs, utxos_of_pending,
  get_pending_utxos_for_scripthash, add_outputs, add_pending, get_pending_unconfirmed_value,
  u64_mod, remove_pending_tx, mark_broadcast,
}

abbrev pub hex_of : Option PendingTxInfo → Option String
hex_of none = none
hex_of (some info) = some info.tx_hex

-- A tx that was stored is found under its txid, and the others as before.
pub get_pending_tx_hex-store_pending_tx :
    (k j hex : String) (shs : List String) (os : List PendingTxOutput) (m : PoolManager)
    → get_pending_tx_hex j (store_pending_tx k hex shs os m)
      ≡ (if str_eq k j then some hex else get_pending_tx_hex j m)
unfolding get_pending_tx_hex store_pending_tx
get_pending_tx_hex-store_pending_tx k j hex shs os m =
    let info : PendingTxInfo = record { tx_hex = hex; scripthashes = shs; outputs = os } in
    ap hex_of (sym (lookup-insert k j info m.pending_txs))
    ∙ ap-if hex_of (str_eq k j) (some info) (lookup j m.pending_txs)

remove-unknown :
    (k : String) (p : List (String × PendingTxInfo)) → lookup k p ≡ none → remove k p ≡ p
unfolding lookup remove
remove-unknown k [] h = refl
remove-unknown k ((j, v) ∷ p) h = ground (arith, remove-unknown k p)

remove_pending_tx-pending_txs :
    (k : String) (m : PoolManager) → (remove_pending_tx k m).0.pending_txs ≡ remove k m.pending_txs
unfolding remove_pending_tx
remove_pending_tx-pending_txs k m = elim (Option-cases (lookup k m.pending_txs)) [
  | inl e ↦ rw (e, remove_pending_tx) (sym (remove-unknown k m.pending_txs e))
  | inr (info, e) ↦ rw (e, remove_pending_tx) refl
]

remove_pending_tx-notified :
    (k : String) (m : PoolManager)
    → (remove_pending_tx k m).0.scripthash_notifications
      ≡ m.scripthash_notifications ++ (remove_pending_tx k m).1
unfolding remove_pending_tx
remove_pending_tx-notified k m = elim (Option-cases (lookup k m.pending_txs)) [
  | inl e ↦ rw (e, remove_pending_tx) (sym (append-nil m.scripthash_notifications))
  | inr (info, e) ↦ rw (e, remove_pending_tx) refl
]

-- A removal takes out that tx and no other, and notifies the scripthashes that it returns.
pub get_pending_tx_hex-remove_pending_tx :
    (k j : String) (m : PoolManager)
    → (get_pending_tx_hex j (remove_pending_tx k m).0
        ≡ (if str_eq k j then none else get_pending_tx_hex j m))
      × ((remove_pending_tx k m).0.scripthash_notifications
          ≡ m.scripthash_notifications ++ (remove_pending_tx k m).1)
unfolding get_pending_tx_hex
get_pending_tx_hex-remove_pending_tx k j m = (
  ap (λ p. hex_of (lookup j p)) (remove_pending_tx-pending_txs k m)
      ∙ ap hex_of (lookup-remove k j m.pending_txs)
      ∙ ap-if hex_of (str_eq k j) none (lookup j m.pending_txs),
  remove_pending_tx-notified k m,
)

pub if_self : (s : String) (x y : Option String) → (if str_eq s s then x else y) ≡ x
if_self s x y = rw (eq_refl s) refl

-- Once the broadcast loop has marked a tx, wallets no longer get it from the virtual mempool.
pub has_pending_tx-mark_broadcast :
    (id txid : String) (fee : F64) (now : DateTime) (m : PoolManager)
    → has_pending_tx txid (mark_broadcast id txid fee now m) ≡ false
unfolding has_pending_tx mark_broadcast
has_pending_tx-mark_broadcast id txid fee now m =
    ap is_some ((get_pending_tx_hex-remove_pending_tx txid txid _).0 ∙ if_self txid none _)

abbrev pub NoDuplicates : List String → Type 0
NoDuplicates [] = Unit
NoDuplicates (s ∷ ss) = (mentions ss s ≡ false) × NoDuplicates ss

pub mentions-append :
    (xs ys : List String) (s : String) → mentions (xs ++ ys) s ≡ (mentions xs s || mentions ys s)
mentions-append [] ys s = refl
mentions-append (x ∷ xs) ys s = ground (arith, mentions-append xs ys s)

NoDuplicates-append :
    (xs : List String) (s : String)
    → mentions xs s ≡ false
    → NoDuplicates xs
    → NoDuplicates (xs ++ (s ∷ []))
NoDuplicates-append [] s h d = (refl, tt)
NoDuplicates-append (x ∷ xs) s h d =
    ground (arith, mentions-append xs (s ∷ []) x, NoDuplicates-append xs s, eq_iff x s, eq_iff s x)

pub or_known : (a b c : Bool) → (b ≡ true → a ≡ true) → (a || c) ≡ (a || (b || c))
or_known a b c h = ground arith

pub or_new : (a b c d : Bool) → d ≡ (a || (b || false)) → (d || c) ≡ (a || (b || c))
or_new a b c d h = ground arith

-- A merge keeps what was there, adds what is new, and makes no duplicates where there were none.
pub merge_scripthashes-mentions :
    (have extra : List String) (s : String)
    → NoDuplicates have
    → (mentions (merge_scripthashes have extra) s ≡ (mentions have s || mentions extra s))
      × NoDuplicates (merge_scripthashes have extra)
unfolding merge_scripthashes
merge_scripthashes-mentions have [] s d = (ground arith, d)
merge_scripthashes-mentions have (x ∷ extra) s d = elim (Bool-cases (mentions have x)) [
  | inl y ↦
      (let (p, q) = merge_scripthashes-mentions have extra s d in
        rw y (
          p
              ∙ or_known (mentions have s) (str_eq x s) _
                  (λ e. sym (ap (mentions have) ((eq_iff x s).0 e)) ∙ y),
          q,
        ))
  | inr n ↦
      (let (p, q) =
          merge_scripthashes-mentions (have ++ (x ∷ [])) extra s (NoDuplicates-append have x n d) in
        rw n (p ∙ or_new (mentions have s) (str_eq x s) _ _ (mentions-append have (x ∷ []) s), q))
]

-- The values of some outputs.
abbrev pub sum_values : List (String × ℕ × ℕ) → ℕ
sum_values [] = 0
sum_values ((txid, index, value) ∷ us) = value + sum_values us

sum_values-append :
    (us vs : List (String × ℕ × ℕ)) → sum_values (us ++ vs) ≡ sum_values us + sum_values vs
sum_values-append [] vs = omega arith
sum_values-append (u ∷ us) vs = omega (arith, sum_values-append us vs)

add_outputs-sum :
    (sh txid : String) (total : ℕ) (os : List PendingTxOutput)
    → add_outputs sh (total % u64_mod) os
      ≡ (total + sum_values (utxos_of_outputs sh txid os)) % u64_mod
unfolding add_outputs utxos_of_outputs
add_outputs-sum sh txid total [] = omega arith
add_outputs-sum sh txid total (o ∷ os) = elim (Bool-cases (str_eq o.scripthash sh)) [
  | inr n ↦ rw n (add_outputs-sum sh txid total os)
  | inl y ↦ rw y (
      rw (mod-add-mod total u64_mod o.value)
        (add_outputs-sum sh txid (total + o.value) os ∙ ap (λ n. n % u64_mod) (omega arith)))
]

add_pending-sum :
    (sh : String) (total : ℕ) (ps : List (String × PendingTxInfo))
    → add_pending sh (total % u64_mod) ps ≡ (total + sum_values (utxos_of_pending sh ps)) % u64_mod
unfolding add_pending utxos_of_pending
add_pending-sum sh total [] = omega arith
add_pending-sum sh total ((txid, info) ∷ ps) =
    ap (λ n. add_pending sh n ps) (add_outputs-sum sh txid total info.outputs)
    ∙ add_pending-sum sh (total + sum_values (utxos_of_outputs sh txid info.outputs)) ps
    ∙ ap (λ n. n % u64_mod)
        (omega (
          arith,
          sum_values-append (utxos_of_outputs sh txid info.outputs) (utxos_of_pending sh ps),
        ))

-- The unconfirmed balance of a scripthash is the sum of the unspent outputs listed for it, as far as
-- 64 bits hold it.
pub get_pending_unconfirmed_value-sum :
    (sh : String) (m : PoolManager)
    → get_pending_unconfirmed_value sh m
      ≡ sum_values (get_pending_utxos_for_scripthash sh m) % u64_mod
unfolding get_pending_unconfirmed_value get_pending_utxos_for_scripthash
get_pending_unconfirmed_value-sum sh m =
    add_pending-sum sh 0 m.pending_txs ∙ ap (λ n. n % u64_mod) (omega arith)
