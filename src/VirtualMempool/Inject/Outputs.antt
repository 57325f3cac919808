-- ===== src/VirtualMempool/Inject/Outputs.antt =====
-- What wallets can spend once pending outputs are injected.
use native.Mathlib.Nat.{mod-eq_of_lt}
use umbrel_apps.Prelude.{
  ℕ, ◌<◌, ◌%◌, ◌^◌, String, Option, none, some, Bool, true, false, ◌||◌, ◌&&◌, List, [], ◌∷◌, ◌++◌,
  ◌==◌, ◌≡◌, refl, sym, ap, ◌∙◌, inl, inr, str_eq, any, All, arith, eq_iff, lt→ltb, Bool-cases,
}
use umbrel_apps.Prelude.Int.{pos}
use umbrel_apps.Prelude.Json.{Json, int, as_u64}
use umbrel_apps.Pool.Manager.Mempool.{or_known, or_new}
use umbrel_apps.VirtualMempool.Inject.{
  has_output, is_output, tx_pos_of, utxo_entry, push_utxos, inject_listunspent,
}

abbrev pub names_output : List (String × ℕ × ℕ) → String → ℕ → Bool
names_output pending txid tx_pos = any (λ (x, n, value). str_eq x txid && n == tx_pos) pending

-- Positions are `u32`.
abbrev pub IsU32 : String × ℕ × ℕ → Type 0
IsU32 (txid, tx_pos, value) = tx_pos < 2 ^ 32

has_output-append :
    (xs ys : List Json) (t : String) (k : ℕ)
    → has_output (xs ++ ys) t k ≡ (has_output xs t k || has_output ys t k)
has_output-append [] ys t k = refl
has_output-append (x ∷ xs) ys t k = ground (arith, has_output-append xs ys t k)

u64_known : (n : ℕ) → n < 2 ^ 64 → as_u64 (int (pos n)) ≡ some n
u64_known n h = rw (lt→ltb n (2 ^ 64) h) refl

low_32 : Option ℕ → Option ℕ
low_32 none = none
low_32 (some n) = some (n % 2 ^ 32)

entry_pos : (x : String) (n value : ℕ) → n < 2 ^ 32 → tx_pos_of (utxo_entry x n value) ≡ some n
unfolding low_32
entry_pos x n value h = ap low_32 (u64_known n (omega (arith, h))) ∙ ap some (mod-eq_of_lt h)

has_output-entry :
    (x : String) (n value : ℕ) (t : String) (k : ℕ)
    → n < 2 ^ 32
    → has_output (utxo_entry x n value ∷ []) t k ≡ ((str_eq x t && n == k) || false)
has_output-entry x n value t k h =
    ap (λ o. is_output (some x) o t k || false) (entry_pos x n value h)

named : (x t : String) (n k : ℕ) → (str_eq x t && n == k) ≡ true → (x ≡ t) × (n ≡ k)
named x t n k e = ground (arith, eq_iff x t)

push_utxos-has_output :
    (existing : List Json) (pending : List (String × ℕ × ℕ)) (result : List Json) (t : String)
    (k : ℕ)
    → All IsU32 pending
    → (has_output existing t k ≡ true → has_output result t k ≡ true)
    → has_output (push_utxos existing pending result) t k
      ≡ (has_output result t k || names_output pending t k)
unfolding push_utxos
push_utxos-has_output existing [] result t k a h = ground arith
push_utxos-has_output existing ((x, n, value) ∷ ps) result t k a h =
    elim (Bool-cases (has_output existing x n)) [
      | inl y ↦ rw y (
          push_utxos-has_output existing ps result t k a.1 h
          ∙ or_known (has_output result t k) (str_eq x t && n == k) (names_output ps t k) (λ e.
            (let (p, q) = named x t n k e in
              h (
                sym (ap (λ s. has_output existing s k) p)
                ∙ sym (ap (has_output existing x) q)
                ∙ y))))
      | inr fresh ↦ rw fresh (
          push_utxos-has_output existing ps (result ++ (utxo_entry x n value ∷ [])) t k a.1
            (λ e. has_output-append result (utxo_entry x n value ∷ []) t k ∙ ground (arith, h e))
          ∙ or_new (has_output result t k) (str_eq x t && n == k) (names_output ps t k) _ (
              has_output-append result (utxo_entry x n value ∷ []) t k
              ∙ ap (λ c. has_output result t k || c) (has_output-entry x n value t k a.0)))
    ]

-- With pending outputs injected, listunspent has exactly the outputs that the indexer listed and the
-- pending ones, if the positions of these fit in 32 bits.
pub inject_listunspent-has_output :
    (utxos : List Json) (pending : List (String × ℕ × ℕ)) (t : String) (k : ℕ)
    → All IsU32 pending
    → has_output (inject_listunspent utxos pending) t k
      ≡ (has_output utxos t k || names_output pending t k)
unfolding inject_listunspent
inject_listunspent-has_output utxos pending t k a =
    push_utxos-has_output utxos pending utxos t k a (λ e. e)
