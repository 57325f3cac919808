-- ===== src/VirtualMempool/Status/Sorted.antt =====
-- The status hash does not depend on the order in which the transactions come.
use Prim.Native.Nat.{compare, Ordering}
use Prim.Native.Char.{code}
use text.Mathlib.TextEquality.{codes_equal}
use umbrel_apps.Prelude.{
  ℕ, String, some, true, false, List, [], ◌∷◌, map, ◌≡◌, refl, sym, ap, ◌∙◌, inl, inr, arith,
  if◌then◌else◌, concat, Bool-cases,
}
use umbrel_apps.Prelude.Int.{ℤ, leb_ℤ}
use umbrel_apps.Prelude.Json.{Json}
use umbrel_apps.VirtualMempool.Status.{
  str_leb, Key, key_of, key_leb, insert_entry, sort_entries, signed, status_text,
  compute_status_hash,
}

str_leb-total : (s t : String) → str_leb s t ≡ false → str_leb t s ≡ true
unfolding str_leb
str_leb-total String.[] t h = ground arith
str_leb-total (String.◌∷◌ c s) String.[] h = refl
str_leb-total (String.◌∷◌ c s) (String.◌∷◌ d t) h = ground (arith, str_leb-total s t)

str_leb_trans : (s t u : String) → str_leb s t ≡ true → str_leb t u ≡ true → str_leb s u ≡ true
unfolding str_leb
str_leb_trans String.[] t u p q = refl
str_leb_trans (String.◌∷◌ c s) String.[] u p q = absurd (ground arith)
str_leb_trans (String.◌∷◌ c s) (String.◌∷◌ d t) String.[] p q = absurd (ground arith)
str_leb_trans (String.◌∷◌ c s) (String.◌∷◌ d t) (String.◌∷◌ e u) p q =
    ground (arith, str_leb_trans s t u)

same_code : (m n : ℕ) → m ≡ n → compare m n ≡ Ordering.eq
same_code m n h = ground arith

str_leb-antisym : (s t : String) → str_leb s t ≡ true → str_leb t s ≡ true → s ≡ t
unfolding str_leb
str_leb-antisym String.[] String.[] p q = refl
str_leb-antisym String.[] (String.◌∷◌ d t) p q = absurd (ground arith)
str_leb-antisym (String.◌∷◌ c s) String.[] p q = absurd (ground arith)
str_leb-antisym (String.◌∷◌ c s) (String.◌∷◌ d t) p q =
    let heads : code c ≡ code d = ground arith in
    let tails : s ≡ t = str_leb-antisym s t (ground arith) (ground arith) in
    λ i. String.◌∷◌ (codes_equal c d (same_code (code c) (code d) heads) i) (tails i)

leb_ℤ-antisym : (a b : ℤ) → leb_ℤ a b ≡ true → leb_ℤ b a ≡ true → a ≡ b
leb_ℤ-antisym a b p q = ground arith

key_leb-total : (a b : Key) → key_leb a b ≡ false → key_leb b a ≡ true
key_leb-total (h, s) (k, t) p = ground (arith, str_leb-total s t)

key_leb-antisym : (a b : Key) → key_leb a b ≡ true → key_leb b a ≡ true → a ≡ b
key_leb-antisym (h, s) (k, t) p q =
    let heights : h ≡ k = leb_ℤ-antisym h k (ground arith) (ground arith) in
    let texts : s ≡ t = str_leb-antisym s t (ground arith) (ground arith) in cc

key_leb_trans : (a b c : Key) → key_leb a b ≡ true → key_leb b c ≡ true → key_leb a c ≡ true
key_leb_trans (h, s) (k, t) (l, u) p q = ground (arith, str_leb_trans s t u)

-- Sorting by the keys alone.
insert_key : Key → List Key → List Key
insert_key a [] = a ∷ []
insert_key a (b ∷ bs) = let later = insert_key a bs in if key_leb a b then a ∷ b ∷ bs else b ∷ later

sort_keys : List Key → List Key
sort_keys [] = []
sort_keys (a ∷ as_) = insert_key a (sort_keys as_)

insert_key-map :
    (e : Json) (es : List Json)
    → map key_of (insert_entry e es) ≡ insert_key (key_of e) (map key_of es)
unfolding insert_entry insert_key
insert_key-map e [] = refl
insert_key-map e (f ∷ fs) = elim (Bool-cases (key_leb (key_of e) (key_of f))) [
  | inl y ↦ rw y refl
  | inr n ↦ rw n (ap (λ l. key_of f ∷ l) (insert_key-map e fs))
]

sort_keys-map : (es : List Json) → map key_of (sort_entries es) ≡ sort_keys (map key_of es)
unfolding sort_entries sort_keys
sort_keys-map [] = refl
sort_keys-map (e ∷ es) =
    insert_key-map e (sort_entries es) ∙ ap (insert_key (key_of e)) (sort_keys-map es)

insert_key-swap :
    (a b : Key) (ks : List Key) → insert_key a (insert_key b ks) ≡ insert_key b (insert_key a ks)
unfolding insert_key
insert_key-swap a b [] = ground (arith, key_leb-total a b, key_leb-antisym a b)
insert_key-swap a b (k ∷ ks) = ground (
  arith,
  insert_key-swap a b ks,
  key_leb-total a b,
  key_leb-antisym a b,
  key_leb-total a k,
  key_leb-total b k,
  key_leb_trans a b k,
  key_leb_trans b a k,
  key_leb_trans a k b,
  key_leb_trans b k a,
)

keys_text : List Key → String
keys_text [] = ""
keys_text (k ∷ ks) = concat (k.1 ∷ ":" ∷ signed k.0 ∷ ":" ∷ keys_text ks ∷ [])

status_text-keys : (es : List Json) → status_text es ≡ keys_text (map key_of es)
unfolding status_text keys_text
status_text-keys [] = refl
status_text-keys (e ∷ es) =
    ap (λ t. concat ((key_of e).1 ∷ ":" ∷ signed (key_of e).0 ∷ ":" ∷ t ∷ [])) (status_text-keys es)

-- The same entries in another order.
pub data Reordered : List Json → List Json → Type 0 where
  same : {es : List Json} → Reordered es es
  behind : {es fs : List Json} (e : Json) → Reordered es fs → Reordered (e ∷ es) (e ∷ fs)
  swapped : (e f : Json) (es : List Json) → Reordered (e ∷ f ∷ es) (f ∷ e ∷ es)
  both : {es fs gs : List Json} → Reordered es fs → Reordered fs gs → Reordered es gs

sort_keys-Reordered :
    {es fs : List Json} → Reordered es fs → sort_keys (map key_of es) ≡ sort_keys (map key_of fs)
unfolding sort_keys
sort_keys-Reordered same = refl
sort_keys-Reordered (behind e r) = ap (insert_key (key_of e)) (sort_keys-Reordered r)
sort_keys-Reordered (swapped e f es) =
    insert_key-swap (key_of e) (key_of f) (sort_keys (map key_of es))
sort_keys-Reordered (both r s) = sort_keys-Reordered r ∙ sort_keys-Reordered s

sorted_text-Reordered :
    {es fs : List Json}
    → Reordered es fs
    → status_text (sort_entries es) ≡ status_text (sort_entries fs)
sorted_text-Reordered {es} {fs} r =
    status_text-keys (sort_entries es)
    ∙ ap keys_text (sort_keys-map es ∙ sort_keys-Reordered r ∙ sym (sort_keys-map fs))
    ∙ sym (status_text-keys (sort_entries fs))

module _ (sha256_hex : String → String) where
  -- The status hash of a scripthash does not depend on the order of its history: the pending
  -- transactions, which come out of a hash map, may be injected in any order.
  pub compute_status_hash-Reordered :
      {es fs : List Json}
      → Reordered es fs
      → compute_status_hash sha256_hex es ≡ compute_status_hash sha256_hex fs
  unfolding compute_status_hash
  compute_status_hash-Reordered same = refl
  compute_status_hash-Reordered (behind e r) =
      ap (λ t. some (sha256_hex t)) (sorted_text-Reordered (behind e r))
  compute_status_hash-Reordered (swapped e f es) =
      ap (λ t. some (sha256_hex t)) (sorted_text-Reordered (swapped e f es))
  compute_status_hash-Reordered (both r s) =
      compute_status_hash-Reordered r ∙ compute_status_hash-Reordered s
