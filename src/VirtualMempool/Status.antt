-- ===== src/VirtualMempool/Status.antt =====
-- sparrow-broadcast-pool/src/pool/virtual_mempool.rs: the status hash of a scripthash, and pending
-- transactions in an answer to get_mempool. The hash, SHA-256 in hexadecimal, is a parameter.
pub mod Sorted
use Prim.Native.Char.{code}
use umbrel_apps.Prelude.{
  ℕ, suc, String, Option, none, some, Bool, true, false, ◌&&◌, ◌||◌, List, [], ◌∷◌, ◌++◌, ltb, ◌==◌,
  opt_is, any, get_or, decimal, concat, if◌then◌else◌,
}
use umbrel_apps.Prelude.Int.{ℤ, pos, negsuc, leb_ℤ}
use umbrel_apps.Prelude.Json.{
  Json, int, text, array, get, as_str, as_i64, as_array, items_of, list_of,
}
use umbrel_apps.VirtualMempool.Inject.{tx_hash_of, number_at, inject_in_history}

-- `a <= b` on `&str`: by code points, which is the order of the bytes.
unfoldable pub str_leb : String → String → Bool
str_leb String.[] t = true
str_leb (String.◌∷◌ c s) String.[] = false
str_leb (String.◌∷◌ c s) (String.◌∷◌ d t) =
    ltb (code c) (code d) || (code c == code d && str_leb s t)

-- What the code sorts by, and writes: the height (0 where there is none) and the tx.
abbrev pub Key : Type 0
Key = ℤ × String

abbrev pub key_of : Json → Key
key_of entry = (number_at "height" entry, get_or (tx_hash_of entry) "")

abbrev pub lt_ℤ : ℤ → ℤ → Bool
lt_ℤ a b = elim (leb_ℤ b a) [ true ↦ false | false ↦ true ]

abbrev pub key_leb : Key → Key → Bool
key_leb (h, s) (k, t) = lt_ℤ h k || (leb_ℤ h k && str_leb s t)

-- `sort_by`, which keeps the order of equal entries.
unfoldable pub insert_entry : Json → List Json → List Json
insert_entry e [] = e ∷ []
insert_entry e (f ∷ fs) =
    let later = insert_entry e fs in if key_leb (key_of e) (key_of f) then e ∷ f ∷ fs else f ∷ later

unfoldable pub sort_entries : List Json → List Json
unfolding insert_entry
sort_entries [] = []
sort_entries (e ∷ es) = insert_entry e (sort_entries es)

abbrev pub signed : ℤ → String
signed (pos n) = decimal n
signed (negsuc n) = concat ("-" ∷ decimal (suc n) ∷ [])

unfoldable pub status_text : List Json → String
status_text [] = ""
status_text (e ∷ es) = concat ((key_of e).1 ∷ ":" ∷ signed (key_of e).0 ∷ ":" ∷ status_text es ∷ [])

module _ (sha256_hex : String → String) where
  -- Electrum status hash: of the sorted "tx_hash:height:" entries.
  unfoldable pub compute_status_hash : List Json → Option String
  unfolding sort_entries status_text
  compute_status_hash [] = none
  compute_status_hash (e ∷ es) = some (sha256_hex (status_text (sort_entries (e ∷ es))))

  unfoldable pub compute_modified_status_hash : List Json → List String → Option String
  unfolding compute_status_hash
  compute_modified_status_hash real_history pending_txids =
      compute_status_hash (inject_in_history real_history pending_txids)

-- `e.get(0).and_then(as_str)`.
abbrev pub first_text : Json → Option String
first_text entry = elim (as_array entry) [ some (v ∷ vs) ↦ as_str v | _ ↦ none ]

abbrev pub has_mempool_tx : List Json → String → Bool
has_mempool_tx tx_list txid = any (λ e. opt_is (first_text e) txid) tx_list

abbrev pub mempool_entry : String → Json
mempool_entry txid = array (items_of (text txid ∷ int (pos 0) ∷ int (pos 0) ∷ []))

unfoldable pub push_mempool : List Json → List String → List Json → List Json
push_mempool existing [] tx_list = tx_list
push_mempool existing (txid ∷ txids) tx_list =
    push_mempool existing txids
      (if has_mempool_tx existing txid then tx_list else tx_list ++ (mempool_entry txid ∷ []))

-- The first two parts of the answer, or those of an empty one.
abbrev pub mempool_parts : Option (List Json) → Json × Json
mempool_parts (some (a ∷ b ∷ cs)) = (a, b)
mempool_parts _ = (int (pos 0), array (items_of []))

-- Inject pending txs into a get_mempool answer: [fee_total, [[tx_hash, fee, height], ...]].
unfoldable pub inject_get_mempool : Json → List String → Json
unfolding push_mempool
inject_get_mempool result [] = result
inject_get_mempool result (txid ∷ txids) =
    let (fees, txs) = mempool_parts (as_array result) in
    let tx_list = get_or (as_array txs) [] in
    array (
      items_of (
        int (get_or (as_i64 fees) (pos 0))
        ∷ array (items_of (push_mempool tx_list (txid ∷ txids) tx_list))
        ∷ []))
