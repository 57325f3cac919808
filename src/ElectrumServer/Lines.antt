-- ===== src/ElectrumServer/Lines.antt =====
-- sparrow-broadcast-pool/src/electrum_server/mod.rs: how the lines are taken out of what a client
-- sent. The client's bytes are UTF-8; the buffer holds the characters of the text.
pub mod Popped
pub mod Order
use Prim.Native.Char.{Char, code}
use Prim.Native.String
use umbrel_apps.Prelude.{
  ℕ, zero, suc, ◌+◌, ◌-◌, String, Option, none, some, Bool, ◌||◌, List, [], ◌∷◌, ◌++◌, ◌==◌,
  is_some, get_or, if◌then◌else◌, take,
}
use umbrel_apps.ElectrumServer.Requests.{
  SerdeJson, extract_broadcast_hex, line_looks_like_broadcast,
}

abbrev pub Bytes : Type 0
Bytes = List Char

abbrev pub is_newline : Char → Bool
is_newline c = code c == 10

-- `String::from_utf8_lossy`.
abbrev pub from_utf8 : Bytes → String
from_utf8 [] = String.[]
from_utf8 (c ∷ cs) = String.◌∷◌ c (from_utf8 cs)

abbrev pub drop : ℕ → Bytes → Bytes
drop zero bs = bs
drop (suc n) [] = []
drop (suc n) (b ∷ bs) = drop n bs

-- `buf[s..e]`.
abbrev pub slice : ℕ → ℕ → Bytes → Bytes
slice s e buf = take (e - s) (drop s buf)

-- `buf.drain(s..=e)`: what is left.
abbrev pub drain : ℕ → ℕ → Bytes → Bytes
drain s e buf = take s buf ++ drop (e + 1) buf

-- The loop over the bytes: where each line starts, and the place of its newline.
unfoldable pub line_ranges : ℕ → ℕ → Bytes → List (ℕ × ℕ)
line_ranges start i [] = []
line_ranges start i (b ∷ bs) =
    let rest = line_ranges (if is_newline b then i + 1 else start) (i + 1) bs in
    if is_newline b then (start, i) ∷ rest else rest

-- `iter().position`.
unfoldable pub position {ℓ} : {A : Type ℓ} → (A → Bool) → List A → Option ℕ
position p [] = none
position p (x ∷ xs) =
    let later = position p xs in
    if p x then some 0 else elim later [ none ↦ none | some n ↦ some (suc n) ]

abbrev pub at {ℓ} : {A : Type ℓ} → ℕ → List A → Option A
at n [] = none
at zero (x ∷ xs) = some x
at (suc n) (x ∷ xs) = at n xs

-- `trim_end_matches('\r')`.
unfoldable pub trim_returns : Bytes → Bytes
trim_returns [] = []
trim_returns (c ∷ cs) = elim (trim_returns cs) [
  | [] ↦ if code c == 13 then [] else c ∷ []
  | d ∷ ds ↦ c ∷ d ∷ ds
]

module _ (serde : SerdeJson) where
  unfoldable pub is_broadcast_line : Bytes → Bool
  is_broadcast_line line =
      is_some (extract_broadcast_hex serde (from_utf8 line))
      || line_looks_like_broadcast (from_utf8 line)

  -- Process broadcast lines before other buffered RPCs. The line, as it was and as text, and the
  -- buffer without it.
  unfoldable pub pop_client_line : Bytes → Option ((Bytes × String) × Bytes)
  unfolding line_ranges position trim_returns
  pop_client_line client_buf =
      let ranges = line_ranges 0 0 client_buf in
      let test = λ (r : ℕ × ℕ). is_broadcast_line (slice r.0 r.1 client_buf) in
      elim (at (get_or (position test ranges) 0) ranges) [
        | none ↦ none
        | some (s, e) ↦
            (let line = slice s e client_buf in
              some ((line, from_utf8 (trim_returns line)), drain s e client_buf))
      ]

  -- `while let Some(..) = pop_client_line(..)`, with `fuel` rounds at most: the lines in the order in
  -- which they are processed, and the buffer that is left.
  unfoldable pub pop_lines : ℕ → Bytes → List Bytes × Bytes
  pop_lines zero buf = ([], buf)
  pop_lines (suc fuel) buf = elim (pop_client_line buf) [
    | none ↦ ([], buf)
    | some ((line, text), rest) ↦ (let later = pop_lines fuel rest in (line ∷ later.0, later.1))
  ]
