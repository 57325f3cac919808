-- ===== src/Prelude/Texts.antt =====
-- What the code uses of Rust's `str`: equality, `contains`, ASCII case, prefixes and `trim`.
use Prim.Native.Nat.{ℕ, zero, suc, ◌+◌, ◌*◌, ◌-◌, ◌/◌, ◌%◌}
use Prim.Native.Char.{Char, code}
use Prim.Native.String.{String, char_at, ◌++◌ as append}
use mathlib.Core.List.{List, [], ◌∷◌}
use mathlib.Core.Path.{◌≡◌, refl, ap}
use mathlib.Core.Bool.{Bool, true, false, ◌&&◌, ◌||◌}
use mathlib.Core.Option.{Option, none, some}
use native.Mathlib.Omega.{arith}
use text.Mathlib.TextEquality.{eq_iff}
use text.Mathlib.Text.{◌==◌, find?}
use umbrel_apps.Prelude.Tests.{leb, ltb, ◌==◌ as ℕ_eq, if◌then◌else◌, is_some, get_or}

-- `a == b` on texts.
abbrev pub str_eq : String → String → Bool
str_eq a b = a == b

-- `o.as_deref() == Some(s)`.
abbrev pub opt_is : Option String → String → Bool
opt_is none s = false
opt_is (some t) s = t == s

pub opt_is→some : (o : Option String) (s : String) → opt_is o s ≡ true → o ≡ some s
opt_is→some none s h = ground arith
opt_is→some (some t) s h = ap some ((eq_iff t s).0 h)

-- `s.contains(t)`.
unfoldable pub contains : String → String → Bool
contains s t = is_some (find? s t)

-- `s.is_empty()`.
abbrev pub is_empty : String → Bool
is_empty s = s == ""

lower_char : Char → Char
lower_char c =
    if leb b'A' (code c) && leb (code c) b'Z'
    then char_at "abcdefghijklmnopqrstuvwxyz" (code c - b'A')
    else c

-- `s.to_lowercase()`, on ASCII; a capital outside ASCII is left as it is.
unfoldable pub to_lowercase : String → String
unfolding lower_char
to_lowercase String.[] = String.[]
to_lowercase (String.◌∷◌ c s) = String.◌∷◌ (lower_char c) (to_lowercase s)

-- `char::len_utf8`.
abbrev pub len_utf8 : Char → ℕ
len_utf8 c =
    let n = code c in
    if ltb n 0x80 then 1 else if ltb n 0x800 then 2 else if ltb n 0x10000 then 3 else 4

-- `s.is_char_boundary(s.len().min(n))`: where it fails, `&s[..s.len().min(n)]` panics.
unfoldable pub is_char_boundary : ℕ → String → Bool
is_char_boundary n String.[] = true
is_char_boundary n (String.◌∷◌ c s) =
    let rest = is_char_boundary (n - len_utf8 c) s in
    if ℕ_eq n 0 then true else if leb (len_utf8 c) n then rest else false

-- `char::is_whitespace`.
abbrev pub is_whitespace : Char → Bool
is_whitespace c =
    let n = code c in
    (leb 9 n && leb n 13)
    || ℕ_eq n 32
    || ℕ_eq n 0x85
    || ℕ_eq n 0xa0
    || ℕ_eq n 0x1680
    || (leb 0x2000 n && leb n 0x200a)
    || ℕ_eq n 0x2028
    || ℕ_eq n 0x2029
    || ℕ_eq n 0x202f
    || ℕ_eq n 0x205f
    || ℕ_eq n 0x3000

unfoldable pub trim_start : String → String
trim_start String.[] = String.[]
trim_start (String.◌∷◌ c s) =
    let rest = trim_start s in if is_whitespace c then rest else String.◌∷◌ c s

-- A character stays if it, or one behind it, is no whitespace.
keep_end : Char → String → String
keep_end c String.[] = if is_whitespace c then String.[] else String.◌∷◌ c String.[]
keep_end c (String.◌∷◌ d s) = String.◌∷◌ c (String.◌∷◌ d s)

unfoldable pub trim_end : String → String
unfolding keep_end
trim_end String.[] = String.[]
trim_end (String.◌∷◌ c s) = keep_end c (trim_end s)

-- `s.trim()`.
unfoldable pub trim : String → String
unfolding trim_start trim_end
trim s = trim_end (trim_start s)

trim_example : trim "  a b " ≡ "a b"
unfolding trim
trim_example = refl

to_lowercase_example : to_lowercase "Non-FINAL x" ≡ "non-final x"
unfolding to_lowercase
to_lowercase_example = refl

contains_example : contains "error: non-final tx" "non-final" ≡ true
unfolding contains
contains_example = refl

-- `s.strip_prefix(p)`.
unfoldable pub strip_prefix : String → String → Option String
strip_prefix String.[] s = some s
strip_prefix (String.◌∷◌ c p) String.[] = none
strip_prefix (String.◌∷◌ c p) (String.◌∷◌ d s) =
    let rest = strip_prefix p s in if ℕ_eq (code c) (code d) then rest else none

-- `s.starts_with(p)`.
unfoldable pub starts_with : String → String → Bool
unfolding strip_prefix
starts_with s p = is_some (strip_prefix p s)

strip_prefix_example : strip_prefix "tcp://" "tcp://host:1" ≡ some "host:1"
unfolding strip_prefix
strip_prefix_example = refl

prepend_to : Char → Option (String × String) → Option (String × String) → Option (String × String)
prepend_to c (some (front, back)) otherwise = some (String.◌∷◌ c front, back)
prepend_to c none otherwise = otherwise

-- `s.rsplit_once(sep)`.
unfoldable pub rsplit_once : ℕ → String → Option (String × String)
unfolding prepend_to
rsplit_once sep String.[] = none
rsplit_once sep (String.◌∷◌ c s) =
    prepend_to c (rsplit_once sep s) (if ℕ_eq (code c) sep then some (String.[], s) else none)

-- The head and the tail of a split, with a character before the head.
abbrev joined : Char → List String → List String
joined c [] = String.◌∷◌ c String.[] ∷ []
joined c (s ∷ ss) = String.◌∷◌ c s ∷ ss

-- `s.split(sep)`, which has a piece at least.
unfoldable pub split : ℕ → String → List String
split sep String.[] = String.[] ∷ []
split sep (String.◌∷◌ c s) =
    let rest = split sep s in if ℕ_eq (code c) sep then String.[] ∷ rest else joined c rest

rsplit_once_example : rsplit_once 58 "a:b:1" ≡ some ("a:b", "1")
unfolding rsplit_once
rsplit_once_example = refl

split_example : split 46 "10.0..1" ≡ "10" ∷ "0" ∷ "" ∷ "1" ∷ []
unfolding split
split_example = refl

-- `format!` of the pieces in order.
abbrev pub concat : List String → String
concat [] = ""
concat (s ∷ ss) = append s (concat ss)

digits : ℕ → ℕ → String
digits zero n = ""
digits (suc fuel) n =
    let front = digits fuel (n / 10) in
    let last = String.◌∷◌ (char_at "0123456789" (n % 10)) String.[] in
    if ltb n 10 then last else append front last

-- A number below 10^20, which `u64` is, in decimal.
unfoldable pub decimal : ℕ → String
unfolding digits
decimal n = digits 20 n

is_digit : Char → Bool
is_digit c = leb b'0' (code c) && leb (code c) b'9'

read_digits : ℕ → String → Option ℕ
unfolding is_digit
read_digits n String.[] = some n
read_digits n (String.◌∷◌ c s) =
    let rest = read_digits (n * 10 + (code c - b'0')) s in if is_digit c then rest else none

-- `s.parse()` of an unsigned number up to `most`: a `+` may lead, and there is a digit.
unfoldable pub parse_number : ℕ → String → Option ℕ
unfolding read_digits
parse_number most s =
    let digits = get_or (strip_prefix "+" s) s in
    if is_empty digits
    then none
    else elim (read_digits 0 digits) [ none ↦ none | some n ↦ if leb n most then some n else none ]

abbrev pub parse_u16 : String → Option ℕ
parse_u16 s = parse_number 65535 s

abbrev pub parse_u8 : String → Option ℕ
parse_u8 s = parse_number 255 s

parse_u16_example : parse_u16 "50001" ≡ some 50001
unfolding parse_number strip_prefix
parse_u16_example = refl

decimal_example : decimal 1_700_000_050 ≡ "1700000050"
unfolding decimal
decimal_example = refl
