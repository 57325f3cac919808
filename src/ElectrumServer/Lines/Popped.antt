-- ===== src/ElectrumServer/Lines/Popped.antt =====
-- The lines of a client's buffer, each taken out once, broadcasts first.
use Prim.Native.Char.{Char}
use umbrel_apps.Prelude.{
  ℕ, zero, suc, ◌+◌, ◌-◌, ◌≤◌, some, true, false, List, [], ◌∷◌, ◌++◌, map, ◌≡◌, refl, sym, ap, ◌∙◌,
  inl, inr, arith, if◌then◌else◌, take, length, length-append, append_assoc, append-nil, All,
  Bool-cases,
}
use umbrel_apps.ElectrumServer.Lines.{Bytes, is_newline, drop, slice, drain, line_ranges, at}

take-append : (xs ys : Bytes) → take (length xs) (xs ++ ys) ≡ xs
take-append [] ys = refl
take-append (x ∷ xs) ys = ap (λ l. x ∷ l) (take-append xs ys)

drop-append : (xs ys : Bytes) → drop (length xs) (xs ++ ys) ≡ ys
drop-append [] ys = refl
drop-append (x ∷ xs) ys = drop-append xs ys

-- The lines that end in a newline, without it; `line` is what stands before the text.
abbrev pub lines_from : Bytes → Bytes → List Bytes
lines_from line [] = []
lines_from line (b ∷ bs) =
    let rest = lines_from (if is_newline b then [] else line ++ (b ∷ [])) bs in
    if is_newline b then line ∷ rest else rest

-- What stands behind the last newline.
abbrev pub tail_from : Bytes → Bytes → Bytes
tail_from line [] = line
tail_from line (b ∷ bs) = tail_from (if is_newline b then [] else line ++ (b ∷ [])) bs

abbrev pub complete_lines : Bytes → List Bytes
complete_lines = lines_from []

abbrev pub incomplete_line : Bytes → Bytes
incomplete_line = tail_from []

slice_line :
    (before line after : Bytes) (s e : ℕ)
    → s ≡ length before
    → e ≡ length before + length line
    → slice s e (before ++ (line ++ after)) ≡ line
slice_line before line after s e hs he =
    let same : e - length before ≡ length line = omega arith in
    rw hs (rw (drop-append before (line ++ after)) (rw same (take-append line after)))

shift :
    (before line : Bytes) (b : Char) (bs : Bytes)
    → before ++ (line ++ (b ∷ bs)) ≡ before ++ ((line ++ (b ∷ [])) ++ bs)
shift before line b bs = ap (λ l. before ++ l) (sym (append_assoc line (b ∷ []) bs))

close :
    (before line : Bytes) (b : Char) (bs : Bytes)
    → before ++ (line ++ (b ∷ bs)) ≡ (before ++ (line ++ (b ∷ []))) ++ bs
close before line b bs = shift before line b bs ∙ sym (append_assoc before (line ++ (b ∷ [])) bs)

-- The ranges are those of the lines.
pub slices :
    (buf before line bs : Bytes) (s i : ℕ)
    → buf ≡ before ++ (line ++ bs)
    → s ≡ length before
    → i ≡ length before + length line
    → map (λ (r : ℕ × ℕ). slice r.0 r.1 buf) (line_ranges s i bs) ≡ lines_from line bs
unfolding line_ranges
slices buf before line [] s i e hs hi = refl
slices buf before line (b ∷ bs) s i e hs hi = elim (Bool-cases (is_newline b)) [
  | inl y ↦
      (let closed : length (before ++ (line ++ (b ∷ []))) ≡ i + 1 =
          omega (arith, length-append before (line ++ (b ∷ [])), length-append line (b ∷ [])) in
        let here : slice s i buf ≡ line = rw e (slice_line before line (b ∷ bs) s i hs hi) in
        let rest =
          slices buf (before ++ (line ++ (b ∷ []))) [] bs (i + 1) (i + 1)
            (e ∙ close before line b bs) (sym closed) (omega arith) in
        rw y (cc (here, rest)))
  | inr n ↦ rw n (
      slices buf before (line ++ (b ∷ [])) bs s (i + 1) (e ∙ shift before line b bs) hs
        (omega (arith, length-append line (b ∷ []))))
]

-- The text without its `n`-th line; `line` stands before the text.
abbrev pub drained : ℕ → Bytes → Bytes → Bytes
drained n line [] = line
drained zero line (b ∷ bs) =
    let later = drained zero (line ++ (b ∷ [])) bs in if is_newline b then bs else later
drained (suc n) line (b ∷ bs) =
    let closed = drained n [] bs in
    let later = drained (suc n) (line ++ (b ∷ [])) bs in
    if is_newline b then line ++ (b ∷ closed) else later

take_upto : (before rest : Bytes) (s : ℕ) → s ≡ length before → take s (before ++ rest) ≡ before
take_upto before rest s h = rw h (take-append before rest)

drop_behind :
    (before line : Bytes) (b : Char) (bs : Bytes) (e : ℕ)
    → e ≡ length before + length line
    → drop (e + 1) (before ++ (line ++ (b ∷ bs))) ≡ bs
drop_behind before line b bs e h =
    let same : e + 1 ≡ length (before ++ (line ++ (b ∷ []))) =
      omega (arith, length-append before (line ++ (b ∷ [])), length-append line (b ∷ [])) in
    rw (close before line b bs) (rw same (drop-append (before ++ (line ++ (b ∷ []))) bs))

drain_here :
    (buf before line : Bytes) (b : Char) (bs : Bytes) (s i : ℕ)
    → buf ≡ before ++ (line ++ (b ∷ bs))
    → s ≡ length before
    → i ≡ length before + length line
    → drain s i buf ≡ before ++ bs
drain_here buf before line b bs s i e hs hi =
    rw e (cc (take_upto before (line ++ (b ∷ bs)) s hs, drop_behind before line b bs i hi))

pub drain-drained :
    (buf before line bs : Bytes) (s i n : ℕ) (r : ℕ × ℕ)
    → buf ≡ before ++ (line ++ bs)
    → s ≡ length before
    → i ≡ length before + length line
    → at n (line_ranges s i bs) ≡ some r
    → drain r.0 r.1 buf ≡ before ++ drained n line bs
unfolding line_ranges
drain-drained buf before line [] s i n r e hs hi h = cc
drain-drained buf before line (b ∷ bs) s i zero r e hs hi h = elim (Bool-cases (is_newline b)) [
  | inl y ↦
      (let q : (s, i) ≡ r = ground arith in
        rw y (ap (λ t. drain t.0 t.1 buf) (sym q) ∙ drain_here buf before line b bs s i e hs hi))
  | inr m ↦ rw m (
      drain-drained buf before (line ++ (b ∷ [])) bs s (i + 1) zero r (e ∙ shift before line b bs)
        hs (omega (arith, length-append line (b ∷ []))) (ground arith))
]
drain-drained buf before line (b ∷ bs) s i (suc n) r e hs hi h = elim (Bool-cases (is_newline b)) [
  | inl y ↦
      (let closed : length (before ++ (line ++ (b ∷ []))) ≡ i + 1 =
          omega (arith, length-append before (line ++ (b ∷ [])), length-append line (b ∷ [])) in
        rw y (
          drain-drained buf (before ++ (line ++ (b ∷ []))) [] bs (i + 1) (i + 1) n r
            (e ∙ close before line b bs) (sym closed) (omega arith) (ground arith)
          ∙ sym (close before line b (drained n [] bs))))
  | inr m ↦ rw m (
      drain-drained buf before (line ++ (b ∷ [])) bs s (i + 1) (suc n) r
        (e ∙ shift before line b bs) hs (omega (arith, length-append line (b ∷ []))) (ground arith))
]

pub All-append : (P : Char → Type 0) (xs ys : Bytes) → All P xs → All P ys → All P (xs ++ ys)
All-append P [] ys p q = q
All-append P (x ∷ xs) ys p q = (p.0, All-append P xs ys p.1 q)

abbrev pub IsOneLine : Bytes → Type 0
IsOneLine = All (λ c. is_newline c ≡ false)

tail_from-other :
    (line : Bytes) (b : Char) (bs : Bytes)
    → is_newline b ≡ false
    → tail_from line (b ∷ bs) ≡ tail_from (line ++ (b ∷ [])) bs
tail_from-other line b bs h = rw h refl

tail_from-newline :
    (line : Bytes) (b : Char) (bs : Bytes)
    → is_newline b ≡ true
    → tail_from line (b ∷ bs) ≡ tail_from [] bs
tail_from-newline line b bs h = rw h refl

pub lines_from-append :
    (before line rest : Bytes)
    → IsOneLine line
    → (lines_from before (line ++ rest) ≡ lines_from (before ++ line) rest)
      × (tail_from before (line ++ rest) ≡ tail_from (before ++ line) rest)
lines_from-append before [] rest h = rw (append-nil before) (refl, refl)
lines_from-append before (c ∷ cs) rest h =
    let (p, q) = lines_from-append (before ++ (c ∷ [])) cs rest h.1 in
    (
      rw h.0 (p ∙ ap (λ l. lines_from l rest) (append_assoc before (c ∷ []) cs)),
      tail_from-other before c (cs ++ rest) h.0
          ∙ q
          ∙ ap (λ l. tail_from l rest) (append_assoc before (c ∷ []) cs),
    )

abbrev pub remove_nth {ℓ} : {A : Type ℓ} → ℕ → List A → List A
remove_nth n [] = []
remove_nth zero (x ∷ xs) = xs
remove_nth (suc n) (x ∷ xs) = x ∷ remove_nth n xs

-- Without its `n`-th line a text has the other lines and the same end.
pub lines_from-drained :
    (n : ℕ) (line bs : Bytes) (x : Bytes)
    → IsOneLine line
    → at n (lines_from line bs) ≡ some x
    → (lines_from [] (drained n line bs) ≡ remove_nth n (lines_from line bs))
      × (tail_from [] (drained n line bs) ≡ tail_from line bs)
lines_from-drained n line [] x h e = cc
lines_from-drained zero line (b ∷ bs) x h e = elim (Bool-cases (is_newline b)) [
  | inl y ↦ (rw y refl, rw y refl)
  | inr m ↦
      (let (p, q) =
          lines_from-drained zero (line ++ (b ∷ [])) bs x (All-append _ line (b ∷ []) h (m, tt))
            (ground arith) in
        (rw m p, rw m q))
]
lines_from-drained (suc n) line (b ∷ bs) x h e = elim (Bool-cases (is_newline b)) [
  | inl y ↦
      (let (p, q) = lines_from-drained n [] bs x tt (ground arith) in
        let (u, v) = lines_from-append [] line (b ∷ drained n [] bs) h in
        (
          rw y (u ∙ rw y (ap (λ l. line ∷ l) p)),
          rw y (v ∙ tail_from-newline line b (drained n [] bs) y ∙ q),
        ))
  | inr m ↦
      (let (p, q) =
          lines_from-drained (suc n) (line ++ (b ∷ [])) bs x (All-append _ line (b ∷ []) h (m, tt))
            (ground arith) in
        (rw m p, rw m q))
]

pub tail_from-no_lines :
    (line bs : Bytes) → lines_from line bs ≡ [] → tail_from line bs ≡ line ++ bs
tail_from-no_lines line [] h = sym (append-nil line)
tail_from-no_lines line (b ∷ bs) h = elim (Bool-cases (is_newline b)) [
  | inl y ↦ absurd (ground arith)
  | inr m ↦
      tail_from-other line b bs m
      ∙ tail_from-no_lines (line ++ (b ∷ [])) bs (ground arith)
      ∙ append_assoc line (b ∷ []) bs
]

pub length-remove_nth {ℓ} :
    {A : Type ℓ} (n : ℕ) (xs : List A) (x : A)
    → at n xs ≡ some x
    → length (remove_nth n xs) + 1 ≡ length xs
length-remove_nth n [] x h = cc
length-remove_nth zero (y ∷ ys) x h = omega arith
length-remove_nth (suc n) (y ∷ ys) x h = omega (arith, length-remove_nth n ys x h)

pub length-lines_from : (line bs : Bytes) → length (lines_from line bs) ≤ length bs
length-lines_from line [] = omega arith
length-lines_from line (b ∷ bs) = elim (Bool-cases (is_newline b)) [
  | inl y ↦ rw y (omega (arith, length-lines_from [] bs))
  | inr n ↦ rw n (omega (arith, length-lines_from (line ++ (b ∷ [])) bs))
]
