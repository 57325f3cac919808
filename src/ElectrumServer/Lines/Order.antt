-- ===== src/ElectrumServer/Lines/Order.antt =====
-- In which order the lines of a client's buffer are processed.
use umbrel_apps.Prelude.{
  ℕ, zero, suc, ◌≤◌, String, Option, none, some, Bool, true, not, List, [], ◌∷◌, ◌++◌, map, ◌≡◌,
  refl, sym, ap, ◌∙◌, inl, inr, arith, get_or, length, filter, Bool-cases, Option-cases,
}
use umbrel_apps.ElectrumServer.Requests.{SerdeJson}
use umbrel_apps.ElectrumServer.Lines.{
  Bytes, from_utf8, slice, drain, line_ranges, position, at, trim_returns, is_broadcast_line,
  pop_client_line, pop_lines,
}
use umbrel_apps.ElectrumServer.Lines.Popped.{
  complete_lines, incomplete_line, remove_nth, slices, drained, drain-drained, lines_from-drained,
  tail_from-no_lines, length-remove_nth,
}

length-zero {ℓ} : {A : Type ℓ} (xs : List A) → length xs ≤ 0 → xs ≡ []
length-zero [] h = refl
length-zero (x ∷ xs) h = absurd (omega arith)

abbrev mapped {ℓ κ} : {A : Type ℓ} {B : Type κ} → (A → B) → Option A → Option B
mapped f none = none
mapped f (some a) = some (f a)

at-map {ℓ κ} :
    {A : Type ℓ} {B : Type κ} (f : A → B) (n : ℕ) (xs : List A)
    → at n (map f xs) ≡ mapped f (at n xs)
at-map f n [] = refl
at-map f zero (x ∷ xs) = refl
at-map f (suc n) (x ∷ xs) = at-map f n xs

position-map {ℓ κ} :
    {A : Type ℓ} {B : Type κ} (p : B → Bool) (f : A → B) (xs : List A)
    → position p (map f xs) ≡ position (λ x. p (f x)) xs
unfolding position
position-map p f [] = refl
position-map p f (x ∷ xs) = elim (Bool-cases (p (f x))) [
  | inl y ↦ rw y refl
  | inr n ↦ rw n (rw (position-map p f xs) refl)
]

module _ (p : Bytes → Bool) where
  -- The first that satisfies `p`, or else the first.
  abbrev pub chosen : List Bytes → ℕ
  chosen ls = get_or (position p ls) 0

  -- Those that satisfy `p`, then the others, each in their order.
  abbrev pub in_order : List Bytes → List Bytes
  in_order ls = filter p ls ++ filter (λ l. not (p l)) ls

  filter-position :
      (ls : List Bytes) (n : ℕ) (x : Bytes)
      → position p ls ≡ some n
      → at n ls ≡ some x
      → (filter p ls ≡ x ∷ filter p (remove_nth n ls))
        × (filter (λ l. not (p l)) ls ≡ filter (λ l. not (p l)) (remove_nth n ls))
  unfolding position
  filter-position [] n x h e = cc
  filter-position (l ∷ ls) zero x h e = ground arith
  filter-position (l ∷ ls) (suc n) x h e = ground (arith, filter-position ls n x)

  filter-no_position :
      (ls : List Bytes)
      → position p ls ≡ none
      → (filter p ls ≡ []) × (filter (λ l. not (p l)) ls ≡ ls)
  unfolding position
  filter-no_position [] h = (refl, refl)
  filter-no_position (l ∷ ls) h = ground (arith, filter-no_position ls)

  later_none : (l : Bytes) (ls : List Bytes) → position p (l ∷ ls) ≡ none → position p ls ≡ none
  unfolding position
  later_none l ls h = ground arith

  in_order-no_position :
      (ls : List Bytes) (x : Bytes)
      → position p ls ≡ none
      → at zero ls ≡ some x
      → in_order ls ≡ x ∷ in_order (remove_nth zero ls)
  in_order-no_position [] x h e = cc
  in_order-no_position (l ∷ ls) x h e =
      let (a, b) = filter-no_position (l ∷ ls) h in
      let (c, d) = filter-no_position ls (later_none l ls h) in rw (a, b) (rw (c, d) (cc))

  chosen-in_order :
      (ls : List Bytes) (x : Bytes)
      → at (chosen ls) ls ≡ some x
      → in_order ls ≡ x ∷ in_order (remove_nth (chosen ls) ls)
  chosen-in_order ls x e = elim (Option-cases (position p ls)) [
    | inl h ↦ rw h (in_order-no_position ls x h (rw h at e))
    | inr (n, h) ↦ (let (a, b) = filter-position ls n x h (rw h at e) in rw h (rw (a, b) refl))
  ]

  at-position :
      (ls : List Bytes) (n : ℕ)
      → position p ls ≡ some n
      → (x : Bytes) × (at n ls ≡ some x) × (p x ≡ true)
  unfolding position
  at-position [] n h = cc
  at-position (l ∷ ls) zero h = elim (Bool-cases (p l)) [
    | inl y ↦ (l, refl, y)
    | inr m ↦ absurd (ground arith)
  ]
  at-position (l ∷ ls) (suc n) h = elim (Bool-cases (p l)) [
    | inl y ↦ absurd (ground arith)
    | inr m ↦ at-position ls n (ground arith)
  ]

  chosen-some :
      (l : Bytes) (ls : List Bytes) → (x : Bytes) × (at (chosen (l ∷ ls)) (l ∷ ls) ≡ some x)
  chosen-some l ls = elim (Option-cases (position p (l ∷ ls))) [
    | inl h ↦ (l, rw h refl)
    | inr (n, h) ↦ (let (x, e, _) = at-position (l ∷ ls) n h in (x, rw h e))
  ]

module _ (serde : SerdeJson) where
  abbrev ranges : Bytes → List (ℕ × ℕ)
  ranges = line_ranges 0 0

  abbrev line_of : Bytes → ℕ × ℕ → Bytes
  line_of buf r = slice r.0 r.1 buf

  abbrev pub pick : Bytes → ℕ
  pick buf = get_or (position (λ r. is_broadcast_line serde (line_of buf r)) (ranges buf)) 0

  pick-chosen : (buf : Bytes) → pick buf ≡ chosen (is_broadcast_line serde) (complete_lines buf)
  pick-chosen buf =
      ap (λ o. get_or o 0)
        (sym (position-map (is_broadcast_line serde) (line_of buf) (ranges buf))
          ∙ ap (position (is_broadcast_line serde)) (slices buf [] [] buf 0 0 refl refl refl))

  at-ranges :
      (buf : Bytes) (n : ℕ) → at n (complete_lines buf) ≡ mapped (line_of buf) (at n (ranges buf))
  at-ranges buf n =
      ap (at n) (sym (slices buf [] [] buf 0 0 refl refl refl))
      ∙ at-map (line_of buf) n (ranges buf)

  abbrev popped : Bytes → ℕ × ℕ → (Bytes × String) × Bytes
  popped buf r = ((line_of buf r, from_utf8 (trim_returns (line_of buf r))), drain r.0 r.1 buf)

  pop-mapped :
      (buf : Bytes) → pop_client_line serde buf ≡ mapped (popped buf) (at (pick buf) (ranges buf))
  unfolding pop_client_line
  pop-mapped buf = elim (Option-cases (at (pick buf) (ranges buf))) [
    | inl e ↦ rw (e, pop_client_line) refl
    | inr (r, e) ↦ rw (e, pop_client_line) refl
  ]

  chosen_ends : (buf : Bytes) → at (pick buf) (complete_lines buf) ≡ none → complete_lines buf ≡ []
  chosen_ends buf h =
      no_choice (complete_lines buf)
        (ap (λ n. at n (complete_lines buf)) (sym (pick-chosen buf)) ∙ h)
    where
      no_choice : (ls : List Bytes) → at (chosen (is_broadcast_line serde) ls) ls ≡ none → ls ≡ []
      no_choice [] e = refl
      no_choice (l ∷ ls) e = cc (chosen-some (is_broadcast_line serde) l ls).1

  pop-none : (buf : Bytes) → pop_client_line serde buf ≡ none → complete_lines buf ≡ []
  pop-none buf h = elim (Option-cases (at (pick buf) (ranges buf))) [
    | inl e ↦ chosen_ends buf (at-ranges buf (pick buf) ∙ ap (mapped (line_of buf)) e)
    | inr (r, e) ↦ absurd (cc (pop-mapped buf, ap (mapped (popped buf)) e))
  ]

  pub pop-some :
      (buf line rest : Bytes) (text : String)
      → pop_client_line serde buf ≡ some ((line, text), rest)
      → (at (pick buf) (complete_lines buf) ≡ some line)
        × (complete_lines rest ≡ remove_nth (pick buf) (complete_lines buf))
        × (incomplete_line rest ≡ incomplete_line buf)
        × (text ≡ from_utf8 (trim_returns line))
  pop-some buf line rest text h = elim (Option-cases (at (pick buf) (ranges buf))) [
    | inl e ↦ absurd (cc (pop-mapped buf, ap (mapped (popped buf)) e))
    | inr (r, e) ↦
        (let q : some ((line, text), rest) ≡ some (popped buf r) =
            sym h ∙ pop-mapped buf ∙ ap (mapped (popped buf)) e in
          let here : at (pick buf) (complete_lines buf) ≡ some line =
            at-ranges buf (pick buf) ∙ ap (mapped (line_of buf)) e ∙ cc q in
          let left : rest ≡ drained (pick buf) [] buf =
            cc (q, drain-drained buf [] [] buf 0 0 (pick buf) r refl refl refl e) in
          let (a, b) = lines_from-drained (pick buf) [] buf line tt here in
          (here, ap complete_lines left ∙ a, ap incomplete_line left ∙ b, cc q))
  ]

  -- Every complete line of the buffer is processed exactly once, the broadcasts before the others and
  -- else in the order of arrival, and what has no newline yet stays: as many rounds as there are
  -- complete lines are enough.
  pub pop_lines-in_order :
      (fuel : ℕ) (buf : Bytes)
      → length (complete_lines buf) ≤ fuel
      → pop_lines serde fuel buf
        ≡ (in_order (is_broadcast_line serde) (complete_lines buf), incomplete_line buf)
  unfolding pop_lines
  pop_lines-in_order zero buf h =
      let e = length-zero (complete_lines buf) (omega arith) in
      rw e (cc (tail_from-no_lines [] buf e))
  pop_lines-in_order (suc fuel) buf h = elim (Option-cases (pop_client_line serde buf)) [
    | inl e ↦
        (let none_left = pop-none buf e in
          rw (e, pop_lines) (rw none_left (cc (tail_from-no_lines [] buf none_left))))
    | inr (((line, text), rest), e) ↦
        (let (here, others, same, _) = pop-some buf line rest text e in
          let shorter = length-remove_nth (pick buf) (complete_lines buf) line here in
          let ih = pop_lines-in_order fuel rest (omega (arith, ap length others)) in
          let first =
            chosen-in_order (is_broadcast_line serde) (complete_lines buf) line
              (ap (λ n. at n (complete_lines buf)) (sym (pick-chosen buf)) ∙ here) in
          rw (e, pop_lines)
            (cc (
              ih,
              same,
              first,
              ap (in_order (is_broadcast_line serde))
                  (others ∙ ap (λ n. remove_nth n (complete_lines buf)) (pick-chosen buf)),
            )))
  ]
