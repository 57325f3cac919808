-- ===== src/Db/Table/Update.antt =====
-- UPDATE … WHERE id = ?, alone and in a loop over rows selected before.
use umbrel_apps.Prelude.{
  String, Bool, false, List, [], ◌∷◌, map, ◌≡◌, refl, ap, ◌∙◌, inl, inr, Result, ok, err, str_eq,
  if◌then◌else◌, filter, any, arith, eq_iff, eq_refl, Bool-cases, length,
}
use umbrel_apps.Db.Models.{Row}
use umbrel_apps.Db.Table.{Table, has_id, update_where, get_broadcast_tx_by_id}

-- The primary key: no two rows have one id.
abbrev pub Distinct : Table → Type 0
Distinct [] = Unit
Distinct (r ∷ t) = (any (has_id r.id) t ≡ false) × Distinct t

-- A change of a row that leaves its id alone.
abbrev pub KeepsId : (Row → Row) → Type 0
KeepsId set = (r : Row) → (set r).id ≡ r.id

pub str_eq-sym : (a b : String) → str_eq a b ≡ str_eq b a
str_eq-sym a b = ground (arith, eq_iff a b, eq_iff b a)

pub any-update_where :
    (id j : String) (set : Row → Row) (t : Table)
    → KeepsId set
    → any (has_id j) (update_where id set t) ≡ any (has_id j) t
unfolding update_where
any-update_where id j set [] k = refl
any-update_where id j set (r ∷ t) k = ground (arith, any-update_where id j set t k, k r)

pub update_where-Distinct :
    (id : String) (set : Row → Row) (t : Table)
    → KeepsId set
    → Distinct t
    → Distinct (update_where id set t)
unfolding update_where
update_where-Distinct id set [] k d = tt
update_where-Distinct id set (r ∷ t) k d =
    ground (arith, any-update_where id r.id set t k, k r, update_where-Distinct id set t k d.1)

-- An id that is absent changes nothing.
pub update_where-absent :
    (id : String) (set : Row → Row) (t : Table)
    → any (has_id id) t ≡ false
    → update_where id set t ≡ t
unfolding update_where
update_where-absent id set [] h = refl
update_where-absent id set (r ∷ t) h = ground (arith, update_where-absent id set t)

-- What a lookup finds after an update: the new row at its id, and the old one elsewhere.
abbrev pub map_ok : (Row → Row) → Result Row → Result Row
map_ok set (ok r) = ok (set r)
map_ok set (err e) = err e

pub get-update_where :
    (id j : String) (set : Row → Row) (t : Table)
    → KeepsId set
    → get_broadcast_tx_by_id j (update_where id set t) ≡ (
        if str_eq id j then map_ok set (get_broadcast_tx_by_id j t) else get_broadcast_tx_by_id j t)
unfolding update_where get_broadcast_tx_by_id
get-update_where id j set [] k = ground arith
get-update_where id j set (r ∷ t) k =
    ground (arith, get-update_where id j set t k, k r, eq_iff id j, eq_iff r.id id, eq_iff r.id j)

pub update_where-id : (id : String) (t : Table) → update_where id (λ r. r) t ≡ t
unfolding update_where
update_where-id id [] = refl
update_where-id id (r ∷ t) = ground (arith, update_where-id id t)

any-map-id :
    (j : String) (f : Row → Row) (t : Table)
    → KeepsId f
    → any (has_id j) (map f t) ≡ any (has_id j) t
any-map-id j f [] k = refl
any-map-id j f (r ∷ t) k = rw (k r, any-map-id j f t k) refl

pub map-Distinct : (f : Row → Row) (t : Table) → KeepsId f → Distinct t → Distinct (map f t)
map-Distinct f [] k d = tt
map-Distinct f (r ∷ t) k d = (rw (k r) (any-map-id r.id f t k ∙ d.0), map-Distinct f t k d.1)

pub get-map :
    (id : String) (f : Row → Row) (t : Table)
    → KeepsId f
    → get_broadcast_tx_by_id id (map f t) ≡ map_ok f (get_broadcast_tx_by_id id t)
unfolding get_broadcast_tx_by_id
get-map id f [] k = refl
get-map id f (r ∷ t) k = ground (arith, k r, get-map id f t k)

-- A change that a test does not see leaves the number of rows with it.
pub length-filter-map :
    (p : Row → Bool) (f : Row → Row) (t : Table)
    → ((r : Row) → p (f r) ≡ p r)
    → length (filter p (map f t)) ≡ length (filter p t)
length-filter-map p f [] k = refl
length-filter-map p f (r ∷ t) k = ground (arith, k r, length-filter-map p f t k)

pub map-map : (f g : Row → Row) (t : Table) → map g (map f t) ≡ map (λ r. g (f r)) t
map-map f g [] = refl
map-map f g (r ∷ t) = ap (λ u. g (f r) ∷ u) (map-map f g t)

-- A loop of updates, each by what was read from its row before the loop.
module _ (change : Row → Row → Row) where
  abbrev pub update_each : Table → List Row → Table
  update_each t [] = t
  update_each t (x ∷ xs) = update_each (update_where x.id (change x) t) xs

  -- The same on one row.
  pub change_at : Row → Row → Row
  change_at x r = if str_eq r.id x.id then change x r else r

  abbrev pub change_each : List Row → Row → Row
  change_each [] r = r
  change_each (x ∷ xs) r = change_each xs (change_at x r)

  pub change_at_comm :
      (x y r : Row)
      → ((z : Row) → KeepsId (change z))
      → str_eq y.id x.id ≡ false
      → change_at x (change_at y r) ≡ change_at y (change_at x r)
  unfolding change_at
  change_at_comm x y r k h =
      ground (arith, k x r, k y r, eq_iff r.id x.id, eq_iff r.id y.id, eq_iff y.id x.id)

  update_each-cons :
      (xs : List Row) (r : Row) (t : Table)
      → update_each (r ∷ t) xs ≡ change_each xs r ∷ update_each t xs
  unfolding update_where change_at
  update_each-cons [] r t = refl
  update_each-cons (x ∷ xs) r t = update_each-cons xs _ (update_where x.id (change x) t)

  -- So a loop over any rows is a loop on each row of the table.
  pub update_each-map : (xs : List Row) (t : Table) → update_each t xs ≡ map (change_each xs) t
  unfolding update_where
  update_each-map [] [] = refl
  update_each-map (x ∷ xs) [] = update_each-map xs []
  update_each-map xs (r ∷ t) =
      update_each-cons xs r t ∙ ap (λ u. change_each xs r ∷ u) (update_each-map xs t)

  change_each-absent :
      (p : Row → Bool) (t : Table) (r : Row)
      → any (has_id r.id) t ≡ false
      → change_each (filter p t) r ≡ r
  unfolding change_at
  change_each-absent p [] r h = refl
  change_each-absent p (x ∷ t) r h = ground (arith, change_each-absent p t r, str_eq-sym x.id r.id)

  update_where-head :
      (r : Row) (t : Table)
      → any (has_id r.id) t ≡ false
      → update_where r.id (change r) (r ∷ t) ≡ change r r ∷ t
  unfolding update_where
  update_where-head r t h = rw (eq_refl r.id, update_where-absent r.id (change r) t h)

  abbrev pub change_selected : (Row → Bool) → Row → Row
  change_selected p r = if p r then change r r else r

  cons_path : {a b : Row} {s u : Table} → a ≡ b → s ≡ u → ◌≡◌ {A = Table} (a ∷ s) (b ∷ u)
  cons_path e f = cc

  -- Over the rows that a test selects, the loop changes each of them once and no other row.
  pub update_each-filter :
      (p : Row → Bool) (t : Table)
      → ((x : Row) → KeepsId (change x))
      → Distinct t
      → update_each t (filter p t) ≡ map (change_selected p) t
  update_each-filter p [] k d = refl
  update_each-filter p (r ∷ t) k d = elim (Bool-cases (p r)) [
    | inr skip ↦ rw skip (
        update_each-cons (filter p t) r t
        ∙ cons_path (change_each-absent p t r d.0) (update_each-filter p t k d.1))
    | inl hit ↦ rw hit (
        ap (λ u. update_each u (filter p t)) (update_where-head r t d.0)
        ∙ update_each-cons (filter p t) (change r r) t
        ∙ cons_path (change_each-absent p t (change r r) (rw (k r r) d.0))
            (update_each-filter p t k d.1))
  ]

  pub update_each-Distinct :
      (xs : List Row) (t : Table)
      → ((x : Row) → KeepsId (change x))
      → Distinct t
      → Distinct (update_each t xs)
  update_each-Distinct [] t k d = d
  update_each-Distinct (x ∷ xs) t k d =
      update_each-Distinct xs _ k (update_where-Distinct x.id (change x) t (k x) d)
