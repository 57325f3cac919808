-- ===== src/Db/Table/Select.antt =====
-- SELECT … ORDER BY created_at DESC LIMIT ?: what a listing holds, and loops over one.
use mathlib.Core.Path.{fun_ext}
use umbrel_apps.Prelude.{
  ℕ, zero, suc, ◌≤◌, Bool, false, ◌||◌, [], ◌∷◌, map, ◌≡◌, refl, sym, ap, ◌∙◌, inl, inr, leb,
  filter, any, take, length, All, arith, eq_iff, Bool-cases, ||-eq-false,
}
use umbrel_apps.Db.Models.{Row}
use umbrel_apps.Db.Table.{Table, has_id, insert_desc, order_desc}
use umbrel_apps.Db.Table.Update.{
  KeepsId, Distinct, update_each, change_each, change_at, change_at_comm, update_each-map,
}

pub any-insert_desc :
    (p : Row → Bool) (r : Row) (t : Table) → any p (insert_desc r t) ≡ (p r || any p t)
unfolding insert_desc
any-insert_desc p r [] = refl
any-insert_desc p r (s ∷ t) = ground (arith, any-insert_desc p r t)

pub any-order_desc : (p : Row → Bool) (t : Table) → any p (order_desc t) ≡ any p t
unfolding order_desc
any-order_desc p [] = refl
any-order_desc p (r ∷ t) = ground (arith, any-insert_desc p r (order_desc t), any-order_desc p t)

length-insert_desc : (r : Row) (t : Table) → length (insert_desc r t) ≡ suc (length t)
unfolding insert_desc
length-insert_desc r [] = refl
length-insert_desc r (s ∷ t) = ground (arith, length-insert_desc r t)

pub length-order_desc : (t : Table) → length (order_desc t) ≡ length t
unfolding order_desc
length-order_desc [] = refl
length-order_desc (r ∷ t) = length-insert_desc r (order_desc t) ∙ ap suc (length-order_desc t)

All-insert_desc : (P : Row → Type 0) (r : Row) (t : Table) → P r → All P t → All P (insert_desc r t)
unfolding insert_desc
All-insert_desc P r [] h a = (h, tt)
All-insert_desc P r (s ∷ t) h a = elim (Bool-cases (leb s.created_at r.created_at)) [
  | inl y ↦ rw y (h, (a.0, a.1))
  | inr n ↦ rw n (a.0, All-insert_desc P r t h a.1)
]

pub All-order_desc : (P : Row → Type 0) (t : Table) → All P t → All P (order_desc t)
unfolding order_desc
All-order_desc P [] a = tt
All-order_desc P (r ∷ t) a = All-insert_desc P r (order_desc t) a.0 (All-order_desc P t a.1)

insert_desc-Distinct :
    (r : Row) (t : Table) → any (has_id r.id) t ≡ false → Distinct t → Distinct (insert_desc r t)
unfolding insert_desc
insert_desc-Distinct r [] h d = (refl, tt)
insert_desc-Distinct r (s ∷ t) h d = ground (
  arith,
  insert_desc-Distinct r t,
  any-insert_desc (has_id s.id) r t,
  eq_iff s.id r.id,
  eq_iff r.id s.id,
)

pub order_desc-Distinct : (t : Table) → Distinct t → Distinct (order_desc t)
unfolding order_desc
order_desc-Distinct [] d = tt
order_desc-Distinct (r ∷ t) d =
    insert_desc-Distinct r (order_desc t) (any-order_desc (has_id r.id) t ∙ d.0)
      (order_desc-Distinct t d.1)

any-filter : (p q : Row → Bool) (t : Table) → any p t ≡ false → any p (filter q t) ≡ false
any-filter p q [] h = refl
any-filter p q (r ∷ t) h = ground (arith, any-filter p q t)

pub filter-Distinct : (q : Row → Bool) (t : Table) → Distinct t → Distinct (filter q t)
filter-Distinct q [] d = tt
filter-Distinct q (r ∷ t) d =
    ground (arith, any-filter (has_id r.id) q t d.0, filter-Distinct q t d.1)

pub take_all : (n : ℕ) (t : Table) → length t ≤ n → take n t ≡ t
take_all zero [] h = refl
take_all zero (r ∷ t) h = elim h [ ]
take_all (suc n) [] h = refl
take_all (suc n) (r ∷ t) h = ap (λ u. r ∷ u) (take_all n t (omega arith))

-- The newest first.
abbrev pub IsNewestFirst : Table → Type 0
IsNewestFirst [] = Unit
IsNewestFirst (r ∷ t) = All (λ s. s.created_at ≤ r.created_at) t × IsNewestFirst t

-- The order of distinct rows does not matter to a loop of updates.
module _ (change : Row → Row → Row) (keeps : (x : Row) → KeepsId (change x)) where
  change_each-insert_desc :
      (x : Row) (xs : Table) (r : Row)
      → any (has_id x.id) xs ≡ false
      → change_each change (insert_desc x xs) r ≡ change_each change (x ∷ xs) r
  unfolding insert_desc
  change_each-insert_desc x [] r h = refl
  change_each-insert_desc x (s ∷ xs) r h =
      let miss = ||-eq-false (has_id x.id s) _ h in
      elim (Bool-cases (leb s.created_at x.created_at)) [
        | inl y ↦ rw y
        | inr n ↦ rw n (
            change_each-insert_desc x xs (change_at change s r) miss.1
            ∙ ap (change_each change xs) (change_at_comm change x s r keeps miss.0))
      ]

  change_each-order_desc :
      (xs : Table) (r : Row)
      → Distinct xs
      → change_each change (order_desc xs) r ≡ change_each change xs r
  unfolding order_desc
  change_each-order_desc [] r d = refl
  change_each-order_desc (x ∷ xs) r d =
      change_each-insert_desc x (order_desc xs) r (any-order_desc (has_id x.id) xs ∙ d.0)
      ∙ change_each-order_desc xs _ d.1

  pub update_each-order_desc :
      (t : Table) (xs : Table)
      → Distinct xs
      → update_each change t (order_desc xs) ≡ update_each change t xs
  update_each-order_desc t xs d =
      update_each-map change (order_desc xs) t
      ∙ ap (λ f. map f t) (fun_ext (λ r. change_each-order_desc xs r d))
      ∙ sym (update_each-map change xs t)
