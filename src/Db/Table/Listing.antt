-- ===== src/Db/Table/Listing.antt =====
-- What a listing of transactions holds.
use umbrel_apps.Prelude.{
  ℕ, zero, suc, ◌≤◌, String, Option, Bool, true, [], ◌∷◌, ◌≡◌, ap, ◌∙◌, inl, inr, leb, leb→le,
  leb-false→lt, filter, any, take, length, All, arith, Bool-cases,
}
use umbrel_apps.Db.Models.{Row}
use umbrel_apps.Db.Table.{Table, insert_desc, order_desc, matches_filter, list_broadcast_txs}
use umbrel_apps.Db.Table.Select.{
  IsNewestFirst, All-order_desc, any-order_desc, length-order_desc, take_all,
}

abbrev NotNewer : Row → Row → Type 0
NotNewer r s = s.created_at ≤ r.created_at

All-map : {P Q : Row → Type 0} (t : Table) → ((r : Row) → P r → Q r) → All P t → All Q t
All-map [] f a = tt
All-map (r ∷ t) f a = (f r a.0, All-map t f a.1)

All-insert : (P : Row → Type 0) (r : Row) (t : Table) → P r → All P t → All P (insert_desc r t)
unfolding insert_desc
All-insert P r [] h a = (h, tt)
All-insert P r (s ∷ t) h a = elim (Bool-cases (leb s.created_at r.created_at)) [
  | inl y ↦ rw y (h, (a.0, a.1))
  | inr n ↦ rw n (a.0, All-insert P r t h a.1)
]

insert_desc-IsNewestFirst :
    (r : Row) (t : Table) → IsNewestFirst t → IsNewestFirst (insert_desc r t)
unfolding insert_desc
insert_desc-IsNewestFirst r [] o = (tt, tt)
insert_desc-IsNewestFirst r (s ∷ t) o = elim (Bool-cases (leb s.created_at r.created_at)) [
  | inl y ↦
      (let le = leb→le s.created_at r.created_at y in
        rw y ((le, All-map t (λ u h. omega (arith, h, le)) o.0), o))
  | inr n ↦
      (let lt = leb-false→lt s.created_at r.created_at n in
        rw n
          (All-insert (NotNewer s) r t (omega (arith, lt)) o.0, insert_desc-IsNewestFirst r t o.1))
]

order_desc-IsNewestFirst : (t : Table) → IsNewestFirst (order_desc t)
unfolding order_desc
order_desc-IsNewestFirst [] = tt
order_desc-IsNewestFirst (r ∷ t) =
    insert_desc-IsNewestFirst r (order_desc t) (order_desc-IsNewestFirst t)

All-take : (P : Row → Type 0) (n : ℕ) (t : Table) → All P t → All P (take n t)
All-take P zero t a = tt
All-take P (suc n) [] a = tt
All-take P (suc n) (r ∷ t) a = (a.0, All-take P n t a.1)

take-IsNewestFirst : (n : ℕ) (t : Table) → IsNewestFirst t → IsNewestFirst (take n t)
take-IsNewestFirst zero t o = tt
take-IsNewestFirst (suc n) [] o = tt
take-IsNewestFirst (suc n) (r ∷ t) o = (All-take (NotNewer r) n t o.0, take-IsNewestFirst n t o.1)

length-take : (n : ℕ) (t : Table) → length (take n t) ≤ n
length-take zero t = omega arith
length-take (suc n) [] = omega arith
length-take (suc n) (r ∷ t) = omega (arith, length-take n t)

All-filter : (p : Row → Bool) (t : Table) → All (λ r. p r ≡ true) (filter p t)
All-filter p [] = tt
All-filter p (r ∷ t) = elim (Bool-cases (p r)) [
  | inl y ↦ rw y (y, All-filter p t)
  | inr n ↦ rw n (All-filter p t)
]

-- A listing has at most `limit` transactions, the newest first, each on the network and in the
-- status that was asked for; if there are no more than that, every one of them is listed.
pub list_broadcast_txs-lists :
    (status : Option String) (network : String) (limit : ℕ) (t : Table)
    → (length (list_broadcast_txs status network limit t) ≤ limit)
      × IsNewestFirst (list_broadcast_txs status network limit t)
      × All
          (λ r. matches_filter status network r ≡ true)
          (list_broadcast_txs status network limit t)
      × (length (filter (matches_filter status network) t) ≤ limit
          → (p : Row → Bool)
          → any p (list_broadcast_txs status network limit t)
            ≡ any p (filter (matches_filter status network) t))
unfolding list_broadcast_txs
list_broadcast_txs-lists status network limit t =
    let found = filter (matches_filter status network) t in
    (
      length-take limit (order_desc found),
      take-IsNewestFirst limit (order_desc found) (order_desc-IsNewestFirst found),
      All-take _ limit (order_desc found)
          (All-order_desc _ found (All-filter (matches_filter status network) t)),
      λ few p.
          ap (any p)
            (take_all limit (order_desc found) (omega (arith, few, length-order_desc found)))
          ∙ any-order_desc p found,
    )
