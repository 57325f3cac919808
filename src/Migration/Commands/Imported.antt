-- ===== src/Migration/Commands/Imported.antt =====
-- What an import of utxos does to its plan.
use umbrel_apps.Prelude.{
  ℕ, suc, ◌+◌, ◌<◌, ◌^◌, String, true, false, List, [], ◌∷◌, ◌++◌, map, ◌≡◌, refl, sym, ap, ◌∙◌,
  inl, inr, Result, ok, err, str_eq, eq_refl, arith, any, filter, length, append_assoc, append-nil,
  any-append, Bool-cases, ||-eq-false,
}
use umbrel_apps.Prelude.Int.{ℤ, pos}
use umbrel_apps.Db.Models.{DateTime}
use umbrel_apps.Db.Table.Update.{str_eq-sym}
use umbrel_apps.Migration.Plans.{
  wrap_i32, MigrationPlan, MigrationUtxo, NewMigrationUtxo, has_plan_id, has_utxo_id, new_utxo,
  is_of_plan, get_migration_plan_by_id, update_plan, update_plan_total, get_migration_utxo_by_id,
  insert_migration_utxo, insert_utxo_asc, order_utxos_asc, list_migration_utxos,
}
use umbrel_apps.Migration.Commands.{Store, add_i32, insert_all, counted, import_utxos}

abbrev pub Drawn : Type 0
Drawn = String × NewMigrationUtxo

-- No id is taken, and none is drawn twice.
abbrev pub Fresh : List Drawn → List MigrationUtxo → Type 0
Fresh [] us = Unit
Fresh (d ∷ ds) us =
    (any (has_utxo_id d.0) us ≡ false)
    × (any (λ (e : Drawn). str_eq e.0 d.0) ds ≡ false)
    × Fresh ds us

get-appended :
    (u : MigrationUtxo) (us : List MigrationUtxo)
    → any (has_utxo_id u.id) us ≡ false
    → get_migration_utxo_by_id u.id (us ++ (u ∷ [])) ≡ ok u
unfolding get_migration_utxo_by_id
get-appended u [] h = rw (eq_refl u.id) refl
get-appended u (v ∷ us) h =
    let miss = ||-eq-false (has_utxo_id u.id v) (any (has_utxo_id u.id) us) h in
    rw miss.0 (get-appended u us miss.1)

inserted :
    (id plan : String) (now : DateTime) (u : NewMigrationUtxo) (plans : List MigrationPlan)
    (us : List MigrationUtxo)
    → any (has_utxo_id id) us ≡ false
    → any (has_plan_id plan) plans ≡ true
    → insert_migration_utxo id now plan u plans us
      ≡ ok (us ++ (new_utxo id now plan u ∷ []), new_utxo id now plan u)
unfolding insert_migration_utxo
inserted id plan now u plans us free known =
    rw free (rw known (rw (get-appended (new_utxo id now plan u) us free) refl))

-- The ids that are left stay fresh.
still-Fresh :
    (d : Drawn) (ds : List Drawn) (now : DateTime) (plan : String) (us : List MigrationUtxo)
    → any (λ (e : Drawn). str_eq e.0 d.0) ds ≡ false
    → Fresh ds us
    → Fresh ds (us ++ (new_utxo d.0 now plan d.1 ∷ []))
still-Fresh d [] now plan us h f = tt
still-Fresh d (e ∷ ds) now plan us h f =
    let miss = ||-eq-false (str_eq e.0 d.0) _ h in
    (
      any-append (has_utxo_id e.0) us (new_utxo d.0 now plan d.1 ∷ [])
          ∙ rw f.0 (rw (str_eq-sym d.0 e.0) (rw miss.0 refl)),
      f.1,
      still-Fresh d ds now plan us miss.1 f.2,
    )

abbrev pub rows : DateTime → String → List Drawn → List MigrationUtxo
rows now plan ds = map (λ (d : Drawn). new_utxo d.0 now plan d.1) ds

insert_all-ok :
    (now : DateTime) (plan : String) (ds : List Drawn) (s : Store)
    → any (has_plan_id plan) s.plans ≡ true
    → Fresh ds s.utxos
    → insert_all now plan ds s ≡ (record s { utxos = s.utxos ++ rows now plan ds }, ok (length ds))
unfolding insert_all
insert_all-ok now plan [] s known f =
    ap (λ us. (record s { utxos = us }, ok 0)) (sym (append-nil s.utxos))
insert_all-ok now plan (d ∷ ds) s known f =
    let row = new_utxo d.0 now plan d.1 in
    let s' : Store = record s { utxos = s.utxos ++ (row ∷ []) } in
    let rest = insert_all-ok now plan ds s' known (still-Fresh d ds now plan s.utxos f.1 f.2) in
    rw (inserted d.0 plan now d.1 s.plans s.utxos f.0 known, insert_all)
      (rw rest (
        ap (λ (r : Store × Result ℕ). (r.0, ok (suc (length ds)))) rest
        ∙ ap (λ us. (record s { utxos = us }, ok (suc (length ds))))
            (append_assoc s.utxos (row ∷ []) (rows now plan ds))))

length-insert_utxo_asc :
    (u : MigrationUtxo) (us : List MigrationUtxo) → length (insert_utxo_asc u us) ≡ suc (length us)
unfolding insert_utxo_asc
length-insert_utxo_asc u [] = refl
length-insert_utxo_asc u (v ∷ vs) = ground (arith, length-insert_utxo_asc u vs)

length-order_utxos_asc : (us : List MigrationUtxo) → length (order_utxos_asc us) ≡ length us
unfolding order_utxos_asc
length-order_utxos_asc [] = refl
length-order_utxos_asc (u ∷ us) =
    length-insert_utxo_asc u (order_utxos_asc us) ∙ ap suc (length-order_utxos_asc us)

filter-own :
    (now : DateTime) (plan : String) (ds : List Drawn)
    → length (filter (is_of_plan plan) (rows now plan ds)) ≡ length ds
filter-own now plan [] = refl
filter-own now plan (d ∷ ds) = rw (eq_refl plan) (ap suc (filter-own now plan ds))

filter-rows :
    (now : DateTime) (plan : String) (us : List MigrationUtxo) (ds : List Drawn)
    → length (filter (is_of_plan plan) (us ++ rows now plan ds))
      ≡ length (filter (is_of_plan plan) us) + length ds
filter-rows now plan [] ds = omega (arith, filter-own now plan ds)
filter-rows now plan (u ∷ us) ds = ground (arith, filter-rows now plan us ds)

length-listed :
    (now : DateTime) (plan : String) (us : List MigrationUtxo) (ds : List Drawn)
    → length (list_migration_utxos plan (us ++ rows now plan ds))
      ≡ length (list_migration_utxos plan us) + length ds
unfolding list_migration_utxos
length-listed now plan us ds =
    length-order_utxos_asc (filter (is_of_plan plan) (us ++ rows now plan ds))
    ∙ filter-rows now plan us ds
    ∙ ap (λ n. n + length ds) (sym (length-order_utxos_asc (filter (is_of_plan plan) us)))

known_plan :
    (id : String) (p : MigrationPlan) (ps : List MigrationPlan)
    → get_migration_plan_by_id id ps ≡ ok p
    → any (has_plan_id id) ps ≡ true
unfolding get_migration_plan_by_id
known_plan id p [] e = cc
known_plan id p (q ∷ ps) e = elim (Bool-cases (str_eq q.id id)) [
  | inl y ↦ rw y refl
  | inr n ↦ rw n (known_plan id p ps (rw (n, get_migration_plan_by_id) at e))
]

get-update_plan :
    (id : String) (set : MigrationPlan → MigrationPlan) (p : MigrationPlan)
    (ps : List MigrationPlan)
    → ((q : MigrationPlan) → (set q).id ≡ q.id)
    → get_migration_plan_by_id id ps ≡ ok p
    → get_migration_plan_by_id id (update_plan id set ps) ≡ ok (set p)
unfolding get_migration_plan_by_id update_plan
get-update_plan id set p [] k e = cc
get-update_plan id set p (q ∷ ps) k e = elim (Bool-cases (str_eq q.id id)) [
  | inl y ↦
      (let same : ok q ≡ ok p = rw (y, get_migration_plan_by_id) at e in
        let still : str_eq (set q).id id ≡ true = ap (λ i. str_eq i id) (k q) ∙ y in
        rw y (rw still (ap (map_plan set) same)))
  | inr n ↦ rw n (rw n (get-update_plan id set p ps k (rw (n, get_migration_plan_by_id) at e)))
]
  where
    map_plan : (MigrationPlan → MigrationPlan) → Result MigrationPlan → Result MigrationPlan
    map_plan f (ok a) = ok (f a)
    map_plan f (err e) = err e

wrap_small : (k : ℕ) → k < 2 ^ 31 → wrap_i32 k ≡ pos k
wrap_small k h = ground (arith, h)

abbrev set_total : ℤ → DateTime → MigrationPlan → MigrationPlan
set_total total now p = record p { total_transactions = total; updated_at = now }

counted-ok :
    (now : DateTime) (plan : String) (p : MigrationPlan) (k : ℕ) (s : Store)
    → get_migration_plan_by_id plan s.plans ≡ ok p
    → counted now plan (s, ok k) ≡ (
      record s {
        plans = update_plan plan (set_total (add_i32 p.total_transactions k) now) s.plans;
      },
      ok k,
    )
unfolding update_plan_total
counted-ok now plan p k s here = rw (here, counted) refl

-- An import of utxos into a plan that is there, under fresh ids, succeeds: the plan lists that many more
-- utxos, and its total counts them, if it stays below 2^31. So the total goes on being the number of
-- the plan's utxos.
pub import_utxos-total :
    (now : DateTime) (plan : String) (ds : List Drawn) (s : Store) (p : MigrationPlan) (n : ℕ)
    → get_migration_plan_by_id plan s.plans ≡ ok p
    → p.total_transactions ≡ pos n
    → n + length ds < 2 ^ 31
    → Fresh ds s.utxos
    → ((import_utxos now plan (ok ds) s).1 ≡ ok (length ds))
      × (length (list_migration_utxos plan (import_utxos now plan (ok ds) s).0.utxos)
          ≡ length (list_migration_utxos plan s.utxos) + length ds)
      × (get_migration_plan_by_id plan (import_utxos now plan (ok ds) s).0.plans
          ≡ ok (record p { total_transactions = pos (n + length ds); updated_at = now }))
unfolding import_utxos update_plan_total
import_utxos-total now plan ds s p n here total small f =
    let all = insert_all-ok now plan ds s (known_plan plan p s.plans here) f in
    let total' : ℤ = pos (n + length ds) in
    let sum : add_i32 p.total_transactions (length ds) ≡ total' =
      ap (λ t. add_i32 t (length ds)) total ∙ wrap_small (n + length ds) small in
    let filled : Store = record s { utxos = s.utxos ++ rows now plan ds } in
    let run : import_utxos now plan (ok ds) s ≡ counted now plan (filled, ok (length ds)) =
      rw (here, import_utxos) (ap (counted now plan) all) in
    let ends = run ∙ counted-ok now plan p (length ds) filled here in
    (
      ap (λ r. r.1) ends,
      ap (λ r. length (list_migration_utxos plan r.0.utxos)) ends
          ∙ length-listed now plan s.utxos ds,
      ap (λ r. get_migration_plan_by_id plan r.0.plans) ends
          ∙ get-update_plan plan (set_total (add_i32 p.total_transactions (length ds)) now) p
              s.plans (λ q. refl) here
          ∙ ap (λ t. ok (set_total t now p)) sum,
    )
