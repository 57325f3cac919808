-- ===== src/Migration/Commands/Scheduled.antt =====
-- What `migrate schedule` puts into the pool.
use umbrel_apps.Prelude.{
  All, ℕ, suc, String, true, false, List, [], ◌∷◌, ◌++◌, map, ◌≡◌, refl, sym, ap, ◌∙◌, Result, ok,
  str_eq, eq_refl, arith, any, length, append_assoc, append-nil, any-append, ||-eq-false,
}
use umbrel_apps.Db.Models.{DateTime, Row, pending}
use umbrel_apps.Db.Table.{Table, has_id, new_row, insert_broadcast_tx}
use umbrel_apps.Db.Table.Update.{str_eq-sym}
use umbrel_apps.Pool.Schedule.Delay.{Draws}
use umbrel_apps.Migration.Plans.{
  MigrationPlan, MigrationUtxo, get_migration_plan_by_id, list_migration_utxos, set_pool_id,
  link_utxo_to_pool,
}
use umbrel_apps.Migration.Commands.{Store, Range, placeholder, schedule_utxos, schedule}

module _ (draws : String → Draws) (ids : String → String) (now : DateTime) (r : Range)
    (p : MigrationPlan) where
  -- The row of the pool for a utxo.
  abbrev pub pool_row : MigrationUtxo → Row
  pool_row u = new_row (ids u.id) now (placeholder (draws u.id) now r p u)

  -- The ids that are drawn are not taken, and none is drawn twice.
  abbrev pub FreshRows : List MigrationUtxo → Table → Type 0
  FreshRows [] t = Unit
  FreshRows (u ∷ us) t =
      (any (has_id (ids u.id)) t ≡ false)
      × (any (λ (v : MigrationUtxo). str_eq (ids v.id) (ids u.id)) us ≡ false)
      × FreshRows us t

  -- Each utxo with the id of its row.
  abbrev pub link_all : List MigrationUtxo → List MigrationUtxo → List MigrationUtxo
  link_all [] utxos = utxos
  link_all (u ∷ us) utxos = link_all us (set_pool_id u.id (ids u.id) utxos)

  still_fresh :
      (u : MigrationUtxo) (us : List MigrationUtxo) (t : Table)
      → any (λ (v : MigrationUtxo). str_eq (ids v.id) (ids u.id)) us ≡ false
      → FreshRows us t
      → FreshRows us (t ++ (pool_row u ∷ []))
  unfolding new_row
  still_fresh u [] t h f = tt
  still_fresh u (v ∷ us) t h f =
      let miss = ||-eq-false (str_eq (ids v.id) (ids u.id)) _ h in
      (
        any-append (has_id (ids v.id)) t (pool_row u ∷ [])
            ∙ rw f.0 (rw (str_eq-sym (ids u.id) (ids v.id)) (rw miss.0 refl)),
        f.1,
        still_fresh u us t miss.1 f.2,
      )

  inserted :
      (u : MigrationUtxo) (t : Table)
      → any (has_id (ids u.id)) t ≡ false
      → insert_broadcast_tx (ids u.id) now (placeholder (draws u.id) now r p u) t
        ≡ ok (t ++ (pool_row u ∷ []), pool_row u)
  unfolding insert_broadcast_tx
  inserted u t free = rw free refl

  linked :
      (u : MigrationUtxo) (t : Table) (utxos : List MigrationUtxo)
      → link_utxo_to_pool u.id (pool_row u).id (t ++ (pool_row u ∷ [])) utxos
        ≡ ok (set_pool_id u.id (ids u.id) utxos)
  unfolding link_utxo_to_pool new_row
  linked u t utxos =
      let there : any (has_id (ids u.id)) (t ++ (pool_row u ∷ [])) ≡ true =
        any-append (has_id (ids u.id)) t (pool_row u ∷ [])
        ∙ rw (eq_refl (ids u.id)) (ground arith) in
      rw there (ground arith)

  after : List MigrationUtxo → Store → Store
  after us s = record s { pool = s.pool ++ map pool_row us; utxos = link_all us s.utxos }

  schedule_utxos-ok :
      (us : List MigrationUtxo) (s : Store)
      → FreshRows us s.pool
      → schedule_utxos draws ids now r p us s ≡ (after us s, ok (length us))
  unfolding schedule_utxos after
  schedule_utxos-ok [] s f = ap (λ t. (record s { pool = t }, ok 0)) (sym (append-nil s.pool))
  schedule_utxos-ok (u ∷ us) s f =
      let s' : Store = record s {
        pool = s.pool ++ (pool_row u ∷ []);
        utxos = set_pool_id u.id (ids u.id) s.utxos;
      } in
      let rest = schedule_utxos-ok us s' (still_fresh u us s.pool f.1 f.2) in
      rw (inserted u s.pool f.0, schedule_utxos)
        (rw (linked u s.pool s.utxos) (
          rw rest (
            ap (λ (x : Store × Result ℕ). (x.0, ok (suc (length us)))) rest
            ∙ ap (λ t. (record s { pool = t; utxos = link_all us s'.utxos }, ok (suc (length us))))
                (append_assoc s.pool (pool_row u ∷ []) (map pool_row us)))))

without_hex :
    (draws : String → Draws) (ids : String → String) (now : DateTime) (r : Range)
    (p : MigrationPlan) (us : List MigrationUtxo)
    → All (λ x. (x.tx_hex ≡ "") × (x.status ≡ pending)) (map (pool_row draws ids now r p) us)
unfolding new_row
without_hex draws ids now r p [] = tt
without_hex draws ids now r p (u ∷ us) = ((refl, refl), without_hex draws ids now r p us)

-- Under fresh ids a schedule of a plan succeeds: it adds to the pool one pending transaction without a
-- hex for each utxo of the plan, in their order, after what was there, and each utxo is linked to its
-- transaction.
pub schedule-rows :
    (draws : String → Draws) (ids : String → String) (now : DateTime) (r : Range) (plan : String)
    (s : Store) (p : MigrationPlan)
    → get_migration_plan_by_id plan s.plans ≡ ok p
    → FreshRows draws ids now r p (list_migration_utxos plan s.utxos) s.pool
    → ((schedule draws ids now r plan s).1 ≡ ok (length (list_migration_utxos plan s.utxos)))
      × ((schedule draws ids now r plan s).0.pool
          ≡ s.pool ++ map (pool_row draws ids now r p) (list_migration_utxos plan s.utxos))
      × ((schedule draws ids now r plan s).0.utxos
          ≡ link_all draws ids now r p (list_migration_utxos plan s.utxos) s.utxos)
      × All
          (λ x. (x.tx_hex ≡ "") × (x.status ≡ pending))
          (map (pool_row draws ids now r p) (list_migration_utxos plan s.utxos))
unfolding schedule after
schedule-rows draws ids now r plan s p here f =
    let run : schedule draws ids now r plan s
        ≡ schedule_utxos draws ids now r p (list_migration_utxos plan s.utxos) s =
      rw (here, schedule) refl in
    let ends = run ∙ schedule_utxos-ok draws ids now r p (list_migration_utxos plan s.utxos) s f in
    (
      ap (λ x. x.1) ends,
      ap (λ x. x.0.pool) ends,
      ap (λ x. x.0.utxos) ends,
      without_hex draws ids now r p (list_migration_utxos plan s.utxos),
    )
