-- ===== src/Migrations/Applied.antt =====
-- database.go: which migrations were executed, and in what order.
use aura_risk.Base.{
  ℕ, suc, ◌+◌, ◌≤◌, ◌≡◌, refl, sym, subst, inl, inr, Bool, true, false, some, List, [], ◌∷◌, ◌==◌,
  length, Result, ok, err, exists-append_right, chain-holds, Preserves, bind-Preserves, arith,
  Bool-cases, Option-cases,
}
use aura_risk.Migrations.{
  Migration, File, Database, load_migrations, is_recorded, create_table, insert_legacy, is_there,
  bootstrap, run_sql, record_version, apply_body, rolled_back, apply, apply_all, migrate,
  legacy_versions, applied_versions, pending_migrations, migrate_all,
}
use aura_risk.Migrations.Versions.{
  Numbered, load_from-Numbered, Upto, IsOrdered, mark_legacy-IsOrdered, apply_cases,
  bootstrap_cases, Applies, apply_all-Applies,
}

apply_all-has_table : (ms : List Migration) → Preserves (λ d. d.has_table ≡ true) (apply_all ms)
unfolding apply_all
apply_all-has_table [] = λ d f e. e
apply_all-has_table (m ∷ ms) =
    bind-Preserves (λ d. d.has_table ≡ true) (apply m) (λ applied. apply_all ms)
      (λ d f e. elim (apply_cases m d f) [
        | inl (same, went) ↦ rw same e
        | inr (new, ran) ↦ rw ran e
      ])
      (λ applied. apply_all-has_table ms)

-- The end of bootstrap.
abbrev Prepared : Result (Unit {0}) → Database → Type 0
Prepared (ok u) d = IsOrdered d × (d.has_table ≡ true)
Prepared (err s m) d = IsOrdered d

bootstrap-Prepared :
    (d : Database) (f : List Bool) → IsOrdered d → Prepared (bootstrap d f).0 (bootstrap d f).1
bootstrap-Prepared d f o = elim (bootstrap_cases d f) [
  | inl (same, fails) ↦ unchanged (bootstrap d f).0 fails (subst IsOrdered (sym same) o)
  | inr ran ↦ prepared (bootstrap d f).0 (rw ran (mark_legacy-IsOrdered d d.legacy o)) (rw ran refl)
]
  where
    unchanged :
        (r : Result (Unit {0}))
        → ((u : Unit {0}) → r ≡ ok u → ⊥)
        → IsOrdered (bootstrap d f).1
        → Prepared r (bootstrap d f).1
    unchanged (ok u) fails q = absurd (fails u refl)
    unchanged (err s m) fails q = q

    prepared :
        (r : Result (Unit {0}))
        → IsOrdered (bootstrap d f).1
        → (bootstrap d f).1.has_table ≡ true
        → Prepared r (bootstrap d f).1
    prepared (ok u) q h = (q, h)
    prepared (err s m) q h = q

-- The end of the migrations of a list.
abbrev Migrated : List Migration → Result (Unit {0}) → Database → Type 0
Migrated ms (ok u) d = IsOrdered d × Upto (1 + length ms) d.recorded × (d.has_table ≡ true)
Migrated ms (err s m) d = IsOrdered d

migrated :
    (ms : List Migration) (r : Result (Unit {0})) (d : Database)
    → Applies (1 + length ms) r d
    → d.has_table ≡ true
    → Migrated ms r d
migrated ms (ok u) d (o, upto) h = (o, upto, h)
migrated ms (err s m) d o h = o

migrate-Migrated :
    (files : List File) (ms : List Migration) (d : Database) (f : List Bool)
    → load_migrations files ≡ some ms
    → IsOrdered d
    → Migrated ms (migrate files d f).0 (migrate files d f).1
unfolding migrate load_migrations
migrate-Migrated files ms d f e o =
    rw (migrate, e)
      (chain-holds Prepared (Migrated ms) (bootstrap d f) (λ _. apply_all ms)
        (bootstrap-Prepared d f o)
        (λ u v g (q, h).
          migrated ms (apply_all ms v g).0 (apply_all ms v g).1
            (apply_all-Applies ms 1 v g (load_from-Numbered 1 files ms e) (omega arith) q
              (λ w h k. absurd (omega arith)))
            (apply_all-has_table ms v g h))
        (λ s m v q. q))

of_result :
    (ms : List Migration) (r : Result (Unit {0})) (d : Database) → Migrated ms r d → IsOrdered d
of_result ms (ok u) d q = q.0
of_result ms (err s m) d q = q

migrate-IsOrdered :
    (files : List File) (d : Database) (f : List Bool)
    → IsOrdered d
    → IsOrdered (migrate files d f).1
unfolding migrate
migrate-IsOrdered files d f o = elim (Option-cases (load_migrations files)) [
  | inl fails ↦ rw (migrate, fails) o
  | inr (ms, loads) ↦
      of_result ms (migrate files d f).0 (migrate files d f).1
        (migrate-Migrated files ms d f loads o)
]

-- Over runs of Migrate, of releases with any files and whatever fails, each version is executed at
-- most in the order of versions, is recorded when it has been, and is never recorded before the
-- versions that come before it.
pub migrate_all-IsOrdered :
    (runs : List (List File)) (d : Database) (f : List Bool)
    → IsOrdered d
    → IsOrdered (migrate_all runs d f)
unfolding migrate_all
migrate_all-IsOrdered [] d f o = o
migrate_all-IsOrdered (files ∷ rest) d f o =
    migrate_all-IsOrdered rest (migrate files d f).1 (migrate files d f).2
      (migrate-IsOrdered files d f o)

none_pending :
    (n : ℕ) (ms : List Migration) (d : Database)
    → Numbered n ms
    → 1 ≤ n
    → d.has_table ≡ true
    → Upto (n + length ms) d.recorded
    → pending_migrations ms d ≡ []
unfolding pending_migrations applied_versions
none_pending n [] d e p h upto = refl
none_pending n (m ∷ ms) d (e, es) p h upto =
    let there : is_recorded m.version d.recorded ≡ true =
      upto m.version (omega (arith, e)) (omega (arith, e)) in
    let rest = none_pending (suc n) ms d es (omega arith) h (λ w a b. upto w a (omega arith)) in
    rw (h, exists-append_right (λ w. w == m.version) (legacy_versions d.legacy) d.recorded there)
      rest

-- With no failing call a part ends well, and no call fails after it.
apply_well :
    (m : Migration) (d : Database) → (b : Bool) × (d' : Database) × (apply m d [] ≡ (ok b, d', []))
unfolding apply apply_body rolled_back
apply_well m d = elim (Bool-cases (is_recorded m.version d.recorded)) [
  | inl done ↦ (false, d, rw done refl)
  | inr new ↦ (true, record_version m.version (run_sql m.version d), rw new refl)
]

bootstrap_well : (d : Database) → (d' : Database) × (bootstrap d [] ≡ (ok tt, d', []))
unfolding bootstrap
bootstrap_well d = elim (Bool-cases (is_there d.legacy)) [
  | inl old ↦ (insert_legacy (create_table d), rw old refl)
  | inr new ↦ (create_table d, rw new refl)
]

apply_all_well : (ms : List Migration) (d : Database) → (apply_all ms d []).0 ≡ ok tt
unfolding apply_all
apply_all_well [] d = refl
apply_all_well (m ∷ ms) d =
    let (b, d', e) = apply_well m d in rw (apply_all, e) (apply_all_well ms d')

-- Migrations that load end well where no call fails; and where they end well, whatever the calls, none
-- is pending after them.
pub migrate-pending_migrations :
    (files : List File) (ms : List Migration) (d : Database)
    → load_migrations files ≡ some ms
    → IsOrdered d
    → ((migrate files d []).0 ≡ ok tt)
      × ((f : List Bool)
          → (migrate files d f).0 ≡ ok tt
          → pending_migrations ms (migrate files d f).1 ≡ [])
unfolding migrate load_migrations
migrate-pending_migrations files ms d e o =
    (well (bootstrap_well d), λ f h. nothing f (migrate-Migrated files ms d f e o) h)
  where
    well : ((d' : Database) × (bootstrap d [] ≡ (ok tt, d', []))) → (migrate files d []).0 ≡ ok tt
    well (d', b) = rw (migrate, e, b) (apply_all_well ms d')

    nothing :
        (f : List Bool)
        → Migrated ms (migrate files d f).0 (migrate files d f).1
        → (migrate files d f).0 ≡ ok tt
        → pending_migrations ms (migrate files d f).1 ≡ []
    nothing f q h =
        let (_, upto, there) = subst (λ r. Migrated ms r (migrate files d f).1) h q in
        none_pending 1 ms (migrate files d f).1 (load_from-Numbered 1 files ms e) (omega arith)
          there upto
