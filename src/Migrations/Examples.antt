-- ===== src/Migrations/Examples.antt =====
-- The migrations at concrete inputs.
use aura_risk.Base.{ℕ, ◌≡◌, refl, Bool, true, false, none, some, List, [], ◌∷◌, codes, ok}
use aura_risk.Migrations.{
  Migration, File, Database, load_from, load_migrations, add_legacy, insert_legacy, bootstrap,
  apply_body, rolled_back, apply, apply_all, migrate, pending_migrations, migrate_all,
}
use aura_risk.Migrations.Versions.{IsOrdered}
use aura_risk.Migrations.Applied.{migrate_all-IsOrdered, migrate-pending_migrations}

abbrev file : ℕ → File
file n = record { prefix = some n; file_name = codes "_x.sql" }

abbrev release : List File
release = file 1 ∷ file 2 ∷ file 3 ∷ []

-- A database that the old startup migration set up, at version 1.
abbrev old_database : Database
old_database = record { has_table = false; recorded = []; legacy = some 1; executed = [] }

old_database-IsOrdered : IsOrdered old_database
old_database-IsOrdered = record { closed = λ v e w h k. absurd (cc e); logged = tt; once = tt }

-- The third migration fails in the first run, and is executed in the second.
two_runs :
    (migrate_all (release ∷ release ∷ []) old_database (
      false ∷ false ∷ false ∷ false ∷ false ∷ false ∷ false ∷ false ∷ false ∷ false ∷ false ∷ false
      ∷ false ∷ false ∷ false ∷ false ∷ false ∷ false ∷ true ∷ [])).executed
    ≡ 3 ∷ 2 ∷ []
unfolding migrate_all migrate load_migrations load_from bootstrap insert_legacy add_legacy apply_all
    apply apply_body rolled_back
two_runs = refl

gap : load_migrations (file 1 ∷ file 3 ∷ []) ≡ none
unfolding load_migrations load_from
gap = refl

runs_example :
    IsOrdered (migrate_all (release ∷ release ∷ []) old_database (false ∷ false ∷ true ∷ []))
runs_example =
    migrate_all-IsOrdered (release ∷ release ∷ []) old_database (false ∷ false ∷ true ∷ [])
      old_database-IsOrdered

abbrev migrations : List Migration
migrations =
    record { version = 1; name = codes "_x.sql" }
    ∷ record { version = 2; name = codes "_x.sql" }
    ∷ record { version = 3; name = codes "_x.sql" }
    ∷ []

pending_example :
    ((migrate release old_database []).0 ≡ ok tt)
    × ((f : List Bool)
        → (migrate release old_database f).0 ≡ ok tt
        → pending_migrations migrations (migrate release old_database f).1 ≡ [])
unfolding load_migrations load_from
pending_example =
    migrate-pending_migrations release migrations old_database refl old_database-IsOrdered
