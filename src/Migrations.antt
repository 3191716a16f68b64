-- ===== src/Migrations.antt =====
-- aurarisk-backend/internal/database/database.go: the migrations. A file is its version, its name and
-- whether its name starts with a number; the database is what it records, and a log of the files that
-- were executed. A failing call, the commit's included, is a decision of the environment, as in
-- Base.Runs, and a transaction that does not commit leaves no trace.
pub mod Versions
pub mod Applied
mod Examples
use aura_risk.Base.{
  ℕ, zero, suc, ◌+◌, ◌≤◌, ◌<◌, ◌≡◌, max, Bool, true, false, not, ◌&&◌, ◌||◌, Option, none, some,
  List, [], ◌∷◌, ◌++◌, map, ltb, leb, ◌==◌, if◌then◌else◌, length, Text, exists, select, Flow, Run,
  Result, ok, err, return, respond_error, query, exec, transaction, settle, failing, later,
  internal_error, ◌>>=◌, ◌>>◌, chain,
}

pub record Migration : Type 0 where
  pub version : ℕ
  pub name : Text

-- A file of migrations.FS, in the order of names: the number before its first underscore, if that is
-- one.
pub record File : Type 0 where
  pub prefix : Option ℕ
  pub file_name : Text

-- Whether schema_migrations and schema_version are there, and their versions; the largest of the
-- latter is all that is read of it.
pub record Database : Type 0 where
  pub has_table : Bool
  pub recorded : List ℕ
  pub legacy : Option ℕ
  pub executed : List ℕ

-- loadMigrations, from the files in order: none is its error.
unfoldable pub load_from : ℕ → List File → Option (List Migration)
load_from n [] = some []
load_from n (f ∷ fs) = elim f.prefix [
  | none ↦ none
  | some v ↦
      if v == n
      then elim (load_from (suc n) fs) [
        | none ↦ none
        | some ms ↦ some (record { version = v; name = f.file_name } ∷ ms)
      ]
      else none
]

unfoldable pub load_migrations : List File → Option (List Migration)
load_migrations files = load_from 1 files

abbrev pub is_recorded : ℕ → List ℕ → Bool
is_recorded v = exists (λ w. w == v)

-- INSERT ... SELECT FROM generate_series(1, n) ... ON CONFLICT (version) DO NOTHING
unfoldable pub add_legacy : ℕ → List ℕ → List ℕ
add_legacy zero vs = vs
add_legacy (suc n) vs =
    let rest = add_legacy n vs in if is_recorded (suc n) rest then rest else suc n ∷ rest

abbrev pub create_table : Database → Database
create_table d = record d { has_table = true }

abbrev pub mark_legacy : Option ℕ → List ℕ → List ℕ
mark_legacy none vs = vs
mark_legacy (some n) vs = add_legacy n vs

unfoldable pub insert_legacy : Database → Database
insert_legacy d = record d { recorded = mark_legacy d.legacy d.recorded }

abbrev pub is_there : Option ℕ → Bool
is_there none = false
is_there (some n) = true

-- bootstrap, where the lock is the first statement
unfoldable pub bootstrap : Flow Database (Unit {0})
bootstrap = transaction (
    exec (λ d. d)
    >> (exec create_table
        >> (query (λ d. is_there d.legacy) >>= λ has_legacy.
            if has_legacy then exec insert_legacy else return tt)))

abbrev pub run_sql : ℕ → Database → Database
run_sql v d = record d { executed = v ∷ d.executed }

abbrev pub record_version : ℕ → Database → Database
record_version v d = record d { recorded = v ∷ d.recorded }

unfoldable pub apply_body : Migration → Flow Database Bool
apply_body m =
    exec (λ d. d)
    >> (query (λ d. is_recorded m.version d.recorded) >>= λ done.
        if done
        then return false
        else exec (run_sql m.version) >> (exec (record_version m.version) >> return true))

-- The deferred rollback of a migration that is done already, or the end of the transaction.
unfoldable pub rolled_back : Database → Run Database Bool → Run Database Bool
rolled_back before (ok true, d, f) = settle before (ok true, d, f)
rolled_back before (ok false, d, f) = (ok false, before, f)
rolled_back before (err s m, d, f) = (err s m, before, f)

unfoldable pub apply : Migration → Flow Database Bool
apply m d f =
    if failing f then (internal_error, d, later f) else rolled_back d (apply_body m d (later f))

unfoldable pub apply_all : List Migration → Flow Database (Unit {0})
apply_all [] = return tt
apply_all (m ∷ ms) = apply m >>= λ applied. apply_all ms

-- Migrate
unfoldable pub migrate : List File → Flow Database (Unit {0})
migrate files = elim (load_migrations files) [
  | none ↦ respond_error 500 "migration names"
  | some ms ↦ bootstrap >> apply_all ms
]

-- PendingMigrations, by version
abbrev pub legacy_versions : Option ℕ → List ℕ
legacy_versions none = []
legacy_versions (some n) = add_legacy n []

unfoldable pub applied_versions : Database → List ℕ
applied_versions d =
    if d.has_table then legacy_versions d.legacy ++ d.recorded else legacy_versions d.legacy

unfoldable pub pending_migrations : List Migration → Database → List Migration
pending_migrations ms d = select (λ m. not (is_recorded m.version (applied_versions d))) ms

-- Runs of Migrate, one after another, whatever their results, as deployments make them.
unfoldable pub migrate_all : List (List File) → Database → List Bool → Database
migrate_all [] d f = d
migrate_all (files ∷ rest) d f = let (r, d', f') = migrate files d f in migrate_all rest d' f'
