-- ===== src/Migrate.antt =====
-- internal/store/migrate.go: the migrations that a database has not had are applied in order. The
-- files are given in the order of their names.
pub mod Steps
pub mod Complete
pub mod Once
use idemio.Prelude.{
  String, Bool, true, false, not, Option, none, some, List, [], ◌∷◌, ◌++◌, ◌==◌, any, select_where,
  if◌then◌else◌,
}
use idemio.Tables.{CommitReply}

pub record Migration : Type 0 where
  pub version : String
  pub body : String

-- the rows of schema_migrations, and the migrations whose transactions took effect, in order
pub record Schema : Type 0 where
  pub versions : List String
  pub ran : List String

pub data MigrateFault : Type 0 where
  not_connected not_locked no_ledger no_versions unreadable begin_failed exec_failed record_failed
        commit_failed :
      MigrateFault

-- what a run meets of the database and the embedded files
pub record MigrateServer : Type 0 where
  pub acquire_fails : Bool
  pub lock_fails : Bool
  pub ledger_fails : Bool
  pub versions_fail : Bool
  pub read_fails : Migration → Bool
  pub begin_fails : Migration → Bool
  pub exec_fails : Migration → Bool
  pub record_fails : Migration → Bool
  pub commit : Migration → CommitReply

abbrev pub is_applied : List String → String → Bool
is_applied versions v = any (λ u. u == v) versions

-- the migration's own statements and its row, which commit together
abbrev pub applied : Migration → Schema → Schema
applied m s = record { versions = s.versions ++ (m.version ∷ []); ran = s.ran ++ (m.version ∷ []) }

abbrev pub commit_with : CommitReply → Migration → Schema → Schema × Option MigrateFault
commit_with CommitReply.applied m s = (applied m s, none)
commit_with CommitReply.refused m s = (s, some commit_failed)
commit_with CommitReply.lost m s = (applied m s, some commit_failed)

unfoldable pub apply : MigrateServer → Migration → Schema → Schema × Option MigrateFault
apply v m s =
    if v.begin_fails m
    then (s, some begin_failed)
    else if v.exec_fails m
    then (s, some exec_failed)
    else if v.record_fails m
    then (s, some record_failed)
    else commit_with (v.commit m) m s

abbrev pub go_on :
    Schema × Option MigrateFault → Schema × Option MigrateFault → Schema × Option MigrateFault
go_on (s, some fault) rest = (s, some fault)
go_on (s, none) rest = rest

-- the loop of Migrate
unfoldable pub apply_all : MigrateServer → List Migration → Schema → Schema × Option MigrateFault
apply_all v [] s = (s, none)
apply_all v (m ∷ ms) s = go_on (apply v m s) (apply_all v ms (apply v m s).0)

-- pendingMigrations, of the files that can be read
unfoldable pub pending_migrations : List String → List Migration → List Migration
pending_migrations versions files = select_where (λ m. not (is_applied versions m.version)) files

unfoldable pub migrate : MigrateServer → List Migration → Schema → Schema × Option MigrateFault
migrate v files s =
    let pending = pending_migrations s.versions files in
    if v.acquire_fails
    then (s, some not_connected)
    else if v.lock_fails
    then (s, some not_locked)
    else if v.ledger_fails
    then (s, some no_ledger)
    else if v.versions_fail
    then (s, some no_versions)
    else if any v.read_fails pending
    then (s, some unreadable)
    else apply_all v pending s
