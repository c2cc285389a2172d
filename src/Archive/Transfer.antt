-- ===== src/Archive/Transfer.antt =====
-- internal/archive/archive.go: a partition becomes an object, and an object a table of its own.
use Prim.Native.String.{◌++◌ as ◌⧺◌}
use mathlib.Core.Option
use idemio.Prelude.{
  ℕ, suc, String, Bool, not, ◌||◌, Option, none, some, List, [], ◌∷◌, ◌++◌, map, ◌==◌, length,
  Except, ok, err, or_fail, ◌>>=◌, if◌then◌else◌,
}
use idemio.Archive.Storage.{
  ArchiveFault, ArchiveServer, Codec, Database, Objects, Rows, audits, change_table, close_failed,
  conflicts, create_failed, find_entry, get, insert_failed, intents, is_table, no_schema,
  not_configured, others, parquet_unread, put, read_failed, write_failed,
}
use idemio.Archive.{
  IntentColumns, ConflictColumns, AuditColumns, IntentRecord, ConflictRecord, AuditRecord,
  to_intent_record, to_conflict_record, to_audit_record, intent_values, conflict_values,
  audit_values,
}

-- the statement of a scan fails on a table without its columns
abbrev pub intents_of : Option Rows → Option (List IntentColumns)
intents_of (some (intents rows)) = some rows
intents_of _ = none

abbrev pub conflicts_of : Option Rows → Option (List ConflictColumns)
conflicts_of (some (conflicts rows)) = some rows
conflicts_of _ = none

abbrev pub audits_of : Option Rows → Option (List AuditColumns)
audits_of (some (audits rows)) = some rows
audits_of _ = none

unfoldable pub scan :
    {A B : Type 0}
    → ArchiveServer
    → (Option Rows → Option (List A))
    → (A → B)
    → String
    → Database
    → Except ArchiveFault (List B)
scan v rows_of to_record partition db =
    if v.read_fails
    then err read_failed
    else or_fail (Option.map (map to_record) (rows_of (find_entry partition db))) read_failed

-- scanIntents
unfoldable pub scan_intents :
    ArchiveServer → String → Database → Except ArchiveFault (List IntentRecord)
unfolding scan
scan_intents v partition db = scan v intents_of to_intent_record partition db

-- scanConflicts
unfoldable pub scan_conflicts :
    ArchiveServer → String → Database → Except ArchiveFault (List ConflictRecord)
unfolding scan
scan_conflicts v partition db = scan v conflicts_of to_conflict_record partition db

-- scanAudit
unfoldable pub scan_audit :
    ArchiveServer → String → Database → Except ArchiveFault (List AuditRecord)
unfolding scan
scan_audit v partition db = scan v audits_of to_audit_record partition db

-- the writer of exportRows: nothing is written of no rows
unfoldable pub encode_rows : {R : Type 0} → Codec R → List R → Except ArchiveFault String
encode_rows codec [] = or_fail (codec.close []) close_failed
encode_rows codec (r ∷ rs) =
    if codec.write_fails (r ∷ rs)
    then err write_failed
    else or_fail (codec.close (r ∷ rs)) close_failed

-- export, with exportRows
unfoldable pub export : ArchiveServer → String → String → Database → Except ArchiveFault String
export v table partition db =
    if table == "write_intents"
    then (do rows ← scan_intents v partition db; encode_rows v.intent_codec rows)
    else if table == "conflicts"
    then (do rows ← scan_conflicts v partition db; encode_rows v.conflict_codec rows)
    else if table == "payload_access_audit"
    then (do rows ← scan_audit v partition db; encode_rows v.audit_codec rows)
    else err (no_schema table)

unfoldable pub object_name : String → String → String
object_name table partition = table ⧺ ("/" ⧺ (partition ⧺ ".parquet"))

abbrev pub upload :
    ArchiveServer
    → String
    → Objects
    → Except ArchiveFault String
    → Objects × Except ArchiveFault (Unit {0})
upload v name objects (err fault) = (objects, err fault)
upload v name objects (ok body) = put v name body objects

-- Archive
unfoldable pub archive :
    ArchiveServer → String → String → Database → Objects → Objects × Except ArchiveFault (Unit {0})
archive v table partition db objects =
    upload v (object_name table partition) objects (export v table partition db)

-- the rows of a new table with the columns of another
unfoldable pub empty_like : String → Rows
empty_like table =
    if table == "write_intents"
    then intents []
    else if table == "conflicts"
    then conflicts []
    else if table == "payload_access_audit"
    then audits []
    else others

abbrev pub add_intent : IntentColumns → Rows → Rows
add_intent c (intents rows) = intents (rows ++ c ∷ [])
add_intent c rows = rows

abbrev pub add_conflict : ConflictColumns → Rows → Rows
add_conflict c (conflicts rows) = conflicts (rows ++ c ∷ [])
add_conflict c rows = rows

abbrev pub add_audit : AuditColumns → Rows → Rows
add_audit c (audits rows) = audits (rows ++ c ∷ [])
add_audit c rows = rows

-- the loop of restoreRows: each row is a statement, and those before a failure stay
unfoldable pub insert_each :
    {A B : Type 0}
    → ArchiveServer
    → (A → Rows → Rows)
    → (B → A)
    → String
    → ℕ
    → List B
    → Database
    → Database × Except ArchiveFault (Unit {0})
insert_each v add values into n [] db = (db, ok tt)
insert_each v add values into n (r ∷ rs) db =
    let rest = insert_each v add values into (suc n) rs (change_table into (add (values r)) db) in
    if v.insert_fails n then (db, err insert_failed) else rest

abbrev pub counted :
    ℕ → Database × Except ArchiveFault (Unit {0}) → Database × Except ArchiveFault ℕ
counted n (db, err fault) = (db, err fault)
counted n (db, ok _) = (db, ok n)

-- restoreRows, once the body is read
unfoldable pub restore_rows :
    {A B : Type 0}
    → ArchiveServer
    → (A → Rows → Rows)
    → (B → A)
    → String
    → Option (List B)
    → Database
    → Database × Except ArchiveFault ℕ
restore_rows v add values into none db = (db, err parquet_unread)
restore_rows v add values into (some rows) db =
    counted (length rows) (insert_each v add values into 0 rows db)

-- Restore from the new table on
unfoldable pub fill :
    ArchiveServer → String → String → String → Database → Database × Except ArchiveFault ℕ
fill v table into body db =
    if table == "write_intents"
    then restore_rows v add_intent (intent_values v.casts) into (v.intent_codec.read body) db
    else if table == "conflicts"
    then restore_rows v add_conflict (conflict_values v.casts) into (v.conflict_codec.read body) db
    else if table == "payload_access_audit"
    then restore_rows v add_audit (audit_values v.casts) into (v.audit_codec.read body) db
    else (db, err (no_schema table))

abbrev pub restore_body :
    ArchiveServer
    → String
    → String
    → Database
    → Except ArchiveFault String
    → Database × Except ArchiveFault ℕ
restore_body v table into db (err fault) = (db, err fault)
restore_body v table into db (ok body) =
    if v.create_fails || is_table into db
    then (db, err create_failed)
    else fill v table into body ((into, empty_like table) ∷ db)

-- Restore
unfoldable pub restore :
    ArchiveServer → String → String → String → Objects → Database → Database × Except ArchiveFault ℕ
restore v table partition into objects db =
    restore_body v table into db (get v (object_name table partition) objects)

abbrev pub default_into : String → String → String
default_into partition into = if into == "" then partition ⧺ "_restored" else into

-- restore of cmd/reconciler, which has an archive if object storage is configured
unfoldable pub restore_command :
    Bool
    → ArchiveServer
    → String
    → String
    → String
    → Objects
    → Database
    → Database × Except ArchiveFault ℕ
restore_command configured v table partition into objects db =
    if not configured
    then (db, err not_configured)
    else restore v table partition (default_into partition into) objects db
