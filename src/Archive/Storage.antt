-- ===== src/Archive/Storage.antt =====
-- What internal/archive reads and writes: tables of rows, and the bucket of internal/objectstore.
-- Parquet, the object store and the database's failures are parameters.
use idemio.Prelude.{
  ℕ, String, Bool, Option, none, some, List, [], ◌∷◌, ◌==◌, any, Except, ok, err, or_fail,
  if◌then◌else◌,
}
use idemio.Archive.{
  IntentColumns, ConflictColumns, AuditColumns, IntentRecord, ConflictRecord, AuditRecord, Casts,
}

-- The rows of a table, by the columns that it has.
pub data Rows : Type 0 where
  intents : List IntentColumns → Rows
  conflicts : List ConflictColumns → Rows
  audits : List AuditColumns → Rows
  others : Rows

-- the tables of the database by name, partitions and restored ones
abbrev pub Database : Type 0
Database = List (String × Rows)

-- the objects of the bucket by name
abbrev pub Objects : Type 0
Objects = List (String × String)

pub data ArchiveFault : Type 0 where
  no_schema : String → ArchiveFault
  read_failed write_failed close_failed upload_failed : ArchiveFault
  fetch_failed create_failed parquet_unread insert_failed not_configured : ArchiveFault

-- parquet.GenericWriter and parquet.Read at one record type
pub record Codec (Row : Type 0) : Type 0 where
  pub write_fails : List Row → Bool
  pub close : List Row → Option String
  pub read : String → Option (List Row)

-- what one call meets
pub record ArchiveServer : Type 0 where
  pub intent_codec : Codec IntentRecord
  pub conflict_codec : Codec ConflictRecord
  pub audit_codec : Codec AuditRecord
  pub casts : Casts
  pub read_fails : Bool
  pub put_fails : Bool
  pub get_fails : Bool
  pub create_fails : Bool
  pub insert_fails : ℕ → Bool

unfoldable pub find_entry {ℓ} : {A : Type ℓ} → String → List (String × A) → Option A
find_entry n [] = none
find_entry n ((name, x) ∷ rest) = if name == n then some x else find_entry n rest

unfoldable pub change_table : String → (Rows → Rows) → Database → Database
change_table n f [] = []
change_table n f ((name, rows) ∷ rest) =
    if name == n then (name, f rows) ∷ rest else (name, rows) ∷ change_table n f rest

abbrev pub is_table : String → Database → Bool
is_table n db = any (λ (t : String × Rows). t.0 == n) db

-- Client.Put
unfoldable pub put :
    ArchiveServer → String → String → Objects → Objects × Except ArchiveFault (Unit {0})
put v name body objects =
    if v.put_fails then (objects, err upload_failed) else ((name, body) ∷ objects, ok tt)

-- Client.Get
unfoldable pub get : ArchiveServer → String → Objects → Except ArchiveFault String
get v name objects =
    if v.get_fails then err fetch_failed else or_fail (find_entry name objects) fetch_failed
