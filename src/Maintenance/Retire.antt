-- ===== src/Maintenance/Retire.antt =====
-- internal/maintenance/retention.go, RetireExpired, and cmd/reconciler/main.go, which hands it its
-- archiver: partitions past retention are detached, archived and dropped.
pub mod Laws
use idemio.Prelude.{
  ℕ, ◌+◌, String, Bool, true, false, not, ◌&&◌, ◌||◌, Option, none, some, List, [], ◌∷◌, ◌++◌, ◌==◌,
  ltb, ℤ, pos, ◌+ℤ◌, leb_int, select_where, any, if◌then◌else◌,
}

-- Retention, less the two fields that ExpireKeys takes
pub record Retention : Type 0 where
  pub intents : ℤ
  pub conflicts : ℤ
  pub audit : ℤ

-- Retention.window
unfoldable pub window_of : Retention → String → ℤ
window_of r table =
    if table == "write_intents"
    then r.intents
    else if table == "conflicts"
    then r.conflicts
    else r.audit

-- a partition with its upper bound
pub record Partition : Type 0 where
  pub table : String
  pub name : String
  pub upper : ℕ

-- What is in the database, attached to its table or not, and the names of what is archived.
pub record Storage : Type 0 where
  pub attached : List Partition
  pub detached : List Partition
  pub archived : List String

-- A nil interface, a nil *Archive in an interface that is not nil, or an archive.
pub data Archiver : Type 0 where
  nil_interface nil_pointer archive : Archiver

abbrev pub is_nil_interface : Archiver → Bool
is_nil_interface Archiver.nil_interface = true
is_nil_interface _ = false

-- archive.New, and the conversion of its *Archive to the interface Archiver
abbrev pub archiver_of : Bool → Archiver
archiver_of has_objects = if has_objects then Archiver.archive else Archiver.nil_pointer

pub data RetireFault : Type 0 where
  list_failed detach_failed drop_failed panicked : RetireFault

pub record Retired : Type 0 where
  pub table : String
  pub partition : String
  pub is_archived : Bool

-- what a run meets: its time, and the statements and exports that fail
pub record RetireServer : Type 0 where
  pub now : ℕ
  pub list_fails : String → Bool
  pub detach_fails : String → Bool
  pub export_fails : String → Bool
  pub drop_fails : String → Bool

abbrev pub has_name : String → List Partition → Bool
has_name n ps = any (λ p. p.name == n) ps

-- the partitions of a table whose upper bound is not after the cutoff
unfoldable pub expired : RetireServer → ℤ → String → List Partition → List Partition
expired v window table ps =
    select_where (λ p. p.table == table && leb_int (pos p.upper +ℤ window) (pos v.now)) ps

unfoldable pub detach : Partition → Storage → Storage
detach p s = record s {
  attached = select_where (λ q. not (q.name == p.name)) s.attached;
  detached = s.detached ++ (p ∷ []);
}

unfoldable pub drop_partition : Partition → Storage → Storage
drop_partition p s = record s { detached = select_where (λ q. not (q.name == p.name)) s.detached }

unfoldable pub store : Partition → Storage → Storage
store p s = record s { archived = s.archived ++ (p.name ∷ []) }

-- the storage, what is reported as retired, and what ended the run
abbrev pub Run : Type 0
Run = Storage × List Retired × Option RetireFault

abbrev report : Retired → Run → Run
report r run = (run.0, r ∷ run.1, run.2)

-- the loop over the expired partitions of a table, from the archiver's call on
unfoldable pub export : Archiver → RetireServer → Partition → Storage → (Storage → Run) → Run
export Archiver.archive v p s next =
    if v.export_fails p.name
    then report (record { table = p.table; partition = p.name; is_archived = false }) (next s)
    else if v.drop_fails p.name
    then (store p s, [], some drop_failed)
    else report (record { table = p.table; partition = p.name; is_archived = true })
        (next (drop_partition p (store p s)))
export _ v p s next = (s, [], some panicked)

unfoldable pub retire_each : Archiver → RetireServer → List Partition → Storage → Run
retire_each a v [] s = (s, [], none)
retire_each a v (p ∷ ps) s =
    if is_nil_interface a
    then retire_each a v ps s
    else if v.detach_fails p.name
    then (s, [], some detach_failed)
    else export a v p (detach p s) (retire_each a v ps)

-- the next table, unless the run ended
abbrev pub continue : Option RetireFault → Storage → List Retired → (Storage → Run) → Run
continue (some fault) s retired next = (s, retired, some fault)
continue none s retired next = let rest = next s in (rest.0, retired ++ rest.1, rest.2)

-- RetireExpired over the tables
unfoldable pub retire_tables : Archiver → RetireServer → Retention → List String → Storage → Run
retire_tables a v r [] s = (s, [], none)
retire_tables a v r (table ∷ tables) s =
    let run = retire_each a v (expired v (window_of r table) table s.attached) s in
    if v.list_fails table
    then (s, [], some list_failed)
    else continue run.2 run.0 run.1 (retire_tables a v r tables)

abbrev pub tables : List String
tables = "write_intents" ∷ "conflicts" ∷ "payload_access_audit" ∷ []

unfoldable pub retire_expired : Archiver → RetireServer → Retention → Storage → Run
retire_expired a v r s = retire_tables a v r tables s

-- the part of runMaintenance that retires
unfoldable pub maintain : Archiver → RetireServer → Retention → Storage → Run
maintain a v r s = if is_nil_interface a then (s, [], none) else retire_expired a v r s
