-- ===== src/Maintenance/Partitions.antt =====
-- internal/maintenance/partitions.go: partitions are made up to a horizon. time.AddDate and the
-- formats of names are those of Go's library and the parameter `Calendar`.
pub mod Cover
use idemio.Prelude.{
  ℕ, zero, suc, ◌+◌, String, Bool, true, false, not, ◌&&◌, Option, none, some, List, [], ◌∷◌, ◌++◌,
  ◌==◌, ltb, leb, any, select_where, Except, ok, err, ◌>>=◌, if◌then◌else◌,
}
use Prim.Native.String.{◌++◌ as ◌⧺◌}

pub record Partitioned : Type 0 where
  pub name : String
  pub layout : String
  pub days : ℕ
  pub months : ℕ

abbrev pub tables : List Partitioned
tables =
    record { name = "write_intents"; layout = "20060102"; days = 7; months = 0 }
    ∷ record { name = "conflicts"; layout = "20060102"; days = 7; months = 0 }
    ∷ record { name = "payload_access_audit"; layout = "200601"; days = 0; months = 1 }
    ∷ []

-- `add_date months days from`, a time in a layout, and the start of the week
pub record Calendar : Type 0 where
  pub add_date : ℕ → ℕ → ℕ → ℕ
  pub format : String → ℕ → String
  pub week_of : ℕ → ℕ

unfoldable pub next : Calendar → Partitioned → ℕ → ℕ
next cal p from = cal.add_date p.months p.days from

unfoldable pub partition_name : Calendar → Partitioned → ℕ → String
partition_name cal p lower = p.name ⧺ ("_" ⧺ cal.format p.layout lower)

pub record Range : Type 0 where
  pub table : String
  pub name : String
  pub lower : ℕ
  pub upper : ℕ

abbrev pub max_upper : ℕ → List Range → ℕ
max_upper m [] = m
max_upper m (r ∷ rs) = max_upper (if leb m r.upper then r.upper else m) rs

-- the greatest upper bound of a table's partitions, or the start of this week
unfoldable pub upper_bound : Calendar → ℕ → String → List Range → ℕ
upper_bound cal now table rs = elim (select_where (λ r. r.table == table) rs) [
  | [] ↦ cal.week_of now
  | r ∷ more ↦ max_upper r.upper more
]

pub data PartitionFault : Type 0 where
  begin_failed lock_failed bounds_failed create_failed commit_failed out_of_fuel : PartitionFault

pub record PartitionServer : Type 0 where
  pub now : ℕ
  pub begin_fails : Bool
  pub lock_fails : Bool
  pub bounds_fail : String → Bool
  pub create_fails : String → Bool
  pub commit_fails : Bool

-- `CREATE TABLE IF NOT EXISTS`
unfoldable pub create : Calendar → Partitioned → ℕ → List Range → List Range
create cal p lower rs =
    let name = partition_name cal p lower in
    if any (λ r. r.name == name) rs
    then rs
    else rs
      ++ (record { table = p.name; name = name; lower = lower; upper = next cal p lower } ∷ [])

-- the loop of extend, from a boundary on
unfoldable pub extend_from :
    Calendar
    → PartitionServer
    → Partitioned
    → ℕ
    → ℕ
    → ℕ
    → List Range
    → Except PartitionFault (List Range)
extend_from cal v p horizon zero boundary rs =
    if ltb boundary horizon then err out_of_fuel else ok rs
extend_from cal v p horizon (suc fuel) boundary rs =
    let rest = extend_from cal v p horizon fuel (next cal p boundary) (create cal p boundary rs) in
    if not (ltb boundary horizon)
    then ok rs
    else if v.create_fails (partition_name cal p boundary)
    then err create_failed
    else rest

-- extend; every step of the loop goes forward, so the horizon is fuel enough
unfoldable pub extend :
    Calendar → PartitionServer → Partitioned → ℕ → List Range → Except PartitionFault (List Range)
extend cal v p horizon rs =
    if v.bounds_fail p.name
    then err bounds_failed
    else extend_from cal v p horizon horizon (upper_bound cal v.now p.name rs) rs

unfoldable pub extend_all :
    Calendar
    → PartitionServer
    → ℕ
    → List Partitioned
    → List Range
    → Except PartitionFault (List Range)
extend_all cal v horizon [] rs = ok rs
extend_all cal v horizon (p ∷ ps) rs = do
  extended ← extend cal v p horizon rs
  extend_all cal v horizon ps extended

abbrev pub commit_or :
    Bool → List Range → Except PartitionFault (List Range) → List Range × Option PartitionFault
commit_or fails before (err f) = (before, some f)
commit_or fails before (ok after) = if fails then (before, some commit_failed) else (after, none)

-- EnsurePartitions: what is there after it, and what failed
unfoldable pub ensure_partitions :
    Calendar → PartitionServer → ℕ → List Range → List Range × Option PartitionFault
ensure_partitions cal v ahead rs =
    if v.begin_fails
    then (rs, some begin_failed)
    else if v.lock_fails
    then (rs, some lock_failed)
    else commit_or v.commit_fails rs (extend_all cal v (v.now + ahead) tables rs)
