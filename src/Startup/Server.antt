-- ===== src/Startup/Server.antt =====
-- cmd/idemio/main.go: the order in which a server starts, and how it drains.
use idemio.Prelude.{
  ◌*◌, String, Bool, Option, none, some, List, ℤ, pos, Except, ok, err, ◌>>=◌, if◌then◌else◌,
}
use idemio.Config.{Config, Env, ConfigProblem, add_64, second, day}
use idemio.Config
use idemio.Maintenance.Partitions.{Range}
use idemio.Manifest.Load.{Snapshot, File, Loader, LoadFailure}
use idemio.Manifest.Load
use idemio.Migrate.{Migration, MigrateServer, MigrateFault, Schema, migrate}
use idemio.Startup.{
  StartFault, config_refused, manifest_refused, not_connected, migration_failed, not_bound,
  VerifyServer, BucketServer, verify_unique_constraint, verify_partition_headroom, new_client,
  options_of,
}
use idemio.Startup.Activation.{Activation, record_activation}

-- What a start meets: its environment, the manifest files of a directory, the database, the bucket
-- and the network. The constraint and the partitions are those of the migrated schema.
pub record Machine : Type 0 where
  pub env : Env
  pub loader : Loader
  pub files : String → List File
  pub connects : String → Bool
  pub migrations : List Migration
  pub migrate_server : MigrateServer
  pub constraint : Schema → Option String
  pub verify_server : VerifyServer
  pub ranges : Schema → List Range
  pub bucket : BucketServer
  pub who : String
  pub record_fails : Bool
  pub binds : String → Bool

-- the tables that a start may change
pub record StartDb : Type 0 where
  pub schema : Schema
  pub activations : List Activation

-- a server that listens
pub record Serving : Type 0 where
  pub config : Config
  pub manifests : Snapshot
  pub has_objects : Bool

abbrev pub min_partition_headroom : ℤ
min_partition_headroom = pos (14 * day)

abbrev pub drain_margin : ℤ
drain_margin = pos (2 * second)

unfoldable pub config_or : Except (List ConfigProblem) Config → Except StartFault Config
config_or (err problems) = err (config_refused problems)
config_or (ok c) = ok c

unfoldable pub manifests_or : Except LoadFailure Snapshot → Except StartFault Snapshot
manifests_or (err failure) = err (manifest_refused failure)
manifests_or (ok s) = ok s

-- the configuration and the manifests of run, which need no database
unfoldable pub prepare : Machine → Except StartFault (Config × Snapshot)
prepare m = do
  c ← config_or (Config.load m.env)
  s ← manifests_or (Load.load m.loader (m.files c.manifest_dir))
  if m.connects c.database_url then ok (c, s) else err not_connected

-- the checks of run on the migrated database, and the bucket
unfoldable pub check : Machine → Config → Schema → Except StartFault Bool
check m c schema = do
  _ ← verify_unique_constraint (m.constraint schema)
  _ ← verify_partition_headroom m.verify_server min_partition_headroom (m.ranges schema)
  new_client m.bucket (options_of c)

-- run from the activation of the manifest on
abbrev pub listen :
    Machine
    → Config
    → Snapshot
    → StartDb
    → Except StartFault Bool
    → StartDb × Except StartFault Serving
listen m c s db (err fault) = (db, err fault)
listen m c s db (ok has_objects) = (
  record db { activations = record_activation m.record_fails m.who s db.activations },
  if m.binds c.listen_addr
      then ok (record { config = c; manifests = s; has_objects = has_objects })
      else err not_bound,
)

abbrev pub migrated :
    Machine
    → Config
    → Snapshot
    → StartDb
    → Schema × Option MigrateFault
    → StartDb × Except StartFault Serving
migrated m c s db (schema, some fault) =
    (record db { schema = schema }, err (migration_failed fault))
migrated m c s db (schema, none) = listen m c s (record db { schema = schema }) (check m c schema)

abbrev pub prepared :
    Machine → StartDb → Except StartFault (Config × Snapshot) → StartDb × Except StartFault Serving
prepared m db (err fault) = (db, err fault)
prepared m db (ok (c, s)) = migrated m c s db (migrate m.migrate_server m.migrations db.schema)

-- run, up to serveUntilSignal
unfoldable pub run : Machine → StartDb → StartDb × Except StartFault Serving
run m db = prepared m db (prepare m)

-- the time that serveUntilSignal gives to requests in flight
unfoldable pub grace : Config → ℤ
grace c = add_64 (add_64 c.downstream_connect_timeout c.downstream_timeout) drain_margin
