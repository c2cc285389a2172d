-- ===== src/Startup/Commands.antt =====
-- cmd/reconciler/main.go and cmd/relay/main.go: how the two other processes start.
use idemio.Prelude.{ℕ, String, Bool, not, ◌==◌, Except, ok, err, ◌>>=◌, if◌then◌else◌}
use idemio.Archive.Storage.{Database, Objects, ArchiveServer, ArchiveFault}
use idemio.Archive.Transfer.{restore_command}
use idemio.Config.{Config}
use idemio.Config
use idemio.Manifest.Load.{Snapshot}
use idemio.Migrate.{Schema}
use idemio.Startup.{
  StartFault, not_connected, no_brokers, verify_unique_constraint, new_client, options_of,
}
use idemio.Startup.Server.{Machine, prepare, config_or}

-- the flags of cmd/reconciler
pub record Flags : Type 0 where
  pub restore_partition : String
  pub restore_table : String
  pub restore_into : String

-- a reconciler that restores a partition and exits, or one that sweeps
pub data Reconciler : Type 0 where
  restores : Bool → Reconciler
  sweeps : Config → Snapshot → Bool → Reconciler

abbrev pub reconciler_of : Flags → Config → Snapshot → Bool → Reconciler
reconciler_of f c s has_objects =
    if not (f.restore_partition == "") then restores has_objects else sweeps c s has_objects

-- run of cmd/reconciler, which migrates nothing
unfoldable pub start_reconciler : Machine → Flags → Schema → Except StartFault Reconciler
start_reconciler m f schema = do
  (c, s) ← prepare m
  _ ← verify_unique_constraint (m.constraint schema)
  has_objects ← new_client m.bucket (options_of c)
  ok (reconciler_of f c s has_objects)

-- what comes of the database in a reconciler that restores
unfoldable pub run_restore :
    ArchiveServer → Flags → Objects → Database → Bool → Database × Except ArchiveFault ℕ
run_restore v f objects db has_objects =
    restore_command has_objects v f.restore_table f.restore_partition f.restore_into objects db

-- run of cmd/relay
unfoldable pub start_relay : Machine → Except StartFault Config
start_relay m = do
  c ← config_or (Config.load m.env)
  if c.kafka_brokers == ""
      then err no_brokers
      else if m.connects c.database_url
      then ok c
      else err not_connected
