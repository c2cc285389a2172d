-- ===== src/Tests/Starts.antt =====
-- A server that starts, and what it finds.
use idemio.Prelude.{
  ◌≡◌, ◌*◌, refl, true, false, [], ◌∷◌, some, ok, any, select_where, count_where, List, arith,
}
use idemio.Config.{read_config, day}
use idemio.Maintenance.Partitions.{Range}
use idemio.Migrate.{migrate, pending_migrations, apply_all, apply}
use idemio.Startup.{
  VerifyServer, verify_unique_constraint, verify_partition_headroom, verify_headroom, latest_bound,
  partition_headroom, new_client, is_configured, expected_key_constraint,
}
use idemio.Startup.Activation.{Tick, Watched, watch, insert_activation}
use idemio.Startup.Headroom.{HasHeadroom, extend-HasHeadroom}
use idemio.Startup.Ready.{IsReady, run-IsReady}
use idemio.Startup.Server.{Machine, StartDb, Serving, run, prepare, check, config_or, manifests_or}
use idemio.Startup.Watching.{IsOnce, IsRecorded, watch-IsRecorded}
use idemio.Tables.{CommitReply}
use idemio.Tests.Rules.{loader, directory, snapshot, loaded}
use idemio.Tests.Settings.{environment, loads}
use idemio.Tests.Upkeep.{calendar, partition_server, weekly, steps}

abbrev verify_server : VerifyServer
verify_server = record { now = 5; bounds_fail = λ t. false }

extend-HasHeadroom_example : HasHeadroom calendar partition_server weekly verify_server 20 30 []
unfolding any
extend-HasHeadroom_example =
    extend-HasHeadroom calendar partition_server weekly verify_server 20 30 [] steps (λ t h. refl)
      refl refl (omega arith) (omega arith)

abbrev recorded_start : Watched
recorded_start = record {
  current = snapshot;
  activations = insert_activation "host/1" snapshot [];
  failures = 0;
}

start-IsRecorded : IsRecorded "host/1" recorded_start
unfolding insert_activation any count_where
start-IsRecorded = (λ a b. ground arith, refl)

abbrev two_ticks : List Tick
two_ticks =
    record { files = []; record_fails = false }
    ∷ record { files = directory; record_fails = false }
    ∷ []

watch-IsRecorded_example :
    IsOnce (watch loader "host/1" two_ticks recorded_start).activations
    × (any (λ (t : Tick). t.record_fails) two_ticks ≡ false
        → IsRecorded "host/1" (watch loader "host/1" two_ticks recorded_start))
watch-IsRecorded_example =
    watch-IsRecorded "host/1" loader two_ticks recorded_start start-IsRecorded

abbrev weekly_until : List Range
weekly_until =
    record { table = "write_intents"; name = "w"; lower = 0; upper = 30 * day }
    ∷ record { table = "conflicts"; name = "c"; lower = 0; upper = 15 * day }
    ∷ record { table = "payload_access_audit"; name = "p"; lower = 0; upper = 40 * day }
    ∷ []

abbrev machine : Machine
machine = record {
  env = environment;
  loader = loader;
  files = λ d. directory;
  connects = λ u. true;
  migrations = record { version = "0001"; body = "" } ∷ [];
  migrate_server = record {
    acquire_fails = false;
    lock_fails = false;
    ledger_fails = false;
    versions_fail = false;
    read_fails = λ m. false;
    begin_fails = λ m. false;
    exec_fails = λ m. false;
    record_fails = λ m. false;
    commit = λ m. CommitReply.applied;
  };
  constraint = λ s. some expected_key_constraint;
  verify_server = record { now = 10; bounds_fail = λ t. false };
  ranges = λ s. weekly_until;
  bucket = record { connects = λ o. true; exists = λ o. some true; makes = λ o. true };
  who = "host/1";
  record_fails = false;
  binds = λ a. true;
}

abbrev blank_db : StartDb
blank_db = record { schema = (record { versions = []; ran = [] }); activations = [] }

abbrev serving : Serving
serving = record { config = read_config environment; manifests = snapshot; has_objects = false }

listens : (run machine blank_db).1 ≡ ok serving
unfolding run prepare config_or manifests_or migrate pending_migrations apply_all apply select_where
    any check verify_unique_constraint verify_partition_headroom verify_headroom partition_headroom
    latest_bound new_client is_configured read_config
listens = rw (loads, loaded) refl

run-IsReady_example : IsReady machine (run machine blank_db).0 serving
run-IsReady_example = run-IsReady machine blank_db serving listens
