-- ===== src/Startup.antt =====
-- internal/store/verify.go and internal/objectstore: what a process checks of the database and the
-- bucket before it serves.
pub mod Activation
pub mod Server
pub mod Ready
pub mod Headroom
pub mod Watching
pub mod Commands
pub mod Drain
use idemio.Prelude.{
  ℕ, ◌-◌, ◌+◌, String, Bool, true, false, not, ◌&&◌, Option, none, some, List, [], ◌∷◌, ◌==◌, leb,
  ℤ, pos, negsuc, ltb_int, select_where, Except, ok, err, or_fail, ◌>>=◌, if◌then◌else◌,
}
use idemio.Config.{Config, ConfigProblem}
use idemio.Maintenance.Partitions.{Range, max_upper}
use idemio.Manifest.Load.{LoadFailure}
use idemio.Migrate.{MigrateFault}

pub data StartFault : Type 0 where
  config_refused : List ConfigProblem → StartFault
  manifest_refused : LoadFailure → StartFault
  not_connected : StartFault
  migration_failed : MigrateFault → StartFault
  constraint_unread bounds_unread storage_failed not_bound no_brokers : StartFault
  wrong_constraint short_headroom : String → StartFault

abbrev pub expected_key_constraint : String
expected_key_constraint = "agent_id,idempotency_key"

-- VerifyUniqueConstraint, of what its query reads
unfoldable pub verify_unique_constraint : Option String → Except StartFault (Unit {0})
verify_unique_constraint columns = do
  found ← or_fail columns constraint_unread
  if not (found == expected_key_constraint) then err (wrong_constraint found) else ok tt

-- what the checks meet: the time, and the queries that fail
pub record VerifyServer : Type 0 where
  pub now : ℕ
  pub bounds_fail : String → Bool

-- latestPartitionBound; without a partition it is NULL, which does not scan
unfoldable pub latest_bound : String → List Range → Option ℕ
latest_bound table rs = elim (select_where (λ (r : Range). r.table == table) rs) [
  | [] ↦ none
  | r ∷ more ↦ some (max_upper r.upper more)
]

-- time.Until, which saturates far above the minimum that is asked for
abbrev pub until : ℕ → ℕ → ℤ
until t now = if leb now t then pos (t - now) else negsuc (now - t - 1)

-- PartitionHeadroom
unfoldable pub partition_headroom : VerifyServer → String → List Range → Except StartFault ℤ
partition_headroom v table rs = do
  latest ←
      if v.bounds_fail table
      then err bounds_unread
      else or_fail (latest_bound table rs) bounds_unread
  ok (until latest v.now)

abbrev pub verified_tables : List String
verified_tables = "write_intents" ∷ "conflicts" ∷ "payload_access_audit" ∷ []

abbrev pub enough : ℤ → String → ℤ → Except StartFault (Unit {0}) → Except StartFault (Unit {0})
enough minimum table headroom rest =
    if ltb_int headroom minimum then err (short_headroom table) else rest

-- the loop of VerifyPartitionHeadroom
unfoldable pub verify_headroom :
    VerifyServer → ℤ → List Range → List String → Except StartFault (Unit {0})
verify_headroom v minimum rs [] = ok tt
verify_headroom v minimum rs (table ∷ tables) =
    let rest = verify_headroom v minimum rs tables in
    (do headroom ← partition_headroom v table rs; enough minimum table headroom rest)

-- VerifyPartitionHeadroom
unfoldable pub verify_partition_headroom :
    VerifyServer → ℤ → List Range → Except StartFault (Unit {0})
verify_partition_headroom v minimum rs = verify_headroom v minimum rs verified_tables

-- Options, without UseSSL
pub record Options : Type 0 where
  pub endpoint : String
  pub bucket : String
  pub access_key : String
  pub secret_key : String

-- Options.Configured
unfoldable pub is_configured : Options → Bool
is_configured o = not (o.endpoint == "") && not (o.bucket == "")

-- the bucket's server: whether a client can be made, whether the bucket exists, and is made
pub record BucketServer : Type 0 where
  pub connects : Options → Bool
  pub exists : Options → Option Bool
  pub makes : Options → Bool

abbrev pub with_bucket : Option Bool → Bool → Except StartFault Bool
with_bucket none makes = err storage_failed
with_bucket (some true) makes = ok true
with_bucket (some false) makes = if makes then ok true else err storage_failed

-- objectstore.New: whether there is a client, and its bucket
unfoldable pub new_client : BucketServer → Options → Except StartFault Bool
unfolding is_configured
new_client b o =
    if not (is_configured o)
    then ok false
    else if not (b.connects o)
    then err storage_failed
    else with_bucket (b.exists o) (b.makes o)

-- the options that every command takes from its configuration
abbrev pub options_of : Config → Options
options_of c = record {
  endpoint = c.archive_endpoint;
  bucket = c.archive_bucket;
  access_key = c.archive_access_key;
  secret_key = c.archive_secret_key;
}
