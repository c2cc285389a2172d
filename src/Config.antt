-- ===== src/Config.antt =====
-- internal/config/config.go: the settings that a process reads from its environment, and their
-- validation. time.ParseDuration and strconv.ParseInt are parameters, a duration is an int64 of
-- nanoseconds, and a message is a constructor of `ConfigProblem`.
pub mod Timing
use idemio.Prelude.{
  ℕ, zero, suc, ◌+◌, ◌*◌, String, Bool, not, Option, none, some, List, [], ◌∷◌, ◌++◌, ◌==◌, ℤ, pos,
  ◌+ℤ◌, leb_int, ltb_int, wrap_64, scale, Except, ok, err, if◌then◌else◌,
}
use idemio.Api.Identity.{trim_space}

abbrev pub auth_mode_trusted_header : String
auth_mode_trusted_header = "trusted_header"

pub record Config : Type 0 where
  pub database_url : String
  pub listen_addr : String
  pub metrics_addr : String
  pub auth_mode : String
  pub claim_pending_wait : ℤ
  pub manifest_dir : String
  pub manifest_reload_interval : ℤ
  pub conflict_lock_timeout : ℤ
  pub read_max_span : ℤ
  pub reconcile_stale_after : ℤ
  pub reconcile_interval : ℤ
  pub downstream_base_url : String
  pub downstream_connect_timeout : ℤ
  pub downstream_timeout : ℤ
  pub payload_bytes : ℤ
  pub result_inline_bytes : ℤ
  pub outcome_write_attempts : ℤ
  pub partition_ahead : ℤ
  pub retention_keys : ℤ
  pub retention_intents : ℤ
  pub retention_conflicts : ℤ
  pub retention_audit : ℤ
  pub retention_rows_per_sec : ℤ
  pub kafka_brokers : String
  pub kafka_topic : String
  pub relay_interval : ℤ
  pub relay_batch : ℤ
  pub archive_endpoint : String
  pub archive_bucket : String
  pub archive_access_key : String
  pub archive_secret_key : String

pub data ConfigProblem : Type 0 where
  not_integer not_duration : String → ConfigProblem
  database_url_required downstream_base_url_required auth_mode_unset : ConfigProblem
  stale_after_below_budget stale_after_below_interval pending_wait_above_timeout : ConfigProblem
  no_write_attempts no_payload_bytes manifest_dir_required no_lock_timeout no_read_span :
      ConfigProblem
  partition_ahead_too_short no_retention_rate : ConfigProblem

-- the environment (empty where a variable is not set) and the parsers of Go's library
pub record Env : Type 0 where
  pub getenv : String → String
  pub parse_int : String → Option ℤ
  pub parse_duration : String → Option ℤ

abbrev pub millisecond : ℕ
millisecond = 1000000

abbrev pub second : ℕ
second = 1000000000

abbrev pub day : ℕ
day = 86400000000000

unfoldable pub with_default : Env → String → String → String
with_default env key fallback =
    let value = trim_space (env.getenv key) in if value == "" then fallback else value

-- a value, and the problems that reading it added
abbrev pub Read : Type 0
Read = ℤ × List ConfigProblem

abbrev pub parsed_or : Option ℤ → ℤ → ConfigProblem → Read
parsed_or none fallback p = (fallback, p ∷ [])
parsed_or (some n) fallback p = (n, [])

unfoldable pub integer : Env → String → ℤ → Read
integer env key fallback =
    let raw = trim_space (env.getenv key) in
    if raw == "" then (fallback, []) else parsed_or (env.parse_int raw) fallback (not_integer key)

unfoldable pub duration : Env → String → ℤ → Read
duration env key fallback_ms =
    let read = integer env key fallback_ms in (wrap_64 (scale read.0 millisecond), read.1)

unfoldable pub go_duration : Env → String → ℤ → Read
go_duration env key fallback =
    let raw = trim_space (env.getenv key) in
    if raw == ""
    then (fallback, [])
    else parsed_or (env.parse_duration raw) fallback (not_duration key)

-- the sum of two durations
abbrev pub add_64 : ℤ → ℤ → ℤ
add_64 a b = wrap_64 (a +ℤ b)

unfoldable pub serialize_wait : Config → ℤ
serialize_wait c = add_64 c.downstream_connect_timeout c.downstream_timeout

abbrev pub fail_if : Bool → ConfigProblem → List ConfigProblem
fail_if b p = if b then p ∷ [] else []

unfoldable pub validate : Config → List ConfigProblem
validate c =
    let call_budget = add_64 c.downstream_connect_timeout c.downstream_timeout in
    fail_if (c.database_url == "") database_url_required
    ++ (fail_if (c.downstream_base_url == "") downstream_base_url_required
        ++ (fail_if (not (c.auth_mode == auth_mode_trusted_header)) auth_mode_unset
            ++ (fail_if (ltb_int c.reconcile_stale_after (wrap_64 (scale call_budget 3)))
                  stale_after_below_budget
                ++ (fail_if
                      (leb_int c.reconcile_stale_after (wrap_64 (scale c.reconcile_interval 2)))
                      stale_after_below_interval
                    ++ (fail_if (leb_int c.downstream_timeout c.claim_pending_wait)
                          pending_wait_above_timeout
                        ++ (fail_if (ltb_int c.outcome_write_attempts (pos 1)) no_write_attempts
                            ++ (fail_if (ltb_int c.payload_bytes (pos 1)) no_payload_bytes
                                ++ (fail_if (c.manifest_dir == "") manifest_dir_required
                                    ++ (fail_if (leb_int c.conflict_lock_timeout (pos 0))
                                          no_lock_timeout
                                        ++ (fail_if (leb_int c.read_max_span (pos 0)) no_read_span
                                            ++ (fail_if (ltb_int c.partition_ahead (pos (28 * day)))
                                                  partition_ahead_too_short
                                                ++ fail_if
                                                    (ltb_int c.retention_rows_per_sec (pos 1))
                                                    no_retention_rate)))))))))))

-- the struct literal of Load
unfoldable pub read_config : Env → Config
read_config env = record {
  database_url = env.getenv "IDEMIO_DATABASE_URL";
  listen_addr = with_default env "IDEMIO_LISTEN_ADDR" "127.0.0.1:8080";
  metrics_addr = with_default env "IDEMIO_METRICS_ADDR" "127.0.0.1:9090";
  auth_mode = with_default env "IDEMIO_AUTH_MODE" "";
  claim_pending_wait = (duration env "IDEMIO_CLAIM_PENDING_WAIT_MS" (pos 0)).0;
  manifest_dir = env.getenv "IDEMIO_MANIFEST_DIR";
  manifest_reload_interval =
      (go_duration env "IDEMIO_MANIFEST_RELOAD_INTERVAL" (pos (30 * second))).0;
  conflict_lock_timeout = (duration env "IDEMIO_CONFLICT_LOCK_TIMEOUT_MS" (pos 250)).0;
  read_max_span = (go_duration env "IDEMIO_READ_MAX_SPAN" (pos (31 * day))).0;
  reconcile_stale_after = (go_duration env "IDEMIO_RECONCILE_STALE_AFTER" (pos (300 * second))).0;
  reconcile_interval = (go_duration env "IDEMIO_RECONCILE_INTERVAL" (pos (30 * second))).0;
  downstream_base_url = env.getenv "IDEMIO_DOWNSTREAM_BASE_URL";
  downstream_connect_timeout = (duration env "IDEMIO_DOWNSTREAM_CONNECT_TIMEOUT_MS" (pos 1000)).0;
  downstream_timeout = (duration env "IDEMIO_DOWNSTREAM_TIMEOUT_MS" (pos 10000)).0;
  payload_bytes = (integer env "IDEMIO_LIMITS_PAYLOAD_BYTES" (pos 262144)).0;
  result_inline_bytes = (integer env "IDEMIO_LIMITS_RESULT_INLINE_BYTES" (pos 65536)).0;
  outcome_write_attempts = (integer env "IDEMIO_OUTCOME_WRITE_ATTEMPTS" (pos 3)).0;
  partition_ahead = (go_duration env "IDEMIO_PARTITION_AHEAD" (pos (56 * day))).0;
  retention_keys = (go_duration env "IDEMIO_RETENTION_KEYS" (pos (90 * day))).0;
  retention_intents = (go_duration env "IDEMIO_RETENTION_INTENTS" (pos (90 * day))).0;
  retention_conflicts = (go_duration env "IDEMIO_RETENTION_CONFLICTS" (pos (365 * day))).0;
  retention_audit = (go_duration env "IDEMIO_RETENTION_AUDIT" (pos (365 * day))).0;
  retention_rows_per_sec = (integer env "IDEMIO_RETENTION_ROWS_PER_SEC" (pos 500)).0;
  kafka_brokers = env.getenv "IDEMIO_KAFKA_BROKERS";
  kafka_topic = with_default env "IDEMIO_KAFKA_TOPIC" "idemio.write-intents";
  relay_interval = (go_duration env "IDEMIO_RELAY_INTERVAL" (pos second)).0;
  relay_batch = (integer env "IDEMIO_RELAY_BATCH" (pos 500)).0;
  archive_endpoint = env.getenv "IDEMIO_ARCHIVE_ENDPOINT";
  archive_bucket = env.getenv "IDEMIO_ARCHIVE_BUCKET";
  archive_access_key = env.getenv "IDEMIO_ARCHIVE_ACCESS_KEY";
  archive_secret_key = env.getenv "IDEMIO_ARCHIVE_SECRET_KEY";
}

-- those of the second half
abbrev more_problems : Env → List ConfigProblem
more_problems env =
    (go_duration env "IDEMIO_MANIFEST_RELOAD_INTERVAL" (pos (30 * second))).1
    ++ ((duration env "IDEMIO_CONFLICT_LOCK_TIMEOUT_MS" (pos 250)).1
        ++ ((go_duration env "IDEMIO_READ_MAX_SPAN" (pos (31 * day))).1
            ++ ((go_duration env "IDEMIO_PARTITION_AHEAD" (pos (56 * day))).1
                ++ ((go_duration env "IDEMIO_RETENTION_KEYS" (pos (90 * day))).1
                    ++ ((go_duration env "IDEMIO_RETENTION_INTENTS" (pos (90 * day))).1
                        ++ ((go_duration env "IDEMIO_RETENTION_CONFLICTS" (pos (365 * day))).1
                            ++ ((go_duration env "IDEMIO_RETENTION_AUDIT" (pos (365 * day))).1
                                ++ ((integer env "IDEMIO_RETENTION_ROWS_PER_SEC" (pos 500)).1
                                    ++ ((go_duration env "IDEMIO_RELAY_INTERVAL" (pos second)).1
                                        ++ (integer env "IDEMIO_RELAY_BATCH" (pos 500)).1)))))))))

-- the problems that the struct literal of Load collects, in its order
unfoldable pub read_problems : Env → List ConfigProblem
read_problems env =
    (duration env "IDEMIO_CLAIM_PENDING_WAIT_MS" (pos 0)).1
    ++ ((go_duration env "IDEMIO_RECONCILE_STALE_AFTER" (pos (300 * second))).1
        ++ ((go_duration env "IDEMIO_RECONCILE_INTERVAL" (pos (30 * second))).1
            ++ ((duration env "IDEMIO_DOWNSTREAM_CONNECT_TIMEOUT_MS" (pos 1000)).1
                ++ ((duration env "IDEMIO_DOWNSTREAM_TIMEOUT_MS" (pos 10000)).1
                    ++ ((integer env "IDEMIO_LIMITS_PAYLOAD_BYTES" (pos 262144)).1
                        ++ ((integer env "IDEMIO_LIMITS_RESULT_INLINE_BYTES" (pos 65536)).1
                            ++ ((integer env "IDEMIO_OUTCOME_WRITE_ATTEMPTS" (pos 3)).1
                                ++ more_problems env)))))))

abbrev refuse_or :
    List ConfigProblem → Except (List ConfigProblem) Config → Except (List ConfigProblem) Config
refuse_or [] next = next
refuse_or (p ∷ ps) next = err (p ∷ ps)

unfoldable pub load : Env → Except (List ConfigProblem) Config
load env =
    refuse_or (read_problems env) (refuse_or (validate (read_config env)) (ok (read_config env)))
