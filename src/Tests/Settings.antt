-- ===== src/Tests/Settings.antt =====
-- The settings of an environment that sets only what has no default.
use idemio.Prelude.{
  ℕ, ◌+◌, ◌*◌, ◌≤◌, ◌<◌, none, ◌==◌, ◌||◌, ◌≡◌, refl, arith, pos, ok, if◌then◌else◌,
}
use idemio.Api.Identity.{trim_left, trim_right, trim_space}
use idemio.Config.{
  Env, second, with_default, integer, duration, go_duration, serialize_wait, validate, read_config,
  read_problems, load,
}
use idemio.Config.Timing.{attempts_time, persist_time, load_timing}

abbrev pub environment : Env
environment = record {
  getenv = λ key.
      if key == "IDEMIO_AUTH_MODE"
      then "trusted_header"
      else if key == "IDEMIO_DATABASE_URL"
          || (key == "IDEMIO_DOWNSTREAM_BASE_URL" || key == "IDEMIO_MANIFEST_DIR")
      then "x"
      else "";
  parse_int = λ s. none;
  parse_duration = λ s. none;
}

pub loads : load environment ≡ ok (read_config environment)
unfolding load read_problems read_config validate with_default integer duration go_duration
    trim_left trim_right trim_space
loads = refl

connects : (read_config environment).downstream_connect_timeout ≡ pos second
unfolding read_config integer duration trim_left trim_right trim_space
connects = refl

replies : (read_config environment).downstream_timeout ≡ pos (10 * second)
unfolding read_config integer duration trim_left trim_right trim_space
replies = refl

tries : (read_config environment).outcome_write_attempts ≡ pos 3
unfolding read_config integer trim_left trim_right trim_space
tries = refl

records : persist_time 3 ≡ 11150000000
unfolding persist_time attempts_time
records = refl

load_timing_example :
    (serialize_wait (read_config environment) ≡ pos (11 * second))
    × (1 ≤ 3)
    × ((stale : ℕ) × ((read_config environment).reconcile_stale_after ≡ pos stale)
        × (11 * second + persist_time 3 < stale))
load_timing_example =
    load_timing environment (read_config environment) second (10 * second) 3 loads connects replies
      (omega arith) tries (rw records (omega arith))

-- Fourteen attempts take longer than the default time after which a key is stale.
outlives : 300 * second < persist_time 14
unfolding persist_time attempts_time
outlives = omega arith
