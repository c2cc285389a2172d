-- ===== src/Startup/Drain.antt =====
-- How long a draining server waits, beside what a request in flight may take.
use idemio.Prelude.{ℕ, zero, suc, ◌+◌, ◌*◌, ◌<◌, ◌≤◌, ◌≡◌, arith, pos, wrap_64-pos}
use idemio.Config.{Config, second, millisecond}
use idemio.Config.Timing.{persist_time, attempts_time}
use idemio.Startup.Server.{grace}

attempts_long : (n backoff : ℕ) → 2 * second ≤ attempts_time (suc n) backoff
unfolding attempts_time
attempts_long zero backoff = omega arith
attempts_long (suc n) backoff = omega arith

-- A drain waits for a whole call and two seconds, which is less than a call and the recording of its
-- outcome may take, however many attempts are configured.
pub grace_short :
    (c : Config) (connect timeout n : ℕ)
    → c.downstream_connect_timeout ≡ pos connect
    → c.downstream_timeout ≡ pos timeout
    → connect + timeout + 2 * second < 9223372036854775808
    → (grace c ≡ pos (connect + timeout + 2 * second))
      × (connect + timeout + 2 * second < connect + timeout + persist_time (suc n))
unfolding grace persist_time
grace_short c connect timeout n e e' fits = (
  rw (e, e', wrap_64-pos (connect + timeout) (omega (arith, fits)))
      (wrap_64-pos (connect + timeout + 2 * second) fits),
  omega (arith, attempts_long n (50 * millisecond)),
)
