-- ===== src/Config/Timing.antt =====
-- What a validated configuration says of time: that a writer is done before its key is stale.
use mathlib.Core.Path.{subst}
use idemio.Prelude.{
  ℕ, zero, suc, ◌+◌, ◌*◌, ◌≤◌, ◌<◌, Bool, true, false, not, List, [], ◌∷◌, ◌==◌, ◌≡◌, refl, ap, sym,
  ◌∙◌, arith, ℤ, pos, negsuc, leb_int, ltb_int, wrap_64, wrap_64-pos, scale, Except, ok,
  append-eq-nil,
}
use idemio.Config.{
  Config, ConfigProblem, Env, auth_mode_trusted_header, second, millisecond, serialize_wait,
  fail_if, validate, read_config, read_problems, refuse_or, load, database_url_required,
  downstream_base_url_required, auth_mode_unset, stale_after_below_budget,
  stale_after_below_interval, pending_wait_above_timeout, no_write_attempts,
}

fail_if-passes : (b : Bool) (p : ConfigProblem) → fail_if b p ≡ [] → b ≡ false
fail_if-passes true p h = cc
fail_if-passes false p h = refl

refuse_or-ok :
    (ps : List ConfigProblem) (next : Except (List ConfigProblem) Config) {c : Config}
    → refuse_or ps next ≡ ok c
    → (ps ≡ []) × (next ≡ ok c)
refuse_or-ok [] next h = (refl, h)
refuse_or-ok (p ∷ ps) next h = absurd (cc h)

-- A configuration that is loaded is the one that was read, without a problem, and valid.
load-eq-ok :
    (env : Env) {c : Config}
    → load env ≡ ok c
    → (read_problems env ≡ []) × (validate c ≡ []) × (read_config env ≡ c)
unfolding load
load-eq-ok env {c} h =
    let (read, next) = refuse_or-ok (read_problems env) _ h in
    let (valid, made) = refuse_or-ok (validate (read_config env)) _ next in
    let same : read_config env ≡ c = cc made in
    (read, subst (λ z. validate z ≡ []) same valid, same)

-- The checks on time among those of a valid configuration.
validate_checks :
    (c : Config)
    → validate c ≡ []
    → (ltb_int c.reconcile_stale_after (wrap_64 (scale (serialize_wait c) 3)) ≡ false)
      × (leb_int c.downstream_timeout c.claim_pending_wait ≡ false)
      × (ltb_int c.outcome_write_attempts (pos 1) ≡ false)
unfolding validate serialize_wait
validate_checks c h =
    let (_, h₁) = append-eq-nil (fail_if (c.database_url == "") database_url_required) _ h in
    let (_, h₂) =
      append-eq-nil (fail_if (c.downstream_base_url == "") downstream_base_url_required) _ h₁ in
    let (_, h₃) =
      append-eq-nil (fail_if (not (c.auth_mode == auth_mode_trusted_header)) auth_mode_unset) _
        h₂ in
    let (budget, h₄) =
      append-eq-nil
        (fail_if (ltb_int c.reconcile_stale_after (wrap_64 (scale (serialize_wait c) 3)))
          stale_after_below_budget)
        _ h₃ in
    let (_, h₅) =
      append-eq-nil
        (fail_if (leb_int c.reconcile_stale_after (wrap_64 (scale c.reconcile_interval 2)))
          stale_after_below_interval)
        _ h₄ in
    let (wait, h₆) =
      append-eq-nil
        (fail_if (leb_int c.downstream_timeout c.claim_pending_wait) pending_wait_above_timeout) _
        h₅ in
    let (attempts, _) =
      append-eq-nil (fail_if (ltb_int c.outcome_write_attempts (pos 1)) no_write_attempts) _ h₆ in
    (
      fail_if-passes (ltb_int c.reconcile_stale_after (wrap_64 (scale (serialize_wait c) 3)))
          stale_after_below_budget budget,
      fail_if-passes (leb_int c.downstream_timeout c.claim_pending_wait) pending_wait_above_timeout
          wait,
      fail_if-passes (ltb_int c.outcome_write_attempts (pos 1)) no_write_attempts attempts,
    )

-- The longest that persistOutcome takes: five seconds to place the result, and for each attempt to
-- write it two seconds, with a doubling pause between two attempts.
unfoldable pub attempts_time : ℕ → ℕ → ℕ
attempts_time zero backoff = 0
attempts_time (suc zero) backoff = 2 * second
attempts_time (suc (suc n)) backoff = 2 * second + backoff + attempts_time (suc n) (2 * backoff)

unfoldable pub persist_time : ℕ → ℕ
persist_time attempts = 5 * second + attempts_time attempts (50 * millisecond)

above_three :
    (stale : ℤ) (budget : ℕ)
    → ltb_int stale (pos (3 * budget)) ≡ false
    → (s : ℕ) × (stale ≡ pos s) × (3 * budget ≤ s)
above_three (pos s) budget h = (s, refl, ground (arith, h))
above_three (negsuc s) budget h = absurd (cc h)

positive : (n : ℕ) → ltb_int (pos n) (pos 1) ≡ false → 1 ≤ n
positive n h = ground (arith, h)

budget_sum :
    (c : Config) (connect timeout : ℕ)
    → c.downstream_connect_timeout ≡ pos connect
    → c.downstream_timeout ≡ pos timeout
    → connect + timeout < 9223372036854775808
    → serialize_wait c ≡ pos (connect + timeout)
unfolding serialize_wait
budget_sum c connect timeout e e' fits = rw (e, e') (wrap_64-pos (connect + timeout) fits)

-- In a loaded configuration whose two timeouts are not negative and of which three times the sum
-- fits an int64, the wait for an earlier write is the time of a whole call, a key is stale only
-- after three times that, and a writer who makes one call and at most the configured attempts to
-- record it is done before its key is stale, if recording takes less than two such times.
pub load_timing :
    (env : Env) (c : Config) (connect timeout attempts : ℕ)
    → load env ≡ ok c
    → c.downstream_connect_timeout ≡ pos connect
    → c.downstream_timeout ≡ pos timeout
    → 3 * (connect + timeout) < 9223372036854775808
    → c.outcome_write_attempts ≡ pos attempts
    → persist_time attempts < 2 * (connect + timeout)
    → (serialize_wait c ≡ pos (connect + timeout))
      × (1 ≤ attempts)
      × ((stale : ℕ) × (c.reconcile_stale_after ≡ pos stale)
          × (connect + timeout + persist_time attempts < stale))
load_timing env c connect timeout attempts loaded e_connect e_timeout fits e_attempts quick =
    let (_, valid, _) = load-eq-ok env loaded in
    let (budget, wait, tries) = validate_checks c valid in
    let sum = budget_sum c connect timeout e_connect e_timeout (omega (arith, fits)) in
    let tripled : wrap_64 (scale (serialize_wait c) 3) ≡ pos (3 * (connect + timeout)) =
      rw (sum)
        (wrap_64-pos ((connect + timeout) * 3) (omega (arith, fits)) ∙ ap pos (omega arith)) in
    let (stale, e_stale, above) =
      above_three c.reconcile_stale_after (connect + timeout)
        (ap (λ z. ltb_int c.reconcile_stale_after z) (sym tripled) ∙ budget) in
    (
      sum,
      positive attempts (ap (λ z. ltb_int z (pos 1)) (sym e_attempts) ∙ tries),
      (stale, e_stale, omega (arith, above, quick)),
    )
