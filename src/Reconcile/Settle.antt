-- ===== src/Reconcile/Settle.antt =====
-- What a probe's answer makes of a key.
use mathlib.Core.Path.{subst}
use idemio.Prelude.{
  ℕ, zero, suc, Bool, true, false, not, ◌&&◌, ◌||◌, Option, none, some, List, ◌≡◌, refl, ap, arith,
  ℤ, pos, negsuc, eqb, ◌>>=◌, if◌then◌else◌, Bool-cases, inl, inr, Except, ok, err, String, ◌==◌,
}
use idemio.Claim.{Status}
use idemio.Claim.Complete.{Completion, is_pending, completed}
use idemio.Claim.Complete.Effect.{IsHealthy, complete_pending}
use idemio.Manifest.{Definition}
use idemio.Probe.{
  Outcome, Failure, Network, Verdict, outcome_of, equal_int, target, probe, executions,
  read_verdict, last_or_empty,
}
use idemio.ResultStore.{place}
use idemio.ResultStore.Laws.{place_one_column}
use idemio.Reconcile.{
  Reconciler, Meets, Stale, State, Summary, record_outcome, close, conclude, resolve,
}
use idemio.Tables.{KeyRow}
use idemio.Tables.Laws.{row_of, status_of, IsUnique}

-- the status that a sweep records for an outcome of its probe
abbrev pub outcome_status : Outcome → Status
outcome_status Outcome.executed = Status.done
outcome_status Outcome.not_executed = Status.failed
outcome_status Outcome.unknown = Status.indeterminate

abbrev pub answered : Except Failure (Outcome × String) → Option Status
answered (err e) = none
answered (ok (o, x)) = some (outcome_status o)

-- What a count of executions calls for: a write that was not executed failed, and any other is done.
abbrev pub by_count : ℤ → Status
by_count (pos zero) = Status.failed
by_count (pos (suc n)) = Status.done
by_count (negsuc n) = Status.done

abbrev by_body : Except Failure (ℤ × List String) → Option Status
by_body (err e) = none
by_body (ok (count, executions)) = some (by_count count)

abbrev is_200 : ℤ → Bool
is_200 (pos n) = eqb n 200
is_200 (negsuc n) = false

-- What the downstream's reply to the question of a write's executions calls for: nothing, when it
-- cannot be reached, has another status than 200 or cannot be decoded.
abbrev by_reply : Network → Except Failure (ℤ × String) → Option Status
by_reply n (err e) = none
by_reply n (ok (status, body)) = if is_200 status then by_body (n.decoded body) else none

-- A resource type without a manifest has no probe, and nothing can be told of its writes.
abbrev pub called_for : Meets → Stale → Option Definition → Option Status
called_for m c none = some Status.indeterminate
called_for m c (some d) =
    by_reply m.network (m.network.answer (target m.network d.probe_path c.agent_id c.key))

not_zero : (n : ℕ) → equal_int (pos (suc n)) (pos 0) ≡ false
not_zero n = ground arith

pub outcome-by_count : (v : Verdict) → outcome_status (outcome_of v).0 ≡ by_count v.executions
unfolding outcome_of
outcome-by_count v = counted v.executions
  where
    counted :
        (n : ℤ)
        → (let o : Outcome × String =
              if equal_int n (pos 0)
              then (Outcome.not_executed, "")
              else (Outcome.executed, v.result) in
            outcome_status o.0)
          ≡ by_count n
    counted (pos zero) = refl
    counted (pos (suc n)) = rw (not_zero n) refl
    counted (negsuc n) = refl

is_200_equal : (status : ℤ) → equal_int status (pos 200) ≡ is_200 status
is_200_equal (pos n) = ground arith
is_200_equal (negsuc n) = ground arith

-- The probe makes of a reply what it calls for.
pub probe-called_for :
    (n : Network) (path agent key : String)
    → answered (probe n path agent key) ≡ by_reply n (n.answer (target n path agent key))
unfolding probe executions read_verdict
probe-called_for n path agent key = replied (n.answer (target n path agent key))
  where
    decoded :
        (body : Except Failure (ℤ × List String))
        → answered (do
          verdict ← (do
            (count, held) ← body
            ok (record { executions = count; result = last_or_empty held }))
          ok (outcome_of verdict))
          ≡ by_body body
    decoded (err e) = refl
    decoded (ok (count, held)) =
        ap some (outcome-by_count (record { executions = count; result = last_or_empty held }))

    replied :
        (reply : Except Failure (ℤ × String))
        → answered (do
          verdict ← (do (status, body) ← reply; read_verdict n status body)
          ok (outcome_of verdict))
          ≡ by_reply n reply
    replied (err e) = refl
    replied (ok (status, body)) = elim (Bool-cases (is_200 status)) [
      | inl e ↦ rw (is_200_equal status, e) (decoded (n.decoded body))
      | inr e ↦ rw (is_200_equal status, e) refl
    ]

-- The key has the status that is called for, or the tables and the bucket are as they were.
abbrev pub IsSettled : Stale → Option Status → State → State → Type 0
IsSettled c none w w' = w' ≡ w
IsSettled c (some status) w w' = status_of c.agent_id c.key w'.db ≡ some status

pub one-column : (a b : Bool) → (a || b) ≡ true → (not a && not b) ≡ false
one-column a b h = ground arith

module _ (r : Reconciler) (m : Meets) (c : Stale) (s : Summary) (w : State) where
  -- the transaction finds its server healthy, and the key still pending
  abbrev pub FindsPending : KeyRow → Type 0
  FindsPending row =
      IsHealthy m.server
      × IsUnique (m.others w.db)
      × (row_of c.agent_id c.key (m.others w.db) ≡ some row)
      × (is_pending row.status ≡ true)

  close_settles :
      (row : KeyRow) (status : Status) (result detail : String)
      → FindsPending row
      → status_of c.agent_id c.key (close r m c status result detail s w).0.db ≡ some status
  unfolding close record_outcome completed
  close_settles row status result detail (healthy, unique, found, waiting) =
      let p = (place m.network.digest r.results w.bucket c.agent_id c.key result).0 in
      let completion : Completion = record {
        status = status;
        result = p.inline;
        result_ref = p.ref;
        detail = detail;
      } in
      let column =
        one-column (p.inline == "") (p.ref == "")
          (place_one_column m.network.digest w.bucket c.agent_id c.key result r.results) in
      let (_, after) =
        complete_pending m.server c.agent_id c.key completion (m.others w.db) row healthy unique
          column found waiting in
      rw after refl

  conclude_settles :
      (row : KeyRow) (reply : Except Failure (Outcome × String))
      → FindsPending row
      → IsSettled c (answered reply) w (conclude r m c reply s w).0
  unfolding conclude
  conclude_settles row (err e) found = refl
  conclude_settles row (ok (Outcome.executed, x)) found = close_settles row _ _ _ found
  conclude_settles row (ok (Outcome.not_executed, x)) found = close_settles row _ _ _ found
  conclude_settles row (ok (Outcome.unknown, x)) found = close_settles row _ _ _ found

  -- Of a key that is still pending when a healthy server records its outcome: it becomes `failed` if
  -- the downstream replies with status 200 that it counted no execution, `done` if it replies so that
  -- it counted another number, and `indeterminate` if no manifest declares its resource type; a reply
  -- that fails, has another status or does not decode changes nothing.
  pub resolve_settles :
      (row : KeyRow) (d : Option Definition)
      → FindsPending row
      → IsSettled c (called_for m c d) w (resolve r m c d s w).0
  unfolding resolve
  resolve_settles row none found = close_settles row _ _ _ found
  resolve_settles row (some d) found =
      subst
        (λ o.
          IsSettled c o w (conclude r m c (probe m.network d.probe_path c.agent_id c.key) s w).0)
        (probe-called_for m.network d.probe_path c.agent_id c.key)
        (conclude_settles row (probe m.network d.probe_path c.agent_id c.key) found)
