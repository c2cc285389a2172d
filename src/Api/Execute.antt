-- ===== src/Api/Execute.antt =====
-- execute, persistOutcome and statusFor of internal/api/api.go: the one call of the downstream that
-- a claim permits, and the record of its outcome.
pub mod Persist
use idemio.Prelude.{
  ℕ, String, Bool, true, false, Option, none, some, List, [], ◌∷◌, ◌==◌, Except, ok, err,
  if◌then◌else◌,
}
use idemio.Api.{Response, Value, text, raw, flag, write_json, do_not_retry}
use idemio.Claim.{Status, Result}
use idemio.Claim.Complete.{Completion, complete}
use idemio.Downstream.{Disposition, Outcome, Wire, execute}
use idemio.Manifest.{Definition}
use idemio.ResultStore.{Store, Bucket, Placement, place}
use idemio.Tables.{Db, Server, Fault}

unfoldable pub status_for : Disposition → Status
status_for Disposition.done = Status.done
status_for Disposition.failed = Status.failed
status_for Disposition.indeterminate = Status.indeterminate

-- One attempt of persistOutcome: what the other processes do before it, and its transaction.
pub record Attempt : Type 0 where
  pub others : Db → Db
  pub server : Server

-- the loop of persistOutcome; the list has OutcomeWriteAttempts elements
unfoldable pub persist_attempts : String → String → Completion → List Attempt → Db → Db × Bool
persist_attempts agent key c [] db = (db, false)
persist_attempts agent key c (a ∷ attempts) db =
    let (after, reply) = complete a.server agent key c (a.others db) in
    let rest = persist_attempts agent key c attempts after in
    elim reply [ ok updated ↦ (after, updated) | err e ↦ rest ]

-- the tables and the bucket
pub record State : Type 0 where
  pub db : Db
  pub bucket : Bucket

unfoldable pub completion_of : Status → Placement → String → Completion
completion_of status p detail = record {
  status = status;
  result = p.inline;
  result_ref = p.ref;
  detail = detail;
}

unfoldable pub persist_outcome :
    (String → String)
    → Option Store
    → String
    → String
    → Status
    → Outcome
    → List Attempt
    → State
    → State × Bool
persist_outcome digest results agent key status outcome attempts w =
    let (placement, bucket) = place digest results w.bucket agent key outcome.result in
    let (after, recorded) =
      persist_attempts agent key (completion_of status placement outcome.detail) attempts w.db in
    (record { db = after; bucket = bucket }, recorded)

-- the switch at the end of `execute`
unfoldable pub write_outcome : String → Result → Outcome → Disposition → Response
unfolding write_json
write_outcome key claimed outcome Disposition.done = write_json 201 (
    ("idempotency_key", text key)
    ∷ ("status", text "done")
    ∷ ("result", raw outcome.result)
    ∷ ("replayed", flag false)
    ∷ ("intent_id", text claimed.intent_id)
    ∷ [])
write_outcome key claimed outcome Disposition.failed = write_json 503 (
    ("idempotency_key", text key)
    ∷ ("status", text "failed")
    ∷ ("reason", text "downstream_unreachable")
    ∷ ("retryable", flag true)
    ∷ [])
write_outcome key claimed outcome Disposition.indeterminate = write_json 502 (
    ("idempotency_key", text key)
    ∷ ("status", text "indeterminate")
    ∷ ("reason", text "downstream_timeout_after_send")
    ∷ ("retryable", flag false)
    ∷ ("detail", text do_not_retry)
    ∷ [])

-- What the call of a claimed write meets.
pub record Call : Type 0 where
  pub digest : String → String
  pub results : Option Store
  pub wire : Wire
  pub attempts : List Attempt

-- `execute` of the server; the outcome of the call is returned with the response
unfoldable pub call_downstream :
    Call → String → String → Definition → Result → State → State × (Outcome × Response)
call_downstream call agent key d claimed w =
    let outcome = execute call.wire d.errors in
    let (after, recorded) =
      persist_outcome call.digest call.results agent key (status_for outcome.disposition) outcome
        call.attempts w in
    (after, (outcome, write_outcome key claimed outcome outcome.disposition))
