-- ===== src/Api/Existing.antt =====
-- awaitCompletion, writeExisting and resolveResult of internal/api/api.go, and handleRead: what a
-- key that is already there answers. The advice of internal/latency is a number of milliseconds here.
use idemio.Prelude.{
  ℕ, String, Bool, true, false, not, ◌||◌, ◌++◌, Option, none, some, List, [], ◌∷◌, ◌==◌, Except,
  ok, err, if◌then◌else◌,
}
use idemio.Api.{
  Response, Value, text, raw, flag, number, write_json, write_raw, write_problem, unless_empty,
  do_not_retry,
}
use idemio.Api.Identity.{Identity, read_identity, to_lower, is_uuid}
use idemio.Api.Serialize.{Poll}
use idemio.Claim.{Status, Record}
use idemio.Claim.Complete.{is_pending}
use idemio.Claim.Statements.{lookup}
use idemio.ResultStore.{Store, Bucket, Missing, resolve}
use idemio.Tables.{Db, Server, Fault}

-- what a lookup gives awaitCompletion: nothing yet, or the record to answer with
unfoldable pub await_answer : Record → Except Fault (Option Record) → Option Record
await_answer stored (err e) = some stored
await_answer stored (ok none) = some stored
await_answer stored (ok (some current)) = if is_pending current.status then none else some current

-- the loop of awaitCompletion: a context that is done ends it before the lookup
unfoldable pub await_loop : Record → List Poll → Db → Record × Db
await_loop stored [] db = (stored, db)
await_loop stored (p ∷ polls) db =
    let after = p.others db in
    let rest = await_loop stored polls after in
    if p.cancelled
    then (stored, db)
    else elim (await_answer stored (lookup p.server stored.agent_id stored.key after)) [
      | some answer ↦ (answer, after)
      | none ↦ rest
    ]

-- awaitCompletion; `waits` is a positive ClaimPendingWait
unfoldable pub await_completion : Bool → Record → List Poll → Db → Record × Db
await_completion waits stored polls db =
    if not (is_pending stored.status) || not waits then (stored, db) else await_loop stored polls db

unfoldable pub status_text : Status → String
status_text Status.pending = "pending"
status_text Status.done = "done"
status_text Status.failed = "failed"
status_text Status.indeterminate = "indeterminate"
status_text Status.rejected = "rejected"

-- the response of resolveResult when the stored result cannot be read
unfoldable pub result_unavailable : String → Record → Response
unfolding write_json status_text
result_unavailable key stored = write_json 500 (
    ("idempotency_key", text key)
    ∷ ("status", text (status_text stored.status))
    ∷ ("reason", text "result_unavailable")
    ∷ ("retryable", flag true)
    ∷ (
      "detail",
      text
          "The write completed and its outcome is recorded, but the stored result could not be read. Retrying the same key replays it and cannot re-execute.",
    )
    ∷ [])

-- What a stored record is answered from.
pub record Stored : Type 0 where
  pub results : Option Store
  pub bucket : Bucket
  pub retry_after_ms : ℕ

unfoldable pub resolve_result : Stored → Record → Except Missing String
resolve_result s stored = resolve s.results s.bucket stored.result stored.result_ref

unfoldable pub replay : String → Record → Except Missing String → Response
unfolding write_json status_text
replay key stored (err e) = result_unavailable key stored
replay key stored (ok result) = write_json 200 (
    ("idempotency_key", text key)
    ∷ ("status", text (status_text stored.status))
    ∷ ("result", raw result)
    ∷ ("replayed", flag true)
    ∷ [])

-- a refusal that was stored is answered as it was stored
unfoldable pub replay_rejection : String → Record → Response
replay_rejection key stored =
    if stored.result == ""
    then write_problem 409 key "conflicting_write" stored.outcome_detail
    else write_raw 409 stored.result

-- writeExisting, by the record's status; the headers Retry-After and Location are not modelled
unfoldable pub answer_existing : Stored → String → Record → Status → Response
unfolding write_json
answer_existing s key stored Status.done = replay key stored (resolve_result s stored)
answer_existing s key stored Status.pending = write_json 202 (
    ("idempotency_key", text key)
    ∷ ("status", text "pending")
    ∷ ("retry_after_ms", number s.retry_after_ms)
    ∷ [])
answer_existing s key stored Status.rejected = replay_rejection key stored
answer_existing s key stored Status.indeterminate = write_json 502 (
    ("idempotency_key", text key)
    ∷ ("status", text "indeterminate")
    ∷ ("reason", text "indeterminate_outcome")
    ∷ ("retryable", flag false)
    ∷ ("detail", text do_not_retry)
    ∷ [])
answer_existing s key stored Status.failed = write_json 503 (
    ("idempotency_key", text key)
    ∷ ("status", text "failed")
    ∷ ("reason", text "downstream_unreachable")
    ∷ ("retryable", flag true)
    ∷ [])

unfoldable pub write_existing : Stored → String → Record → Response
write_existing s key stored = answer_existing s key stored stored.status

abbrev pub unless_no_result : String → List (String × Value)
unless_no_result result = if result == "" then [] else ("result", raw result) ∷ []

unfoldable pub read_record_as : String → Record → Except Missing String → Response
unfolding write_json status_text
read_record_as key stored (err e) = result_unavailable key stored
read_record_as key stored (ok result) = write_json 200 (
    ("idempotency_key", text key)
    ∷ ("status", text (status_text stored.status))
    ∷ ("attempt_count", number stored.attempt_count)
    ∷ (unless_no_result result ++ unless_empty "detail" stored.outcome_detail))

unfoldable pub read_found : Stored → String → Except Fault (Option Record) → Response
read_found s key (err e) = write_problem 500 key "lookup_failed" ""
read_found s key (ok none) = write_problem 404 key "unknown_key" ""
read_found s key (ok (some stored)) = read_record_as key stored (resolve_result s stored)

unfoldable pub read_as : Stored → Server → Option Identity → String → Db → Response
read_as s v none key db = write_problem 401 "" "missing_identity" ""
read_as s v (some caller) key db =
    if is_uuid key
    then read_found s key (lookup v caller.agent_id key db)
    else write_problem 422 key "malformed_idempotency_key" ""

-- handleRead: the two headers, and the key of the path
unfoldable pub handle_read : Stored → Server → String → String → String → Db → Response
handle_read s v agent_header role_header path_key db =
    read_as s v (read_identity agent_header role_header) (to_lower path_key) db
