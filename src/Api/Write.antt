-- ===== src/Api/Write.antt =====
-- handleWrite of internal/api/api.go. The decoding of the body and internal/canonical are functions
-- of what the handler meets.
pub mod Calls
pub mod Won
use idemio.Prelude.{
  ℕ, String, Bool, true, false, not, ◌||◌, Option, none, some, List, [], ◌∷◌, ◌==◌, Except, ok, err,
  if◌then◌else◌,
}
use idemio.Api.{Response, write_problem, write_raw, write_not_executed}
use idemio.Api.Execute.{Call, State, call_downstream}
use idemio.Api.Existing.{Stored, await_completion, write_existing}
use idemio.Api.Identity.{Identity, read_identity, role_agent, to_lower, is_uuid}
use idemio.Api.Serialize.{Poll, Round, claim_with_serialization}
use idemio.Claim.{Verdict, Request, Result}
use idemio.Downstream.{Outcome}
use idemio.Manifest.{Definition, Operation}
use idemio.Manifest.Load
use idemio.Manifest.Load.{Snapshot}
use idemio.Tables.{Db, Fault}

-- `payload` is the text of the JSON value, empty when the field is missing
pub record WriteRequest : Type 0 where
  pub agent_id : String
  pub resource_type : String
  pub resource_id : String
  pub operation : String
  pub payload : String

pub data DecodeError : Type 0 where
  too_large : DecodeError
  malformed : String → DecodeError

-- The request: its headers and its decoded body.
pub record HttpRequest : Type 0 where
  pub agent_header : String
  pub role_header : String
  pub key_header : String
  pub decoded : Except DecodeError WriteRequest

-- What the handler meets. `hash` is canonical.Hash.
pub record Meets : Type 0 where
  pub snapshot : Snapshot
  pub hash : WriteRequest → Except String String
  pub rounds : List Round
  pub last : Round
  pub waits : Bool
  pub polls : List Poll
  pub retry_after_ms : ℕ
  pub call : Call

-- What comes of a request: the tables and the bucket, the outcome of the call of the downstream if
-- there was one, and the response.
pub record Handled : Type 0 where
  pub state : State
  pub called : Option Outcome
  pub response : Response

abbrev pub answer : State → Response → Handled
answer w r = record { state = w; called = none; response = r }

unfoldable pub find_operation : String → List (String × Operation) → Option Operation
find_operation name [] = none
find_operation name ((n, o) ∷ rest) =
    let later = find_operation name rest in if n == name then some o else later

abbrev declared_in : String → Option Definition → Option (Definition × Operation)
declared_in operation none = none
declared_in operation (some d) = elim (find_operation operation d.operations) [
  | some declared ↦ some (d, declared)
  | none ↦ none
]

-- lookupOperation
unfoldable pub lookup_operation : Snapshot → String → String → Option (Definition × Operation)
lookup_operation s resource_type operation = declared_in operation (Load.lookup s resource_type)

unfoldable pub claim_request :
    Meets → String → WriteRequest → String → Definition → Operation → Request
claim_request m key req hash d declared = record {
  agent_id = req.agent_id;
  key = key;
  request_hash = hash;
  resource_type = req.resource_type;
  resource_id = req.resource_id;
  operation = req.operation;
  declared = declared;
  payload = req.payload;
  window = d.conflict_window;
  enforce = d.enforce;
  manifest_version = m.snapshot.version;
}

unfoldable pub answer_wait : Meets → String → Result → State → Handled
answer_wait m key result w =
    let (stored, after) = await_completion m.waits result.entry m.polls w.db in
    answer (record w { db = after })
      (write_existing
        (record { results = m.call.results; bucket = w.bucket; retry_after_ms = m.retry_after_ms })
        key stored)

unfoldable pub answer_call : Meets → String → WriteRequest → Definition → Result → State → Handled
answer_call m key req d result w =
    let (after, (outcome, response)) = call_downstream m.call req.agent_id key d result w in
    record { state = after; called = some outcome; response = response }

-- the switch on the verdict; `default` is that of a claim, which is all that is left
unfoldable pub by_verdict :
    Meets → String → WriteRequest → Definition → Result → State → Verdict → Handled
by_verdict m key req d result w Verdict.mismatch = answer w (
    write_problem 422 key "request_hash_mismatch"
      "This key was previously used with a different request body.")
by_verdict m key req d result w Verdict.existing = answer_wait m key result w
by_verdict m key req d result w Verdict.rejected = answer w (write_raw 409 result.entry.result)
by_verdict m key req d result w Verdict.lock_timeout =
    answer w (write_not_executed key "resource_busy")
by_verdict m key req d result w Verdict.serialize_timeout =
    answer w (write_not_executed key "serialization_wait_expired")
by_verdict m key req d result w Verdict.claimed = answer_call m key req d result w
by_verdict m key req d result w Verdict.serialize = answer_call m key req d result w

unfoldable pub after_claim :
    Meets → String → WriteRequest → Definition → State → Except Fault Result → Handled
after_claim m key req d w (err e) = answer w (write_problem 500 key "claim_failed" "")
after_claim m key req d w (ok result) = by_verdict m key req d result w result.verdict

unfoldable pub claim_and_answer :
    Meets → String → WriteRequest → Definition → Operation → State → Except String String → Handled
claim_and_answer m key req d declared w (err e) =
    answer w (write_problem 422 key "unhashable_request" e)
claim_and_answer m key req d declared w (ok hash) =
    let (after, reply) =
      claim_with_serialization (claim_request m key req hash d declared) m.rounds m.last w.db in
    after_claim m key req d (record w { db = after }) reply

unfoldable pub admit :
    Meets → String → WriteRequest → State → Option (Definition × Operation) → Handled
admit m key req w none = answer w (
    write_problem 422 key "unknown_operation"
      "No manifest declares this operation for this resource_type. A write whose downstream responses cannot be classified is never admitted.")
admit m key req w (some (d, declared)) = claim_and_answer m key req d declared w (m.hash req)

unfoldable pub has_missing_field : WriteRequest → Bool
has_missing_field req =
    req.agent_id == ""
    || (req.resource_type == ""
        || (req.resource_id == "" || (req.operation == "" || req.payload == "")))

unfoldable pub handle_body :
    Meets → Identity → String → State → Except DecodeError WriteRequest → Handled
handle_body m caller key w (err too_large) = answer w (write_problem 413 key "payload_too_large" "")
handle_body m caller key w (err (malformed e)) =
    answer w (write_problem 400 key "malformed_request" e)
handle_body m caller key w (ok req) =
    if has_missing_field req
    then answer w (write_problem 400 key "missing_field" "")
    else if not (req.agent_id == caller.agent_id)
    then answer w (write_problem 403 key "agent_id_mismatch" "")
    else admit m key req w (lookup_operation m.snapshot req.resource_type req.operation)

unfoldable pub handle_as : Meets → HttpRequest → String → State → Option Identity → Handled
handle_as m r key w none = answer w (write_problem 401 "" "missing_identity" "")
handle_as m r key w (some caller) =
    if not (caller.role == role_agent)
    then answer w (write_problem 403 "" "role_insufficient" "")
    else if not (is_uuid key)
    then answer w
        (write_problem 422 key "malformed_idempotency_key" "Idempotency-Key must be a UUID.")
    else handle_body m caller key w r.decoded

unfoldable pub handle_write : Meets → HttpRequest → State → Handled
handle_write m r w =
    handle_as m r (to_lower r.key_header) w (read_identity r.agent_header r.role_header)
