-- ===== src/Api/Reads/Audit.antt =====
-- internal/api/reads.go and audit.go: the two read endpoints, and the audit of the payloads that
-- one of them returns. A read runs over the tables as one snapshot.
pub mod Disclosure
use idemio.Prelude.{
  or_fail, ℕ, String, Bool, true, false, not, ◌&&◌, ◌||◌, Option, none, some, List, [], ◌∷◌, ◌++◌,
  map, ◌==◌, leb, length, Except, ok, err, ◌>>=◌, if◌then◌else◌,
}
use idemio.Claim.{Resolution}
use idemio.Manifest.{Operation}
use idemio.Tables.{IntentRow, ConflictRow, CommitReply}
use idemio.Api.Identity.{Identity, read_identity, trim_space}
use idemio.Api.Reads.{Cursor, Window, Formats, Query, WindowProblem, Page, read_window, page_of}

abbrev pub role_operator : String
role_operator = "operator"

abbrev pub role_investigator : String
role_investigator = "investigator"

-- intentRow
pub record IntentView : Type 0 where
  pub intent_id : String
  pub agent_id : String
  pub idempotency_key : String
  pub operation : String
  pub declared : Operation
  pub emitted_at : ℕ
  pub voided : Bool
  pub payload : Option String
  pub redacted : Bool

-- a row of payload_access_audit
pub record AuditRow : Type 0 where
  pub principal : String
  pub caller_role : String
  pub endpoint : String
  pub query_params : Query
  pub record_count : ℕ
  pub intent_ids : List String
  pub stated_reason : String

pub data ReadProblem : Type 0 where
  missing_identity role_insufficient payload_role_insufficient reason_required : ReadProblem
  nothing_to_include read_failed audit_unavailable panicked : ReadProblem
  invalid_range : WindowProblem → ReadProblem

-- the parts of a request that a read takes
pub record ReadRequest : Type 0 where
  pub agent_header : String
  pub role_header : String
  pub reason_header : String
  pub path : String
  pub resource_type : String
  pub resource_id : String
  pub query : Query

-- what the transaction of a read meets of the database server
pub record ReadServer : Type 0 where
  pub now : ℕ
  pub begin_fails : Bool
  pub query_fails : Bool
  pub audit_fails : Bool
  pub commit : CommitReply

abbrev pub ensure : Bool → ReadProblem → Except ReadProblem (Unit {0})
ensure b p = if b then ok tt else err p

unfoldable pub reader_identity : ReadRequest → Except ReadProblem Identity
reader_identity r = do
  caller ← or_fail (read_identity r.agent_header r.role_header) missing_identity
  _ ← ensure (caller.role == role_operator || caller.role == role_investigator) role_insufficient
  ok caller

abbrev pub in_range : Except WindowProblem Window → Except ReadProblem Window
in_range (ok w) = ok w
in_range (err p) = err (invalid_range p)

-- payloadRequest: the reason of a caller who asks for payloads and may have them
unfoldable pub payload_request : ReadRequest → Identity → Except ReadProblem (Option String)
payload_request r caller = if not (r.query.include == "payload") then ok none else (do
  _ ← ensure (caller.role == role_investigator) payload_role_insufficient
  _ ← ensure (not (trim_space r.reason_header == "")) reason_required
  ok (some (trim_space r.reason_header)))

abbrev pub is_some {ℓ} : {A : Type ℓ} → Option A → Bool
is_some none = false
is_some (some a) = true

-- a row of either statement, as scanIntents reads it; the redacted one reads NULL for the payload
unfoldable pub view_intent : Bool → IntentRow → IntentView
view_intent unredacted r = record {
  intent_id = r.intent_id;
  agent_id = r.agent_id;
  idempotency_key = r.idempotency_key;
  operation = r.operation;
  declared = r.declared;
  emitted_at = r.emitted_at;
  voided = is_some r.voided_at;
  payload = if unredacted then some r.payload else none;
  redacted = not unredacted;
}

-- the conditions of the two statements but that on the cursor
unfoldable pub is_intent_of : ReadRequest → Window → IntentRow → Bool
is_intent_of r w i =
    i.resource_type == r.resource_type
    && (i.resource_id == r.resource_id && (leb w.since i.emitted_at && leb i.emitted_at w.until))

abbrev pub intent_key : IntentRow → Cursor
intent_key i = record { at = i.emitted_at; id = i.intent_id }

abbrev pub shown_key : IntentView → Cursor
shown_key i = record { at = i.emitted_at; id = i.intent_id }

-- recordPayloadAccess: the rows of the audit after the statement
unfoldable pub record_payload_access :
    ReadServer → AuditRow → List AuditRow → Except ReadProblem (List AuditRow)
record_payload_access v entry audit =
    if v.audit_fails then err audit_unavailable else ok (audit ++ (entry ∷ []))

-- the auditEntry of a page with payloads
abbrev pub audit_row : ReadRequest → Identity → String → Page IntentView → AuditRow
audit_row r caller reason page = record {
  principal = caller.agent_id;
  caller_role = caller.role;
  endpoint = r.path;
  query_params = r.query;
  record_count = length page.rows;
  intent_ids = map (λ i. i.intent_id) page.rows;
  stated_reason = reason;
}

-- the audit of a page, if it has payloads
unfoldable pub audit_page :
    ReadServer
    → ReadRequest
    → Identity
    → Option String
    → Page IntentView
    → List AuditRow
    → Except ReadProblem (List AuditRow)
audit_page v r caller none page audit = ok audit
audit_page v r caller (some reason) page audit =
    record_payload_access v (audit_row r caller reason page) audit

-- the transaction of a read of intents: the page, and the audit as the commit would leave it
unfoldable pub read_intents :
    Formats
    → ReadServer
    → ReadRequest
    → Identity
    → Window
    → Option String
    → List IntentRow
    → List AuditRow
    → Except ReadProblem (Page IntentView × List AuditRow)
read_intents f v r caller w reason rows audit = do
  _ ← ensure (not v.begin_fails) read_failed
  _ ← ensure (not v.query_fails) read_failed
  page ←
      or_fail
        (page_of f intent_key (is_intent_of r w) (view_intent (is_some reason)) shown_key w rows)
        panicked
  after ← audit_page v r caller reason page audit
  ok (page, after)

abbrev pub commit_reply :
    CommitReply
    → List AuditRow
    → List AuditRow
    → Page IntentView
    → List AuditRow × Except ReadProblem (Page IntentView)
commit_reply CommitReply.applied audit after page = (after, ok page)
commit_reply CommitReply.refused audit after page = (audit, err read_failed)
commit_reply CommitReply.lost audit after page = (after, err read_failed)

-- what is left in the audit, and the answer
unfoldable pub commit_read :
    ReadServer
    → List AuditRow
    → Except ReadProblem (Page IntentView × List AuditRow)
    → List AuditRow × Except ReadProblem (Page IntentView)
commit_read v audit (err p) = (audit, err p)
commit_read v audit (ok (page, after)) = commit_reply v.commit audit after page

unfoldable pub handle_intents :
    Formats
    → ReadServer
    → ℕ
    → ReadRequest
    → List IntentRow
    → List AuditRow
    → List AuditRow × Except ReadProblem (Page IntentView)
handle_intents f v max_span r rows audit = commit_read v audit (do
  caller ← reader_identity r
  w ← in_range (read_window f max_span v.now r.query)
  reason ← payload_request r caller
  read_intents f v r caller w reason rows audit)

-- `$n IS NULL OR column = $n`, with `optional`: an empty value is NULL
abbrev is_or_any : String → String → Bool
is_or_any value column = value == "" || column == value

-- the text of a resolution in the database
abbrev pub resolution_text : Resolution → String
resolution_text Resolution.serialized = "serialized"
resolution_text Resolution.rejected = "rejected"
resolution_text Resolution.observed = "observed"

-- the conditions of selectConflicts but that on the cursor
unfoldable pub is_conflict_of : ReadRequest → Window → ConflictRow → Bool
is_conflict_of r w c =
    (leb w.since c.detected_at && leb c.detected_at w.until)
    && ((r.query.agent_id == ""
          || (c.agent_id_a == r.query.agent_id || c.agent_id_b == r.query.agent_id))
        && (is_or_any r.query.resource_type c.resource_type
            && is_or_any r.query.resolution (resolution_text c.resolution)))

abbrev pub conflict_key : ConflictRow → Cursor
conflict_key c = record { at = c.detected_at; id = c.conflict_id }

unfoldable pub handle_conflicts :
    Formats
    → ReadServer
    → ℕ
    → ReadRequest
    → List ConflictRow
    → Except ReadProblem (Page ConflictRow)
handle_conflicts f v max_span r rows = do
  caller ← reader_identity r
  w ← in_range (read_window f max_span v.now r.query)
  _ ← ensure (r.query.include == "") nothing_to_include
  _ ← ensure (not v.query_fails) read_failed
  or_fail (page_of f conflict_key (is_conflict_of r w) (λ c. c) conflict_key w rows) panicked
