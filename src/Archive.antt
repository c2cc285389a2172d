-- ===== src/Archive.antt =====
-- internal/archive/schema.go: the rows of the partitioned tables, and the records that an archive
-- holds of them. Times are microseconds since the epoch.
pub mod Storage
pub mod Transfer
pub mod RoundTrip
pub mod Columns
pub mod Restored
pub mod Isolation
use idemio.Prelude.{
  String, Bool, false, Option, none, some, List, [], ℤ, pos, negsuc, eqb, if◌then◌else◌,
}

-- The columns as the queries of schema.go see them: UUIDs and jsonb as text, NULL as `none`.
pub record IntentColumns : Type 0 where
  pub intent_id : String
  pub agent_id : String
  pub idempotency_key : String
  pub resource_type : String
  pub resource_id : String
  pub operation : String
  pub operation_class : String
  pub scope_selector : Option (List String)
  pub payload : String
  pub emitted_at : ℤ
  pub published_at : Option ℤ
  pub voided_at : Option ℤ

pub record ConflictColumns : Type 0 where
  pub conflict_id : String
  pub intent_id_a : String
  pub intent_id_b : String
  pub agent_id_a : String
  pub agent_id_b : String
  pub resource_type : String
  pub resource_id : String
  pub reason : String
  pub resolution : String
  pub manifest_version : Option String
  pub detected_at : ℤ

pub record AuditColumns : Type 0 where
  pub audit_id : String
  pub principal : String
  pub caller_role : String
  pub endpoint : String
  pub query_params : String
  pub record_count : ℤ
  pub intent_ids : Option (List String)
  pub stated_reason : Option String
  pub accessed_at : ℤ

-- intentRecord; a nil slice is `none`
pub record IntentRecord : Type 0 where
  pub intent_id : String
  pub agent_id : String
  pub idempotency_key : String
  pub resource_type : String
  pub resource_id : String
  pub operation : String
  pub operation_class : String
  pub scope_selector : Option (List String)
  pub payload : String
  pub emitted_at : ℤ
  pub published_at : ℤ
  pub voided_at : ℤ

-- conflictRecord
pub record ConflictRecord : Type 0 where
  pub conflict_id : String
  pub intent_id_a : String
  pub intent_id_b : String
  pub agent_id_a : String
  pub agent_id_b : String
  pub resource_type : String
  pub resource_id : String
  pub reason : String
  pub resolution : String
  pub manifest_version : String
  pub detected_at : ℤ

-- auditRecord
pub record AuditRecord : Type 0 where
  pub audit_id : String
  pub principal : String
  pub caller_role : String
  pub endpoint : String
  pub query_params : String
  pub record_count : ℤ
  pub intent_ids : Option (List String)
  pub stated_reason : String
  pub accessed_at : ℤ

-- micros
abbrev pub micros : Option ℤ → ℤ
micros none = pos 0
micros (some t) = t

abbrev pub is_zero : ℤ → Bool
is_zero (pos n) = eqb n 0
is_zero (negsuc n) = false

-- fromMicros
abbrev pub from_micros : ℤ → Option ℤ
from_micros value = if is_zero value then none else some value

-- `coalesce(column, '')`, `coalesce(column, '{}')`
abbrev pub text_or_empty : Option String → String
text_or_empty none = ""
text_or_empty (some s) = s

abbrev pub list_or_empty : Option (List String) → Option (List String)
list_or_empty none = some []
list_or_empty (some l) = some l

-- the row that scanIntents makes
unfoldable pub to_intent_record : IntentColumns → IntentRecord
to_intent_record c = record {
  intent_id = c.intent_id;
  agent_id = c.agent_id;
  idempotency_key = c.idempotency_key;
  resource_type = c.resource_type;
  resource_id = c.resource_id;
  operation = c.operation;
  operation_class = c.operation_class;
  scope_selector = list_or_empty c.scope_selector;
  payload = c.payload;
  emitted_at = c.emitted_at;
  published_at = micros c.published_at;
  voided_at = micros c.voided_at;
}

-- the row that scanConflicts makes
unfoldable pub to_conflict_record : ConflictColumns → ConflictRecord
to_conflict_record c = record {
  conflict_id = c.conflict_id;
  intent_id_a = c.intent_id_a;
  intent_id_b = c.intent_id_b;
  agent_id_a = c.agent_id_a;
  agent_id_b = c.agent_id_b;
  resource_type = c.resource_type;
  resource_id = c.resource_id;
  reason = c.reason;
  resolution = c.resolution;
  manifest_version = text_or_empty c.manifest_version;
  detected_at = c.detected_at;
}

-- the row that scanAudit makes
unfoldable pub to_audit_record : AuditColumns → AuditRecord
to_audit_record c = record {
  audit_id = c.audit_id;
  principal = c.principal;
  caller_role = c.caller_role;
  endpoint = c.endpoint;
  query_params = c.query_params;
  record_count = c.record_count;
  intent_ids = list_or_empty c.intent_ids;
  stated_reason = text_or_empty c.stated_reason;
  accessed_at = c.accessed_at;
}

-- the database's casts from text: `$1::uuid`, each text of a `uuid[]`, and `$9::jsonb`
pub record Casts : Type 0 where
  pub uuid : String → String
  pub uuids : List String → List String
  pub jsonb : String → String

abbrev pub map_list : (List String → List String) → Option (List String) → Option (List String)
map_list f none = none
map_list f (some l) = some (f l)

-- intentValues, and the row that insertIntent adds of them
unfoldable pub intent_values : Casts → IntentRecord → IntentColumns
intent_values k r = record {
  intent_id = k.uuid r.intent_id;
  agent_id = r.agent_id;
  idempotency_key = k.uuid r.idempotency_key;
  resource_type = r.resource_type;
  resource_id = r.resource_id;
  operation = r.operation;
  operation_class = r.operation_class;
  scope_selector = r.scope_selector;
  payload = k.jsonb r.payload;
  emitted_at = r.emitted_at;
  published_at = from_micros r.published_at;
  voided_at = from_micros r.voided_at;
}

-- conflictValues and insertConflict
unfoldable pub conflict_values : Casts → ConflictRecord → ConflictColumns
conflict_values k r = record {
  conflict_id = k.uuid r.conflict_id;
  intent_id_a = k.uuid r.intent_id_a;
  intent_id_b = k.uuid r.intent_id_b;
  agent_id_a = r.agent_id_a;
  agent_id_b = r.agent_id_b;
  resource_type = r.resource_type;
  resource_id = r.resource_id;
  reason = r.reason;
  resolution = r.resolution;
  manifest_version = some r.manifest_version;
  detected_at = r.detected_at;
}

-- auditValues and insertAudit
unfoldable pub audit_values : Casts → AuditRecord → AuditColumns
audit_values k r = record {
  audit_id = k.uuid r.audit_id;
  principal = r.principal;
  caller_role = r.caller_role;
  endpoint = r.endpoint;
  query_params = k.jsonb r.query_params;
  record_count = r.record_count;
  intent_ids = map_list k.uuids r.intent_ids;
  stated_reason = some r.stated_reason;
  accessed_at = r.accessed_at;
}
