-- ===== src/Claim/Resolve.antt =====
-- internal/claim/resolve.go: what a claim does with the live intents that conflict with it.
pub mod Effects
pub mod Alone
use Prim.Native.String.{◌++◌ as ◌⧺◌}
use mathlib.Core.Option
use idemio.Prelude.{
  ℕ, suc, String, Bool, false, not, ◌&&◌, ◌||◌, Option, none, some, List, [], ◌∷◌, ◌==◌, ltb, eqb,
  length, take, ok, err, select_where, update_where, find_where, any, if◌then◌else◌, ◌>>=◌,
}
use idemio.Claim.{
  Verdict, Status, Resolution, Request, Result, Intent, is_terminal, of_verdict, blank_record,
}
use idemio.Claim.Statements.{conflicting_intents}
use idemio.Conflict.{reason}
use idemio.Tables.{
  KeyRow, IntentRow, ConflictRow, Server, Step, select_statuses, insert_conflict, reject_key,
  void_intent, no_rows, exec, is_key, Db,
}

abbrev pub max_recorded_conflicts : ℕ
max_recorded_conflicts = 10

-- the row of `insertConflict`
unfoldable pub new_conflict : Server → Request → String → Resolution → ℕ → Intent → ConflictRow
new_conflict v req intent_id resolution n c = record {
  conflict_id = v.uuid n;
  intent_id_a = intent_id;
  intent_id_b = c.id;
  agent_id_a = req.agent_id;
  agent_id_b = c.agent_id;
  resource_type = req.resource_type;
  resource_id = req.resource_id;
  reason = reason req.declared c.declared;
  resolution = resolution;
  detected_at = v.now;
  manifest_version = req.manifest_version;
}

-- the loop of recordConflicts; the first identifier is the one returned
unfoldable pub insert_conflicts :
    Server → Request → String → Resolution → ℕ → List Intent → Db → Step String
insert_conflicts v req intent_id resolution n [] db = ok ("", db)
insert_conflicts v req intent_id resolution n (c ∷ cs) db =
    let rest =
      insert_conflicts v req intent_id resolution (suc n) cs
        (record db { conflicts = new_conflict v req intent_id resolution n c ∷ db.conflicts }) in
    exec v insert_conflict (do (_, after) ← rest; ok (v.uuid n, after))

-- `candidates[:maxRecordedConflicts]`, when there are more
unfoldable pub capped : List Intent → List Intent
capped cs = if ltb max_recorded_conflicts (length cs) then take max_recorded_conflicts cs else cs

-- recordConflicts; the intent's own row drew identifier 0
unfoldable pub record_conflicts :
    Server → Request → String → List Intent → Resolution → Db → Step String
record_conflicts v req intent_id candidates resolution db =
    insert_conflicts v req intent_id resolution 1 (capped candidates) db

unfoldable pub has_id : String → List Intent → Bool
has_id key [] = false
has_id key (c ∷ cs) = key == c.key || has_id key cs

unfoldable pub is_in_flight : String → List Intent → KeyRow → Bool
is_in_flight agent candidates r =
    (r.agent_id == agent && has_id r.idempotency_key candidates) && not (is_terminal r.status)

-- `agent_id = $1 AND idempotency_key = ANY($2) ` and the first row that is not terminal; a UUID is
-- never the empty text, so Go's "" is `none`
unfoldable pub first_pending : Server → String → List Intent → Db → Step (Option String)
first_pending v agent candidates db = exec v select_statuses (
    ok (
      Option.map (λ (r : KeyRow). r.idempotency_key)
          (find_where (is_in_flight agent candidates) db.keys),
      db,
    ))

-- `SET` of rejectKey
unfoldable pub rejected_row : Server → String → String → KeyRow → KeyRow
rejected_row v body detail r = record r {
  status = Status.rejected;
  completed_at = some v.now;
  result = some (v.jsonb body);
  outcome_detail = some detail;
}

-- rejectKey: the row's result as jsonb stored it
unfoldable pub reject_stored : Server → Request → String → String → Db → Step String
reject_stored v req body detail db = exec v reject_key (
    if any (is_key req.agent_id req.key) db.keys
    then ok (
      v.jsonb body,
      record db {
        keys = update_where (is_key req.agent_id req.key) (rejected_row v body detail) db.keys;
      },
    )
    else err no_rows)

abbrev pub void_at : Server → IntentRow → IntentRow
void_at v i = record i { voided_at = some v.now }

-- `WHERE intent_id = $1 AND emitted_at = $2`
abbrev pub is_row : IntentRow → IntentRow → Bool
is_row row i = i.intent_id == row.intent_id && eqb i.emitted_at row.emitted_at

-- voidIntent
unfoldable pub void_row : Server → IntentRow → Db → Step (Unit {0})
void_row v row db =
    exec v void_intent
      (ok (tt, record db { intents = update_where (is_row row) (void_at v) db.intents }))

unfoldable pub rejection_detail : Request → Intent → String
rejection_detail req primary =
    reason req.declared primary.declared ⧺ " on " ⧺ req.resource_type ⧺ ":" ⧺ req.resource_id

-- reject, with `others[0]` as `primary`
unfoldable pub reject : Server → Request → IntentRow → Intent → List Intent → Db → Step Result
reject v req row primary all db = do
  (conflict_id, db) ← record_conflicts v req row.intent_id all Resolution.rejected db
  let detail = rejection_detail req primary
  body ← v.encode (record {
    idempotency_key = req.key;
    status = Status.rejected;
    reason = "conflicting_write";
    detail = detail;
    conflicting_intent_id = primary.id;
    conflict_id = conflict_id;
  })
  (stored, db) ← reject_stored v req body detail db
  (_, db) ← void_row v row db
  ok (
    record (of_verdict Verdict.rejected) {
      entry = record blank_record { result = stored; outcome_detail = detail };
    },
    db,
  )

-- the end of resolveConflicts: nobody else conflicts
unfoldable pub serialize_or_proceed :
    Server → Request → IntentRow → List Intent → Option String → Db → Step Result
serialize_or_proceed v req row same (some key) db = ok (
  record (of_verdict Verdict.serialize) {
    blocking = record { agent_id = req.agent_id; key = key };
  },
  db,
)
serialize_or_proceed v req row same none db = do
  (_, db) ← record_conflicts v req row.intent_id same Resolution.serialized db
  ok (of_verdict Verdict.claimed, db)

-- `len(others) > 0`
unfoldable pub enforce_on :
    Server → Request → IntentRow → List Intent → List Intent → List Intent → Db → Step Result
enforce_on v req row all same (primary ∷ others) db = reject v req row primary all db
enforce_on v req row all same [] db = do
  (blocking, db) ← first_pending v req.agent_id same db
  serialize_or_proceed v req row same blocking db

abbrev pub is_own : Request → Intent → Bool
is_own req c = c.agent_id == req.agent_id

-- resolveConflicts once the candidates are read
unfoldable pub judge : Server → Request → IntentRow → List Intent → Db → Step Result
judge v req row [] db = ok (of_verdict Verdict.claimed, db)
judge v req row (c ∷ cs) db =
    if not req.enforce
    then (do
      (_, db) ← record_conflicts v req row.intent_id (c ∷ cs) Resolution.observed db
      ok (record (of_verdict Verdict.claimed) { seen = length (c ∷ cs) }, db))
    else enforce_on v req row (c ∷ cs) (select_where (is_own req) (c ∷ cs))
        (select_where (λ d. not (is_own req d)) (c ∷ cs)) db

unfoldable pub resolve_conflicts : Server → Request → IntentRow → Db → Step Result
resolve_conflicts v req row db = do
  (candidates, db) ← conflicting_intents v req row.intent_id db
  judge v req row candidates db
