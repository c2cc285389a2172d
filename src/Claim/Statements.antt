-- ===== src/Claim/Statements.antt =====
-- The SQL statements of claim.go and resolve.go that the claim transaction runs.
use idemio.Prelude.{
  ℕ, suc, ◌+◌, String, Bool, true, false, not, ◌&&◌, Option, none, some, List, [], ◌∷◌, map, ◌==◌,
  ltb, leb, ℤ, pos, negsuc, Except, ok, err, select_where, update_where, find_where, any,
  if◌then◌else◌,
}
use mathlib.Core.Option
use idemio.Claim.{Status, Request, Record, Intent}
use idemio.Conflict.{compatible}
use idemio.Tables.{
  KeyRow, IntentRow, Server, Step, Db, Fault, insert_key, select_key, reclaim_key, insert_intent,
  select_window, no_rows, exec, is_key,
}

abbrev pub is_failed : Status → Bool
is_failed Status.failed = true
is_failed _ = false

-- the row that `insertKey` adds, with the defaults of the table
unfoldable pub new_key : Server → Request → KeyRow
new_key v req = record {
  agent_id = req.agent_id;
  idempotency_key = req.key;
  request_hash = req.request_hash;
  status = Status.pending;
  resource_type = req.resource_type;
  resource_id = req.resource_id;
  operation = req.operation;
  result = none;
  result_ref = none;
  outcome_detail = none;
  attempt_count = 1;
  created_at = v.now;
  claimed_at = v.now;
  completed_at = none;
}

-- insertClaim: ON CONFLICT DO NOTHING, and whether a row came back
unfoldable pub insert_claim : Server → Request → Db → Step Bool
insert_claim v req db = exec v insert_key (
    if any (is_key req.agent_id req.key) db.keys
    then ok (false, db)
    else ok (true, record db { keys = new_key v req ∷ db.keys }))

-- `coalesce(column, '')`
abbrev pub or_empty : Option String → String
or_empty none = ""
or_empty (some s) = s

abbrev pub to_record : KeyRow → Record
to_record r = record {
  agent_id = r.agent_id;
  key = r.idempotency_key;
  request_hash = r.request_hash;
  status = r.status;
  result = or_empty r.result;
  result_ref = or_empty r.result_ref;
  outcome_detail = or_empty r.outcome_detail;
  attempt_count = r.attempt_count;
}

abbrev pub found_record : Option KeyRow → Db → Step Record
found_record none db = err no_rows
found_record (some r) db = ok (to_record r, db)

-- readRecord, in a transaction or on the pool
unfoldable pub read_record : Server → String → String → Db → Step Record
read_record v agent key db =
    exec v select_key (found_record (find_where (is_key agent key) db.keys) db)

-- Lookup: a key with no row is no error
unfoldable pub lookup : Server → String → String → Db → Except Fault (Option Record)
lookup v agent key db = elim (read_record v agent key db) [
  | ok (r, _) ↦ ok (some r)
  | err no_rows ↦ ok none
  | err e ↦ err e
]

-- `SET` of reclaimKey
unfoldable pub reclaimed : Server → KeyRow → KeyRow
reclaimed v r = record r {
  status = Status.pending;
  claimed_at = v.now;
  completed_at = none;
  attempt_count = r.attempt_count + 1;
  result = none;
  result_ref = none;
  outcome_detail = none;
}

-- `WHERE` of reclaimKey
abbrev pub is_lapsed : Request → KeyRow → Bool
is_lapsed req r = is_key req.agent_id req.key r && is_failed r.status

-- reclaim: `none` is ErrNoRows, a row that is no longer failed
unfoldable pub reclaim : Server → Request → Db → Step (Option ℕ)
reclaim v req db = exec v reclaim_key (
    ok (
      Option.map (λ (r : KeyRow). r.attempt_count + 1) (find_where (is_lapsed req) db.keys),
      record db { keys = update_where (is_lapsed req) (reclaimed v) db.keys },
    ))

unfoldable pub new_intent : Server → Request → IntentRow
new_intent v req = record {
  intent_id = v.uuid 0;
  agent_id = req.agent_id;
  idempotency_key = req.key;
  resource_type = req.resource_type;
  resource_id = req.resource_id;
  operation = req.operation;
  declared = req.declared;
  payload = v.jsonb req.payload;
  emitted_at = v.now;
  published_at = none;
  voided_at = none;
}

-- recordIntent; the cast to operation_class is among what `fails` stands for
unfoldable pub record_intent : Server → Request → Db → Step IntentRow
record_intent v req db =
    exec v insert_intent
      (ok (new_intent v req, record db { intents = new_intent v req ∷ db.intents }))

-- `emitted_at > now() - window`
abbrev pub within_window : ℤ → ℕ → ℕ → Bool
within_window (pos w) now t = ltb now (t + w)
within_window (negsuc w) now t = ltb (now + suc w) t

abbrev pub is_live : Option ℕ → Bool
is_live none = true
is_live (some t) = false

-- the `WHERE` of selectWindow
unfoldable pub in_window : Server → Request → String → IntentRow → Bool
in_window v req exclude i =
    i.resource_type == req.resource_type
    && (i.resource_id == req.resource_id
        && (within_window req.window v.now i.emitted_at
            && (is_live i.voided_at && not (i.intent_id == exclude))))

-- `ORDER BY emitted_at DESC`; rows of one time stay in table order
unfoldable pub insert_latest : IntentRow → List IntentRow → List IntentRow
insert_latest i [] = i ∷ []
insert_latest i (j ∷ rest) =
    if leb j.emitted_at i.emitted_at then i ∷ j ∷ rest else j ∷ insert_latest i rest

unfoldable pub by_latest : List IntentRow → List IntentRow
by_latest [] = []
by_latest (i ∷ rest) = insert_latest i (by_latest rest)

abbrev pub to_intent : IntentRow → Intent
to_intent i = record {
  id = i.intent_id;
  agent_id = i.agent_id;
  key = i.idempotency_key;
  declared = i.declared;
}

-- conflictingIntents
unfoldable pub conflicting_intents : Server → Request → String → Db → Step (List Intent)
conflicting_intents v req exclude db = exec v select_window (
    ok (
      select_where (λ (c : Intent). not (compatible req.declared c.declared))
          (map to_intent (by_latest (select_where (in_window v req exclude) db.intents))),
      db,
    ))
