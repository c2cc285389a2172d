-- ===== src/Tests/Data.antt =====
-- A server, a request and tables to run the model on.
use idemio.Prelude.{true, false, none, [], ◌∷◌, arith, ok, pos, count_where}
use idemio.Claim.{Status, Request}
use idemio.Downstream.{Wire, answered}
use idemio.Manifest.{Operation, ErrorClassification, Definition, Document}
use idemio.ResultStore.{Placement, keep_inline}
use idemio.Tables.{KeyRow, Db, Server, LockReply, CommitReply}
use idemio.Tables.Laws.{IsUnique}

abbrev pub healthy : Server
healthy = record {
  now = 100;
  uuid = λ n. "u";
  jsonb = λ s. s;
  encode = λ r. ok "{}";
  fails = λ s. false;
  lock = LockReply.acquired;
  lock_wait = 0;
  commit = CommitReply.applied;
}

abbrev pub replace_order : Operation
replace_order = record { class = "mutate"; scope = "price.net" ∷ [] }

abbrev pub request : Request
request = record {
  agent_id = "a";
  key = "k";
  request_hash = "h";
  resource_type = "order";
  resource_id = "1";
  operation = "set_price";
  declared = replace_order;
  payload = "{}";
  window = pos 1000;
  enforce = false;
  manifest_version = "v1";
}

abbrev pub no_rows_db : Db
no_rows_db = record { keys = []; intents = []; conflicts = [] }

pub no_rows-IsUnique : IsUnique no_rows_db
unfolding count_where
no_rows-IsUnique a k = omega arith

abbrev pub row : Status → KeyRow
row s = record {
  agent_id = "a";
  idempotency_key = "k";
  request_hash = "h";
  status = s;
  resource_type = "order";
  resource_id = "1";
  operation = "set_price";
  result = none;
  result_ref = none;
  outcome_detail = none;
  attempt_count = 1;
  created_at = 10;
  claimed_at = 10;
  completed_at = none;
}

abbrev pub one_row_db : Status → Db
one_row_db s = record { keys = row s ∷ []; intents = []; conflicts = [] }

pub one_row-IsUnique : (s : Status) → IsUnique (one_row_db s)
unfolding count_where
one_row-IsUnique s a k = ground arith

abbrev pub classification : ErrorClassification
classification = record {
  definitive = (record { from = pos 200; to = pos 299 }) ∷ [];
  not_executed = (record { from = pos 400; to = pos 499 }) ∷ [];
}

-- a downstream that answers 201 to a write that ran
abbrev pub created : Wire
created = record {
  encode_error = none;
  build_error = none;
  reply = answered (pos 201) "{}";
  is_json = λ s. true;
  raw_json = λ s. s;
  decimal = λ n. "201";
}

abbrev pub inline_placement : Placement
inline_placement = keep_inline "{}" false

abbrev pub order_document : Document
order_document = record {
  resource_type = "order";
  conflict_window_ms = pos 1000;
  enforce = true;
  probe_path = "/probe";
  operations = ("set_price", replace_order) ∷ [];
  errors = classification;
}

abbrev pub order_definition : Definition
order_definition = record {
  type = "order";
  conflict_window = pos 1000000000;
  enforce = true;
  probe_path = "/probe";
  operations = ("set_price", replace_order) ∷ [];
  errors = classification;
}
