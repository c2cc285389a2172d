-- ===== src/Tests/Handlers.antt =====
-- The handler of a write, run to a refusal that may be retried and to a call.
use idemio.Prelude.{◌∷◌, ◌≡◌, refl, true, false, [], none, some, ok, any, select_where}
use idemio.Api.{write_not_executed}
use idemio.Api.Execute.{Call, State, call_downstream}
use idemio.Api.Identity.{read_identity, trim_space, to_lower, is_uuid}
use idemio.Api.Serialize.{Round, claim_with_serialization}
use idemio.Api.Write.{
  HttpRequest, Meets, handle_write, handle_as, handle_body, has_missing_field, lookup_operation,
  find_operation, admit, claim_and_answer, claim_request, after_claim, by_verdict, answer_call,
}
use idemio.Api.Write.Calls.{is_retryable, NothingRan, retryable-NothingRan}
use idemio.Api.Write.Won.{Won, called-Won}
use idemio.Claim.Resolve.{resolve_conflicts, judge}
use idemio.Claim.Statements.{
  insert_claim, record_intent, new_intent, conflicting_intents, in_window, by_latest,
}
use idemio.Claim.Transaction.{
  claim, locked, finish, commit_with, body, claim_key, won_claim, proceed, with_outcome,
}
use idemio.Downstream.{execute}
use idemio.Tables.{Server, LockReply}
use idemio.Manifest.Load.{lookup, find_type}
use idemio.Tests.Data.{healthy, no_rows_db, created, order_definition}

abbrev busy : Server
busy = record healthy { lock = LockReply.not_available }

abbrev last : Server → Round
last v = record { others = λ db. db; server = v; polls = [] }

abbrev call : Call
call = record { digest = λ s. s; results = none; wire = created; attempts = [] }

abbrev meets : Server → Meets
meets v = record {
  snapshot = record { version = "v1"; by_type = ("order", order_definition) ∷ [] };
  hash = λ r. ok "h";
  rounds = [];
  last = last v;
  waits = false;
  polls = [];
  retry_after_ms = 1000;
  call = call;
}

abbrev state : State
state = record { db = no_rows_db; bucket = record { held = λ n. none; puts = true; gets = true } }

abbrev write : HttpRequest
write = record {
  agent_header = "a";
  role_header = "agent";
  key_header = "0000000A-0000-0000-0000-000000000000";
  decoded = ok (record {
    agent_id = "a";
    resource_type = "order";
    resource_id = "1";
    operation = "set_price";
    payload = "{}";
  });
}

is_told_to_retry : is_retryable (handle_write (meets busy) write state).response ≡ true
unfolding handle_write handle_as handle_body has_missing_field lookup_operation find_operation
    lookup find_type admit claim_and_answer after_claim by_verdict read_identity trim_space to_lower
    is_uuid claim_with_serialization claim locked write_not_executed any
is_told_to_retry = refl

retryable-NothingRan_example : NothingRan (handle_write (meets busy) write state).called
retryable-NothingRan_example = retryable-NothingRan (meets busy) write state is_told_to_retry

is_called :
    (handle_write (meets healthy) write state).called
    ≡ some (execute created order_definition.errors)
unfolding handle_write handle_as handle_body has_missing_field lookup_operation find_operation
    lookup find_type admit claim_and_answer after_claim by_verdict answer_call call_downstream
    read_identity trim_space to_lower is_uuid claim_with_serialization claim locked finish
    commit_with body claim_key insert_claim won_claim proceed record_intent resolve_conflicts
    conflicting_intents in_window by_latest with_outcome any select_where judge new_intent
    claim_request
is_called = refl

called-Won_example : Won (meets healthy) write state
called-Won_example =
    called-Won (meets healthy) write state (execute created order_definition.errors) is_called
