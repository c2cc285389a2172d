-- ===== src/Fake.antt =====
-- cmd/fakedownstream: the downstream of the drills, whose ledger is the oracle for what was executed.
-- JSON, the file of the ledger and the clock are the parameter `Host`.
pub mod Oracle
pub mod Listener
use idemio.Prelude.{
  ℕ, suc, ◌+◌, String, Bool, true, false, Option, none, some, List, [], ◌∷◌, ◌++◌, ◌==◌, length, ℤ,
  pos, Except, ok, err, if◌then◌else◌,
}
use idemio.Downstream.{Reply, answered, transport_error}

pub record Execution : Type 0 where
  pub sequence : ℕ
  pub correlation_id : String
  pub resource_type : String
  pub resource_id : String
  pub operation : String
  pub behavior : String
  pub received_at : ℕ

-- the ledger in memory, with its index by correlation
pub record Ledger : Type 0 where
  pub records : List Execution
  pub by_id : String → List Execution

-- what one request meets; `durable` ledgers sync their file
pub record Host : Type 0 where
  pub now : ℕ
  pub encode_fails : Bool
  pub write_fails : Bool
  pub durable : Bool
  pub sync_fails : Bool
  pub json : List (String × String) → String
  pub decimal : ℕ → String

pub data LedgerFault : Type 0 where
  encode_failed write_failed sync_failed : LedgerFault

unfoldable pub append_record : Execution → Ledger → Ledger
append_record e l = record {
  records = l.records ++ (e ∷ []);
  by_id = λ id. if id == e.correlation_id then l.by_id id ++ (e ∷ []) else l.by_id id;
}

-- ledger.record: the ledger, and the record with its sequence
unfoldable pub record_execution : Host → Execution → Ledger → Ledger × Except LedgerFault Execution
record_execution h e l =
    let numbered = record e { sequence = suc (length l.records) } in
    if h.encode_fails
    then (l, err encode_failed)
    else if h.write_fails
    then (l, err write_failed)
    else if h.durable
    then (if h.sync_fails then (l, err sync_failed) else (append_record numbered l, ok numbered))
    else (append_record numbered l, ok numbered)

-- ledger.byCorrelation
unfoldable pub by_correlation : Ledger → String → List Execution
by_correlation l id = if id == "" then l.records else l.by_id id

abbrev pub behavior_succeed : String
behavior_succeed = "succeed"

abbrev pub behavior_business_failure : String
behavior_business_failure = "business-failure"

abbrev pub behavior_hang : String
behavior_hang = "hang"

abbrev pub behavior_refuse : String
behavior_refuse = "refuse"

-- scripts: the behaviours that are queued for a resource
abbrev pub Scripts : Type 0
Scripts = String → List String

unfoldable pub install : String → List String → Scripts → Scripts
install resource behaviors s = λ id. if id == resource then behaviors else s id

abbrev pop_queue : List String → String → Scripts → String × Scripts
pop_queue [] resource s = (behavior_succeed, s)
pop_queue (b ∷ queued) resource s = (b, install resource queued s)

unfoldable pub pop : String → Scripts → String × Scripts
pop resource s = pop_queue (s resource) resource s

-- executeRequest, less the payload, which the fake does not read
pub record ExecuteRequest : Type 0 where
  pub resource_type : String
  pub resource_id : String
  pub operation : String

pub record FakeState : Type 0 where
  pub ledger : Ledger
  pub scripts : Scripts

-- The answer to a recorded execution. One that hangs is never answered; a slow one is the default
-- after a pause.
unfoldable pub answer_recorded : Host → String → Execution → Reply
answer_recorded h behavior e =
    if behavior == behavior_business_failure
    then answered (pos 422)
        (h.json (("status", "rejected") ∷ ("reason", "insufficient_funds") ∷ []))
    else if behavior == behavior_hang
    then transport_error "no answer"
    else answered (pos 200)
        (h.json (("status", "applied") ∷ ("sequence", h.decimal e.sequence) ∷ []))

abbrev pub answer_record : Host → String → Except LedgerFault Execution → Reply
answer_record h behavior (err f) = answered (pos 500) (h.json (("error", "ledger") ∷ []))
answer_record h behavior (ok e) = answer_recorded h behavior e

abbrev pub execution_of : Host → String → ExecuteRequest → String → Execution
execution_of h correlation req behavior = record {
  sequence = 0;
  correlation_id = correlation;
  resource_type = req.resource_type;
  resource_id = req.resource_id;
  operation = req.operation;
  behavior = behavior;
  received_at = h.now;
}

-- handleExecute once the behaviour is known
unfoldable pub act : Host → String → ExecuteRequest → String → FakeState → FakeState × Reply
act h correlation req behavior s =
    let result = record_execution h (execution_of h correlation req behavior) s.ledger in
    if behavior == behavior_refuse
    then (s, answered (pos 429) (h.json (("status", "refused") ∷ ("reason", "rate_limited") ∷ [])))
    else (record s { ledger = result.0 }, answer_record h behavior result.1)

-- handleExecute: the correlation header and the decoded body
unfoldable pub handle_execute :
    Host → String → Option ExecuteRequest → FakeState → FakeState × Reply
handle_execute h correlation none s =
    (s, answered (pos 400) (h.json (("error", "malformed body") ∷ [])))
handle_execute h correlation (some req) s =
    let popped = pop req.resource_id s.scripts in
    act h correlation req popped.0 (record s { scripts = popped.1 })

-- handleProbe: the count and the executions
unfoldable pub handle_probe : FakeState → String → ℕ × List Execution
handle_probe s id = let found = by_correlation s.ledger id in (length found, found)

-- handleScript, on a decoded body
unfoldable pub handle_script : String → List String → FakeState → FakeState
handle_script resource behaviors s = record s { scripts = install resource behaviors s.scripts }
