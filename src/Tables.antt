-- ===== src/Tables.antt =====
-- migrations: the three tables of the claim, as lists of rows, and what a transaction meets of the
-- database server. The server is not part of the repository: its clock, its identifiers, its jsonb
-- and its failures are the parameter `Server`.
pub mod Laws
use idemio.Prelude.{ℕ, String, Bool, ◌&&◌, Option, List, ◌==◌, Except, ok, err, if◌then◌else◌}
use idemio.Manifest.{Operation}
use idemio.Claim.{Status, Resolution, Rejection}

pub record KeyRow : Type 0 where
  pub agent_id : String
  pub idempotency_key : String
  pub request_hash : String
  pub status : Status
  pub resource_type : String
  pub resource_id : String
  pub operation : String
  pub result : Option String
  pub result_ref : Option String
  pub outcome_detail : Option String
  pub attempt_count : ℕ
  pub created_at : ℕ
  pub claimed_at : ℕ
  pub completed_at : Option ℕ

-- `declared` is operation_class and scope_selector
pub record IntentRow : Type 0 where
  pub intent_id : String
  pub agent_id : String
  pub idempotency_key : String
  pub resource_type : String
  pub resource_id : String
  pub operation : String
  pub declared : Operation
  pub payload : String
  pub emitted_at : ℕ
  pub published_at : Option ℕ
  pub voided_at : Option ℕ

pub record ConflictRow : Type 0 where
  pub conflict_id : String
  pub intent_id_a : String
  pub intent_id_b : String
  pub agent_id_a : String
  pub agent_id_b : String
  pub resource_type : String
  pub resource_id : String
  pub reason : String
  pub resolution : Resolution
  pub detected_at : ℕ
  pub manifest_version : String

pub record Db : Type 0 where
  pub keys : List KeyRow
  pub intents : List IntentRow
  pub conflicts : List ConflictRow

-- the statements, named after their constants
pub data Stmt : Type 0 where
  begin_tx insert_key select_key reclaim_key insert_intent select_window select_statuses : Stmt
  insert_conflict reject_key void_intent complete_key void_latest_intent : Stmt

pub data Fault : Type 0 where
  at : Stmt → Fault
  no_rows lock_failed encode_failed commit_refused commit_lost : Fault

-- `not_available` is SQLSTATE 55P03
pub data LockReply : Type 0 where
  acquired not_available broken : LockReply

-- a commit may also be applied and its reply lost
pub data CommitReply : Type 0 where
  applied refused lost : CommitReply

-- What one transaction meets: now() is its start, `uuid` gives the identifiers that it draws in
-- order, and `fails` the statements that return an error.
pub record Server : Type 0 where
  pub now : ℕ
  pub uuid : ℕ → String
  pub jsonb : String → String
  pub encode : Rejection → Except Fault String
  pub fails : Stmt → Bool
  pub lock : LockReply
  pub lock_wait : ℕ
  pub commit : CommitReply

-- A statement takes the tables as its transaction sees them, and returns them with its result.
abbrev pub Step : Type 0 → Type 0
Step A = Except Fault (A × Db)

-- a statement, unless the server fails it
abbrev pub exec : {A : Type 0} → Server → Stmt → Step A → Step A
exec v s result = if v.fails s then err (at s) else result

-- `WHERE agent_id = $1 AND idempotency_key = $2`
abbrev pub is_key : String → String → KeyRow → Bool
is_key agent key r = r.agent_id == agent && r.idempotency_key == key
