-- ===== src/Claim.antt =====
-- internal/claim: the claim on an idempotency key, the one step on which at-most-once rests.
-- This file has the types of claim.go; the modules below have its statements, its two transactions
-- and what is proved of them.
pub mod Statements
pub mod Resolve
pub mod Transaction
pub mod Complete
use idemio.Prelude.{ℕ, String, Bool, true, false, ℤ}
use idemio.Manifest.{Operation}

pub data Verdict : Type 0 where
  claimed existing mismatch rejected serialize lock_timeout serialize_timeout : Verdict

pub data Status : Type 0 where
  pending done failed indeterminate rejected : Status

abbrev pub is_terminal : Status → Bool
is_terminal Status.pending = false
is_terminal _ = true

pub data Resolution : Type 0 where
  serialized rejected observed : Resolution

-- `lock_timeout` is part of the lock statement and only decides its reply, so it is not a field
pub record Request : Type 0 where
  pub agent_id : String
  pub key : String
  pub request_hash : String
  pub resource_type : String
  pub resource_id : String
  pub operation : String
  pub declared : Operation
  pub payload : String
  pub window : ℤ
  pub enforce : Bool
  pub manifest_version : String

-- a JSON value, a reference or a detail that is NULL in the table is the empty text here
pub record Record : Type 0 where
  pub agent_id : String
  pub key : String
  pub request_hash : String
  pub status : Status
  pub result : String
  pub result_ref : String
  pub outcome_detail : String
  pub attempt_count : ℕ

pub record Blocking : Type 0 where
  pub agent_id : String
  pub key : String

pub record Result : Type 0 where
  pub verdict : Verdict
  pub entry : Record
  pub intent_id : String
  pub collided : Bool
  pub lock_wait : ℕ
  pub blocking : Blocking
  pub seen : ℕ

-- Go's zero values
abbrev pub blank_record : Record
blank_record = record {
  agent_id = "";
  key = "";
  request_hash = "";
  status = Status.pending;
  result = "";
  result_ref = "";
  outcome_detail = "";
  attempt_count = 0;
}

-- `Result{Verdict: v}`
abbrev pub of_verdict : Verdict → Result
of_verdict v = record {
  verdict = v;
  entry = blank_record;
  intent_id = "";
  collided = false;
  lock_wait = 0;
  blocking = record { agent_id = ""; key = "" };
  seen = 0;
}

-- an intent as the conflict check reads it
pub record Intent : Type 0 where
  pub id : String
  pub agent_id : String
  pub key : String
  pub declared : Operation

-- the body of a 409, which json.Marshal encodes
pub record Rejection : Type 0 where
  pub idempotency_key : String
  pub status : Status
  pub reason : String
  pub detail : String
  pub conflicting_intent_id : String
  pub conflict_id : String
