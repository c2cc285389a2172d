-- ===== src/Claim/Transaction.antt =====
-- Claim of claim.go: one transaction, which begins with the lock on the resource.

pub mod Rollback
pub mod Keys
pub mod Effect
pub mod Alone
use idemio.Prelude.{
  ℕ, Bool, true, false, not, Option, none, some, ◌==◌, Except, ok, err, ◌>>=◌, if◌then◌else◌,
}
use idemio.Claim.{Verdict, Status, Request, Record, Result, of_verdict, blank_record}
use idemio.Claim.Statements.{is_failed, insert_claim, read_record, reclaim, record_intent}
use idemio.Claim.Resolve.{resolve_conflicts}
use idemio.Tables.{
  Db, Server, Step, Fault, LockReply, CommitReply, begin_tx, lock_failed, commit_refused,
  commit_lost, at,
}

-- a claim that was not fresh: the key has a row already
abbrev pub stale : Verdict → Record → Result × Bool
stale verdict found = (record (of_verdict verdict) { entry = found; collided = true }, false)

unfoldable pub after_reclaim : Record → Option ℕ → Result × Bool
after_reclaim found none = stale Verdict.existing (record found { status = Status.pending })
after_reclaim found (some attempt) = (
  record (of_verdict Verdict.claimed) {
    entry = record found {
      status = Status.pending;
      attempt_count = attempt;
      result = "";
      outcome_detail = "";
    };
    collided = true;
  },
  true,
)

-- the part of claimKey after a lost insert
unfoldable pub claim_found : Server → Request → Record → Db → Step (Result × Bool)
claim_found v req found db =
    if not (found.request_hash == req.request_hash)
    then ok (stale Verdict.mismatch found, db)
    else if not (is_failed found.status)
    then ok (stale Verdict.existing found, db)
    else (do (attempt, db) ← reclaim v req db; ok (after_reclaim found attempt, db))

unfoldable pub won_claim : Request → Result
won_claim req = record (of_verdict Verdict.claimed) {
  entry = record blank_record {
    agent_id = req.agent_id;
    key = req.key;
    request_hash = req.request_hash;
    attempt_count = 1;
  };
}

-- claimKey: the result, and whether the claim is fresh
unfoldable pub claim_key : Server → Request → Db → Step (Result × Bool)
claim_key v req db = do
  (won, db) ← insert_claim v req db
  if won
      then ok ((won_claim req, true), db)
      else do (found, db) ← read_record v req.agent_id req.key db; claim_found v req found db

-- the fields that Claim takes over from the conflict check
unfoldable pub with_outcome : Result → Result → Result
with_outcome result outcome =
    let judged : Result = record result {
      verdict = outcome.verdict;
      seen = outcome.seen;
      blocking = outcome.blocking;
    } in
    elim outcome.verdict [
      | Verdict.rejected ↦ record judged {
        entry = record result.entry {
          status = Status.rejected;
          result = outcome.entry.result;
          outcome_detail = outcome.entry.outcome_detail;
        };
      }
      | _ ↦ judged
    ]

abbrev pub is_serialize : Verdict → Bool
is_serialize Verdict.serialize = true
is_serialize _ = false

-- Claim from recordIntent on; the flag says that the transaction is committed
unfoldable pub proceed : Server → Request → Result → Db → Step (Result × Bool)
proceed v req result db = do
  (row, db) ← record_intent v req db
  (outcome, db) ← resolve_conflicts v req row db
  ok (
    (
      with_outcome (record result { intent_id = row.intent_id }) outcome,
      not (is_serialize outcome.verdict),
    ),
    db,
  )

unfoldable pub body : Server → Request → Db → Step (Result × Bool)
body v req db = do
  (key, db) ← claim_key v req db
  let result : Result = record (key.0) { lock_wait = v.lock_wait }
  if key.1 then proceed v req result db else ok ((result, false), db)

-- the tables after the deferred rollback or the commit, and what the caller gets
unfoldable pub commit_with : Server → Db → Db → Result → Db × Except Fault Result
commit_with v before after result = elim v.commit [
  | CommitReply.applied ↦ (after, ok result)
  | CommitReply.refused ↦ (before, err commit_refused)
  | CommitReply.lost ↦ (after, err commit_lost)
]

unfoldable pub finish : Server → Db → Except Fault ((Result × Bool) × Db) → Db × Except Fault Result
finish v db (err e) = (db, err e)
finish v db (ok ((result, false), after)) = (db, ok result)
finish v db (ok ((result, true), after)) = commit_with v db after result

unfoldable pub locked : Server → Request → Db → Db × Except Fault Result
locked v req db = elim v.lock [
  | LockReply.acquired ↦ finish v db (body v req db)
  | LockReply.not_available ↦
      (db, ok (record (of_verdict Verdict.lock_timeout) { lock_wait = v.lock_wait }))
  | LockReply.broken ↦ (db, err lock_failed)
]

unfoldable pub claim : Server → Request → Db → Db × Except Fault Result
claim v req db = if v.fails begin_tx then (db, err (at begin_tx)) else locked v req db
