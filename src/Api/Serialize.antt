-- ===== src/Api/Serialize.antt =====
-- claimWithSerialization and waitForTerminal of internal/api/api.go: a write that must run after an
-- earlier one of the same agent waits for it and claims again.
pub mod Waits
use idemio.Prelude.{
  ℕ, String, Bool, true, false, not, ◌||◌, Option, none, some, List, [], ◌∷◌, Except, ok, err,
  if◌then◌else◌,
}
use idemio.Claim.{Verdict, Status, Request, Record, Blocking, Result}
use idemio.Claim.Statements.{lookup}
use idemio.Claim.Complete.{is_pending}
use idemio.Claim.Transaction.{claim}
use idemio.Tables.{Db, Server, Fault}

-- One look at the tables: what the other processes do before it, its transaction, and whether the
-- caller's context is done after it.
pub record Poll : Type 0 where
  pub others : Db → Db
  pub server : Server
  pub cancelled : Bool

-- One pass of the loop of claimWithSerialization, with the polls that it makes before the deadline.
pub record Round : Type 0 where
  pub others : Db → Db
  pub server : Server
  pub polls : List Poll

abbrev pub is_serialize : Verdict → Bool
is_serialize Verdict.serialize = true
is_serialize _ = false

-- what a lookup says of the wait: nothing yet, or its answer
unfoldable pub wait_answer : Except Fault (Option Record) → Option Bool
wait_answer (err e) = some false
wait_answer (ok none) = some true
wait_answer (ok (some r)) = if is_pending r.status then none else some true

-- waitForTerminal: the list ends when the deadline has passed
unfoldable pub wait_for_terminal : Blocking → List Poll → Db → Bool × Db
wait_for_terminal b [] db = (false, db)
wait_for_terminal b (p ∷ polls) db =
    let after = p.others db in
    let rest = wait_for_terminal b polls after in
    elim (wait_answer (lookup p.server b.agent_id b.key after)) [
      | some answer ↦ (answer, after)
      | none ↦ if p.cancelled then (false, after) else rest
    ]

abbrev pub timed_out : Result → Result
timed_out r = record r { verdict = Verdict.serialize_timeout }

abbrev pub is_decided : Except Fault Result → Bool
is_decided (err e) = true
is_decided (ok r) = not (is_serialize r.verdict)

abbrev pub expire : Except Fault Result → Except Fault Result
expire (err e) = err e
expire (ok r) = ok (timed_out r)

abbrev pub blocked_by : Except Fault Result → Blocking
blocked_by (err e) = record { agent_id = ""; key = "" }
blocked_by (ok r) = r.blocking

-- claimWithSerialization: rounds made before the deadline, and the last, whose wait is past it
unfoldable pub claim_with_serialization :
    Request → List Round → Round → Db → Db × Except Fault Result
claim_with_serialization req [] last db =
    let (after, reply) = claim last.server req (last.others db) in
    if is_decided reply then (after, reply) else (after, expire reply)
claim_with_serialization req (r ∷ rounds) last db =
    let (after, reply) = claim r.server req (r.others db) in
    let (ended, waited) = wait_for_terminal (blocked_by reply) r.polls after in
    let rest = claim_with_serialization req rounds last waited in
    if is_decided reply then (after, reply) else if ended then rest else (waited, expire reply)
