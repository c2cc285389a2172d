-- ===== src/Claim/Complete.antt =====
-- Complete of internal/claim/resolve.go: the outcome of a write is recorded once, on a key that is
-- still pending, and a failed write's intent stops counting in the same transaction.
pub mod Effect
use idemio.Prelude.{
  ℕ, String, Bool, true, false, not, ◌&&◌, Option, none, some, List, [], ◌∷◌, ◌==◌, eqb, Except, ok,
  err, select_where, update_where, count_where, ◌>>=◌, if◌then◌else◌,
}
use idemio.Claim.{Status}
use idemio.Claim.Statements.{is_failed, is_live, by_latest}
use idemio.Claim.Resolve.{void_at, is_row}
use idemio.Tables.{
  KeyRow, IntentRow, Db, Server, Step, Fault, CommitReply, begin_tx, complete_key,
  void_latest_intent, commit_refused, commit_lost, at, exec, is_key,
}

abbrev pub is_pending : Status → Bool
is_pending Status.pending = true
is_pending _ = false

-- an empty value is stored as NULL
abbrev pub nullable : String → Option String
nullable s = if s == "" then none else some s

-- what the caller learnt of the write
pub record Completion : Type 0 where
  pub status : Status
  pub result : String
  pub result_ref : String
  pub detail : String

-- `SET` of completeKey; the column `result` is jsonb
unfoldable pub completed : Server → Completion → KeyRow → KeyRow
completed v c r = record r {
  status = c.status;
  result = if c.result == "" then none else some (v.jsonb c.result);
  result_ref = nullable c.result_ref;
  outcome_detail = nullable c.detail;
  completed_at = some v.now;
}

-- `WHERE` of completeKey
abbrev pub is_open : String → String → KeyRow → Bool
is_open agent key r = is_key agent key r && is_pending r.status

-- CONSTRAINT result_inline_xor_ref
abbrev pub has_both : Completion → Bool
has_both c = not (c.result == "") && not (c.result_ref == "")

-- completeKey, with the number of rows it touched
unfoldable pub complete_row : Server → String → String → Completion → Db → Step ℕ
complete_row v agent key c db = exec v complete_key (
    if has_both c && not (eqb (count_where (is_open agent key) db.keys) 0)
    then err (at complete_key)
    else ok (
      count_where (is_open agent key) db.keys,
      record db { keys = update_where (is_open agent key) (completed v c) db.keys },
    ))

abbrev pub is_live_of : String → String → IntentRow → Bool
is_live_of agent key i = (i.agent_id == agent && i.idempotency_key == key) && is_live i.voided_at

abbrev pub void_newest : Server → List IntentRow → List IntentRow → List IntentRow
void_newest v [] intents = intents
void_newest v (row ∷ rest) intents = update_where (is_row row) (void_at v) intents

-- voidLatestIntent
unfoldable pub void_latest : Server → String → String → Db → Step (Unit {0})
void_latest v agent key db = exec v void_latest_intent (
    ok (
      tt,
      record db {
        intents =
            void_newest v (by_latest (select_where (is_live_of agent key) db.intents)) db.intents;
      },
    ))

unfoldable pub after_update : Server → String → String → Completion → ℕ → Db → Step Bool
after_update v agent key c touched db =
    if not (eqb touched 1)
    then ok (false, db)
    else if is_failed c.status
    then (do (_, db) ← void_latest v agent key db; ok (true, db))
    else ok (true, db)

unfoldable pub finish : Server → Db → Except Fault (Bool × Db) → Db × Except Fault Bool
finish v before (err e) = (before, err e)
finish v before (ok (false, after)) = (before, ok false)
finish v before (ok (true, after)) = elim v.commit [
  | CommitReply.applied ↦ (after, ok true)
  | CommitReply.refused ↦ (before, err commit_refused)
  | CommitReply.lost ↦ (after, err commit_lost)
]

unfoldable pub complete : Server → String → String → Completion → Db → Db × Except Fault Bool
complete v agent key c db =
    if v.fails begin_tx
    then (db, err (at begin_tx))
    else finish v db
        (do (touched, db) ← complete_row v agent key c db; after_update v agent key c touched db)
