-- ===== src/World.antt =====
-- The system seen from one key: the tables, the downstream's own count of the executions of that
-- key, and the processes that are at work on it, as a step relation. The steps are the code's
-- transactions and calls; a process may stop at any of them, and they may come in any order. A call
-- is one step, so a request that takes effect does so before its call returns; only one whose process
-- stopped may take effect at any later time.
pub mod Invariant
pub mod Steps
pub mod AtMostOnce
use idemio.Prelude.{
  ℕ, suc, String, Bool, true, false, List, [], ◌∷◌, ◌++◌, ◌≡◌, ◌≢◌, none, some, Except, ok, err,
  pos, if◌then◌else◌,
}
use idemio.Api.Execute.{status_for, completion_of}
use idemio.Claim.{Verdict, Status, Request, Result}
use idemio.Claim.Complete.{Completion, complete}
use idemio.Claim.Transaction.{claim}
use idemio.Downstream.{Wire, execute}
use idemio.Downstream.Taxonomy.{Keeps}
use idemio.Manifest.{ErrorClassification}
use idemio.Probe.{outcome_of}
use idemio.Reconcile.Settle.{outcome_status}
use idemio.ResultStore.{Placement}
use idemio.Tables.{Db, Server, Fault, commit_lost}
use idemio.Tables.Laws.{row_of, status_of, IsUnique}

-- a process that won the key and has not called, a request whose process stopped before the reply,
-- or a process that has an outcome to record
pub data Worker : Type 0 where
  waiting in_flight : Worker
  answered : Completion → Worker

pub record World : Type 0 where
  pub db : Db
  pub executed : ℕ
  pub workers : List Worker

abbrev pub is_claimed : Verdict → Bool
is_claimed Verdict.claimed = true
is_claimed _ = false

-- only the caller whose claim is granted goes on
abbrev pub spawn : Except Fault Result → List Worker → List Worker
spawn (err e) ws = ws
spawn (ok r) ws = if is_claimed r.verdict then waiting ∷ ws else ws

-- persistOutcome returns on a reply and tries again after an error
abbrev pub after_reply : Except Fault Bool → Completion → List Worker → List Worker
after_reply (ok updated) c ws = ws
after_reply (err e) c ws = answered c ∷ ws

abbrev pub count_run : Bool → ℕ → ℕ
count_run ran n = if ran then suc n else n

-- what the reconciler makes of a count of executions, by Reconcile.Settle
abbrev pub counted_status : ℕ → Status
counted_status n = outcome_status (outcome_of (record { executions = pos n; result = "" })).0

module _ (agent key : String) where
  pub data Step : World → World → Type 0 where
    claims :
        (v : Server) (req : Request) (w : World)
        → req.agent_id ≡ agent
        → req.key ≡ key
        → Step w
            (record w { db = (claim v req w.db).0; workers = spawn (claim v req w.db).1 w.workers })
    calls :
        (wire : Wire) (c : ErrorClassification) (ran : Bool) (p : Placement) (rest : List Worker)
        (w : World)
        → w.workers ≡ waiting ∷ rest
        → Step w (record w {
          executed = count_run ran w.executed;
          workers =
              answered
                (completion_of (status_for (execute wire c).disposition) p (execute wire c).detail)
              ∷ rest;
        })
    departs :
        (rest : List Worker) (w : World)
        → w.workers ≡ waiting ∷ rest
        → Step w (record w { workers = in_flight ∷ rest })
    lands :
        (rest : List Worker) (w : World)
        → w.workers ≡ in_flight ∷ rest
        → Step w (record w { executed = suc w.executed; workers = rest })
    persists :
        (v : Server) (c : Completion) (rest : List Worker) (w : World)
        → w.workers ≡ answered c ∷ rest
        → Step w (record w {
          db = (complete v agent key c w.db).0;
          workers = after_reply (complete v agent key c w.db).1 c rest;
        })
    leaves :
        (x : Worker) (rest : List Worker) (w : World)
        → w.workers ≡ x ∷ rest
        → Step w (record w { workers = rest })
    takes_turns :
        (x : Worker) (rest : List Worker) (w : World)
        → w.workers ≡ x ∷ rest
        → Step w (record w { workers = rest ++ x ∷ [] })
    probes :
        (p : Placement) (detail : String) (w : World)
        → status_of agent key w.db ≡ some Status.pending
        → Step w (record w {
          workers = answered (completion_of (counted_status w.executed) p detail) ∷ w.workers;
        })
    escalates :
        (p : Placement) (detail : String) (w : World)
        → status_of agent key w.db ≡ some Status.pending
        → Step w (record w {
          workers = answered (completion_of Status.indeterminate p detail) ∷ w.workers;
        })
    elsewhere :
        (db : Db) (w : World)
        → row_of agent key db ≡ row_of agent key w.db
        → IsUnique db
        → Step w (record w { db = db })

  -- The three conditions that the code leaves to its configuration: the downstream keeps its promise,
  -- the whole of it or the half of it that a retry rests on, the reply of a commit that records an
  -- outcome is not lost, and the reconciler takes up a key when no writer, and no request of one, is at
  -- work on it.
  abbrev pub IsCalm : Bool → {w w' : World} → Step w w' → Type 0
  IsCalm whole (calls wire c ran p rest w at) = Keeps whole wire c ran
  IsCalm whole (persists v c rest w at) = (complete v agent key c w.db).1 ≢ err commit_lost
  IsCalm whole (probes p detail w pending) = w.workers ≡ []
  IsCalm whole (escalates p detail w pending) = w.workers ≡ []
  IsCalm whole _ = Unit

  -- What can come of a key that has no row, no execution and no process.
  pub data Reach : World → Type 0 where
    start :
        (db : Db)
        → row_of agent key db ≡ none
        → IsUnique db
        → Reach (record { db = db; executed = 0; workers = [] })
    next : {w w' : World} → Reach w → Step w w' → Reach w'

  abbrev pub AllCalm : Bool → {w : World} → Reach w → Type 0
  AllCalm whole (start db free unique) = Unit
  AllCalm whole (next r s) = AllCalm whole r × IsCalm whole s
