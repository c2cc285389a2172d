-- ===== src/World/Steps.antt =====
-- What each step keeps of the invariant.
use mathlib.Core.Path.{subst}
use idemio.Prelude.{
  ℕ, suc, ◌≤◌, String, Bool, false, List, [], ◌∷◌, ◌++◌, ◌≡◌, ◌≢◌, Option, some, refl, sym, ap,
  arith, Except, ok, err, inl, inr, if◌then◌else◌,
}
use idemio.Api.Execute.{status_for}
use idemio.Claim.{Verdict, Status, Request, Result}
use idemio.Claim.Complete.{Completion, complete, completed}
use idemio.Claim.Complete.Effect.{Confirms, complete_effect}
use idemio.Claim.Statements.{new_key, reclaimed}
use idemio.Claim.Transaction.{claim}
use idemio.Claim.Transaction.Rollback.{is_committed}
use idemio.Claim.Transaction.Effect.{Reports, Declines, claim-Effect}
use idemio.Claim.Transaction.Keys.{TakesOver}
use idemio.Downstream.{Wire, execute}
use idemio.Downstream.Taxonomy.{Keeps, Keeps-Means}
use idemio.Manifest.{ErrorClassification}
use idemio.Tables.{Db, Server, Fault, commit_lost}
use idemio.Tables.Laws.{row_of, status_of, IsUnique}
use idemio.World.{is_claimed, Worker, waiting, in_flight, answered, spawn, after_reply, count_run}
use idemio.World.Invariant.{
  Admits, Slot, Fits, at_most, free-Fits, busy-Fits, idle-Fits, closed-Fits, call-Admits, few_runs,
}

module _ (whole : Bool) (agent key : String) where
  declined_spawn : (m : Except Fault Result) (ws : List Worker) → Declines m → spawn m ws ≡ ws
  declined_spawn (err e) ws d = refl
  declined_spawn (ok r) ws d = go r.verdict d
    where
      go : (v : Verdict) → is_committed v ≡ false → (if is_claimed v then waiting ∷ ws else ws) ≡ ws
      go Verdict.claimed h = cc
      go Verdict.existing h = refl
      go Verdict.mismatch h = refl
      go Verdict.rejected h = refl
      go Verdict.serialize h = refl
      go Verdict.lock_timeout h = refl
      go Verdict.serialize_timeout h = refl

  -- who goes on after a granted claim
  granted-Slot : (m : Except Fault Result) → Reports Verdict.claimed m → Slot whole 0 (spawn m [])
  granted-Slot (err e) told = omega arith
  granted-Slot (ok r) told = rw told refl

  rejected_spawn : (m : Except Fault Result) → Reports Verdict.rejected m → spawn m [] ≡ []
  rejected_spawn (err e) told = refl
  rejected_spawn (ok r) told = rw told refl

  taken_pending :
      (v : Server) (req : Request) (db db' : Db)
      → TakesOver v req db db'
      → status_of req.agent_id req.key db' ≡ some Status.pending
  unfolding new_key reclaimed
  taken_pending v req db db' (inl (_, now)) = rw now refl
  taken_pending v req db db' (inr (r, _, _, now)) = rw now refl

  pub claim-Fits :
      (v : Server) (req : Request) (db : Db) (e : ℕ) (ws : List Worker)
      → Fits whole (status_of req.agent_id req.key db) e ws
      → Fits whole
          (status_of req.agent_id req.key (claim v req db).0)
          e
          (spawn (claim v req db).1 ws)
  claim-Fits v req db e ws fits = elim (claim-Effect v req db) [
    | inl (same, declined) ↦ rw (same, declined_spawn (claim v req db).1 ws declined) fits
    | inr (verdict, free, _, inl (granted, taken, _), told) ↦
        let (none_ran, nobody) = free-Fits whole (row_of req.agent_id req.key db) e ws free fits in
        rw (taken_pending v req db (claim v req db).0 taken, none_ran, nobody)
          (granted-Slot (claim v req db).1 (subst (λ x. Reports x (claim v req db).1) granted told))
    | inr (verdict, free, _, inr (refused, now, _), told) ↦
        let (none_ran, nobody) = free-Fits whole (row_of req.agent_id req.key db) e ws free fits in
        rw (now, none_ran, nobody)
          (
            refl,
            rejected_spawn (claim v req db).1
                (subst (λ x. Reports x (claim v req db).1) refused told),
          )
  ]

  pub claim_own :
      (v : Server) (req : Request) (db : Db) (e : ℕ) (ws : List Worker)
      → req.agent_id ≡ agent
      → req.key ≡ key
      → Fits whole (status_of agent key db) e ws
      → Fits whole (status_of agent key (claim v req db).0) e (spawn (claim v req db).1 ws)
  claim_own v req db e ws is_agent is_own =
      let out = claim v req db in
      subst
        (λ k.
          Fits whole (status_of agent k db) e ws
          → Fits whole (status_of agent k out.0) e (spawn out.1 ws))
        is_own
        (subst
          (λ a.
            Fits whole (status_of a req.key db) e ws
            → Fits whole (status_of a req.key out.0) e (spawn out.1 ws))
          is_agent (claim-Fits v req db e ws))

  pub claim-IsUnique :
      (v : Server) (req : Request) (db : Db) → IsUnique db → IsUnique (claim v req db).0
  claim-IsUnique v req db u = elim (claim-Effect v req db) [
    | inl (same, _) ↦ rw same u
    | inr (_, _, (_, unique), _, _) ↦ unique u
  ]

  -- A process that records its outcome on a pending key leaves it closed; one that is told that
  -- there was nothing to record leaves it as it was.
  pub complete-Fits :
      (v : Server) (c : Completion) (rest : List Worker) (db : Db) (e : ℕ)
      → IsUnique db
      → (complete v agent key c db).1 ≢ err commit_lost
      → Fits whole (status_of agent key db) e (answered c ∷ rest)
      → Fits whole
          (status_of agent key (complete v agent key c db).0)
          e
          (after_reply (complete v agent key c db).1 c rest)
  unfolding completed
  complete-Fits v c rest db e u kept fits =
      let (pending, alone, (few, admits)) =
        busy-Fits whole (status_of agent key db) e (answered c) rest fits in
      elim (complete_effect v agent key c db u) [
        | inl (same, refused) ↦
            rw (same, pending, alone) (unrecorded (complete v agent key c db).1 few admits)
        | inr (((r, _, _, now), _, _), told) ↦
            rw (now, alone) (recorded (complete v agent key c db).1 kept told admits)
      ]
    where
      unrecorded :
          (m : Except Fault Bool)
          → e ≤ 1
          → Admits whole c.status e
          → Fits whole (some Status.pending) e (after_reply m c [])
      unrecorded (ok b) few admits = few
      unrecorded (err f) few admits = (few, admits)

      recorded :
          (m : Except Fault Bool)
          → m ≢ err commit_lost
          → Confirms v agent key c m
          → Admits whole c.status e
          → Fits whole (some c.status) e (after_reply m c [])
      recorded (ok b) kept told admits = closed-Fits whole c.status e admits
      recorded (err f) kept told admits = absurd (kept (ap err told))

  pub complete-IsUnique :
      (v : Server) (c : Completion) (db : Db) → IsUnique db → IsUnique (complete v agent key c db).0
  complete-IsUnique v c db u = elim (complete_effect v agent key c db u) [
    | inl (same, _) ↦ rw same u
    | inr ((_, (_, unique), _), _) ↦ unique u
  ]

  pub call-Fits :
      (wire : Wire) (c : ErrorClassification) (ran : Bool) (o : Option Status) (e : ℕ)
      (rest : List Worker) (done : Completion)
      → Keeps whole wire c ran
      → done.status ≡ status_for (execute wire c).disposition
      → Fits whole o e (waiting ∷ rest)
      → Fits whole o (count_run ran e) (answered done ∷ rest)
  call-Fits wire c ran o e rest done truth told fits =
      let (pending, alone, none_ran) = busy-Fits whole o e waiting rest fits in
      let (failed, ran_if_done) = Keeps-Means wire c ran whole truth in
      rw (pending, alone, none_ran)
        (
          few_runs whole ran,
          subst (λ s. Admits whole s (count_run ran 0)) (sym told)
              (call-Admits whole (execute wire c).disposition ran failed ran_if_done),
        )

  pub turned :
      (o : Option Status) (e : ℕ) (x : Worker) (rest : List Worker)
      → Fits whole o e (x ∷ rest)
      → Fits whole o e (rest ++ x ∷ [])
  turned o e x rest fits =
      let (pending, alone, held) = busy-Fits whole o e x rest fits in rw (pending, alone) held

  pub idle :
      (o : Option Status) (e : ℕ) (x : Worker) (rest : List Worker)
      → Fits whole o e (x ∷ rest)
      → Fits whole o e rest
  idle o e x rest fits =
      let (pending, alone, held) = busy-Fits whole o e x rest fits in
      rw (pending, alone) (idle-Fits whole e x held)

  pub depart-Fits :
      (o : Option Status) (e : ℕ) (rest : List Worker)
      → Fits whole o e (waiting ∷ rest)
      → Fits whole o e (in_flight ∷ rest)
  depart-Fits o e rest fits =
      let (pending, alone, held) = busy-Fits whole o e waiting rest fits in rw (pending, alone) held

  pub land-Fits :
      (o : Option Status) (e : ℕ) (rest : List Worker)
      → Fits whole o e (in_flight ∷ rest)
      → Fits whole o (suc e) rest
  land-Fits o e rest fits =
      let (pending, alone, none_ran) = busy-Fits whole o e in_flight rest fits in
      rw (pending, alone, none_ran) (omega arith)

  -- the reconciler's outcome, on a pending key that nobody is at work on
  pub probe-Fits :
      (o : Option Status) (e : ℕ) (ws : List Worker) (c : Completion)
      → o ≡ some Status.pending
      → ws ≡ []
      → (e ≤ 1 → Admits whole c.status e)
      → Fits whole o e ws
      → Fits whole o e (answered c ∷ ws)
  probe-Fits o e ws c pending nobody admits fits =
      let few = at_most whole o e ws fits in rw (pending, nobody) (few, admits few)
