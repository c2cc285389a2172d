-- ===== src/Api/Execute/Persist.antt =====
-- What the server's record of an outcome is worth.
use mathlib.Core.Path.{subst}
use idemio.Prelude.{
  String, Bool, true, false, some, List, [], ◌∷◌, ◌≡◌, refl, sym, Except, ok, err, inl, inr,
}
use idemio.Claim.Complete.{Completion, complete, completed}
use idemio.Claim.Complete.Effect.{Refuses, Recorded, complete_effect}
use idemio.Tables.{Db, Server, Fault}
use idemio.Tables.Laws.{status_of, IsUnique}
use idemio.Api.Execute.{Attempt, persist_attempts}

-- What the other processes do keeps the unique constraint, as every transaction must.
abbrev pub KeepUnique : List Attempt → Type 0
KeepUnique [] = Unit
KeepUnique (a ∷ attempts) = ((db : Db) → IsUnique db → IsUnique (a.others db)) × KeepUnique attempts

module _ (agent key : String) (c : Completion) where
  Recorded-status :
      (v : Server) (db db' : Db)
      → Recorded v agent key c db db'
      → status_of agent key db' ≡ some c.status
  unfolding completed
  Recorded-status v db db' ((r, _, _, after), _, _) = rw after refl

  complete-IsUnique : (v : Server) (db : Db) → IsUnique db → IsUnique (complete v agent key c db).0
  complete-IsUnique v db u = elim (complete_effect v agent key c db u) [
    | inl (kept, _) ↦ rw kept u
    | inr ((_, (_, unique), _), _) ↦ unique u
  ]

  reply_status :
      (v : Server) (db : Db)
      → IsUnique db
      → (complete v agent key c db).1 ≡ ok true
      → status_of agent key (complete v agent key c db).0 ≡ some c.status
  reply_status v db u told = elim (complete_effect v agent key c db u) [
    | inl (kept, refused) ↦
        absurd (subst (λ m. Refuses v agent key c m → ⊥) (sym told) (λ e. cc) refused)
    | inr (recorded, _) ↦ Recorded-status v db (complete v agent key c db).0 recorded
  ]

  attempt_status :
      (v : Server) (db : Db) (rest : Db × Bool)
      → IsUnique db
      → (rest.1 ≡ true → status_of agent key rest.0 ≡ some c.status)
      → (m : Except Fault Bool) → (complete v agent key c db).1 ≡ m
      → let out : Db × Bool = elim m [
        | ok updated ↦ ((complete v agent key c db).0, updated)
        | err e ↦ rest
      ] in
        (out.1 ≡ true → status_of agent key out.0 ≡ some c.status)
  attempt_status v db rest u later (ok true) e h = reply_status v db u e
  attempt_status v db rest u later (ok false) e h = cc
  attempt_status v db rest u later (err f) e h = later h

  -- When the server takes the outcome of a call as recorded, the key has the status of that
  -- outcome, whatever the earlier attempts met.
  pub persist_recorded :
      (attempts : List Attempt) (db : Db)
      → IsUnique db
      → KeepUnique attempts
      → (persist_attempts agent key c attempts db).1 ≡ true
      → status_of agent key (persist_attempts agent key c attempts db).0 ≡ some c.status
  unfolding persist_attempts
  persist_recorded [] db u keep told = cc
  persist_recorded (a ∷ attempts) db u (kept, keep) told =
      let next = complete a.server agent key c (a.others db) in
      attempt_status a.server (a.others db) (persist_attempts agent key c attempts next.0)
        (kept db u)
        (λ h.
          persist_recorded attempts next.0 (complete-IsUnique a.server (a.others db) (kept db u))
            keep h)
        next.1 refl told
