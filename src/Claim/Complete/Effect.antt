-- ===== src/Claim/Complete/Effect.antt =====
-- The effect of Complete: the outcome of a write is recorded once, on a pending key.
use mathlib.Core.Path.{subst}
use idemio.Prelude.{
  ℕ, ◌≤◌, String, Bool, true, false, some, List, [], ◌∷◌, ◌≡◌, refl, sym, ◌∙◌, ◌⊎◌, inl, inr, arith,
  Except, ok, err, >>=-eq-ok, Bool-cases, update_where, find_where, count_where, select_where,
  and-eq-true, if◌then◌else◌,
}
use idemio.Claim.{Status}
use idemio.Claim.Statements.{is_failed, by_latest}
use idemio.Claim.Complete.{
  Completion, complete, complete_row, completed, after_update, finish, void_latest, void_newest,
  is_open, is_pending, is_live_of, has_both,
}
use idemio.Tables.{
  KeyRow, Stmt, LockReply, Db, Server, Fault, CommitReply, is_key, commit_lost, commit_refused,
  complete_key, void_latest_intent, begin_tx,
}
use idemio.Tables.Laws.{row_of, KeepsOthers, IsUnique, update_key_others, update_key_own}

module _ (agent key : String) where
  none_open :
      (rows : List KeyRow)
      → count_where (is_key agent key) rows ≡ 0
      → count_where (is_open agent key) rows ≡ 0
  unfolding count_where
  none_open [] h = refl
  none_open (r ∷ rows) h = ground (arith, none_open rows)

  -- Under the unique constraint, the one open row is the row of the key.
  open_row :
      (rows : List KeyRow)
      → count_where (is_key agent key) rows ≤ 1
      → count_where (is_open agent key) rows ≡ 1
      → (r : KeyRow) × (find_where (is_key agent key) rows ≡ some r) × (is_open agent key r ≡ true)
  unfolding count_where find_where
  open_row [] u h = absurd (omega arith)
  open_row (r ∷ rows) u h = elim (Bool-cases (is_key agent key r)) [
    | inl e ↦
        let none : count_where (is_open agent key) rows ≡ 0 = none_open rows (ground (arith, e)) in
        (r, rw e, ground (arith, e, none))
    | inr e ↦ let (s, found, hit) = open_row rows (rw e at u) (rw e at h) in (s, rw e found, hit)
  ]

  closed_row :
      (rows : List KeyRow) (r : KeyRow)
      → count_where (is_key agent key) rows ≤ 1
      → find_where (is_key agent key) rows ≡ some r
      → count_where (is_open agent key) rows ≡ (elim r.status [ Status.pending ↦ 1 | _ ↦ 0 ])
  unfolding count_where find_where
  closed_row [] r u h = cc
  closed_row (s ∷ rows) r u h = elim (Bool-cases (is_key agent key s)) [
    | inl e ↦
        let none : count_where (is_open agent key) rows ≡ 0 = none_open rows (ground (arith, e)) in
        ground (arith, e, none)
    | inr e ↦ rw e (closed_row rows r (rw e at u) (rw e at h))
  ]

module _ (v : Server) (agent key : String) (c : Completion) where
  keep_key : (a k : String) (r : KeyRow) → is_key a k (completed v c r) ≡ is_key a k r
  unfolding completed
  keep_key a k r = refl

  own_key : (r : KeyRow) → is_open agent key r ≡ true → is_key agent key r ≡ true
  own_key r h = ground arith

  complete_row_effect :
      (db : Db) (y : ℕ × Db)
      → complete_row v agent key c db ≡ ok y
      → (y.0 ≡ count_where (is_open agent key) db.keys)
        × (y.1.keys ≡ update_where (is_open agent key) (completed v c) db.keys)
        × (y.1.intents ≡ db.intents)
  unfolding complete_row
  complete_row_effect db y h = ground arith

  -- The key was pending and has the outcome now; a failed write's newest live intent is void.
  abbrev pub Recorded : Db → Db → Type 0
  Recorded db db' =
      ((r : KeyRow) × (row_of agent key db ≡ some r)
        × (is_pending r.status ≡ true)
        × (row_of agent key db' ≡ some (completed v c r)))
      × KeepsOthers agent key db db'
      × (db'.intents ≡ (
          if is_failed c.status
          then void_newest v (by_latest (select_where (is_live_of agent key) db.intents)) db.intents
          else db.intents))

  after_update_effect :
      (touched : ℕ) (db : Db) (x : Bool × Db)
      → after_update v agent key c touched db ≡ ok x
      → x.0 ≡ true
      → (touched ≡ 1)
        × (x.1.keys ≡ db.keys)
        × (x.1.intents ≡ (
            if is_failed c.status
            then void_newest v
                (by_latest (select_where (is_live_of agent key) db.intents))
                db.intents
            else db.intents))
  unfolding after_update void_latest
  after_update_effect touched db x h t = ground arith

  chain_effect :
      (db : Db) (y : ℕ × Db) (x : Bool × Db)
      → IsUnique db
      → complete_row v agent key c db ≡ ok y
      → after_update v agent key c y.0 y.1 ≡ ok x
      → x.0 ≡ true
      → Recorded db x.1
  chain_effect db y x u e f t =
      let (count, keys, intents) = complete_row_effect db y e in
      let (one, keys', intents') = after_update_effect y.0 y.1 x f t in
      let (r, found, hit) = open_row agent key db.keys (u agent key) (ground arith) in
      let updated = keys' ∙ keys in
      (
        (
          r,
          found,
          (and-eq-true _ _ hit).1,
          update_key_own agent key (is_open agent key) (completed v c) keep_key db x.1 r updated
              found hit,
        ),
        update_key_others agent key (is_open agent key) (completed v c) keep_key own_key db x.1
            updated,
        subst
            (λ is. x.1.intents ≡ (
              if is_failed c.status
              then void_newest v (by_latest (select_where (is_live_of agent key) is)) is
              else is))
            intents intents',
      )

  -- what the caller of a recorded completion is told
  abbrev pub Confirms : Except Fault Bool → Type 0
  Confirms (ok b) = b ≡ true
  Confirms (err f) = f ≡ commit_lost

  abbrev pub Refuses : Except Fault Bool → Type 0
  Refuses (ok b) = b ≡ false
  Refuses (err f) = Unit

  abbrev Effect : Db → Db × Except Fault Bool → Type 0
  Effect db out = ((out.0 ≡ db) × Refuses out.1) ⊎ (Recorded db out.0 × Confirms out.1)

  finish-Effect :
      (db : Db) (m : Except Fault (Bool × Db))
      → ((x : Bool × Db) → m ≡ ok x → x.0 ≡ true → Recorded db x.1)
      → Effect db (finish v db m)
  unfolding finish
  finish-Effect db (err f) good = inl (refl, tt)
  finish-Effect db (ok (false, after)) good = inl (refl, refl)
  finish-Effect db (ok (true, after)) good =
      let recorded = good (true, after) refl refl in
      (elim v.commit
        as (λ (l : CommitReply). Effect db (elim l [
          | CommitReply.applied ↦ (after, ok true)
          | CommitReply.refused ↦ (db, err commit_refused)
          | CommitReply.lost ↦ (after, err commit_lost)
        ])) [
          | CommitReply.applied ↦ inr (recorded, refl)
          | CommitReply.refused ↦ inl (refl, tt)
          | CommitReply.lost ↦ inr (recorded, refl)
        ])

  -- Complete leaves the tables as they were and does not confirm, or it finds the key pending,
  -- records the outcome in its row and nowhere else, and confirms or loses the reply.
  pub complete_effect :
      (db : Db)
      → IsUnique db
      → ((((complete v agent key c db).0 ≡ db) × Refuses (complete v agent key c db).1)
          ⊎ (Recorded db (complete v agent key c db).0 × Confirms (complete v agent key c db).1))
  unfolding complete
  complete_effect db u = elim (Bool-cases (v.fails begin_tx)) [
    | inl e ↦ rw e (inl (refl, tt))
    | inr e ↦ rw e (
        finish-Effect db _ λ x h t.
          let (y, f, g) = >>=-eq-ok (complete_row v agent key c db) _ h in
          chain_effect db y x u f g t)
  ]

  -- On a key that is not pending, Complete changes nothing and never confirms.
  pub complete_terminal :
      (db : Db) (r : KeyRow)
      → IsUnique db
      → row_of agent key db ≡ some r
      → is_pending r.status ≡ false
      → ((complete v agent key c db).0 ≡ db) × Refuses (complete v agent key c db).1
  complete_terminal db r u found closed = elim (complete_effect db u) [
    | inl kept ↦ kept
    | inr (((s, same, still, _), _, _), _) ↦ cc
  ]

-- A server that fails no statement and applies the commit.
pub record IsHealthy (v : Server) : Type 0 where
  pub answers : (s : Stmt) → v.fails s ≡ false
  pub locks : v.lock ≡ LockReply.acquired
  pub commits : v.commit ≡ CommitReply.applied

module _ (v : Server) (agent key : String) (c : Completion) where
  -- A healthy server confirms and records a completion on every pending key, whatever its attempt
  -- count, unless the completion has both an inline result and a reference.
  pub complete_pending :
      (db : Db) (r : KeyRow)
      → IsHealthy v
      → IsUnique db
      → has_both c ≡ false
      → row_of agent key db ≡ some r
      → is_pending r.status ≡ true
      → ((complete v agent key c db).1 ≡ ok true)
        × (row_of agent key (complete v agent key c db).0 ≡ some (completed v c r))
  complete_pending db r healthy u one found waiting =
      let confirmed = confirm db r healthy u one found waiting in
      elim (complete_effect v agent key c db u) [
        | inl (_, refused) ↦
            absurd (subst (λ m. Refuses v agent key c m → ⊥) (sym confirmed) (λ e. cc) refused)
        | inr (((s, same, _, after), _, _), _) ↦ (confirmed, ground (arith, same, found, after))
      ]
    where
      confirm :
          (db : Db) (r : KeyRow)
          → IsHealthy v
          → IsUnique db
          → has_both c ≡ false
          → row_of agent key db ≡ some r
          → is_pending r.status ≡ true
          → (complete v agent key c db).1 ≡ ok true
      confirm db r healthy u one found waiting =
          let count : count_where (is_open agent key) db.keys ≡ 1 =
            closed_row agent key db.keys r (u agent key) found ∙ ground arith in
          unfold complete complete_row after_update void_latest finish in
          ground (
            arith,
            count,
            healthy.answers begin_tx,
            healthy.answers complete_key,
            healthy.answers void_latest_intent,
          )
