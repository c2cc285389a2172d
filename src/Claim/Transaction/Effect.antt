-- ===== src/Claim/Transaction/Effect.antt =====
-- The whole effect of a claim on the keys and the intents.
use mathlib.Core.Path.{subst}
use idemio.Prelude.{
  Except, Bool, true, false, not, Option, none, some, ◌∷◌, ◌≡◌, refl, ap, ◌∙◌, ◌⊎◌, inl, inr, arith,
  ok, err, >>=-eq-ok, if-cases, Bool-cases, update_where, find_where,
}
use idemio.Claim.{Verdict, Status, Request, Result, of_verdict}
use idemio.Claim.Statements.{is_failed, new_intent, record_intent}
use idemio.Claim.Resolve.{is_row, void_at, resolve_conflicts}
use idemio.Claim.Resolve.Effects.{resolve_effect, Judged}
use idemio.Claim.Transaction.{
  claim, locked, finish, commit_with, body, proceed, claim_key, with_outcome, is_serialize,
}
use idemio.Claim.Transaction.Keys.{TakesOver, claim_key_effect}
use idemio.Claim.Transaction.Rollback.{is_committed, body_verdict}
use idemio.Tables.{
  Fault, LockReply, begin_tx, lock_failed, CommitReply, commit_lost, commit_refused, KeyRow,
  IntentRow, Db, Server, is_key,
}
use idemio.Tables.Laws.{row_of, status_of, KeepsOthers, KeepsOthers-trans, KeepsOthers-refl}

-- no row, or one of a write that did not happen
abbrev pub WasFree : Option KeyRow → Type 0
WasFree none = Unit
WasFree (some r) = is_failed r.status ≡ true

-- what the caller of a committed claim is told: its verdict, or that the reply was lost
abbrev pub Reports : Verdict → Except Fault Result → Type 0
Reports verdict (ok r) = r.verdict ≡ verdict
Reports verdict (err f) = f ≡ commit_lost

-- what the caller of a claim that left nothing behind is told
abbrev pub Declines : Except Fault Result → Type 0
Declines (ok r) = is_committed r.verdict ≡ false
Declines (err f) = Unit

module _ (v : Server) (req : Request) where
  -- The tables of a committed claim, by its verdict.
  abbrev pub Committed : Verdict → Db → Db → Type 0
  Committed verdict db db' =
      ((verdict ≡ Verdict.claimed)
        × TakesOver v req db db'
        × (db'.intents ≡ new_intent v req ∷ db.intents))
      ⊎ ((verdict ≡ Verdict.rejected)
          × (status_of req.agent_id req.key db' ≡ some Status.rejected)
          × (db'.intents
              ≡ update_where (is_row (new_intent v req)) (void_at v)
                  (new_intent v req ∷ db.intents)))

  pub record_intent_effect :
      (db : Db) (y : IntentRow × Db)
      → record_intent v req db ≡ ok y
      → (y.0 ≡ new_intent v req)
        × (y.1.keys ≡ db.keys)
        × (y.1.intents ≡ new_intent v req ∷ db.intents)
  unfolding record_intent
  record_intent_effect db y h = ground arith

  abbrev Moved : IntentRow → Db → (Result × Bool) × Db → Type 0
  Moved row db x =
      KeepsOthers req.agent_id req.key db x.1
      × (((x.0.0.verdict ≡ Verdict.claimed) × (x.1.keys ≡ db.keys) × (x.1.intents ≡ db.intents))
          ⊎ ((x.0.0.verdict ≡ Verdict.rejected)
              × (status_of req.agent_id req.key x.1 ≡ some Status.rejected)
              × (x.1.intents ≡ update_where (is_row row) (void_at v) db.intents)))

  outcome_effect :
      (result : Result) (row : IntentRow) (db : Db) (o : Result × Db) (x : (Result × Bool) × Db)
      → Judged v req row db o
      → x ≡ ((with_outcome result o.0, not (is_serialize o.0.verdict)), o.1)
      → x.0.1 ≡ true
      → Moved row db x
  unfolding with_outcome
  outcome_effect result row db o x (inl (verdict, own, others, voided)) h committed =
      let after : x.1 ≡ o.1 = ap (λ (z : (Result × Bool) × Db). z.1) h in
      (
        rw after others,
        inr (
          ap (λ (z : (Result × Bool) × Db). z.0.0.verdict) h ∙ (rw verdict),
          rw after own,
          rw after voided,
        ),
      )
  outcome_effect result row db o x (inr (granted, keys, intents)) h committed =
      let after : x.1 ≡ o.1 = ap (λ (z : (Result × Bool) × Db). z.1) h in
      let claimed : x.0.0.verdict ≡ Verdict.claimed = ground arith in
      (
        KeepsOthers-refl req.agent_id req.key db x.1 (rw after keys),
        inl (claimed, rw after keys, rw after intents),
      )

  proceed_effect :
      (result : Result) (db : Db) (x : (Result × Bool) × Db)
      → proceed v req result db ≡ ok x
      → x.0.1 ≡ true
      → (db1 : Db) × (db1.keys ≡ db.keys)
        × (db1.intents ≡ new_intent v req ∷ db.intents)
        × Moved (new_intent v req) db1 x
  unfolding proceed
  proceed_effect result db x h committed =
      let (y, e, f) = >>=-eq-ok (record_intent v req db) _ h in
      let (row, keys, intents) = record_intent_effect db y e in
      let (o, g, k) = >>=-eq-ok (resolve_conflicts v req y.0 y.1) _ f in
      (
        y.1,
        keys,
        intents,
        subst (λ (z : IntentRow). Moved z y.1 x) row
            (outcome_effect (record result { intent_id = y.0.intent_id }) y.0 y.1 o x
              (resolve_effect v req y.0 y.1 o g) (cc k) committed),
      )

  TakesOver-free : (db db' : Db) → TakesOver v req db db' → WasFree (row_of req.agent_id req.key db)
  TakesOver-free db db' (inl (free, _)) = rw free tt
  TakesOver-free db db' (inr (r, found, failed, _)) = rw found failed

  TakesOver-keys :
      (db db1 db2 : Db) → db2.keys ≡ db1.keys → TakesOver v req db db1 → TakesOver v req db db2
  TakesOver-keys db db1 db2 e (inl (free, now)) =
      inl (free, ap (find_where (is_key req.agent_id req.key)) e ∙ now)
  TakesOver-keys db db1 db2 e (inr (r, found, failed, now)) =
      inr (r, found, failed, ap (find_where (is_key req.agent_id req.key)) e ∙ now)

  -- A transaction that is committed had the key free, and touched no other key.
  abbrev pub Commits : Db → (Result × Bool) × Db → Type 0
  Commits db x =
      WasFree (row_of req.agent_id req.key db)
      × KeepsOthers req.agent_id req.key db x.1
      × Committed x.0.0.verdict db x.1

  Moved-Commits :
      (db dbk db1 : Db) (x : (Result × Bool) × Db)
      → TakesOver v req db dbk
      → KeepsOthers req.agent_id req.key db dbk
      → dbk.intents ≡ db.intents
      → db1.keys ≡ dbk.keys
      → db1.intents ≡ new_intent v req ∷ dbk.intents
      → Moved (new_intent v req) db1 x
      → Commits db x
  Moved-Commits db dbk db1 x taken others kept keys intents (others', result) = (
    TakesOver-free db dbk taken,
    KeepsOthers-trans req.agent_id req.key db dbk x.1 others (
        KeepsOthers-trans req.agent_id req.key dbk db1 x.1
          (KeepsOthers-refl req.agent_id req.key dbk db1 keys) others'),
    elim result [
      | inl (verdict, keys', intents') ↦ inl (
        verdict,
        TakesOver-keys db dbk x.1 (keys' ∙ keys) taken,
        intents' ∙ intents ∙ ap (λ is. new_intent v req ∷ is) kept,
      )
      | inr (verdict, own, voided) ↦ inr (
        verdict,
        own,
        voided
            ∙ ap (update_where (is_row (new_intent v req)) (void_at v))
                (intents ∙ ap (λ is. new_intent v req ∷ is) kept),
      )
    ],
  )

  pub body_effect :
      (db : Db) (x : (Result × Bool) × Db) → body v req db ≡ ok x → x.0.1 ≡ true → Commits db x
  unfolding body
  body_effect db x h committed =
      let (k, e, f) = >>=-eq-ok (claim_key v req db) _ h in
      elim (if-cases k.0.1 _ _ f) [
        | inl (fresh, g) ↦
            let (taken, others, intents) = claim_key_effect v req db k e fresh in
            let (db1, keys1, intents1, moved) =
              proceed_effect (record (k.0.0) { lock_wait = v.lock_wait }) k.1 x g committed in
            Moved-Commits db k.1 db1 x taken others intents keys1 intents1 moved
        | inr (_, g) ↦ cc
      ]

  -- what a claim may leave behind, and what it says of it
  abbrev pub Effect : Db → Db × Except Fault Result → Type 0
  Effect db out =
      ((out.0 ≡ db) × Declines out.1)
      ⊎ ((verdict : Verdict) × WasFree (row_of req.agent_id req.key db)
          × KeepsOthers req.agent_id req.key db out.0
          × Committed verdict db out.0
          × Reports verdict out.1)

  finish-Effect :
      (db : Db) (m : Except Fault ((Result × Bool) × Db))
      → ((x : (Result × Bool) × Db)
          → m ≡ ok x
          → (x.0.1 ≡ true → Commits db x) × (is_committed x.0.0.verdict ≡ x.0.1))
      → Effect db (finish v db m)
  unfolding finish commit_with
  finish-Effect db (err f) good = inl (refl, tt)
  finish-Effect db (ok ((r, false), after)) good = inl (refl, (good ((r, false), after) refl).1)
  finish-Effect db (ok ((r, true), after)) good =
      let (free, others, done) = (good ((r, true), after) refl).0 refl in
      (elim v.commit
        as (λ (c : CommitReply). Effect db (elim c [
          | CommitReply.applied ↦ (after, ok r)
          | CommitReply.refused ↦ (db, err commit_refused)
          | CommitReply.lost ↦ (after, err commit_lost)
        ])) [
          | CommitReply.applied ↦ inr (r.verdict, free, others, done, refl)
          | CommitReply.refused ↦ inl (refl, tt)
          | CommitReply.lost ↦ inr (r.verdict, free, others, done, refl)
        ])

  -- A claim leaves the tables as they were and reports neither a grant nor a rejection, or its key had
  -- no row or a failed one, no other key changed, and it was granted (the key has a new or reclaimed
  -- pending row and its intent is added) or rejected (the key is rejected and its intent void); the
  -- caller is then told the verdict, or that the commit's reply was lost.
  pub claim-Effect : (db : Db) → Effect db (claim v req db)
  unfolding claim locked
  claim-Effect db = elim (Bool-cases (v.fails begin_tx)) [
    | inl e ↦ rw e (inl (refl, tt))
    | inr e ↦
        rw e
          (elim v.lock
            as (λ (l : LockReply). Effect db (elim l [
              | LockReply.acquired ↦ finish v db (body v req db)
              | LockReply.not_available ↦
                  (db, ok (record (of_verdict Verdict.lock_timeout) { lock_wait = v.lock_wait }))
              | LockReply.broken ↦ (db, err lock_failed)
            ])) [
              | LockReply.acquired ↦
                  finish-Effect db (body v req db)
                    λ x h. (body_effect db x h, body_verdict v req db x h)
              | LockReply.not_available ↦ inl (refl, refl)
              | LockReply.broken ↦ inl (refl, tt)
            ])
  ]
