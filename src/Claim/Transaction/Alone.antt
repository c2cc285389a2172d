-- ===== src/Claim/Transaction/Alone.antt =====
-- A granted claim has no rival: what the transaction of a grant has established.
use mathlib.Core.Path.{subst}
use idemio.Prelude.{
  ap, sym, refl, ◌∙◌, Bool, true, false, List, ◌∷◌, ◌≡◌, arith, ok, err, Except, any, update_where,
  >>=-eq-ok, if-cases, inl, inr, ◌⊎◌, Bool-cases,
}
use idemio.Prelude.Rows.{any_mono}
use idemio.Claim.{Verdict, Request, Result, of_verdict}
use idemio.Claim.Resolve.{resolve_conflicts, is_row, void_at}
use idemio.Claim.Resolve.Alone.{is_rival, is_under_way, resolve-alone}
use idemio.Claim.Resolve.Effects.{resolve_effect}
use idemio.Claim.Statements.{new_intent, record_intent}
use idemio.Claim.Transaction.{
  claim, locked, finish, commit_with, body, proceed, claim_key, with_outcome,
}
use idemio.Claim.Transaction.Effect.{record_intent_effect, body_effect, Declines, Reports}
use idemio.Claim.Transaction.Rollback.{is_committed, body_verdict}
use idemio.Claim.Transaction.Keys.{claim_key_effect}
use idemio.Tables.{
  Fault, LockReply, CommitReply, begin_tx, lock_failed, commit_lost, commit_refused, IntentRow, Db,
  Server,
}

module _ (v : Server) (req : Request) where
  -- no live intent of another agent conflicts, and no conflicting write of the agent is pending
  abbrev pub Alone : List IntentRow → Db → Type 0
  Alone intents after =
      (any (is_rival v req) intents ≡ false) × (any (is_under_way v req intents) after.keys ≡ false)

  without_own :
      (i : IntentRow) (intents : List IntentRow) (after : Db)
      → Alone (i ∷ intents) after
      → Alone intents after
  unfolding any is_under_way
  without_own i intents after (rivals, idle) = (
    ground arith,
    any_mono (is_under_way v req intents) (is_under_way v req (i ∷ intents)) (λ k h. ground arith)
        after.keys idle,
  )

  with_outcome-verdict : (result o : Result) → (with_outcome result o).verdict ≡ o.verdict
  unfolding with_outcome
  with_outcome-verdict result o = ground arith

  new_intent-id : (new_intent v req).intent_id ≡ v.uuid 0
  unfolding new_intent
  new_intent-id = refl

  abbrev verdict_of : Except Fault ((Result × Bool) × Db) → Verdict
  verdict_of (ok x) = x.0.0.verdict
  verdict_of (err f) = Verdict.claimed

  proceed-Alone :
      (result : Result) (db : Db) (x : (Result × Bool) × Db)
      → req.enforce ≡ true
      → proceed v req result db ≡ ok x
      → x.0.0.verdict ≡ Verdict.claimed
      → Alone db.intents x.1
  unfolding proceed
  proceed-Alone result db x on h granted =
      let (y, e, f) = >>=-eq-ok (record_intent v req db) _ h in
      let (row, keys, intents) = record_intent_effect v req db y e in
      let (o, g, k) = >>=-eq-ok (resolve_conflicts v req y.0 y.1) _ f in
      let told : o.0.verdict ≡ Verdict.claimed =
        sym (with_outcome-verdict _ o.0)
        ∙ ap (λ (z : Except Fault ((Result × Bool) × Db)). verdict_of z) k
        ∙ granted in
      let own = ap (λ (i : IntentRow). i.intent_id) row ∙ new_intent-id in
      let (rivals, idle) = resolve-alone v req y.0 y.1 o own on g told in
      let after : x.1 ≡ o.1 = ground (arith, k) in
      elim (resolve_effect v req y.0 y.1 o g) [
        | inl (verdict, _, _, _) ↦ cc
        | inr (_, same, _) ↦ without_own (new_intent v req) db.intents x.1 (
          subst (λ is. any (is_rival v req) is ≡ false) intents rivals,
          subst (λ is. any (is_under_way v req is) x.1.keys ≡ false) intents
              (subst (λ ks. any (is_under_way v req y.1.intents) ks ≡ false)
                (sym (ap (λ (z : Db). z.keys) after ∙ same)) idle),
        )
      ]

  body-Alone :
      (db : Db) (x : (Result × Bool) × Db)
      → req.enforce ≡ true
      → body v req db ≡ ok x
      → x.0.1 ≡ true
      → x.0.0.verdict ≡ Verdict.claimed
      → Alone db.intents x.1
  unfolding body
  body-Alone db x on h committed granted =
      let (k, e, f) = >>=-eq-ok (claim_key v req db) _ h in
      elim (if-cases k.0.1 _ _ f) [
        | inl (fresh, g) ↦
            let (_, _, intents) = claim_key_effect v req db k e fresh in
            subst (λ is. Alone is x.1) intents
              (proceed-Alone (record (k.0.0) { lock_wait = v.lock_wait }) k.1 x on g granted)
        | inr (_, g) ↦ cc
      ]

  -- the intents after a claim that is committed, and what a grant has established
  abbrev pub Settled : Verdict → Db → Db → Type 0
  Settled verdict db db' =
      ((verdict ≡ Verdict.claimed)
        × (db'.intents ≡ new_intent v req ∷ db.intents)
        × Alone db.intents db')
      ⊎ ((verdict ≡ Verdict.rejected)
          × (db'.intents
              ≡ update_where (is_row (new_intent v req)) (void_at v)
                  (new_intent v req ∷ db.intents)))

  abbrev pub Settles : Db → Db × Except Fault Result → Type 0
  Settles db out =
      ((out.0 ≡ db) × Declines out.1)
      ⊎ ((verdict : Verdict) × Settled verdict db out.0 × Reports verdict out.1)

  finish-Settles :
      (db : Db) (m : Except Fault ((Result × Bool) × Db))
      → ((x : (Result × Bool) × Db)
          → m ≡ ok x
          → (x.0.1 ≡ true → Settled x.0.0.verdict db x.1) × (is_committed x.0.0.verdict ≡ x.0.1))
      → Settles db (finish v db m)
  unfolding finish commit_with
  finish-Settles db (err f) good = inl (refl, tt)
  finish-Settles db (ok ((r, false), after)) good = inl (refl, (good ((r, false), after) refl).1)
  finish-Settles db (ok ((r, true), after)) good =
      let done = (good ((r, true), after) refl).0 refl in
      (elim v.commit
        as (λ (c : CommitReply). Settles db (elim c [
          | CommitReply.applied ↦ (after, ok r)
          | CommitReply.refused ↦ (db, err commit_refused)
          | CommitReply.lost ↦ (after, err commit_lost)
        ])) [
          | CommitReply.applied ↦ inr (r.verdict, done, refl)
          | CommitReply.refused ↦ inl (refl, tt)
          | CommitReply.lost ↦ inr (r.verdict, done, refl)
        ])

  body-Settled :
      (db : Db) (x : (Result × Bool) × Db)
      → req.enforce ≡ true
      → body v req db ≡ ok x
      → x.0.1 ≡ true
      → Settled x.0.0.verdict db x.1
  body-Settled db x on h committed = elim (body_effect v req db x h committed).2 [
    | inl (granted, _, intents) ↦ inl (granted, intents, body-Alone db x on h committed granted)
    | inr (rejected, _, voided) ↦ inr (rejected, voided)
  ]

  -- A claim under enforcement changes nothing, or adds its intent void, or adds it live having
  -- found it alone.
  pub claim-Settles : (db : Db) → req.enforce ≡ true → Settles db (claim v req db)
  unfolding claim locked
  claim-Settles db on = elim (Bool-cases (v.fails begin_tx)) [
    | inl e ↦ rw e (inl (refl, tt))
    | inr e ↦
        rw e
          (elim v.lock
            as (λ (l : LockReply). Settles db (elim l [
              | LockReply.acquired ↦ finish v db (body v req db)
              | LockReply.not_available ↦
                  (db, ok (record (of_verdict Verdict.lock_timeout) { lock_wait = v.lock_wait }))
              | LockReply.broken ↦ (db, err lock_failed)
            ])) [
              | LockReply.acquired ↦
                  finish-Settles db (body v req db)
                    λ x h. (body-Settled db x on h, body_verdict v req db x h)
              | LockReply.not_available ↦ inl (refl, refl)
              | LockReply.broken ↦ inl (refl, tt)
            ])
  ]

  -- When a claim under enforcement tells its caller that the write is granted, no live intent of
  -- another agent in the window conflicts with it, every live intent of the same agent in the window
  -- that conflicts with it belongs to a key that is no longer pending, and its own intent is added.
  pub granted_alone :
      (db : Db) (r : Result)
      → req.enforce ≡ true
      → (claim v req db).1 ≡ ok r
      → r.verdict ≡ Verdict.claimed
      → (any (is_rival v req) db.intents ≡ false)
        × (any (is_under_way v req db.intents) (claim v req db).0.keys ≡ false)
        × ((claim v req db).0.intents ≡ new_intent v req ∷ db.intents)
  granted_alone db r on told granted = elim (claim-Settles db on) [
    | inl (_, declined) ↦ let refused = subst Declines told declined in cc (ap is_committed granted)
    | inr (verdict, inl (_, intents, alone), reported) ↦ (alone.0, alone.1, intents)
    | inr (verdict, inr (rejected, _), reported) ↦
        let other = subst (Reports verdict) told reported in cc
  ]
