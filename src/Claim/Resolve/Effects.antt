-- ===== src/Claim/Resolve/Effects.antt =====
-- What the conflict check writes: conflict rows always, and a key and an intent only to reject.
use mathlib.Core.Option
use idemio.Prelude.{
  Bool-cases, if-cases, ◌⊎◌, inl, inr, ap, ◌∙◌, ℕ, suc, ◌+◌, String, Bool, true, false, not, List,
  [], ◌∷◌, ◌≡◌, refl, arith, ok, >>=-eq-ok, length, length-take, min, update_where, any, some, none,
  Option, find_where,
}
use idemio.Claim.{Verdict, Status, Resolution, Request, Result, Intent}
use idemio.Claim.Resolve.{
  insert_conflicts, new_conflict, record_conflicts, capped, max_recorded_conflicts, reject,
  reject_stored, rejection_detail, rejected_row, void_row, void_at, is_row, enforce_on,
  serialize_or_proceed, judge, first_pending, resolve_conflicts,
}
use idemio.Claim.Statements.{conflicting_intents}
use idemio.Tables.{insert_conflict, KeyRow, IntentRow, Db, Server, is_key}
use idemio.Tables.Laws.{
  exec-eq-ok, KeepsOthers, KeepsOthers-refl, KeepsOthers-trans, update_key_others, update_key_own,
  status_of, find-some_of_any, find_where_sound,
}

module _ (v : Server) (req : Request) (id : String) (resolution : Resolution) where
  insert_conflicts_effect :
      (n : ℕ) (cs : List Intent) (db : Db) (x : String × Db)
      → insert_conflicts v req id resolution n cs db ≡ ok x
      → (x.1.keys ≡ db.keys)
        × (x.1.intents ≡ db.intents)
        × (length x.1.conflicts ≡ length db.conflicts + length cs)
  unfolding insert_conflicts
  insert_conflicts_effect n [] db x h = ground arith
  insert_conflicts_effect n (c ∷ cs) db x h =
      let db' : Db = record db {
        conflicts = new_conflict v req id resolution n c ∷ db.conflicts;
      } in
      let rest = insert_conflicts v req id resolution (suc n) cs db' in
      let (y, e, f) = >>=-eq-ok rest _ (exec-eq-ok v insert_conflict _ x h) in
      let (keys, intents, conflicts) = insert_conflicts_effect (suc n) cs db' y e in ground arith

  -- Recording adds a row for each candidate, ten at most, and touches no other table.
  pub record_conflicts_effect :
      (cs : List Intent) (db : Db) (x : String × Db)
      → record_conflicts v req id cs resolution db ≡ ok x
      → (x.1.keys ≡ db.keys)
        × (x.1.intents ≡ db.intents)
        × (length x.1.conflicts ≡ length db.conflicts + min max_recorded_conflicts (length cs))
  unfolding record_conflicts capped
  record_conflicts_effect cs db x h =
      let (keys, intents, conflicts) = insert_conflicts_effect 1 (capped cs) db x h in
      (keys, intents, grind (arith, length-take {0}))

-- the verdicts of a check that rejects nothing
abbrev pub is_granted : Verdict → Bool
is_granted Verdict.claimed = true
is_granted Verdict.serialize = true
is_granted _ = false

pub first_pending_effect :
    (v : Server) (agent : String) (same : List Intent) (db : Db) (y : Option String × Db)
    → first_pending v agent same db ≡ ok y
    → y.1 ≡ db
unfolding first_pending
first_pending_effect v agent same db y h = ground arith

module _ (v : Server) (req : Request) where
  reject_stored_effect :
      (text detail : String) (db : Db) (x : String × Db)
      → reject_stored v req text detail db ≡ ok x
      → KeepsOthers req.agent_id req.key db x.1
        × (status_of req.agent_id req.key x.1 ≡ some Status.rejected)
        × (x.1.intents ≡ db.intents)
        × (x.1.conflicts ≡ db.conflicts)
  unfolding reject_stored
  reject_stored_effect text detail db x h = elim (Bool-cases (any (is_key a k) db.keys)) [
    | inl e ↦
        let keys : x.1.keys ≡ update_where (is_key a k) (rejected_row v text detail) db.keys =
          ground (arith, e) in
        let (r, found) = find-some_of_any (is_key a k) db.keys e in
        (
          update_key_others a k (is_key a k) (rejected_row v text detail) keep (λ r h. h) db x.1
              keys,
          ap (Option.map (λ (r : KeyRow). r.status)) (
                update_key_own a k (is_key a k) (rejected_row v text detail) keep db x.1 r keys
                  found (find_where_sound (is_key a k) db.keys r found))
              ∙ (unfold rejected_row in refl),
          ground (arith, e),
          ground (arith, e),
        )
    | inr e ↦ absurd (ground (arith, e))
  ]
    where
      a : String
      a = req.agent_id

      k : String
      k = req.key

      keep : (a k : String) (r : KeyRow) → is_key a k (rejected_row v text detail r) ≡ is_key a k r
      keep a k r = unfold rejected_row in refl

  pub reject_effect :
      (row : IntentRow) (p : Intent) (all : List Intent) (db : Db) (x : Result × Db)
      → reject v req row p all db ≡ ok x
      → KeepsOthers req.agent_id req.key db x.1
        × (status_of req.agent_id req.key x.1 ≡ some Status.rejected)
        × (x.1.intents ≡ update_where (is_row row) (void_at v) db.intents)
        × (x.0.verdict ≡ Verdict.rejected)
  unfolding reject void_row
  reject_effect row p all db x h =
      let (recorded, h0, h1) =
        >>=-eq-ok (record_conflicts v req row.intent_id all Resolution.rejected db) _ h in
      let (text, _, h2) = >>=-eq-ok (v.encode _) _ h1 in
      let (stored, h3, h4) =
        >>=-eq-ok (reject_stored v req text (rejection_detail req p) recorded.1) _ h2 in
      let (_, h5, h6) = >>=-eq-ok (void_row v row stored.1) _ h4 in
      let (keys0, intents0, _) =
        record_conflicts_effect v req row.intent_id Resolution.rejected all db recorded h0 in
      let (others, own, intents1, _) =
        reject_stored_effect text (rejection_detail req p) recorded.1 stored h3 in
      let keys2 : x.1.keys ≡ stored.1.keys = ground (arith, h5, h6) in
      (
        KeepsOthers-trans req.agent_id req.key db recorded.1 x.1
            (KeepsOthers-refl req.agent_id req.key db recorded.1 keys0)
            (KeepsOthers-trans req.agent_id req.key recorded.1 stored.1 x.1 others
              (KeepsOthers-refl req.agent_id req.key stored.1 x.1 keys2)),
        ap
              (λ keys.
                Option.map (λ (r : KeyRow). r.status)
                  (find_where (is_key req.agent_id req.key) keys))
              keys2
            ∙ own,
        ground (arith, h5, h6, intents0, intents1),
        ground (arith, h6),
      )

  -- A rejection marks the claim's own key and voids the claim's own intent; any other verdict
  -- leaves both tables as they were.
  abbrev pub Judged : IntentRow → Db → Result × Db → Type 0
  Judged row db x =
      ((x.0.verdict ≡ Verdict.rejected)
        × (status_of req.agent_id req.key x.1 ≡ some Status.rejected)
        × KeepsOthers req.agent_id req.key db x.1
        × (x.1.intents ≡ update_where (is_row row) (void_at v) db.intents))
      ⊎ ((is_granted x.0.verdict ≡ true) × (x.1.keys ≡ db.keys) × (x.1.intents ≡ db.intents))

  serialize_or_proceed_effect :
      (row : IntentRow) (same : List Intent) (o : Option String) (db : Db) (x : Result × Db)
      → serialize_or_proceed v req row same o db ≡ ok x
      → Judged row db x
  unfolding serialize_or_proceed
  serialize_or_proceed_effect row same (some key) db x h = inr (ground arith)
  serialize_or_proceed_effect row same none db x h =
      let (y, e, f) =
        >>=-eq-ok (record_conflicts v req row.intent_id same Resolution.serialized db) _ h in
      let (keys, intents, _) =
        record_conflicts_effect v req row.intent_id Resolution.serialized same db y e in
      inr (ground arith)

  enforce_on_effect :
      (row : IntentRow) (all same others : List Intent) (db : Db) (x : Result × Db)
      → enforce_on v req row all same others db ≡ ok x
      → Judged row db x
  unfolding enforce_on
  enforce_on_effect row all same (p ∷ others) db x h =
      let (kept, own, intents, verdict) = reject_effect row p all db x h in
      inl (verdict, own, kept, intents)
  enforce_on_effect row all same [] db x h =
      let (y, e, f) = >>=-eq-ok (first_pending v req.agent_id same db) _ h in
      rw (← first_pending_effect v req.agent_id same db y e)
        (serialize_or_proceed_effect row same y.0 y.1 x f)

  judge_effect :
      (row : IntentRow) (cs : List Intent) (db : Db) (x : Result × Db)
      → judge v req row cs db ≡ ok x
      → Judged row db x
  unfolding judge
  judge_effect row [] db x h = inr (ground arith)
  judge_effect row (c ∷ cs) db x h = elim (if-cases (not req.enforce) _ _ h) [
    | inl (_, e) ↦
        let (y, f, g) =
          >>=-eq-ok (record_conflicts v req row.intent_id (c ∷ cs) Resolution.observed db) _ e in
        let (keys, intents, _) =
          record_conflicts_effect v req row.intent_id Resolution.observed (c ∷ cs) db y f in
        inr (ground arith)
    | inr (_, e) ↦ enforce_on_effect row (c ∷ cs) _ _ db x e
  ]

  pub resolve_effect :
      (row : IntentRow) (db : Db) (x : Result × Db)
      → resolve_conflicts v req row db ≡ ok x
      → Judged row db x
  unfolding resolve_conflicts conflicting_intents
  resolve_effect row db x h =
      let (y, e, f) = >>=-eq-ok (conflicting_intents v req row.intent_id db) _ h in
      let same : y.1 ≡ db = ground arith in rw (← same) (judge_effect row y.0 y.1 x f)
