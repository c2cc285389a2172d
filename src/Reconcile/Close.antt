-- ===== src/Reconcile/Close.antt =====
-- One candidate of a sweep: its key is closed, and no other key is touched.
use mathlib.Core.Path.{subst}
use idemio.Prelude.{
  true, false, ◌&&◌, Option, none, some, ◌≡◌, refl, sym, ap, ◌∙◌, Except, ok, err, String, ◌==◌,
  eq_iff, and-eq-true, Bool-cases, inl, inr,
}
use idemio.Claim.{Status}
use idemio.Claim.Complete.{Completion, complete, completed, is_pending, has_both}
use idemio.Claim.Complete.Effect.{
  IsHealthy, complete_effect, complete_pending, complete_terminal, Recorded,
}
use idemio.Manifest.{Definition}
use idemio.Probe.{Outcome, Failure, probe}
use idemio.ResultStore.{place}
use idemio.ResultStore.Laws.{place_one_column}
use idemio.Reconcile.{
  Reconciler, Meets, Stale, State, Summary, record_outcome, close, conclude, resolve,
}
use idemio.Reconcile.Settle.{called_for, answered, one-column, probe-called_for}
use idemio.Tables.{KeyRow, Db, Server}
use idemio.Tables.Laws.{row_of, IsUnique}

-- The key has a row; the key has a row whose write is over.
abbrev pub HasRow : String → String → Db → Type 0
HasRow a k db = (row : KeyRow) × (row_of a k db ≡ some row)

abbrev pub IsClosed : String → String → Db → Type 0
IsClosed a k db = (row : KeyRow) × (row_of a k db ≡ some row) × (is_pending row.status ≡ false)

-- What a step of a sweep does to every key: a row stays, a closed key stays closed, and a key that
-- is pending after it was so before, with the same row.
pub record Advances (db db' : Db) : Type 0 where
  pub unique : IsUnique db'
  pub stays : (a k : String) → HasRow a k db → HasRow a k db'
  pub stays_closed : (a k : String) → IsClosed a k db → IsClosed a k db'
  pub was_pending :
      (a k : String) (row : KeyRow)
      → row_of a k db' ≡ some row
      → is_pending row.status ≡ true
      → row_of a k db ≡ some row

pub Advances-refl : (db db' : Db) → IsUnique db → db' ≡ db → Advances db db'
Advances-refl db db' u same =
    subst (λ d. Advances db d) (sym same)
      (record {
        unique = u;
        stays = λ a k h. h;
        stays_closed = λ a k h. h;
        was_pending = λ a k row h p. h;
      })

pub Advances-trans : (db db1 db2 : Db) → Advances db db1 → Advances db1 db2 → Advances db db2
Advances-trans db db1 db2 p q = record {
  unique = q.unique;
  stays = λ a k h. q.stays a k (p.stays a k h);
  stays_closed = λ a k h. q.stays_closed a k (p.stays_closed a k h);
  was_pending = λ a k row h w. p.was_pending a k row (q.was_pending a k row h w) w;
}

some_inj : {x y : KeyRow} → some x ≡ some y → x ≡ y
some_inj h = cc h

module _ (v : Server) (agent key : String) (c : Completion)
    (over : is_pending c.status ≡ false) where
  recorded_key :
      (a k : String) (db' : Db) (row : KeyRow)
      → (agent == a && key == k) ≡ true
      → row_of agent key db' ≡ some row
      → row_of a k db' ≡ some row
  recorded_key a k db' row e found =
      let (same_agent, same_key) = and-eq-true (agent == a) (key == k) e in
      rw (← (eq_iff agent a).0 same_agent, ← (eq_iff key k).0 same_key) found

  completed_over : (row : KeyRow) → is_pending (completed v c row).status ≡ false
  unfolding completed
  completed_over row = over

  Recorded-Advances : (db db' : Db) → IsUnique db → Recorded v agent key c db db' → Advances db db'
  Recorded-Advances db db' u ((old, found, waiting, now), (others, unique), intents) = record {
    unique = unique u;
    stays = λ a k h. elim (Bool-cases (agent == a && key == k)) [
      | inl e ↦ (completed v c old, recorded_key a k db' (completed v c old) e now)
      | inr e ↦ (h.0, others a k e ∙ h.1)
    ];
    stays_closed = λ a k h. elim (Bool-cases (agent == a && key == k)) [
      | inl e ↦
          (completed v c old, recorded_key a k db' (completed v c old) e now, completed_over old)
      | inr e ↦ (h.0, others a k e ∙ h.1, h.2)
    ];
    was_pending = λ a k row h w. elim (Bool-cases (agent == a && key == k)) [
      | inl e ↦
          let same = recorded_key a k db' (completed v c old) e now in
          let closed = completed_over old in
          let row_is : row ≡ completed v c old = some_inj (sym h ∙ same) in
          let still = ap (λ (r : KeyRow). is_pending r.status) row_is in
          let clash : true ≡ false = sym w ∙ still ∙ closed in cc clash
      | inr e ↦ sym (others a k e) ∙ h
    ];
  }

  complete-Advances : (db : Db) → IsUnique db → Advances db (complete v agent key c db).0
  complete-Advances db u = elim (complete_effect v agent key c db u) [
    | inl (same, _) ↦ Advances-refl db (complete v agent key c db).0 u same
    | inr (recorded, _) ↦ Recorded-Advances db (complete v agent key c db).0 u recorded
  ]

  complete-IsClosed :
      (db : Db)
      → IsHealthy v
      → IsUnique db
      → has_both c ≡ false
      → HasRow agent key db
      → IsClosed agent key (complete v agent key c db).0
  complete-IsClosed db healthy u one (row, found) = elim (Bool-cases (is_pending row.status)) [
    | inl e ↦
        let (_, now) = complete_pending v agent key c db row healthy u one found e in
        (completed v c row, now, completed_over row)
    | inr e ↦
        let (same, _) = complete_terminal v agent key c db row u found e in (row, rw same found, e)
  ]

-- a server that fails nothing, and nobody else at work
abbrev pub IsAlone : Meets → Type 0
IsAlone m = IsHealthy m.server × ((db : Db) → m.others db ≡ db)

module _ (r : Reconciler) (m : Meets) (c : Stale) (s : Summary) (w : State) where
  -- what resolve does to the keys: a step, after which the candidate is closed
  abbrev pub Resolves : State → Type 0
  Resolves w' = Advances w.db w'.db × IsClosed c.agent_id c.key w'.db

  close-Resolves :
      (status : Status) (result detail : String)
      → IsAlone m
      → IsUnique w.db
      → HasRow c.agent_id c.key w.db
      → is_pending status ≡ false
      → Resolves (close r m c status result detail s w).0
  unfolding close record_outcome
  close-Resolves status result detail (healthy, quiet) u has over =
      let p = (place m.network.digest r.results w.bucket c.agent_id c.key result).0 in
      let completion : Completion = record {
        status = status;
        result = p.inline;
        result_ref = p.ref;
        detail = detail;
      } in
      let column =
        one-column (p.inline == "") (p.ref == "")
          (place_one_column m.network.digest w.bucket c.agent_id c.key result r.results) in
      subst
        (λ db.
          Advances w.db (complete m.server c.agent_id c.key completion db).0
          × IsClosed c.agent_id c.key (complete m.server c.agent_id c.key completion db).0)
        (sym (quiet w.db))
        (
          complete-Advances m.server c.agent_id c.key completion over w.db u,
          complete-IsClosed m.server c.agent_id c.key completion over w.db healthy u column has,
        )

  conclude-Resolves :
      (reply : Except Failure (Outcome × String)) (status : Status)
      → IsAlone m
      → IsUnique w.db
      → HasRow c.agent_id c.key w.db
      → answered reply ≡ some status
      → Resolves (conclude r m c reply s w).0
  unfolding conclude
  conclude-Resolves (err e) status alone u has called = cc
  conclude-Resolves (ok (Outcome.executed, x)) status alone u has called =
      close-Resolves _ _ _ alone u has refl
  conclude-Resolves (ok (Outcome.not_executed, x)) status alone u has called =
      close-Resolves _ _ _ alone u has refl
  conclude-Resolves (ok (Outcome.unknown, x)) status alone u has called =
      close-Resolves _ _ _ alone u has refl

  pub resolve-Resolves :
      (d : Option Definition) (status : Status)
      → IsAlone m
      → IsUnique w.db
      → HasRow c.agent_id c.key w.db
      → called_for m c d ≡ some status
      → Resolves (resolve r m c d s w).0
  unfolding resolve
  resolve-Resolves none status alone u has called = close-Resolves _ _ _ alone u has refl
  resolve-Resolves (some d) status alone u has called =
      conclude-Resolves (probe m.network d.probe_path c.agent_id c.key) status alone u has
        (probe-called_for m.network d.probe_path c.agent_id c.key ∙ called)
