-- ===== src/Claim/Transaction/Rollback.antt =====
-- Which verdicts a transaction is committed with: claimed and rejected, and no other.
use idemio.Prelude.{Bool, true, false, Option, List, [], ◌∷◌, ◌≡◌, arith, ok, >>=-eq-ok, String}
use idemio.Claim.{Verdict, Request, Record, Result, Intent}
use idemio.Claim.Statements.{record_intent}
use idemio.Claim.Resolve.{resolve_conflicts, judge, enforce_on, reject, serialize_or_proceed}
use idemio.Claim.Transaction.{
  body, proceed, claim_key, claim_found, after_reclaim, won_claim, with_outcome,
}
use idemio.Tables.{IntentRow, Db, Server}

-- the verdicts of a transaction that is committed
abbrev pub is_committed : Verdict → Bool
is_committed Verdict.claimed = true
is_committed Verdict.rejected = true
is_committed _ = false

-- what a fresh claim may turn into
abbrev is_judged : Verdict → Bool
is_judged Verdict.claimed = true
is_judged Verdict.rejected = true
is_judged Verdict.serialize = true
is_judged _ = false

module _ (v : Server) (req : Request) where
  claim_found_verdict :
      (found : Record) (db : Db) (x : (Result × Bool) × Db)
      → claim_found v req found db ≡ ok x
      → is_committed x.0.0.verdict ≡ x.0.1
  unfolding claim_found after_reclaim
  claim_found_verdict found db x h = ground arith

  claim_key_verdict :
      (db : Db) (x : (Result × Bool) × Db)
      → claim_key v req db ≡ ok x
      → is_committed x.0.0.verdict ≡ x.0.1
  unfolding claim_key won_claim
  claim_key_verdict db x h = grind (arith, claim_found_verdict)

  reject_verdict :
      (row : IntentRow) (p : Intent) (all : List Intent) (db : Db) (x : Result × Db)
      → reject v req row p all db ≡ ok x
      → x.0.verdict ≡ Verdict.rejected
  unfolding reject
  reject_verdict row p all db x h = ground arith

  serialize_or_proceed_verdict :
      (row : IntentRow) (same : List Intent) (o : Option String) (db : Db) (x : Result × Db)
      → serialize_or_proceed v req row same o db ≡ ok x
      → is_judged x.0.verdict ≡ true
  unfolding serialize_or_proceed
  serialize_or_proceed_verdict row same o db x h = ground arith

  enforce_on_verdict :
      (row : IntentRow) (all same others : List Intent) (db : Db) (x : Result × Db)
      → enforce_on v req row all same others db ≡ ok x
      → is_judged x.0.verdict ≡ true
  unfolding enforce_on
  enforce_on_verdict row all same [] db x h = grind (arith, serialize_or_proceed_verdict)
  enforce_on_verdict row all same (p ∷ others) db x h =
      ground (arith, reject_verdict row p all db x)

  judge_verdict :
      (row : IntentRow) (cs : List Intent) (db : Db) (x : Result × Db)
      → judge v req row cs db ≡ ok x
      → is_judged x.0.verdict ≡ true
  unfolding judge
  judge_verdict row [] db x h = ground arith
  judge_verdict row (c ∷ cs) db x h = grind (arith, enforce_on_verdict)

  resolve_verdict :
      (row : IntentRow) (db : Db) (x : Result × Db)
      → resolve_conflicts v req row db ≡ ok x
      → is_judged x.0.verdict ≡ true
  unfolding resolve_conflicts
  resolve_verdict row db x h = grind (arith, judge_verdict)

  proceed_verdict :
      (result : Result) (db : Db) (x : (Result × Bool) × Db)
      → proceed v req result db ≡ ok x
      → is_committed x.0.0.verdict ≡ x.0.1
  unfolding proceed with_outcome
  proceed_verdict result db x h =
      let (a, _, h1) = >>=-eq-ok (record_intent v req db) _ h in
      let (o, judged, h2) = >>=-eq-ok (resolve_conflicts v req a.0 a.1) _ h1 in
      ground (arith, resolve_verdict a.0 a.1 o judged)

  pub body_verdict :
      (db : Db) (x : (Result × Bool) × Db)
      → body v req db ≡ ok x
      → is_committed x.0.0.verdict ≡ x.0.1
  unfolding body
  body_verdict db x h = grind (arith, proceed_verdict, claim_key_verdict)
