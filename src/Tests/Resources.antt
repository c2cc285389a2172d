-- ===== src/Tests/Resources.antt =====
-- Claims on one resource.
use idemio.Prelude.{
  ◌≡◌, refl, true, false, [], ◌∷◌, none, Except, ok, err, any, select_where, find_where, pos,
}
use idemio.Claim.{Verdict, Status, Request, Result, of_verdict}
use idemio.Claim.Resolve.{
  resolve_conflicts, judge, enforce_on, serialize_or_proceed, first_pending, is_in_flight, has_id,
  record_conflicts, insert_conflicts, capped, new_conflict,
}
use idemio.Claim.Resolve.Alone.{is_rival, is_under_way}
use idemio.Claim.Statements.{
  new_key, insert_claim, record_intent, new_intent, conflicting_intents, in_window, by_latest,
  insert_latest,
}
use idemio.Claim.Transaction.{
  claim, locked, finish, commit_with, body, proceed, claim_key, won_claim, with_outcome,
}
use idemio.Claim.Transaction.Alone.{granted_alone}
use idemio.Conflict.{compatible, scopes_disjoint, overlaps}
use idemio.Resource.{is_rival_of, IsFresh, Reach, start, next, claims}
use idemio.Resource.Alone.{intents_alone}
use idemio.Manifest.{Operation, class_append}
use idemio.Tables.{KeyRow, IntentRow, Db, Server, Fault}
use idemio.Tests.Data.{healthy, request, no_rows_db, row, replace_order}

abbrev enforced : Request
enforced = record request { enforce = true }

-- a write of the same agent that is done
abbrev earlier_intent : IntentRow
earlier_intent = record {
  intent_id = "i";
  agent_id = "a";
  idempotency_key = "j";
  resource_type = "order";
  resource_id = "1";
  operation = "set_price";
  declared = replace_order;
  payload = "{}";
  emitted_at = 90;
  published_at = none;
  voided_at = none;
}

abbrev earlier_key : KeyRow
earlier_key = record (row Status.done) { idempotency_key = "j" }

abbrev earlier_db : Db
earlier_db = record { keys = earlier_key ∷ []; intents = earlier_intent ∷ []; conflicts = [] }

abbrev result_or_none : Except Fault Result → Result
result_or_none (ok r) = r
result_or_none (err e) = of_verdict Verdict.lock_timeout

abbrev grant : Result
grant = result_or_none (claim healthy enforced earlier_db).1

granted : ((claim healthy enforced earlier_db).1 ≡ ok grant) × (grant.verdict ≡ Verdict.claimed)
unfolding claim locked finish commit_with body claim_key insert_claim won_claim proceed
    record_intent resolve_conflicts conflicting_intents in_window by_latest insert_latest
    with_outcome any select_where find_where judge new_intent new_key enforce_on
    serialize_or_proceed first_pending is_in_flight has_id record_conflicts insert_conflicts capped
    new_conflict compatible scopes_disjoint overlaps
granted = (refl, refl)

granted_alone_example :
    (any (is_rival healthy enforced) earlier_db.intents ≡ false)
    × (any
          (is_under_way healthy enforced earlier_db.intents)
          (claim healthy enforced earlier_db).0.keys
        ≡ false)
    × ((claim healthy enforced earlier_db).0.intents
        ≡ new_intent healthy enforced ∷ earlier_db.intents)
granted_alone_example = granted_alone healthy enforced earlier_db grant refl granted.0 granted.1

abbrev append_order : Operation
append_order = record { class = class_append; scope = [] }

abbrev appended : Request
appended = record enforced { agent_id = "b"; key = "l"; declared = append_order }

abbrev later : Server
later = record healthy { now = 200; uuid = λ n. "w" }

abbrev claimed_db : Db
claimed_db = (claim healthy enforced no_rows_db).0

abbrev both_db : Db
both_db = (claim later appended claimed_db).0

both_live : both_db.intents ≡ new_intent later appended ∷ new_intent healthy enforced ∷ []
unfolding claim locked finish commit_with body claim_key insert_claim won_claim proceed
    record_intent resolve_conflicts conflicting_intents in_window by_latest insert_latest
    with_outcome any select_where find_where judge new_intent new_key compatible scopes_disjoint
    overlaps
both_live = refl

fresh : IsFresh "w" claimed_db
unfolding claim locked finish commit_with body claim_key insert_claim won_claim proceed
    record_intent resolve_conflicts conflicting_intents in_window by_latest insert_latest
    with_outcome any select_where find_where judge new_intent new_key
fresh = refl

fresh_start : IsFresh "u" no_rows_db
unfolding any
fresh_start = refl

reached : Reach "order" (pos 1000) both_db
reached =
    next
      (next (start no_rows_db refl)
        (claims healthy enforced no_rows_db (λ t. (refl, refl)) fresh_start))
      (claims later appended claimed_db (λ t. (refl, refl)) fresh)

live :
    ((new_intent later appended).resource_type ≡ "order")
    × ((new_intent later appended).voided_at ≡ none)
unfolding new_intent
live = (refl, refl)

intents_alone_example :
    any (is_rival_of (pos 1000) (new_intent later appended)) (new_intent healthy enforced ∷ [])
    ≡ false
intents_alone_example =
    intents_alone "order" (pos 1000) reached [] (new_intent later appended)
      (new_intent healthy enforced ∷ []) both_live live.0 live.1
