-- ===== src/Tests/Worlds.antt =====
-- A key that is claimed, called and recorded.
use idemio.Prelude.{
  ◌≤◌, ◌≡◌, refl, true, false, [], ◌∷◌, none, some, ok, any, select_where, find_where, update_where,
  count_where,
}
use idemio.Api.Execute.{status_for, completion_of}
use idemio.Claim.{Status}
use idemio.Claim.Complete
use idemio.Claim.Complete.{Completion, complete, complete_row, after_update, completed}
use idemio.Claim.Statements.{
  new_key, insert_claim, record_intent, new_intent, conflicting_intents, in_window, by_latest,
}
use idemio.Claim.Resolve.{resolve_conflicts, judge}
use idemio.Claim.Transaction.{
  claim, locked, finish, commit_with, body, proceed, claim_key, won_claim, with_outcome,
}
use idemio.Downstream.{execute, classify_response}
use idemio.Downstream.Taxonomy.{Truthful, Spares}
use idemio.Manifest.{is_definitive, in_range}
use idemio.Tables.{Db}
use idemio.Tables.Laws.{row_of, status_of}
use idemio.World.{
  World, waiting, spawn, Reach, start, next, claims, calls, persists, AllCalm, after_reply,
}
use idemio.World.Invariant.{Admits}
use idemio.World.AtMostOnce.{at_most_once, status_truthful}
use idemio.Tests.Data.{
  healthy, request, no_rows_db, no_rows-IsUnique, created, classification, inline_placement,
}

find_none : row_of "a" "k" no_rows_db ≡ none
unfolding find_where
find_none = refl

abbrev claimed_db : Db
claimed_db = (claim healthy request no_rows_db).0

granted : spawn (claim healthy request no_rows_db).1 [] ≡ waiting ∷ []
unfolding claim locked finish commit_with body claim_key insert_claim won_claim proceed
    record_intent resolve_conflicts conflicting_intents in_window by_latest with_outcome any
    select_where judge new_intent
granted = refl

truthful : Truthful created classification true
unfolding is_definitive in_range any
truthful = (λ e. refl, λ e f. cc)

abbrev outcome : Completion
outcome =
    completion_of (status_for (execute created classification).disposition) inline_placement
      (execute created classification).detail

recorded : (complete healthy "a" "k" outcome claimed_db).1 ≡ ok true
unfolding claim locked finish commit_with body claim_key insert_claim won_claim proceed
    record_intent resolve_conflicts conflicting_intents in_window by_latest with_outcome any
    select_where judge new_intent complete complete_row after_update Complete.finish count_where
    new_key execute classify_response is_definitive in_range completion_of status_for
recorded = refl

stored : status_of "a" "k" (complete healthy "a" "k" outcome claimed_db).0 ≡ some Status.done
unfolding claim locked finish commit_with body claim_key insert_claim won_claim proceed
    record_intent resolve_conflicts conflicting_intents in_window by_latest with_outcome any
    select_where judge new_intent complete complete_row after_update Complete.finish count_where
    new_key execute classify_response is_definitive in_range completion_of status_for update_where
    find_where completed
stored = refl

abbrev finished : World
finished = record {
  db = (complete healthy "a" "k" outcome claimed_db).0;
  executed = 1;
  workers = after_reply (complete healthy "a" "k" outcome claimed_db).1 outcome [];
}

-- the claim, the call and the record of its outcome
abbrev trace : Reach "a" "k" finished
trace =
    next
      (next
        (next (start no_rows_db find_none no_rows-IsUnique) (claims healthy request _ refl refl))
        (calls created classification true inline_placement [] _ granted))
      (persists healthy outcome [] _ refl)

calm : AllCalm "a" "k" true trace
calm = (((tt, tt), truthful), λ e. cc (recorded, e))

spared : Spares created classification true
unfolding is_definitive in_range any
spared = λ e f. cc

calm_enough : AllCalm "a" "k" false trace
calm_enough = (((tt, tt), spared), λ e. cc (recorded, e))

at_most_once_example : finished.executed ≤ 1
at_most_once_example = at_most_once "a" "k" finished trace calm_enough

status_truthful_example : Admits true Status.done finished.executed
status_truthful_example =
    status_truthful "a" "k" true finished trace Status.done calm (λ e. cc) stored
