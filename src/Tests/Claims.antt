-- ===== src/Tests/Claims.antt =====
-- The transactions on one key, run.
use idemio.Prelude.{◌≡◌, ◌⊎◌, refl, true, [], ◌∷◌, some, ok, find_where, count_where}
use idemio.Api.Execute.{persist_attempts}
use idemio.Api.Execute.Persist.{persist_recorded}
use idemio.Claim.{Status, Resolution, Intent}
use idemio.Claim.Complete
use idemio.Claim.Complete.{Completion, complete, complete_row, after_update, completed, is_pending}
use idemio.Claim.Complete.Effect.{
  Recorded, Confirms, Refuses, complete_effect, IsHealthy, complete_pending,
}
use idemio.Claim.Resolve.{record_conflicts, insert_conflicts, capped, new_conflict}
use idemio.Claim.Transaction.{claim}
use idemio.Claim.Transaction.Effect.{Effect, claim-Effect}
use idemio.Tables.{Db}
use idemio.Tables.Laws.{row_of, status_of}
use idemio.Tests.Data.{
  healthy, request, no_rows_db, row, one_row_db, one_row-IsUnique, replace_order,
}

claim-Effect_example : Effect healthy request no_rows_db (claim healthy request no_rows_db)
claim-Effect_example = claim-Effect healthy request no_rows_db

abbrev done_here : Completion
done_here = record { status = Status.done; result = "{}"; result_ref = ""; detail = "" }

healthy-IsHealthy : IsHealthy healthy
healthy-IsHealthy = record { answers = λ s. refl; locks = refl; commits = refl }

found : (s : Status) → row_of "a" "k" (one_row_db s) ≡ some (row s)
unfolding find_where
found s = refl

complete_effect_example :
    (((complete healthy "a" "k" done_here (one_row_db Status.pending)).0
        ≡ one_row_db Status.pending)
      × Refuses healthy "a" "k" done_here
          (complete healthy "a" "k" done_here (one_row_db Status.pending)).1)
    ⊎ (Recorded healthy "a" "k" done_here
          (one_row_db Status.pending)
          (complete healthy "a" "k" done_here (one_row_db Status.pending)).0
        × Confirms healthy "a" "k" done_here
            (complete healthy "a" "k" done_here (one_row_db Status.pending)).1)
complete_effect_example =
    complete_effect healthy "a" "k" done_here (one_row_db Status.pending)
      (one_row-IsUnique Status.pending)

complete_pending_example :
    ((complete healthy "a" "k" done_here (one_row_db Status.pending)).1 ≡ ok true)
    × (row_of "a" "k" (complete healthy "a" "k" done_here (one_row_db Status.pending)).0
        ≡ some (completed healthy done_here (row Status.pending)))
complete_pending_example =
    complete_pending healthy "a" "k" done_here (one_row_db Status.pending) (row Status.pending)
      healthy-IsHealthy (one_row-IsUnique Status.pending) refl (found Status.pending) refl

told :
    (persist_attempts "a" "k" done_here
      (record { others = λ db. db; server = healthy } ∷ [])
      (one_row_db Status.pending)).1
    ≡ true
unfolding persist_attempts complete Complete.finish complete_row after_update count_where
told = refl

persist_recorded_example :
    status_of "a" "k"
      (persist_attempts "a" "k" done_here
        (record { others = λ db. db; server = healthy } ∷ [])
        (one_row_db Status.pending)).0
    ≡ some Status.done
persist_recorded_example =
    persist_recorded "a" "k" done_here (record { others = λ db. db; server = healthy } ∷ [])
      (one_row_db Status.pending) (one_row-IsUnique Status.pending) (λ db u. u, tt) told

abbrev other : Intent
other = record { id = "i"; agent_id = "b"; key = "l"; declared = replace_order }

abbrev conflict_db : Db
conflict_db = record no_rows_db {
  conflicts = new_conflict healthy request "u" Resolution.observed 1 other ∷ [];
}

recorded_one :
    record_conflicts healthy request "u" (other ∷ []) Resolution.observed no_rows_db
    ≡ ok (healthy.uuid 1, conflict_db)
unfolding record_conflicts capped insert_conflicts new_conflict
recorded_one = refl
