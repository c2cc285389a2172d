-- ===== src/Tests/Fronts.antt =====
-- The handlers, the call, the sweep and the stored result, run.
use idemio.Prelude.{
  ℕ, ◌≤◌, ◌≡◌, refl, true, false, ◌&&◌, leb, [], ◌∷◌, none, some, ok, pos, arith, find_where, any,
  length, String,
}
use idemio.Claim.{Status}
use idemio.Downstream.{Disposition, execute}
use idemio.Downstream.Taxonomy.{Truthful, execute-Means}
use idemio.Latency.{new_tracker, retry_after}
use idemio.Latency.Bounds.{AllBounded, retry_after_bounds}
use idemio.Manifest.{is_definitive, in_range}
use idemio.Probe.{Network, probe, executions, read_verdict, outcome_of}
use idemio.Reconcile
use idemio.Reconcile.{Reconciler, Stale, Summary, State, select_stale, to_candidates}
use idemio.Reconcile.Settle.{IsSettled, called_for, FindsPending, resolve_settles}
use idemio.Reconcile.Progress.{IsAnswered, AllClosed, swept, due, is_due, sweep_closes}
use idemio.Tables.{no_rows}
use idemio.Tables.Laws.{row_of}
use idemio.ResultStore
use idemio.ResultStore.{Store, Bucket, place}
use idemio.ResultStore.Laws.{resolve-place}
use idemio.Tests.Data.{
  healthy, row, one_row_db, one_row-IsUnique, created, classification, order_definition,
}

truthful : Truthful created classification true
unfolding is_definitive in_range any
truthful = (λ e. refl, λ e f. cc)

execute-Means_example :
    ((execute created classification).disposition ≡ Disposition.failed → true ≡ false)
    × ((execute created classification).disposition ≡ Disposition.done → true ≡ true)
execute-Means_example = execute-Means created classification true truthful

abbrev bucket : Bucket
bucket = record { held = λ n. none; puts = true; gets = true }

abbrev store : Store
store = record { has_objects = true; inline_cap = pos 1 }

resolve-place_example :
    let (p, after) = place (λ s. s) (some store) bucket "a" "k" "{}" in
    ResultStore.resolve (some store) after p.inline p.ref ≡ ok "{}"
resolve-place_example = resolve-place (λ s. s) bucket "a" "k" "{}" (some store) refl

abbrev reconciler : Reconciler
reconciler = record { results = some store; stale_after = 60; batch = 200 }

abbrev network : Network
network = record {
  base_url = "http://d";
  encode = λ name value. value;
  digest = λ s. s;
  answer = λ url. ok (pos 200, "body");
  decoded = λ body. ok (pos 1, "{}" ∷ []);
}

abbrev meets : Reconcile.Meets
meets = record {
  lookup = λ t. some order_definition;
  network = network;
  others = λ db. db;
  server = healthy;
}

abbrev candidate : Stale
candidate = record { agent_id = "a"; key = "k"; resource_type = "order" }

abbrev none_counted : Summary
none_counted = record { scanned = 1; done = 0; failed = 0; indeterminate = 0; unresolved = 0 }

abbrev state : State
state = record { db = one_row_db Status.pending; bucket = bucket }

finds_pending : FindsPending reconciler meets candidate none_counted state (row Status.pending)
unfolding find_where
finds_pending = (
  record { answers = λ s. refl; locks = refl; commits = refl },
  one_row-IsUnique Status.pending,
  refl,
  refl,
)

resolve_settles_example :
    IsSettled candidate
      (called_for meets candidate (some order_definition))
      state
      (Reconcile.resolve reconciler meets candidate (some order_definition) none_counted state).0
resolve_settles_example =
    resolve_settles reconciler meets candidate none_counted state (row Status.pending)
      (some order_definition) finds_pending

always-IsAnswered : IsAnswered (λ n. meets)
unfolding probe executions read_verdict outcome_of
always-IsAnswered n = (
  ((record { answers = λ s. refl; locks = refl; commits = refl }), λ db. refl),
  λ c. (Status.done, refl),
)

sweep_closes_example :
    AllClosed
      (swept reconciler (λ n. meets) 100 no_rows state).db
      (to_candidates (select_stale reconciler 100 state.db.keys))
    × ((a k : String)
        → (leb (length (due reconciler (λ n. meets) 100 no_rows state)) reconciler.batch
            && is_due reconciler
                (λ n. meets)
                100
                no_rows
                state
                (row_of a k (swept reconciler (λ n. meets) 100 no_rows state).db))
          ≡ false)
sweep_closes_example =
    sweep_closes reconciler (λ n. meets) 100 no_rows state always-IsAnswered
      (one_row-IsUnique Status.pending)

new-AllBounded : AllBounded new_tracker
unfolding new_tracker
new-AllBounded name = (omega arith, omega arith)

retry_after_bounds_example :
    (d : ℕ) × (retry_after "order" new_tracker ≡ some d) × (50000000 ≤ d) × (d ≤ 5000000000)
retry_after_bounds_example = retry_after_bounds "order" new_tracker
