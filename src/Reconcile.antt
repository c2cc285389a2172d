-- ===== src/Reconcile.antt =====
-- internal/reconcile/reconcile.go: the sweep that closes the keys whose writer went away. Metrics,
-- log lines and the ticker of Run are not modelled.
pub mod Select
pub mod Sweep
pub mod Settle
pub mod Close
pub mod Progress
use idemio.Prelude.{
  ℕ, suc, ◌+◌, String, Bool, true, false, ◌&&◌, Option, none, some, List, [], ◌∷◌, ltb, leb, Except,
  ok, err, select_where, take, length, if◌then◌else◌,
}
use idemio.Manifest.{Definition}
use idemio.Claim.{Status}
use idemio.Claim.Complete.{Completion, complete, is_pending}
use idemio.Probe.{Network, Outcome, Failure, probe}
use idemio.ResultStore.{Store, Bucket, Placement, place}
use idemio.Tables.{KeyRow, Db, Server, Fault}

abbrev pub default_batch : ℕ
default_batch = 200

pub record Summary : Type 0 where
  pub scanned : ℕ
  pub done : ℕ
  pub failed : ℕ
  pub indeterminate : ℕ
  pub unresolved : ℕ

pub record Stale : Type 0 where
  pub agent_id : String
  pub key : String
  pub resource_type : String

pub record Reconciler : Type 0 where
  pub results : Option Store
  pub stale_after : ℕ
  pub batch : ℕ

-- `claimed_at < now() - stale_after`, the times as numbers
abbrev pub is_stale : ℕ → ℕ → KeyRow → Bool
is_stale now stale_after r = is_pending r.status && ltb (r.claimed_at + stale_after) now

unfoldable pub insert_oldest : KeyRow → List KeyRow → List KeyRow
insert_oldest r [] = r ∷ []
insert_oldest r (x ∷ xs) =
    let rest = insert_oldest r xs in if leb r.claimed_at x.claimed_at then r ∷ x ∷ xs else x ∷ rest

-- `ORDER BY claimed_at`
unfoldable pub by_claimed_at : List KeyRow → List KeyRow
by_claimed_at [] = []
by_claimed_at (r ∷ rows) = insert_oldest r (by_claimed_at rows)

-- selectStale
unfoldable pub select_stale : Reconciler → ℕ → List KeyRow → List KeyRow
select_stale r now keys =
    take r.batch (by_claimed_at (select_where (is_stale now r.stale_after) keys))

abbrev pub to_stale : KeyRow → Stale
to_stale r = record {
  agent_id = r.agent_id;
  key = r.idempotency_key;
  resource_type = r.resource_type;
}

unfoldable pub to_candidates : List KeyRow → List Stale
to_candidates [] = []
to_candidates (r ∷ rows) = to_stale r ∷ to_candidates rows

-- the tables and the bucket, which the other processes share
pub record State : Type 0 where
  pub db : Db
  pub bucket : Bucket

-- What the resolution of one candidate meets: the manifest that is current then, the network, the
-- transaction, and what the other processes do to the tables between the probe and that transaction.
pub record Meets : Type 0 where
  pub lookup : String → Option Definition
  pub network : Network
  pub others : Db → Db
  pub server : Server

-- the counter that a closed key is counted in
abbrev pub count_closed : Status → Summary → Summary
count_closed Status.done s = record s { done = suc s.done }
count_closed Status.failed s = record s { failed = suc s.failed }
count_closed _ s = record s { indeterminate = suc s.indeterminate }

-- what follows Complete in `complete`, and in its callers: `false` counts nothing
unfoldable pub settle : Status → Summary → Except Fault Bool → Summary
settle status s (err e) = record s { unresolved = suc s.unresolved }
settle status s (ok false) = s
settle status s (ok true) = count_closed status s

unfoldable pub record_outcome : Meets → Stale → Summary → Bucket → Completion → Db → State × Summary
record_outcome m c s bucket completion db =
    let (after, reply) = complete m.server c.agent_id c.key completion db in
    (record { db = after; bucket = bucket }, settle completion.status s reply)

-- complete, with the counting of resolve and escalate
unfoldable pub close :
    Reconciler → Meets → Stale → Status → String → String → Summary → State → State × Summary
close r m c status result detail s w =
    let (placement, bucket) = place m.network.digest r.results w.bucket c.agent_id c.key result in
    record_outcome m c s bucket
      (record {
        status = status;
        result = placement.inline;
        result_ref = placement.ref;
        detail = detail;
      })
      (m.others w.db)

unfoldable pub conclude :
    Reconciler
    → Meets
    → Stale
    → Except Failure (Outcome × String)
    → Summary
    → State
    → State × Summary
conclude r m c (err e) s w = (w, record s { unresolved = suc s.unresolved })
conclude r m c (ok (Outcome.executed, result)) s w =
    close r m c Status.done result "resolved_by_probe" s w
conclude r m c (ok (Outcome.not_executed, result)) s w =
    close r m c Status.failed "" "probe_found_no_execution" s w
conclude r m c (ok (Outcome.unknown, result)) s w =
    close r m c Status.indeterminate "" "probe_returned_unknown" s w

-- resolve, with escalate
unfoldable pub resolve :
    Reconciler → Meets → Stale → Option Definition → Summary → State → State × Summary
resolve r m c none s w = close r m c Status.indeterminate "" "no_probe_registered" s w
resolve r m c (some d) s w = conclude r m c (probe m.network d.probe_path c.agent_id c.key) s w

-- the loop of Sweep; the n-th candidate meets `meets n`
unfoldable pub resolve_all :
    Reconciler → (ℕ → Meets) → ℕ → List Stale → Summary → State → State × Summary
resolve_all r meets n [] s w = (w, s)
resolve_all r meets n (c ∷ rest) s w =
    let (after, counted) = resolve r (meets n) c ((meets n).lookup c.resource_type) s w in
    resolve_all r meets (suc n) rest counted after

-- Sweep; `selected` is the reply of the query
unfoldable pub sweep :
    Reconciler → (ℕ → Meets) → Except Fault (List Stale) → State → State × Except Fault Summary
sweep r meets (err e) w = (w, err e)
sweep r meets (ok candidates) w =
    let (after, summary) =
      resolve_all r meets 0 candidates
        (record {
          scanned = length candidates;
          done = 0;
          failed = 0;
          indeterminate = 0;
          unresolved = 0;
        })
        w in
    (after, ok summary)

-- staleKeys
unfoldable pub stale_keys : Reconciler → ℕ → Bool → Fault → Db → Except Fault (List Stale)
stale_keys r now fails e db =
    if fails then err e else ok (to_candidates (select_stale r now db.keys))
