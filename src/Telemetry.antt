-- ===== src/Telemetry.antt =====
-- internal/telemetry/telemetry.go: the gauges that a scrape reads from the database. The counters
-- and histograms, and the registry of the names, are Prometheus's.
pub mod Alerts
use idemio.Prelude.{
  ℕ, String, Bool, true, false, none, some, List, [], ◌∷◌, ◌++◌, map, leb, ltb_int, ℤ, pos, negsuc,
  ◌+ℤ◌, zero, suc, count_where, select_where, if◌then◌else◌,
}
use idemio.Claim.{Status}
use idemio.Claim.Complete.{is_pending}
use idemio.Config.{Config}
use idemio.Maintenance.Partitions.{Range}
use idemio.Relay.{is_none}
use idemio.Startup.{latest_bound, until, verified_tables}
use idemio.Tables.{Db}

pub data Metric : Type 0 where
  indeterminate_keys pending_keys unpublished_intents : ℕ → Metric
  oldest_pending_age relay_lag : ℤ → Metric
  partition_headroom retention_lag : String → ℤ → Metric

-- the queries of a scrape
pub data Query : Type 0 where
  counts outbox : Query
  bound lag : String → Query

-- the time at which each query runs, and those that fail; the timeout of a scrape is a failure
pub record ScrapeServer : Type 0 where
  pub now : Query → ℕ
  pub fails : Query → Bool

-- the tables, the times of the rows of payload_access_audit, and the partitions
pub record Scraped : Type 0 where
  pub db : Db
  pub accessed_at : List ℕ
  pub ranges : List Range

abbrev pub is_indeterminate : Status → Bool
is_indeterminate Status.indeterminate = true
is_indeterminate _ = false

unfoldable pub least : ℕ → List ℕ → ℕ
least m [] = m
least m (t ∷ ts) = least (if leb m t then m else t) ts

-- `coalesce(extract(epoch FROM now() - min(…)), 0)`
unfoldable pub oldest_age : ℕ → List ℕ → ℤ
oldest_age now [] = pos 0
oldest_age now (t ∷ ts) = until now (least t ts)

-- the first query of Collect
unfoldable pub collect_counts : ScrapeServer → Db → List Metric
collect_counts v db =
    if v.fails counts
    then []
    else indeterminate_keys (count_where (λ k. is_indeterminate k.status) db.keys)
      ∷ pending_keys (count_where (λ k. is_pending k.status) db.keys)
      ∷ oldest_pending_age (
          oldest_age (v.now counts)
            (map (λ k. k.claimed_at) (select_where (λ k. is_pending k.status) db.keys)))
      ∷ []

-- the loop of Collect; a bound that is NULL does not scan
unfoldable pub collect_headroom : ScrapeServer → List Range → List String → List Metric
collect_headroom v rs [] = []
collect_headroom v rs (table ∷ tables) =
    let rest = collect_headroom v rs tables in
    if v.fails (bound table) then rest else elim (latest_bound table rs) [
      | none ↦ rest
      | some latest ↦ partition_headroom table (until latest (v.now (bound table))) ∷ rest
    ]

-- collectOutbox
unfoldable pub collect_outbox : ScrapeServer → Db → List Metric
collect_outbox v db =
    if v.fails outbox
    then []
    else unpublished_intents (count_where (λ i. is_none i.published_at) db.intents)
      ∷ relay_lag (
          oldest_age (v.now outbox)
            (map (λ i. i.emitted_at) (select_where (λ i. is_none i.published_at) db.intents)))
      ∷ []

pub record Window : Type 0 where
  pub table : String
  pub hot : ℤ
  pub times : List ℕ

-- the map of the windows, in one order of its keys
unfoldable pub windows : Config → Scraped → List Window
windows cfg d =
    record {
      table = "idempotency_keys";
      hot = cfg.retention_keys;
      times = map (λ k. k.created_at) d.db.keys;
    }
    ∷ record {
      table = "write_intents";
      hot = cfg.retention_intents;
      times = map (λ i. i.emitted_at) d.db.intents;
    }
    ∷ record {
      table = "conflicts";
      hot = cfg.retention_conflicts;
      times = map (λ c. c.detected_at) d.db.conflicts;
    }
    ∷ record { table = "payload_access_audit"; hot = cfg.retention_audit; times = d.accessed_at }
    ∷ []

abbrev pub negate : ℤ → ℤ
negate (pos zero) = pos zero
negate (pos (suc n)) = negsuc n
negate (negsuc n) = pos (suc n)

-- `(now() - make_interval(secs => $1)) - min(…)`, or 0
unfoldable pub past_window : ℕ → ℤ → List ℕ → ℤ
past_window now hot [] = pos 0
past_window now hot (t ∷ ts) = until now (least t ts) +ℤ negate hot

abbrev pub at_least_zero : ℤ → ℤ
at_least_zero l = if ltb_int l (pos 0) then pos 0 else l

-- the loop of collectRetentionLag
unfoldable pub collect_lags : ScrapeServer → List Window → List Metric
collect_lags v [] = []
collect_lags v (w ∷ ws) =
    let rest = collect_lags v ws in
    if v.fails (lag w.table)
    then rest
    else retention_lag w.table (at_least_zero (past_window (v.now (lag w.table)) w.hot w.times))
      ∷ rest

-- collectRetentionLag
unfoldable pub collect_retention_lag : Config → ScrapeServer → Scraped → List Metric
collect_retention_lag cfg v d = collect_lags v (windows cfg d)

-- Collect
unfoldable pub collect : Config → ScrapeServer → Scraped → List Metric
collect cfg v d =
    collect_counts v d.db
    ++ (collect_headroom v d.ranges verified_tables
        ++ (collect_outbox v d.db ++ collect_retention_lag cfg v d))
