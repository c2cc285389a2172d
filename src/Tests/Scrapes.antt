-- ===== src/Tests/Scrapes.antt =====
-- A scrape of one pending key, and what its gauges say of it.
use idemio.Prelude.{◌≡◌, false, not, ◌&&◌, [], ◌∷◌, none, arith, any}
use idemio.Claim.{Status}
use idemio.Config.{read_config}
use idemio.Maintenance.Expiry.{is_expired, is_empty}
use idemio.Reconcile.{Reconciler, select_stale}
use idemio.Relay.{unpublished}
use idemio.Telemetry.{ScrapeServer, Scraped, collect, counts, outbox, lag}
use idemio.Telemetry.Alerts.{is_overdue, has_backlog, has_key_lag, collect_tells}
use idemio.Tests.Data.{one_row_db}
use idemio.Tests.Settings.{environment}

abbrev scrape_server : ScrapeServer
scrape_server = record { now = λ q. 100; fails = λ q. false }

abbrev scraped : Scraped
scraped = record {
  db = one_row_db Status.pending;
  accessed_at = 5 ∷ [];
  ranges = record { table = "conflicts"; name = "conflicts_1"; lower = 0; upper = 200 } ∷ [];
}

abbrev sweeper : Reconciler
sweeper = record { results = none; stale_after = 60; batch = 200 }

collect_tells_example :
    (any (is_overdue sweeper.stale_after) (collect (read_config environment) scrape_server scraped)
      ≡ (not (scrape_server.fails counts)
          && not (is_empty (select_stale sweeper (scrape_server.now counts) scraped.db.keys))))
    × (any has_backlog (collect (read_config environment) scrape_server scraped)
        ≡ (not (scrape_server.fails outbox) && not (is_empty (unpublished 500 scraped.db.intents))))
    × (any has_key_lag (collect (read_config environment) scrape_server scraped) ≡ (
        not (scrape_server.fails (lag "idempotency_keys"))
        && any
            (is_expired
              (read_config environment).retention_keys
              (scrape_server.now (lag "idempotency_keys")))
            scraped.db.keys))
collect_tells_example =
    collect_tells (read_config environment) scrape_server scraped sweeper 500 (omega arith)
      (omega arith)
