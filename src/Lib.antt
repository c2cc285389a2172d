-- ===== src/Lib.antt =====
-- Idemio is a layer between agents and a downstream service: an agent sends each write with an
-- idempotency key, and Idemio lets the write through at most once. A claim transaction in Postgres
-- gives the key to one request and holds back writes that conflict with a recent one; the request
-- that won calls the downstream, classifies the reply by the manifest of the resource type, and
-- records the outcome on the key; a reconciler closes the keys whose writer went away, by asking the
-- downstream how often it executed them. This library models those parts and proves what the
-- at-most-once promise rests on.
--
-- The parts and their files:
-- - Claim (internal/claim): the types of claim.go; Claim.Statements its SQL statements,
--   Claim.Resolve the conflict check (resolveConflicts, reject, recordConflicts, firstPending),
--   Claim.Transaction the transaction (Claim, lockResource, claimKey), Claim.Complete the record of
--   an outcome (Complete).
-- - Tables (migrations/0001_init.sql): the tables as lists of rows, and the database server.
-- - Conflict (internal/conflict) the matrix of compatible operations; Manifest
--   (internal/manifest/manifest.go) the documents and their validation, Manifest.Load
--   (internal/manifest/load.go) the snapshot that a directory gives and its reload.
-- - Downstream (internal/downstream) the call and its classification; ResultStore
--   (internal/resultstore, internal/correlation) where a result is kept.
-- - Api (internal/api): Api.Identity the caller, Api.Serialize the wait for an earlier write,
--   Api.Execute the call and persistOutcome, Api.Existing awaitCompletion, writeExisting and
--   handleRead, Api.Write handleWrite, Api.Reads the read endpoints (reads.go), their pages and
--   cursors, and Api.Reads.Audit their audit (audit.go).
-- - Probe (internal/probe) and Reconcile (internal/reconcile): the sweep of stale keys.
-- - Config (internal/config): the settings, their validation, and Config.Timing what it says of time.
-- - Maintenance (internal/maintenance): Maintenance.Expiry the deletion of old keys,
--   Maintenance.Partitions the partitions made ahead, Maintenance.Retire the retirement of old ones,
--   with the archiver that cmd/reconciler hands it.
-- - Telemetry (internal/telemetry): the gauges that a scrape reads from the database.
-- - Canonical (internal/canonical): the hash of a request, Canonical.Numbers the numbers it admits and
--   Canonical.Separation what one hash says. Relay (internal/relay): the publication of intents.
-- - Latency (internal/latency): the advice of Retry-After.
-- - Fake (cmd/fakedownstream): the downstream of the drills, Fake.Oracle what its ledger says,
--   Fake.Listener its switchable listener.
-- - Migrate (internal/store/migrate.go): the migration runner.
-- - Archive (internal/archive): the records of schema.go, Archive.Storage what is read and written,
--   Archive.Transfer Archive and Restore, with the restore command of cmd/reconciler.
-- - Startup (internal/store/verify.go, internal/objectstore): the checks of a start,
--   Startup.Activation the activation row and Watch (internal/manifest/activation.go, load.go),
--   Startup.Server the start and drain of cmd/idemio, Startup.Commands those of cmd/reconciler and
--   cmd/relay.
-- - World: all of these seen from one key, as a step relation. Resource: the intents of one resource
--   type under claims, completions, the relay and retention, as another.
-- - Prelude: numbers, texts, lists and results that the parts share. Tests: runs of the model.
--
-- A transaction is a function of the tables and of a Server, the parameter for what Postgres does:
-- its clock, its identifiers, jsonb, the lock, each statement's failure and the commit, which may be
-- applied, refused, or applied with its reply lost. A transaction is one step: the advisory lock and
-- the row locks of the statements serialise those that touch the same rows. HTTP, JSON, SHA-256,
-- JCS, the broker and the object store are parameters too, and the handlers take the hash of a
-- request as one. What other processes do between two steps of a handler is a function of the tables
-- (`others`).
--
-- Loops: the polling loops of the handlers run over the list of the polls that fit before their
-- deadline, and persistOutcome over one element for each of its attempts, so each is structural and
-- needs no fuel; so do the batches of ExpireKeys, over the turns that start before the deadline. The
-- loop of extend has the horizon as fuel, which is enough since each step goes forward. A reader who
-- follows cursors has fuel for one request more than there are rows. Durations are numbers of
-- nanoseconds or milliseconds, timestamps are numbers, and the sums and products of durations that
-- are settings or conflict windows wrap as an int64's.
--
-- An archive is a codec that reads back what it closed, but for an empty list, which a reader may
-- give back as nil; the columns of type uuid and jsonb are texts that a cast leaves alone.
--
-- Not modelled: counters and histograms, log lines, routing, response headers, tickers and signals,
-- which have no state that the promises rest on; the alert sink, which only calls libraries; and the
-- support code of the tests.
pub mod Prelude
pub mod Config
pub mod Manifest
pub mod Conflict
pub mod Claim
pub mod Tables
pub mod Downstream
pub mod ResultStore
pub mod Probe
pub mod Reconcile
pub mod Latency
pub mod Api
pub mod Maintenance
pub mod Relay
pub mod Archive
pub mod Resource
pub mod Startup
pub mod Telemetry
pub mod Canonical
pub mod Fake
pub mod Migrate
pub mod World
pub mod Tests
