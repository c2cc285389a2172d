-- ===== src/Tests/Oracles.antt =====
-- An execution by the fake downstream, and two migrations.
use idemio.Prelude.{
  ◌≤◌, String, true, false, none, List, [], ◌∷◌, ◌≡◌, refl, sym, arith, ◌==◌, eq_iff, some, pos,
  any, select_where, count_where, Bool-cases, inl, inr, if◌then◌else◌,
}
use idemio.Manifest.{ErrorClassification, is_definitive, is_not_executed}
use idemio.Migrate.{Migration, Schema, MigrateServer, migrate}
use idemio.Migrate.Complete.{misses}
use idemio.Migrate.Once.{IsOnce, times_in, migrate-IsOnce}
use idemio.Tables.{CommitReply}
use idemio.Fake.{Host, ExecuteRequest, FakeState, handle_execute}
use idemio.Fake.Oracle.{Suits, Honest, handle_execute-Honest}

-- the statuses that the manifest of subscriptions declares
abbrev subscription_errors : ErrorClassification
subscription_errors = record {
  definitive =
      record { from = pos 200; to = pos 299 } ∷ record { from = pos 400; to = pos 428 } ∷ [];
  not_executed =
      record { from = pos 429; to = pos 429 } ∷ record { from = pos 503; to = pos 503 } ∷ [];
}

suits : Suits subscription_errors
unfolding is_definitive is_not_executed any
suits = record { refused = refl; broken = refl; applied = refl; rejected = refl }

abbrev host : Host
host = record {
  now = 1;
  encode_fails = false;
  write_fails = false;
  durable = true;
  sync_fails = false;
  json = λ fields. "{}";
  decimal = λ n. "1";
}

abbrev renewal : ExecuteRequest
renewal = record { resource_type = "subscription"; resource_id = "s1"; operation = "renew" }

abbrev fresh : FakeState
fresh = record { ledger = record { records = []; by_id = λ id. [] }; scripts = λ id. "slow" ∷ [] }

handle_execute-Honest_example :
    Honest subscription_errors "c1" fresh.ledger (handle_execute host "c1" (some renewal) fresh)
unfolding select_where
handle_execute-Honest_example =
    handle_execute-Honest subscription_errors suits host "c1" renewal fresh refl (λ id. refl)

abbrev files : List Migration
files =
    record { version = "0001_init"; body = "a" }
    ∷ record { version = "0002_conflict_detection"; body = "b" }
    ∷ []

-- the commit of the second file is applied and its reply lost
abbrev database : MigrateServer
database = record {
  acquire_fails = false;
  lock_fails = false;
  ledger_fails = false;
  versions_fail = false;
  read_fails = λ m. false;
  begin_fails = λ m. false;
  exec_fails = λ m. false;
  record_fails = λ m. false;
  commit = λ m. if m.version == "0001_init" then CommitReply.applied else CommitReply.lost;
}

abbrev empty_schema : Schema
empty_schema = record { versions = []; ran = [] }

distinct : (x : String) → times_in x files ≤ 1
unfolding count_where
distinct x = elim (Bool-cases ("0001_init" == x)) [
  | inl e ↦ let same : "0001_init" ≡ x = (eq_iff "0001_init" x).0 e in rw (sym same) (omega arith)
  | inr e ↦ ground (arith, e)
]

empty-IsOnce : IsOnce empty_schema
unfolding count_where
empty-IsOnce = record { recorded = refl; once = λ x. omega arith }

migrate-IsOnce_example :
    IsOnce (migrate database files empty_schema).0
    × ((migrate database files empty_schema).1 ≡ none
        → any (misses (migrate database files empty_schema).0.versions) files ≡ false)
migrate-IsOnce_example = migrate-IsOnce database files empty_schema distinct empty-IsOnce
