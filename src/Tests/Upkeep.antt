-- ===== src/Tests/Upkeep.antt =====
-- Runs of maintenance on a few rows and partitions.
use Prim.Native.String.{◌++◌ as ◌⧺◌}
use text.Mathlib.TextLemmas.{append_cancel_left}
use idemio.Prelude.{
  ◌+◌, true, false, not, none, some, [], ◌∷◌, ◌≡◌, refl, ap, sym, ◌∙◌, arith, pos, select_where,
  any,
}
use idemio.Claim.{Status}
use idemio.Tables.{KeyRow}
use idemio.Maintenance.Expiry.{Turn, Expiry, is_expired, expire_keys}
use idemio.Maintenance.Expiry.Laws.{expire_keys-keeps, expire_keys_clears}
use idemio.Maintenance.Retire.{
  Retention, Partition, Storage, Archiver, RetireServer, archiver_of, expired, detach, maintain,
  panicked,
}
use idemio.Maintenance.Retire.Laws.{is_kept, maintain-keeps, maintain_unconfigured}
use idemio.Maintenance.Partitions.{
  Partitioned, Calendar, PartitionServer, next, partition_name, upper_bound, extend,
}
use idemio.Maintenance.Partitions.Cover.{Steps, Covers, extend-Covers}
use idemio.Tests.Data.{row}
use idemio.Tests.Reads.{tally, count, count-tally}

abbrev turn : Turn
turn = record { now = 100; query_fails = false; delete_fails = false; is_cancelled = false }

abbrev young_row : KeyRow
young_row = record (row Status.done) { idempotency_key = "y"; created_at = 80 }

abbrev expiry : Expiry
expiry = record { keys = row Status.done ∷ young_row ∷ []; deleted_refs = [] }

expire_keys-keeps_example :
    select_where
      (λ r. not (is_expired (pos 50) 100 r))
      (expire_keys (pos 50) true (turn ∷ []) 0 expiry).0.keys
    ≡ select_where (λ r. not (is_expired (pos 50) 100 r)) expiry.keys
expire_keys-keeps_example =
    expire_keys-keeps (pos 50) true 100 (turn ∷ []) 0 expiry (omega arith, tt)

expire_keys_clears_example :
    ((expire_keys (pos 50) true (turn ∷ []) 0 expiry).2 ≡ none)
    × (any (is_expired (pos 50) 100) (expire_keys (pos 50) true (turn ∷ []) 0 expiry).0.keys
        ≡ false)
expire_keys_clears_example =
    expire_keys_clears (pos 50) true 100 (turn ∷ []) 0 expiry ((omega arith, refl, refl, refl), tt)
      (omega arith)

abbrev old_partition : Partition
old_partition = record { table = "write_intents"; name = "write_intents_20260105"; upper = 10 }

abbrev storage : Storage
storage = record { attached = old_partition ∷ []; detached = []; archived = [] }

abbrev retention : Retention
retention = record { intents = pos 90; conflicts = pos 365; audit = pos 365 }

abbrev retire_server : RetireServer
retire_server = record {
  now = 200;
  list_fails = λ t. false;
  detach_fails = λ p. false;
  export_fails = λ p. false;
  drop_fails = λ p. false;
}

maintain-keeps_example :
    is_kept "write_intents_20260105" (maintain Archiver.archive retire_server retention storage).0
    ≡ true
unfolding any
maintain-keeps_example =
    maintain-keeps "write_intents_20260105" Archiver.archive retire_server retention storage refl

is_old : expired retire_server (pos 90) "write_intents" storage.attached ≡ old_partition ∷ []
unfolding expired select_where
is_old = refl

maintain_unconfigured_example :
    maintain (archiver_of false) retire_server retention storage
    ≡ (detach old_partition storage, [], some panicked)
maintain_unconfigured_example =
    maintain_unconfigured retire_server retention storage old_partition [] refl refl is_old

abbrev pub weekly : Partitioned
weekly = record { name = "conflicts"; layout = "20060102"; days = 7; months = 0 }

abbrev pub calendar : Calendar
calendar = record { add_date = λ m d t. t + 7; format = λ layout t. tally t; week_of = λ t. 0 }

abbrev pub partition_server : PartitionServer
partition_server = record {
  now = 3;
  begin_fails = false;
  lock_fails = false;
  bounds_fail = λ t. false;
  create_fails = λ n. false;
  commit_fails = false;
}

pub steps : Steps calendar partition_server weekly
unfolding next partition_name
steps = record {
  next_later = λ t. omega arith;
  name_apart = λ a b h e.
      let same : a ≡ b =
        sym (count-tally a)
        ∙ ap count (
            append_cancel_left "_" (tally a) (tally b)
              (append_cancel_left "conflicts" ("_" ⧺ tally a) ("_" ⧺ tally b) e))
        ∙ count-tally b in
      absurd (omega (arith, same, h));
  creates = λ n. refl;
}

extend-Covers_example :
    Covers calendar partition_server weekly 30
      (upper_bound calendar 3 "conflicts" [])
      []
      (extend calendar partition_server weekly 30 [])
unfolding any
extend-Covers_example =
    extend-Covers calendar partition_server weekly 30 [] steps (λ t h. refl) refl
