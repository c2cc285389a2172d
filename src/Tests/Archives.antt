-- ===== src/Tests/Archives.antt =====
-- A partition that is archived and restored.
use idemio.Prelude.{
  ◌≡◌, refl, true, false, [], ◌∷◌, none, some, Option, String, List, ok, pos, any, inl, inr, map,
  ◌==◌, eq_iff, Bool-cases, sym, ap,
}
use native.Mathlib.Decide.{ℕ_discrete}
use idemio.Archive.{IntentColumns, IntentRecord, ConflictRecord, AuditRecord, to_intent_record}
use idemio.Archive.Columns.{CanRestore, IsCanonical, tidy_intent}
use idemio.Archive.Isolation.{restore-IsIsolated, IsIsolated}
use idemio.Archive.Restored.{archive_restores, IsRestored}
use idemio.Archive.Storage.{intents, Database, Codec, ArchiveServer, find_entry, is_table, put}
use idemio.Archive.Transfer.{archive, restore, export, scan_intents, scan, encode_rows}

String-discrete : Discrete String
String-discrete s t = elim (Bool-cases (s == t)) [
  | inl e ↦ yes ((eq_iff s t).0 e)
  | inr e ↦ no (λ p. let same : (s == t) ≡ true = (eq_iff s t).1 p in cc)
]

intent-discrete : Discrete IntentRecord
intent-discrete = hlevel (String-discrete, ℕ_discrete)

abbrev stored_row : IntentColumns
stored_row = record {
  intent_id = "i";
  agent_id = "a";
  idempotency_key = "k";
  resource_type = "order";
  resource_id = "1";
  operation = "set_price";
  operation_class = "mutate";
  scope_selector = none;
  payload = "{}";
  emitted_at = pos 1700000000000000;
  published_at = some (pos 1700000000000200);
  voided_at = none;
}

abbrev stored_record : IntentRecord
stored_record = to_intent_record stored_row

-- a format for that one record
abbrev close_of : {r : IntentRecord} → Dec (r ≡ stored_record) → Option String
close_of (yes e) = some "one"
close_of (no e) = none

abbrev one_record : Codec IntentRecord
one_record = record {
  write_fails = λ rows. false;
  close = λ rows. elim rows [
    | [] ↦ none
    | r ∷ rest ↦ elim rest [ [] ↦ close_of (intent-discrete r stored_record) | x ∷ xs ↦ none ]
  ];
  read = λ body. some (stored_record ∷ []);
}

is_stored :
    {r : IntentRecord} (d : Dec (r ≡ stored_record)) (body : String)
    → close_of d ≡ some body
    → r ≡ stored_record
is_stored (yes e) body h = e
is_stored (no e) body h = cc

close_one :
    (rows : List IntentRecord) (body : String)
    → one_record.close rows ≡ some body
    → one_record.read body ≡ some (map (tidy_intent (λ l. l)) rows)
close_one [] body h = cc
close_one (r ∷ []) body h =
    let same = is_stored (intent-discrete r stored_record) body h in
    sym (ap (λ (r : IntentRecord). some (r ∷ [])) same)
close_one (r ∷ x ∷ xs) body h = cc

close_stored : (d : Dec (stored_record ≡ stored_record)) → close_of d ≡ some "one"
close_stored (yes e) = refl
close_stored (no e) = absurd (e refl)

abbrev no_codec : (R : Type 0) → Codec R
no_codec R = record { write_fails = λ rows. true; close = λ rows. none; read = λ body. none }

abbrev server : ArchiveServer
server = record {
  intent_codec = one_record;
  conflict_codec = no_codec ConflictRecord;
  audit_codec = no_codec AuditRecord;
  casts = record { uuid = λ s. s; uuids = λ l. l; jsonb = λ s. s };
  read_fails = false;
  put_fails = false;
  get_fails = false;
  create_fails = false;
  insert_fails = λ n. false;
}

server-CanRestore : CanRestore server server
server-CanRestore = record {
  slice = λ l. l;
  keeps_lists = λ l. inl refl;
  reads_intents = close_one;
  reads_conflicts = λ rows body h. cc;
  reads_audits = λ rows body h. cc;
  fetches = refl;
  creates = refl;
  inserts = λ n. refl;
}

abbrev partition_db : Database
partition_db = ("write_intents_2026_01", intents (stored_row ∷ [])) ∷ []

archived : (archive server "write_intents" "write_intents_2026_01" partition_db []).1 ≡ ok tt
unfolding archive export scan_intents scan find_entry encode_rows put
archived = rw (close_stored (intent-discrete stored_record stored_record)) refl

canonical : IsCanonical server.casts (find_entry "write_intents_2026_01" partition_db)
unfolding find_entry
canonical = ((refl, refl, refl), tt)

free_name : is_table "drill" [] ≡ false
unfolding any
free_name = refl

archive_restores_example :
    IsRestored server server server-CanRestore "write_intents" "write_intents_2026_01" "drill"
      partition_db []
      (restore server "write_intents" "write_intents_2026_01" "drill"
        (archive server "write_intents" "write_intents_2026_01" partition_db []).0
        [])
archive_restores_example =
    archive_restores server server server-CanRestore "write_intents" "write_intents_2026_01" "drill"
      partition_db [] [] canonical free_name archived

restore-IsIsolated_example :
    IsIsolated server "write_intents" "write_intents_2026_01" "drill" partition_db (
      restore server "write_intents" "write_intents_2026_01" "drill"
        (archive server "write_intents" "write_intents_2026_01" partition_db []).0
        partition_db)
restore-IsIsolated_example =
    restore-IsIsolated server "write_intents" "write_intents_2026_01" "drill" partition_db
      (archive server "write_intents" "write_intents_2026_01" partition_db []).0
