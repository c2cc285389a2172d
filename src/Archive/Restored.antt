-- ===== src/Archive/Restored.antt =====
-- A partition that was archived is restored to a table with the same records.
use mathlib.Core.Path.{subst}
use idemio.Prelude.{
  ℕ, String, false, ◌||◌, Option, none, some, List, [], ◌∷◌, ◌≡◌, refl, sym, ap, ◌∙◌, arith, ◌==◌,
  eq_refl, length, Except, ok, err, ◌>>=◌, inl, inr, Bool-cases, if◌then◌else◌,
}
use idemio.Archive.{
  IntentColumns, ConflictColumns, AuditColumns, to_intent_record, to_conflict_record,
  to_audit_record, intent_values, conflict_values, audit_values,
}
use idemio.Archive.Columns.{
  CanRestore, IsCanonical, IsCanonicalIntent, IsCanonicalConflict, IsCanonicalAudit, tidy_intent,
  tidy_audit, same_intent, same_conflict, same_audit,
}
use idemio.Archive.RoundTrip.{refilled}
use idemio.Archive.Storage.{
  Rows, intents, conflicts, audits, others, Database, Objects, ArchiveServer, ArchiveFault,
  create_failed, find_entry, put, get, is_table,
}
use idemio.Archive.Transfer.{
  intents_of, conflicts_of, audits_of, scan, encode_rows, scan_intents, scan_conflicts, scan_audit,
  export, archive, upload, object_name, empty_like, restore, restore_body, fill, restore_rows,
  add_intent, add_conflict, add_audit,
}

intents_of-eq :
    (o : Option Rows) (cols : List IntentColumns)
    → intents_of o ≡ some cols
    → o ≡ some (intents cols)
intents_of-eq none cols h = cc
intents_of-eq (some (intents l)) cols h = cc
intents_of-eq (some (conflicts l)) cols h = cc
intents_of-eq (some (audits l)) cols h = cc
intents_of-eq (some others) cols h = cc

conflicts_of-eq :
    (o : Option Rows) (cols : List ConflictColumns)
    → conflicts_of o ≡ some cols
    → o ≡ some (conflicts cols)
conflicts_of-eq none cols h = cc
conflicts_of-eq (some (intents l)) cols h = cc
conflicts_of-eq (some (conflicts l)) cols h = cc
conflicts_of-eq (some (audits l)) cols h = cc
conflicts_of-eq (some others) cols h = cc

audits_of-eq :
    (o : Option Rows) (cols : List AuditColumns) → audits_of o ≡ some cols → o ≡ some (audits cols)
audits_of-eq none cols h = cc
audits_of-eq (some (intents l)) cols h = cc
audits_of-eq (some (conflicts l)) cols h = cc
audits_of-eq (some (audits l)) cols h = cc
audits_of-eq (some others) cols h = cc

abbrev pub size_of : Option Rows → ℕ
size_of (some (intents cols)) = length cols
size_of (some (conflicts cols)) = length cols
size_of (some (audits cols)) = length cols
size_of _ = 0

uploaded :
    (v : ArchiveServer) (name : String) (objects : Objects) (m : Except ArchiveFault String)
    → (upload v name objects m).1 ≡ ok tt
    → (body : String) × (m ≡ ok body) × ((upload v name objects m).0 ≡ (name, body) ∷ objects)
unfolding put
uploaded v name objects (err fault) h = cc
uploaded v name objects (ok body) h = elim (Bool-cases v.put_fails) [
  | inl e ↦ absurd (ground (arith, h, e))
  | inr e ↦ (body, refl, rw e refl)
]

module _ (v w : ArchiveServer) (can : CanRestore v w) (table partition into : String)
    (db db' : Database) where
  -- the new table exports as the partition did, and counts as many rows
  abbrev pub IsRestored : Database × Except ArchiveFault ℕ → Type 0
  IsRestored out =
      (rows : Rows) × (out ≡ ((into, rows) ∷ db', ok (size_of (find_entry partition db))))
      × (export v table into ((into, rows) ∷ db') ≡ export v table partition db)

  filled_intents :
      (body : String)
      → IsCanonical w.casts (find_entry partition db)
      → (scan_intents v partition db >>= λ rows. encode_rows v.intent_codec rows) ≡ ok body
      → (rows : Rows) × (restore_rows w add_intent
            (intent_values w.casts)
            into
            (w.intent_codec.read body)
            ((into, intents []) ∷ db')
          ≡ ((into, rows) ∷ db', ok (size_of (find_entry partition db))))
        × (scan_intents v into ((into, rows) ∷ db') ≡ scan_intents v partition db)
  unfolding scan scan_intents
  filled_intents body canonical h =
      let (cols, rows, found, restored, same) =
        refilled intents add_intent (λ c rows. refl) to_intent_record (intent_values w.casts) v w
          intents_of v.intent_codec w.intent_codec (tidy_intent can.slice)
          (IsCanonicalIntent w.casts) partition into db db' body (λ cols. refl)
          (same_intent v w can) can.reads_intents can.inserts
          (λ cols e.
            subst (IsCanonical w.casts) (intents_of-eq (find_entry partition db) cols e) canonical)
          h in
      (
        intents rows,
        restored
            ∙ ap (λ o. ((into, intents rows) ∷ db', ok (size_of o)))
                (sym (intents_of-eq (find_entry partition db) cols found)),
        same,
      )

  filled_conflicts :
      (body : String)
      → IsCanonical w.casts (find_entry partition db)
      → (scan_conflicts v partition db >>= λ rows. encode_rows v.conflict_codec rows) ≡ ok body
      → (rows : Rows) × (restore_rows w add_conflict
            (conflict_values w.casts)
            into
            (w.conflict_codec.read body)
            ((into, conflicts []) ∷ db')
          ≡ ((into, rows) ∷ db', ok (size_of (find_entry partition db))))
        × (scan_conflicts v into ((into, rows) ∷ db') ≡ scan_conflicts v partition db)
  unfolding scan scan_conflicts
  filled_conflicts body canonical h =
      let (cols, rows, found, restored, same) =
        refilled conflicts add_conflict (λ c rows. refl) to_conflict_record
          (conflict_values w.casts) v w conflicts_of v.conflict_codec w.conflict_codec (λ r. r)
          (IsCanonicalConflict w.casts) partition into db db' body (λ cols. refl)
          (same_conflict v w can) can.reads_conflicts can.inserts
          (λ cols e.
            subst (IsCanonical w.casts) (conflicts_of-eq (find_entry partition db) cols e)
              canonical)
          h in
      (
        conflicts rows,
        restored
            ∙ ap (λ o. ((into, conflicts rows) ∷ db', ok (size_of o)))
                (sym (conflicts_of-eq (find_entry partition db) cols found)),
        same,
      )

  filled_audits :
      (body : String)
      → IsCanonical w.casts (find_entry partition db)
      → (scan_audit v partition db >>= λ rows. encode_rows v.audit_codec rows) ≡ ok body
      → (rows : Rows) × (restore_rows w add_audit
            (audit_values w.casts)
            into
            (w.audit_codec.read body)
            ((into, audits []) ∷ db')
          ≡ ((into, rows) ∷ db', ok (size_of (find_entry partition db))))
        × (scan_audit v into ((into, rows) ∷ db') ≡ scan_audit v partition db)
  unfolding scan scan_audit
  filled_audits body canonical h =
      let (cols, rows, found, restored, same) =
        refilled audits add_audit (λ c rows. refl) to_audit_record (audit_values w.casts) v w
          audits_of v.audit_codec w.audit_codec (tidy_audit can.slice) (IsCanonicalAudit w.casts)
          partition into db db' body (λ cols. refl) (same_audit v w can) can.reads_audits
          can.inserts
          (λ cols e.
            subst (IsCanonical w.casts) (audits_of-eq (find_entry partition db) cols e) canonical)
          h in
      (
        audits rows,
        restored
            ∙ ap (λ o. ((into, audits rows) ∷ db', ok (size_of o)))
                (sym (audits_of-eq (find_entry partition db) cols found)),
        same,
      )

  filled :
      (body : String)
      → IsCanonical w.casts (find_entry partition db)
      → export v table partition db ≡ ok body
      → IsRestored (fill w table into body ((into, empty_like table) ∷ db'))
  unfolding export fill empty_like
  filled body canonical h = elim (Bool-cases (table == "write_intents")) [
    | inl e ↦
        let (rows, restored, same) = filled_intents body canonical (rw e at h) in
        rw e (rows, restored, ap (λ m. m >>= λ r. encode_rows v.intent_codec r) same)
    | inr e ↦ elim (Bool-cases (table == "conflicts")) [
      | inl f ↦
          let (rows, restored, same) = filled_conflicts body canonical (rw (e, f) at h) in
          rw (e, f) (rows, restored, ap (λ m. m >>= λ r. encode_rows v.conflict_codec r) same)
      | inr f ↦ elim (Bool-cases (table == "payload_access_audit")) [
        | inl g ↦
            let (rows, restored, same) = filled_audits body canonical (rw (e, f, g) at h) in
            rw (e, f, g) (rows, restored, ap (λ m. m >>= λ r. encode_rows v.audit_codec r) same)
        | inr g ↦ absurd (ground (arith, h, e, f, g))
      ]
    ]
  ]

  -- When a partition of one of the three tables was archived, a server that reads what was written
  -- restores it under any name that is free: beside the tables that there are, which stay as they are,
  -- there is a new table that exports to the same archive as the partition, and the reply is the
  -- partition's number of rows.
  pub archive_restores :
      (objects : Objects)
      → IsCanonical w.casts (find_entry partition db)
      → is_table into db' ≡ false
      → (archive v table partition db objects).1 ≡ ok tt
      → IsRestored (restore w table partition into (archive v table partition db objects).0 db')
  unfolding archive restore get find_entry
  archive_restores objects canonical free stored =
      let name = object_name table partition in
      let (body, exported, kept) = uploaded v name objects (export v table partition db) stored in
      let fetched : get w name ((name, body) ∷ objects) ≡ ok body =
        rw (can.fetches, eq_refl name) refl in
      let absent : (w.create_fails || is_table into db') ≡ false = rw (can.creates, free) refl in
      subst (λ os. IsRestored (restore_body w table into db' (get w name os))) (sym kept)
        (subst (λ m. IsRestored (restore_body w table into db' m)) (sym fetched)
          (subst
            (λ b. IsRestored (
              if b
              then (db', err create_failed)
              else fill w table into body ((into, empty_like table) ∷ db')))
            (sym absent) (filled body canonical exported)))
