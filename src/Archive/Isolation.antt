-- ===== src/Archive/Isolation.antt =====
-- Restoring adds one table, and touches no other.
use idemio.Prelude.{
  ℕ, suc, String, Bool, true, false, ◌||◌, Option, none, some, List, [], ◌∷◌, ◌≡◌, ◌≢◌, refl, ap,
  ◌∙◌, arith, ◌==◌, eq_iff, length, Except, ok, err, ◌⊎◌, Bool-cases, inl, inr, if◌then◌else◌,
}
use idemio.Archive.{intent_values, conflict_values, audit_values}
use idemio.Archive.Storage.{
  Rows, Database, Objects, ArchiveServer, ArchiveFault, create_failed, find_entry, change_table,
  is_table, get,
}
use idemio.Archive.Transfer.{
  insert_each, counted, add_intent, add_conflict, add_audit, restore_rows, fill, restore_body,
  restore, object_name, empty_like,
}

-- a table of another name is as it was
abbrev pub Keeps : String → Database → Database → Type 0
Keeps n db db' = find_entry n db' ≡ find_entry n db

change_table-Keeps :
    (n m : String) (f : Rows → Rows) (db : Database)
    → (m == n) ≡ false
    → Keeps n db (change_table m f db)
unfolding change_table find_entry
change_table-Keeps n m f [] h = refl
change_table-Keeps n m f ((name, rows) ∷ db) h = elim (Bool-cases (name == m)) [
  | inl e ↦ let differ : (name == n) ≡ false = rw ((eq_iff name m).0 e) h in rw (e, differ) refl
  | inr e ↦ rw e (ap (λ r. if name == n then some rows else r) (change_table-Keeps n m f db h))
]

module _ {A B : Type 0} (w : ArchiveServer) (add : A → Rows → Rows) (values : B → A)
    (name into : String) (other : (into == name) ≡ false) where
  insert_each-Keeps :
      (n : ℕ) (rs : List B) (db : Database)
      → Keeps name db (insert_each w add values into n rs db).0
  unfolding insert_each
  insert_each-Keeps n [] db = refl
  insert_each-Keeps n (r ∷ rs) db = elim (Bool-cases (w.insert_fails n)) [
    | inl e ↦ rw e refl
    | inr e ↦ rw e (
        insert_each-Keeps (suc n) rs (change_table into (add (values r)) db)
        ∙ change_table-Keeps name into (add (values r)) db other)
  ]

  restore_rows-Keeps :
      (found : Option (List B)) (db : Database)
      → Keeps name db (restore_rows w add values into found db).0
  unfolding restore_rows
  restore_rows-Keeps none db = refl
  restore_rows-Keeps (some rows) db =
      counted_same (length rows) (insert_each w add values into 0 rows db)
      ∙ insert_each-Keeps 0 rows db
    where
      counted_same :
          (n : ℕ) (out : Database × Except ArchiveFault (Unit {0}))
          → find_entry name (counted n out).0 ≡ find_entry name out.0
      counted_same n (db, err fault) = refl
      counted_same n (db, ok u) = refl

module _ (w : ArchiveServer) (table partition into : String) (db : Database) where
  fill-Keeps :
      (name body : String) (db : Database)
      → (into == name) ≡ false
      → Keeps name db (fill w table into body db).0
  unfolding fill
  fill-Keeps name body db other = elim (Bool-cases (table == "write_intents")) [
    | inl e ↦ rw e (
        restore_rows-Keeps w add_intent (intent_values w.casts) name into other
          (w.intent_codec.read body) db)
    | inr e ↦ elim (Bool-cases (table == "conflicts")) [
      | inl f ↦
          rw (e, f)
            (restore_rows-Keeps w add_conflict (conflict_values w.casts) name into other
              (w.conflict_codec.read body) db)
      | inr f ↦ elim (Bool-cases (table == "payload_access_audit")) [
        | inl g ↦
            rw (e, f, g)
              (restore_rows-Keeps w add_audit (audit_values w.casts) name into other
                (w.audit_codec.read body) db)
        | inr g ↦ rw (e, f, g) refl
      ]
    ]
  ]

  -- the object is fetched before any statement runs
  abbrev Isolates : Database × Except ArchiveFault ℕ → Type 0
  Isolates out =
      ((name : String) → (into == name) ≡ false → Keeps name db out.0)
      × (is_table into db ≡ true → (out.0 ≡ db) × ((n : ℕ) → out.1 ≢ ok n))

  isolated :
      (refused : Bool) (body : String)
      → (is_table into db ≡ true → refused ≡ true)
      → Isolates (
          if refused
          then (db, err create_failed)
          else fill w table into body ((into, empty_like table) ∷ db))
  unfolding find_entry
  isolated true body implied = (λ name other. refl, λ taken. (refl, λ n h. cc))
  isolated false body implied = (
    λ name other. fill-Keeps name body ((into, empty_like table) ∷ db) other ∙ rw other refl,
    λ taken. cc (implied taken),
  )

  restore_body-Isolates :
      (m : Except ArchiveFault String) → Isolates (restore_body w table into db m)
  restore_body-Isolates (err fault) = (λ name other. refl, λ taken. (refl, λ n h. cc))
  restore_body-Isolates (ok body) =
      isolated (w.create_fails || is_table into db) body (λ taken. ground arith)

  -- each other table is as it was, and either the name was free or nothing changed
  abbrev pub IsIsolated : Database × Except ArchiveFault ℕ → Type 0
  IsIsolated out =
      ((name : String) → ((into == name) ≡ true) ⊎ Keeps name db out.0)
      × ((is_table into db ≡ false) ⊎ ((out.0 ≡ db) × ((n : ℕ) → out.1 ≢ ok n)))

  -- Whatever fails, and however far it came, a restore leaves every table but the new one as it was;
  -- and if the name is taken, as it is after a restore that failed among its rows, it changes
  -- nothing and is an error.
  pub restore-IsIsolated :
      (objects : Objects) → IsIsolated (restore w table partition into objects db)
  unfolding restore
  restore-IsIsolated objects =
      let (others, taken) = restore_body-Isolates (get w (object_name table partition) objects) in
      (
        λ name. elim (Bool-cases (into == name)) [ inl e ↦ inl e | inr e ↦ inr (others name e) ],
        elim (Bool-cases (is_table into db)) [ inl e ↦ inr (taken e) | inr e ↦ inl e ],
      )
