-- ===== src/Archive/RoundTrip.antt =====
-- What is archived can be restored: the rows of one table, whichever of the three it is.
use mathlib.Core.Path.{subst}
use mathlib.Core.Option
use mathlib.Core.List.{append-nil}
use idemio.Prelude.{
  ℕ, suc, String, false, Option, none, some, List, [], ◌∷◌, ◌++◌, map, ◌≡◌, refl, sym, ap, ◌∙◌,
  ◌>>=◌, eq_refl, length, ok, >>=-eq-ok, or_fail-ok, if-cases, inl, inr,
}
use idemio.Prelude.Rows.{All}
use idemio.Archive.Storage.{Rows, Database, ArchiveServer, Codec, find_entry, change_table}
use idemio.Archive.Transfer.{scan, encode_rows, insert_each, restore_rows}

pub length-map {ℓ κ} :
    {A : Type ℓ} {B : Type κ} (f : A → B) (xs : List A) → length (map f xs) ≡ length xs
length-map f [] = refl
length-map f (x ∷ xs) = ap suc (length-map f xs)

append_step {ℓ} :
    {A : Type ℓ} (xs : List A) (x : A) (ys : List A) → (xs ++ x ∷ []) ++ ys ≡ xs ++ (x ∷ ys)
append_step [] x ys = refl
append_step (z ∷ xs) x ys = ap (λ l. z ∷ l) (append_step xs x ys)

-- a writer that has closed an object
encode_rows-ok :
    {R : Type 0} (codec : Codec R) (rows : List R) (body : String)
    → encode_rows codec rows ≡ ok body
    → codec.close rows ≡ some body
unfolding encode_rows
encode_rows-ok codec [] body h = or_fail-ok (codec.close []) _ h
encode_rows-ok codec (r ∷ rs) body h = elim (if-cases (codec.write_fails (r ∷ rs)) _ _ h) [
  | inl (_, e) ↦ cc
  | inr (_, e) ↦ or_fail-ok (codec.close (r ∷ rs)) _ e
]

-- A reader gives back what a writer closed, up to `tidy`.
abbrev pub Reads : {R : Type 0} → (R → R) → Codec R → Codec R → Type 0
Reads {R} tidy c d =
    (rows : List R) (body : String) → c.close rows ≡ some body → d.read body ≡ some (map tidy rows)

module _ {A B : Type 0} (wrap : List A → Rows) (add : A → Rows → Rows)
    (grows : (c : A) (rows : List A) → add c (wrap rows) ≡ wrap (rows ++ c ∷ []))
    (to_record : A → B) (values : B → A) where
  insert_each-all :
      (w : ArchiveServer) (into : String) (db : Database)
      → ((n : ℕ) → w.insert_fails n ≡ false)
      → (n : ℕ) (rs : List B) (rows : List A)
      → insert_each w add values into n rs ((into, wrap rows) ∷ db)
        ≡ ((into, wrap (rows ++ map values rs)) ∷ db, ok tt)
  unfolding insert_each change_table
  insert_each-all w into db healthy n [] rows = rw append-nil refl
  insert_each-all w into db healthy n (r ∷ rs) rows =
      rw (healthy n, eq_refl into, grows (values r) rows)
        (insert_each-all w into db healthy (suc n) rs (rows ++ values r ∷ [])
          ∙ rw (append_step rows (values r) (map values rs)) refl)

  pub restore_rows-all :
      (w : ArchiveServer) (into : String) (db : Database) (found : Option (List B)) (rs : List B)
      → ((n : ℕ) → w.insert_fails n ≡ false)
      → found ≡ some rs
      → restore_rows w add values into found ((into, wrap []) ∷ db)
        ≡ ((into, wrap (map values rs)) ∷ db, ok (length rs))
  unfolding restore_rows
  restore_rows-all w into db found rs healthy e =
      rw (e, insert_each-all w into db healthy 0 rs []) refl

  -- Rows that come back as the records that they were exported as.
  pub same_records :
      (Good : A → Type 0) (tidy : B → B)
      → ((c : A) → Good c → to_record (values (tidy (to_record c))) ≡ to_record c)
      → (cols : List A) → All Good cols
      → map to_record (map values (map tidy (map to_record cols))) ≡ map to_record cols
  same_records Good tidy same [] good = refl
  same_records Good tidy same (c ∷ cols) (g, good) =
      rw (same c g, same_records Good tidy same cols good) refl

  -- A scan and its encoding, and the table that a scan of the same rows reads.
  pub scanned :
      (v : ArchiveServer) (rows_of : Option Rows → Option (List A)) (partition : String)
      (db : Database) (codec : Codec B) (body : String)
      → (scan v rows_of to_record partition db >>= λ rows. encode_rows codec rows) ≡ ok body
      → (cols : List A) × (rows_of (find_entry partition db) ≡ some cols)
        × (v.read_fails ≡ false)
        × (codec.close (map to_record cols) ≡ some body)
  unfolding scan
  scanned v rows_of partition db codec body h =
      let (rows, e, f) = >>=-eq-ok (scan v rows_of to_record partition db) _ h in
      elim (if-cases v.read_fails _ _ e) [
        | inl (_, g) ↦ cc
        | inr (reads, g) ↦
            let (cols, found, same) =
              mapped (rows_of (find_entry partition db)) rows (or_fail-ok _ _ g) in
            (
              cols,
              found,
              reads,
              subst (λ r. codec.close r ≡ some body) same (encode_rows-ok codec rows body f),
            )
      ]
    where
      mapped :
          (o : Option (List A)) (rows : List B)
          → Option.map (map to_record) o ≡ some rows
          → (cols : List A) × (o ≡ some cols) × (rows ≡ map to_record cols)
      mapped none rows h = cc
      mapped (some cols) rows h = (cols, refl, cc)

  scan_found :
      (v : ArchiveServer) (rows_of : Option Rows → Option (List A)) (name : String) (db : Database)
      (cols : List A)
      → v.read_fails ≡ false
      → rows_of (find_entry name db) ≡ some cols
      → scan v rows_of to_record name db ≡ ok (map to_record cols)
  unfolding scan
  scan_found v rows_of name db cols reads found = rw (reads, found) refl

  scan_head :
      (v : ArchiveServer) (rows_of : Option Rows → Option (List A)) (name : String) (db : Database)
      (cols : List A)
      → v.read_fails ≡ false
      → rows_of (some (wrap cols)) ≡ some cols
      → scan v rows_of to_record name ((name, wrap cols) ∷ db) ≡ ok (map to_record cols)
  unfolding find_entry
  scan_head v rows_of name db cols reads shown =
      scan_found v rows_of name ((name, wrap cols) ∷ db) cols reads (rw (eq_refl name) shown)

  -- The rows that a restore adds to a new table: as many as were exported, and the same records.
  pub refilled :
      (v w : ArchiveServer) (rows_of : Option Rows → Option (List A)) (c d : Codec B) (tidy : B → B)
      (Good : A → Type 0) (partition into : String) (db db' : Database) (body : String)
      → ((cols : List A) → rows_of (some (wrap cols)) ≡ some cols)
      → ((a : A) → Good a → to_record (values (tidy (to_record a))) ≡ to_record a)
      → Reads tidy c d
      → ((n : ℕ) → w.insert_fails n ≡ false)
      → ((cols : List A) → rows_of (find_entry partition db) ≡ some cols → All Good cols)
      → (scan v rows_of to_record partition db >>= λ rows. encode_rows c rows) ≡ ok body
      → (cols rows : List A) × (rows_of (find_entry partition db) ≡ some cols)
        × (restore_rows w add values into (d.read body) ((into, wrap []) ∷ db')
            ≡ ((into, wrap rows) ∷ db', ok (length cols)))
        × (scan v rows_of to_record into ((into, wrap rows) ∷ db')
            ≡ scan v rows_of to_record partition db)
  refilled v w rows_of c d tidy Good partition into db db' body shown same readable inserts good h =
      let (cols, found, reads, closed) = scanned v rows_of partition db c body h in
      let records = map tidy (map to_record cols) in
      (
        cols,
        map values records,
        found,
        restore_rows-all w into db' (d.read body) records inserts
              (readable (map to_record cols) body closed)
            ∙ ap (λ n. ((into, wrap (map values records)) ∷ db', ok n))
                (length-map tidy (map to_record cols) ∙ length-map to_record cols),
        scan_head v rows_of into db' (map values records) reads (shown (map values records))
            ∙ ap ok (same_records Good tidy same cols (good cols found))
            ∙ sym (scan_found v rows_of partition db cols reads found),
      )
