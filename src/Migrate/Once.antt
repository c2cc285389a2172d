-- ===== src/Migrate/Once.antt =====
-- Each migration takes effect once.
use idemio.Prelude.{
  ℕ, ◌+◌, ◌≤◌, String, Bool, true, false, not, Option, none, some, List, [], ◌∷◌, ◌++◌, ◌≡◌, refl,
  ap, sym, ◌∙◌, arith, ◌==◌, eq_iff, any, select_where, count_where, Bool-cases, inl, inr,
}
use idemio.Migrate.{
  Migration, Schema, MigrateFault, MigrateServer, is_applied, applied, apply, apply_all,
  pending_migrations, migrate, not_connected, not_locked, no_ledger, no_versions, unreadable,
}
use idemio.Migrate.Steps.{apply-cases}
use idemio.Migrate.Complete.{misses, apply_all-Completes, any_missed}

abbrev pub times : String → List String → ℕ
times x versions = count_where (λ u. u == x) versions

abbrev pub times_in : String → List Migration → ℕ
times_in x ms = count_where (λ (m : Migration). m.version == x) ms

-- The rows are those of the migrations that took effect, and none did so twice.
pub record IsOnce (s : Schema) : Type 0 where
  pub recorded : s.versions ≡ s.ran
  pub once : (x : String) → times x s.ran ≤ 1

count-append {ℓ} :
    {A : Type ℓ} (p : A → Bool) (xs ys : List A)
    → count_where p (xs ++ ys) ≡ count_where p xs + count_where p ys
unfolding count_where
count-append p [] ys = omega arith
count-append p (x ∷ xs) ys = ground (arith, count-append p xs ys)

count_none {ℓ} : {A : Type ℓ} (p : A → Bool) (xs : List A) → any p xs ≡ false → count_where p xs ≡ 0
unfolding count_where any
count_none p [] h = refl
count_none p (x ∷ xs) h = ground (arith, h, count_none p xs)

count-select {ℓ} :
    {A : Type ℓ} (p q : A → Bool) (xs : List A)
    → count_where p (select_where q xs) ≤ count_where p xs
unfolding count_where select_where
count-select p q [] = omega arith
count-select p q (x ∷ xs) = ground (arith, count-select p q xs)

-- What a condition leaves out is not counted.
count_left_out {ℓ} :
    {A : Type ℓ} (p q : A → Bool) (xs : List A)
    → ((x : A) → p x ≡ true → q x ≡ false)
    → count_where p (select_where q xs) ≡ 0
unfolding count_where select_where
count_left_out p q [] out = refl
count_left_out p q (x ∷ xs) out = ground (arith, out x, count_left_out p q xs out)

applied_times :
    (x : String) (m : Migration) (s : Schema)
    → times x (applied m s).ran ≡ times x s.ran + times_in x (m ∷ [])
unfolding count_where
applied_times x m s = count-append (λ (u : String). u == x) s.ran (m.version ∷ [])

-- Schemas that a run may leave, with the migrations that are to come.
abbrev Fits : Schema → List Migration → Type 0
Fits s ms = (s.versions ≡ s.ran) × ((x : String) → times x s.ran + times_in x ms ≤ 1)

Fits-IsOnce : (s : Schema) (ms : List Migration) → Fits s ms → IsOnce s
Fits-IsOnce s ms (recorded, once) = record {
  recorded = recorded;
  once = λ x. omega (arith, once x);
}

applied-Fits :
    (m : Migration) (ms : List Migration) (s : Schema) → Fits s (m ∷ ms) → Fits (applied m s) ms
unfolding count_where
applied-Fits m ms s (recorded, once) =
    (ap (λ vs. vs ++ (m.version ∷ [])) recorded, λ x. ground (arith, once x, applied_times x m s))

apply_all-IsOnce :
    (v : MigrateServer) (ms : List Migration) (s : Schema) → Fits s ms → IsOnce (apply_all v ms s).0
unfolding apply_all
apply_all-IsOnce v [] s fits = Fits-IsOnce s [] fits
apply_all-IsOnce v (m ∷ ms) s fits = elim (apply-cases v m s) [
  | inl (f, e) ↦ rw e (Fits-IsOnce s (m ∷ ms) fits)
  | inr (none, e) ↦ rw e (apply_all-IsOnce v ms (applied m s) (applied-Fits m ms s fits))
  | inr (some f, e) ↦ rw e (Fits-IsOnce (applied m s) ms (applied-Fits m ms s fits))
]

pending-Fits :
    (files : List Migration) (s : Schema)
    → ((x : String) → times_in x files ≤ 1)
    → IsOnce s
    → Fits s (pending_migrations s.versions files)
unfolding pending_migrations
pending-Fits files s distinct once = (
  once.recorded,
  λ x. elim (Bool-cases (is_applied s.versions x)) [
    | inl e ↦
        let none_pending =
          count_left_out (λ (m : Migration). m.version == x)
            (λ m. not (is_applied s.versions m.version)) files
            (λ m h. ap not (ap (is_applied s.versions) ((eq_iff m.version x).0 h) ∙ e)) in
        omega (arith, none_pending, once.once x)
    | inr e ↦
        let fresh : times x s.ran ≡ 0 =
          ap (times x) (sym once.recorded) ∙ count_none (λ (u : String). u == x) s.versions e in
        let few =
          count-select (λ (m : Migration). m.version == x)
            (λ m. not (is_applied s.versions m.version)) files in
        omega (arith, fresh, few, distinct x)
  ],
)

-- Whatever a run ends with: a property of the schema before it, and of the run of what is pending.
migrate-cases {ℓ} :
    (P : Schema × Option MigrateFault → Type ℓ) (v : MigrateServer) (files : List Migration)
    (s : Schema)
    → ((f : MigrateFault) → P (s, some f))
    → P (apply_all v (pending_migrations s.versions files) s)
    → P (migrate v files s)
unfolding migrate apply_all apply
migrate-cases P v files s early whole = elim (Bool-cases v.acquire_fails) [
  | inl a ↦ rw a (early not_connected)
  | inr a ↦ elim (Bool-cases v.lock_fails) [
    | inl b ↦ rw (a, b) (early not_locked)
    | inr b ↦ elim (Bool-cases v.ledger_fails) [
      | inl c ↦ rw (a, b, c) (early no_ledger)
      | inr c ↦ elim (Bool-cases v.versions_fail) [
        | inl d ↦ rw (a, b, c, d) (early no_versions)
        | inr d ↦ elim (Bool-cases (any v.read_fails (pending_migrations s.versions files))) [
          | inl e ↦ rw (a, b, c, d, e) (early unreadable)
          | inr e ↦ rw (a, b, c, d, e) whole
        ]
      ]
    ]
  ]
]

pub migrate_complete :
    (v : MigrateServer) (files : List Migration) (s : Schema)
    → (migrate v files s).1 ≡ none
    → any (misses (migrate v files s).0.versions) files ≡ false
migrate_complete v files s =
    let pending = pending_migrations s.versions files in
    migrate-cases (λ r. r.1 ≡ none → any (misses r.0.versions) files ≡ false) v files s
      (λ f h. absurd (cc h))
      λ h.
        let (rest, stays) = apply_all-Completes v pending s h in
        any_missed s.versions (apply_all v pending s).0.versions files stays rest

-- A run of migrations, whatever fails in it, leaves in schema_migrations the migrations that took
-- effect, each of which did so once, if that held before it and the files have distinct versions; and
-- if it ends without a fault, no file is left that is not applied.
pub migrate-IsOnce :
    (v : MigrateServer) (files : List Migration) (s : Schema)
    → ((x : String) → times_in x files ≤ 1)
    → IsOnce s
    → IsOnce (migrate v files s).0
      × ((migrate v files s).1 ≡ none → any (misses (migrate v files s).0.versions) files ≡ false)
migrate-IsOnce v files s distinct once =
    let pending = pending_migrations s.versions files in
    (
      migrate-cases (λ r. IsOnce r.0) v files s (λ f. once)
          (apply_all-IsOnce v pending s (pending-Fits files s distinct once)),
      migrate_complete v files s,
    )
