-- ===== src/Migrate/Complete.antt =====
-- A run of migrations that ends without a fault applies what it is given.
use mathlib.Core.Path.{subst}
use idemio.Prelude.{
  String, Bool, true, false, not, ◌||◌, Option, none, some, List, [], ◌∷◌, ◌≡◌, refl, ap, sym, ◌∙◌,
  arith, ◌==◌, eq_refl, any, any-append, select_where, Bool-cases, inl, inr,
}
use idemio.Migrate.{
  Migration, Schema, MigrateFault, MigrateServer, is_applied, applied, apply, apply_all,
  pending_migrations,
}
use idemio.Migrate.Steps.{apply-cases}

-- The migrations that are not applied.
abbrev pub misses : List String → Migration → Bool
misses versions m = not (is_applied versions m.version)

-- A run without a fault applies what it is given, and takes nothing away.
abbrev pub Completes : List Migration → Schema → Schema × Option MigrateFault → Type 0
Completes ms s result =
    result.1 ≡ none
    → (any (misses result.0.versions) ms ≡ false)
      × ((x : String) → is_applied s.versions x ≡ true → is_applied result.0.versions x ≡ true)

applied_stays :
    (m : Migration) (s : Schema) (x : String)
    → is_applied s.versions x ≡ true
    → is_applied (applied m s).versions x ≡ true
unfolding any
applied_stays m s x h =
    any-append (λ (u : String). u == x) s.versions (m.version ∷ []) ∙ ground (arith, h)

applied_there : (m : Migration) (s : Schema) → is_applied (applied m s).versions m.version ≡ true
unfolding any
applied_there m s =
    any-append (λ (u : String). u == m.version) s.versions (m.version ∷ [])
    ∙ ground (arith, eq_refl m.version)

or_false : (a b : Bool) → a ≡ false → b ≡ false → (a || b) ≡ false
or_false a b h k = ground (arith, h, k)

apply_all_next :
    (v : MigrateServer) (m : Migration) (ms : List Migration) (s : Schema)
    → apply v m s ≡ (applied m s, none)
    → apply_all v (m ∷ ms) s ≡ apply_all v ms (applied m s)
unfolding apply_all
apply_all_next v m ms s e = rw e refl

Completes-next :
    (m : Migration) (ms : List Migration) (s : Schema) (result : Schema × Option MigrateFault)
    → Completes ms (applied m s) result
    → Completes (m ∷ ms) s result
unfolding any
Completes-next m ms s result done = λ h.
    let (rest, stays) = done h in
    (
      or_false (misses result.0.versions m) _ (ap not (stays m.version (applied_there m s))) rest,
      λ x k. stays x (applied_stays m s x k),
    )

pub apply_all-Completes :
    (v : MigrateServer) (ms : List Migration) (s : Schema) → Completes ms s (apply_all v ms s)
unfolding apply_all any
apply_all-Completes v [] s = λ h. (refl, λ x e. e)
apply_all-Completes v (m ∷ ms) s = elim (apply-cases v m s) [
  | inl (f, e) ↦ rw e (λ h. absurd (cc h))
  | inr (some f, e) ↦ rw e (λ h. absurd (cc h))
  | inr (none, e) ↦
      subst (λ r. Completes (m ∷ ms) s r) (sym (apply_all_next v m ms s e))
        (Completes-next m ms s (apply_all v ms (applied m s))
          (apply_all-Completes v ms (applied m s)))
]

pub any_missed :
    (versions versions' : List String) (files : List Migration)
    → ((x : String) → is_applied versions x ≡ true → is_applied versions' x ≡ true)
    → any (misses versions') (pending_migrations versions files) ≡ false
    → any (misses versions') files ≡ false
unfolding any pending_migrations select_where
any_missed versions versions' [] stays h = refl
any_missed versions versions' (m ∷ ms) stays h = elim (Bool-cases (is_applied versions m.version)) [
  | inl e ↦
      or_false (misses versions' m) (any (misses versions') ms) (ap not (stays m.version e))
        (any_missed versions versions' ms stays (ground (arith, e, h)))
  | inr e ↦ ground (arith, e, h, any_missed versions versions' ms stays)
]
