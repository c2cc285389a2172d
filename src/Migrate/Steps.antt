-- ===== src/Migrate/Steps.antt =====
-- What a step of a run of migrations does.
use idemio.Prelude.{Option, none, some, ◌≡◌, refl, Bool-cases, ◌⊎◌, inl, inr}
use idemio.Tables.{CommitReply}
use idemio.Migrate.{
  Migration, Schema, MigrateFault, MigrateServer, applied, commit_with, apply, begin_failed,
  exec_failed, record_failed, commit_failed,
}

commit-cases :
    (c : CommitReply) (m : Migration) (s : Schema)
    → ((f : MigrateFault) × (commit_with c m s ≡ (s, some f)))
      ⊎ ((f : Option MigrateFault) × (commit_with c m s ≡ (applied m s, f)))
commit-cases CommitReply.applied m s = inr (none, refl)
commit-cases CommitReply.refused m s = inl (commit_failed, refl)
commit-cases CommitReply.lost m s = inr (some commit_failed, refl)

-- A step leaves the schema, with a fault, or applies its migration.
pub apply-cases :
    (v : MigrateServer) (m : Migration) (s : Schema)
    → ((f : MigrateFault) × (apply v m s ≡ (s, some f)))
      ⊎ ((f : Option MigrateFault) × (apply v m s ≡ (applied m s, f)))
unfolding apply
apply-cases v m s = elim (Bool-cases (v.begin_fails m)) [
  | inl e ↦ inl (begin_failed, rw e refl)
  | inr e ↦ elim (Bool-cases (v.exec_fails m)) [
    | inl f ↦ inl (exec_failed, rw (e, f) refl)
    | inr f ↦ elim (Bool-cases (v.record_fails m)) [
      | inl g ↦ inl (record_failed, rw (e, f, g) refl)
      | inr g ↦ rw (e, f, g) (commit-cases (v.commit m) m s)
    ]
  ]
]
