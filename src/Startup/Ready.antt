-- ===== src/Startup/Ready.antt =====
-- What a server that listens has established.
use mathlib.Core.Path.{subst}
use idemio.Prelude.{
  ℕ, ◌+◌, ◌*◌, ◌≤◌, String, Bool, true, false, not, Option, none, some, List, [], ◌∷◌, ◌≡◌, refl,
  sym, ap, ◌∙◌, arith, ◌==◌, eq_iff, pos, ltb_int, leb, any, Except, ok, err, >>=-eq-ok, or_fail,
  or_fail-ok, if◌then◌else◌, if-cases, inl, inr, Bool-cases,
}
use idemio.Config.{Config, Env, ConfigProblem, day}
use idemio.Config
use idemio.Maintenance.Partitions.{Range}
use idemio.Manifest.Load.{Snapshot, LoadFailure}
use idemio.Manifest.Load
use idemio.Migrate.{Schema, MigrateFault, migrate}
use idemio.Migrate.Complete.{misses}
use idemio.Migrate.Once.{migrate_complete}
use idemio.Startup.{
  StartFault, constraint_unread, bounds_unread, VerifyServer, BucketServer, Options,
  expected_key_constraint, verify_unique_constraint, latest_bound, until, partition_headroom,
  verify_headroom, verified_tables, verify_partition_headroom, is_configured, new_client,
  with_bucket, options_of,
}
use idemio.Startup.Server.{
  Machine, StartDb, Serving, min_partition_headroom, config_or, manifests_or, prepare, check,
  listen, migrated, prepared, run,
}

verified_constraint :
    (columns : Option String)
    → verify_unique_constraint columns ≡ ok tt
    → columns ≡ some expected_key_constraint
unfolding verify_unique_constraint
verified_constraint columns h =
    let (found, e, f) = >>=-eq-ok (or_fail columns constraint_unread) _ h in
    elim (if-cases (not (found == expected_key_constraint)) _ _ f) [
      | inl (_, failed) ↦ cc
      | inr (same, _) ↦
          or_fail-ok columns constraint_unread e
          ∙ ap some ((eq_iff found expected_key_constraint).0 (ground arith))
    ]

-- The latest of the table's partitions ends at a time or after it.
abbrev pub Reaches : ℕ → String → List Range → Type 0
Reaches t table rs = (latest : ℕ) × (latest_bound table rs ≡ some latest) × (t ≤ latest)

until_enough :
    (latest now minimum : ℕ)
    → ltb_int (until latest now) (pos minimum) ≡ false
    → now + minimum ≤ latest
until_enough latest now minimum h = elim (Bool-cases (leb now latest)) [
  | inl e ↦ ground arith
  | inr e ↦ ground arith
]

bound_read :
    (fails : Bool) (o : Option ℕ) (latest : ℕ)
    → (if fails then err bounds_unread else or_fail o bounds_unread) ≡ ok latest
    → o ≡ some latest
bound_read true o latest h = cc
bound_read false o latest h = or_fail-ok o bounds_unread h

verified_headroom :
    (v : VerifyServer) (minimum : ℕ) (rs : List Range) (tables : List String) (table : String)
    → verify_headroom v (pos minimum) rs tables ≡ ok tt
    → any (λ t. t == table) tables ≡ true
    → Reaches (v.now + minimum) table rs
unfolding verify_headroom partition_headroom any
verified_headroom v minimum rs [] table h member = cc
verified_headroom v minimum rs (t ∷ tables) table h member =
    let (headroom, e, f) = >>=-eq-ok (partition_headroom v t rs) _ h in
    elim (if-cases (ltb_int headroom (pos minimum)) _ _ f) [
      | inl (_, failed) ↦ cc
      | inr (long, rest) ↦ elim (Bool-cases (t == table)) [
        | inl same ↦
            let (latest, reads, made) =
              >>=-eq-ok
                (if v.bounds_fail t
                  then err bounds_unread
                  else or_fail (latest_bound t rs) bounds_unread)
                _ e in
            let until_it : until latest v.now ≡ headroom = cc made in
            subst (λ n. Reaches (v.now + minimum) n rs) ((eq_iff t table).0 same)
              (
                latest,
                bound_read (v.bounds_fail t) (latest_bound t rs) latest reads,
                until_enough latest v.now minimum
                    (subst (λ z. ltb_int z (pos minimum) ≡ false) (sym until_it) long),
              )
        | inr apart ↦ verified_headroom v minimum rs tables table rest (rw apart at member)
      ]
    ]

-- A start that succeeds.
pub record IsReady (m : Machine) (after : StartDb) (s : Serving) : Type 0 where
  pub configured : Config.load m.env ≡ ok s.config
  pub declared : Load.load m.loader (m.files s.config.manifest_dir) ≡ ok s.manifests
  pub up_to_date : any (misses after.schema.versions) m.migrations ≡ false
  pub constrained : m.constraint after.schema ≡ some expected_key_constraint
  pub partitioned :
      (table : String)
      → any (λ t. t == table) verified_tables ≡ true
      → Reaches (m.verify_server.now + 14 * day) table (m.ranges after.schema)
  pub stores : s.has_objects ≡ is_configured (options_of s.config)

config_or-ok : (r : Except (List ConfigProblem) Config) (c : Config) → config_or r ≡ ok c → r ≡ ok c
unfolding config_or
config_or-ok (ok x) c h = cc h
config_or-ok (err e) c h = cc

manifests_or-ok :
    (r : Except LoadFailure Snapshot) (s : Snapshot) → manifests_or r ≡ ok s → r ≡ ok s
unfolding manifests_or
manifests_or-ok (ok x) s h = cc h
manifests_or-ok (err e) s h = cc

with_bucket-ok :
    (found : Option Bool) (makes has : Bool) → with_bucket found makes ≡ ok has → has ≡ true
with_bucket-ok none makes has h = cc
with_bucket-ok (some true) makes has h = cc h
with_bucket-ok (some false) true has h = cc h
with_bucket-ok (some false) false has h = cc

new_client-ok :
    (b : BucketServer) (o : Options) (has : Bool) → new_client b o ≡ ok has → has ≡ is_configured o
unfolding new_client
new_client-ok b o has h = elim (Bool-cases (is_configured o)) [
  | inr e ↦ ground (arith, h, e)
  | inl e ↦ elim (if-cases (not (is_configured o)) _ _ h) [
    | inl (off, _) ↦ cc
    | inr (_, f) ↦ elim (if-cases (not (b.connects o)) _ _ f) [
      | inl (_, failed) ↦ cc
      | inr (_, g) ↦ with_bucket-ok (b.exists o) (b.makes o) has g ∙ sym e
    ]
  ]
]

prepare-ok :
    (m : Machine) (p : Config × Snapshot)
    → prepare m ≡ ok p
    → (Config.load m.env ≡ ok p.0) × (Load.load m.loader (m.files p.0.manifest_dir) ≡ ok p.1)
unfolding prepare
prepare-ok m p h =
    let (c, e, f) = >>=-eq-ok (config_or (Config.load m.env)) _ h in
    let (s, g, k) = >>=-eq-ok (manifests_or (Load.load m.loader (m.files c.manifest_dir))) _ f in
    elim (if-cases (m.connects c.database_url) _ _ k) [
      | inl (_, made) ↦
          let same : (c, s) ≡ p = cc made in
          subst
            (λ (q : Config × Snapshot).
              (Config.load m.env ≡ ok q.0)
              × (Load.load m.loader (m.files q.0.manifest_dir) ≡ ok q.1))
            same (config_or-ok _ c e, manifests_or-ok _ s g)
      | inr (_, failed) ↦ cc
    ]

listen-IsReady :
    (m : Machine) (c : Config) (sn : Snapshot) (db : StartDb) (checked : Except StartFault Bool)
    (s : Serving)
    → check m c db.schema ≡ checked
    → Config.load m.env ≡ ok c
    → Load.load m.loader (m.files c.manifest_dir) ≡ ok sn
    → any (misses db.schema.versions) m.migrations ≡ false
    → (listen m c sn db checked).1 ≡ ok s
    → IsReady m (listen m c sn db checked).0 s
unfolding check verify_partition_headroom
listen-IsReady m c sn db (err fault) s made loaded declared up h = cc
listen-IsReady m c sn db (ok has) s made loaded declared up h =
    let (_, constrained, f) =
      >>=-eq-ok (verify_unique_constraint (m.constraint db.schema)) _ made in
    let (_, long, g) =
      >>=-eq-ok
        (verify_headroom m.verify_server min_partition_headroom (m.ranges db.schema)
          verified_tables)
        _ f in
    elim (if-cases (m.binds c.listen_addr) _ _ h) [
      | inr (_, failed) ↦ cc
      | inl (_, listening) ↦
          let same : record { config = c; manifests = sn; has_objects = has } ≡ s = cc listening in
          subst (IsReady m (listen m c sn db (ok has)).0) same (record {
            configured = loaded;
            declared = declared;
            up_to_date = up;
            constrained = verified_constraint (m.constraint db.schema) constrained;
            partitioned = λ table member.
                verified_headroom m.verify_server (14 * day) (m.ranges db.schema) verified_tables
                  table long member;
            stores = new_client-ok m.bucket (options_of c) has g;
          })
    ]

migrated-IsReady :
    (m : Machine) (c : Config) (sn : Snapshot) (db : StartDb) (r : Schema × Option MigrateFault)
    (s : Serving)
    → Config.load m.env ≡ ok c
    → Load.load m.loader (m.files c.manifest_dir) ≡ ok sn
    → (r.1 ≡ none → any (misses r.0.versions) m.migrations ≡ false)
    → (migrated m c sn db r).1 ≡ ok s
    → IsReady m (migrated m c sn db r).0 s
migrated-IsReady m c sn db (schema, some fault) s loaded declared up h = cc
migrated-IsReady m c sn db (schema, none) s loaded declared up h =
    listen-IsReady m c sn (record db { schema = schema }) (check m c schema) s refl loaded declared
      (up refl) h

prepared-IsReady :
    (m : Machine) (db : StartDb) (r : Except StartFault (Config × Snapshot)) (s : Serving)
    → prepare m ≡ r
    → (prepared m db r).1 ≡ ok s
    → IsReady m (prepared m db r).0 s
prepared-IsReady m db (err fault) s made h = cc
prepared-IsReady m db (ok (c, sn)) s made h =
    let (loaded, declared) = prepare-ok m (c, sn) made in
    migrated-IsReady m c sn db (migrate m.migrate_server m.migrations db.schema) s loaded declared
      (migrate_complete m.migrate_server m.migrations db.schema) h

-- A server that listens has loaded its configuration and every manifest without a problem, no
-- migration is left to apply, the unique constraint of the keys is on agent and key, the latest
-- partition of each of the three partitioned tables ends 14 days after the check or later, and it
-- stores objects exactly when its configuration names an endpoint and a bucket. Gaps before the
-- latest partition are not looked for.
pub run-IsReady :
    (m : Machine) (db : StartDb) (s : Serving) → (run m db).1 ≡ ok s → IsReady m (run m db).0 s
unfolding run
run-IsReady m db s h = prepared-IsReady m db (prepare m) s refl h
