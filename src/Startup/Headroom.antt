-- ===== src/Startup/Headroom.antt =====
-- The partitions that maintenance makes are enough for the next start.
use idemio.Prelude.{
  ℕ, ◌+◌, ◌-◌, ◌≤◌, ◌<◌, String, Bool, true, false, ◌&&◌, none, some, List, [], ◌∷◌, ◌≡◌, refl,
  arith, ◌==◌, ℤ, pos, ltb_int, leb, ltb, any, select_where, sym, ◌∙◌, if◌then◌else◌, ok,
  Bool-cases, inl, inr,
}
use idemio.Prelude.Rows.{any-select, any_mono}
use idemio.Maintenance.Partitions.{
  Partitioned, Calendar, Range, PartitionServer, max_upper, upper_bound, extend,
}
use idemio.Maintenance.Partitions.Cover.{Steps, IsFresh, extend-Covers, holds}
use idemio.Startup.{VerifyServer, latest_bound, until, partition_headroom}

max_upper_above : (m : ℕ) (rs : List Range) → m ≤ max_upper m rs
max_upper_above m [] = omega arith
max_upper_above m (r ∷ rs) = ground (arith, max_upper_above m rs, max_upper_above r.upper rs)

past : ℕ → Range → Bool
past t r = ltb t r.upper

max_upper_of : (t m : ℕ) (rs : List Range) → any (past t) rs ≡ true → t < max_upper m rs
unfolding any past
max_upper_of t m [] h = cc
max_upper_of t m (r ∷ rs) h = elim (Bool-cases (ltb t r.upper)) [
  | inl f ↦ ground (arith, f, max_upper_above (if leb m r.upper then r.upper else m) rs)
  | inr f ↦ max_upper_of t (if leb m r.upper then r.upper else m) rs (rw f at h)
]

beyond : ℕ → String → Range → Bool
beyond t table r = r.table == table && ltb t r.upper

-- A table of which a partition goes beyond a time.
latest_beyond :
    (t : ℕ) (table : String) (rs : List Range)
    → any (beyond t table) rs ≡ true
    → (latest : ℕ) × (latest_bound table rs ≡ some latest) × (t < latest)
unfolding latest_bound beyond past any
latest_beyond t table rs h =
    latest_of (select_where (λ (r : Range). r.table == table) rs)
      (any-select (past t) (λ (r : Range). r.table == table) rs ∙ h)
  where
    latest_of :
        (own : List Range)
        → any (past t) own ≡ true
        → (latest : ℕ) × ((elim own [ [] ↦ none | r ∷ more ↦ some (max_upper r.upper more) ])
            ≡ some latest)
          × (t < latest)
    latest_of [] h = cc
    latest_of (r ∷ more) h = (
      max_upper r.upper more,
      refl,
      elim (Bool-cases (ltb t r.upper)) [
        | inl f ↦ ground (arith, f, max_upper_above r.upper more)
        | inr f ↦ max_upper_of t r.upper more (rw f at h)
      ],
    )

max_upper_reached :
    (t m : ℕ) (rs : List Range) → m ≤ t → t < max_upper m rs → any (past t) rs ≡ true
unfolding any past
max_upper_reached t m [] low h = absurd (omega (arith, low, h))
max_upper_reached t m (r ∷ rs) low h = elim (Bool-cases (ltb t r.upper)) [
  | inl e ↦ rw e refl
  | inr e ↦
      rw e
        (max_upper_reached t (if leb m r.upper then r.upper else m) rs (ground (arith, low, e)) h)
]

-- A bound past the start of the week is that of a partition.
upper_reached :
    (cal : Calendar) (now t : ℕ) (table : String) (rs : List Range)
    → cal.week_of now ≤ t
    → t < upper_bound cal now table rs
    → any (beyond t table) rs ≡ true
unfolding upper_bound beyond past any
upper_reached cal now t table rs early late =
    sym (any-select (past t) (λ (r : Range). r.table == table) rs)
    ∙ reached (select_where (λ (r : Range). r.table == table) rs) late
  where
    reached :
        (own : List Range)
        → t < (elim own [ [] ↦ cal.week_of now | r ∷ more ↦ max_upper r.upper more ])
        → any (past t) own ≡ true
    reached [] h = absurd (omega (arith, early, h))
    reached (r ∷ more) h = elim (Bool-cases (ltb t r.upper)) [
      | inl e ↦ rw e refl
      | inr e ↦ rw e (max_upper_reached t r.upper more (ground (arith, e)) h)
    ]

module _ (cal : Calendar) (v : PartitionServer) (p : Partitioned) (w : VerifyServer)
    (minimum horizon : ℕ) (rs : List Range) where
  -- the extended table, and its headroom at the time of the check
  abbrev pub HasHeadroom : Type 0
  HasHeadroom =
      (after : List Range) × (extend cal v p horizon rs ≡ ok after)
      × (headroom : ℤ) × (partition_headroom w p.name after ≡ ok headroom)
      × (ltb_int headroom (pos minimum) ≡ false)

  covered :
      (after : List Range)
      → any (holds cal v p (horizon - 1)) after ≡ true
      → any (beyond (horizon - 1) p.name) after ≡ true
  unfolding beyond
  covered after h = elim (Bool-cases (any (beyond (horizon - 1) p.name) after)) [
    | inl e ↦ e
    | inr e ↦
        let none_holds =
          any_mono (holds cal v p (horizon - 1)) (beyond (horizon - 1) p.name) (λ r k. ground arith)
            after e in
        cc
  ]

  -- When the loop over a table's partitions has steps that go forward to names that are free and no
  -- statement fails, a server that checks the table later finds the headroom that it asks for, as long
  -- as the minimum from then on ends at the horizon or before.
  pub extend-HasHeadroom :
      Steps cal v p
      → IsFresh cal v p (upper_bound cal v.now p.name rs) rs
      → v.bounds_fail p.name ≡ false
      → w.bounds_fail p.name ≡ false
      → cal.week_of v.now < horizon
      → w.now + minimum ≤ horizon
      → HasHeadroom
  unfolding partition_headroom
  extend-HasHeadroom steps fresh bounded readable ahead soon =
      let (after, made, covers, stays) = extend-Covers cal v p horizon rs steps fresh bounded in
      let reaches : any (beyond (horizon - 1) p.name) after ≡ true =
        elim (Bool-cases (ltb (horizon - 1) (upper_bound cal v.now p.name rs))) [
          | inl e ↦ stays (beyond (horizon - 1) p.name) (
              upper_reached cal v.now (horizon - 1) p.name rs (omega (arith, ahead))
                (ground (arith, e)))
          | inr e ↦ covered after (covers (horizon - 1) (ground (arith, e)) (omega (arith, ahead)))
        ] in
      let (latest, bound, far) = latest_beyond (horizon - 1) p.name after reaches in
      (after, made, until latest w.now, rw (readable, bound) refl, ground (arith, far, soon, ahead))
