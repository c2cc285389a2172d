-- ===== src/Maintenance/Partitions/Cover.antt =====
-- The partitions of a table reach the horizon without a gap.
use idemio.Prelude.{
  ℕ, zero, suc, ◌+◌, ◌≤◌, ◌<◌, String, Bool, true, false, ◌&&◌, List, [], ◌∷◌, ◌++◌, ◌≡◌, refl, ◌∙◌,
  arith, ◌==◌, eq_iff, eq_refl, ltb, leb, any, any-append, Bool-cases, inl, inr, Except, ok,
}
use idemio.Maintenance.Partitions.{
  Partitioned, Calendar, Range, PartitionServer, PartitionFault, next, partition_name, upper_bound,
  create, extend_from, extend,
}

not_eq : (a b : String) → (a ≡ b → ⊥) → (a == b) ≡ false
not_eq a b apart = elim (Bool-cases (a == b)) [
  | inl e ↦ absurd (apart ((eq_iff a b).0 e))
  | inr e ↦ e
]

module _ (cal : Calendar) (v : PartitionServer) (p : Partitioned) where
  -- The partition holds a time of the table.
  abbrev pub holds : ℕ → Range → Bool
  holds t r = r.table == p.name && (leb r.lower t && ltb t r.upper)

  -- No partition has the name of one that starts at a boundary or later.
  abbrev pub IsFresh : ℕ → List Range → Type 0
  IsFresh boundary rs =
      (t : ℕ) → boundary ≤ t → any (λ r. r.name == partition_name cal p t) rs ≡ false

  -- The steps go forward, to other names, and the database makes what it is told to.
  pub record Steps : Type 0 where
    pub next_later : (t : ℕ) → t < next cal p t
    pub name_apart :
        (a b : ℕ) → next cal p a ≤ b → partition_name cal p a ≡ partition_name cal p b → ⊥
    pub creates : (name : String) → v.create_fails name ≡ false

  abbrev new_range : ℕ → Range
  new_range lower = record {
    table = p.name;
    name = partition_name cal p lower;
    lower = lower;
    upper = next cal p lower;
  }

  create_fresh :
      (boundary : ℕ) (rs : List Range)
      → IsFresh boundary rs
      → create cal p boundary rs ≡ rs ++ (new_range boundary ∷ [])
  unfolding create
  create_fresh boundary rs fresh = rw (fresh boundary (omega arith)) refl

  create-IsFresh :
      (boundary : ℕ) (rs : List Range)
      → Steps
      → IsFresh boundary rs
      → IsFresh (next cal p boundary) (rs ++ (new_range boundary ∷ []))
  unfolding any
  create-IsFresh boundary rs s fresh = λ t h.
      let old = fresh t (omega (arith, h, s.next_later boundary)) in
      let apart =
        not_eq (partition_name cal p boundary) (partition_name cal p t)
          (s.name_apart boundary t h) in
      any-append (λ (r : Range). r.name == partition_name cal p t) rs (new_range boundary ∷ [])
      ∙ ground (arith, old, apart)

  -- What a loop gives: the partitions up to the horizon, and all that were there.
  abbrev pub Covers : ℕ → ℕ → List Range → Except PartitionFault (List Range) → Type 0
  Covers horizon boundary rs result =
      (after : List Range) × (result ≡ ok after)
      × ((t : ℕ) → boundary ≤ t → t < horizon → any (holds t) after ≡ true)
      × ((q : Range → Bool) → any q rs ≡ true → any q after ≡ true)

  new_holds :
      (boundary t : ℕ) (rs : List Range)
      → boundary ≤ t
      → t < next cal p boundary
      → any (holds t) (rs ++ (new_range boundary ∷ [])) ≡ true
  unfolding any
  new_holds boundary t rs h k =
      any-append (holds t) rs (new_range boundary ∷ []) ∙ ground (arith, h, k, eq_refl p.name)

  old_stays :
      (boundary : ℕ) (rs : List Range) (q : Range → Bool)
      → any q rs ≡ true
      → any q (rs ++ (new_range boundary ∷ [])) ≡ true
  unfolding any
  old_stays boundary rs q h = any-append q rs (new_range boundary ∷ []) ∙ ground (arith, h)

  extend_from-Covers :
      (horizon fuel boundary : ℕ) (rs : List Range)
      → Steps
      → IsFresh boundary rs
      → horizon ≤ boundary + fuel
      → Covers horizon boundary rs (extend_from cal v p horizon fuel boundary rs)
  unfolding extend_from
  extend_from-Covers horizon zero boundary rs s fresh h =
      (rs, ground (arith, h), (λ t k l. absurd (omega (arith, h, k, l))), λ q e. e)
  extend_from-Covers horizon (suc fuel) boundary rs s fresh h =
      elim (Bool-cases (ltb boundary horizon)) [
        | inr e ↦ (rs, rw e refl, (λ t k l. absurd (ground (arith, e, k, l))), λ q f. f)
        | inl e ↦
            let (after, made, covers, stays) =
              extend_from-Covers horizon fuel (next cal p boundary)
                (rs ++ (new_range boundary ∷ [])) s (create-IsFresh boundary rs s fresh)
                (omega (arith, h, s.next_later boundary)) in
            (
              after,
              rw (e, s.creates (partition_name cal p boundary), create_fresh boundary rs fresh)
                  made,
              (λ t k l. elim (Bool-cases (ltb t (next cal p boundary))) [
                | inl f ↦ stays (holds t) (new_holds boundary t rs k (ground (arith, f)))
                | inr f ↦ covers t (ground (arith, f)) l
              ]),
              λ q f. stays q (old_stays boundary rs q f),
            )
      ]

  -- The loop ends, and afterwards every time from the upper bound to the horizon has a partition of the
  -- table, and no partition is gone, if each step goes forward to a name that no partition has and no
  -- statement fails.
  pub extend-Covers :
      (horizon : ℕ) (rs : List Range)
      → Steps
      → IsFresh (upper_bound cal v.now p.name rs) rs
      → v.bounds_fail p.name ≡ false
      → Covers horizon (upper_bound cal v.now p.name rs) rs (extend cal v p horizon rs)
  unfolding extend
  extend-Covers horizon rs s fresh bounded = rw bounded (
      extend_from-Covers horizon horizon (upper_bound cal v.now p.name rs) rs s fresh (omega arith))
