-- ===== src/Conflict/Matrix.antt =====
-- The compatibility matrix, against the fields that two operations write.
use idemio.Prelude.{
  String, Bool, true, false, ◌||◌, List, [], ◌∷◌, ◌≡◌, refl, sym, ap, ◌∙◌, fun_ext, arith, ◌==◌,
  eq_iff, any, any-swap, Bool-cases, inl, inr,
}
use idemio.Manifest.{Operation, is_nil, class_append, class_mutate}
use idemio.Conflict.{overlaps, scopes_disjoint, compatible}
use idemio.Conflict.Segments.{
  path_segments, leads, leads_total, leads_refl, overlaps-leads, overlaps_comm,
}

-- A scope writes a field if it is empty, or if one of its paths leads to the field.
unfoldable pub writes : List String → String → Bool
unfolding any
writes scope field = is_nil scope || any (λ p. leads (path_segments p) (path_segments field)) scope

abbrev clash : List String → List String → Bool
clash a b = any (λ left. any (λ right. overlaps left right) b) a

clash_comm : (a b : List String) → clash a b ≡ clash b a
clash_comm a b =
    any-swap overlaps a b
    ∙ ap (λ (f : String → String → Bool). any (λ y. any (λ x. f y x) a) b)
        (fun_ext (λ y. fun_ext (λ x. overlaps_comm x y)))

scopes_disjoint_comm : (a b : List String) → scopes_disjoint a b ≡ scopes_disjoint b a
unfolding scopes_disjoint
scopes_disjoint_comm a b = ground (arith, clash_comm a b)

-- The matrix is symmetric.
pub compatible_comm : (a b : Operation) → compatible a b ≡ compatible b a
unfolding compatible
compatible_comm a b = ground (arith, scopes_disjoint_comm a.scope b.scope)

reach_both :
    (l f : String) (b : List String)
    → leads (path_segments l) (path_segments f) ≡ true
    → any (λ p. leads (path_segments p) (path_segments f)) b ≡ true
    → any (λ right. overlaps l right) b ≡ true
unfolding any
reach_both l f [] h k = cc
reach_both l f (r ∷ b) h k = ground (
  arith,
  overlaps-leads l r,
  leads_total (path_segments l) (path_segments r) (path_segments f),
  reach_both l f b h,
)

common-clash :
    (f : String) (a b : List String)
    → any (λ p. leads (path_segments p) (path_segments f)) a ≡ true
    → any (λ p. leads (path_segments p) (path_segments f)) b ≡ true
    → clash a b ≡ true
unfolding any
common-clash f [] b h k = cc
common-clash f (l ∷ a) b h k = ground (arith, reach_both l f b, common-clash f a b)

overlap-common :
    (l : String) (b : List String)
    → any (λ right. overlaps l right) b ≡ true
    → (f : String) × (leads (path_segments l) (path_segments f) ≡ true)
      × (any (λ p. leads (path_segments p) (path_segments f)) b ≡ true)
unfolding any
overlap-common l [] h = cc
overlap-common l (r ∷ b) h = elim (Bool-cases (leads (path_segments l) (path_segments r))) [
  | inl e ↦ (r, e, rw leads_refl)
  | inr e ↦ elim (Bool-cases (leads (path_segments r) (path_segments l))) [
    | inl g ↦ (l, leads_refl (path_segments l), rw g)
    | inr g ↦
        let (f, x, y) = overlap-common l b (ground (arith, overlaps-leads l r)) in
        (f, x, ground arith)
  ]
]

clash-common :
    (a b : List String)
    → clash a b ≡ true
    → (f : String) × (any (λ p. leads (path_segments p) (path_segments f)) a ≡ true)
      × (any (λ p. leads (path_segments p) (path_segments f)) b ≡ true)
unfolding any
clash-common [] b h = cc
clash-common (l ∷ a) b h = elim (Bool-cases (any (λ right. overlaps l right) b)) [
  | inl e ↦ let (f, x, y) = overlap-common l b e in (f, ground arith, y)
  | inr e ↦ let (f, x, y) = clash-common a b (ground arith) in (f, ground arith, y)
]

mutate-not-append : (c : String) → (c == class_mutate) ≡ true → (c == class_append) ≡ false
mutate-not-append c h = rw ((eq_iff c class_mutate).0 h)

disjoint-writes :
    (f : String) (a b : List String)
    → scopes_disjoint a b ≡ true
    → writes a f ≡ true
    → writes b f ≡ false
unfolding scopes_disjoint writes
disjoint-writes f [] b h k = cc
disjoint-writes f (l ∷ a) [] h k = cc
disjoint-writes f (l ∷ a) (r ∷ b) h k = ground (arith, common-clash f (l ∷ a) (r ∷ b))

clash-writes :
    (a b : List String)
    → scopes_disjoint a b ≡ false
    → (field : String) × (writes a field ≡ true) × (writes b field ≡ true)
unfolding scopes_disjoint writes any
clash-writes [] [] h = ("", refl, refl)
clash-writes [] (r ∷ b) h = (r, refl, rw leads_refl)
clash-writes (l ∷ a) [] h = (l, rw leads_refl, refl)
clash-writes (l ∷ a) (r ∷ b) h = clash-common (l ∷ a) (r ∷ b) (ground arith)

module _ (a b : Operation) (am : (a.class == class_mutate) ≡ true)
    (bm : (b.class == class_mutate) ≡ true) where
  compatible-scopes : compatible a b ≡ scopes_disjoint a.scope b.scope
  unfolding compatible
  compatible-scopes = rw (mutate-not-append a.class am, mutate-not-append b.class bm, am, bm)

  -- Two compatible mutates have no field that both write.
  pub compatible-writes :
      (field : String)
      → compatible a b ≡ true
      → writes a.scope field ≡ true
      → writes b.scope field ≡ false
  compatible-writes field c h = disjoint-writes field a.scope b.scope (sym compatible-scopes ∙ c) h

  -- Two mutates that the matrix holds to conflict have a field that both write.
  pub compatible_complete :
      compatible a b ≡ false
      → (field : String) × (writes a.scope field ≡ true) × (writes b.scope field ≡ true)
  compatible_complete c = clash-writes a.scope b.scope (sym compatible-scopes ∙ c)
