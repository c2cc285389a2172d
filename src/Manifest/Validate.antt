-- ===== src/Manifest/Validate.antt =====
-- What a document that `validate` accepts is known to satisfy: no status has two meanings.
use idemio.Prelude.{
  String, Bool, true, false, List, [], ◌∷◌, ◌++◌, ◌≡◌, ℤ, leb_int_trans, any, append-eq-nil,
  Bool-cases, inl, inr, refl, and-eq-true,
}
use idemio.Manifest.{
  StatusRange, Document, Problem, ranges_overlap, in_range, is_definitive, is_not_executed, when,
  type_problems, header_problems, range_problems, overlaps_range, overlaps_with, overlap_problems,
  validate,
}

when-nil : (b : Bool) (p : Problem) → when b p ≡ [] → b ≡ false
when-nil true p h = cc
when-nil false p h = refl

-- ranges that share a status overlap
shared_status :
    (d n : StatusRange) (s : ℤ)
    → in_range d s ≡ true
    → in_range n s ≡ true
    → overlaps_range d n ≡ true
unfolding in_range overlaps_range
shared_status d n s h k =
    let (a, b) = and-eq-true _ _ h in
    let (c, e) = and-eq-true _ _ k in
    rw (leb_int_trans d.from s n.to a e, leb_int_trans n.from s d.to c b)

in_one-not-in_others :
    (d : StatusRange) (ns : List StatusRange) (s : ℤ)
    → overlaps_with d ns ≡ []
    → in_range d s ≡ true
    → any (λ r. in_range r s) ns ≡ false
unfolding overlaps_with any
in_one-not-in_others d [] s h k = refl
in_one-not-in_others d (n ∷ ns) s h k =
    let (now, later) = append-eq-nil _ (overlaps_with d ns) h in
    let apart = when-nil (overlaps_range d n) (ranges_overlap d n) now in
    elim (Bool-cases (in_range n s)) [
      | inl e ↦ cc (shared_status d n s k e, apart)
      | inr e ↦ rw e (in_one-not-in_others d ns s later k)
    ]

apart_from_all :
    (ds ns : List StatusRange) (s : ℤ)
    → overlap_problems ds ns ≡ []
    → any (λ r. in_range r s) ds ≡ true
    → any (λ r. in_range r s) ns ≡ false
unfolding overlap_problems any
apart_from_all [] ns s h k = cc
apart_from_all (d ∷ ds) ns s h k =
    let (now, later) = append-eq-nil (overlaps_with d ns) _ h in
    elim (Bool-cases (in_range d s)) [
      | inl e ↦ in_one-not-in_others d ns s now e
      | inr e ↦ apart_from_all ds ns s later (rw e at k)
    ]

validate-overlap_problems :
    (d : Document) (stem : String)
    → validate d stem ≡ []
    → overlap_problems d.errors.definitive d.errors.not_executed ≡ []
unfolding validate
validate-overlap_problems d stem h =
    let (_, h1) = append-eq-nil (type_problems d stem) _ h in
    let (_, h2) = append-eq-nil (header_problems d) _ h1 in
    let (_, h3) =
      append-eq-nil (range_problems (d.errors.definitive ++ d.errors.not_executed)) _ h2 in
    (append-eq-nil (overlap_problems d.errors.definitive d.errors.not_executed) _ h3).0

-- In a document that validates, no status is both definitive and provably not executed.
pub validate-separates :
    (d : Document) (stem : String) (status : ℤ)
    → validate d stem ≡ []
    → is_definitive d.errors status ≡ true
    → is_not_executed d.errors status ≡ false
unfolding is_definitive is_not_executed
validate-separates d stem status h k =
    apart_from_all _ _ status (validate-overlap_problems d stem h) k
