-- ===== src/Manifest/Load/Valid.antt =====
-- Only documents that validate are served.
use mathlib.Core.Path.{subst}
use idemio.Prelude.{
  String, true, Option, none, some, List, [], ◌∷◌, map, ◌≡◌, refl, sym, ◌==◌, eq_iff, Except, ok,
  err, >>=-eq-ok, if-cases, Bool-cases, inl, inr, append-eq-nil,
}
use idemio.Manifest.{Document, Definition, Problem, definition, validate, is_nil}
use idemio.Manifest.Load.{
  FileProblem, refused, File, Loader, Snapshot, Gathered, find_type, lookup, with_entry,
  gather_parsed, gather, gather_all, to_snapshot, load,
}

-- a definition that is that of a document which validates under the name of its type
abbrev pub IsValid : String → Definition → Type 0
IsValid t d =
    (doc : Document) × (stem : String) × (validate doc stem ≡ [])
    × (doc.resource_type ≡ t)
    × (d ≡ definition doc)

abbrev AllValid : List (String × Definition) → Type 0
AllValid entries = (t : String) (d : Definition) → find_type t entries ≡ some d → IsValid t d

map-nil : (stem : String) (ps : List Problem) → map (refused stem) ps ≡ [] → ps ≡ []
map-nil stem [] h = refl
map-nil stem (p ∷ ps) h = cc

entry-AllValid :
    (d : Document) (stem : String) (first : Option Definition)
    (entries : List (String × Definition))
    → validate d stem ≡ []
    → AllValid entries
    → AllValid (with_entry d first entries)
unfolding find_type
entry-AllValid d stem (some x) entries v all t e found = all t e found
entry-AllValid d stem none entries v all t e found = elim (Bool-cases (d.resource_type == t)) [
  | inl h ↦ (d, stem, v, (eq_iff d.resource_type t).0 h, cc)
  | inr h ↦ all t e cc
]

parsed-AllValid :
    (stem : String) (m : Except String Document) (g : Gathered)
    → (gather_parsed stem m g).problems ≡ []
    → AllValid g.by_type
    → (g.problems ≡ []) × AllValid (gather_parsed stem m g).by_type
unfolding gather_parsed
parsed-AllValid stem (err e) g clean all = ((append-eq-nil g.problems _ clean).0, all)
parsed-AllValid stem (ok d) g clean all =
    let (before, now) = append-eq-nil g.problems _ clean in
    let (valid, once) = append-eq-nil (map (refused stem) (validate d stem)) _ now in
    (
      before,
      entry-AllValid d stem (find_type d.resource_type g.by_type) g.by_type
          (map-nil stem (validate d stem) valid) all,
    )

-- problems are only added
parsed_clean :
    (stem : String) (m : Except String Document) (g : Gathered)
    → (gather_parsed stem m g).problems ≡ []
    → g.problems ≡ []
unfolding gather_parsed
parsed_clean stem (err e) g clean = (append-eq-nil g.problems _ clean).0
parsed_clean stem (ok d) g clean = (append-eq-nil g.problems _ clean).0

gather_clean :
    (l : Loader) (files : List File) (g last : Gathered)
    → gather_all l files g ≡ ok last
    → last.problems ≡ []
    → g.problems ≡ []
unfolding gather_all gather
gather_clean l [] g last h clean =
    let same : g ≡ last = cc h in subst (λ (x : Gathered). x.problems ≡ []) (sym same) clean
gather_clean l (f ∷ files) g last h clean =
    let (raw, read, rest) = >>=-eq-ok f.raw _ h in
    parsed_clean f.stem (l.parse raw) _
      (gather_clean l files (gather l f.stem raw g) last rest clean)

gather-AllValid :
    (l : Loader) (files : List File) (g last : Gathered)
    → gather_all l files g ≡ ok last
    → last.problems ≡ []
    → AllValid g.by_type
    → AllValid last.by_type
unfolding gather_all gather
gather-AllValid l [] g last h clean all =
    let same : g ≡ last = cc h in subst (λ (x : Gathered). AllValid x.by_type) same all
gather-AllValid l (f ∷ files) g last h clean all =
    let (raw, read, rest) = >>=-eq-ok f.raw _ h in
    let now = gather_clean l files (gather l f.stem raw g) last rest clean in
    gather-AllValid l files (gather l f.stem raw g) last rest clean
      (parsed-AllValid f.stem (l.parse raw) _ now all).1

nil_clean : (ps : List FileProblem) → is_nil ps ≡ true → ps ≡ []
nil_clean [] h = refl
nil_clean (p ∷ ps) h = cc

snapshot-AllValid :
    (l : Loader) (files : List File) (g : Gathered) (s : Snapshot)
    → gather_all l files (record { hashed = ""; problems = []; by_type = [] }) ≡ ok g
    → to_snapshot l g ≡ ok s
    → AllValid s.by_type
unfolding to_snapshot find_type
snapshot-AllValid l files g s h made = elim (if-cases (is_nil g.problems) _ _ made) [
  | inl (clean, same) ↦
      let made_of : record { version = l.digest g.hashed; by_type = g.by_type } ≡ s = cc same in
      subst (λ (x : Snapshot). AllValid x.by_type) made_of
        (gather-AllValid l files _ g h (nil_clean g.problems clean) (λ t d none_yet. cc))
  | inr (_, failed) ↦ cc
]

-- Every definition that a loaded snapshot serves for a type is that of a document which validates
-- and declares that type.
pub load-IsValid :
    (l : Loader) (files : List File) (s : Snapshot) (t : String) (d : Definition)
    → load l files ≡ ok s
    → lookup s t ≡ some d
    → IsValid t d
unfolding load lookup
load-IsValid l files s t d h found = elim (if-cases (is_nil files) _ _ h) [
  | inl (_, failed) ↦ cc
  | inr (_, chain) ↦
      let (g, all, made) = >>=-eq-ok (gather_all l files _) _ chain in
      snapshot-AllValid l files g s all made t d found
]
