-- ===== src/Conflict/Segments.antt =====
-- What the prefix test of `overlaps` means: one field path is a leading part of the other, segment
-- by segment.
use idemio.Prelude.{
  ℕ, String, Bool, true, false, ◌&&◌, ◌||◌, List, [], ◌∷◌, ◌++◌, ◌≡◌, refl, arith, eqb, codes,
  has_prefix, text_eq, text_eq_refl, text_eq_sound, text_eq_comm, str_eq-codes, if◌then◌else◌,
  Bool-cases, inl, inr,
}
use idemio.Conflict.{overlaps}

abbrev cons_head : ℕ → List (List ℕ) → List (List ℕ)
cons_head c [] = (c ∷ []) ∷ []
cons_head c (x ∷ xs) = (c ∷ x) ∷ xs

-- a path cut at its dots
unfoldable pub segments : List ℕ → List (List ℕ)
segments [] = [] ∷ []
segments (c ∷ s) = let rest = segments s in if eqb c b'.' then [] ∷ rest else cons_head c rest

-- the first list of segments begins the second
unfoldable pub leads : List (List ℕ) → List (List ℕ) → Bool
unfolding text_eq
leads [] ys = true
leads (x ∷ xs) [] = false
leads (x ∷ xs) (y ∷ ys) = text_eq x y && leads xs ys

abbrev pub path_segments : String → List (List ℕ)
path_segments p = segments (codes p)

segments-cons : (s : List ℕ) → (x : List ℕ) × (xs : List (List ℕ)) × (segments s ≡ x ∷ xs)
unfolding segments
segments-cons [] = ([], [], refl)
segments-cons (c ∷ s) =
    let (x, xs, e) = segments-cons s in
    elim (Bool-cases (eqb c b'.')) [
      | inl p ↦ ([], segments s, rw p)
      | inr p ↦ (c ∷ x, xs, rw (p, e))
    ]

-- Leading, segment by segment, is equality or a prefix that ends at a dot.
leads-segments :
    (a b : List ℕ)
    → leads (segments a) (segments b) ≡ (text_eq a b || has_prefix b (a ++ b'.' ∷ []))
unfolding segments leads has_prefix
leads-segments [] [] = refl
leads-segments [] (d ∷ t) = let (y, ys, f) = segments-cons t in ground (arith, f)
leads-segments (c ∷ s) [] = let (x, xs, e) = segments-cons s in ground (arith, e)
leads-segments (c ∷ s) (d ∷ t) =
    let (x, xs, e) = segments-cons s in
    let (y, ys, f) = segments-cons t in ground (arith, e, f, leads-segments s t)

-- Two paths overlap exactly when the segments of one begin the segments of the other.
pub overlaps-leads :
    (a b : String)
    → overlaps a b
      ≡ (leads (path_segments a) (path_segments b) || leads (path_segments b) (path_segments a))
unfolding overlaps
overlaps-leads a b = ground (
  arith,
  leads-segments (codes a) (codes b),
  leads-segments (codes b) (codes a),
  str_eq-codes a b,
  text_eq_comm (codes a) (codes b),
)

pub overlaps_comm : (a b : String) → overlaps a b ≡ overlaps b a
overlaps_comm a b = ground (arith, overlaps-leads a b, overlaps-leads b a)

-- two beginnings of one path are comparable
pub leads_total :
    (xs ys zs : List (List ℕ))
    → leads xs zs ≡ true
    → leads ys zs ≡ true
    → (leads xs ys || leads ys xs) ≡ true
unfolding leads
leads_total [] ys zs h k = refl
leads_total (x ∷ xs) [] zs h k = refl
leads_total (x ∷ xs) (y ∷ ys) [] h k = cc
leads_total (x ∷ xs) (y ∷ ys) (z ∷ zs) h k = ground (
  arith,
  leads_total xs ys zs,
  text_eq_sound x z,
  text_eq_sound y z,
  text_eq_refl x,
  text_eq_refl y,
  text_eq_refl z,
)

pub leads_refl : (xs : List (List ℕ)) → leads xs xs ≡ true
unfolding leads
leads_refl [] = refl
leads_refl (x ∷ xs) = ground (arith, text_eq_refl x, leads_refl xs)
