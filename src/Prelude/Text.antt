-- ===== src/Prelude/Text.antt =====
-- Text that the program walks, as the list of its code points, and Go's `strings` tests on it.
use Prim.Native.Nat.{ℕ}
use Prim.Native.Char.{code}
use Prim.Native.String.{String}
use mathlib.Core.Path.{◌≡◌, refl, sym, ap, ap₂, ◌∙◌}
use mathlib.Core.Logic.{inl, inr}
use mathlib.Core.Bool.{Bool, true, false, ◌&&◌, ◌||◌}
use mathlib.Core.List.{List, [], ◌∷◌}
use text.Mathlib.TextEquality.{Char-path, eq_iff}
use native.Mathlib.Omega.{arith}
use text.Mathlib.Text.{◌==◌}
use idemio.Prelude.Tests.{eqb, Bool-cases}

-- Keys and scope paths are ASCII, so that code points are bytes.
abbrev pub codes : String → List ℕ
codes String.[] = []
codes (String.◌∷◌ c s) = code c ∷ codes s

-- Texts with the same code points are the same text.
pub codes_inj : (s t : String) → codes s ≡ codes t → s ≡ t
codes_inj String.[] String.[] h = refl
codes_inj String.[] (String.◌∷◌ d t) h = cc
codes_inj (String.◌∷◌ c s) String.[] h = cc
codes_inj (String.◌∷◌ c s) (String.◌∷◌ d t) h =
    ap₂ String.◌∷◌ (Char-path c d (cc)) (codes_inj s t (cc))

-- strings.HasPrefix
unfoldable pub has_prefix : List ℕ → List ℕ → Bool
has_prefix s [] = true
has_prefix [] (c ∷ p) = false
has_prefix (d ∷ s) (c ∷ p) = eqb d c && has_prefix s p

-- strings.HasSuffix, for a suffix of one character
unfoldable pub ends_with : List ℕ → ℕ → Bool
ends_with [] c = false
ends_with (d ∷ []) c = eqb d c
ends_with (d ∷ e ∷ s) c = ends_with (e ∷ s) c

-- strings.Contains
unfoldable pub contains : List ℕ → List ℕ → Bool
unfolding has_prefix
contains [] p = has_prefix [] p
contains (d ∷ s) p = has_prefix (d ∷ s) p || contains s p

unfoldable pub text_eq : List ℕ → List ℕ → Bool
text_eq [] [] = true
text_eq [] (d ∷ t) = false
text_eq (c ∷ s) [] = false
text_eq (c ∷ s) (d ∷ t) = eqb c d && text_eq s t

pub text_eq_refl : (s : List ℕ) → text_eq s s ≡ true
unfolding text_eq
text_eq_refl [] = refl
text_eq_refl (c ∷ s) = ground (arith, text_eq_refl s)

pub text_eq_sound : (s t : List ℕ) → text_eq s t ≡ true → s ≡ t
unfolding text_eq
text_eq_sound [] [] h = refl
text_eq_sound [] (d ∷ t) h = cc
text_eq_sound (c ∷ s) [] h = cc
text_eq_sound (c ∷ s) (d ∷ t) h = ground (arith, text_eq_sound s t)

pub text_eq_comm : (s t : List ℕ) → text_eq s t ≡ text_eq t s
unfolding text_eq
text_eq_comm [] [] = refl
text_eq_comm [] (d ∷ t) = refl
text_eq_comm (c ∷ s) [] = refl
text_eq_comm (c ∷ s) (d ∷ t) = ground (arith, text_eq_comm s t)

absurd_eq :
    (s t : String)
    → s ≡ t
    → text_eq (codes s) (codes t) ≡ false
    → (s == t) ≡ text_eq (codes s) (codes t)
absurd_eq s t p e = cc (ap (λ u. text_eq (codes s) (codes u)) p, text_eq_refl (codes s), e)

-- The test on texts is the test on their code points.
pub str_eq-codes : (s t : String) → (s == t) ≡ text_eq (codes s) (codes t)
str_eq-codes s t = elim (Bool-cases (text_eq (codes s) (codes t))) [
  | inl e ↦ ground (arith, eq_iff s t, codes_inj s t (text_eq_sound (codes s) (codes t) e))
  | inr e ↦ elim (Bool-cases (s == t)) [
    | inl f ↦ absurd_eq s t ((eq_iff s t).0 f) e
    | inr f ↦ f ∙ sym e
  ]
]
