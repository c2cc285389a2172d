-- ===== src/Api/Reads/Order.antt =====
-- The order of the keys of a page is strict and total.
use idemio.Prelude.{
  ℕ, true, false, List, [], ◌∷◌, ◌≡◌, refl, arith, ◌⊎◌, inl, inr, codes, codes_inj,
}
use idemio.Api.Reads.{Cursor, lex_less, key_less}

lex_irrefl : (xs : List ℕ) → lex_less xs xs ≡ false
unfolding lex_less
lex_irrefl [] = refl
lex_irrefl (x ∷ xs) = ground (arith, lex_irrefl xs)

lex_trans :
    (xs ys zs : List ℕ) → lex_less xs ys ≡ true → lex_less ys zs ≡ true → lex_less xs zs ≡ true
unfolding lex_less
lex_trans [] [] zs h k = cc
lex_trans [] (y ∷ ys) [] h k = cc
lex_trans [] (y ∷ ys) (z ∷ zs) h k = refl
lex_trans (x ∷ xs) [] zs h k = cc
lex_trans (x ∷ xs) (y ∷ ys) [] h k = cc
lex_trans (x ∷ xs) (y ∷ ys) (z ∷ zs) h k = ground (arith, lex_trans xs ys zs)

lex_total : (xs ys : List ℕ) → (lex_less xs ys ≡ true) ⊎ (lex_less ys xs ≡ true) ⊎ (xs ≡ ys)
unfolding lex_less
lex_total [] [] = inr (inr refl)
lex_total [] (y ∷ ys) = inl refl
lex_total (x ∷ xs) [] = inr (inl refl)
lex_total (x ∷ xs) (y ∷ ys) = ground (arith, lex_total xs ys)

pub key_irrefl : (a : Cursor) → key_less a a ≡ false
unfolding key_less
key_irrefl a = ground (arith, lex_irrefl (codes a.id))

pub key_trans : (a b c : Cursor) → key_less a b ≡ true → key_less b c ≡ true → key_less a c ≡ true
unfolding key_less
key_trans a b c h k = ground (arith, lex_trans (codes a.id) (codes b.id) (codes c.id))

pub key_asym : (a b : Cursor) → key_less a b ≡ true → key_less b a ≡ false
key_asym a b h = ground (arith, key_trans a b a h, key_irrefl a)

-- Two keys are in order unless both their times and their identifiers are the same.
pub key_total : (a b : Cursor) → (a.id ≡ b.id → ⊥) → key_less a b ≡ false → key_less b a ≡ true
unfolding key_less
key_total a b apart h = ground (arith, lex_total (codes a.id) (codes b.id), codes_inj a.id b.id)
