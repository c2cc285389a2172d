-- ===== src/Api/Reads/Parts.antt =====
-- What all rows have, those of a page have.
use mathlib.Core.Path.{subst}
use idemio.Prelude.{
  ℕ, String, Option, none, some, List, [], ◌∷◌, map, ◌≡◌, take, zero, suc, inl, inr, length,
  if-cases, leb,
}
use idemio.Api.Reads.{paginate, cut_page, last, Page}
use idemio.Api.Reads.Sorted.{All}

take-All {ℓ κ} : {A : Type ℓ} (P : A → Type κ) (n : ℕ) (xs : List A) → All P xs → All P (take n xs)
take-All P zero xs all = tt
take-All P (suc n) [] all = tt
take-All P (suc n) (x ∷ xs) (p, all) = (p, take-All P n xs all)

pub map-All {ℓ κ ι} :
    {A : Type ℓ} {B : Type κ} (P : B → Type ι) (g : A → B) (xs : List A)
    → ((a : A) → P (g a))
    → All P (map g xs)
map-All P g [] all = tt
map-All P g (x ∷ xs) all = (all x, map-All P g xs all)

cut_page-All {ℓ κ} :
    {A : Type ℓ} (P : A → Type κ) (rows : List A) (key : A → String) (end : Option A)
    {page : Page A}
    → cut_page rows key end ≡ some page
    → All P rows
    → All P page.rows
cut_page-All P rows key none h all = cc
cut_page-All P rows key (some r) {page} h all =
    let same : rows ≡ page.rows = cc h in subst (All P) same all

pub paginate-All {ℓ κ} :
    {A : Type ℓ} (P : A → Type κ) (rows : List A) (limit : ℕ) (key : A → String) {page : Page A}
    → paginate rows limit key ≡ some page
    → All P rows
    → All P page.rows
unfolding paginate
paginate-All P rows limit key {page} h all = elim (if-cases (leb (length rows) limit) _ _ h) [
  | inl (e, k) ↦ let same : rows ≡ page.rows = cc k in subst (All P) same all
  | inr (e, k) ↦
      cut_page-All P (take limit rows) key (last (take limit rows)) k (take-All P limit rows all)
]
