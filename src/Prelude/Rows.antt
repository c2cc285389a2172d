-- ===== src/Prelude/Rows.antt =====
-- Tests for a row, on tables that a query selects from, orders, maps or updates.
use mathlib.Core.Path.{◌≡◌, refl, ap}
use mathlib.Core.Bool.{Bool, true, false, ◌&&◌, ◌||◌}
use mathlib.Core.List.{List, [], ◌∷◌, map}
use mathlib.Core.Option.{none}
use native.Mathlib.Omega.{arith}
use mathlib.Core.Logic.{inl, inr}
use idemio.Prelude.Lists.{select_where, update_where, find_where, any}
use idemio.Prelude.Tests.{Bool-cases}

module _ {ℓ} {A : Type ℓ} (p q : A → Bool) where
  pub any-select : (xs : List A) → any p (select_where q xs) ≡ any (λ x. q x && p x) xs
  unfolding any select_where
  any-select [] = refl
  any-select (x ∷ xs) = ground (arith, any-select xs)

  -- A test that holds of fewer rows.
  pub any_mono :
      ((x : A) → p x ≡ true → q x ≡ true) → (xs : List A) → any q xs ≡ false → any p xs ≡ false
  unfolding any
  any_mono less [] h = refl
  any_mono less (x ∷ xs) h = ground (arith, less x, any_mono less xs)

module _ {ℓ} {A : Type ℓ} (p : A → Bool) where
  pub any_of_select : (xs : List A) → select_where p xs ≡ [] → any p xs ≡ false
  unfolding any select_where
  any_of_select [] h = refl
  any_of_select (x ∷ xs) h = ground (arith, any_of_select xs)

  pub any_of_find : (xs : List A) → find_where p xs ≡ none → any p xs ≡ false
  unfolding any find_where
  any_of_find [] h = refl
  any_of_find (x ∷ xs) h = ground (arith, any_of_find xs)

  pub any_never : ((x : A) → p x ≡ false) → (xs : List A) → any p xs ≡ false
  unfolding any
  any_never never [] = refl
  any_never never (x ∷ xs) = rw (never x) (any_never never xs)

  -- Rows that an update does not bring under the test.
  pub any-update :
      (q : A → Bool) (f : A → A)
      → ((x : A) → p (f x) ≡ true → p x ≡ true)
      → (xs : List A) → any p xs ≡ false
      → any p (update_where q f xs) ≡ false
  unfolding any update_where
  any-update q f less [] h = refl
  any-update q f less (x ∷ xs) h = ground (arith, less x, any-update q f less xs)

  pub any-sublist :
      (q : A → Bool) (xs : List A) → any p xs ≡ false → any p (select_where q xs) ≡ false
  unfolding any select_where
  any-sublist q [] h = refl
  any-sublist q (x ∷ xs) h = ground (arith, any-sublist q xs)

pub any-map {ℓ κ} :
    {A : Type ℓ} {B : Type κ} (p : B → Bool) (f : A → B) (xs : List A)
    → any p (map f xs) ≡ any (λ x. p (f x)) xs
unfolding any
any-map p f [] = refl
any-map p f (x ∷ xs) = ap (λ b. p (f x) || b) (any-map p f xs)

-- every row of a list
abbrev pub All {ℓ κ} : {A : Type ℓ} → (A → Type κ) → List A → Type κ
All P [] = Unit
All P (x ∷ xs) = P x × All P xs

pub All-mono {ℓ κ ι} :
    {A : Type ℓ} (P : A → Type κ) (Q : A → Type ι)
    → ((x : A) → P x → Q x)
    → (xs : List A) → All P xs
    → All Q xs
All-mono P Q weaker [] all = tt
All-mono P Q weaker (x ∷ xs) (p, all) = (weaker x p, All-mono P Q weaker xs all)

pub All-select {ℓ κ} :
    {A : Type ℓ} (P : A → Type κ) (q : A → Bool) (xs : List A)
    → All P xs
    → All P (select_where q xs)
unfolding select_where
All-select P q [] all = tt
All-select P q (x ∷ xs) (p, all) = elim (Bool-cases (q x)) [
  | inl e ↦ rw e (p, All-select P q xs all)
  | inr e ↦ rw e (All-select P q xs all)
]
