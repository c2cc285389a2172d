-- ===== src/Api/Reads/Sorted.antt =====
-- Rows in the order of a page, and what follows a cursor in them.
use idemio.Prelude.{
  Bool, true, false, ◌&&◌, List, [], ◌∷◌, ◌≡◌, refl, ap, arith, select_where, Bool-cases, inl, inr,
  if◌then◌else◌,
}
use idemio.Api.Reads.{Cursor, key_less, insert_latest, latest_first}
use idemio.Api.Reads.Order.{key_trans, key_total}

-- Every element of the list has the property.
abbrev pub All {ℓ κ} : {A : Type ℓ} → (A → Type κ) → List A → Type κ
All P [] = Unit
All P (x ∷ xs) = P x × All P xs

module _ {ℓ} {A : Type ℓ} where
  pub All-imp {κ ι} :
      (P : A → Type κ) (Q : A → Type ι) (xs : List A) → ((x : A) → P x → Q x) → All P xs → All Q xs
  All-imp P Q [] f all = tt
  All-imp P Q (x ∷ xs) f (p, all) = (f x p, All-imp P Q xs f all)

  pub select-All {κ} :
      (P : A → Type κ) (p : A → Bool) (xs : List A) → All P xs → All P (select_where p xs)
  unfolding select_where
  select-All P p [] all = tt
  select-All P p (x ∷ xs) (h, all) = elim (Bool-cases (p x)) [
    | inl e ↦ rw e (h, select-All P p xs all)
    | inr e ↦ rw e (select-All P p xs all)
  ]

  pub select_and :
      (p q : A → Bool) (xs : List A)
      → select_where (λ x. p x && q x) xs ≡ select_where q (select_where p xs)
  unfolding select_where
  select_and p q [] = refl
  select_and p q (x ∷ xs) = ground (arith, select_and p q xs)

  pub select_none :
      (p : A → Bool) (xs : List A) → All (λ x. p x ≡ false) xs → select_where p xs ≡ []
  unfolding select_where
  select_none p [] all = refl
  select_none p (x ∷ xs) (e, all) = rw e (select_none p xs all)

  pub select_every :
      (p : A → Bool) (xs : List A) → All (λ x. p x ≡ true) xs → select_where p xs ≡ xs
  unfolding select_where
  select_every p [] all = refl
  select_every p (x ∷ xs) (e, all) = rw e (ap (λ ys. x ∷ ys) (select_every p xs all))

  -- A condition that another implies.
  pub select_weaker :
      (p q : A → Bool) (xs : List A)
      → ((x : A) → p x ≡ true → q x ≡ true)
      → select_where p (select_where q xs) ≡ select_where p xs
  unfolding select_where
  select_weaker p q [] imp = refl
  select_weaker p q (x ∷ xs) imp = ground (arith, imp x, select_weaker p q xs imp)

module _ {ℓ} {A : Type ℓ} (key : A → Cursor) where
  -- strictly descending keys
  abbrev pub IsDescending : List A → Type 0
  IsDescending [] = Unit
  IsDescending (r ∷ rows) = All (λ x. key_less (key x) (key r) ≡ true) rows × IsDescending rows

  -- no two rows with one identifier
  abbrev pub HasUniqueIds : List A → Type 0
  HasUniqueIds [] = Unit
  HasUniqueIds (r ∷ rows) = All (λ x. (key x).id ≡ (key r).id → ⊥) rows × HasUniqueIds rows

  pub select-IsDescending :
      (p : A → Bool) (rows : List A) → IsDescending rows → IsDescending (select_where p rows)
  unfolding select_where
  select-IsDescending p [] d = tt
  select-IsDescending p (r ∷ rows) (above, d) = elim (Bool-cases (p r)) [
    | inl e ↦ rw e (
      select-All (λ x. key_less (key x) (key r) ≡ true) p rows above,
      select-IsDescending p rows d,
    )
    | inr e ↦ rw e (select-IsDescending p rows d)
  ]

  pub select-HasUniqueIds :
      (p : A → Bool) (rows : List A) → HasUniqueIds rows → HasUniqueIds (select_where p rows)
  unfolding select_where
  select-HasUniqueIds p [] d = tt
  select-HasUniqueIds p (r ∷ rows) (apart, d) = elim (Bool-cases (p r)) [
    | inl e ↦
        rw e
          (select-All (λ x. (key x).id ≡ (key r).id → ⊥) p rows apart, select-HasUniqueIds p rows d)
    | inr e ↦ rw e (select-HasUniqueIds p rows d)
  ]

  insert-All {κ} :
      (P : A → Type κ) (r : A) (rows : List A) → P r → All P rows → All P (insert_latest key r rows)
  unfolding insert_latest
  insert-All P r [] p all = (p, tt)
  insert-All P r (x ∷ xs) p (q, all) = elim (Bool-cases (key_less (key x) (key r))) [
    | inl e ↦ rw e (p, (q, all))
    | inr e ↦ rw e (q, insert-All P r xs p all)
  ]

  pub latest-All {κ} : (P : A → Type κ) (rows : List A) → All P rows → All P (latest_first key rows)
  unfolding latest_first
  latest-All P [] all = tt
  latest-All P (r ∷ rows) (p, all) =
      insert-All P r (latest_first key rows) p (latest-All P rows all)

  insert-IsDescending :
      (r : A) (rows : List A)
      → All (λ x. (key x).id ≡ (key r).id → ⊥) rows
      → IsDescending rows
      → IsDescending (insert_latest key r rows)
  unfolding insert_latest
  insert-IsDescending r [] apart d = (tt, tt)
  insert-IsDescending r (x ∷ xs) (ne, apart) (above, d) =
      elim (Bool-cases (key_less (key x) (key r))) [
        | inl e ↦ rw e (
          (
            e,
            All-imp (λ y. key_less (key y) (key x) ≡ true) (λ y. key_less (key y) (key r) ≡ true) xs
                (λ y h. key_trans (key y) (key x) (key r) h e) above,
          ),
          (above, d),
        )
        | inr e ↦ rw e (
          insert-All (λ y. key_less (key y) (key x) ≡ true) r xs (key_total (key x) (key r) ne e)
              above,
          insert-IsDescending r xs apart d,
        )
      ]

  pub latest-IsDescending :
      (rows : List A) → HasUniqueIds rows → IsDescending (latest_first key rows)
  unfolding latest_first
  latest-IsDescending [] u = tt
  latest-IsDescending (r ∷ rows) (apart, u) =
      insert-IsDescending r (latest_first key rows)
        (latest-All (λ x. (key x).id ≡ (key r).id → ⊥) rows apart) (latest-IsDescending rows u)

  insert_first :
      (r : A) (rows : List A)
      → All (λ x. key_less (key x) (key r) ≡ true) rows
      → insert_latest key r rows ≡ r ∷ rows
  unfolding insert_latest
  insert_first r [] below = refl
  insert_first r (x ∷ xs) (e, below) = rw e refl

  -- Ordering a selection is selecting from the order.
  insert_select :
      (p : A → Bool) (r : A) (rows : List A)
      → IsDescending rows
      → select_where p (insert_latest key r rows)
        ≡ (if p r then insert_latest key r (select_where p rows) else select_where p rows)
  unfolding insert_latest select_where
  insert_select p r [] d = refl
  insert_select p r (x ∷ xs) (above, d) = elim (Bool-cases (key_less (key x) (key r))) [
    | inl e ↦
        let below =
          All-imp (λ y. key_less (key y) (key x) ≡ true) (λ y. key_less (key y) (key r) ≡ true) xs
            (λ y h. key_trans (key y) (key x) (key r) h e) above in
        let first =
          insert_first r (select_where p (x ∷ xs))
            (select-All (λ y. key_less (key y) (key r) ≡ true) p (x ∷ xs) (e, below)) in
        rw e (ground (arith, first))
    | inr e ↦ rw e (ground (arith, e, insert_select p r xs d))
  ]

  pub latest_select :
      (p : A → Bool) (rows : List A)
      → HasUniqueIds rows
      → latest_first key (select_where p rows) ≡ select_where p (latest_first key rows)
  unfolding latest_first select_where
  latest_select p [] u = refl
  latest_select p (r ∷ rows) (apart, u) = ground (
    arith,
    insert_select p r (latest_first key rows) (latest-IsDescending rows u),
    latest_select p rows u,
  )

-- What a selection keeps meets its condition.
pub select_holds {ℓ} :
    {A : Type ℓ} (p : A → Bool) (xs : List A) → All (λ x. p x ≡ true) (select_where p xs)
unfolding select_where
select_holds p [] = tt
select_holds p (x ∷ xs) = elim (Bool-cases (p x)) [
  | inl e ↦ rw e (e, select_holds p xs)
  | inr e ↦ rw e (select_holds p xs)
]
