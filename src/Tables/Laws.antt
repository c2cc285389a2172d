-- ===== src/Tables/Laws.antt =====
-- What an UPDATE leaves as it was, for every table.
use mathlib.Core.Option
use idemio.Prelude.{
  ◌≤◌, String, Bool, true, false, ◌&&◌, Option, none, some, List, [], ◌∷◌, ◌≡◌, refl, ap, ◌∙◌,
  arith, ◌==◌, eq_iff, count_where, find_where, update_where, any, if◌then◌else◌, Bool-cases, inl,
  inr, ok,
}
use idemio.Claim.{Status}
use idemio.Tables.{KeyRow, Db, Server, Stmt, Step, exec, is_key}

module _ {ℓ} {A : Type ℓ} (p q : A → Bool) (f : A → A) (keeps : (x : A) → p (f x) ≡ p x) where
  -- The row that a query finds after an update is the row that it found, updated.
  pub find-update :
      (xs : List A)
      → find_where p (update_where q f xs)
        ≡ Option.map (λ x. if q x then f x else x) (find_where p xs)
  unfolding find_where update_where
  find-update [] = refl
  find-update (x ∷ xs) = ground (arith, keeps x, find-update xs)

  pub count-update : (xs : List A) → count_where p (update_where q f xs) ≡ count_where p xs
  unfolding count_where update_where
  count-update [] = refl
  count-update (x ∷ xs) = ground (arith, keeps x, count-update xs)

  -- An update of other rows leaves the row that a query finds.
  pub find-update_other :
      ((x : A) → p x ≡ true → q x ≡ false)
      → (xs : List A) → find_where p (update_where q f xs) ≡ find_where p xs
  unfolding find_where update_where
  find-update_other apart [] = refl
  find-update_other apart (x ∷ xs) = elim (Bool-cases (p x)) [
    | inl e ↦ rw (apart x e, e)
    | inr e ↦ ground (arith, keeps x, e, find-update_other apart xs)
  ]

module _ {ℓ} {A : Type ℓ} (p : A → Bool) where
  pub find_where_sound : (xs : List A) (x : A) → find_where p xs ≡ some x → p x ≡ true
  unfolding find_where
  find_where_sound [] x h = cc
  find_where_sound (y ∷ xs) x h = elim (Bool-cases (p y)) [
    | inl e ↦ ground (arith, e)
    | inr e ↦ find_where_sound xs x (rw e at h)
  ]

  pub find-none_of_any : (xs : List A) → any p xs ≡ false → find_where p xs ≡ none
  unfolding find_where any
  find-none_of_any [] h = refl
  find-none_of_any (x ∷ xs) h = ground (arith, find-none_of_any xs)

  pub find-some_of_any : (xs : List A) → any p xs ≡ true → (x : A) × (find_where p xs ≡ some x)
  unfolding find_where any
  find-some_of_any [] h = cc
  find-some_of_any (x ∷ xs) h = elim (Bool-cases (p x)) [
    | inl e ↦ (x, rw e)
    | inr e ↦ let (y, found) = find-some_of_any xs (rw e at h) in (y, rw e found)
  ]

  pub count-none_of_any : (xs : List A) → any p xs ≡ false → count_where p xs ≡ 0
  unfolding count_where any
  count-none_of_any [] h = refl
  count-none_of_any (x ∷ xs) h = ground (arith, count-none_of_any xs)

-- A statement that succeeds was not failed by the server.
pub exec-eq-ok :
    {A : Type 0} (v : Server) (s : Stmt) (m : Step A) (x : A × Db) → exec v s m ≡ ok x → m ≡ ok x
exec-eq-ok v s m x h = ground arith

-- A row belongs to one key.
pub is_key_unique :
    (a k b l : String) (r : KeyRow)
    → is_key a k r ≡ true
    → is_key b l r ≡ true
    → (a == b && k == l) ≡ true
is_key_unique a k b l r h e = ground (
  arith,
  eq_iff r.agent_id a,
  eq_iff r.agent_id b,
  eq_iff r.idempotency_key k,
  eq_iff r.idempotency_key l,
  eq_iff a b,
  eq_iff k l,
)

-- The row of a key, and its status.
abbrev pub row_of : String → String → Db → Option KeyRow
row_of a k db = find_where (is_key a k) db.keys

abbrev pub status_of : String → String → Db → Option Status
status_of a k db = Option.map (λ (r : KeyRow). r.status) (row_of a k db)

-- The unique constraint on (agent_id, idempotency_key).
abbrev pub IsUnique : Db → Type 0
IsUnique db = (a k : String) → count_where (is_key a k) db.keys ≤ 1

-- Every key but (b, l) has the row that it had, and the unique constraint still holds.
abbrev pub KeepsOthers : String → String → Db → Db → Type 0
KeepsOthers b l db db' =
    ((a k : String) → (b == a && l == k) ≡ false → row_of a k db' ≡ row_of a k db)
    × (IsUnique db → IsUnique db')

pub KeepsOthers-refl : (b l : String) (db db' : Db) → db'.keys ≡ db.keys → KeepsOthers b l db db'
KeepsOthers-refl b l db db' e = (λ a k other. ap (find_where (is_key a k)) e, λ h a k. rw e (h a k))

pub KeepsOthers-trans :
    (b l : String) (db db1 db2 : Db)
    → KeepsOthers b l db db1
    → KeepsOthers b l db1 db2
    → KeepsOthers b l db db2
KeepsOthers-trans b l db db1 db2 h e =
    (λ a k other. e.0 a k other ∙ h.0 a k other, λ u. e.1 (h.1 u))

module _ (b l : String) (q : KeyRow → Bool) (f : KeyRow → KeyRow)
    (keeps : (a k : String) (r : KeyRow) → is_key a k (f r) ≡ is_key a k r) where
  pub update_key_others :
      ((r : KeyRow) → q r ≡ true → is_key b l r ≡ true)
      → (db db' : Db) → db'.keys ≡ update_where q f db.keys
      → KeepsOthers b l db db'
  update_key_others own db db' e = (
    λ a k other.
        ap (find_where (is_key a k)) e
        ∙ find-update_other (is_key a k) q f (keeps a k) (apart a k other) db.keys,
    λ u a k. rw (e, count-update (is_key a k) q f (keeps a k)) (u a k),
  )
    where
      apart :
          (a k : String)
          → (b == a && l == k) ≡ false
          → (r : KeyRow) → is_key a k r ≡ true
          → q r ≡ false
      apart a k other r h = elim (Bool-cases (q r)) [
        | inl e ↦ cc (is_key_unique b l a k r (own r e) h, other)
        | inr e ↦ e
      ]

  pub update_key_own :
      (db db' : Db) (r : KeyRow)
      → db'.keys ≡ update_where q f db.keys
      → row_of b l db ≡ some r
      → q r ≡ true
      → row_of b l db' ≡ some (f r)
  update_key_own db db' r e found hit =
      ap (find_where (is_key b l)) e
      ∙ find-update (is_key b l) q f (keeps b l) db.keys
      ∙ rw (found, hit)
