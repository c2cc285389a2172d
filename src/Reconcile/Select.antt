-- ===== src/Reconcile/Select.antt =====
-- Which keys a sweep takes up.
use idemio.Prelude.{
  ℕ, zero, suc, ◌+◌, ◌≤◌, ◌<◌, true, List, [], ◌∷◌, ◌≡◌, arith, leb, ltb→lt, leb→le, select_where,
  take, length, length-take, Bool-cases, inl, inr, and-eq-true,
}
use idemio.Prelude.Rows.{All}
use idemio.Claim.Complete.{is_pending}
use idemio.Reconcile.{Reconciler, is_stale, insert_oldest, by_claimed_at, select_stale}
use idemio.Tables.{KeyRow}

-- Each row was claimed no later than those after it.
abbrev pub IsOldestFirst : List KeyRow → Type 0
IsOldestFirst [] = Unit
IsOldestFirst (r ∷ rows) = All (λ x. r.claimed_at ≤ x.claimed_at) rows × IsOldestFirst rows

-- a row that a sweep at `now` may take up: its write is pending, and its claim is older than the
-- configured age
abbrev pub IsDue : ℕ → ℕ → KeyRow → Type 0
IsDue now stale_after r = (is_pending r.status ≡ true) × (r.claimed_at + stale_after < now)

abbrev pub AllDue : ℕ → ℕ → List KeyRow → Type 0
AllDue now stale_after = All (IsDue now stale_after)

module _ (P : KeyRow → Type 0) where
  insert-All : (r : KeyRow) (rows : List KeyRow) → P r → All P rows → All P (insert_oldest r rows)
  unfolding insert_oldest
  insert-All r [] p all = (p, tt)
  insert-All r (x ∷ xs) p (q, all) = elim (Bool-cases (leb r.claimed_at x.claimed_at)) [
    | inl e ↦ rw e (p, (q, all))
    | inr e ↦ rw e (q, insert-All r xs p all)
  ]

  pub sort-All : (rows : List KeyRow) → All P rows → All P (by_claimed_at rows)
  unfolding by_claimed_at
  sort-All [] all = tt
  sort-All (r ∷ rows) (p, all) = insert-All r (by_claimed_at rows) p (sort-All rows all)

  pub take-All : (n : ℕ) (rows : List KeyRow) → All P rows → All P (take n rows)
  take-All zero rows all = tt
  take-All (suc n) [] all = tt
  take-All (suc n) (r ∷ rows) (p, all) = (p, take-All n rows all)

later-All :
    (a b : ℕ) (rows : List KeyRow)
    → a ≤ b
    → All (λ x. b ≤ x.claimed_at) rows
    → All (λ x. a ≤ x.claimed_at) rows
later-All a b [] h all = tt
later-All a b (x ∷ xs) h (p, all) = (omega (arith, h, p), later-All a b xs h all)

insert_sorted :
    (r : KeyRow) (rows : List KeyRow) → IsOldestFirst rows → IsOldestFirst (insert_oldest r rows)
unfolding insert_oldest
insert_sorted r [] sorted = (tt, tt)
insert_sorted r (x ∷ xs) (least, sorted) = elim (Bool-cases (leb r.claimed_at x.claimed_at)) [
  | inl e ↦
      let before = leb→le r.claimed_at x.claimed_at e in
      rw e ((before, later-All r.claimed_at x.claimed_at xs before least), (least, sorted))
  | inr e ↦ rw e (
    insert-All (λ y. x.claimed_at ≤ y.claimed_at) r xs (ground (arith, e)) least,
    insert_sorted r xs sorted,
  )
]

sort_sorted : (rows : List KeyRow) → IsOldestFirst (by_claimed_at rows)
unfolding by_claimed_at
sort_sorted [] = tt
sort_sorted (r ∷ rows) = insert_sorted r (by_claimed_at rows) (sort_sorted rows)

take_sorted : (n : ℕ) (rows : List KeyRow) → IsOldestFirst rows → IsOldestFirst (take n rows)
take_sorted zero rows sorted = tt
take_sorted (suc n) [] sorted = tt
take_sorted (suc n) (r ∷ rows) (least, sorted) =
    (take-All (λ x. r.claimed_at ≤ x.claimed_at) n rows least, take_sorted n rows sorted)

select_due :
    (now stale_after : ℕ) (rows : List KeyRow)
    → AllDue now stale_after (select_where (is_stale now stale_after) rows)
unfolding select_where
select_due now stale_after [] = tt
select_due now stale_after (r ∷ rows) = elim (Bool-cases (is_stale now stale_after r)) [
  | inl e ↦
      let (waiting, old) = and-eq-true (is_pending r.status) _ e in
      rw e ((waiting, ltb→lt (r.claimed_at + stale_after) now old), select_due now stale_after rows)
  | inr e ↦ rw e (select_due now stale_after rows)
]

-- A sweep takes up at most a batch of keys, the longest claimed first, and each is pending and was
-- claimed longer ago than the configured age.
pub select_stale_lem :
    (r : Reconciler) (now : ℕ) (keys : List KeyRow)
    → (length (select_stale r now keys) ≤ r.batch)
      × IsOldestFirst (select_stale r now keys)
      × AllDue now r.stale_after (select_stale r now keys)
unfolding select_stale
select_stale_lem r now keys =
    let due = select_where (is_stale now r.stale_after) keys in
    (
      omega (arith, length-take r.batch (by_claimed_at due)),
      take_sorted r.batch (by_claimed_at due) (sort_sorted due),
      take-All (IsDue now r.stale_after) r.batch (by_claimed_at due)
          (sort-All (IsDue now r.stale_after) due (select_due now r.stale_after keys)),
    )
