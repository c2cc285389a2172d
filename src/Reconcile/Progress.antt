-- ===== src/Reconcile/Progress.antt =====
-- A sweep that meets no failure closes every key that it takes up.
use mathlib.Core.Path.{subst}
use idemio.Prelude.{
  ℕ, suc, ◌≤◌, Bool, true, false, ◌&&◌, ◌||◌, Option, none, some, leb, leb→le, List, [], ◌∷◌, ◌≡◌,
  refl, sym, ap, ◌∙◌, arith, String, zero, find_where, ◌==◌, eq_iff, eq_refl, and-eq-true, any,
  select_where, take, length, Bool-cases, inl, inr,
}
use idemio.Prelude.Rows.{All, All-mono, All-select, any-select}
use idemio.Claim.{Status}
use idemio.Claim.Complete.{is_pending}
use idemio.Reconcile.{
  Reconciler, Meets, Stale, State, Summary, resolve, resolve_all, sweep, stale_keys, select_stale,
  is_stale, by_claimed_at, to_candidates, insert_oldest,
}
use idemio.Reconcile.Close.{
  HasRow, IsClosed, Advances, Advances-refl, Advances-trans, IsAlone, resolve-Resolves,
}
use idemio.Reconcile.Select.{sort-All, take-All}
use idemio.Reconcile.Settle.{called_for}
use idemio.Tables.{KeyRow, Db, Fault, is_key}
use idemio.Tables.Laws.{row_of, IsUnique, find-some_of_any}

-- Every candidate of a sweep meets a healthy server alone, and its probe answers.
abbrev pub IsAnswered : (ℕ → Meets) → Type 0
IsAnswered meets =
    (n : ℕ)
    → IsAlone (meets n)
      × ((c : Stale)
          → (status : Status) × (called_for (meets n) c ((meets n).lookup c.resource_type)
              ≡ some status))

abbrev Rows : Db → List Stale → Type 0
Rows db = All (λ c. HasRow c.agent_id c.key db)

abbrev pub AllClosed : Db → List Stale → Type 0
AllClosed db = All (λ c. IsClosed c.agent_id c.key db)

module _ (r : Reconciler) (meets : ℕ → Meets) (answered : IsAnswered meets) where
  resolve_all_closes :
      (n : ℕ) (cs : List Stale) (s : Summary) (w : State)
      → IsUnique w.db
      → Rows w.db cs
      → Advances w.db (resolve_all r meets n cs s w).0.db
        × AllClosed (resolve_all r meets n cs s w).0.db cs
  unfolding resolve_all
  resolve_all_closes n [] s w u rows = (Advances-refl w.db w.db u refl, tt)
  resolve_all_closes n (c ∷ cs) s w u (has, rows) =
      let d = (meets n).lookup c.resource_type in
      let (status, called) = (answered n).1 c in
      let next = resolve r (meets n) c d s w in
      let (step, closed) =
        resolve-Resolves r (meets n) c s w d status (answered n).0 u has called in
      let there =
        All-mono (λ (x : Stale). HasRow x.agent_id x.key w.db)
          (λ (x : Stale). HasRow x.agent_id x.key next.0.db) (λ x h. step.stays x.agent_id x.key h)
          cs rows in
      let (steps, others) = resolve_all_closes (suc n) cs next.1 next.0 step.unique there in
      (
        Advances-trans w.db next.0.db (resolve_all r meets n (c ∷ cs) s w).0.db step steps,
        (steps.stays_closed c.agent_id c.key closed, others),
      )

-- The rows of a table are found by their keys.
own_rows :
    (keys xs : List KeyRow)
    → ((q : KeyRow → Bool) → any q xs ≡ true → any q keys ≡ true)
    → All (λ (k : KeyRow). any (is_key k.agent_id k.idempotency_key) keys ≡ true) xs
unfolding any
own_rows keys [] within = tt
own_rows keys (k ∷ xs) within = (
  within (is_key k.agent_id k.idempotency_key)
      (ground (arith, eq_refl k.agent_id, eq_refl k.idempotency_key)),
  own_rows keys xs (λ q h. within q (ground (arith, h))),
)

candidate_rows :
    (db : Db) (rows : List KeyRow)
    → All (λ (k : KeyRow). any (is_key k.agent_id k.idempotency_key) db.keys ≡ true) rows
    → Rows db (to_candidates rows)
unfolding to_candidates
candidate_rows db [] all = tt
candidate_rows db (k ∷ rows) (here, all) = (
  find-some_of_any (is_key k.agent_id k.idempotency_key) db.keys here,
  candidate_rows db rows all,
)

selected_rows :
    (r : Reconciler) (now : ℕ) (db : Db) → Rows db (to_candidates (select_stale r now db.keys))
unfolding select_stale
selected_rows r now db =
    let due = select_where (is_stale now r.stale_after) db.keys in
    let P = λ (k : KeyRow). any (is_key k.agent_id k.idempotency_key) db.keys ≡ true in
    candidate_rows db (take r.batch (by_claimed_at due)) (
      take-All P r.batch (by_claimed_at due) (
        sort-All P due (
          All-select P (is_stale now r.stale_after) db.keys (own_rows db.keys db.keys (λ q h. h)))))

take_all : (n : ℕ) (xs : List KeyRow) → length xs ≤ n → take n xs ≡ xs
take_all zero [] h = refl
take_all (suc n) [] h = refl
take_all zero (x ∷ xs) h = absurd (omega arith)
take_all (suc n) (x ∷ xs) h = ap (λ l. x ∷ l) (take_all n xs (omega arith))

insert_same :
    (p : KeyRow → Bool) (k : KeyRow) (xs : List KeyRow)
    → (any p (insert_oldest k xs) ≡ (p k || any p xs))
      × (length (insert_oldest k xs) ≡ suc (length xs))
unfolding any insert_oldest
insert_same p k [] = (refl, refl)
insert_same p k (x ∷ xs) =
    let (same, longer) = insert_same p k xs in (ground (arith, same), ground (arith, longer))

sort_same :
    (p : KeyRow → Bool) (xs : List KeyRow)
    → (any p (by_claimed_at xs) ≡ any p xs) × (length (by_claimed_at xs) ≡ length xs)
unfolding any by_claimed_at
sort_same p [] = (refl, refl)
sort_same p (k ∷ xs) =
    let (same, longer) = insert_same p k (by_claimed_at xs) in
    let (rest, length_rest) = sort_same p xs in
    (same ∙ ap (λ b. p k || b) rest, longer ∙ ap suc length_rest)

found_any :
    (p q : KeyRow → Bool) (xs : List KeyRow) (k : KeyRow)
    → find_where p xs ≡ some k
    → q k ≡ true
    → any (λ x. q x && p x) xs ≡ true
unfolding any find_where
found_any p q [] k found h = cc
found_any p q (x ∷ xs) k found h = elim (Bool-cases (p x)) [
  | inl e ↦ ground (arith, e)
  | inr e ↦ ground (arith, e, found_any p q xs k (rw e at found) h)
]

-- a key that is due is a candidate, if a batch holds all that are due
candidate-IsClosed :
    (a k : String) (db : Db) (rows : List KeyRow)
    → any (is_key a k) rows ≡ true
    → AllClosed db (to_candidates rows)
    → IsClosed a k db
unfolding any to_candidates
candidate-IsClosed a k db [] h all = cc
candidate-IsClosed a k db (x ∷ rows) h (closed, all) = elim (Bool-cases (is_key a k x)) [
  | inl e ↦
      let (same_agent, same_key) = and-eq-true (x.agent_id == a) (x.idempotency_key == k) e in
      subst (λ b. IsClosed b k db) ((eq_iff x.agent_id a).0 same_agent)
        (subst (λ l. IsClosed x.agent_id l db) ((eq_iff x.idempotency_key k).0 same_key) closed)
  | inr e ↦ candidate-IsClosed a k db rows (ground (arith, h, e)) all
]

module _ (r : Reconciler) (meets : ℕ → Meets) (now : ℕ) (e : Fault) (w : State) where
  -- the state after a sweep of the keys that are due
  abbrev pub swept : State
  swept = (sweep r meets (stale_keys r now false e w.db) w).0

  abbrev pub due : List KeyRow
  due = select_where (is_stale now r.stale_after) w.db.keys

  -- a row that is due
  abbrev pub is_due : Option KeyRow → Bool
  is_due none = false
  is_due (some row) = is_stale now r.stale_after row

  clear :
      (fits : Bool) (found : Option KeyRow)
      → (fits ≡ true → (row : KeyRow) → found ≡ some row → is_stale now r.stale_after row ≡ false)
      → (fits && is_due found) ≡ false
  clear false found h = refl
  clear true none h = refl
  clear true (some row) h = h refl row refl

  none_due :
      (a k : String) (row : KeyRow) (db' : Db)
      → Advances w.db db'
      → AllClosed db' (to_candidates (select_stale r now w.db.keys))
      → length due ≤ r.batch
      → row_of a k db' ≡ some row
      → is_stale now r.stale_after row ≡ false
  unfolding select_stale
  none_due a k row db' step closed few found = elim (Bool-cases (is_stale now r.stale_after row)) [
    | inr fresh ↦ fresh
    | inl stale ↦
        let waiting = (and-eq-true (is_pending row.status) _ stale).0 in
        let before = step.was_pending a k row found waiting in
        let (same, longer) = sort_same (is_key a k) due in
        let whole = take_all r.batch (by_claimed_at due) (omega (arith, longer, few)) in
        let selected : any (is_key a k) (take r.batch (by_claimed_at due)) ≡ true =
          ap (any (is_key a k)) whole
          ∙ same
          ∙ any-select (is_key a k) (is_stale now r.stale_after) w.db.keys
          ∙ found_any (is_key a k) (is_stale now r.stale_after) w.db.keys row before stale in
        let (after, found_after, over) =
          candidate-IsClosed a k db' (take r.batch (by_claimed_at due)) selected closed in
        let same_row : some row ≡ some after = sym found ∙ found_after in cc
  ]

  -- A sweep in which every transaction is healthy and alone and every probe answers closes each key
  -- that it takes up: the key's row is no longer pending; and if the keys that are due fit in a
  -- batch, no key is due after it.
  pub sweep_closes :
      IsAnswered meets
      → IsUnique w.db
      → AllClosed swept.db (to_candidates (select_stale r now w.db.keys))
        × ((a k : String) → (leb (length due) r.batch && is_due (row_of a k swept.db)) ≡ false)
  unfolding sweep stale_keys
  sweep_closes answered u =
      let cs = to_candidates (select_stale r now w.db.keys) in
      let (steps, closed) =
        resolve_all_closes r meets answered 0 cs
          (record { scanned = length cs; done = 0; failed = 0; indeterminate = 0; unresolved = 0 })
          w u (selected_rows r now w.db) in
      (
        closed,
        λ a k.
            clear (leb (length due) r.batch) (row_of a k swept.db)
              (λ few row found. none_due a k row _ steps closed (leb→le _ _ few) found),
      )
