-- ===== src/Maintenance/Expiry.antt =====
-- internal/maintenance/retention.go, ExpireKeys: old keys are deleted in batches.
pub mod Laws
use idemio.Prelude.{
  ℕ, zero, suc, ◌+◌, ◌-◌, ◌<◌, String, Bool, true, false, not, ◌&&◌, Option, none, some, List, [],
  ◌∷◌, ◌++◌, ◌==◌, ltb, length, ℤ, pos, ◌+ℤ◌, ltb_int, if◌then◌else◌,
}
use idemio.Tables.{KeyRow}

abbrev pub batch_size : ℕ
batch_size = 1000

-- `created_at < now() - make_interval(secs => $1)`
abbrev pub is_expired : ℤ → ℕ → KeyRow → Bool
is_expired hot now r = ltb_int (pos r.created_at +ℤ hot) (pos now)

-- `DELETE … RETURNING`, of at most n rows that meet a condition: the rows deleted and those left
unfoldable pub delete_some {ℓ} : {A : Type ℓ} → ℕ → (A → Bool) → List A → List A × List A
delete_some zero p xs = ([], xs)
delete_some (suc n) p [] = ([], [])
delete_some (suc n) p (x ∷ xs) =
    let taken = delete_some n p xs in
    let passed = delete_some (suc n) p xs in
    if p x then (x ∷ taken.0, taken.1) else (passed.0, x ∷ passed.1)

-- the references that the deleted rows held
unfoldable pub refs_of : List KeyRow → List String
refs_of [] = []
refs_of (r ∷ rows) = elim r.result_ref [
  | none ↦ refs_of rows
  | some ref ↦ if ref == "" then refs_of rows else ref ∷ refs_of rows
]

pub data ExpireFault : Type 0 where
  query_failed objects_kept cancelled : ExpireFault

-- what one turn of the loop meets, which starts before the deadline
pub record Turn : Type 0 where
  pub now : ℕ
  pub query_fails : Bool
  pub delete_fails : Bool
  pub is_cancelled : Bool

-- the rows of the keys, and the references of results that were deleted
pub record Expiry : Type 0 where
  pub keys : List KeyRow
  pub deleted_refs : List String

abbrev pub is_empty {ℓ} : {A : Type ℓ} → List A → Bool
is_empty [] = true
is_empty (x ∷ xs) = false

-- expireBatch: the state, the number of rows that were deleted, and what failed; `has_results`
-- says that there is an object store of results
unfoldable pub expire_batch : ℤ → Bool → Turn → Expiry → Expiry × ℕ × Option ExpireFault
expire_batch hot has_results turn s =
    let batch = delete_some batch_size (is_expired hot turn.now) s.keys in
    let refs = refs_of batch.0 in
    if turn.query_fails
    then (s, 0, some query_failed)
    else if has_results && not (is_empty refs)
    then (if turn.delete_fails
        then (record s { keys = batch.1 }, length batch.0, some objects_kept)
        else (
          record { keys = batch.1; deleted_refs = s.deleted_refs ++ refs },
          length batch.0,
          none,
        ))
    else (record s { keys = batch.1 }, length batch.0, none)

-- what follows a batch: the end of the loop, or its `rest`
abbrev pub after_batch :
    Turn
    → Expiry
    → ℕ
    → Option ExpireFault
    → ℕ
    → Expiry × ℕ × Option ExpireFault
    → Expiry × ℕ × Option ExpireFault
after_batch turn s n (some fault) deleted rest = (s, deleted, some fault)
after_batch turn s n none deleted rest =
    if ltb n batch_size
    then (s, deleted + n, none)
    else if turn.is_cancelled
    then (s, deleted + n, some cancelled)
    else rest

-- ExpireKeys over the turns that start before the deadline: the state, the number that is
-- reported, and what failed
unfoldable pub expire_keys : ℤ → Bool → List Turn → ℕ → Expiry → Expiry × ℕ × Option ExpireFault
expire_keys hot has_results [] deleted s = (s, deleted, none)
expire_keys hot has_results (turn ∷ turns) deleted s =
    let batch = expire_batch hot has_results turn s in
    let rest = expire_keys hot has_results turns (deleted + batch.1) batch.0 in
    after_batch turn batch.0 batch.1 batch.2 deleted rest
