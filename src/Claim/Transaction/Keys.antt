-- ===== src/Claim/Transaction/Keys.antt =====
-- What a claim does to the rows of the keys.
use mathlib.Core.Path.{subst}
use idemio.Prelude.{
  and-eq-true, eq_iff, count_where, ◌≤◌, ◌&&◌, String, Bool, true, false, not, Option, none, some,
  ◌∷◌, ◌≡◌, refl, ap, ◌∙◌, ◌⊎◌, inl, inr, arith, ok, >>=-eq-ok, ◌>>=◌, if-cases, Bool-cases,
  eq_refl, any, find_where, update_where, ◌==◌, ℕ,
}
use idemio.Claim.{Request, Record, Result}
use idemio.Claim.Statements.{
  insert_claim, new_key, read_record, to_record, reclaim, reclaimed, is_lapsed, is_failed,
}
use idemio.Claim.Transaction.{claim_key, claim_found}
use idemio.Tables.{KeyRow, Db, Server, is_key, select_key}
use idemio.Tables.Laws.{
  IsUnique, count-none_of_any, row_of, KeepsOthers, update_key_others, update_key_own,
  find-none_of_any, find-some_of_any, find_where_sound, exec-eq-ok,
}

module _ (v : Server) (req : Request) where
  -- The key was free, and now its row is pending: a new row, or a failed one for another attempt.
  abbrev pub TakesOver : Db → Db → Type 0
  TakesOver db db' =
      ((row_of req.agent_id req.key db ≡ none)
        × (row_of req.agent_id req.key db' ≡ some (new_key v req)))
      ⊎ ((r : KeyRow) × (row_of req.agent_id req.key db ≡ some r)
          × (is_failed r.status ≡ true)
          × (row_of req.agent_id req.key db' ≡ some (reclaimed v r)))

  keep_key : (a k : String) (r : KeyRow) → is_key a k (reclaimed v r) ≡ is_key a k r
  unfolding reclaimed
  keep_key a k r = refl

  own_key : (r : KeyRow) → is_lapsed req r ≡ true → is_key req.agent_id req.key r ≡ true
  own_key r h = ground arith

  abbrev Fresh : Db → (Result × Bool) × Db → Type 0
  Fresh db x =
      TakesOver db x.1 × KeepsOthers req.agent_id req.key db x.1 × (x.1.intents ≡ db.intents)

  -- A new row for a key that has none.
  still_unique :
      (db : Db)
      → any (is_key req.agent_id req.key) db.keys ≡ false
      → IsUnique db
      → (a k : String) → count_where (is_key a k) (new_key v req ∷ db.keys) ≤ 1
  unfolding count_where new_key
  still_unique db free u a k = elim (Bool-cases (req.agent_id == a && req.key == k)) [
    | inl e ↦
        let (ea, ek) = and-eq-true _ _ e in
        let none_yet : count_where (is_key a k) db.keys ≡ 0 =
          rw (← (eq_iff req.agent_id a).0 ea, ← (eq_iff req.key k).0 ek)
            (count-none_of_any _ db.keys free) in
        rw (e, none_yet) (omega arith)
    | inr e ↦ rw e (u a k)
  ]

  inserted :
      (db : Db) (x : Bool × Db)
      → insert_claim v req db ≡ ok x
      → x.0 ≡ true
      → ((row_of req.agent_id req.key db ≡ none)
          × (row_of req.agent_id req.key x.1 ≡ some (new_key v req)))
        × KeepsOthers req.agent_id req.key db x.1
        × (x.1.intents ≡ db.intents)
  unfolding insert_claim
  inserted db x h won = elim (Bool-cases (any (is_key req.agent_id req.key) db.keys)) [
    | inl e ↦ absurd (ground (arith, e))
    | inr free ↦
        let keys : x.1.keys ≡ new_key v req ∷ db.keys = ground arith in
        (
          (
            find-none_of_any _ db.keys free,
            ap (find_where (is_key req.agent_id req.key)) keys
                ∙ (unfold find_where new_key in rw (eq_refl req.agent_id, eq_refl req.key)),
          ),
          (
            λ a k other.
                ap (find_where (is_key a k)) keys ∙ (unfold find_where new_key in rw other),
            λ u a k. rw keys (still_unique db free u a k),
          ),
          ground arith,
        )
  ]

  -- A lost insert changed nothing, and the key has a row.
  lost :
      (db : Db) (x : Bool × Db)
      → insert_claim v req db ≡ ok x
      → x.0 ≡ false
      → (x.1 ≡ db) × (any (is_key req.agent_id req.key) db.keys ≡ true)
  unfolding insert_claim
  lost db x h l = ground arith

  read_found :
      (r : KeyRow) (db0 db : Db) (x : (Result × Bool) × Db)
      → db0 ≡ db
      → row_of req.agent_id req.key db ≡ some r
      → (read_record v req.agent_id req.key db0 >>= λ y. claim_found v req y.0 y.1) ≡ ok x
      → claim_found v req (to_record r) db ≡ ok x
  unfolding read_record
  read_found r db0 db x same found h =
      let (y, e, f) = >>=-eq-ok (read_record v req.agent_id req.key db0) _ h in
      let seen = exec-eq-ok v select_key _ y (rw same at e) in
      let read = (rw found at seen) in
      subst (λ (z : Record × Db). claim_found v req z.0 z.1 ≡ ok x) (ground arith) f

  reclaim_effect :
      (r : KeyRow) (db : Db) (y : Option ℕ × Db)
      → row_of req.agent_id req.key db ≡ some r
      → is_failed r.status ≡ true
      → reclaim v req db ≡ ok y
      → (row_of req.agent_id req.key y.1 ≡ some (reclaimed v r))
        × KeepsOthers req.agent_id req.key db y.1
        × (y.1.intents ≡ db.intents)
  unfolding reclaim
  reclaim_effect r db y found failed h =
      let keys : y.1.keys ≡ update_where (is_lapsed req) (reclaimed v) db.keys = ground arith in
      let own = find_where_sound (is_key req.agent_id req.key) db.keys r found in
      (
        update_key_own req.agent_id req.key (is_lapsed req) (reclaimed v) keep_key db y.1 r keys
            found (rw (own, failed)),
        update_key_others req.agent_id req.key (is_lapsed req) (reclaimed v) keep_key own_key db y.1
            keys,
        ground arith,
      )

  claim_found_effect :
      (r : KeyRow) (db : Db) (x : (Result × Bool) × Db)
      → row_of req.agent_id req.key db ≡ some r
      → claim_found v req (to_record r) db ≡ ok x
      → x.0.1 ≡ true
      → Fresh db x
  unfolding claim_found
  claim_found_effect r db x found h fresh =
      elim (if-cases (not (r.request_hash == req.request_hash)) _ _ h) [
        | inl (_, e) ↦ cc
        | inr (_, e) ↦ elim (if-cases (not (is_failed r.status)) _ _ e) [
          | inl (_, e) ↦ cc
          | inr (failed, e) ↦
              let (y, f, g) = >>=-eq-ok (reclaim v req db) _ e in
              let lapsed : is_failed r.status ≡ true = ground arith in
              let (own, others, intents) = reclaim_effect r db y found lapsed f in
              let same : x.1 ≡ y.1 = ground arith in
              rw same (inr (r, found, lapsed, own), others, intents)
        ]
      ]

  -- A fresh claim took its key over, and changed no other key and no intent.
  pub claim_key_effect :
      (db : Db) (x : (Result × Bool) × Db) → claim_key v req db ≡ ok x → x.0.1 ≡ true → Fresh db x
  unfolding claim_key
  claim_key_effect db x h fresh =
      let (won, e, f) = >>=-eq-ok (insert_claim v req db) _ h in
      elim (if-cases won.0 _ _ f) [
        | inl (new, g) ↦
            let (taken, others, intents) = inserted db won e new in
            let same : x.1 ≡ won.1 = ground arith in rw same (inl taken, others, intents)
        | inr (old, g) ↦
            let (same, held) = lost db won e old in
            let (r, found) = find-some_of_any _ db.keys held in
            claim_found_effect r db x found (read_found r won.1 db x same found g) fresh
      ]
