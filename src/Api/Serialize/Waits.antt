-- ===== src/Api/Serialize/Waits.antt =====
-- The wait for an earlier write ends with an answer of the claim, never with a request to wait.
use idemio.Prelude.{true, List, [], ◌∷◌, ◌≡◌, refl, Except, ok, err, Bool-cases, inl, inr}
use idemio.Claim.{Request, Result}
use idemio.Claim.Transaction.{claim}
use idemio.Tables.{Db, Fault}
use idemio.Api.Serialize.{
  Round, is_decided, expire, blocked_by, wait_for_terminal, claim_with_serialization,
}

expire_decided : (m : Except Fault Result) → is_decided (expire m) ≡ true
expire_decided (err e) = refl
expire_decided (ok r) = refl

-- A claim with serialization never asks its caller to wait: it fails, or its verdict is not
-- `serialize`.
pub serialize_decided :
    (req : Request) (rounds : List Round) (last : Round) (db : Db)
    → is_decided (claim_with_serialization req rounds last db).1 ≡ true
unfolding claim_with_serialization
serialize_decided req [] last db =
    elim (Bool-cases (is_decided (claim last.server req (last.others db)).1)) [
      | inl e ↦ rw e e
      | inr e ↦ rw e (expire_decided (claim last.server req (last.others db)).1)
    ]
serialize_decided req (r ∷ rounds) last db =
    let m = claim r.server req (r.others db) in
    let waited = wait_for_terminal (blocked_by m.1) r.polls m.0 in
    elim (Bool-cases (is_decided m.1)) [
      | inl e ↦ rw e e
      | inr e ↦ rw e (elim (Bool-cases waited.0) [
        | inl f ↦ rw f (serialize_decided req rounds last waited.1)
        | inr f ↦ rw f (expire_decided m.1)
      ])
    ]
