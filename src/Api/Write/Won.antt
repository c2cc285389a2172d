-- ===== src/Api/Write/Won.antt =====
-- Which writes reach the downstream.
use idemio.Prelude.{
  String, true, not, Option, none, some, ◌≡◌, refl, Except, ok, err, ◌==◌, Bool-cases, inl, inr,
}
use idemio.Api.Execute.{State}
use idemio.Api.Identity.{Identity, read_identity, role_agent, to_lower, is_uuid}
use idemio.Api.Serialize.{claim_with_serialization, is_decided, is_serialize}
use idemio.Api.Serialize.Waits.{serialize_decided}
use idemio.Api.Write.{
  WriteRequest, DecodeError, too_large, malformed, HttpRequest, Meets, claim_request, answer_wait,
  by_verdict, after_claim, claim_and_answer, admit, has_missing_field, handle_body, handle_as,
  handle_write, lookup_operation,
}
use idemio.Claim.{Verdict, Result}
use idemio.Downstream.{Outcome}
use idemio.Manifest.{Definition, Operation}
use idemio.Tables.{Fault}

module _ (m : Meets) where
  -- the body decodes, its operation is declared, and the request's own claim was granted
  abbrev pub Won : HttpRequest → State → Type 0
  Won r w =
      (req : WriteRequest) × (d : Definition) × (declared : Operation) × (hash : String)
      × (result : Result) × (r.decoded ≡ ok req)
      × (lookup_operation m.snapshot req.resource_type req.operation ≡ some (d, declared))
      × ((claim_with_serialization (claim_request m (to_lower r.key_header) req hash d declared)
            m.rounds m.last w.db).1
          ≡ ok result)
      × (result.verdict ≡ Verdict.claimed)

  verdict_called :
      (key : String) (req : WriteRequest) (d : Definition) (result : Result) (w : State)
      (v : Verdict) (o : Outcome)
      → not (is_serialize v) ≡ true
      → (by_verdict m key req d result w v).called ≡ some o
      → v ≡ Verdict.claimed
  unfolding by_verdict answer_wait
  verdict_called key req d result w Verdict.mismatch o decided h = cc
  verdict_called key req d result w Verdict.existing o decided h = cc
  verdict_called key req d result w Verdict.rejected o decided h = cc
  verdict_called key req d result w Verdict.lock_timeout o decided h = cc
  verdict_called key req d result w Verdict.serialize_timeout o decided h = cc
  verdict_called key req d result w Verdict.claimed o decided h = refl
  verdict_called key req d result w Verdict.serialize o decided h = cc

  claim_called :
      (key : String) (req : WriteRequest) (d : Definition) (w : State) (o : Outcome)
      (reply : Except Fault Result)
      → is_decided reply ≡ true
      → (after_claim m key req d w reply).called ≡ some o
      → (result : Result) × (reply ≡ ok result) × (result.verdict ≡ Verdict.claimed)
  unfolding after_claim
  claim_called key req d w o (err e) decided h = cc
  claim_called key req d w o (ok result) decided h =
      (result, refl, verdict_called key req d result w result.verdict o decided h)

  hash_called :
      (key : String) (req : WriteRequest) (d : Definition) (declared : Operation) (w : State)
      (o : Outcome) (hashed : Except String String)
      → (claim_and_answer m key req d declared w hashed).called ≡ some o
      → (hash : String) × (result : Result) × ((claim_with_serialization
            (claim_request m key req hash d declared)
            m.rounds
            m.last
            w.db).1
          ≡ ok result)
        × (result.verdict ≡ Verdict.claimed)
  unfolding claim_and_answer
  hash_called key req d declared w o (err e) h = cc
  hash_called key req d declared w o (ok hash) h =
      let q = claim_request m key req hash d declared in
      let out = claim_with_serialization q m.rounds m.last w.db in
      let (result, told, won) =
        claim_called key req d (record w { db = out.0 }) o out.1
          (serialize_decided q m.rounds m.last w.db) h in
      (hash, result, told, won)

  admit_called :
      (r : HttpRequest) (req : WriteRequest) (w : State) (o : Outcome)
      (found : Option (Definition × Operation))
      → r.decoded ≡ ok req
      → lookup_operation m.snapshot req.resource_type req.operation ≡ found
      → (admit m (to_lower r.key_header) req w found).called ≡ some o
      → Won r w
  unfolding admit
  admit_called r req w o none e f h = cc
  admit_called r req w o (some (d, declared)) e f h =
      let (hash, result, told, won) =
        hash_called (to_lower r.key_header) req d declared w o (m.hash req) h in
      (req, d, declared, hash, result, e, f, told, won)

  body_called :
      (r : HttpRequest) (caller : Identity) (w : State) (o : Outcome)
      (body : Except DecodeError WriteRequest)
      → r.decoded ≡ body
      → (handle_body m caller (to_lower r.key_header) w body).called ≡ some o
      → Won r w
  unfolding handle_body
  body_called r caller w o (err too_large) e h = cc
  body_called r caller w o (err (malformed x)) e h = cc
  body_called r caller w o (ok req) e h = elim (Bool-cases (has_missing_field req)) [
    | inl f ↦ cc
    | inr f ↦ elim (Bool-cases (req.agent_id == caller.agent_id)) [
      | inl g ↦
          admit_called r req w o (lookup_operation m.snapshot req.resource_type req.operation) e
            refl cc
      | inr g ↦ cc
    ]
  ]

  as_called :
      (r : HttpRequest) (w : State) (o : Outcome) (caller : Option Identity)
      → (handle_as m r (to_lower r.key_header) w caller).called ≡ some o
      → Won r w
  unfolding handle_as
  as_called r w o none h = cc
  as_called r w o (some caller) h = elim (Bool-cases (caller.role == role_agent)) [
    | inl f ↦ elim (Bool-cases (is_uuid (to_lower r.key_header))) [
      | inl g ↦ body_called r caller w o r.decoded refl cc
      | inr g ↦ cc
    ]
    | inr f ↦ cc
  ]

  -- A write calls the downstream only if its body decodes, the manifest declares its operation, and
  -- the claim of this request on its lower-cased key returned the verdict `claimed`.
  pub called-Won :
      (r : HttpRequest) (w : State) (o : Outcome) → (handle_write m r w).called ≡ some o → Won r w
  unfolding handle_write
  called-Won r w o h = as_called r w o (read_identity r.agent_header r.role_header) h
