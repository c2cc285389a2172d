-- ===== src/Api/Write/Calls.antt =====
-- When a write calls the downstream, and what its response says of the call.
use idemio.Prelude.{
  String, Bool, true, false, Option, none, some, ◌≡◌, refl, Except, ok, err, ◌==◌, ◌&&◌, Bool-cases,
  inl, inr, any,
}
use idemio.Api.{Response, Body, Value, flag, fields, encoded, write_json}
use idemio.Api.Execute.{State, call_downstream, write_outcome}
use idemio.Api.Identity.{Identity, read_identity, role_agent, to_lower, is_uuid}
use idemio.Api.Write.{
  WriteRequest, DecodeError, too_large, malformed, HttpRequest, Meets, Handled, answer_wait,
  answer_call, by_verdict, after_claim, claim_and_answer, admit, has_missing_field, handle_body,
  handle_as, handle_write, lookup_operation,
}
use idemio.Claim.{Verdict, Result}
use idemio.Downstream.{Disposition, Outcome, execute}
use idemio.Manifest.{Definition, Operation}
use idemio.Tables.{Fault}

abbrev is_true : Value → Bool
is_true (flag b) = b
is_true _ = false

abbrev has_retryable : Body → Bool
has_retryable (fields body) = any (λ (f : String × Value). f.0 == "retryable" && is_true f.1) body
has_retryable (encoded body) = false

-- the response invites the caller to send the write again
abbrev pub is_retryable : Response → Bool
is_retryable r = has_retryable r.body

-- The downstream was not called, or the call says that the write did not take effect.
abbrev pub NothingRan : Option Outcome → Type 0
NothingRan none = Unit
NothingRan (some o) = o.disposition ≡ Disposition.failed

abbrev Honest : Handled → Type 0
Honest h = is_retryable h.response ≡ true → NothingRan h.called

outcome_honest :
    (key : String) (claimed : Result) (outcome : Outcome) (d : Disposition)
    → is_retryable (write_outcome key claimed outcome d) ≡ true
    → d ≡ Disposition.failed
unfolding write_outcome write_json any
outcome_honest key claimed outcome Disposition.done h = cc
outcome_honest key claimed outcome Disposition.failed h = refl
outcome_honest key claimed outcome Disposition.indeterminate h = cc

module _ (m : Meets) where
  verdict-Honest :
      (key : String) (req : WriteRequest) (d : Definition) (result : Result) (w : State)
      (v : Verdict)
      → Honest (by_verdict m key req d result w v)
  unfolding by_verdict answer_wait answer_call call_downstream
  verdict-Honest key req d result w Verdict.mismatch h = tt
  verdict-Honest key req d result w Verdict.existing h = tt
  verdict-Honest key req d result w Verdict.rejected h = tt
  verdict-Honest key req d result w Verdict.lock_timeout h = tt
  verdict-Honest key req d result w Verdict.serialize_timeout h = tt
  verdict-Honest key req d result w Verdict.claimed h =
      outcome_honest key result (execute m.call.wire d.errors) _ h
  verdict-Honest key req d result w Verdict.serialize h =
      outcome_honest key result (execute m.call.wire d.errors) _ h

  after_claim-Honest :
      (key : String) (req : WriteRequest) (d : Definition) (w : State) (reply : Except Fault Result)
      → Honest (after_claim m key req d w reply)
  unfolding after_claim
  after_claim-Honest key req d w (err e) h = tt
  after_claim-Honest key req d w (ok result) h = verdict-Honest key req d result w result.verdict h

  hash-Honest :
      (key : String) (req : WriteRequest) (d : Definition) (declared : Operation) (w : State)
      (hash : Except String String)
      → Honest (claim_and_answer m key req d declared w hash)
  unfolding claim_and_answer
  hash-Honest key req d declared w (err e) h = tt
  hash-Honest key req d declared w (ok hash) h = after_claim-Honest key req d _ _ h

  admit-Honest :
      (key : String) (req : WriteRequest) (w : State) (found : Option (Definition × Operation))
      → Honest (admit m key req w found)
  unfolding admit
  admit-Honest key req w none h = tt
  admit-Honest key req w (some (d, declared)) h = hash-Honest key req d declared w (m.hash req) h

  body-Honest :
      (caller : Identity) (key : String) (w : State) (body : Except DecodeError WriteRequest)
      → Honest (handle_body m caller key w body)
  unfolding handle_body
  body-Honest caller key w (err too_large) = λ h. tt
  body-Honest caller key w (err (malformed e)) = λ h. tt
  body-Honest caller key w (ok req) = elim (Bool-cases (has_missing_field req)) [
    | inl e ↦ rw e (λ h. tt)
    | inr e ↦ rw e (elim (Bool-cases (req.agent_id == caller.agent_id)) [
      | inl f ↦
          rw f
            (admit-Honest key req w (lookup_operation m.snapshot req.resource_type req.operation))
      | inr f ↦ rw f (λ h. tt)
    ])
  ]

  as-Honest :
      (r : HttpRequest) (key : String) (w : State) (caller : Option Identity)
      → Honest (handle_as m r key w caller)
  unfolding handle_as
  as-Honest r key w none = λ h. tt
  as-Honest r key w (some caller) = elim (Bool-cases (caller.role == role_agent)) [
    | inl e ↦ rw e (elim (Bool-cases (is_uuid key)) [
      | inl f ↦ rw f (body-Honest caller key w r.decoded)
      | inr f ↦ rw f (λ h. tt)
    ])
    | inr e ↦ rw e (λ h. tt)
  ]

  -- A response that invites the caller to send the write again is given without a call of the
  -- downstream, or its call had the disposition `failed`.
  pub retryable-NothingRan :
      (r : HttpRequest) (w : State)
      → is_retryable (handle_write m r w).response ≡ true
      → NothingRan (handle_write m r w).called
  unfolding handle_write
  retryable-NothingRan r w h =
      as-Honest r (to_lower r.key_header) w (read_identity r.agent_header r.role_header) h
