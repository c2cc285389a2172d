-- ===== src/Api.antt =====
-- internal/api: the front door. This file has the responses, of api.go; metrics, log lines and the
-- JSON encoding of a body are not modelled. The modules below have the identity of the caller, the
-- wait for an earlier write, the call of the downstream, the replay of a stored outcome and the
-- two handlers of a write.
pub mod Identity
pub mod Serialize
pub mod Execute
pub mod Existing
pub mod Write
pub mod Reads
use idemio.Prelude.{
  ℕ, String, Bool, true, false, List, [], ◌∷◌, ◌++◌, ◌==◌, not, ◌||◌, if◌then◌else◌, eqb,
}

-- a value of a response's body; `raw` is JSON that is already encoded
pub data Value : Type 0 where
  text raw : String → Value
  flag : Bool → Value
  number : ℕ → Value

pub data Body : Type 0 where
  fields : List (String × Value) → Body
  encoded : String → Body

pub record Response : Type 0 where
  pub status : ℕ
  pub body : Body

unfoldable pub write_json : ℕ → List (String × Value) → Response
write_json status body = record { status = status; body = fields body }

unfoldable pub write_raw : ℕ → String → Response
write_raw status body = record { status = status; body = encoded body }

-- a field that an empty text leaves out
abbrev pub unless_empty : String → String → List (String × Value)
unless_empty name value = if value == "" then [] else (name, text value) ∷ []

unfoldable pub write_problem : ℕ → String → String → String → Response
unfolding write_json
write_problem status key reason detail = write_json status (
    ("status", text "rejected")
    ∷ ("reason", text reason)
    ∷ (unless_empty "idempotency_key" key ++ unless_empty "detail" detail))

unfoldable pub write_not_executed : String → String → Response
unfolding write_json
write_not_executed key reason = write_json 503 (
    ("idempotency_key", text key)
    ∷ ("status", text "failed")
    ∷ ("reason", text reason)
    ∷ ("retryable", flag true)
    ∷ ("detail", text "No claim was made and nothing was sent downstream. Retry the same key.")
    ∷ [])

-- the detail of an outcome that nobody knows
abbrev pub do_not_retry : String
do_not_retry = "The write may or may not have been applied. Do not retry this key."
