-- ===== src/Downstream.antt =====
-- internal/downstream/downstream.go: the call that a claim permits, and what its reply says of the
-- write. HTTP, JSON and the text of errors are the parameter `Wire`.
pub mod Taxonomy
use Prim.Native.String.{◌++◌ as ◌⧺◌}
use idemio.Prelude.{String, Bool, Option, none, some, ℤ, if◌then◌else◌}
use idemio.Manifest.{ErrorClassification, is_definitive, is_not_executed}

pub data Disposition : Type 0 where
  indeterminate done failed : Disposition

pub record Outcome : Type 0 where
  pub disposition : Disposition
  pub result : String
  pub detail : String

-- What http.Client.Do and io.ReadAll come back with: the dialer's own error, any other transport
-- error, a body that could not be read, or a status and a body.
pub data Reply : Type 0 where
  not_dialed transport_error unread : String → Reply
  answered : ℤ → String → Reply

-- `encode_error` and `build_error` are those of json.Marshal and http.NewRequestWithContext
pub record Wire : Type 0 where
  pub encode_error : Option String
  pub build_error : Option String
  pub reply : Reply
  pub is_json : String → Bool
  pub raw_json : String → String
  pub decimal : ℤ → String

unfoldable pub as_json : Wire → String → String
as_json w payload = if w.is_json payload then payload else w.raw_json payload

unfoldable pub classify_response : Wire → ErrorClassification → ℤ → String → Outcome
unfolding as_json
classify_response w c status payload =
    if is_definitive c status
    then record { disposition = Disposition.done; result = as_json w payload; detail = "" }
    else if is_not_executed c status
    then record {
      disposition = Disposition.failed;
      result = as_json w payload;
      detail = "downstream_declined_status_" ⧺ w.decimal status;
    }
    else record {
      disposition = Disposition.indeterminate;
      result = as_json w payload;
      detail = "downstream_status_" ⧺ w.decimal status;
    }

-- `Outcome{Detail: d}` and `Outcome{Disposition: Failed, Detail: d}`
abbrev pub unknown : String → Outcome
unknown d = record { disposition = Disposition.indeterminate; result = ""; detail = d }

abbrev pub not_sent : String → Outcome
not_sent d = record { disposition = Disposition.failed; result = ""; detail = d }

-- Execute from `c.http.Do` on, with classifyTransportError
unfoldable pub receive : Wire → ErrorClassification → Reply → Outcome
unfolding classify_response
receive w c (not_dialed e) = not_sent ("downstream_unreachable: " ⧺ e)
receive w c (transport_error e) = unknown ("downstream_timeout_after_send: " ⧺ e)
receive w c (unread e) = unknown ("read response after send: " ⧺ e)
receive w c (answered status payload) = classify_response w c status payload

build : Wire → ErrorClassification → Option String → Outcome
unfolding receive
build w c (some e) = not_sent ("build request: " ⧺ e)
build w c none = receive w c w.reply

encode : Wire → ErrorClassification → Option String → Outcome
unfolding build
encode w c (some e) = not_sent ("encode request: " ⧺ e)
encode w c none = build w c w.build_error

-- Execute: the classification is the request's; its other fields only fill the body
unfoldable pub execute : Wire → ErrorClassification → Outcome
unfolding encode
execute w c = encode w c w.encode_error
