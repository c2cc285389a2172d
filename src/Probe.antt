-- ===== src/Probe.antt =====
-- internal/probe/probe.go: the question whether a write took effect, which only the downstream can
-- answer. HTTP, the URL encoding and JSON are the parameter `Network`.
use Prim.Native.String.{◌++◌ as ◌⧺◌}
use idemio.Prelude.{
  String, Bool, List, [], ◌∷◌, ℤ, pos, leb_int, ◌&&◌, Except, ok, err, ◌>>=◌, if◌then◌else◌,
}
use idemio.ResultStore.{correlation_id}

pub record Verdict : Type 0 where
  pub executions : ℤ
  pub result : String

pub data Failure : Type 0 where
  unbuilt unanswered undecoded : Failure
  refused : ℤ → Failure

-- `answer` is a GET of a URL, with the status of the response or the error of the call; `decoded`
-- is the JSON decoding of a body, `count` and `executions`
pub record Network : Type 0 where
  pub base_url : String
  pub encode : String → String → String
  pub digest : String → String
  pub answer : String → Except Failure (ℤ × String)
  pub decoded : String → Except Failure (ℤ × List String)

abbrev pub last_or_empty : List String → String
last_or_empty [] = ""
last_or_empty (x ∷ []) = x
last_or_empty (x ∷ y ∷ rest) = last_or_empty (y ∷ rest)

abbrev pub equal_int : ℤ → ℤ → Bool
equal_int a b = leb_int a b && leb_int b a

unfoldable pub target : Network → String → String → String → String
target n path agent key =
    n.base_url ⧺ path ⧺ "?" ⧺ n.encode "correlation_id" (correlation_id n.digest agent key)

unfoldable pub read_verdict : Network → ℤ → String → Except Failure Verdict
read_verdict n status body =
    if equal_int status (pos 200)
    then (do
      (count, executions) ← n.decoded body
      ok (record { executions = count; result = last_or_empty executions }))
    else err (refused status)

-- Executions
unfoldable pub executions : Network → String → String → String → Except Failure Verdict
executions n path agent key = do
  (status, body) ← n.answer (target n path agent key)
  read_verdict n status body

pub data Outcome : Type 0 where
  unknown executed not_executed : Outcome

unfoldable pub outcome_of : Verdict → Outcome × String
outcome_of v =
    if equal_int v.executions (pos 0)
    then (Outcome.not_executed, "")
    else (Outcome.executed, v.result)

-- Probe
unfoldable pub probe : Network → String → String → String → Except Failure (Outcome × String)
probe n path agent key = do verdict ← executions n path agent key; ok (outcome_of verdict)
