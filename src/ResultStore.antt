-- ===== src/ResultStore.antt =====
-- internal/resultstore and internal/correlation: where the result of a write is kept. The object
-- store and SHA-256 are parameters.
pub mod Laws
use Prim.Native.String.{◌++◌ as ◌⧺◌}
use text.Mathlib.Text.{starts_with}
use idemio.Prelude.{
  String, Bool, true, false, not, ◌||◌, Option, none, some, ◌==◌, ℤ, pos, leb_int, Except, ok, err,
  if◌then◌else◌, List, [], ◌∷◌, any, ℕ, ◌+◌, ltb, codes,
}

-- correlation.ID: the first half of the digest, in hexadecimal, of the two names and a NUL between
unfoldable pub correlation_id : (String → String) → String → String → String
correlation_id digest agent key = digest (agent ⧺ "\0" ⧺ key)

abbrev pub prefix : String
prefix = "results/"

-- Ref
unfoldable pub ref_of : (String → String) → String → String → String
ref_of digest agent key = prefix ⧺ (correlation_id digest agent key ⧺ ".json")

-- IsRef
unfoldable pub is_ref : String → Bool
is_ref value = starts_with value prefix

-- `has_objects` is a non-nil `objects`; a nil *Store is `none`
pub record Store : Type 0 where
  pub has_objects : Bool
  pub inline_cap : ℤ

-- New: a nil client leaves the store without objects
unfoldable pub new : Bool → ℤ → Store
new client cap = record { has_objects = client; inline_cap = cap }

-- What the bucket holds, and whether its next calls succeed.
pub record Bucket : Type 0 where
  pub held : String → Option String
  pub puts : Bool
  pub gets : Bool

pub record Placement : Type 0 where
  pub inline : String
  pub ref : String
  pub offloaded : Bool
  pub fell_back : Bool

abbrev pub keep_inline : String → Bool → Placement
keep_inline result fell = record { inline = result; ref = ""; offloaded = false; fell_back = fell }

put : Bucket → String → String → Bucket
put b name body = record b { held = λ n. if n == name then some body else b.held n }

-- Place past its first test
offload : Bucket → String → String → Placement × Bucket
offload b ref result =
    if b.puts
    then (record { inline = ""; ref = ref; offloaded = true; fell_back = false }, put b ref result)
    else (keep_inline result true, b)

-- the bytes of a code point in UTF-8
abbrev utf8_size : ℕ → ℕ
utf8_size c = if ltb c 128 then 1 else if ltb c 2048 then 2 else if ltb c 65536 then 3 else 4

-- Go's len of a text
unfoldable pub byte_length : List ℕ → ℕ
byte_length [] = 0
byte_length (c ∷ cs) = utf8_size c + byte_length cs

place_in : (String → String) → Store → Bucket → String → String → String → Placement × Bucket
place_in digest s b agent key result =
    if result == ""
      || (not s.has_objects || leb_int (pos (byte_length (codes result))) s.inline_cap)
    then (keep_inline result false, b)
    else offload b (ref_of digest agent key) result

-- Place: the placement, and the bucket after it
unfoldable pub place :
    (String → String) → Option Store → Bucket → String → String → String → Placement × Bucket
unfolding place_in offload put ref_of
place digest none b agent key result = (keep_inline result false, b)
place digest (some s) b agent key result = place_in digest s b agent key result

pub data Missing : Type 0 where
  no_objects not_held get_failed : Missing

fetch : Bucket → String → Except Missing String
fetch b ref =
    if b.gets
    then (elim (b.held ref) [ some body ↦ ok body | none ↦ err not_held ])
    else err get_failed

fetch_with : Option Store → Bucket → String → Except Missing String
fetch_with none b ref = err no_objects
fetch_with (some s) b ref = if s.has_objects then fetch b ref else err no_objects

-- Resolve
unfoldable pub resolve : Option Store → Bucket → String → String → Except Missing String
unfolding fetch fetch_with
resolve s b inline ref = if ref == "" then ok inline else fetch_with s b ref

-- a bucket without the objects of some names; `fails` in `delete` is the failure of the client's call,
-- which `true` reports
remove : Bucket → List String → Bucket
unfolding any
remove b refs = record b { held = λ n. if any (λ r. r == n) refs then none else b.held n }

-- Delete
unfoldable pub delete : Bool → Option Store → Bucket → List String → Bucket × Bool
unfolding remove
delete fails none b refs = (b, false)
delete fails (some s) b [] = (b, false)
delete fails (some s) b (r ∷ refs) =
    if not s.has_objects
    then (b, false)
    else if fails
    then (b, true)
    else (remove b (r ∷ refs), false)
