-- ===== src/Canonical.antt =====
-- internal/canonical: the hash of a request. Go's JSON, its doubles, JCS and SHA-256 are parameters.
pub mod Numbers
pub mod Separation
use Prim.Native.String.{◌++◌ as ◌⧺◌}
use idemio.Prelude.{
  or_fail, ℕ, String, Bool, true, false, not, ◌&&◌, ◌||◌, Option, none, some, List, [], ◌∷◌, ◌++◌,
  ◌==◌, eqb, any, codes, Except, ok, err, ◌>>=◌, if◌then◌else◌,
}

abbrev pub prefix : String
prefix = "sha256-jcs-v1:"

abbrev pub max_safe_integer : ℕ
max_safe_integer = 9007199254740991

-- canonical.Request
pub record HashRequest : Type 0 where
  pub agent_id : String
  pub operation : String
  pub payload : String
  pub resource_id : String
  pub resource_type : String

-- a decoded JSON value, whose numbers are their literals
mutual
  pub data Value : Type 0 where
    object : Members → Value
    array : Elements → Value
    number text : String → Value
    bool : Bool → Value
    null : Value

  pub data Members : Type 0 where
    member : String → Value → Members → Members
    end_object : Members

  pub data Elements : Type 0 where
    element : Value → Elements → Elements
    end_array : Elements

-- a member of the map that is encoded: a text, or JSON that is taken as it stands
pub data Field : Type 0 where
  string raw : String → Field

-- What the libraries do: `marshal` encodes a map with text keys, `double` is Number.Float64, `above` compares an absolute value.
pub record Library (Double : Type 0) : Type 0 where
  pub decode : String → Option Value
  pub double : String → Option Double
  pub is_inf : Double → Bool
  pub is_nan : Double → Bool
  pub above : Double → ℕ → Bool
  pub marshal : List (String × Field) → Option String
  pub transform : String → Option String
  pub digest : String → String

pub data HashProblem : Type 0 where
  not_json not_encoded not_canonical : HashProblem
  not_a_double not_finite unsafe_integer : String → HashProblem

-- isIntegerLiteral
unfoldable pub is_integer_literal : String → Bool
is_integer_literal literal =
    not (any (λ c. eqb c b'.' || (eqb c b'e' || eqb c b'E')) (codes literal))

module _ {Double : Type 0} (l : Library Double) where
  unfoldable pub check_double : String → Option Double → Except HashProblem (Unit {0})
  check_double n none = err (not_a_double n)
  check_double n (some d) =
      if l.is_inf d || l.is_nan d
      then err (not_finite n)
      else if is_integer_literal n && l.above d max_safe_integer
      then err (unsafe_integer n)
      else ok tt

  -- checkNumber
  unfoldable pub check_number : String → Except HashProblem (Unit {0})
  check_number n = check_double n (l.double n)

  -- walk, over the fields of an object in the order of the list
  unfoldable mutual
    pub walk : Value → Except HashProblem (Unit {0})
    walk null = ok tt
    walk (bool b) = ok tt
    walk (text s) = ok tt
    walk (number n) = check_number n
    walk (array xs) = walk_elements xs
    walk (object fs) = walk_members fs

    pub walk_elements : Elements → Except HashProblem (Unit {0})
    walk_elements end_array = ok tt
    walk_elements (element x xs) = walk x >>= (λ u. walk_elements xs)

    pub walk_members : Members → Except HashProblem (Unit {0})
    walk_members end_object = ok tt
    walk_members (member k x fs) = walk x >>= (λ u. walk_members fs)

  unfoldable pub validate_numbers : String → Except HashProblem (Unit {0})
  validate_numbers payload = do value ← or_fail (l.decode payload) not_json; walk value

  -- an empty payload is null
  abbrev pub or_null : String → String
  or_null payload = if payload == "" then "null" else payload

  -- the map of Hash
  unfoldable pub document_fields : HashRequest → String → List (String × Field)
  document_fields r payload =
      ("agent_id", string r.agent_id)
      ∷ ("operation", string r.operation)
      ∷ ("payload", raw payload)
      ∷ ("resource_id", string r.resource_id)
      ∷ ("resource_type", string r.resource_type)
      ∷ []

  -- Hash
  unfoldable pub hash : HashRequest → Except HashProblem String
  hash r = do
    _ ← validate_numbers (or_null r.payload)
    document ← or_fail (l.marshal (document_fields r (or_null r.payload))) not_encoded
    canonical ← or_fail (l.transform document) not_canonical
    ok (prefix ⧺ l.digest canonical)
