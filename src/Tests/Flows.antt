-- ===== src/Tests/Flows.antt =====
-- Requests that are hashed, and intents that are relayed.
use Prim.Native.String.{◌++◌ as ◌⧺◌}
use idemio.Prelude.{
  ℕ, String, true, false, not, Option, none, some, List, [], ◌∷◌, ◌≡◌, refl, ap, sym, ◌∙◌, ltb, any,
  ◌==◌, eq_iff, Bool-cases, inl, inr, ok, if◌then◌else◌,
}
use idemio.Tables.{CommitReply}
use idemio.Canonical.{
  Value, text, number, array, object, end_array, element, end_object, member, HashRequest, Field,
  string, raw, Library, prefix, or_null, document_fields, walk, validate_numbers, hash,
}
use idemio.Canonical.Numbers.{numbers, passes, is_garbled, is_unsafe, passes-walk}
use idemio.Canonical.Separation.{Said, said, meant, Says, find_field, Laws, hash-separates}
use idemio.Relay.{Outbox, RelayServer, run}
use idemio.Relay.Delivery.{IsDelivered, run-IsDelivered}
use idemio.Tests.Reads.{intents}

String-discrete : Discrete String
String-discrete s t = elim (Bool-cases (s == t)) [
  | inl e ↦ yes ((eq_iff s t).0 e)
  | inr e ↦ no (λ p. let same : (s == t) ≡ true = (eq_iff s t).1 p in cc)
]

fields-discrete : Discrete (List (String × Field))
fields-discrete = hlevel String-discrete

abbrev known : List (String × Field)
known =
    ("agent_id", string "a")
    ∷ ("operation", string "pay")
    ∷ ("payload", raw "null")
    ∷ ("resource_id", string "1")
    ∷ ("resource_type", string "order")
    ∷ []

abbrev encoding_of : {fs : List (String × Field)} → Dec (fs ≡ known) → Option String
encoding_of (yes e) = some "document"
encoding_of (no e) = none

-- A library that encodes one map.
abbrev library : Library ℕ
library = record {
  decode = λ s. some (text s);
  double = λ n. some (if n == "9007199254740993" then 9007199254740993 else 1);
  is_inf = λ d. false;
  is_nan = λ d. false;
  above = λ d m. ltb m d;
  marshal = λ fs. encoding_of (fields-discrete fs known);
  transform = λ d. some d;
  digest = λ c. c;
}

abbrev read_field : Option Field → Option (Said Value)
read_field none = none
read_field (some (string t)) = some (said t)
read_field (some (raw p)) = some (meant (text p))

is_known :
    {fs : List (String × Field)} (d : Dec (fs ≡ known)) (body : String)
    → encoding_of d ≡ some body
    → fs ≡ known
is_known (yes e) body h = e
is_known (no e) body h = cc

read-Says : (f : Field) (s : Said Value) → Says library (λ v. v) f s → read_field (some f) ≡ some s
read-Says (string t) s says = ap some (sym says)
read-Says (raw p) s (v, decoded, says) = cc

library-Laws : Laws library (λ v. v)
library-Laws = record {
  read = λ d key. read_field (find_field key known);
  digest_inj = λ a b e. e;
  read-marshal = λ fs d key f s marshalled found says.
      let same = is_known (fields-discrete fs known) d marshalled in
      ap (λ o. read_field o) (ap (find_field key) (sym same) ∙ found) ∙ read-Says f s says;
  read-transform = λ d c key e. refl;
}

abbrev nested : Value
nested = object (
    member "a" (array (element (number "1") (element (number "9007199254740993") end_array)))
      end_object)

spelled : any is_garbled (numbers nested) ≡ false
unfolding any numbers
spelled = refl

passes-walk_example : passes (walk library nested) ≡ not (any (is_unsafe library) (numbers nested))
passes-walk_example = passes-walk library nested spelled

known_encoded : (d : Dec (known ≡ known)) → encoding_of d ≡ some "document"
known_encoded (yes e) = refl
known_encoded (no e) = absurd (e refl)

abbrev absent : HashRequest
absent = record {
  agent_id = "a";
  operation = "pay";
  payload = "";
  resource_id = "1";
  resource_type = "order";
}

abbrev given : HashRequest
given = record absent { payload = "null" }

hashed : hash library absent ≡ ok (prefix ⧺ "document")
unfolding hash validate_numbers walk document_fields
hashed = rw (known_encoded (fields-discrete known known)) refl

hashed_again : hash library given ≡ ok (prefix ⧺ "document")
unfolding hash validate_numbers walk document_fields
hashed_again = rw (known_encoded (fields-discrete known known)) refl

hash-separates_example :
    (absent.agent_id ≡ given.agent_id)
    × (absent.operation ≡ given.operation)
    × (absent.resource_id ≡ given.resource_id)
    × (absent.resource_type ≡ given.resource_type)
    × ((v : Value) × (v' : Value) × (library.decode (or_null library absent.payload) ≡ some v)
        × (library.decode (or_null library given.payload) ≡ some v')
        × (v ≡ v'))
hash-separates_example =
    hash-separates library (λ v. v) library-Laws absent given (prefix ⧺ "document") hashed
      hashed_again

abbrev outbox : Outbox
outbox = record { intents = intents; topic = [] }

abbrev cycle : RelayServer
cycle = record {
  now = 5;
  query_fails = false;
  encode_fails = λ m. false;
  write_fails = false;
  delivered = λ ms. ms;
  mark = CommitReply.lost;
}

run-IsDelivered_example :
    IsDelivered
      (run 1 (cycle ∷ cycle ∷ []) outbox).topic
      (run 1 (cycle ∷ cycle ∷ []) outbox).intents
unfolding any
run-IsDelivered_example = run-IsDelivered 1 (cycle ∷ cycle ∷ []) outbox (refl, (refl, tt))
