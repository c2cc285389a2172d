-- ===== src/Canonical/Separation.antt =====
-- Requests with one hash are one request.
use Prim.Native.String.{◌++◌ as ◌⧺◌}
use text.Mathlib.TextLemmas.{append_cancel_left}
use idemio.Prelude.{
  or_fail, or_fail-ok, String, Option, none, some, List, [], ◌∷◌, ◌≡◌, refl, sym, ◌∙◌, ◌==◌, ok,
  >>=-eq-ok, if◌then◌else◌,
}
use idemio.Canonical.{
  HashRequest, Field, string, raw, document_fields, Value, Library, not_json, not_encoded,
  not_canonical, prefix, walk, validate_numbers, or_null, hash,
}

-- what a member of a document says: a text, or the meaning of JSON
pub data Said (Meaning : Type 0) : Type 0 where
  said : String → Said Meaning
  meant : Meaning → Said Meaning

unfoldable pub find_field : String → List (String × Field) → Option Field
find_field key [] = none
find_field key ((k, f) ∷ fs) = if k == key then some f else find_field key fs

abbrev pub Says :
    {Double Meaning : Type 0} → Library Double → (Value → Meaning) → Field → Said Meaning → Type 0
Says l mean (string t) s = s ≡ said t
Says l mean (raw p) s = (v : Value) × (l.decode p ≡ some v) × (s ≡ meant (mean v))

-- What the libraries promise, for a meaning of JSON values: the digest has no collision, each member
-- of a map that was encoded is read back, and JCS keeps what a document says.
pub record Laws {Double Meaning : Type 0} (l : Library Double) (mean : Value → Meaning)
    : Type 0 where
  pub read : String → String → Option (Said Meaning)
  pub digest_inj : (a b : String) → l.digest a ≡ l.digest b → a ≡ b
  pub read-marshal :
      (fs : List (String × Field)) (d key : String) (f : Field) (s : Said Meaning)
      → l.marshal fs ≡ some d
      → find_field key fs ≡ some f
      → Says l mean f s
      → read d key ≡ some s
  pub read-transform : (d c key : String) → l.transform d ≡ some c → read c key ≡ read d key

module _ {Double Meaning : Type 0} (l : Library Double) (mean : Value → Meaning)
    (laws : Laws l mean) where
  -- A canonical document says each member of the map that it encodes.
  abbrev Tells : HashRequest → String → Type 0
  Tells r c =
      (key : String) (f : Field) (s : Said Meaning)
      → find_field key (document_fields l r (or_null l r.payload)) ≡ some f
      → Says l mean f s
      → laws.read c key ≡ some s

  -- What a hash is the hash of.
  hash-eq-ok :
      (r : HashRequest) {h : String}
      → hash l r ≡ ok h
      → (v : Value) × (c : String) × (l.decode (or_null l r.payload) ≡ some v)
        × Tells r c
        × (prefix ⧺ l.digest c ≡ h)
  unfolding hash validate_numbers
  hash-eq-ok r {h} e =
      let payload = or_null l r.payload in
      let fields = document_fields l r payload in
      let (_, valid, k₁) = >>=-eq-ok (validate_numbers l payload) _ e in
      let (v, decoded, _) = >>=-eq-ok (or_fail (l.decode payload) not_json) (walk l) valid in
      let (d, encoded, k₂) = >>=-eq-ok (or_fail (l.marshal fields) not_encoded) _ k₁ in
      let (c, canonical, made) = >>=-eq-ok (or_fail (l.transform d) not_canonical) _ k₂ in
      (
        v,
        c,
        or_fail-ok (l.decode payload) not_json decoded,
        (λ key f s found says.
            laws.read-transform d c key (or_fail-ok (l.transform d) not_canonical canonical)
            ∙ laws.read-marshal fields d key f s (or_fail-ok (l.marshal fields) not_encoded encoded)
                found says),
        cc made,
      )

  said_same :
      (c c' key t t' : String)
      → c ≡ c'
      → laws.read c key ≡ some (said t)
      → laws.read c' key ≡ some (said t')
      → t ≡ t'
  said_same c c' key t t' same here there = cc (same, here, there)

  -- Two requests have one hash only if their agents, operations and resources are the same and their
  -- payloads, null where they are empty, decode to values of one meaning.
  pub hash-separates :
      (r r' : HashRequest) (h : String)
      → hash l r ≡ ok h
      → hash l r' ≡ ok h
      → (r.agent_id ≡ r'.agent_id)
        × (r.operation ≡ r'.operation)
        × (r.resource_id ≡ r'.resource_id)
        × (r.resource_type ≡ r'.resource_type)
        × ((v : Value) × (v' : Value) × (l.decode (or_null l r.payload) ≡ some v)
            × (l.decode (or_null l r'.payload) ≡ some v')
            × (mean v ≡ mean v'))
  unfolding document_fields find_field
  hash-separates r r' h e e' =
      let (v, c, decoded, tells, digested) = hash-eq-ok r e in
      let (v', c', decoded', tells', digested') = hash-eq-ok r' e' in
      let same : c ≡ c' =
        laws.digest_inj c c'
          (append_cancel_left prefix (l.digest c) (l.digest c') (digested ∙ sym digested')) in
      let payload =
        tells "payload" (raw (or_null l r.payload)) (meant (mean v)) refl (v, decoded, refl) in
      let payload' =
        tells' "payload" (raw (or_null l r'.payload)) (meant (mean v')) refl (v', decoded', refl) in
      (
        said_same c c' "agent_id" _ _ same (tells "agent_id" _ _ refl refl)
            (tells' "agent_id" _ _ refl refl),
        said_same c c' "operation" _ _ same (tells "operation" _ _ refl refl)
            (tells' "operation" _ _ refl refl),
        said_same c c' "resource_id" _ _ same (tells "resource_id" _ _ refl refl)
            (tells' "resource_id" _ _ refl refl),
        said_same c c' "resource_type" _ _ same (tells "resource_type" _ _ refl refl)
            (tells' "resource_type" _ _ refl refl),
        (v, v', decoded, decoded', cc (same, payload, payload')),
      )
