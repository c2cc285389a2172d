-- ===== src/Canonical/Numbers.antt =====
-- A payload passes if and only if each of its numbers does.
use Prim.Native.Nat.{◌^◌}
use idemio.Prelude.{
  ℕ, ◌-◌, eqb, leb, codes, String, Bool, true, false, not, ◌&&◌, ◌||◌, Option, none, some, List, [],
  ◌∷◌, ◌++◌, ◌≡◌, refl, ap, sym, ◌∙◌, arith, any, any-append, Except, ok, err, ◌>>=◌,
}
use idemio.Canonical.{
  Value, null, bool, text, number, array, object, Elements, end_array, element, Members, end_object,
  member, Library, HashProblem, is_integer_literal, check_double, check_number, walk, walk_elements,
  walk_members,
}

-- the numbers of a value, wherever they stand
unfoldable mutual
  pub numbers : Value → List String
  numbers null = []
  numbers (bool b) = []
  numbers (text s) = []
  numbers (number n) = n ∷ []
  numbers (array xs) = element_numbers xs
  numbers (object fs) = member_numbers fs

  pub element_numbers : Elements → List String
  element_numbers end_array = []
  element_numbers (element x xs) = numbers x ++ element_numbers xs

  pub member_numbers : Members → List String
  member_numbers end_object = []
  member_numbers (member k x fs) = numbers x ++ member_numbers fs

abbrev pub passes : Except HashProblem (Unit {0}) → Bool
passes (ok u) = true
passes (err p) = false

-- the characters of an integer, and of the exponent's sign
abbrev is_digit_or_sign : ℕ → Bool
is_digit_or_sign c = leb b'0' c && leb c b'9' || (eqb c b'-' || eqb c b'+')

-- the characters that JSON writes numbers with
abbrev is_number_char : ℕ → Bool
is_number_char c = is_digit_or_sign c || (eqb c b'.' || (eqb c b'e' || eqb c b'E'))

abbrev pub is_garbled : String → Bool
is_garbled n = any (λ c. not (is_number_char c)) (codes n)

-- A number that is written as an integer has digits and signs only.
abbrev pub is_integer : String → Bool
is_integer n = not (any (λ c. not (is_digit_or_sign c)) (codes n))

digits_only :
    (cs : List ℕ)
    → any (λ c. not (is_number_char c)) cs ≡ false
    → any (λ c. eqb c b'.' || (eqb c b'e' || eqb c b'E')) cs
      ≡ any (λ c. not (is_digit_or_sign c)) cs
unfolding any
digits_only [] h = refl
digits_only (c ∷ cs) h = ground (arith, h, digits_only cs)

integer_lem : (n : String) → is_garbled n ≡ false → is_integer_literal n ≡ is_integer n
unfolding is_integer_literal
integer_lem n h = ap not (digits_only (codes n) h)

module _ {Double : Type 0} (l : Library Double) where
  -- A number that a double holds, and exactly if it is an integer.
  abbrev is_exact : Bool → Option Double → Bool
  is_exact whole none = false
  is_exact whole (some d) = not (l.is_inf d || l.is_nan d || (whole && l.above d (2 ^ 53 - 1)))

  abbrev pub is_unsafe : String → Bool
  is_unsafe n = not (is_exact (is_integer n) (l.double n))

  is_refused : String → Bool
  is_refused n = not (is_exact (is_integer_literal n) (l.double n))

  refused_same :
      (ns : List String) → any is_garbled ns ≡ false → any is_refused ns ≡ any is_unsafe ns
  unfolding any is_refused
  refused_same [] h = refl
  refused_same (n ∷ ns) h =
      rw (integer_lem n (ground (arith, h)))
        (ap (λ b. is_unsafe n || b) (refused_same ns (ground (arith, h))))

  passes-check_double :
      (n : String) (d : Option Double)
      → passes (check_double l n d) ≡ is_exact (is_integer_literal n) d
  unfolding check_double
  passes-check_double n none = refl
  passes-check_double n (some d) = ground arith

  passes_then :
      (a b : Except HashProblem (Unit {0})) (p q : Bool)
      → passes a ≡ not p
      → passes b ≡ not q
      → passes (a >>= (λ u. b)) ≡ not (p || q)
  passes_then (err e) b p q h k = ground (arith, h)
  passes_then (ok u) b p q h k = ground (arith, h, k)

  mutual
    unfolding walk numbers any check_number is_refused

    walk_value : (v : Value) → passes (walk l v) ≡ not (any is_refused (numbers v))
    walk_value null = refl
    walk_value (bool b) = refl
    walk_value (text s) = refl
    walk_value (number n) = ground (arith, passes-check_double n (l.double n))
    walk_value (array xs) = walk_list xs
    walk_value (object fs) = walk_object fs

    walk_list :
        (xs : Elements) → passes (walk_elements l xs) ≡ not (any is_refused (element_numbers xs))
    walk_list end_array = refl
    walk_list (element x xs) =
        passes_then (walk l x) (walk_elements l xs) (any is_refused (numbers x))
          (any is_refused (element_numbers xs)) (walk_value x) (walk_list xs)
        ∙ ap not (sym (any-append is_refused (numbers x) (element_numbers xs)))

    walk_object :
        (fs : Members) → passes (walk_members l fs) ≡ not (any is_refused (member_numbers fs))
    walk_object end_object = refl
    walk_object (member k x fs) =
        passes_then (walk l x) (walk_members l fs) (any is_refused (numbers x))
          (any is_refused (member_numbers fs)) (walk_value x) (walk_object fs)
        ∙ ap not (sym (any-append is_refused (numbers x) (member_numbers fs)))

  -- A value whose numbers are spelled with JSON's characters passes the walk if and only if each
  -- number in it, at any depth, is finite as a double and, when it is written with digits and signs
  -- only, at most 2 ^ 53 - 1 in absolute value.
  pub passes-walk :
      (v : Value)
      → any is_garbled (numbers v) ≡ false
      → passes (walk l v) ≡ not (any is_unsafe (numbers v))
  passes-walk v spelled = walk_value v ∙ ap not (refused_same (numbers v) spelled)
