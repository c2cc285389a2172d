-- ===== src/Api/Identity.antt =====
-- internal/api/identity.go, and the lower-casing of a key in api.go. Header values are ASCII, so
-- code points are bytes and white space is that of ASCII.
use Prim.Native.Char.{Char, code}
use idemio.Prelude.{
  ℕ, suc, String, Bool, true, ◌&&◌, ◌||◌, Option, none, some, List, [], ◌∷◌, ◌==◌, leb, eqb, codes,
  length, if◌then◌else◌,
}

abbrev pub role_agent : String
role_agent = "agent"

pub record Identity : Type 0 where
  pub agent_id : String
  pub role : String

abbrev is_space : Char → Bool
is_space c = eqb (code c) 32 || (leb 9 (code c) && leb (code c) 13)

unfoldable pub trim_left : String → String
trim_left String.[] = String.[]
trim_left (String.◌∷◌ c s) = let rest = trim_left s in if is_space c then rest else String.◌∷◌ c s

unfoldable pub trim_right : String → String
trim_right String.[] = String.[]
trim_right (String.◌∷◌ c s) =
    let rest = trim_right s in if is_space c && rest == "" then String.[] else String.◌∷◌ c rest

-- strings.TrimSpace
unfoldable pub trim_space : String → String
unfolding trim_left trim_right
trim_space s = trim_right (trim_left s)

-- readIdentity: the values of the two headers
unfoldable pub read_identity : String → String → Option Identity
unfolding trim_space
read_identity agent_header role_header =
    let agent_id = trim_space agent_header in
    let role = trim_space role_header in
    if agent_id == "" || role == ""
    then none
    else some (record { agent_id = agent_id; role = role })

-- the letter of `to` that stands where `from` has this one
unfoldable pub translate : String → String → Char → Char
translate String.[] to c = c
translate (String.◌∷◌ f from) String.[] c = c
translate (String.◌∷◌ f from) (String.◌∷◌ t to) c =
    let rest = translate from to c in if eqb (code c) (code f) then t else rest

abbrev pub upper_case : String
upper_case = "ABCDEFGHIJKLMNOPQRSTUVWXYZ"

abbrev pub lower_case : String
lower_case = "abcdefghijklmnopqrstuvwxyz"

-- strings.ToLower
unfoldable pub to_lower : String → String
unfolding translate
to_lower String.[] = String.[]
to_lower (String.◌∷◌ c s) = String.◌∷◌ (translate upper_case lower_case c) (to_lower s)

unfoldable pub is_hex : ℕ → Bool
is_hex c = (leb 48 c && leb c 57) || ((leb 97 c && leb c 102) || (leb 65 c && leb c 70))

-- the positions of the dashes
unfoldable pub is_dash_at : ℕ → Bool
is_dash_at i = eqb i 8 || (eqb i 13 || (eqb i 18 || eqb i 23))

-- the loop of isUUID, from the position `i`
unfoldable pub is_uuid_from : ℕ → List ℕ → Bool
unfolding is_hex is_dash_at
is_uuid_from i [] = true
is_uuid_from i (c ∷ rest) =
    let others = is_uuid_from (suc i) rest in
    if is_dash_at i then eqb c 45 && others else is_hex c && others

unfoldable pub is_uuid : String → Bool
unfolding is_uuid_from
is_uuid value = eqb (length (codes value)) 36 && is_uuid_from 0 (codes value)
