-- ===== src/Manifest/Load.antt =====
-- internal/manifest/load.go: a directory of documents becomes a snapshot, or is refused as a whole.
-- The files come in the order of their sorted paths; reading them, JSON and the hash are parameters.
pub mod Valid
use Prim.Native.String.{◌++◌ as ◌⧺◌}
use idemio.Prelude.{
  String, Bool, true, false, Option, none, some, List, [], ◌∷◌, ◌++◌, map, ◌==◌, Except, ok, err,
  ◌>>=◌, if◌then◌else◌,
}
use idemio.Manifest.{Document, Definition, Operation, Problem, definition, validate, is_nil}

pub data FileProblem : Type 0 where
  unparsed : String → String → FileProblem
  refused : String → Problem → FileProblem
  declared_twice : String → String → FileProblem

pub data LoadFailure : Type 0 where
  no_manifests unchanged : LoadFailure
  unread : String → LoadFailure
  invalid : List FileProblem → LoadFailure

-- a file: the stem of its name, and what reading it gives
pub record File : Type 0 where
  pub stem : String
  pub raw : Except LoadFailure String

-- `parse` is json.Unmarshal; `digest` the first 16 hexadecimal digits of SHA-256
pub record Loader : Type 0 where
  pub parse : String → Except String Document
  pub digest : String → String

-- `by_type` is Go's map, as the list of its entries
pub record Snapshot : Type 0 where
  pub version : String
  pub by_type : List (String × Definition)

unfoldable pub find_type : String → List (String × Definition) → Option Definition
find_type t [] = none
find_type t ((name, d) ∷ rest) = if name == t then some d else find_type t rest

-- Lookup
unfoldable pub lookup : Snapshot → String → Option Definition
lookup s t = find_type t s.by_type

-- what the loop has gathered: the text that is hashed, the problems and the definitions
pub record Gathered : Type 0 where
  pub hashed : String
  pub problems : List FileProblem
  pub by_type : List (String × Definition)

abbrev pub twice : String → String → Option Definition → List FileProblem
twice stem t none = []
twice stem t (some d) = declared_twice stem t ∷ []

abbrev pub with_entry :
    Document → Option Definition → List (String × Definition) → List (String × Definition)
with_entry d none entries = (d.resource_type, definition d) ∷ entries
with_entry d (some first) entries = entries

unfoldable pub gather_parsed : String → Except String Document → Gathered → Gathered
gather_parsed stem (err e) g = record g { problems = g.problems ++ unparsed stem e ∷ [] }
gather_parsed stem (ok d) g = record g {
  problems =
      g.problems
      ++ (map (refused stem) (validate d stem)
          ++ twice stem d.resource_type (find_type d.resource_type g.by_type));
  by_type = with_entry d (find_type d.resource_type g.by_type) g.by_type;
}

-- one pass of the loop of Load, once the file is read
unfoldable pub gather : Loader → String → String → Gathered → Gathered
gather l stem raw g =
    gather_parsed stem (l.parse raw) (record g { hashed = g.hashed ⧺ (stem ⧺ raw) })

unfoldable pub gather_all : Loader → List File → Gathered → Except LoadFailure Gathered
gather_all l [] g = ok g
gather_all l (f ∷ files) g = do raw ← f.raw; gather_all l files (gather l f.stem raw g)

unfoldable pub to_snapshot : Loader → Gathered → Except LoadFailure Snapshot
to_snapshot l g =
    if is_nil g.problems
    then ok (record { version = l.digest g.hashed; by_type = g.by_type })
    else err (invalid g.problems)

-- Load
unfoldable pub load : Loader → List File → Except LoadFailure Snapshot
load l files = if is_nil files then err no_manifests else (do
  g ← gather_all l files (record { hashed = ""; problems = []; by_type = [] })
  to_snapshot l g)

unfoldable pub accept : Snapshot → Snapshot → Except LoadFailure Snapshot
accept current s = if s.version == current.version then err unchanged else ok s

-- reload: the snapshot that is served afterwards, and the reply
unfoldable pub served :
    Snapshot → Except LoadFailure Snapshot → Snapshot × Except LoadFailure Snapshot
served current (err e) = (current, err e)
served current (ok s) = (s, ok s)

unfoldable pub reload : Loader → List File → Snapshot → Snapshot × Except LoadFailure Snapshot
reload l files current = served current (do s ← load l files; accept current s)
