-- ===== src/Manifest.antt =====
-- internal/manifest/manifest.go: what a manifest declares of a resource type, and the checks that
-- a document passes before it is served. A message of `validate` is a constructor of `Problem`.

pub mod Validate
pub mod Window
pub mod Load
use idemio.Prelude.{
  ℕ, String, Bool, true, false, not, ◌&&◌, ◌||◌, List, [], ◌∷◌, ◌++◌, ◌==◌, ℤ, pos, leb_int,
  wrap_64, scale, any, codes, has_prefix, ends_with, contains, if◌then◌else◌,
}

pub record StatusRange : Type 0 where
  pub from : ℤ
  pub to : ℤ

unfoldable pub in_range : StatusRange → ℤ → Bool
in_range r status = leb_int r.from status && leb_int status r.to

pub record ErrorClassification : Type 0 where
  pub definitive : List StatusRange
  pub not_executed : List StatusRange

abbrev pub is_nil {ℓ} : {A : Type ℓ} → List A → Bool
is_nil [] = true
is_nil (x ∷ xs) = false

unfoldable pub is_declared : ErrorClassification → Bool
is_declared c = not (is_nil c.definitive) || not (is_nil c.not_executed)

unfoldable pub is_definitive : ErrorClassification → ℤ → Bool
unfolding in_range any
is_definitive c status = any (λ r. in_range r status) c.definitive

unfoldable pub is_not_executed : ErrorClassification → ℤ → Bool
unfolding in_range any
is_not_executed c status = any (λ r. in_range r status) c.not_executed

abbrev pub class_create : String
class_create = "create"

abbrev pub class_replace : String
class_replace = "replace"

abbrev pub class_mutate : String
class_mutate = "mutate"

abbrev pub class_append : String
class_append = "append"

abbrev pub class_delete : String
class_delete = "delete"

abbrev pub classes : List String
classes = class_create ∷ class_replace ∷ class_mutate ∷ class_append ∷ class_delete ∷ []

pub record Operation : Type 0 where
  pub class : String
  pub scope : List String

-- `operations` is Go's map, as the list of its entries
pub record Document : Type 0 where
  pub resource_type : String
  pub conflict_window_ms : ℤ
  pub enforce : Bool
  pub probe_path : String
  pub operations : List (String × Operation)
  pub errors : ErrorClassification

pub record Definition : Type 0 where
  pub type : String
  pub conflict_window : ℤ
  pub enforce : Bool
  pub probe_path : String
  pub operations : List (String × Operation)
  pub errors : ErrorClassification

-- time.Duration(ms) * time.Millisecond, an int64
abbrev pub milliseconds : ℤ → ℤ
milliseconds ms = wrap_64 (scale ms 1000000)

unfoldable pub definition : Document → Definition
definition d = record {
  type = d.resource_type;
  conflict_window = milliseconds d.conflict_window_ms;
  enforce = d.enforce;
  probe_path = d.probe_path;
  operations = d.operations;
  errors = d.errors;
}

pub data Problem : Type 0 where
  type_empty window_not_positive probe_not_path no_operations no_classification : Problem
  type_is_not_stem : String → Problem
  not_a_range : StatusRange → Problem
  ranges_overlap : StatusRange → StatusRange → Problem
  unknown_class scope_without_mutate : String → Problem
  not_a_field_path : String → String → Problem

-- a problem when the test passes
abbrev pub when : Bool → Problem → List Problem
when b p = if b then p ∷ [] else []

type_problems : Document → String → List Problem
type_problems d stem =
    if d.resource_type == ""
    then type_empty ∷ []
    else when (not (d.resource_type == stem)) (type_is_not_stem d.resource_type)

is_bad_range : StatusRange → Bool
is_bad_range r =
    not (leb_int (pos 100) r.from) || not (leb_int r.to (pos 599)) || not (leb_int r.from r.to)

range_problems : List StatusRange → List Problem
unfolding is_bad_range
range_problems [] = []
range_problems (r ∷ rs) = when (is_bad_range r) (not_a_range r) ++ range_problems rs

overlaps_range : StatusRange → StatusRange → Bool
overlaps_range d n = leb_int d.from n.to && leb_int n.from d.to

overlaps_with : StatusRange → List StatusRange → List Problem
unfolding overlaps_range
overlaps_with d [] = []
overlaps_with d (n ∷ ns) = when (overlaps_range d n) (ranges_overlap d n) ++ overlaps_with d ns

overlap_problems : List StatusRange → List StatusRange → List Problem
unfolding overlaps_with
overlap_problems [] ns = []
overlap_problems (d ∷ ds) ns = overlaps_with d ns ++ overlap_problems ds ns

-- `path == ""`, HasPrefix ".", HasSuffix ".", Contains ".."
is_bad_path : List ℕ → Bool
unfolding has_prefix ends_with contains
is_bad_path p =
    is_nil p || has_prefix p (b'.' ∷ []) || ends_with p b'.' || contains p (b'.' ∷ b'.' ∷ [])

path_problems : String → List String → List Problem
unfolding is_bad_path
path_problems name [] = []
path_problems name (p ∷ ps) =
    when (is_bad_path (codes p)) (not_a_field_path name p) ++ path_problems name ps

operation_problems : List (String × Operation) → List Problem
unfolding path_problems any
operation_problems [] = []
operation_problems ((name, o) ∷ os) =
    when (not (any (λ c. c == o.class) classes)) (unknown_class name)
    ++ (when (not (is_nil o.scope) && not (o.class == class_mutate)) (scope_without_mutate name)
        ++ (path_problems name o.scope ++ operation_problems os))

-- `len(d.Operations) == 0`, the probe path and the window
header_problems : Document → List Problem
unfolding has_prefix is_declared
header_problems d =
    when (leb_int d.conflict_window_ms (pos 0)) window_not_positive
    ++ (when (not (has_prefix (codes d.probe_path) (b'/' ∷ []))) probe_not_path
        ++ (when (is_nil d.operations) no_operations
            ++ when (not (is_declared d.errors)) no_classification))

unfoldable pub validate : Document → String → List Problem
unfolding type_problems header_problems range_problems overlap_problems operation_problems
validate d stem =
    type_problems d stem
    ++ (header_problems d
        ++ (range_problems (d.errors.definitive ++ d.errors.not_executed)
            ++ (overlap_problems d.errors.definitive d.errors.not_executed
                ++ operation_problems d.operations)))
