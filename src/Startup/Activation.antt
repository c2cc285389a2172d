-- ===== src/Startup/Activation.antt =====
-- internal/manifest/activation.go and Watch of load.go: which version a process served, and when.
use Prim.Native.Nat.{Ordering}
use Prim.Native.String.{compare, ◌++◌ as ◌⧺◌}
use idemio.Prelude.{
  ℕ, suc, String, Bool, true, false, ◌&&◌, Option, none, some, List, [], ◌∷◌, map, ◌==◌, any,
  Except, ok, err, if◌then◌else◌,
}
use idemio.Manifest.{Definition}
use idemio.Manifest.Load.{Snapshot, File, Loader, LoadFailure, unchanged, reload}

abbrev leb_text : String → String → Bool
leb_text a b = elim (compare a b) [ Ordering.gt ↦ false | _ ↦ true ]

unfoldable pub insert_text : String → List String → List String
insert_text a [] = a ∷ []
insert_text a (b ∷ rest) =
    let later = insert_text a rest in if leb_text a b then a ∷ b ∷ rest else b ∷ later

-- Snapshot.Types
unfoldable pub types : Snapshot → List String
types s = sorted (map (λ (e : String × Definition). e.0) s.by_type)
  where
    sorted : List String → List String
    sorted [] = []
    sorted (a ∷ rest) = insert_text a (sorted rest)

-- a row of manifest_activations
pub record Activation : Type 0 where
  pub manifest_version : String
  pub principal : String
  pub resource_types : List String

-- Principal: of os.Hostname and the process identifier
unfoldable pub principal : Option String → String → String
principal none pid = "unknown" ⧺ ("/" ⧺ pid)
principal (some host) pid = host ⧺ ("/" ⧺ pid)

abbrev pub is_activation : String → String → Activation → Bool
is_activation who version a = a.principal == who && a.manifest_version == version

-- recordActivation: ON CONFLICT DO NOTHING
unfoldable pub insert_activation : String → Snapshot → List Activation → List Activation
insert_activation who s rows =
    if any (is_activation who s.version) rows
    then rows
    else record { manifest_version = s.version; principal = who; resource_types = types s } ∷ rows

-- RecordActivation, whose failure is only logged
unfoldable pub record_activation : Bool → String → Snapshot → List Activation → List Activation
record_activation fails who s rows = if fails then rows else insert_activation who s rows

-- what Watch changes: the snapshot in force, the recorded activations, and the failures counted
pub record Watched : Type 0 where
  pub current : Snapshot
  pub activations : List Activation
  pub failures : ℕ

-- a tick: the files that are there, and whether the record of an activation fails
pub record Tick : Type 0 where
  pub files : List File
  pub record_fails : Bool

abbrev pub is_unchanged : LoadFailure → Bool
is_unchanged unchanged = true
is_unchanged _ = false

abbrev pub after_reload : String → Bool → Watched → Snapshot × Except LoadFailure Snapshot → Watched
after_reload who fails w (current, ok s) = record w {
  current = current;
  activations = record_activation fails who s w.activations;
}
after_reload who fails w (current, err e) = record w {
  current = current;
  failures = if is_unchanged e then w.failures else suc w.failures;
}

-- one pass of Watch, with the activator of cmd/idemio
unfoldable pub tick : Loader → String → Tick → Watched → Watched
tick l who t w = after_reload who t.record_fails w (reload l t.files w.current)

-- Watch
unfoldable pub watch : Loader → String → List Tick → Watched → Watched
watch l who [] w = w
watch l who (t ∷ ts) w = watch l who ts (tick l who t w)
