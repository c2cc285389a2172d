-- ===== src/Latency.antt =====
-- internal/latency/latency.go: the advice of when to ask again. Durations are nanoseconds, and the
-- mutex makes each operation one step. The index is a float64 product in the source; for at most 256
-- samples it rounds to this quotient.
pub mod Bounds
use idemio.Prelude.{
  ℕ, zero, suc, ◌+◌, ◌-◌, ◌*◌, ◌/◌, ◌%◌, String, Bool, Option, none, some, List, [], ◌∷◌, ◌++◌,
  ◌==◌, ltb, leb, eqb, length, if◌then◌else◌,
}

abbrev pub window : ℕ
window = 256

abbrev pub floor : ℕ
floor = 50000000

abbrev pub ceiling : ℕ
ceiling = 5000000000

abbrev pub default_wait : ℕ
default_wait = 1000000000

-- what the two maps hold of one resource type
pub record Ring : Type 0 where
  pub samples : List ℕ
  pub next : ℕ

pub record Tracker : Type 0 where
  pub ring_of : String → Ring

unfoldable pub new_tracker : Tracker
new_tracker = record { ring_of = λ t. record { samples = []; next = 0 } }

-- `held[at] = took`; `none` is the panic of an index out of range
unfoldable pub set_at : ℕ → ℕ → List ℕ → Option (List ℕ)
set_at at took [] = none
set_at zero took (x ∷ xs) = some (took ∷ xs)
set_at (suc at) took (x ∷ xs) = elim (set_at at took xs) [ some ys ↦ some (x ∷ ys) | none ↦ none ]

abbrev pub overwrite : ℕ → Option (List ℕ) → Option Ring
overwrite at none = none
overwrite at (some held) = some (record { samples = held; next = (at + 1) % window })

-- Observe, on the ring of its resource type
unfoldable pub observe_ring : ℕ → Ring → Option Ring
observe_ring took r =
    if ltb (length r.samples) window
    then some (record r { samples = r.samples ++ took ∷ [] })
    else overwrite r.next (set_at r.next took r.samples)

abbrev pub with_ring : Tracker → String → Option Ring → Option Tracker
with_ring t name none = none
with_ring t name (some r) = some (record { ring_of = λ n. if n == name then r else t.ring_of n })

-- Observe
unfoldable pub observe : String → ℕ → Tracker → Option Tracker
observe name took t = with_ring t name (observe_ring took (t.ring_of name))

unfoldable pub insert : ℕ → List ℕ → List ℕ
insert d [] = d ∷ []
insert d (x ∷ xs) = let rest = insert d xs in if leb d x then d ∷ x ∷ xs else x ∷ rest

-- slices.Sort
unfoldable pub sort : List ℕ → List ℕ
sort [] = []
sort (d ∷ ds) = insert d (sort ds)

unfoldable pub get_elem? : List ℕ → ℕ → Option ℕ
get_elem? [] at = none
get_elem? (x ∷ xs) zero = some x
get_elem? (x ∷ xs) (suc at) = get_elem? xs at

unfoldable pub clamp : ℕ → ℕ
clamp d = if ltb d floor then floor else if ltb ceiling d then ceiling else d

abbrev pub clamped : Option ℕ → Option ℕ
clamped none = none
clamped (some d) = some (clamp d)

unfoldable pub advise : List ℕ → Option ℕ
advise [] = some default_wait
advise (x ∷ xs) = clamped (get_elem? (sort (x ∷ xs)) ((length (x ∷ xs) - 1) * 95 / 100))

-- RetryAfter; `none` is the panic of an index out of range
unfoldable pub retry_after : String → Tracker → Option ℕ
retry_after name t = advise (t.ring_of name).samples
