-- ===== src/Latency/Bounds.antt =====
-- The tracker never indexes out of range, and its advice is between the floor and the ceiling.
use idemio.Prelude.{
  ℕ, zero, suc, ◌+◌, ◌-◌, ◌*◌, ◌/◌, ◌%◌, ◌≤◌, ◌<◌, String, some, List, [], ◌∷◌, ◌++◌, if◌then◌else◌,
  ◌==◌, ◌≡◌, refl, ap, ◌∙◌, arith, ltb, leb, length, length-append, Bool-cases, inl, inr, ltb→lt,
}
use idemio.Latency.{
  window, floor, ceiling, default_wait, Ring, Tracker, set_at, observe_ring, observe, insert, sort,
  get_elem?, clamp, advise, retry_after,
}

-- a ring holds at most a window of samples, and its cursor is inside the window
abbrev pub IsBounded : Ring → Type 0
IsBounded r = (length r.samples ≤ 256) × (r.next < 256)

abbrev pub AllBounded : Tracker → Type 0
AllBounded t = (name : String) → IsBounded (t.ring_of name)

length-set_at :
    (at took : ℕ) (xs : List ℕ)
    → at < length xs
    → (ys : List ℕ) × (set_at at took xs ≡ some ys) × (length ys ≡ length xs)
unfolding set_at
length-set_at at took [] h = absurd (omega (arith, h))
length-set_at zero took (x ∷ xs) h = (took ∷ xs, refl, refl)
length-set_at (suc at) took (x ∷ xs) h =
    let (ys, e, l) = length-set_at at took xs (omega (arith, h)) in (x ∷ ys, rw e refl, ap suc l)

ring-IsBounded :
    (took : ℕ) (r : Ring)
    → IsBounded r
    → (r' : Ring) × (observe_ring took r ≡ some r') × IsBounded r'
unfolding observe_ring
ring-IsBounded took r (few, inside) = elim (Bool-cases (ltb (length r.samples) window)) [
  | inl e ↦
      let room = ltb→lt (length r.samples) 256 e in
      (
        record r { samples = r.samples ++ took ∷ [] },
        rw e refl,
        (omega (arith, length-append r.samples (took ∷ []), room), inside),
      )
  | inr e ↦
      let (ys, s, l) = length-set_at r.next took r.samples (ground (arith, e, inside)) in
      (
        record { samples = ys; next = (r.next + 1) % window },
        rw (e, s) refl,
        (omega (arith, l, few), omega arith),
      )
]

-- Of a tracker that holds at most 256 samples of each resource type with its cursor among them,
-- observing a call does not index out of range and leaves such a tracker.
pub observe-AllBounded :
    (name : String) (took : ℕ) (t : Tracker)
    → AllBounded t
    → (t' : Tracker) × (observe name took t ≡ some t') × AllBounded t'
unfolding observe
observe-AllBounded name took t all =
    let (r, e, bounded) = ring-IsBounded took (t.ring_of name) (all name) in
    (
      record { ring_of = λ n. if n == name then r else t.ring_of n },
      rw e refl,
      λ n. elim (Bool-cases (n == name)) [ inl f ↦ rw f bounded | inr f ↦ rw f (all n) ],
    )

length-insert : (d : ℕ) (xs : List ℕ) → length (insert d xs) ≡ suc (length xs)
unfolding insert
length-insert d [] = refl
length-insert d (x ∷ xs) = elim (Bool-cases (leb d x)) [
  | inl e ↦ rw e refl
  | inr e ↦ rw e (ap suc (length-insert d xs))
]

length-sort : (xs : List ℕ) → length (sort xs) ≡ length xs
unfolding sort
length-sort [] = refl
length-sort (x ∷ xs) = length-insert x (sort xs) ∙ ap suc (length-sort xs)

get-in_range : (xs : List ℕ) (at : ℕ) → at < length xs → (d : ℕ) × (get_elem? xs at ≡ some d)
unfolding get_elem?
get-in_range [] at h = absurd (omega (arith, h))
get-in_range (x ∷ xs) zero h = (x, refl)
get-in_range (x ∷ xs) (suc at) h = get-in_range xs at (omega (arith, h))

clamp_bounds : (d : ℕ) → (floor ≤ clamp d) × (clamp d ≤ ceiling)
unfolding clamp
clamp_bounds d = (ground arith, ground arith)

advise_bounds : (held : List ℕ) → (d : ℕ) × (advise held ≡ some d) × (floor ≤ d) × (d ≤ ceiling)
unfolding advise
advise_bounds [] = (default_wait, refl, omega arith, omega arith)
advise_bounds (x ∷ xs) =
    let (d, e) =
      get-in_range (sort (x ∷ xs)) ((length (x ∷ xs) - 1) * 95 / 100)
        (omega (arith, length-sort (x ∷ xs))) in
    let (low, high) = clamp_bounds d in (clamp d, rw e refl, low, high)

-- Of every tracker the advice does not index out of range, and it is no less than 50 milliseconds
-- and no more than five seconds.
pub retry_after_bounds :
    (name : String) (t : Tracker)
    → (d : ℕ) × (retry_after name t ≡ some d) × (50000000 ≤ d) × (d ≤ 5000000000)
unfolding retry_after
retry_after_bounds name t = advise_bounds (t.ring_of name).samples
