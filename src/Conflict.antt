-- ===== src/Conflict.antt =====
-- internal/conflict/conflict.go: which two operations may run side by side.
pub mod Segments
pub mod Matrix
use Prim.Native.String.{◌++◌ as ◌⧺◌}
use idemio.Prelude.{
  ℕ, String, Bool, true, false, not, ◌&&◌, ◌||◌, List, [], ◌∷◌, ◌++◌, ◌==◌, any, codes, has_prefix,
  if◌then◌else◌,
}
use idemio.Manifest.{Operation, is_nil, class_append, class_mutate}

-- `a == b`, or one is the other followed by a dot and more
unfoldable pub overlaps : String → String → Bool
unfolding has_prefix
overlaps a b =
    a == b
    || (has_prefix (codes a) (codes b ++ b'.' ∷ []) || has_prefix (codes b) (codes a ++ b'.' ∷ []))

-- the two nested loops, which return false at the first overlap
unfoldable pub scopes_disjoint : List String → List String → Bool
unfolding overlaps any
scopes_disjoint a b =
    if is_nil a || is_nil b
    then false
    else not (any (λ left. any (λ right. overlaps left right) b) a)

-- the cases of the `switch`, in its order
unfoldable pub compatible : Operation → Operation → Bool
unfolding scopes_disjoint
compatible a b =
    if a.class == class_append && b.class == class_append
    then true
    else if a.class == class_append && b.class == class_mutate
        || a.class == class_mutate && b.class == class_append
    then true
    else if a.class == class_mutate && b.class == class_mutate
    then scopes_disjoint a.scope b.scope
    else false

-- strings.Join
join : String → List String → String
join sep [] = ""
join sep (x ∷ []) = x
join sep (x ∷ y ∷ ys) = x ⧺ sep ⧺ join sep (y ∷ ys)

scope_text : List String → String
unfolding join
scope_text [] = "(whole resource)"
scope_text (x ∷ xs) = "[" ⧺ join " " (x ∷ xs) ⧺ "]"

unfoldable pub reason : Operation → Operation → String
unfolding scope_text
reason incoming existing =
    if incoming.class == class_mutate && existing.class == class_mutate
    then "mutate/mutate with overlapping scope "
      ⧺ scope_text incoming.scope
      ⧺ " and "
      ⧺ scope_text existing.scope
    else incoming.class ⧺ "/" ⧺ existing.class
