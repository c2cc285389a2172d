-- ===== src/Api/Reads/Bounds.antt =====
-- What a window that is read is bounded by.
use mathlib.Core.Path.{subst}
use idemio.Prelude.{
  or_fail, ℕ, ◌≤◌, ◌<◌, ◌-◌, String, Bool, true, false, not, ◌&&◌, ◌≡◌, refl, sym, arith, ok,
  >>=-eq-ok, inl, inr, if-cases, ◌==◌, ltb, leb, ℤ, pos, negsuc,
}
use idemio.Api.Reads.{
  Formats, Query, Window, WindowProblem, since_required, until_not_after, span_too_wide, bad_since,
  bad_limit, check, read_window, read_until, read_limit, read_cursor, to_limit,
}

check_passes : (b : Bool) (p : WindowProblem) {u : Unit {0}} → check b p ≡ ok u → b ≡ true
check_passes true p h = refl
check_passes false p h = cc

to_limit-bounds : {n : ℕ} (z : ℤ) → to_limit z ≡ ok n → (1 ≤ n) × (n ≤ 1000)
to_limit-bounds {n} (pos m) h = elim (if-cases (leb 1 m && leb m 1000) _ _ h) [
  | inl (e, k) ↦ let same : m ≡ n = cc k in rw (sym same) (ground (arith, e), ground (arith, e))
  | inr (e, k) ↦ absurd (cc k)
]
to_limit-bounds {n} (negsuc m) h = cc

read_limit-bounds :
    {n : ℕ} (f : Formats) (raw : String) → read_limit f raw ≡ ok n → (1 ≤ n) × (n ≤ 1000)
unfolding read_limit
read_limit-bounds {n} f raw h = elim (if-cases (raw == "") _ _ h) [
  | inl (e, k) ↦ let same : 100 ≡ n = cc k in rw (sym same) (omega arith, omega arith)
  | inr (e, k) ↦
      let (z, parsed, bounded) = >>=-eq-ok (or_fail (f.atoi raw) bad_limit) _ k in
      to_limit-bounds z bounded
]

abbrev pub IsBounded : ℕ → Window → Type 0
IsBounded max_span w =
    (w.since < w.until) × (w.until - w.since ≤ max_span) × ((1 ≤ w.limit) × (w.limit ≤ 1000))

-- A window that is read is not empty and not wider than the maximal span, and its limit is
-- between 1 and 1000.
pub read_window-bounds :
    (f : Formats) (max_span now : ℕ) (q : Query) (w : Window)
    → read_window f max_span now q ≡ ok w
    → IsBounded max_span w
unfolding read_window
read_window-bounds f max_span now q w h =
    let (_, required, h₁) = >>=-eq-ok (check (not (q.since == "")) since_required) _ h in
    let (since, parsed, h₂) = >>=-eq-ok (or_fail (f.parse_time q.since) bad_since) _ h₁ in
    let (until, ended, h₃) = >>=-eq-ok (read_until f now q.until) _ h₂ in
    let (_, after, h₄) = >>=-eq-ok (check (ltb since until) until_not_after) _ h₃ in
    let (_, narrow, h₅) = >>=-eq-ok (check (leb (until - since) max_span) span_too_wide) _ h₄ in
    let (limit, limited, h₆) = >>=-eq-ok (read_limit f q.limit) _ h₅ in
    let (cursor, read, made) = >>=-eq-ok (read_cursor f q.cursor) _ h₆ in
    let same : record { since = since; until = until; limit = limit; cursor = cursor } ≡ w =
      cc made in
    subst (IsBounded max_span) same (
      ground (arith, check_passes (ltb since until) until_not_after after),
      ground (arith, check_passes (leb (until - since) max_span) span_too_wide narrow),
      read_limit-bounds f q.limit limited,
    )
