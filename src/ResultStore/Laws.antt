-- ===== src/ResultStore/Laws.antt =====
-- A result is never lost by where it is put.
use text.Mathlib.TextLemmas.{append-eq-nil_iff}
use idemio.Prelude.{
  String, Bool, true, false, not, ◌||◌, Option, none, some, ◌≡◌, refl, arith, ◌==◌, eq_iff, eq_refl,
  ok, Bool-cases, inl, inr, leb_int, pos, codes,
}
use idemio.ResultStore.{
  Store, Bucket, byte_length, ref_of, offload, place_in, place, put, fetch, fetch_with, resolve,
}

ref-ne-empty :
    (digest : String → String) (agent key : String) → (ref_of digest agent key == "") ≡ false
unfolding ref_of
ref-ne-empty digest agent key = elim (Bool-cases (ref_of digest agent key == "")) [
  | inl e ↦ cc (append-eq-nil_iff.0 ((eq_iff (ref_of digest agent key) "").0 e)).0
  | inr e ↦ e
]

has-object : (a b c : Bool) → (a || (not b || c)) ≡ false → b ≡ true
has-object a b c h = ground arith

module _ (digest : String → String) (b : Bucket) (agent key result : String) where
  -- A placement never fills both the inline column and the reference.
  pub place_one_column :
      (s : Option Store)
      → let p = (place digest s b agent key result).0 in ((p.inline == "") || (p.ref == "")) ≡ true
  unfolding place place_in offload
  place_one_column none = ground arith
  place_one_column (some s) =
      elim (Bool-cases (
        result == ""
        || (not s.has_objects || leb_int (pos (byte_length (codes result))) s.inline_cap))) [
          | inl e ↦ rw e (ground arith)
          | inr e ↦
              rw e (elim (Bool-cases b.puts) [ inl f ↦ rw f refl | inr f ↦ rw f (ground arith) ])
        ]

  -- What is placed is what is resolved, wherever it went, while the bucket answers reads.
  pub resolve-place :
      (s : Option Store)
      → b.gets ≡ true
      → let (p, after) = place digest s b agent key result in
        resolve s after p.inline p.ref ≡ ok result
  unfolding place place_in offload resolve fetch_with fetch put
  resolve-place none up = refl
  resolve-place (some s) up =
      elim (Bool-cases (
        result == ""
        || (not s.has_objects || leb_int (pos (byte_length (codes result))) s.inline_cap))) [
          | inl e ↦ rw e refl
          | inr e ↦ rw e (elim (Bool-cases b.puts) [
            | inl f ↦
                rw
                  (
                    f,
                    ref-ne-empty digest agent key,
                    has-object (result == "") s.has_objects _ e,
                    up,
                    eq_refl (ref_of digest agent key),
                  )
                  refl
            | inr f ↦ rw f refl
          ])
        ]
