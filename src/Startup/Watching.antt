-- ===== src/Startup/Watching.antt =====
-- The activations that a process records while it watches its manifests.
use mathlib.Core.Path.{subst}
use idemio.Prelude.{
  ◌≤◌, String, Bool, true, false, ◌&&◌, List, [], ◌∷◌, ◌≡◌, refl, sym, arith, ◌>>=◌, ◌==◌, eq_iff,
  eq_refl, and-eq-true, any, count_where, Except, ok, err, Bool-cases, inl, inr,
}
use idemio.Manifest.Load.{Snapshot, Loader, LoadFailure, reload, served, accept, load}
use idemio.Startup.Activation.{
  Activation, is_activation, insert_activation, record_activation, Watched, Tick, after_reload,
  tick, watch,
}
use idemio.Tables.Laws.{count-none_of_any}

-- a principal has one row for a version at most
abbrev pub IsOnce : List Activation → Type 0
IsOnce rows = (who version : String) → count_where (is_activation who version) rows ≤ 1

insert-IsOnce :
    (who : String) (s : Snapshot) (rows : List Activation)
    → IsOnce rows
    → IsOnce (insert_activation who s rows)
unfolding insert_activation count_where
insert-IsOnce who s rows once = λ a b. elim (Bool-cases (any (is_activation who s.version) rows)) [
  | inl e ↦ rw e (once a b)
  | inr e ↦ rw e (elim (Bool-cases (who == a && s.version == b)) [
    | inl f ↦
        let (own, same) = and-eq-true _ _ f in
        let none_yet : count_where (is_activation a b) rows ≡ 0 =
          rw (← (eq_iff who a).0 own, ← (eq_iff s.version b).0 same)
            (count-none_of_any (is_activation who s.version) rows e) in
        rw (f, none_yet) (omega arith)
    | inr f ↦ rw f (once a b)
  ])
]

inserted :
    (who : String) (s : Snapshot) (rows : List Activation)
    → any (is_activation who s.version) (insert_activation who s rows) ≡ true
unfolding insert_activation any
inserted who s rows = elim (Bool-cases (any (is_activation who s.version) rows)) [
  | inl e ↦ rw e e
  | inr e ↦ rw (e, eq_refl who, eq_refl s.version) refl
]

-- what holds of a watching process whose records do not fail
abbrev pub IsRecorded : String → Watched → Type 0
IsRecorded who w =
    IsOnce w.activations × (any (is_activation who w.current.version) w.activations ≡ true)

module _ (who : String) where
  served-IsRecorded :
      (w : Watched) (m : Except LoadFailure Snapshot)
      → IsRecorded who w
      → IsRecorded who (after_reload who false w (served w.current m))
  unfolding served record_activation
  served-IsRecorded w (err e) h = h
  served-IsRecorded w (ok s) (once, recorded) =
      (insert-IsOnce who s w.activations once, inserted who s w.activations)

  served-IsOnce :
      (w : Watched) (fails : Bool) (m : Except LoadFailure Snapshot)
      → IsOnce w.activations
      → IsOnce (after_reload who fails w (served w.current m)).activations
  unfolding served record_activation
  served-IsOnce w fails (err e) h = h
  served-IsOnce w true (ok s) h = h
  served-IsOnce w false (ok s) h = insert-IsOnce who s w.activations h

  watch-IsOnce :
      (l : Loader) (ts : List Tick) (w : Watched)
      → IsOnce w.activations
      → IsOnce (watch l who ts w).activations
  unfolding watch tick reload
  watch-IsOnce l [] w h = h
  watch-IsOnce l (t ∷ ts) w h =
      watch-IsOnce l ts (tick l who t w)
        (served-IsOnce w t.record_fails (load l t.files >>= λ s. accept w.current s) h)

  watch_healthy :
      (l : Loader) (ts : List Tick) (w : Watched)
      → any (λ (t : Tick). t.record_fails) ts ≡ false
      → IsRecorded who w
      → IsRecorded who (watch l who ts w)
  unfolding watch tick reload any
  watch_healthy l [] w healthy h = h
  watch_healthy l (t ∷ ts) w healthy h = elim (Bool-cases t.record_fails) [
    | inl e ↦ absurd (ground (arith, healthy, e))
    | inr e ↦ watch_healthy l ts (tick l who t w) (ground (arith, healthy, e)) (
        subst (λ b. IsRecorded who (after_reload who b w (reload l t.files w.current))) (sym e)
          (served-IsRecorded w (load l t.files >>= λ s. accept w.current s) h))
  ]

  -- Over any ticks of a watching process a principal has one row at most for each version, and if no
  -- record of an activation failed the version in force has a row, when that held at its start.
  pub watch-IsRecorded :
      (l : Loader) (ts : List Tick) (w : Watched)
      → IsRecorded who w
      → IsOnce (watch l who ts w).activations
        × (any (λ (t : Tick). t.record_fails) ts ≡ false → IsRecorded who (watch l who ts w))
  watch-IsRecorded l ts w (once, recorded) =
      (watch-IsOnce l ts w once, λ healthy. watch_healthy l ts w healthy (once, recorded))
