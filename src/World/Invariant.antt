-- ===== src/World/Invariant.antt =====
-- A key's write is executed at most once.
use mathlib.Core.Option
use mathlib.Core.Path.{subst}
use idemio.Reconcile.Settle.{by_count, outcome-by_count}
use idemio.Prelude.{
  ℕ, zero, suc, sym, pos, ◌≤◌, Bool, true, false, List, [], ◌∷◌, ◌≡◌, Option, none, some, refl,
  arith,
}
use idemio.Api.Execute.{status_for}
use idemio.Claim.{Status}
use idemio.Claim.Statements.{is_failed}
use idemio.Claim.Transaction.Effect.{WasFree}
use idemio.Downstream.{Disposition}
use idemio.Tables.{KeyRow}
use idemio.World.{Worker, waiting, in_flight, answered, count_run, counted_status}

-- the executions of a write that is done, under the whole promise of the downstream or half of it
abbrev Done : Bool → ℕ → Type 0
Done true e = e ≡ 1
Done false e = e ≤ 1

-- what a status says of the number of executions
abbrev pub Admits : Bool → Status → ℕ → Type 0
Admits whole Status.pending e = ⊥
Admits whole Status.done e = Done whole e
Admits whole Status.failed e = e ≡ 0
Admits whole Status.indeterminate e = e ≤ 1
Admits whole Status.rejected e = e ≡ 0

once-Done : (whole : Bool) (e : ℕ) → e ≡ 1 → Done whole e
once-Done true e h = h
once-Done false e h = omega (arith, h)

few-Done : (whole : Bool) (e : ℕ) → Done whole e → e ≤ 1
few-Done true e h = omega (arith, h)
few-Done false e h = h

module _ (whole : Bool) where
  -- what holds while one process is at work
  abbrev pub Holds : Worker → ℕ → Type 0
  Holds waiting e = e ≡ 0
  Holds in_flight e = e ≡ 0
  Holds (answered c) e = (e ≤ 1) × Admits whole c.status e

  abbrev pub Slot : ℕ → List Worker → Type 0
  Slot e [] = e ≤ 1
  Slot e (x ∷ []) = Holds x e
  Slot e (x ∷ y ∷ ws) = ⊥

  -- the status of the key, its executions and its processes fit together
  abbrev pub Fits : Option Status → ℕ → List Worker → Type 0
  Fits none e ws = (e ≡ 0) × (ws ≡ [])
  Fits (some Status.pending) e ws = Slot e ws
  Fits (some s) e ws = Admits whole s e × (ws ≡ [])

  pub at_most : (o : Option Status) (e : ℕ) (ws : List Worker) → Fits o e ws → e ≤ 1
  at_most none e ws (zero_runs, _) = omega (arith, zero_runs)
  at_most (some Status.pending) e [] h = h
  at_most (some Status.pending) e (waiting ∷ []) h = omega (arith, h)
  at_most (some Status.pending) e (in_flight ∷ []) h = omega (arith, h)
  at_most (some Status.pending) e (answered c ∷ []) (few, _) = few
  at_most (some Status.pending) e (x ∷ y ∷ ws) h = absurd h
  at_most (some Status.done) e ws (one, _) = few-Done whole e one
  at_most (some Status.failed) e ws (zero_runs, _) = omega (arith, zero_runs)
  at_most (some Status.indeterminate) e ws (few, _) = few
  at_most (some Status.rejected) e ws (zero_runs, _) = omega (arith, zero_runs)

  free_status :
      (s : Status) (e : ℕ) (ws : List Worker)
      → is_failed s ≡ true
      → Fits (some s) e ws
      → (e ≡ 0) × (ws ≡ [])
  free_status Status.pending e ws h f = cc
  free_status Status.done e ws h f = cc
  free_status Status.failed e ws h f = f
  free_status Status.indeterminate e ws h f = cc
  free_status Status.rejected e ws h f = cc

  -- a key that may be claimed was not executed, and nobody is at work on it
  pub free-Fits :
      (o : Option KeyRow) (e : ℕ) (ws : List Worker)
      → WasFree o
      → Fits (Option.map (λ (r : KeyRow). r.status) o) e ws
      → (e ≡ 0) × (ws ≡ [])
  free-Fits none e ws free f = f
  free-Fits (some r) e ws free f = free_status r.status e ws free f

  -- a process is at work only on a pending key, and alone
  pub busy-Fits :
      (o : Option Status) (e : ℕ) (x : Worker) (rest : List Worker)
      → Fits o e (x ∷ rest)
      → (o ≡ some Status.pending) × (rest ≡ []) × Holds x e
  busy-Fits none e x rest (_, h) = cc
  busy-Fits (some Status.pending) e x [] h = (refl, refl, h)
  busy-Fits (some Status.pending) e x (y ∷ rest) h = absurd h
  busy-Fits (some Status.done) e x rest (_, h) = cc
  busy-Fits (some Status.failed) e x rest (_, h) = cc
  busy-Fits (some Status.indeterminate) e x rest (_, h) = cc
  busy-Fits (some Status.rejected) e x rest (_, h) = cc

  pub idle-Fits : (e : ℕ) (x : Worker) → Holds x e → Fits (some Status.pending) e []
  idle-Fits e waiting h = omega (arith, h)
  idle-Fits e in_flight h = omega (arith, h)
  idle-Fits e (answered c) (few, _) = few

  pub closed-Fits : (s : Status) (e : ℕ) → Admits whole s e → Fits (some s) e []
  closed-Fits Status.pending e h = absurd h
  closed-Fits Status.done e h = (h, refl)
  closed-Fits Status.failed e h = (h, refl)
  closed-Fits Status.indeterminate e h = (h, refl)
  closed-Fits Status.rejected e h = (h, refl)

  pub few_runs : (ran : Bool) → count_run ran 0 ≤ 1
  few_runs true = omega arith
  few_runs false = omega arith

  -- the outcome of a truthful call admits the execution that it made, if it made one
  pub call-Admits :
      (d : Disposition) (ran : Bool)
      → (d ≡ Disposition.failed → ran ≡ false)
      → (whole ≡ true → d ≡ Disposition.done → ran ≡ true)
      → Admits whole (status_for d) (count_run ran 0)
  unfolding status_for
  call-Admits Disposition.done ran f t = done_runs whole t
    where
      done_runs :
          (b : Bool)
          → (b ≡ true → Disposition.done ≡ Disposition.done → ran ≡ true)
          → Done b (count_run ran 0)
      done_runs true t = rw (t refl refl) refl
      done_runs false t = few_runs ran
  call-Admits Disposition.failed ran f t = rw (f refl) refl
  call-Admits Disposition.indeterminate true f t = omega arith
  call-Admits Disposition.indeterminate false f t = omega arith

  count_few : (e : ℕ) → e ≤ 1 → Admits whole (by_count (pos e)) e
  count_few zero few = refl
  count_few (suc e) few = once-Done whole (suc e) (omega (arith, few))

  pub count-Admits : (e : ℕ) → e ≤ 1 → Admits whole (counted_status e) e
  count-Admits e few =
      subst (λ s. Admits whole s e)
        (sym (outcome-by_count (record { executions = pos e; result = "" }))) (count_few e few)
