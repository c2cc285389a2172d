-- ===== src/Reconcile/Sweep.antt =====
-- What a sweep does to the tables and what its summary counts.
use idemio.Prelude.{
  ℕ, suc, ◌+◌, ◌≤◌, Bool, true, false, Option, none, some, List, [], ◌∷◌, ◌≡◌, refl, arith, Except,
  ok, err, length, String, ◌∙◌,
}
use idemio.Claim.{Status}
use idemio.Manifest.{Definition}
use idemio.Probe.{Outcome, Failure, probe}
use idemio.Reconcile.{
  Reconciler, Meets, Stale, State, Summary, settle, count_closed, record_outcome, close, conclude,
  resolve, resolve_all, sweep,
}
use idemio.Tables.{Fault}

-- the keys that a summary accounts for
abbrev pub counted : Summary → ℕ
counted s = s.done + s.failed + (s.indeterminate + s.unresolved)

-- one candidate adds one to one counter, or none when another process closed its key first
abbrev CountsOne : Summary → Summary → Type 0
CountsOne s s' = (s'.scanned ≡ s.scanned) × (counted s' ≤ counted s + 1)

closed_one : (status : Status) (s : Summary) → CountsOne s (count_closed status s)
closed_one Status.pending s = (refl, omega arith)
closed_one Status.done s = (refl, omega arith)
closed_one Status.failed s = (refl, omega arith)
closed_one Status.indeterminate s = (refl, omega arith)
closed_one Status.rejected s = (refl, omega arith)

settle_one :
    (status : Status) (s : Summary) (m : Except Fault Bool) → CountsOne s (settle status s m)
unfolding settle
settle_one status s (err e) = (refl, omega arith)
settle_one status s (ok false) = (refl, omega arith)
settle_one status s (ok true) = closed_one status s

module _ (r : Reconciler) where
  close_one :
      (m : Meets) (c : Stale) (status : Status) (result detail : String) (s : Summary) (w : State)
      → CountsOne s (close r m c status result detail s w).1
  unfolding close record_outcome
  close_one m c status result detail s w = settle_one status s _

  conclude_one :
      (m : Meets) (c : Stale) (reply : Except Failure (Outcome × String)) (s : Summary) (w : State)
      → CountsOne s (conclude r m c reply s w).1
  unfolding conclude
  conclude_one m c (err e) s w = (refl, omega arith)
  conclude_one m c (ok (Outcome.executed, x)) s w = close_one m c _ _ _ s w
  conclude_one m c (ok (Outcome.not_executed, x)) s w = close_one m c _ _ _ s w
  conclude_one m c (ok (Outcome.unknown, x)) s w = close_one m c _ _ _ s w

  resolve_one :
      (m : Meets) (c : Stale) (d : Option Definition) (s : Summary) (w : State)
      → CountsOne s (resolve r m c d s w).1
  unfolding resolve
  resolve_one m c none s w = close_one m c _ _ _ s w
  resolve_one m c (some d) s w =
      conclude_one m c (probe m.network d.probe_path c.agent_id c.key) s w

  resolve_all_counts :
      (meets : ℕ → Meets) (n : ℕ) (cs : List Stale) (s : Summary) (w : State)
      → let s' = (resolve_all r meets n cs s w).1 in
        (s'.scanned ≡ s.scanned) × (counted s' ≤ counted s + length cs)
  unfolding resolve_all
  resolve_all_counts meets n [] s w = (refl, omega arith)
  resolve_all_counts meets n (c ∷ cs) s w =
      let one = resolve_one (meets n) c ((meets n).lookup c.resource_type) s w in
      let next = resolve r (meets n) c ((meets n).lookup c.resource_type) s w in
      let rest = resolve_all_counts meets (suc n) cs next.1 next.0 in
      (rest.0 ∙ one.0, omega (arith, one.1, rest.1))

  -- A sweep whose query answers returns a summary: it scanned every candidate, and its counters
  -- together account for no more keys than it scanned.
  pub sweep_counts :
      (meets : ℕ → Meets) (cs : List Stale) (w : State)
      → (s : Summary) × ((sweep r meets (ok cs) w).1 ≡ ok s)
        × (s.scanned ≡ length cs)
        × (counted s ≤ s.scanned)
  unfolding sweep
  sweep_counts meets cs w =
      let start : Summary = record {
        scanned = length cs;
        done = 0;
        failed = 0;
        indeterminate = 0;
        unresolved = 0;
      } in
      let (same, bound) = resolve_all_counts meets 0 cs start w in
      ((resolve_all r meets 0 cs start w).1, refl, same, omega (arith, same, bound))
